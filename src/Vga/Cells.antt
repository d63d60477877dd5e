-- ===== src/Vga/Cells.antt =====
-- The cell that a byte is written to.
use llm_os_rust.Base.{
  ℕ, zero, suc, ◌-◌, ◌<◌, ◌≡◌, refl, ap, ◌∙◌, false, List, [], ◌∷◌, arith, some, length, set,
  get_elem?, ◌==◌, leb, Bool-cases, inl, inr, get_elem?_within,
}
use llm_os_rust.Vga.{
  ScreenChar, Buffer, Row, Writer, buffer_height, buffer_width, read_cell, write_cell, new_line,
  clear_row, put_char, write_byte,
}
use llm_os_rust.Vga.Scroll.{HasWidth, IsShaped}
use llm_os_rust.Vga.Invariant.{IsValid, new_line-IsValid, All-get}
use llm_os_rust.Vga.Frame.{cell_for}

get_elem?-set :
    {A : Type 0} (xs : List A) (i : ℕ) (v : A) → i < length xs → get_elem? (set xs i v) i ≡ some v
get_elem?-set [] i v lt = absurd (omega arith)
get_elem?-set (x ∷ xs) zero v lt = refl
get_elem?-set (x ∷ xs) (suc i) v lt = get_elem?-set xs i v (omega arith)

write_cell_found :
    (row col : ℕ) (c : ScreenChar) (b : Buffer) (cells : Row)
    → get_elem? b row ≡ some cells
    → write_cell row col c b ≡ set b row (set cells col c)
unfolding write_cell
write_cell_found row col c b cells found = rw (found, write_cell)

read_cell_found :
    (row col : ℕ) (b : Buffer) (cells : Row)
    → get_elem? b row ≡ some cells
    → read_cell row col b ≡ get_elem? cells col
unfolding read_cell
read_cell_found row col b cells found = rw (found, read_cell)

read_cell-write_cell :
    (row col : ℕ) (c : ScreenChar) (b : Buffer)
    → IsShaped b
    → row < buffer_height
    → col < buffer_width
    → read_cell row col (write_cell row col c b) ≡ some c
read_cell-write_cell row col c b h r k =
    let (cells, found) = get_elem?_within b row (omega (arith, h.height)) in
    let wide : length cells ≡ buffer_width = All-get HasWidth b row cells h.width found in
    ap (read_cell row col) (write_cell_found row col c b cells found)
    ∙ read_cell_found row col (set b row (set cells col c)) (set cells col c)
        (get_elem?-set b row (set cells col c) (omega (arith, h.height)))
    ∙ get_elem?-set cells col c (omega arith)

put_char_cell :
    (byte : ℕ) (w : Writer)
    → IsValid w
    → w.column_position < buffer_width
    → read_cell (buffer_height - 1) ((put_char byte w).column_position - 1) (put_char byte w).buffer
      ≡ some (cell_for w byte)
unfolding put_char
put_char_cell byte w h lt =
    ap (λ n. read_cell 24 n (put_char byte w).buffer) (omega arith)
    ∙ read_cell-write_cell 24 w.column_position (cell_for w byte) w.buffer h.shaped (omega arith) lt

-- On a screen of twenty-five rows of eighty cells with the column in the row, a byte other than
-- a newline stands in the cell of the last row in front of the column that it leaves, in the
-- color of the writer, also where the line is full and a new one is begun for it.
pub write_byte_cell :
    (byte : ℕ) (w : Writer)
    → IsValid w
    → (byte == b'\n') ≡ false
    → read_cell
        (buffer_height - 1)
        ((write_byte byte w).column_position - 1)
        (write_byte byte w).buffer
      ≡ some (cell_for w byte)
unfolding write_byte new_line clear_row
write_byte_cell byte w h other = elim (Bool-cases (leb buffer_width w.column_position)) [
  | inl full ↦
      rw (other, full)
        (put_char_cell byte (new_line w) (new_line-IsValid w h) (unfold new_line in omega arith))
  | inr room ↦ rw (other, room) (put_char_cell byte w h (ground arith))
]
