-- ===== src/Vga/Bytes.antt =====
-- What the cells of the screen can hold.
use llm_os_rust.Base.{
  All-replicate, ℕ, ◌^◌, ◌-◌, ◌<◌, ◌≤◌, ◌≡◌, refl, List, [], ◌∷◌, get_elem?, drop, replicate, arith,
  Option, none, some, All, All-append, All-drop, ◌==◌, leb, Bool-cases, false, ◌⊎◌, inl, inr,
  All-replicate,
}
use llm_os_rust.Text.{Text, bytes}
use llm_os_rust.Vga.{
  black, blue, green, cyan, red, magenta, brown, light_gray, dark_gray, light_blue, light_green,
  light_cyan, light_red, pink, yellow, white, ScreenChar, Row, Buffer, Writer, Color, color_value,
  color_code, buffer_height, buffer_width, write_cell, blank_for, new_line, put_char, write_byte,
  write_bytes, write_string, shown, initial_writer,
}
use llm_os_rust.Vga.Scroll.{new_line_scrolls}
use llm_os_rust.Vga.Invariant.{IsValid, All-set, All-get, new_line-IsValid, write_byte-IsValid}

-- A `ScreenChar` of the hardware: a character of printable ASCII or the placeholder 0xfe, and a
-- colour of one byte.
pub record IsCell (c : ScreenChar) : Type 0 where
  pub character :
      ((0x20 ≤ c.ascii_character) × (c.ascii_character ≤ 0x7e)) ⊎ (c.ascii_character ≡ 0xfe)
  pub colored : c.color_code < 2 ^ 8

-- The writer's colour is a byte, and so is what every cell has.
pub record IsScreen (w : Writer) : Type 0 where
  pub valid : IsValid w
  pub color : w.color < 2 ^ 8
  pub cells : All (All IsCell) w.buffer

color_value-small : (c : Color) → color_value c < 16
unfolding color_value
color_value-small black = omega arith
color_value-small blue = omega arith
color_value-small green = omega arith
color_value-small cyan = omega arith
color_value-small red = omega arith
color_value-small magenta = omega arith
color_value-small brown = omega arith
color_value-small light_gray = omega arith
color_value-small dark_gray = omega arith
color_value-small light_blue = omega arith
color_value-small light_green = omega arith
color_value-small light_cyan = omega arith
color_value-small light_red = omega arith
color_value-small pink = omega arith
color_value-small yellow = omega arith
color_value-small white = omega arith

pub color_code-byte : (foreground background : Color) → color_code foreground background < 2 ^ 8
unfolding color_code
color_code-byte foreground background =
    omega (arith, color_value-small foreground, color_value-small background)

write_cell-IsCell :
    (row col : ℕ) (c : ScreenChar) (b : Buffer)
    → IsCell c
    → All (All IsCell) b
    → All (All IsCell) (write_cell row col c b)
write_cell-IsCell row col c b hc h = written (get_elem? b row) refl
  where
    written : (o : Option Row) → get_elem? b row ≡ o → All (All IsCell) (write_cell row col c b)
    written none e = unfold write_cell in rw (e, write_cell) h
    written (some cells) e =
        unfold write_cell in
        rw (e, write_cell)
          (All-set (All IsCell) b row _ h
            (All-set IsCell cells col c (All-get (All IsCell) b row cells h e) hc))

new_line-IsScreen : (w : Writer) → IsScreen w → IsScreen (new_line w)
new_line-IsScreen w h = record {
  valid = new_line-IsValid w h.valid;
  color = unfold new_line llm_os_rust.Vga.clear_row in h.color;
  cells = rw (new_line_scrolls w h.valid.shaped) (
      All-append (All IsCell) (drop 1 w.buffer) (replicate buffer_width (blank_for w) ∷ [])
        (All-drop (All IsCell) 1 w.buffer h.cells)
        (
          All-replicate IsCell buffer_width (blank_for w) (
              unfold blank_for in
              record { character = inl (omega arith, omega arith); colored = h.color }),
          tt,
        ));
}

-- A byte that is written as a character.
abbrev Printable : ℕ → Type 0
Printable byte = ((0x20 ≤ byte) × (byte ≤ 0x7e)) ⊎ (byte ≡ 0xfe)

put_char-cells :
    (byte : ℕ) (w : Writer)
    → Printable byte
    → IsScreen w
    → All (All IsCell) (put_char byte w).buffer
unfolding put_char
put_char-cells byte w p h =
    write_cell-IsCell (buffer_height - 1) w.column_position _ w.buffer
      (record { character = p; colored = h.color }) h.cells

not_newline :
    (byte : ℕ) → (byte ≡ b'\n') ⊎ Printable byte → (byte == b'\n') ≡ false → Printable byte
not_newline byte (inl e) other = absurd (ground arith)
not_newline byte (inr p) other = p

put_char-IsScreen :
    (byte : ℕ) (w : Writer)
    → Printable byte
    → IsScreen w
    → IsValid (put_char byte w)
    → IsScreen (put_char byte w)
put_char-IsScreen byte w p h valid = record {
  valid = valid;
  color = unfold put_char in h.color;
  cells = put_char-cells byte w p h;
}

write_byte-IsScreen :
    (byte : ℕ) (w : Writer)
    → (byte ≡ b'\n') ⊎ Printable byte
    → IsScreen w
    → IsScreen (write_byte byte w)
write_byte-IsScreen byte w p h = elim (Bool-cases (byte == b'\n')) [
  | inl newline ↦ unfold write_byte in rw newline (new_line-IsScreen w h)
  | inr other ↦ elim (Bool-cases (leb buffer_width w.column_position)) [
    | inl full ↦
        unfold write_byte in
        rw (other, full)
          (put_char-IsScreen byte (new_line w) (not_newline byte p other) (new_line-IsScreen w h)
            (let v = write_byte-IsValid byte w h.valid in rw (other, full) at v))
    | inr room ↦
        unfold write_byte in
        rw (other, room)
          (put_char-IsScreen byte w (not_newline byte p other) h
            (let v = write_byte-IsValid byte w h.valid in rw (other, room) at v))
  ]
]

shown_cases : (byte : ℕ) → (shown byte ≡ b'\n') ⊎ Printable (shown byte)
unfolding shown
shown_cases byte = ground arith

write_bytes-IsScreen : (s : List ℕ) (w : Writer) → IsScreen w → IsScreen (write_bytes s w)
unfolding write_bytes
write_bytes-IsScreen [] w h = h
write_bytes-IsScreen (byte ∷ s) w h =
    write_bytes-IsScreen s (write_byte (shown byte) w)
      (write_byte-IsScreen (shown byte) w (shown_cases byte) h)

-- Printing any text on a screen of twenty-five rows of eighty cells, with the column at most at
-- the row's end, the color of the writer a byte, and every cell a printable ASCII character or
-- 0xfe in a color of a byte, leaves such a screen.
pub write_string-IsScreen : (s : Text) (w : Writer) → IsScreen w → IsScreen (write_string s w)
unfolding write_string
write_string-IsScreen s w h = write_bytes-IsScreen (bytes s) w h
