-- ===== src/Vga/Frame.antt =====
-- Where the writer puts a character, and what it leaves alone.
use llm_os_rust.Base.{
  ℕ, ◌+◌, ◌-◌, ◌≤◌, ◌<◌, ◌≡◌, ap, sym, ◌∙◌, Bool, false, List, [], ◌∷◌, ◌++◌, length, set, map,
  arith, All, ◌==◌, leb, if◌then◌else◌, append_assoc, set-append, length-append_last, append-nil,
}
use llm_os_rust.Vga.{
  ScreenChar, Row, Buffer, Writer, buffer_height, buffer_width, write_cell, new_line, put_char,
  write_byte, write_bytes, shown,
}
use llm_os_rust.Vga.Scroll.{write_cell-rows}

-- The cell that shows a byte in the writer's colour.
abbrev pub cell_for : Writer → ℕ → ScreenChar
cell_for w byte = record { ascii_character = byte; color_code = w.color }

-- The rows above the last, the last row up to the column, and what is behind it.
pub record IsSplit (w : Writer) (above : Buffer) (before after : Row) : Type 0 where
  pub rows : w.buffer ≡ above ++ (before ++ after) ∷ []
  pub last : length above ≡ buffer_height - 1
  pub column : w.column_position ≡ length before

-- A byte that is shown, other than a newline.
abbrev pub IsShown : ℕ → Type 0
IsShown byte = ((byte == b'\n') ≡ false) × (shown byte ≡ byte)

pub put_char-IsSplit :
    (byte : ℕ) (w : Writer) (above : Buffer) (before after : Row) (c : ScreenChar)
    → IsSplit w above before (c ∷ after)
    → IsSplit (put_char byte w) above (before ++ cell_for w byte ∷ []) after
unfolding put_char
put_char-IsSplit byte w above before after c h = record {
  rows =
      ap (write_cell (buffer_height - 1) w.column_position (cell_for w byte)) h.rows
      ∙ ap
          (λ n.
            write_cell n w.column_position (cell_for w byte) (above ++ (before ++ c ∷ after) ∷ []))
          (sym h.last)
      ∙ write_cell-rows above (before ++ c ∷ after) [] w.column_position (cell_for w byte)
      ∙ ap (λ n. above ++ set (before ++ c ∷ after) n (cell_for w byte) ∷ []) h.column
      ∙ ap (λ r. above ++ r ∷ [])
          (set-append before c (cell_for w byte) after
            ∙ sym (append_assoc before (cell_for w byte ∷ []) after));
  last = h.last;
  column = omega (arith, h.column, length-append_last before (cell_for w byte));
}

write_byte_in_line :
    (byte : ℕ) (w : Writer)
    → IsShown byte
    → w.column_position < buffer_width
    → write_byte (shown byte) w ≡ put_char byte w
write_byte_in_line byte w (h, e) lt =
    ap (λ b. write_byte b w) e
    ∙ (unfold write_byte in
        rw h (ap (put_char byte) (stays (leb buffer_width w.column_position) (ground arith))))
  where
    stays : (b : Bool) → b ≡ false → (if b then new_line w else w) ≡ w
    stays b e = rw e

-- Bytes that are shown, none a newline, and that fit into what is left of the last row replace
-- its cells from the column on; the column is then behind them, and no other cell has changed.
pub write_bytes_in_line :
    (s : List ℕ) (w : Writer) (above : Buffer) (before over after : Row)
    → All IsShown s
    → length before + length s ≤ buffer_width
    → length over ≡ length s
    → IsSplit w above before (over ++ after)
    → IsSplit (write_bytes s w) above (before ++ map (cell_for w) s) after
unfolding write_bytes put_char
write_bytes_in_line [] w above before [] after shows fits len h = rw (append-nil before) h
write_bytes_in_line [] w above before (c ∷ over) after shows fits len h = absurd (omega arith)
write_bytes_in_line (byte ∷ s) w above before [] after shows fits len h = absurd (omega arith)
write_bytes_in_line (byte ∷ s) w above before (c ∷ over) after (here, shows) fits len h =
    rw (write_byte_in_line byte w here (omega (arith, h.column))) (
      rw (sym (append_assoc before (cell_for w byte ∷ []) (map (cell_for w) s))) (
        write_bytes_in_line s (put_char byte w) above (before ++ cell_for w byte ∷ []) over after
          shows (omega (arith, length-append_last before (cell_for w byte))) (omega arith)
          (put_char-IsSplit byte w above before (over ++ after) c h)))
