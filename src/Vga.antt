-- ===== src/Vga.antt =====
-- src/vga_buffer.rs: the writer of the VGA text buffer. The buffer is the list of its rows, a row
-- the list of its cells.
pub mod Scroll
pub mod Invariant
pub mod Frame
pub mod Append
pub mod Cells
pub mod Terminal
pub mod Bytes
pub mod Tests
use llm_os_rust.Base.{
  ℕ, zero, suc, ◌+◌, ◌-◌, ◌*◌, ◌%◌, ◌^◌, Bool, true, false, ◌&&◌, ◌||◌, List, [], ◌∷◌, ltb, leb,
  ◌==◌, if◌then◌else◌, set, get_elem?, Option, none, some, replicate, Result, ok,
}
use llm_os_rust.Text.{Text, bytes}

pub data Color : Type 0 where
  black blue green cyan red magenta brown light_gray : Color
  dark_gray light_blue light_green light_cyan light_red pink yellow white : Color

-- `color as u8`
unfoldable pub color_value : Color → ℕ
color_value black = 0
color_value blue = 1
color_value green = 2
color_value cyan = 3
color_value red = 4
color_value magenta = 5
color_value brown = 6
color_value light_gray = 7
color_value dark_gray = 8
color_value light_blue = 9
color_value light_green = 10
color_value light_cyan = 11
color_value light_red = 12
color_value pink = 13
color_value yellow = 14
color_value white = 15

-- `(background as u8) << 4 | (foreground as u8)`: the shift is one of a `u8`, and the low four bits
-- of what it gives are clear, so that the disjunction is a sum.
unfoldable pub color_code : Color → Color → ℕ
unfolding color_value
color_code foreground background = color_value background * 2 ^ 4 % 2 ^ 8 + color_value foreground

pub record ScreenChar : Type 0 where
  pub ascii_character : ℕ
  pub color_code : ℕ

abbrev pub buffer_height : ℕ
buffer_height = 25

abbrev pub buffer_width : ℕ
buffer_width = 80

abbrev pub Row : Type 0
Row = List ScreenChar

abbrev pub Buffer : Type 0
Buffer = List Row

pub record Writer : Type 0 where
  pub column_position : ℕ
  pub color : ℕ
  pub buffer : Buffer

-- `self.buffer.chars[row][col].read()`. An index out of bounds panics in the source; here it reads
-- nothing, and a write there changes nothing.
unfoldable pub read_cell : ℕ → ℕ → Buffer → Option ScreenChar
read_cell row col b = elim (get_elem? b row) [ none ↦ none | some cells ↦ get_elem? cells col ]

-- `self.buffer.chars[row][col].write(character)`
unfoldable pub write_cell : ℕ → ℕ → ScreenChar → Buffer → Buffer
write_cell row col character b = elim (get_elem? b row) [
  | none ↦ b
  | some cells ↦ set b row (set cells col character)
]

unfoldable pub copy_cell : ℕ → ℕ → Buffer → Buffer
unfolding read_cell write_cell
copy_cell row col b = elim (read_cell row col b) [
  | none ↦ b
  | some character ↦ write_cell (row - 1) col character b
]

-- The inner loop of `new_line`, from column `col` on, with the columns that are left.
unfoldable pub copy_columns : ℕ → ℕ → ℕ → Buffer → Buffer
copy_columns zero row col b = b
copy_columns (suc left) row col b = copy_columns left row (suc col) (copy_cell row col b)

-- The outer loop, from row `row` on, with the rows that are left.
unfoldable pub copy_rows : ℕ → ℕ → Buffer → Buffer
copy_rows zero row b = b
copy_rows (suc left) row b = copy_rows left (suc row) (copy_columns buffer_width row 0 b)

unfoldable pub clear_columns : ℕ → ℕ → ℕ → ScreenChar → Buffer → Buffer
clear_columns zero row col blank b = b
clear_columns (suc left) row col blank b =
    clear_columns left row (suc col) blank (write_cell row col blank b)

unfoldable pub blank_for : Writer → ScreenChar
blank_for w = record { ascii_character = b' '; color_code = w.color }

unfoldable pub clear_row : ℕ → Writer → Writer
clear_row row w = record w { buffer = clear_columns buffer_width row 0 (blank_for w) w.buffer }

unfoldable pub new_line : Writer → Writer
new_line w =
    let scrolled : Writer = record w { buffer = copy_rows (buffer_height - 1) 1 w.buffer } in
    record (clear_row (buffer_height - 1) scrolled) { column_position = 0 }

-- The character at the cursor, and the cursor behind it.
unfoldable pub put_char : ℕ → Writer → Writer
put_char byte w = record w {
  buffer =
      write_cell (buffer_height - 1) w.column_position
        (record { ascii_character = byte; color_code = w.color }) w.buffer;
  column_position = w.column_position + 1;
}

unfoldable pub write_byte : ℕ → Writer → Writer
write_byte byte w =
    if byte == b'\n'
    then new_line w
    else put_char byte (if leb buffer_width w.column_position then new_line w else w)

-- The byte that is written for a byte of the text.
unfoldable pub shown : ℕ → ℕ
shown byte = if leb 0x20 byte && leb byte 0x7e || byte == b'\n' then byte else 0xfe

unfoldable pub write_bytes : List ℕ → Writer → Writer
unfolding shown
write_bytes [] w = w
write_bytes (byte ∷ rest) w = write_bytes rest (write_byte (shown byte) w)

-- `write_string`, and so the `print!` macros
unfoldable pub write_string : Text → Writer → Writer
write_string s w = write_bytes (bytes s) w

-- `fmt::Write::write_str`, which never fails
unfoldable pub write_str : Text → Writer → Result (Unit {0}) (Unit {0}) × Writer
write_str s w = (ok tt, write_string s w)

-- `WRITER`, over what the buffer holds when it is first used
unfoldable pub initial_writer : Buffer → Writer
initial_writer b = record { column_position = 0; color = color_code light_cyan black; buffer = b }
