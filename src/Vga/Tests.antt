-- ===== src/Vga/Tests.antt =====
-- Runs of the writer over a blank screen.
use llm_os_rust.Base.{
  All-replicate, ℕ, ◌≡◌, refl, [], ◌∷◌, ◌++◌, arith, replicate, drop, map, All, All-replicate,
}
use llm_os_rust.Text.{codes, bytes}
use llm_os_rust.Vga.{
  ScreenChar, Buffer, Writer, new_line, write_string, initial_writer, blank_for, shown,
}
use llm_os_rust.Vga.Scroll.{HasWidth, IsShaped, new_line_scrolls}
use llm_os_rust.Vga.Invariant.{IsValid}
use llm_os_rust.Vga.Bytes.{IsCell, IsScreen, color_code-byte, write_string-IsScreen}
use llm_os_rust.Vga.{light_cyan, black}
use llm_os_rust.Base.{inl}
use llm_os_rust.Vga.Terminal.{Terminal, Shows, enter_all, write_string-Shows}

abbrev empty_cell : ScreenChar
empty_cell = record { ascii_character = 32; color_code = 0 }

abbrev empty_rows : ℕ → Buffer
empty_rows n = replicate n (replicate 80 empty_cell)

abbrev pub writer : Writer
writer = initial_writer (empty_rows 25)

empty_rows-IsShaped : IsShaped (empty_rows 25)
empty_rows-IsShaped = record {
  height = refl;
  width = All-replicate HasWidth 25 (replicate 80 empty_cell) refl;
}

pub writer-IsValid : IsValid writer
unfolding initial_writer
writer-IsValid = record { shaped = empty_rows-IsShaped; column = omega arith }

new_line_scrolls_example :
    (new_line writer).buffer ≡ drop 1 writer.buffer ++ replicate 80 (blank_for writer) ∷ []
unfolding initial_writer
new_line_scrolls_example = new_line_scrolls writer empty_rows-IsShaped

-- A line that is full.
abbrev full_writer : Writer
full_writer = record writer { column_position = 80 }

full_writer-IsValid : IsValid full_writer
full_writer-IsValid = record { shaped = writer-IsValid.shaped; column = omega arith }

-- The terminal of the blank screen, and a text that fills its second line and goes on.
abbrev terminal : Terminal
terminal = record {
  color = writer.color;
  lines = empty_rows 24;
  line = [];
  behind = replicate 80 empty_cell;
}

writer-Shows : Shows writer terminal
unfolding initial_writer
writer-Shows = record {
  colored = refl;
  deep = omega arith;
  wide = All-replicate HasWidth 24 (replicate 80 empty_cell) refl;
  width = refl;
  split = record { rows = refl; last = refl; column = refl };
}

write_string-Shows_example :
    Shows
      (write_string (codes "LLM OS\nbooted") writer)
      (enter_all (map shown (bytes (codes "LLM OS\nbooted"))) terminal)
write_string-Shows_example =
    write_string-Shows (codes "LLM OS\nbooted") writer terminal writer-Shows

initial_writer-IsScreen : IsScreen writer
unfolding initial_writer
initial_writer-IsScreen = record {
  valid = writer-IsValid;
  color = color_code-byte light_cyan black;
  cells = All-replicate (All IsCell) 25 (replicate 80 empty_cell) (
      All-replicate IsCell 80 empty_cell
        (record { character = inl (omega arith, omega arith); colored = omega arith }));
}

write_string-IsScreen_example : IsScreen (write_string (codes "LLM OS\nbooted") writer)
write_string-IsScreen_example =
    write_string-IsScreen (codes "LLM OS\nbooted") writer initial_writer-IsScreen
