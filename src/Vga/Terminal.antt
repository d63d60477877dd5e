-- ===== src/Vga/Terminal.antt =====
-- The writer against a terminal that keeps every line: the screen is its end.
use mathlib.Core.Path.{subst}
use llm_os_rust.Base.{
  ℕ, suc, ◌+◌, ◌-◌, ◌≤◌, ◌≡◌, refl, ap, sym, ◌∙◌, true, false, List, [], ◌∷◌, ◌++◌, length, map,
  drop, replicate, arith, All, ◌==◌, leb, if◌then◌else◌, Bool-cases, inl, inr, All-append, All-drop,
  drop-append, drop-suc, length-drop, length-append, length-replicate, length-append_last,
}
use llm_os_rust.Text.{Text, bytes}
use llm_os_rust.Vga.{
  ScreenChar, Row, Buffer, Writer, buffer_height, buffer_width, new_line, put_char, blank_for,
  clear_row, write_byte, write_bytes, write_string, shown,
}
use llm_os_rust.Vga.Scroll.{HasWidth, IsShaped, new_line_scrolls}
use llm_os_rust.Vga.Frame.{IsSplit, put_char-IsSplit}

-- All lines that are complete, the line that is written, and what stands behind it in its row.
pub record Terminal : Type 0 where
  pub color : ℕ
  pub lines : Buffer
  pub line : Row
  pub behind : Row

-- The cell of a byte.
abbrev pub cell_of : Terminal → ℕ → ScreenChar
cell_of t byte = record { ascii_character = byte; color_code = t.color }

-- The line is complete, and a blank one follows.
abbrev pub feed : Terminal → Terminal
feed t = record t {
  lines = t.lines ++ (t.line ++ t.behind) ∷ [];
  line = [];
  behind = replicate buffer_width (cell_of t b' ');
}

abbrev pub put_at : ScreenChar → Row → Terminal → Terminal
put_at c [] t = record t { line = t.line ++ c ∷ []; behind = [] }
put_at c (_ ∷ rest) t = record t { line = t.line ++ c ∷ []; behind = rest }

-- A byte takes the next place of the line, or the first of the next line.
abbrev pub enter : ℕ → Terminal → Terminal
enter byte t = if byte == b'\n' then feed t else elim t.behind [
  | [] ↦ put_at (cell_of t byte) (feed t).behind (feed t)
  | c ∷ rest ↦ put_at (cell_of t byte) (c ∷ rest) t
]

abbrev pub enter_all : List ℕ → Terminal → Terminal
enter_all [] t = t
enter_all (byte ∷ rest) t = enter_all rest (enter byte t)

-- The last lines that are complete.
abbrev pub visible : Terminal → Buffer
visible t = drop (length t.lines - (buffer_height - 1)) t.lines

-- The screen shows the end of the terminal, and the column is the cursor's.
pub record Shows (w : Writer) (t : Terminal) : Type 0 where
  pub colored : w.color ≡ t.color
  pub deep : buffer_height - 1 ≤ length t.lines
  pub wide : All HasWidth t.lines
  pub width : HasWidth (t.line ++ t.behind)
  pub split : IsSplit w (visible t) t.line t.behind

visible_length :
    (t : Terminal) → buffer_height - 1 ≤ length t.lines → length (visible t) ≡ buffer_height - 1
visible_length t h = length-drop (length t.lines - (buffer_height - 1)) t.lines ∙ omega arith

Shows-IsShaped : (w : Writer) (t : Terminal) → Shows w t → IsShaped w.buffer
Shows-IsShaped w t h = rw h.split.rows (record {
  height = omega (arith, length-append (visible t) ((t.line ++ t.behind) ∷ []), h.split.last);
  width =
      All-append HasWidth (visible t) ((t.line ++ t.behind) ∷ [])
        (All-drop HasWidth (length t.lines - (buffer_height - 1)) t.lines h.wide) (h.width, tt);
})

-- The view moves down by one line.
visible-feed :
    (t : Terminal)
    → buffer_height - 1 ≤ length t.lines
    → visible (feed t) ≡ drop 1 (visible t) ++ (t.line ++ t.behind) ∷ []
visible-feed t h =
    let row = t.line ++ t.behind in
    ap (λ n. drop n (t.lines ++ row ∷ [])) {y = suc (length t.lines - (buffer_height - 1))}
      (omega (arith, length-append t.lines (row ∷ []), h))
    ∙ drop-append (suc (length t.lines - (buffer_height - 1))) t.lines (row ∷ []) (omega arith)
    ∙ ap (λ b. b ++ row ∷ []) (sym (drop-suc (length t.lines - (buffer_height - 1)) t.lines))

new_line-Shows : (w : Writer) (t : Terminal) → Shows w t → Shows (new_line w) (feed t)
new_line-Shows w t h = record {
  colored = unfold new_line in unfold clear_row in h.colored;
  deep = omega (arith, length-append t.lines ((t.line ++ t.behind) ∷ []), h.deep);
  wide = All-append HasWidth t.lines ((t.line ++ t.behind) ∷ []) h.wide (h.width, tt);
  width = length-replicate buffer_width (cell_of t b' ');
  split = record {
    rows =
        new_line_scrolls w (Shows-IsShaped w t h)
        ∙ ap (λ b. drop 1 b ++ replicate buffer_width (blank_for w) ∷ []) h.split.rows
        ∙ ap (λ b. b ++ replicate buffer_width (blank_for w) ∷ [])
            (drop-append 1 (visible t) ((t.line ++ t.behind) ∷ []) (omega (arith, h.split.last))
              ∙ sym (visible-feed t h.deep))
        ∙ ap (λ c. visible (feed t) ++ replicate buffer_width c ∷ [])
            (unfold blank_for in
              ap (λ n. record { ascii_character = b' '; color_code = n }) h.colored);
    last =
        visible_length (feed t)
          (omega (arith, length-append t.lines ((t.line ++ t.behind) ∷ []), h.deep));
    column = unfold new_line in refl;
  };
}

put_char-Shows :
    (byte : ℕ) (w : Writer) (t : Terminal) (c : ScreenChar) (rest : Row)
    → t.behind ≡ c ∷ rest
    → Shows w t
    → Shows (put_char byte w) (put_at (cell_of t byte) (c ∷ rest) t)
put_char-Shows byte w t c rest e h =
    let split = put_char-IsSplit byte w (visible t) t.line rest c (rw e at h.split) in
    let row : HasWidth (t.line ++ c ∷ rest) = rw e at h.width in
    record {
      colored = unfold put_char in h.colored;
      deep = h.deep;
      wide = h.wide;
      width = omega (
        arith,
        row,
        length-append t.line (c ∷ rest),
        length-append_last t.line (cell_of t byte),
        length-append (t.line ++ cell_of t byte ∷ []) rest,
      );
      split =
          subst
            (λ n.
              IsSplit (put_char byte w) (visible t)
                (t.line ++ (record { ascii_character = byte; color_code = n }) ∷ []) rest)
            h.colored split;
    }

-- The cursor stands at the end of its row where nothing is behind it.
column-behind :
    (w : Writer) (t : Terminal) → Shows w t → w.column_position + length t.behind ≡ buffer_width
column-behind w t h = omega (arith, h.width, h.split.column, length-append t.line t.behind)

write_byte-Shows :
    (byte : ℕ) (w : Writer) (t : Terminal) → Shows w t → Shows (write_byte byte w) (enter byte t)
unfolding write_byte
write_byte-Shows byte w t h = elim (Bool-cases (byte == b'\n')) [
  | inl newline ↦ rw newline (new_line-Shows w t h)
  | inr other ↦ rw other (placed t.behind refl)
]
  where
    placed :
        (row : Row)
        → t.behind ≡ row
        → Shows
            (put_char byte (if leb buffer_width w.column_position then new_line w else w))
            (elim row [
              | [] ↦ put_at (cell_of t byte) (feed t).behind (feed t)
              | c ∷ rest ↦ put_at (cell_of t byte) (c ∷ rest) t
            ])
    placed [] e =
        let full : leb buffer_width w.column_position ≡ true =
          ground (arith, column-behind w t h, ap length e) in
        rw full (
          put_char-Shows byte (new_line w) (feed t) (cell_of t b' ') (replicate 79 (cell_of t b' '))
            refl (new_line-Shows w t h))
    placed (c ∷ rest) e =
        let room : leb buffer_width w.column_position ≡ false =
          ground (arith, column-behind w t h, ap length e) in
        rw room (put_char-Shows byte w t c rest e h)

write_bytes-Shows :
    (s : List ℕ) (w : Writer) (t : Terminal)
    → Shows w t
    → Shows (write_bytes s w) (enter_all (map shown s) t)
unfolding write_bytes
write_bytes-Shows [] w t h = h
write_bytes-Shows (byte ∷ s) w t h =
    write_bytes-Shows s (write_byte (shown byte) w) (enter (shown byte) t)
      (write_byte-Shows (shown byte) w t h)

-- Where the screen shows the end of a terminal that keeps all its lines, printing a text leaves
-- the screen that shows the end of the terminal with the bytes of the text entered: the last
-- twenty-four complete lines, the current line, and the column behind it.
pub write_string-Shows :
    (s : Text) (w : Writer) (t : Terminal)
    → Shows w t
    → Shows (write_string s w) (enter_all (map shown (bytes s)) t)
unfolding write_string
write_string-Shows s w t h = write_bytes-Shows (bytes s) w t h
