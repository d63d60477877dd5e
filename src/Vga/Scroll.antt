-- ===== src/Vga/Scroll.antt =====
-- `new_line`, which copies cell by cell and in place, against a move of whole rows.
use llm_os_rust.Base.{
  ℕ, zero, suc, ◌-◌, ◌≡◌, refl, ap, sym, ◌∙◌, List, [], ◌∷◌, ◌++◌, length, get_elem?, set,
  replicate, drop, arith, Option, none, some, All, append_assoc, get_elem?-append,
  get_elem?-append_next, set-append, length-append_last,
}
use llm_os_rust.Vga.{
  ScreenChar, Row, Buffer, Writer, buffer_height, buffer_width, read_cell, write_cell, copy_cell,
  copy_columns, copy_rows, clear_columns, clear_row, blank_for, new_line,
}

-- One step of the copy, on the two rows that it concerns.
abbrev copy_into : Row → Row → ℕ → Row
copy_into dst src col = elim (get_elem? src col) [ none ↦ dst | some c ↦ set dst col c ]

overwrite : ℕ → ℕ → Row → Row → Row
overwrite zero col dst src = dst
overwrite (suc left) col dst src = overwrite left (suc col) (copy_into dst src col) src

row_above : (n : ℕ) → suc n - 1 ≡ n
row_above n = omega arith

append_last : {A : Type 0} (xs : List A) (y : A) (ys : List A) → xs ++ y ∷ ys ≡ (xs ++ y ∷ []) ++ ys
append_last xs y ys = sym (append_assoc xs (y ∷ []) ys)

pub write_cell-rows :
    (front : Buffer) (row : Row) (back : Buffer) (col : ℕ) (c : ScreenChar)
    → write_cell (length front) col c (front ++ row ∷ back) ≡ front ++ set row col c ∷ back
unfolding write_cell
write_cell-rows front row back col c =
    rw (get_elem?-append front row back, write_cell) (set-append front row (set row col c) back)

copy_cell-rows :
    (front : Buffer) (dst src : Row) (back : Buffer) (col : ℕ)
    → copy_cell (suc (length front)) col (front ++ dst ∷ src ∷ back)
      ≡ front ++ copy_into dst src col ∷ src ∷ back
unfolding copy_cell
copy_cell-rows front dst src back col =
    rw (get_elem?-append_next front dst src back, copy_cell, read_cell) (copied (get_elem? src col))
  where
    copied :
        (o : Option ScreenChar)
        → (elim o [
          | none ↦ front ++ dst ∷ src ∷ back
          | some c ↦ write_cell (suc (length front) - 1) col c (front ++ dst ∷ src ∷ back)
        ])
          ≡ front ++ (elim o [ none ↦ dst | some c ↦ set dst col c ]) ∷ src ∷ back
    copied none = refl
    copied (some c) = rw (row_above (length front)) (write_cell-rows front dst (src ∷ back) col c)

copy_columns-rows :
    (left col : ℕ) (front : Buffer) (dst src : Row) (back : Buffer)
    → copy_columns left (suc (length front)) col (front ++ dst ∷ src ∷ back)
      ≡ front ++ overwrite left col dst src ∷ src ∷ back
unfolding copy_columns overwrite
copy_columns-rows zero col front dst src back = refl
copy_columns-rows (suc left) col front dst src back =
    rw (copy_cell-rows front dst src back col)
      (copy_columns-rows left (suc col) front (copy_into dst src col) src back)

copy_into-append :
    (front : Row) (d c : ScreenChar) (dst src : Row)
    → copy_into (front ++ d ∷ dst) (front ++ c ∷ src) (length front) ≡ front ++ c ∷ dst
copy_into-append front d c dst src =
    rw (get_elem?-append front c src, copy_into) (set-append front d c dst)

-- The copy of what is left of a row, behind a front that was copied.
overwrite-rest :
    (front dst src : Row)
    → length dst ≡ length src
    → overwrite (length src) (length front) (front ++ dst) (front ++ src) ≡ front ++ src
unfolding overwrite
overwrite-rest front [] [] h = refl
overwrite-rest front (d ∷ dst) [] h = absurd (omega arith)
overwrite-rest front [] (c ∷ src) h = absurd (omega arith)
overwrite-rest front (d ∷ dst) (c ∷ src) h =
    rw (copy_into-append front d c dst src, overwrite)
      (rw (append_last front c dst, append_last front c src, ← length-append_last front c)
        (overwrite-rest (front ++ c ∷ []) dst src (omega arith)))

copy_columns_all :
    (front : Buffer) (dst src : Row) (back : Buffer)
    → length dst ≡ length src
    → copy_columns (length src) (suc (length front)) 0 (front ++ dst ∷ src ∷ back)
      ≡ front ++ src ∷ src ∷ back
copy_columns_all front dst src back h =
    copy_columns-rows (length src) 0 front dst src back
    ∙ ap (λ r. front ++ r ∷ src ∷ back) (overwrite-rest [] dst src h)

abbrev pub HasWidth : Row → Type 0
HasWidth r = length r ≡ buffer_width

copy_columns_width :
    (front : Buffer) (dst src : Row) (back : Buffer)
    → HasWidth dst
    → HasWidth src
    → copy_columns buffer_width (suc (length front)) 0 (front ++ dst ∷ src ∷ back)
      ≡ front ++ src ∷ src ∷ back
copy_columns_width front dst src back hd hs =
    ap (λ n. copy_columns n (suc (length front)) 0 (front ++ dst ∷ src ∷ back)) (sym hs)
    ∙ copy_columns_all front dst src back (hd ∙ sym hs)

abbrev last_row : Row → Buffer → Row
last_row r [] = r
last_row r (s ∷ rest) = last_row s rest

copy_rows-rest :
    (front : Buffer) (top : Row) (rest : Buffer)
    → HasWidth top
    → All HasWidth rest
    → copy_rows (length rest) (suc (length front)) (front ++ top ∷ rest)
      ≡ front ++ (rest ++ last_row top rest ∷ [])
unfolding copy_rows
copy_rows-rest front top [] h hs = refl
copy_rows-rest front top (src ∷ rest) h (hsrc, hs) =
    rw (copy_columns_width front top src rest h hsrc, copy_rows)
      (rw (append_last front src (src ∷ rest), ← length-append_last front src)
        (copy_rows-rest (front ++ src ∷ []) src rest hsrc hs ∙ append_assoc front (src ∷ []) _))

fill : ℕ → ℕ → ScreenChar → Row → Row
fill zero col blank r = r
fill (suc left) col blank r = fill left (suc col) blank (set r col blank)

clear_columns-rows :
    (left col : ℕ) (blank : ScreenChar) (front : Buffer) (row : Row) (back : Buffer)
    → clear_columns left (length front) col blank (front ++ row ∷ back)
      ≡ front ++ fill left col blank row ∷ back
unfolding clear_columns fill
clear_columns-rows zero col blank front row back = refl
clear_columns-rows (suc left) col blank front row back =
    rw (write_cell-rows front row back col blank)
      (clear_columns-rows left (suc col) blank front (set row col blank) back)

fill-rest :
    (blank : ScreenChar) (front rest : Row)
    → fill (length rest) (length front) blank (front ++ rest)
      ≡ front ++ replicate (length rest) blank
unfolding fill
fill-rest blank front [] = refl
fill-rest blank front (c ∷ rest) =
    rw (set-append front c blank rest, fill)
      (rw (append_last front blank rest, ← length-append_last front blank)
        (fill-rest blank (front ++ blank ∷ []) rest ∙ append_assoc front (blank ∷ []) _))

clear_columns_width :
    (blank : ScreenChar) (front : Buffer) (row : Row) (back : Buffer)
    → HasWidth row
    → clear_columns buffer_width (length front) 0 blank (front ++ row ∷ back)
      ≡ front ++ replicate buffer_width blank ∷ back
clear_columns_width blank front row back h =
    ap (λ n. clear_columns n (length front) 0 blank (front ++ row ∷ back)) (sym h)
    ∙ clear_columns-rows (length row) 0 blank front row back
    ∙ ap (λ r. front ++ r ∷ back) (fill-rest blank [] row)
    ∙ ap (λ n. front ++ replicate n blank ∷ back) h

-- Twenty-five rows of eighty cells.
pub record IsShaped (b : Buffer) : Type 0 where
  pub height : length b ≡ buffer_height
  pub width : All HasWidth b

last_row-HasWidth :
    (top : Row) (rest : Buffer) → HasWidth top → All HasWidth rest → HasWidth (last_row top rest)
last_row-HasWidth top [] h hs = h
last_row-HasWidth top (r ∷ rest) h (hr, hs) = last_row-HasWidth r rest hr hs

scroll :
    (blank : ScreenChar) (b : Buffer)
    → length b ≡ buffer_height
    → All HasWidth b
    → clear_columns buffer_width (buffer_height - 1) 0 blank (copy_rows (buffer_height - 1) 1 b)
      ≡ drop 1 b ++ replicate buffer_width blank ∷ []
scroll blank [] h hs = absurd (omega arith)
scroll blank (top ∷ rest) h (htop, hs) =
    let rows : length rest ≡ buffer_height - 1 = omega arith in
    ap (λ n. clear_columns buffer_width n 0 blank (copy_rows n 1 (top ∷ rest))) (sym rows)
    ∙ ap (clear_columns buffer_width (length rest) 0 blank) (copy_rows-rest [] top rest htop hs)
    ∙ clear_columns_width blank rest (last_row top rest) [] (last_row-HasWidth top rest htop hs)

-- On a buffer of twenty-five rows of eighty cells, a new line moves every row up by one, drops
-- the first and leaves a last row of blanks.
pub new_line_scrolls :
    (w : Writer)
    → IsShaped w.buffer
    → (new_line w).buffer ≡ drop 1 w.buffer ++ replicate buffer_width (blank_for w) ∷ []
unfolding new_line clear_row blank_for
new_line_scrolls w shape = scroll (blank_for w) w.buffer shape.height shape.width
