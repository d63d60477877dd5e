-- ===== src/Vga/Invariant.antt =====
-- What every print keeps of the screen and the cursor.
use mathlib.Core.Path.{subst}
use mathlib.Core.Option.{some-injective}
use llm_os_rust.Base.{
  ℕ, zero, suc, ◌-◌, ◌≤◌, ◌<◌, ◌≡◌, refl, ◌∙◌, List, [], ◌∷◌, ◌++◌, get_elem?, set, drop, arith,
  Option, none, some, All, length-set, length-replicate, All-append, length-append, ◌==◌, leb,
  Bool-cases, inl, inr,
}
use llm_os_rust.Text.{Text, bytes}
use llm_os_rust.Vga.{
  ScreenChar, Row, Buffer, Writer, buffer_height, buffer_width, write_cell, blank_for, new_line,
  put_char, write_byte, write_bytes, write_string, shown,
}
use llm_os_rust.Vga.Scroll.{HasWidth, IsShaped, new_line_scrolls}

pub record IsValid (w : Writer) : Type 0 where
  pub shaped : IsShaped w.buffer
  pub column : w.column_position ≤ buffer_width

pub All-set :
    {A : Type 0} (P : A → Type 0) (xs : List A) (i : ℕ) (v : A)
    → All P xs
    → P v
    → All P (set xs i v)
All-set P [] i v h hv = tt
All-set P (x ∷ xs) zero v (h, hs) hv = (hv, hs)
All-set P (x ∷ xs) (suc i) v (h, hs) hv = (h, All-set P xs i v hs hv)

pub All-get :
    {A : Type 0} (P : A → Type 0) (xs : List A) (i : ℕ) (x : A)
    → All P xs
    → get_elem? xs i ≡ some x
    → P x
All-get P [] i x h e = cc
All-get P (y ∷ xs) zero x (h, hs) e = subst P (some-injective y x e) h
All-get P (y ∷ xs) (suc i) x (h, hs) e = All-get P xs i x hs e

write_cell-IsShaped :
    (row col : ℕ) (c : ScreenChar) (b : Buffer) → IsShaped b → IsShaped (write_cell row col c b)
write_cell-IsShaped row col c b h = written (get_elem? b row) refl
  where
    written : (o : Option Row) → get_elem? b row ≡ o → IsShaped (write_cell row col c b)
    written none e = unfold write_cell in rw (e, write_cell) h
    written (some cells) e =
        unfold write_cell in
        rw (e, write_cell)
          (record {
            height = length-set b row _ ∙ h.height;
            width =
                All-set HasWidth b row _ h.width
                  (length-set cells col c ∙ All-get HasWidth b row cells h.width e);
          })

drop_first-IsShaped :
    (b : Buffer) (row : Row) → IsShaped b → HasWidth row → IsShaped (drop 1 b ++ row ∷ [])
drop_first-IsShaped [] row h hr = absurd (omega (arith, h.height))
drop_first-IsShaped (top ∷ rest) row h hr = record {
  height = omega (arith, h.height, length-append rest (row ∷ []));
  width = All-append HasWidth rest (row ∷ []) h.width.1 (hr, tt);
}

pub new_line-IsValid : (w : Writer) → IsValid w → IsValid (new_line w)
new_line-IsValid w h = record {
  shaped =
      rw (new_line_scrolls w h.shaped)
        (drop_first-IsShaped w.buffer _ h.shaped (length-replicate buffer_width (blank_for w)));
  column = unfold new_line in omega arith;
}

put_char-IsValid :
    (byte : ℕ) (w : Writer)
    → IsValid w
    → w.column_position < buffer_width
    → IsValid (put_char byte w)
unfolding put_char
put_char-IsValid byte w h lt = record {
  shaped = write_cell-IsShaped (buffer_height - 1) w.column_position _ w.buffer h.shaped;
  column = omega arith;
}

-- The column at which a character is written is one of the row.
pub write_byte-IsValid : (byte : ℕ) (w : Writer) → IsValid w → IsValid (write_byte byte w)
unfolding write_byte
write_byte-IsValid byte w h = elim (Bool-cases (byte == b'\n')) [
  | inl newline ↦ rw newline (new_line-IsValid w h)
  | inr other ↦ elim (Bool-cases (leb buffer_width w.column_position)) [
    | inl full ↦
        rw (other, full)
          (put_char-IsValid byte (new_line w) (new_line-IsValid w h)
            (unfold new_line in omega arith))
    | inr room ↦ rw (other, room) (put_char-IsValid byte w h (ground arith))
  ]
]

write_bytes-IsValid : (s : List ℕ) (w : Writer) → IsValid w → IsValid (write_bytes s w)
unfolding write_bytes
write_bytes-IsValid [] w h = h
write_bytes-IsValid (byte ∷ s) w h =
    write_bytes-IsValid s (write_byte (shown byte) w) (write_byte-IsValid (shown byte) w h)

-- Printing any text keeps twenty-five rows of eighty cells, and the column at most at the row's
-- end.
pub write_string-IsValid : (s : Text) (w : Writer) → IsValid w → IsValid (write_string s w)
unfolding write_string
write_string-IsValid s w h = write_bytes-IsValid (bytes s) w h
