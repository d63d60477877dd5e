-- ===== src/Vga/Append.antt =====
-- Printing in pieces.
use llm_os_rust.Base.{ℕ, ◌≡◌, refl, sym, List, [], ◌∷◌, ◌++◌, append_assoc}
use llm_os_rust.Text.{Text, bytes, utf8}
use llm_os_rust.Vga.{Writer, write_byte, write_bytes, write_string, shown}

pub bytes-append : (s t : Text) → bytes (s ++ t) ≡ bytes s ++ bytes t
unfolding bytes
bytes-append [] t = refl
bytes-append (c ∷ s) t = rw (bytes-append s t) (sym (append_assoc (utf8 c) (bytes s) (bytes t)))

write_bytes-append :
    (s t : List ℕ) (w : Writer) → write_bytes (s ++ t) w ≡ write_bytes t (write_bytes s w)
unfolding write_bytes
write_bytes-append [] t w = refl
write_bytes-append (byte ∷ s) t w = write_bytes-append s t (write_byte (shown byte) w)

-- A text printed in two pieces looks as if it were printed at once.
pub write_string-append :
    (s t : Text) (w : Writer) → write_string (s ++ t) w ≡ write_string t (write_string s w)
unfolding write_string
write_string-append s t w = rw (bytes-append s t) (write_bytes-append (bytes s) (bytes t) w)

pub write_string-nil : (w : Writer) → write_string [] w ≡ w
unfolding write_string write_bytes bytes
write_string-nil w = refl
