-- ===== src/Serial/Sending.antt =====
-- What prints to the serial port send.
use llm_os_rust.Base.{
  ℕ, ◌≡◌, refl, sym, ap, ◌∙◌, List, [], ◌∷◌, ◌++◌, Outcome, done, ◌>>=◌, append_assoc, append-nil,
}
use llm_os_rust.Text.{Text, codes, bytes}
use llm_os_rust.Vga.Append.{bytes-append}
use llm_os_rust.Serial.{Uart, wired, serial1, print, println, expected}

-- The lines, each with its newline.
abbrev pub lines_text : List Text → Text
lines_text [] = []
lines_text (s ∷ ss) = (s ++ codes "\n") ++ lines_text ss

wired-append :
    (on_wire : ℕ → List ℕ) (xs ys : List ℕ)
    → wired on_wire (xs ++ ys) ≡ wired on_wire xs ++ wired on_wire ys
wired-append on_wire [] ys = refl
wired-append on_wire (x ∷ xs) ys =
    ap (λ r. on_wire x ++ r) (wired-append on_wire xs ys)
    ∙ sym (append_assoc (on_wire x) (wired on_wire xs) (wired on_wire ys))

module _ {P E : Type 0} (uart : Uart P E) where
  open uart use {sent, on_wire}

  -- Lines printed one after the other.
  unfoldable pub println_all : List Text → P → Outcome P
  println_all [] p = done p
  println_all (s ∷ ss) p = do q ← println uart s p; println_all ss q

  print-done :
      (s : Text) (p : P)
      → (q : P) × (print uart s p ≡ done q) × (sent q ≡ sent p ++ wired on_wire (bytes s))
  unfolding print
  print-done s p = (
    (uart.write_fmt s p).1,
    ap (λ r. expected uart (r, (uart.write_fmt s p).1)) (uart.write_fmt-ok s p),
    uart.write_fmt-sent s p,
  )

  println_all-from :
      (ss : List Text) (p : P)
      → (q : P) × (println_all ss p ≡ done q)
        × (sent q ≡ sent p ++ wired on_wire (bytes (lines_text ss)))
  unfolding println_all println bytes
  println_all-from [] p = (p, refl, sym (append-nil (sent p)))
  println_all-from (s ∷ ss) p =
      let (q, runs, first) = print-done (s ++ codes "\n") p in
      let (r, rest, more) = println_all-from ss q in
      (
        r,
        rw runs rest,
        more
            ∙ ap (λ b. b ++ wired on_wire (bytes (lines_text ss))) first
            ∙ append_assoc (sent p) (wired on_wire (bytes (s ++ codes "\n")))
                (wired on_wire (bytes (lines_text ss)))
            ∙ ap (λ b. sent p ++ b)
                (sym (wired-append on_wire (bytes (s ++ codes "\n")) (bytes (lines_text ss)))
                  ∙ ap (wired on_wire) (sym (bytes-append (s ++ codes "\n") (lines_text ss)))),
      )

  -- From the first use of the serial port on, lines printed one after the other never panic,
  -- and what is sent behind the set-up is what the driver sends for the bytes of the lines, each
  -- with its newline, in their order.
  pub println_all-sends :
      (ss : List Text)
      → (q : P) × (println_all ss (serial1 uart) ≡ done q)
        × (sent q ≡ sent (serial1 uart) ++ wired on_wire (bytes (lines_text ss)))
  println_all-sends ss = println_all-from ss (serial1 uart)
