-- ===== src/Serial/Tests.antt =====
-- A port that is the list of the bytes it has sent.
use llm_os_rust.Base.{◌==◌, if◌then◌else◌, ℕ, ◌≡◌, refl, List, [], ◌∷◌, ◌++◌, ok, done}
use llm_os_rust.Text.{Text, codes, bytes}
use llm_os_rust.Serial.{Uart, wired, serial1}
use llm_os_rust.Serial.Sending.{println_all, lines_text, println_all-sends}

-- What uart_16550 sends for a byte.
abbrev driver : ℕ → List ℕ
driver b = if b == 8 then 8 ∷ 32 ∷ 8 ∷ [] else if b == 0x7f then 8 ∷ 32 ∷ 8 ∷ [] else b ∷ []

abbrev wire : Uart (List ℕ) ⊥
wire = record {
  new = λ base. [];
  init = λ p. p;
  write_fmt = λ s p. (ok tt, p ++ wired driver (bytes s));
  sent = λ p. p;
  on_wire = driver;
  write_fmt-ok = λ s p. refl;
  write_fmt-sent = λ s p. refl;
}

abbrev booting : List Text
booting = codes "[kernel] Booting LLM OS..." ∷ codes "[agent] Booting agent..." ∷ []

booting_is_sent :
    (q : List ℕ) × (println_all wire booting (serial1 wire) ≡ done q)
    × (q ≡ serial1 wire ++ wired driver (bytes (lines_text booting)))
booting_is_sent = println_all-sends wire booting
