-- ===== src/Serial.antt =====
-- src/serial.rs: the serial port that debug output goes to. The driver of the UART is the uart_16550
-- crate: its operations and what the kernel relies on are the interface `Uart`.
pub mod Sending
mod Tests
use llm_os_rust.Base.{ℕ, ◌≡◌, List, [], ◌∷◌, ◌++◌, Result, ok, err, Outcome, done, panicked, ◌∷◌}
use llm_os_rust.Text.{Text, codes, bytes}

-- The bytes that go on the wire for bytes, by those for each.
abbrev pub wired : (ℕ → List ℕ) → List ℕ → List ℕ
wired on_wire [] = []
wired on_wire (b ∷ bs) = on_wire b ++ wired on_wire bs

-- `SerialPort::new`, `SerialPort::init` and `write_fmt`, which does not fail, and sends what the driver
-- sends for each byte of a text behind what was sent. `on_wire` is the driver's: `SerialPort::send` of
-- the uart_16550 crate sends a byte as it is, but for a backspace or a delete it sends a backspace, a
-- space and a backspace.
pub record Uart (P E : Type 0) : Type 0 where
  pub new : ℕ → P
  pub init : P → P
  pub write_fmt : Text → P → Result (Unit {0}) E × P
  pub sent : P → List ℕ
  pub on_wire : ℕ → List ℕ
  pub write_fmt-ok : (s : Text) (p : P) → (write_fmt s p).0 ≡ ok tt
  pub write_fmt-sent :
      (s : Text) (p : P) → sent (write_fmt s p).1 ≡ sent p ++ wired on_wire (bytes s)

module _ {P E : Type 0} (uart : Uart P E) where
  -- `SERIAL1`, when it is first used
  unfoldable pub serial1 : P
  serial1 = uart.init (uart.new 0x3f8)

  -- The `expect` on what `write_fmt` returns.
  unfoldable pub expected : Result (Unit {0}) E × P → Outcome P
  expected (ok _, p) = done p
  expected (err e, p) = panicked

  -- `_print`, and so the `serial_print!` macro
  unfoldable pub print : Text → P → Outcome P
  unfolding expected
  print args p = expected (uart.write_fmt args p)

  -- `serial_println!`
  unfoldable pub println : Text → P → Outcome P
  unfolding print
  println s p = print (s ++ codes "\n") p
