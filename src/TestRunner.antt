-- ===== src/TestRunner.antt =====
-- The test infrastructure of src/lib.rs: the runner, its panic handler and the exit of QEMU.
pub mod Exit
mod Tests
use llm_os_rust.Base.{ℕ, List, [], ◌∷◌, ◌++◌, length, Option, none, some}
use llm_os_rust.Text.{Text, codes}
use llm_os_rust.Text.Decimal.{format_u64}

pub data QemuExitCode : Type 0 where
  success failed : QemuExitCode

-- `exit_code as u32`
unfoldable pub exit_value : QemuExitCode → ℕ
exit_value success = 0x10
exit_value failed = 0x11

-- A test by the name of its type, and the message of its panic if it panics.
pub record Test : Type 0 where
  pub type_name : Text
  pub panics : Option Text

-- What went to the serial port, and what was written to port 0xf4, which ends QEMU.
pub record Run : Type 0 where
  pub serial : Text
  pub exits : List ℕ

unfoldable pub serial_print : Text → Run → Run
serial_print s r = record r { serial = r.serial ++ s }

unfoldable pub exit_qemu : QemuExitCode → Run → Run
exit_qemu code r = record r { exits = r.exits ++ exit_value code ∷ [] }

unfoldable pub test_panic_handler : Text → Run → Run
test_panic_handler info r = exit_qemu failed (
    serial_print (codes "Error: " ++ (info ++ codes "\n\n"))
      (serial_print (codes "[failed]\n\n") r))

-- The rest of the tests, each by `Testable::run`. A panic does not come back.
unfoldable pub run_tests : List Test → Run → Run
run_tests [] r = exit_qemu success r
run_tests (t ∷ tests) r =
    let started = serial_print (t.type_name ++ codes "...\t") r in
    let rest = run_tests tests (serial_print (codes "[ok]\n") started) in
    elim t.panics [ none ↦ rest | some info ↦ test_panic_handler info started ]

unfoldable pub test_runner : List Test → Run → Run
test_runner tests r =
    run_tests tests
      (serial_print (codes "Running " ++ (format_u64 (length tests) ++ codes " tests\n")) r)
