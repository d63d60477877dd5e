-- ===== src/TestRunner/Exit.antt =====
-- How a test run ends.
use llm_os_rust.Base.{
  append_assoc, append-nil, ap, sym, ◌∙◌, ℕ, All, length, arith, ◌≡◌, refl, Bool, true, false, ◌&&◌,
  List, [], ◌∷◌, ◌++◌, Option, none, some, if◌then◌else◌,
}
use llm_os_rust.Text.{Text, codes}
use llm_os_rust.TestRunner.{
  success, failed, exit_value, Test, Run, serial_print, exit_qemu, test_panic_handler, run_tests,
  test_runner, format_u64,
}

abbrev pub passes : Option Text → Bool
passes none = true
passes (some info) = false

abbrev pub all_pass : List Test → Bool
all_pass [] = true
all_pass (t ∷ tests) = passes t.panics && all_pass tests

run_tests-exits :
    (tests : List Test) (r : Run)
    → (run_tests tests r).exits
      ≡ r.exits ++ (if all_pass tests then exit_value success else exit_value failed) ∷ []
unfolding run_tests exit_qemu serial_print test_panic_handler
run_tests-exits [] r = refl
run_tests-exits (t ∷ tests) r = ground (
  arith,
  run_tests-exits tests
      (serial_print (codes "[ok]\n") (serial_print (t.type_name ++ codes "...\t") r)),
)

-- A run writes one exit code, that of success if no test panics and that of failure if one
-- does.
pub test_runner-exits :
    (tests : List Test) (r : Run)
    → (test_runner tests r).exits
      ≡ r.exits ++ (if all_pass tests then exit_value success else exit_value failed) ∷ []
unfolding test_runner serial_print
test_runner-exits tests r = run_tests-exits tests _

-- What the runner prints first.
abbrev pub heading : ℕ → Text
heading count = codes "Running " ++ (format_u64 count ++ codes " tests\n")

-- The lines of tests that pass.
abbrev pub passed_lines : List Test → Text
passed_lines [] = []
passed_lines (t ∷ tests) = t.type_name ++ (codes "...\t[ok]\n" ++ passed_lines tests)

-- The line of a test that panics, with its error.
abbrev pub failed_lines : Text → Text → Text
failed_lines type_name info =
    type_name ++ (codes "...\t[failed]\n\nError: " ++ (info ++ codes "\n\n"))

abbrev Passes : Test → Type 0
Passes t = t.panics ≡ none

-- The run with this serial output and these exits.
abbrev pub sent : List ℕ → Text → Run
sent exits serial = record { serial = serial; exits = exits }

passed_line :
    (s name more : Text)
    → ((s ++ (name ++ codes "...\t")) ++ codes "[ok]\n") ++ more
      ≡ s ++ (name ++ (codes "...\t[ok]\n" ++ more))
passed_line s name more = simp (append_assoc)

failed_line :
    (s name info : Text)
    → ((s ++ (name ++ codes "...\t")) ++ codes "[failed]\n\n")
        ++ (codes "Error: " ++ (info ++ codes "\n\n"))
      ≡ s ++ failed_lines name info
failed_line s name info = simp (append_assoc)

run_tests-passed :
    (passed rest : List Test) (s : Text) (exits : List ℕ)
    → All Passes passed
    → run_tests (passed ++ rest) (sent exits s)
      ≡ run_tests rest (sent exits (s ++ passed_lines passed))
unfolding run_tests serial_print
run_tests-passed [] rest s exits h = ap (λ u. run_tests rest (sent exits u)) (sym (append-nil s))
run_tests-passed (t ∷ passed) rest s exits (h, hs) = rw h (
    run_tests-passed passed rest _ exits hs
    ∙ ap (λ u. run_tests rest (sent exits u)) (passed_line s t.type_name (passed_lines passed)))

run_tests-failed :
    (type_name info : Text) (rest : List Test) (s : Text) (exits : List ℕ)
    → run_tests (record { type_name = type_name; panics = some info } ∷ rest) (sent exits s)
      ≡ sent (exits ++ 0x11 ∷ []) (s ++ failed_lines type_name info)
unfolding run_tests serial_print test_panic_handler exit_qemu exit_value
run_tests-failed name info rest s exits = ap (sent (exits ++ 0x11 ∷ [])) (failed_line s name info)

-- A test that panics.
abbrev pub failing : Text → Text → Test
failing type_name info = record { type_name = type_name; panics = some info }

-- A run of tests that pass sends the heading with their number and the line of each, and exits
-- with 0x10; and with a test behind them that panics, and any tests behind that, it sends the
-- heading with the number of all, the lines of those that pass, the line of the one that panics
-- and its error, and exits with 0x11, without a line of any later test.
pub test_runner_prints :
    (passed rest : List Test) (type_name info s : Text) (exits : List ℕ)
    → All Passes passed
    → (test_runner passed (sent exits s)
        ≡ sent (exits ++ 0x10 ∷ []) (s ++ (heading (length passed) ++ passed_lines passed)))
      × (test_runner (passed ++ failing type_name info ∷ rest) (sent exits s)
          ≡ sent (exits ++ 0x11 ∷ []) (
              s
              ++ (heading (length (passed ++ failing type_name info ∷ rest))
                  ++ (passed_lines passed ++ failed_lines type_name info))))
unfolding test_runner serial_print run_tests exit_qemu exit_value
test_runner_prints passed rest name info s exits h = (
  ap (λ tests. run_tests tests (sent exits (begun passed))) (sym (append-nil passed))
      ∙ run_tests-passed passed [] (begun passed) exits h
      ∙ ap (sent (exits ++ 0x10 ∷ []))
          (append_assoc s (heading (length passed)) (passed_lines passed)),
  run_tests-passed passed (failing name info ∷ rest) (begun panicking) exits h
      ∙ run_tests-failed name info rest (begun panicking ++ passed_lines passed) exits
      ∙ ap (sent (exits ++ 0x11 ∷ [])) (simp (append_assoc)),
)
  where
    panicking : List Test
    panicking = passed ++ failing name info ∷ rest

    begun : List Test → Text
    begun tests = s ++ heading (length tests)
