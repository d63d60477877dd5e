-- ===== src/TestRunner/Tests.antt =====
-- A run of two tests, the second of which panics.
use llm_os_rust.Base.{◌≡◌, ◌++◌, refl, List, [], ◌∷◌, none}
use llm_os_rust.Text.{codes}
use llm_os_rust.TestRunner.{Test, Run, test_runner}
use llm_os_rust.TestRunner.Exit.{test_runner_prints, sent, failing}

abbrev tests : List Test
tests = record { type_name = codes "llm_os::works"; panics = none } ∷ []

-- The whole runs, written out.
test_runner_prints_example :
    (test_runner tests (sent [] [])
      ≡ sent (0x10 ∷ []) (codes "Running 1 tests\nllm_os::works...\t[ok]\n"))
    × (test_runner (tests ++ failing (codes "llm_os::breaks") (codes "boom") ∷ tests) (sent [] [])
        ≡ sent (0x11 ∷ []) (
            codes
              "Running 3 tests\nllm_os::works...\t[ok]\nllm_os::breaks...\t[failed]\n\nError: boom\n\n"))
unfolding llm_os_rust.TestRunner.exit_value llm_os_rust.Text.Decimal.format_u64
test_runner_prints_example =
    test_runner_prints tests tests (codes "llm_os::breaks") (codes "boom") [] [] (refl, tt)
