-- ===== src/Tools/Tests.antt =====
-- Runs of the tools.
use llm_os_rust.Base.{
  ap, sym, ◌∙◌, length, ℕ, ◌+◌, ◌*◌, ◌%◌, ◌^◌, ◌≡◌, ◌≢◌, refl, true, false, List, [], ◌∷◌, ◌++◌,
  arith, ◌↔◌, Outcome, done, panicked, ◌>>=◌, ok, err, some, none, inl, inr, if◌then◌else◌, ◌-◌,
}
use llm_os_rust.Base.Int.{ℤ, pos, negsuc, pos_part, neg_part}
use llm_os_rust.Text.{Text, codes, trim, text_eq, split_whitespace}
use llm_os_rust.Text.Decimal.{format_i64, parse_i64}
use llm_os_rust.BTreeMap
use llm_os_rust.Tools.{
  stored, name, calculator, memory_store, memory_recall, execute, recalled, exec_calculator,
  equation,
}
use llm_os_rust.Tools.I64.{Profile, dev, release, in_range, is_zero, quotient, wrap}
use llm_os_rust.Tools.Calculator.{minus, over, value, symbol, expression, exec_calculator_exact}
use llm_os_rust.Tools.Panics.{IsBooted, Overflows, execute-panicked}
use llm_os_rust.Tools.Branches.{Says, exec_calculator-Says}
use llm_os_rust.Tools.Memory.{execute-store, booted, booted-HasTools, remember, recall_untrimmed}

abbrev greatest : ℤ
greatest = pos 9_223_372_036_854_775_807

abbrev least : ℤ
least = negsuc 9_223_372_036_854_775_807

exec_calculator_exact_example :
    exec_calculator dev (expression (pos 6) minus (pos 48))
    ≡ done (ok (equation (pos 6) (symbol minus) (pos 48) (value minus (pos 6) (pos 48))))
unfolding value llm_os_rust.Base.Int.◌-ℤ◌
exec_calculator_exact_example =
    exec_calculator_exact dev minus (pos 6) (pos 48) (omega arith) (omega arith) tt (omega arith)

prints_minus_42 : exec_calculator dev (codes "  6 -  48 ") ≡ done (ok (codes "6 - 48 = -42"))
unfolding exec_calculator split_whitespace trim llm_os_rust.Tools.calculate_parts parse_i64
    llm_os_rust.Tools.calculate text_eq llm_os_rust.Tools.I64.checked llm_os_rust.Base.Int.◌-ℤ◌
    equation format_i64
prints_minus_42 = refl

least_by_minus_one : exec_calculator release (codes "-9223372036854775808 / -1") ≡ panicked
unfolding exec_calculator split_whitespace trim llm_os_rust.Tools.calculate_parts parse_i64
    llm_os_rust.Tools.calculate text_eq is_zero llm_os_rust.Tools.I64.divide
least_by_minus_one = refl

-- A tab behind the word.
abbrev tabbed : Text
tabbed = 99 ∷ 9 ∷ []

trimmed_away : trim tabbed ≡ 99 ∷ []
unfolding trim
trimmed_away = refl

is_trimmed : trim tabbed ≢ tabbed
is_trimmed e = absurd (omega (arith, ap length (sym trimmed_away ∙ e)))

recall_untrimmed_example :
    (do
      (_, r) ← execute dev (name memory_store) (tabbed ++ b' ' ∷ codes "Paris") booted
      execute dev (name memory_recall) tabbed r)
    ≡ done (
      recalled (trim tabbed) (BTreeMap.get (trim tabbed) booted.memory),
      remember tabbed (codes "Paris") booted,
    )
recall_untrimmed_example =
    recall_untrimmed dev booted tabbed (codes "Paris") tabbed booted-HasTools (refl, (refl, tt))
      is_trimmed

stored_city :
    execute dev (name memory_store) (codes "city" ++ b' ' ∷ codes "Paris") booted
    ≡ done
        (ok (stored (codes "city") (codes "Paris")), remember (codes "city") (codes "Paris") booted)
stored_city =
    execute-store dev booted (codes "city") (codes "Paris") booted-HasTools
      (refl, (refl, (refl, (refl, tt))))

exec_calculator-Says_example :
    Says release (split_whitespace (trim (codes "7 / x"))) (exec_calculator release (codes "7 / x"))
exec_calculator-Says_example = exec_calculator-Says release (codes "7 / x")

second_is_invalid : exec_calculator release (codes "7 / x") ≡ done (err (codes "Invalid number: x"))
unfolding exec_calculator split_whitespace trim llm_os_rust.Tools.calculate_parts parse_i64
    llm_os_rust.Tools.invalid_number
second_is_invalid = refl

booted-IsBooted : IsBooted booted
booted-IsBooted = refl

execute-panicked_example :
    (execute release (codes "calc") (expression least over (negsuc 0)) booted ≡ panicked) ↔ (
      (name calculator ≡ codes "calc")
      × Overflows release (split_whitespace (trim (expression least over (negsuc 0)))))
execute-panicked_example =
    execute-panicked release (codes "calc") (expression least over (negsuc 0)) booted
      booted-IsBooted
