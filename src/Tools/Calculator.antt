-- ===== src/Tools/Calculator.antt =====
-- What the calculator answers: `exec_calculator` against exact arithmetic.
use llm_os_rust.Base.{
  ℕ, ◌+◌, ◌≡◌, refl, ap, ◌∙◌, false, [], ◌∷◌, arith, All, Result, ok, Outcome, done, panicked,
  ◌>>=◌, if◌then◌else◌,
}
use llm_os_rust.Base.Int.{ℤ, pos, negsuc, ◌+ℤ◌, ◌-ℤ◌, ◌*ℤ◌}
use llm_os_rust.Text.{Text, codes, text_eq, is_whitespace}
use llm_os_rust.Text.Pieces.{IsWord, IsVisible, three_words, split_whitespace-three_words}
use llm_os_rust.Text.Decimal.{format_i64, format_u64, digits}
use llm_os_rust.Text.Decimal.RoundTrip.{
  IsI64, IsDigit, digits-IsDigit, digits-ne-nil, parse_i64-format_i64,
}
use llm_os_rust.Tools.I64.{Profile, in_range, out_of_range, checked, is_zero, quotient, divide}
use llm_os_rust.Tools.{calculate, calculate_parts, calculator_on, exec_calculator, equation, answer}

-- The operators that the calculator knows.
pub data Operator : Type 0 where
  plus minus times over : Operator

unfoldable pub symbol : Operator → Text
symbol plus = codes "+"
symbol minus = codes "-"
symbol times = codes "*"
symbol over = codes "/"

-- The number that `a op b` stands for.
unfoldable pub value : Operator → ℤ → ℤ → ℤ
value plus a b = a +ℤ b
value minus a b = a -ℤ b
value times a b = a *ℤ b
value over a b = quotient a b

-- The operator can be applied: nothing is divided by zero.
abbrev pub Applies : Operator → ℤ → Type 0
Applies over b = is_zero b ≡ false
Applies _ b = Unit

-- What a build makes of a result that is out of range.
unfoldable pub overflowed : Profile → Operator → ℤ → Outcome ℤ
overflowed profile over z = panicked
overflowed profile plus z = out_of_range profile z
overflowed profile minus z = out_of_range profile z
overflowed profile times z = out_of_range profile z

unfoldable pub result_of : Profile → Operator → ℤ → Outcome ℤ
unfolding overflowed
result_of profile o z = if in_range z then done z else overflowed profile o z

pub calculate-symbol :
    (profile : Profile) (o : Operator) (a b : ℤ)
    → Applies o b
    → calculate profile a (symbol o) b ≡ (do r ← result_of profile o (value o a b); done (ok r))
calculate-symbol profile plus a b h =
    unfold calculate symbol text_eq value checked result_of in ground arith
calculate-symbol profile minus a b h =
    unfold calculate symbol text_eq value checked result_of in ground arith
calculate-symbol profile times a b h =
    unfold calculate symbol text_eq value checked result_of in ground arith
calculate-symbol profile over a b h =
    unfold calculate symbol text_eq value divide result_of in ground arith

digits-IsVisible : (s : Text) → All IsDigit s → All IsVisible s
digits-IsVisible [] h = tt
digits-IsVisible (c ∷ s) (h, hs) = (visible c h, digits-IsVisible s hs)
  where
    visible : (c : ℕ) → IsDigit c → IsVisible c
    visible c h = unfold is_whitespace in ground arith

format_u64-IsWord : (n : ℕ) → IsWord (format_u64 n)
unfolding format_u64
format_u64-IsWord n = record {
  nonempty = digits-ne-nil 19 n;
  visible = digits-IsVisible (digits 20 n) (digits-IsDigit 20 n);
}

format_i64-IsWord : (z : ℤ) → IsWord (format_i64 z)
format_i64-IsWord (pos n) = unfold format_i64 in format_u64-IsWord n
format_i64-IsWord (negsuc n) =
    unfold format_i64 is_whitespace in
    record { nonempty = cc; visible = (refl, (format_u64-IsWord (n + 1)).visible) }

symbol-IsWord : (o : Operator) → IsWord (symbol o)
unfolding symbol is_whitespace
symbol-IsWord plus = record { nonempty = cc; visible = (refl, tt) }
symbol-IsWord minus = record { nonempty = cc; visible = (refl, tt) }
symbol-IsWord times = record { nonempty = cc; visible = (refl, tt) }
symbol-IsWord over = record { nonempty = cc; visible = (refl, tt) }

-- `a op b`, written out
abbrev pub expression : ℤ → Operator → ℤ → Text
expression a o b = three_words (format_i64 a) (symbol o) (format_i64 b)

abbrev pub answered : ℤ → Operator → ℤ → Outcome ℤ → Outcome (Result Text Text)
answered a o b m = do r ← m; done (ok (equation a (symbol o) b r))

pub answer-answered :
    (a : ℤ) (o : Operator) (b : ℤ) (m : Outcome ℤ)
    → (do r ← (do x ← m; done (ok x)); done (answer a (symbol o) b r)) ≡ answered a o b m
unfolding answer
answer-answered a o b (done r) = refl
answer-answered a o b panicked = refl

calculate_parts-symbol :
    (profile : Profile) (o : Operator) (a b : ℤ)
    → IsI64 a
    → IsI64 b
    → Applies o b
    → calculate_parts profile (format_i64 a) (symbol o) (format_i64 b)
      ≡ answered a o b (result_of profile o (value o a b))
unfolding calculate_parts
calculate_parts-symbol profile o a b ha hb h =
    rw (parse_i64-format_i64 a ha, calculate_parts)
      (rw (parse_i64-format_i64 b hb, calculate_parts)
        (rw (calculate-symbol profile o a b h)
          (answer-answered a o b (result_of profile o (value o a b)))))

-- The calculator reads the two numbers, computes, and prints the equation.
pub exec_calculator-expression :
    (profile : Profile) (o : Operator) (a b : ℤ)
    → IsI64 a
    → IsI64 b
    → Applies o b
    → exec_calculator profile (expression a o b)
      ≡ (do r ← result_of profile o (value o a b); done (ok (equation a (symbol o) b r)))
unfolding exec_calculator
exec_calculator-expression profile o a b ha hb h =
    ap (calculator_on profile) (
      split_whitespace-three_words (format_i64 a) (symbol o) (format_i64 b) (format_i64-IsWord a)
        (symbol-IsWord o) (format_i64-IsWord b))
    ∙ calculate_parts-symbol profile o a b ha hb h

-- For two `i64` numbers and an operator, no division by zero, whose exact result is an `i64`,
-- every build answers their print `a op b` with `a op b = result`.
pub exec_calculator_exact :
    (profile : Profile) (o : Operator) (a b : ℤ)
    → IsI64 a
    → IsI64 b
    → Applies o b
    → IsI64 (value o a b)
    → exec_calculator profile (expression a o b) ≡ done (ok (equation a (symbol o) b (value o a b)))
exec_calculator_exact profile o a b ha hb h fits =
    exec_calculator-expression profile o a b ha hb h
    ∙ ap (answered a o b) (exact (value o a b) fits)
  where
    exact : (z : ℤ) → IsI64 z → result_of profile o z ≡ done z
    exact (pos n) h = unfold result_of in_range in ground arith
    exact (negsuc n) h = unfold result_of in_range in ground arith
