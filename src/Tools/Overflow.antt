-- ===== src/Tools/Overflow.antt =====
-- Results of the calculator that no `i64` can hold.
use llm_os_rust.Base.{
  ◌⊎◌, ℕ, ◌+◌, ◌-◌, ◌*◌, ◌/◌, ◌%◌, ◌^◌, ◌≤◌, ◌≡◌, ◌≢◌, refl, ap, ◌∙◌, true, false, List, [], ◌∷◌,
  arith, ok, done, panicked, Option, none, some, ◌⊎◌,
}
use llm_os_rust.Base.Int.{ℤ, pos, negsuc, pos_part, neg_part}
use llm_os_rust.Text.{Text, codes, text_eq, trim, split_whitespace}
use llm_os_rust.Text.Equality.{text_eq_sound}
use llm_os_rust.Text.Decimal.{parse_i64}
use llm_os_rust.Text.Decimal.RoundTrip.{IsI64, parse_i64-IsI64}
use llm_os_rust.Tools.I64.{
  Profile, dev, release, in_range, wrap, out_of_range, checked, is_zero, quotient, divide,
}
use llm_os_rust.Tools.{calculate, calculate_parts, calculator_on, exec_calculator, equation, answer}
use llm_os_rust.Tools.Calculator.{
  answered, Operator, plus, minus, times, over, symbol, value, Applies, expression, result_of,
  exec_calculator-expression,
}

-- Wrapping around gives an `i64` that differs from the number by a multiple of 2^64.
pub wrap_congruent :
    (z : ℤ)
    → IsI64 (wrap z)
      × ((pos_part (wrap z) + neg_part z) % 2 ^ 64 ≡ (neg_part (wrap z) + pos_part z) % 2 ^ 64)
unfolding wrap
wrap_congruent (pos n) = ground arith
wrap_congruent (negsuc n) = ground arith

div_le : (a b : ℕ) → a / b ≤ a
div_le a b = grind arith

-- A divisor of two or more at least halves.
div_halves : (a b : ℕ) → 2 ≤ b → 2 * (a / b) ≤ a
div_halves a b h = grind arith

-- A quotient leaves the range only for the least number by -1.
pub quotient_overflow :
    (a b : ℤ)
    → IsI64 a
    → IsI64 b
    → is_zero b ≡ false
    → in_range (quotient a b) ≡ false
    → (a ≡ negsuc (2 ^ 63 - 1)) × (b ≡ negsuc 0)
unfolding is_zero in_range quotient
quotient_overflow (pos a) (pos b) ha hb nz h = ground (arith, div_le a b)
quotient_overflow (pos a) (negsuc b) ha hb nz h = ground (arith, div_le a (b + 1))
quotient_overflow (negsuc a) (pos b) ha hb nz h = ground (arith, div_le (a + 1) b)
quotient_overflow (negsuc a) (negsuc b) ha hb nz h =
    ground (arith, div_le (a + 1) (b + 1), div_halves (a + 1) (b + 1))

pub result_of_overflow :
    (profile : Profile) (o : Operator) (z : ℤ)
    → in_range z ≡ false
    → (profile ≡ dev) ⊎ (o ≡ over)
    → result_of profile o z ≡ panicked
unfolding result_of out_of_range
result_of_overflow profile plus z out why = ground arith
result_of_overflow profile minus z out why = ground arith
result_of_overflow profile times z out why = ground arith
result_of_overflow profile over z out why = ground arith

-- For two `i64` numbers, no division by zero, whose exact result is out of range, a dev build
-- panics, and so does any build if the operator is the division.
pub exec_calculator_overflow :
    (profile : Profile) (o : Operator) (a b : ℤ)
    → IsI64 a
    → IsI64 b
    → Applies o b
    → in_range (value o a b) ≡ false
    → (profile ≡ dev) ⊎ (o ≡ over)
    → exec_calculator profile (expression a o b) ≡ panicked
exec_calculator_overflow profile o a b ha hb h out why =
    exec_calculator-expression profile o a b ha hb h
    ∙ ap (answered a o b) (result_of_overflow profile o (value o a b) out why)

pub result_of_wraps :
    (o : Operator) (z : ℤ) → in_range z ≡ false → o ≢ over → result_of release o z ≡ done (wrap z)
unfolding result_of out_of_range
result_of_wraps plus z out h = ground arith
result_of_wraps minus z out h = ground arith
result_of_wraps times z out h = ground arith
result_of_wraps over z out h = absurd (h refl)

pub applies : (o : Operator) (b : ℤ) → o ≢ over → Applies o b
applies plus b h = tt
applies minus b h = tt
applies times b h = tt
applies over b h = absurd (h refl)

-- For two `i64` numbers whose exact sum, difference or product is out of range, a release build
-- prints that result wrapped around.
pub exec_calculator_wraps :
    (o : Operator) (a b : ℤ)
    → IsI64 a
    → IsI64 b
    → o ≢ over
    → in_range (value o a b) ≡ false
    → exec_calculator release (expression a o b)
      ≡ done (ok (equation a (symbol o) b (wrap (value o a b))))
exec_calculator_wraps o a b ha hb h out =
    exec_calculator-expression release o a b ha hb (applies o b h)
    ∙ ap (answered a o b) (result_of_wraps o (value o a b) out h)

-- `calculate` in a release build panics in a division only.
calculate_release :
    (a b : ℤ) (op : Text)
    → calculate release a op b ≡ panicked
    → (text_eq op (codes "/") ≡ true) × (is_zero b ≡ false) × (in_range (quotient a b) ≡ false)
unfolding calculate checked out_of_range divide
calculate_release a b op h = ground arith

-- The parts are the least number, the sign of division, and -1.
abbrev pub LeastByMinusOne : List Text → Type 0
LeastByMinusOne parts =
    (first : Text) × (second : Text) × (parts ≡ first ∷ codes "/" ∷ second ∷ [])
    × (parse_i64 first ≡ some (negsuc (2 ^ 63 - 1)))
    × (parse_i64 second ≡ some (negsuc 0))

calculate_parts_release :
    (first op second : Text) (x y : Option ℤ)
    → parse_i64 first ≡ x
    → parse_i64 second ≡ y
    → calculate_parts release first op second ≡ panicked
    → LeastByMinusOne (first ∷ op ∷ second ∷ [])
unfolding calculate_parts answer
calculate_parts_release first op second none y ex ey h = ground arith
calculate_parts_release first op second (some a) none ex ey h = ground arith
calculate_parts_release first op second (some a) (some b) ex ey h =
    let (division, nonzero, out) = calculate_release a b op (ground arith) in
    let (least, minus_one) =
      quotient_overflow a b (parse_i64-IsI64 first a ex) (parse_i64-IsI64 second b ey) nonzero
        out in
    (
      first,
      second,
      ap (λ o. first ∷ o ∷ second ∷ []) (text_eq_sound op (codes "/") division),
      ex ∙ ap some least,
      ey ∙ ap some minus_one,
    )

calculator_on_release :
    (parts : List Text) → calculator_on release parts ≡ panicked → LeastByMinusOne parts
unfolding calculator_on
calculator_on_release [] h = cc
calculator_on_release (a ∷ []) h = cc
calculator_on_release (a ∷ b ∷ []) h = cc
calculator_on_release (a ∷ b ∷ c ∷ []) h = calculate_parts_release a b c _ _ refl refl h
calculator_on_release (a ∷ b ∷ c ∷ d ∷ r) h = cc

-- In a release build an expression on which the calculator panics has as its three parts the
-- least `i64`, the sign of division and -1.
pub exec_calculator_release :
    (expr : Text)
    → exec_calculator release expr ≡ panicked
    → LeastByMinusOne (split_whitespace (trim expr))
unfolding exec_calculator
exec_calculator_release expr h = calculator_on_release (split_whitespace (trim expr)) h
