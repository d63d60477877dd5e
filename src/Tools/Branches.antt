-- ===== src/Tools/Branches.antt =====
-- Everything that the calculator can say of an expression.
use llm_os_rust.Base.{
  ◌≡◌, ◌≢◌, refl, sym, ap, ◌∙◌, true, false, List, [], ◌∷◌, ◌++◌, length, arith, Result, ok, err,
  Outcome, done, panicked, ◌>>=◌, ◌⊎◌, inl, inr, Bool-cases, Option, none, some,
}
use llm_os_rust.Base.Int.{ℤ}
use llm_os_rust.Text.{Text, codes, text_eq, trim, split_whitespace}
use llm_os_rust.Text.Decimal.{parse_i64}
use llm_os_rust.Tools.{
  calculate, calculate_parts, calculator_on, calculator_usage, invalid_number, exec_calculator,
  equation, answer,
}
use llm_os_rust.Tools.I64.{Profile, dev, release, in_range, is_zero, wrap}
use llm_os_rust.Tools.Calculator.{
  Operator, plus, minus, times, over, symbol, value, result_of, Applies, calculate-symbol, answered,
  answer-answered,
}
use llm_os_rust.Tools.Answers.{Unknown, operator_cases}
use llm_os_rust.Tools.Overflow.{result_of_overflow, result_of_wraps}

-- What is said of the parts of an expression.
pub data Says (profile : Profile) : List Text → Outcome (Result Text Text) → Type 0 where
  usage : {parts : List Text} → length parts ≢ 3 → Says profile parts (done (err calculator_usage))
  first_invalid :
      {first op second : Text}
      → parse_i64 first ≡ none
      → Says profile (first ∷ op ∷ second ∷ []) (done (err (invalid_number first)))
  second_invalid :
      {first op second : Text} {a : ℤ}
      → parse_i64 first ≡ some a
      → parse_i64 second ≡ none
      → Says profile (first ∷ op ∷ second ∷ []) (done (err (invalid_number second)))
  unknown :
      {first op second : Text} {a b : ℤ}
      → parse_i64 first ≡ some a
      → parse_i64 second ≡ some b
      → ((o : Operator) → op ≢ symbol o)
      → Says profile
          (first ∷ op ∷ second ∷ [])
          (done (err (codes "Unknown operator: " ++ (op ++ codes " (use +, -, *, /)"))))
  by_zero :
      {first second : Text} {a b : ℤ}
      → parse_i64 first ≡ some a
      → parse_i64 second ≡ some b
      → is_zero b ≡ true
      → Says profile (first ∷ symbol over ∷ second ∷ []) (done (err (codes "Division by zero")))
  exact :
      {first second : Text} {a b : ℤ} (o : Operator)
      → parse_i64 first ≡ some a
      → parse_i64 second ≡ some b
      → Applies o b
      → in_range (value o a b) ≡ true
      → Says profile
          (first ∷ symbol o ∷ second ∷ [])
          (done (ok (equation a (symbol o) b (value o a b))))
  wrapped :
      {first second : Text} {a b : ℤ} (o : Operator)
      → parse_i64 first ≡ some a
      → parse_i64 second ≡ some b
      → in_range (value o a b) ≡ false
      → profile ≡ release
      → o ≢ over
      → Says profile
          (first ∷ symbol o ∷ second ∷ [])
          (done (ok (equation a (symbol o) b (wrap (value o a b)))))
  panics :
      {first second : Text} {a b : ℤ} (o : Operator)
      → parse_i64 first ≡ some a
      → parse_i64 second ≡ some b
      → Applies o b
      → in_range (value o a b) ≡ false
      → (profile ≡ dev) ⊎ (o ≡ over)
      → Says profile (first ∷ symbol o ∷ second ∷ []) panicked

symbol-Unknown : (op : Text) → Unknown op → (o : Operator) → op ≢ symbol o
unfolding Unknown symbol text_eq
symbol-Unknown op u plus e = let wrong = sym u.0 ∙ ap (λ t. text_eq t (codes "+")) e in cc
symbol-Unknown op u minus e = let wrong = sym u.1 ∙ ap (λ t. text_eq t (codes "-")) e in cc
symbol-Unknown op u times e = let wrong = sym u.2 ∙ ap (λ t. text_eq t (codes "*")) e in cc
symbol-Unknown op u over e = let wrong = sym u.3 ∙ ap (λ t. text_eq t (codes "/")) e in cc

Applies-cases : (o : Operator) (b : ℤ) → Applies o b ⊎ ((o ≡ over) × (is_zero b ≡ true))
Applies-cases plus b = inl tt
Applies-cases minus b = inl tt
Applies-cases times b = inl tt
Applies-cases over b = elim (Bool-cases (is_zero b)) [ inl z ↦ inr (refl, z) | inr n ↦ inl n ]

-- A result out of range is wrapped, or it is a panic.
overflow_cases :
    (profile : Profile) (o : Operator)
    → ((profile ≡ release) × (o ≢ over)) ⊎ ((profile ≡ dev) ⊎ (o ≡ over))
overflow_cases dev o = inr (inl refl)
overflow_cases release plus = inl (refl, λ e. cc)
overflow_cases release minus = inl (refl, λ e. cc)
overflow_cases release times = inl (refl, λ e. cc)
overflow_cases release over = inr (inr refl)

result_of_inside :
    (profile : Profile) (o : Operator) (z : ℤ) → in_range z ≡ true → result_of profile o z ≡ done z
unfolding result_of
result_of_inside profile o z h = rw h

calculate-Unknown :
    (profile : Profile) (a b : ℤ) (op : Text)
    → Unknown op
    → calculate profile a op b
      ≡ done (err (codes "Unknown operator: " ++ (op ++ codes " (use +, -, *, /)")))
unfolding calculate Unknown
calculate-Unknown profile a b op u = ground arith

calculate-zero :
    (profile : Profile) (a b : ℤ)
    → is_zero b ≡ true
    → calculate profile a (symbol over) b ≡ done (err (codes "Division by zero"))
unfolding calculate symbol text_eq
calculate-zero profile a b z = rw z

module _ (profile : Profile) (first second : Text) (a b : ℤ) (read_first : parse_i64 first ≡ some a)
    (read_second : parse_i64 second ≡ some b) where
  Says-result :
      (o : Operator)
      → Applies o b
      → Says profile
          (first ∷ symbol o ∷ second ∷ [])
          (answered a o b (result_of profile o (value o a b)))
  Says-result o can = elim (Bool-cases (in_range (value o a b))) [
    | inl inside ↦
        rw (result_of_inside profile o (value o a b) inside)
          (exact o read_first read_second can inside)
    | inr out ↦ elim (overflow_cases profile o) [
      | inl (rel, other) ↦
          rw (ap (λ p. result_of p o (value o a b)) rel ∙ result_of_wraps o (value o a b) out other)
            (wrapped o read_first read_second out rel other)
      | inr why ↦
          rw (result_of_overflow profile o (value o a b) out why)
            (panics o read_first read_second can out why)
    ]
  ]

  calculated : Text → Outcome (Result Text Text)
  calculated op = do r ← calculate profile a op b; done (answer a op b r)

  Says-known :
      (o : Operator) → Says profile (first ∷ symbol o ∷ second ∷ []) (calculated (symbol o))
  unfolding calculated
  Says-known o = elim (Applies-cases o b) [
    | inl can ↦
        rw
          (
            calculate-symbol profile o a b can,
            answer-answered a o b (result_of profile o (value o a b)),
          )
          (Says-result o can)
    | inr (e, z) ↦
        rw e (rw (calculate-zero profile a b z) (unfold answer in by_zero read_first read_second z))
  ]

  Says-Unknown : (op : Text) → Unknown op → Says profile (first ∷ op ∷ second ∷ []) (calculated op)
  unfolding calculated answer
  Says-Unknown op u =
      rw (calculate-Unknown profile a b op u) (unknown read_first read_second (symbol-Unknown op u))

  Says-calculated : (op : Text) → Says profile (first ∷ op ∷ second ∷ []) (calculated op)
  Says-calculated op = elim (operator_cases op) [
    | inl (o, e) ↦ rw e (Says-known o)
    | inr u ↦ Says-Unknown op u
  ]

Says-parts :
    (profile : Profile) (first op second : Text) (x y : Option ℤ)
    → parse_i64 first ≡ x
    → parse_i64 second ≡ y
    → Says profile (first ∷ op ∷ second ∷ []) (calculate_parts profile first op second)
unfolding calculate_parts calculated
Says-parts profile first op second none y ex ey = rw (ex, calculate_parts) (first_invalid ex)
Says-parts profile first op second (some a) none ex ey =
    rw (ex, ey, calculate_parts) (second_invalid ex ey)
Says-parts profile first op second (some a) (some b) ex ey =
    rw (ex, ey, calculate_parts) (Says-calculated profile first second a b ex ey op)

Says-on : (profile : Profile) (parts : List Text) → Says profile parts (calculator_on profile parts)
unfolding calculator_on
Says-on profile [] = usage (λ e. omega arith)
Says-on profile (a ∷ []) = usage (λ e. omega arith)
Says-on profile (a ∷ b ∷ []) = usage (λ e. omega arith)
Says-on profile (a ∷ b ∷ c ∷ []) = Says-parts profile a b c _ _ refl refl
Says-on profile (a ∷ b ∷ c ∷ d ∷ rest) = usage (λ e. omega arith)

-- For any expression, `exec_calculator` says just what its parts call for: the usage unless
-- there are three parts; the first of the two operands that is no `i64` number; an operator
-- that it does not know; a division by zero; the equation with the exact result where an `i64`
-- holds it; and else, in a release build, the equation with the wrapped-around result of a sum,
-- difference or product, and a panic in a dev build or for a division.
pub exec_calculator-Says :
    (profile : Profile) (expr : Text)
    → Says profile (split_whitespace (trim expr)) (exec_calculator profile expr)
unfolding exec_calculator
exec_calculator-Says profile expr = Says-on profile (split_whitespace (trim expr))
