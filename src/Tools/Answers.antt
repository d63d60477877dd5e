-- ===== src/Tools/Answers.antt =====
-- What an answer of the calculator says of the expression, whatever its texts are.
use llm_os_rust.Base.{
  ◌≡◌, refl, sym, ◌∙◌, false, List, [], ◌∷◌, arith, Result, ok, err, Outcome, done, panicked, ◌>>=◌,
  ◌⊎◌, inl, inr, Bool-cases, Option, none, some,
}
use llm_os_rust.Base.Int.{ℤ}
use llm_os_rust.Text.{Text, codes, text_eq, trim, split_whitespace}
use llm_os_rust.Text.Equality.{text_eq_sound}
use llm_os_rust.Text.Decimal.{parse_i64}
use llm_os_rust.Tools.{calculate, calculate_parts, calculator_on, exec_calculator, equation, answer}
use llm_os_rust.Tools.I64.{Profile}
use llm_os_rust.Tools.Calculator.{
  Operator, plus, minus, times, over, symbol, value, result_of, Applies, calculate-symbol,
}

-- The operator `op` is known, can be applied to the numbers, and gives `r`.
abbrev pub Computes : Profile → ℤ → Text → ℤ → ℤ → Type 0
Computes profile a op b r =
    (o : Operator) × (op ≡ symbol o) × Applies o b × (result_of profile o (value o a b) ≡ done r)

unfoldable pub Unknown : Text → Type 0
Unknown op =
    (text_eq op (codes "+") ≡ false)
    × (text_eq op (codes "-") ≡ false)
    × (text_eq op (codes "*") ≡ false)
    × (text_eq op (codes "/") ≡ false)

pub operator_cases : (op : Text) → ((o : Operator) × (op ≡ symbol o)) ⊎ Unknown op
unfolding symbol Unknown
operator_cases op = elim (Bool-cases (text_eq op (codes "+"))) [
  | inl p ↦ inl (plus, text_eq_sound op (codes "+") p)
  | inr p ↦ elim (Bool-cases (text_eq op (codes "-"))) [
    | inl m ↦ inl (minus, text_eq_sound op (codes "-") m)
    | inr m ↦ elim (Bool-cases (text_eq op (codes "*"))) [
      | inl t ↦ inl (times, text_eq_sound op (codes "*") t)
      | inr t ↦ elim (Bool-cases (text_eq op (codes "/"))) [
        | inl d ↦ inl (over, text_eq_sound op (codes "/") d)
        | inr d ↦ inr (p, m, t, d)
      ]
    ]
  ]
]

-- A result that was wrapped by `ok` is that of the computation.
bind_ok :
    (m : Outcome ℤ) (r : ℤ)
    → ◌≡◌ {A = Outcome (Result ℤ Text)} (do x ← m; done (ok x)) (done (ok r))
    → m ≡ done r
bind_ok (done x) r h = cc
bind_ok panicked r h = cc

not_computed :
    (profile : Profile) (a b r : ℤ) (op : Text)
    → Unknown op
    → calculate profile a op b ≡ done (ok r)
    → ⊥
unfolding calculate Unknown
not_computed profile a b r op u h = ground arith

divides_nonzero :
    (profile : Profile) (o : Operator) (a b r : ℤ)
    → calculate profile a (symbol o) b ≡ done (ok r)
    → Applies o b
unfolding calculate symbol text_eq
divides_nonzero profile plus a b r h = tt
divides_nonzero profile minus a b r h = tt
divides_nonzero profile times a b r h = tt
divides_nonzero profile over a b r h = ground arith

calculate_sound :
    (profile : Profile) (a b r : ℤ) (op : Text)
    → calculate profile a op b ≡ done (ok r)
    → Computes profile a op b r
calculate_sound profile a b r op h = elim (operator_cases op) [
  | inl (o, e) ↦
      let k = rw e at h in
      let can = divides_nonzero profile o a b r k in
      (
        o,
        e,
        can,
        bind_ok (result_of profile o (value o a b)) r
            (sym (calculate-symbol profile o a b can) ∙ k),
      )
  | inr u ↦ absurd (not_computed profile a b r op u h)
]

-- The equation that the text is, and the parts that it is computed from.
abbrev pub Answers : Profile → List Text → Text → Type 0
Answers profile parts text =
    (first : Text) × (op : Text) × (second : Text) × (parts ≡ first ∷ op ∷ second ∷ [])
    × ((a : ℤ) × (b : ℤ) × (r : ℤ) × (parse_i64 first ≡ some a)
        × (parse_i64 second ≡ some b)
        × Computes profile a op b r
        × (text ≡ equation a op b r))

calculate_parts_sound :
    (profile : Profile) (first op second text : Text) (x y : Option ℤ)
    → parse_i64 first ≡ x
    → parse_i64 second ≡ y
    → calculate_parts profile first op second ≡ done (ok text)
    → Answers profile (first ∷ op ∷ second ∷ []) text
unfolding calculate_parts answer
calculate_parts_sound profile first op second text none y ex ey h = ground arith
calculate_parts_sound profile first op second text (some a) none ex ey h = ground arith
calculate_parts_sound profile first op second text (some a) (some b) ex ey h =
    next (calculate profile a op b) refl (rw (ex, ey, calculate_parts) at h)
  where
    next :
        (m : Outcome (Result ℤ Text))
        → calculate profile a op b ≡ m
        → (do r ← m; done (answer a op b r)) ≡ done (ok text)
        → Answers profile (first ∷ op ∷ second ∷ []) text
    next panicked e k = ground arith
    next (done (err x)) e k = ground arith
    next (done (ok r)) e k = (
      first,
      op,
      second,
      refl,
      (a, b, r, ex, ey, calculate_sound profile a b r op e, ground arith),
    )

calculator_on_sound :
    (profile : Profile) (parts : List Text) (text : Text)
    → calculator_on profile parts ≡ done (ok text)
    → Answers profile parts text
unfolding calculator_on
calculator_on_sound profile [] text h = ground arith
calculator_on_sound profile (a ∷ []) text h = ground arith
calculator_on_sound profile (a ∷ b ∷ []) text h = ground arith
calculator_on_sound profile (a ∷ b ∷ c ∷ []) text h =
    calculate_parts_sound profile a b c text _ _ refl refl h
calculator_on_sound profile (a ∷ b ∷ c ∷ d ∷ r) text h = ground arith

-- Where the calculator answers an expression without an error, its trimmed text has exactly
-- three parts, the first and the third are read as `i64` numbers, the second is one of the four
-- operators, no division by zero, and the answer is the equation with the result that the build
-- computes for them.
pub exec_calculator_sound :
    (profile : Profile) (expr text : Text)
    → exec_calculator profile expr ≡ done (ok text)
    → Answers profile (split_whitespace (trim expr)) text
unfolding exec_calculator
exec_calculator_sound profile expr text h =
    calculator_on_sound profile (split_whitespace (trim expr)) text h
