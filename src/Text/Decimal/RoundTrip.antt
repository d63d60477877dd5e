-- ===== src/Text/Decimal/RoundTrip.antt =====
-- Reading back what was printed.
use native.Mathlib.Nat.{pow-suc}
use llm_os_rust.Base.{
  ◌==◌, inl, inr, none, Option, ℕ, zero, suc, ◌+◌, ◌-◌, ◌*◌, ◌/◌, ◌%◌, ◌^◌, ◌≤◌, ◌<◌, ◌≡◌, refl,
  ◌≢◌, inl, inr, [], ◌∷◌, ◌++◌, some, ltb, arith, Bool-cases, All, All-append, Option,
}
use llm_os_rust.Base.Int.{ℤ, pos, negsuc}
use llm_os_rust.Text.{Text}
use llm_os_rust.Text.Decimal.{
  digits, format_i64, scan_digits, parse_magnitude, parse_i64, negate, nonnegative,
}

abbrev pub IsDigit : ℕ → Type 0
IsDigit c = (b'0' ≤ c) × (c ≤ b'9')

-- One more digit at the end.
scan_digits-append :
    (limit n m d : ℕ) (s : Text)
    → scan_digits limit n s ≡ some m
    → d < 10
    → m * 10 + d ≤ limit
    → scan_digits limit n (s ++ (b'0' + d) ∷ []) ≡ some (m * 10 + d)
unfolding scan_digits
scan_digits-append limit n m d [] h lt fits = ground arith
scan_digits-append limit n m d (c ∷ s) h lt fits =
    ground (arith, scan_digits-append limit (n * 10 + (c - b'0')) m d s)

pub scan_digits-digits :
    (fuel limit n : ℕ) → n < 10 ^ fuel → n ≤ limit → scan_digits limit 0 (digits fuel n) ≡ some n
unfolding digits
scan_digits-digits zero limit n h fits = unfold scan_digits in ground arith
scan_digits-digits (suc fuel) limit n h fits = elim (Bool-cases (ltb n 10)) [
  | inl small ↦ rw (small, digits) (unfold scan_digits in ground arith)
  | inr more ↦
      let q = n / 10 in
      let ih = scan_digits-digits fuel limit q (omega (arith, pow-suc 10 fuel)) (omega arith) in
      let next =
        scan_digits-append limit 0 q (n % 10) (digits fuel q) ih (omega arith) (omega arith) in
      rw (more, digits) (ground (arith, next))
]

pub digits-IsDigit : (fuel n : ℕ) → All IsDigit (digits fuel n)
unfolding digits
digits-IsDigit zero n = tt
digits-IsDigit (suc fuel) n = elim (Bool-cases (ltb n 10)) [
  | inl small ↦ rw (small, digits, All) (ground arith)
  | inr more ↦
      rw (more, digits, All)
        (All-append IsDigit (digits fuel (n / 10)) _ (digits-IsDigit fuel (n / 10)) (ground arith))
]

append_last-ne-nil : (s : Text) (c : ℕ) → s ++ c ∷ [] ≢ []
append_last-ne-nil [] c = cc
append_last-ne-nil (d ∷ s) c = cc

pub digits-ne-nil : (fuel n : ℕ) → digits (suc fuel) n ≢ []
unfolding digits
digits-ne-nil fuel n = ground (arith, append_last-ne-nil (digits fuel (n / 10)) (b'0' + n % 10))

parse_i64_of_digits :
    (s : Text) (n : ℕ)
    → s ≢ []
    → All IsDigit s
    → scan_digits (2 ^ 63 - 1) 0 s ≡ some n
    → parse_i64 s ≡ some (pos n)
unfolding parse_i64
parse_i64_of_digits [] n h d e = absurd (h refl)
parse_i64_of_digits (c ∷ s) n h d e = ground arith

parse_magnitude_of_digits :
    (limit : ℕ) (s : Text) → s ≢ [] → parse_magnitude limit s ≡ scan_digits limit 0 s
unfolding parse_magnitude
parse_magnitude_of_digits limit [] h = absurd (h refl)
parse_magnitude_of_digits limit (c ∷ s) h = refl

-- The numbers that an `i64` can hold.
abbrev pub IsI64 : ℤ → Type 0
IsI64 (pos n) = n < 2 ^ 63
IsI64 (negsuc n) = n < 2 ^ 63

-- Every `i64` is read back from its decimal print.
pub parse_i64-format_i64 : (z : ℤ) → IsI64 z → parse_i64 (format_i64 z) ≡ some z
parse_i64-format_i64 (pos n) h =
    unfold format_i64 in
    parse_i64_of_digits (digits 20 n) n (digits-ne-nil 19 n) (digits-IsDigit 20 n)
      (scan_digits-digits 20 (2 ^ 63 - 1) n (omega arith) (omega arith))
parse_i64-format_i64 (negsuc n) h =
    unfold format_i64 parse_i64 in
    rw (parse_magnitude_of_digits (2 ^ 63) _ (digits-ne-nil 19 (n + 1)))
      (rw (scan_digits-digits 20 (2 ^ 63) (n + 1) (omega arith) (omega arith)) (ground arith))

scan_digits-le : (limit n m : ℕ) (s : Text) → n ≤ limit → scan_digits limit n s ≡ some m → m ≤ limit
unfolding scan_digits
scan_digits-le limit n m [] fits h = ground arith
scan_digits-le limit n m (c ∷ s) fits h =
    ground (arith, scan_digits-le limit (n * 10 + (c - b'0')) m s)

parse_magnitude-le : (limit m : ℕ) (s : Text) → parse_magnitude limit s ≡ some m → m ≤ limit
unfolding parse_magnitude
parse_magnitude-le limit m [] h = cc
parse_magnitude-le limit m (c ∷ s) h = scan_digits-le limit 0 m (c ∷ s) (omega arith) h

negate-IsI64 :
    (o : Option ℕ) (z : ℤ) → negate o ≡ some z → ((m : ℕ) → o ≡ some m → m ≤ 2 ^ 63) → IsI64 z
negate-IsI64 none z h le = cc
negate-IsI64 (some zero) (pos n) h le = ground arith
negate-IsI64 (some zero) (negsuc n) h le = cc
negate-IsI64 (some (suc m)) (pos n) h le = cc
negate-IsI64 (some (suc m)) (negsuc n) h le = ground (arith, le (suc m) refl)

nonnegative-IsI64 :
    (o : Option ℕ) (z : ℤ)
    → nonnegative o ≡ some z
    → ((m : ℕ) → o ≡ some m → m ≤ 2 ^ 63 - 1)
    → IsI64 z
nonnegative-IsI64 none z h le = cc
nonnegative-IsI64 (some m) (pos n) h le = ground (arith, le m refl)
nonnegative-IsI64 (some m) (negsuc n) h le = cc

-- A number that is read fits in an `i64`: longer ones are refused.
pub parse_i64-IsI64 : (s : Text) (z : ℤ) → parse_i64 s ≡ some z → IsI64 z
unfolding parse_i64
parse_i64-IsI64 [] z h = cc
parse_i64-IsI64 (c ∷ s) z h = elim (Bool-cases (c == b'-')) [
  | inl minus ↦ negate-IsI64 _ z (rw minus at h) (λ m. parse_magnitude-le _ m s)
  | inr other ↦ elim (Bool-cases (c == b'+')) [
    | inl plus ↦ nonnegative-IsI64 _ z (rw plus at (rw other at h)) (λ m. parse_magnitude-le _ m s)
    | inr digit ↦
        nonnegative-IsI64 _ z (rw digit at (rw other at h)) (λ m. parse_magnitude-le _ m (c ∷ s))
  ]
]
