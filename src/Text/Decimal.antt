-- ===== src/Text/Decimal.antt =====
-- Numbers in decimal: `format!("{}", n)` for `usize` and `i64`, and `str::parse::<i64>`. A number
-- below 2^64 has at most twenty digits, so twenty rounds are enough.
pub mod RoundTrip
use llm_os_rust.Base.{
  ℕ, zero, suc, ◌+◌, ◌-◌, ◌*◌, ◌/◌, ◌%◌, ◌^◌, Bool, true, false, ◌&&◌, List, [], ◌∷◌, ◌++◌, Option,
  none, some, ltb, leb, ◌==◌, if◌then◌else◌,
}
use llm_os_rust.Base.Int.{ℤ, pos, negsuc}
use llm_os_rust.Text.{Text}

-- The digits of `n`, the last `fuel` of them.
unfoldable pub digits : ℕ → ℕ → Text
digits zero n = []
digits (suc fuel) n = elim (ltb n 10) [
  | true ↦ (b'0' + n) ∷ []
  | false ↦ digits fuel (n / 10) ++ (b'0' + n % 10) ∷ []
]

unfoldable pub format_u64 : ℕ → Text
unfolding digits
format_u64 n = digits 20 n

unfoldable pub format_i64 : ℤ → Text
unfolding format_u64
format_i64 (pos n) = format_u64 n
format_i64 (negsuc n) = b'-' ∷ format_u64 (n + 1)

-- The loop over the digits: `none` where a byte is no digit, or the number passes `limit`.
unfoldable pub scan_digits : ℕ → ℕ → Text → Option ℕ
scan_digits limit n [] = some n
scan_digits limit n (c ∷ s) =
    let m = n * 10 + (c - b'0') in
    let rest = scan_digits limit m s in
    if leb b'0' c && leb c b'9' then (if ltb limit m then none else rest) else none

abbrev pub negate : Option ℕ → Option ℤ
negate none = none
negate (some zero) = some (pos 0)
negate (some (suc n)) = some (negsuc n)

abbrev pub nonnegative : Option ℕ → Option ℤ
nonnegative none = none
nonnegative (some n) = some (pos n)

-- The digits behind the sign, if there are any.
unfoldable pub parse_magnitude : ℕ → Text → Option ℕ
unfolding scan_digits
parse_magnitude limit [] = none
parse_magnitude limit (c ∷ s) = scan_digits limit 0 (c ∷ s)

-- `s.parse::<i64>()`, with the error forgotten
unfoldable pub parse_i64 : Text → Option ℤ
unfolding parse_magnitude
parse_i64 [] = none
parse_i64 (c ∷ s) =
    if c == b'-'
    then negate (parse_magnitude (2 ^ 63) s)
    else if c == b'+'
    then nonnegative (parse_magnitude (2 ^ 63 - 1) s)
    else nonnegative (parse_magnitude (2 ^ 63 - 1) (c ∷ s))
