-- ===== src/Tools/I64.antt =====
-- `i64` arithmetic as src/agent/tools.rs uses it. A result out of range wraps around in a release
-- build and panics in a dev build, which checks for overflow.
use llm_os_rust.Base.{
  ℕ, zero, suc, ◌+◌, ◌-◌, ◌/◌, ◌%◌, ◌^◌, Bool, true, false, ltb, if◌then◌else◌, Outcome, done,
  panicked,
}
use llm_os_rust.Base.Int.{ℤ, pos, negsuc, sub_ℕ}

pub data Profile : Type 0 where
  dev release : Profile

unfoldable pub in_range : ℤ → Bool
in_range (pos n) = ltb n (2 ^ 63)
in_range (negsuc n) = ltb n (2 ^ 63)

-- The `i64` that has the low 64 bits of the number.
unfoldable pub signed : ℕ → ℤ
signed m = if ltb m (2 ^ 63) then pos m else negsuc (2 ^ 64 - m - 1)

unfoldable pub wrap : ℤ → ℤ
unfolding signed
wrap (pos n) = signed (n % 2 ^ 64)
wrap (negsuc n) = signed (2 ^ 64 - 1 - n % 2 ^ 64)

unfoldable pub out_of_range : Profile → ℤ → Outcome ℤ
unfolding wrap
out_of_range dev z = panicked
out_of_range release z = done (wrap z)

unfoldable pub checked : Profile → ℤ → Outcome ℤ
unfolding out_of_range in_range
checked profile z = if in_range z then done z else out_of_range profile z

unfoldable pub is_zero : ℤ → Bool
is_zero (pos zero) = true
is_zero (pos (suc n)) = false
is_zero (negsuc n) = false

-- The quotient, rounded towards zero.
unfoldable pub quotient : ℤ → ℤ → ℤ
quotient (pos a) (pos b) = pos (a / b)
quotient (pos a) (negsuc b) = sub_ℕ 0 (a / (b + 1))
quotient (negsuc a) (pos b) = sub_ℕ 0 ((a + 1) / b)
quotient (negsuc a) (negsuc b) = pos ((a + 1) / (b + 1))

-- `a / b` for `b` other than 0: its overflow, of the least number by -1, panics in every build.
unfoldable pub divide : ℤ → ℤ → Outcome ℤ
unfolding quotient in_range
divide a b = if in_range (quotient a b) then done (quotient a b) else panicked
