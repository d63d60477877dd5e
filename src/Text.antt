-- ===== src/Text.antt =====
-- Rust's `str` as the kernel uses it: a text is the list of its Unicode scalar values. Each
-- function here stands for a method of the standard library, named alike.
pub mod Equality
pub mod Pieces
pub mod Decimal
use Prim.Native.Char.{code}
use Prim.Native.String.{String}
use llm_os_rust.Base.{
  ℕ, zero, suc, ◌+◌, ◌-◌, ◌*◌, ◌/◌, ◌%◌, Bool, true, false, not, ◌&&◌, ◌||◌, List, [], ◌∷◌, ◌++◌,
  ltb, leb, ◌==◌, if◌then◌else◌, length,
}

abbrev pub Text : Type 0
Text = List ℕ

-- The scalar values of a literal.
abbrev pub codes : String → Text
codes String.[] = []
codes (String.◌∷◌ c s) = code c ∷ codes s

-- The UTF-8 encoding of one scalar value.
unfoldable pub utf8 : ℕ → List ℕ
utf8 c =
    if ltb c 0x80
    then c ∷ []
    else if ltb c 0x800
    then (0xc0 + c / 0x40) ∷ (0x80 + c % 0x40) ∷ []
    else if ltb c 0x1_0000
    then (0xe0 + c / 0x1000) ∷ (0x80 + c / 0x40 % 0x40) ∷ (0x80 + c % 0x40) ∷ []
    else (0xf0 + c / 0x4_0000)
      ∷ (0x80 + c / 0x1000 % 0x40)
      ∷ (0x80 + c / 0x40 % 0x40)
      ∷ (0x80 + c % 0x40)
      ∷ []

-- `s.bytes()`
unfoldable pub bytes : Text → List ℕ
unfolding utf8
bytes [] = []
bytes (c ∷ s) = utf8 c ++ bytes s

-- `s.len()`, a number of bytes
unfoldable pub len : Text → ℕ
unfolding bytes
len s = length (bytes s)

-- `s == t`
unfoldable pub text_eq : Text → Text → Bool
text_eq [] [] = true
text_eq [] (d ∷ t) = false
text_eq (c ∷ s) [] = false
text_eq (c ∷ s) (d ∷ t) = c == d && text_eq s t

-- `s < t`: UTF-8 keeps the order of the scalar values
unfoldable pub text_lt : Text → Text → Bool
text_lt s [] = false
text_lt [] (d ∷ t) = true
text_lt (c ∷ s) (d ∷ t) = ltb c d || c == d && text_lt s t

-- `s.starts_with(p)`
unfoldable pub starts_with : Text → Text → Bool
starts_with s [] = true
starts_with [] (d ∷ p) = false
starts_with (c ∷ s) (d ∷ p) = c == d && starts_with s p

-- `char::is_whitespace`: the property White_Space of Unicode
unfoldable pub is_whitespace : ℕ → Bool
is_whitespace c =
    leb 0x9 c && leb c 0xd
    || c == 0x20
    || c == 0x85
    || c == 0xa0
    || c == 0x1680
    || leb 0x2000 c && leb c 0x200a
    || c == 0x2028
    || c == 0x2029
    || c == 0x202f
    || c == 0x205f
    || c == 0x3000

unfoldable pub trim_start : Text → Text
trim_start [] = []
trim_start (c ∷ s) = if is_whitespace c then trim_start s else c ∷ s

-- What stays of `c` in front of the trimmed rest.
unfoldable pub trim_last : ℕ → Text → Text
trim_last c [] = if is_whitespace c then [] else c ∷ []
trim_last c (d ∷ s) = c ∷ d ∷ s

unfoldable pub trim_end : Text → Text
unfolding trim_last
trim_end [] = []
trim_end (c ∷ s) = trim_last c (trim_end s)

-- `s.trim()`
unfoldable pub trim : Text → Text
unfolding trim_start trim_end is_whitespace
trim s = trim_end (trim_start s)

-- `s.split(char::is_whitespace)`, behind the current piece
unfoldable pub fields : Text → Text → List Text
fields cur [] = cur ∷ []
fields cur (c ∷ s) = elim (is_whitespace c) [
  | true ↦ cur ∷ fields [] s
  | false ↦ fields (cur ++ c ∷ []) s
]

unfoldable pub drop_empty : List Text → List Text
drop_empty [] = []
drop_empty ([] ∷ ps) = drop_empty ps
drop_empty ((c ∷ p) ∷ ps) = (c ∷ p) ∷ drop_empty ps

-- `s.split_whitespace()`
unfoldable pub split_whitespace : Text → List Text
unfolding fields drop_empty is_whitespace
split_whitespace s = drop_empty (fields [] s)

-- `s.splitn(2, sep)`, behind the current piece
unfoldable pub splitn_two_from : ℕ → Text → Text → List Text
splitn_two_from sep cur [] = cur ∷ []
splitn_two_from sep cur (c ∷ s) = elim (c == sep) [
  | true ↦ cur ∷ s ∷ []
  | false ↦ splitn_two_from sep (cur ++ c ∷ []) s
]

-- `s.splitn(2, sep)`
unfoldable pub splitn_two : ℕ → Text → List Text
unfolding splitn_two_from
splitn_two sep s = splitn_two_from sep [] s
