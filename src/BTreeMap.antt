-- ===== src/BTreeMap.antt =====
-- `alloc::collections::BTreeMap` with texts as keys, as agent/tools.rs uses it: the list of its
-- entries in the order of their keys.
use llm_os_rust.Base.{◌≡◌, refl, true, Option, none, some, List, [], ◌∷◌, arith, if◌then◌else◌}
use llm_os_rust.Text.{Text, text_eq, text_lt}
use llm_os_rust.Text.Equality.{text_eq_iff, text_lt_total, text_lt_trans}

abbrev pub BTreeMap {ℓ} : Type ℓ → Type ℓ
BTreeMap V = List (Text × V)

module _ {ℓ} {V : Type ℓ} where
  unfoldable pub get : Text → BTreeMap V → Option V
  get k [] = none
  get k ((j, v) ∷ m) = if text_eq j k then some v else get k m

  unfoldable pub insert : Text → V → BTreeMap V → BTreeMap V
  insert k v [] = (k, v) ∷ []
  insert k v ((j, w) ∷ m) =
      if text_eq j k
      then (k, v) ∷ m
      else if text_lt k j
      then (k, v) ∷ (j, w) ∷ m
      else (j, w) ∷ insert k v m

  unfoldable pub keys : BTreeMap V → List Text
  keys [] = []
  keys ((j, w) ∷ m) = j ∷ keys m

  -- An insertion is seen at its key and at no other.
  pub get-insert :
      (k j : Text) (v : V) (m : BTreeMap V)
      → get j (insert k v m) ≡ (if text_eq k j then some v else get j m)
  unfolding get insert
  get-insert k j v [] = refl
  get-insert k j v ((i, w) ∷ m) =
      ground (arith, text_eq_iff k j, text_eq_iff i k, text_eq_iff i j, get-insert k j v m)

  -- Every key is above `k`.
  abbrev Above : Text → BTreeMap V → Type 0
  Above k [] = Unit
  Above k ((j, w) ∷ m) = (text_lt k j ≡ true) × Above k m

  abbrev pub IsSorted : BTreeMap V → Type 0
  IsSorted [] = Unit
  IsSorted ((j, w) ∷ m) = Above j m × IsSorted m

  Above-trans : (k j : Text) (m : BTreeMap V) → text_lt k j ≡ true → Above j m → Above k m
  Above-trans k j [] h a = tt
  Above-trans k j ((i, w) ∷ m) h (a, above) = (text_lt_trans k j i h a, Above-trans k j m h above)

  Above-insert :
      (i k : Text) (v : V) (m : BTreeMap V)
      → text_lt i k ≡ true
      → Above i m
      → Above i (insert k v m)
  unfolding insert
  Above-insert i k v [] h a = (h, tt)
  Above-insert i k v ((j, w) ∷ m) h (a, above) = ground (arith, Above-insert i k v m h above)

  -- An insertion keeps the keys in strictly ascending order, so each key once.
  pub insert-IsSorted : (k : Text) (v : V) (m : BTreeMap V) → IsSorted m → IsSorted (insert k v m)
  unfolding insert
  insert-IsSorted k v [] h = (tt, tt)
  insert-IsSorted k v ((j, w) ∷ m) (a, s) = ground (
    arith,
    text_eq_iff j k,
    text_lt_total k j,
    insert-IsSorted k v m s,
    Above-insert j k v m,
    Above-trans k j m,
    text_eq_iff k j,
  )
