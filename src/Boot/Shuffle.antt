-- ===== src/Boot/Shuffle.antt =====
-- Two texts, each in its order, in turns.
use llm_os_rust.Base.{ℕ, [], ◌∷◌, ◌++◌}
use llm_os_rust.Text.{Text}

pub data Shuffle : Text → Text → Text → Type 0 where
  ended : Shuffle [] [] []
  left : {c : ℕ} {s t w : Text} → Shuffle s t w → Shuffle (c ∷ s) t (c ∷ w)
  right : {c : ℕ} {s t w : Text} → Shuffle s t w → Shuffle s (c ∷ t) (c ∷ w)

pub left_all : (u : Text) {s t w : Text} → Shuffle s t w → Shuffle (u ++ s) t (u ++ w)
left_all [] h = h
left_all (c ∷ u) h = left (left_all u h)

pub right_all : (u : Text) {s t w : Text} → Shuffle s t w → Shuffle s (u ++ t) (u ++ w)
right_all [] h = h
right_all (c ∷ u) h = right (right_all u h)
