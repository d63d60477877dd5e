-- ===== src/Base/Outcomes.antt =====
-- Rust's `Result`, and computations that may panic. A panic ends the kernel: the panic handler
-- prints and halts, so that no state is left to speak of.
use mathlib.Core.Path.{◌≡◌}
use mathlib.Core.Bool.{Bool, true, false}
use llm_os_rust.Base.Tests.{if◌then◌else◌}

pub data Result {ℓ κ} (A : Type ℓ) (E : Type κ) : Type (ℓ ⊔ κ) where
  ok : A → Result A E
  err : E → Result A E

pub data Outcome {ℓ} (A : Type ℓ) : Type ℓ where
  done : A → Outcome A
  panicked : Outcome A

infixl 5 ◌>>=◌
abbrev pub ◌>>=◌ {ℓ κ} : {A : Type ℓ} {B : Type κ} → Outcome A → (A → Outcome B) → Outcome B
done a >>= f = f a
panicked >>= f = panicked

module _ {ℓ κ} {A : Type ℓ} (P : A → Type κ) where
  -- What is returned, if anything is, satisfies `P`.
  abbrev pub Ensures : Outcome A → Type κ
  Ensures (done a) = P a
  Ensures panicked = Unit

  pub Ensures-done : {m : Outcome A} (a : A) → Ensures m → m ≡ done a → P a
  Ensures-done a h e = rw e at h

  pub Ensures-bind {ι} :
      {B : Type ι} (m : Outcome B) (f : B → Outcome A)
      → ((b : B) → Ensures (f b))
      → Ensures (m >>= f)
  Ensures-bind (done b) f h = h b
  Ensures-bind panicked f h = tt

  pub Ensures-if :
      (b : Bool) (m n : Outcome A) → Ensures m → Ensures n → Ensures (if b then m else n)
  Ensures-if true m n hm hn = hm
  Ensures-if false m n hm hn = hn
