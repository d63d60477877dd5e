-- ===== src/Locks/Discipline.antt =====
-- The discipline that keeps spin locks from deadlock on one processor, as a check of code.
use llm_os_rust.Base.{◌≡◌, refl, Bool, true, false, [], ◌∷◌}
use llm_os_rust.Locks.{
  Lock, writer, serial, pics, keyboard, Held, mark, mask, restore, enable, acquire, release, Code,
  print, timer_handler, keyboard_handler, initialize, IsHandler, timer, key,
}

-- No lock is held.
abbrev pub AllFree : Held → Type 0
AllFree held = (lock : Lock) → held lock ≡ false

-- Wherever interrupts are enabled, no lock is held; a lock that is taken is free; and no lock is
-- held at the end.
abbrev pub Obeys : Bool → Held → Bool → Code → Type 0
Obeys flag held saved [] = AllFree held
Obeys flag held saved (mask ∷ rest) = (flag ≡ true → AllFree held) × Obeys false held flag rest
Obeys flag held saved (restore ∷ rest) = (flag ≡ true → AllFree held) × Obeys saved held saved rest
Obeys flag held saved (enable ∷ rest) = (flag ≡ true → AllFree held) × Obeys true held saved rest
Obeys flag held saved (acquire lock ∷ rest) =
    (flag ≡ true → AllFree held) × (held lock ≡ false) × Obeys flag (mark lock true held) saved rest
Obeys flag held saved (release lock ∷ rest) =
    (flag ≡ true → AllFree held) × Obeys flag (mark lock false held) saved rest

-- Code that does not enable interrupts, run with them off.
abbrev pub Masked : Code → Type 0
Masked [] = Unit
Masked (enable ∷ rest) = ⊥
Masked (_ ∷ rest) = Masked rest

four :
    (held : Held)
    → held writer ≡ false
    → held serial ≡ false
    → held pics ≡ false
    → held keyboard ≡ false
    → AllFree held
four held w s p k writer = w
four held w s p k serial = s
four held w s p k pics = p
four held w s p k keyboard = k

-- A lock that was taken and released is as free as before.
mark-AllFree :
    (lock : Lock) (held : Held) → AllFree held → AllFree (mark lock false (mark lock true held))
mark-AllFree writer held h = four _ refl (h serial) (h pics) (h keyboard)
mark-AllFree serial held h = four _ (h writer) refl (h pics) (h keyboard)
mark-AllFree pics held h = four _ (h writer) (h serial) refl (h keyboard)
mark-AllFree keyboard held h = four _ (h writer) (h serial) (h pics) refl

off : {A : Type 0} → false ≡ true → A
off e = let wrong : ⊥ = cc in absurd wrong

pub print-Obeys :
    (lock : Lock) (flag saved : Bool) (held : Held)
    → AllFree held
    → Obeys flag held saved (print lock)
unfolding print
print-Obeys lock flag saved held h = (λ _. h, (off, h lock, (off, (off, mark-AllFree lock held h))))

pub initialize-Obeys :
    (saved : Bool) (held : Held) → AllFree held → Obeys false held saved initialize
unfolding initialize
initialize-Obeys saved held h = (off, h pics, (off, (off, mark-AllFree pics held h)))

pub handler-Obeys :
    {code : Code}
    → IsHandler code
    → (held : Held) → AllFree held
    → Obeys false held false code × Masked code
unfolding timer_handler keyboard_handler print
handler-Obeys timer held h = ((off, h pics, (off, mark-AllFree pics held h)), tt)
handler-Obeys (key false) held h =
    ((off, h keyboard, (off, h pics, (off, (off, four _ (h writer) (h serial) refl refl)))), tt)
handler-Obeys (key true) held h = (
  (
    off,
    h keyboard,
    (
      off,
      (off, h writer, (off, (off, (off, h pics, (off, (off, four _ refl (h serial) refl refl)))))),
    ),
  ),
  tt,
)
