-- ===== src/Console/Locking.antt =====
-- Who holds the lock, and how it stands with the interrupts.
use mathlib.Core.Path.{subst}
use llm_os_rust.Base.{
  ℕ, ◌+◌, ◌≡◌, refl, sym, ap, ◌∙◌, Bool, true, false, List, Option, none, some, arith, ◌⊎◌, inl,
  inr,
}
use llm_os_rust.Text.{Text}
use llm_os_rust.Vga.{Writer}
use llm_os_rust.Console.{
  Sync, Pc, outside, masked, writing, unlocked, PrintStep, mask, acquire, byte, release, restore,
  leave, System, Step, run_kernel, interrupt, run_handler, end_of_interrupt, Reach, here, next,
}

-- How interrupts and the lock stand with a caller of `_print`: interrupts are off from the mask to
-- the restore, and the lock is held while the caller writes, and only then.
abbrev pub Fits : Bool → Bool → Pc → Type 0
Fits enabled held outside = held ≡ false
Fits enabled held (masked was text) = (enabled ≡ false) × (held ≡ false)
Fits enabled held (writing was rest) = (enabled ≡ false) × (held ≡ true)
Fits enabled held (unlocked was) = (enabled ≡ false) × (held ≡ false)

-- The caller found interrupts off.
abbrev pub FoundOff : Pc → Type 0
FoundOff outside = Unit
FoundOff (masked was text) = was ≡ false
FoundOff (writing was rest) = was ≡ false
FoundOff (unlocked was) = was ≡ false

-- A handler runs with interrupts off, and on top of a kernel that is outside of `_print`.
abbrev pub Quiet : Bool → Bool → Option Pc → Pc → Type 0
Quiet enabled held none kernel = Fits enabled held kernel
Quiet enabled held (some p) kernel =
    (kernel ≡ outside) × (enabled ≡ false) × Fits enabled held p × FoundOff p

abbrev pub signals_owed : Option Pc → ℕ
signals_owed none = 0
signals_owed (some p) = 1

module _ {S : Type 0} (sync : Sync S) where
  open sync use {
    enabled, held, disable-enabled, disable-held, enable-held, lock-enabled, lock-held,
    unlock-enabled, unlock-held,
  }

  pub record IsSafe (x : System sync) : Type 0 where
    pub quiet : Quiet (enabled x.cpu) (held x.cpu) x.handler x.kernel
    pub owed : x.entered ≡ x.signals + signals_owed x.handler

  PrintStep-Fits :
      {s t : S} {w v : Writer} {p q : Pc} {out : List Text}
      → PrintStep sync s w p t v q out
      → Fits (enabled s) (held s) p
      → Fits (enabled t) (held t) q
  PrintStep-Fits {s} (mask text) h = (disable-enabled s, disable-held s ∙ h)
  PrintStep-Fits {s} (acquire free) (off, h) = (lock-enabled s ∙ off, lock-held s)
  PrintStep-Fits byte h = h
  PrintStep-Fits {s} release (off, h) = (unlock-enabled s ∙ off, unlock-held s)
  PrintStep-Fits {s} restore (off, h) = enable-held s ∙ h
  PrintStep-Fits leave (off, h) = h

  -- A caller that found interrupts off leaves them off.
  PrintStep-FoundOff :
      {s t : S} {w v : Writer} {p q : Pc} {out : List Text}
      → PrintStep sync s w p t v q out
      → enabled s ≡ false
      → FoundOff p
      → (enabled t ≡ false) × FoundOff q
  PrintStep-FoundOff {s} (mask text) off h = (disable-enabled s, off)
  PrintStep-FoundOff {s} (acquire free) off h = (lock-enabled s ∙ off, h)
  PrintStep-FoundOff byte off h = (off, h)
  PrintStep-FoundOff {s} release off h = (unlock-enabled s ∙ off, h)
  PrintStep-FoundOff restore off h = cc
  PrintStep-FoundOff leave off h = (off, tt)

  -- The kernel is outside of `_print` wherever interrupts are on.
  pub enabled-outside : (e h : Bool) (p : Pc) → Fits e h p → e ≡ true → (p ≡ outside) × (h ≡ false)
  enabled-outside e h outside f on = (refl, f)
  enabled-outside e h (masked was text) f on = cc
  enabled-outside e h (writing was rest) f on = cc
  enabled-outside e h (unlocked was) f on = cc

  -- The parts of the invariant, once it is known whether a handler runs.
  pub kernel-Fits :
      (x : System sync) → IsSafe x → x.handler ≡ none → Fits (enabled x.cpu) (held x.cpu) x.kernel
  kernel-Fits x safe e = subst (λ o. Quiet (enabled x.cpu) (held x.cpu) o x.kernel) e safe.quiet

  pub handler-Fits :
      (x : System sync) (p : Pc)
      → IsSafe x
      → x.handler ≡ some p
      → Quiet (enabled x.cpu) (held x.cpu) (some p) x.kernel
  handler-Fits x p safe e = subst (λ o. Quiet (enabled x.cpu) (held x.cpu) o x.kernel) e safe.quiet

  pub Step-IsSafe : {x y : System sync} {out : List Text} → Step sync x y out → IsSafe x → IsSafe y
  Step-IsSafe {x} (run_kernel {s} {w} {p} e step) safe = record {
    quiet =
        subst (λ o. Quiet (enabled s) (held s) o p) (sym e)
          (PrintStep-Fits step (kernel-Fits x safe e));
    owed = safe.owed;
  }
  Step-IsSafe {x} (interrupt e on) safe =
      let (out, free) =
        enabled-outside (enabled x.cpu) (held x.cpu) x.kernel (kernel-Fits x safe e) on in
      record {
        quiet = (out, disable-enabled x.cpu, disable-held x.cpu ∙ free, tt);
        owed = omega (arith, safe.owed, ap signals_owed e);
      }
  Step-IsSafe {x} (run_handler {p} {q} e step) safe =
      let (out, off, fits, found) = handler-Fits x p safe e in
      let (off', found') = PrintStep-FoundOff step off found in
      record {
        quiet = (out, off', PrintStep-Fits step fits, found');
        owed = omega (arith, safe.owed, ap signals_owed e);
      }
  Step-IsSafe {x} (end_of_interrupt e) safe =
      let (out, off, free, found) = handler-Fits x outside safe e in
      record {
        quiet =
            subst (λ k. Fits (enabled (sync.enable x.cpu)) (held (sync.enable x.cpu)) k) (sym out)
              (enable-held x.cpu ∙ free);
        owed = omega (arith, safe.owed, ap signals_owed e);
      }

  pub Reach-IsSafe :
      {s : S} {w : Writer} {x : System sync} {texts : List Text} → Reach sync s w x texts → IsSafe x
  Reach-IsSafe (here free) = record { quiet = free; owed = omega arith }
  Reach-IsSafe (next r step) = Step-IsSafe step (Reach-IsSafe r)

  -- The caller that can go on: the handler if one runs, or else the kernel.
  abbrev pub Active : System sync → Pc → Type 0
  Active x p = (x.handler ≡ some p) ⊎ ((x.handler ≡ none) × (x.kernel ≡ p))

  -- Whatever interrupts arrived before, a print of the kernel or of a handler that can go on
  -- and stands in front of the lock finds it free.
  pub lock_is_free :
      {s : S} {w : Writer} {x : System sync} {texts : List Text}
      → Reach sync s w x texts
      → (was : Bool) (text : Text) → Active x (masked was text)
      → held x.cpu ≡ false
  lock_is_free {x} r was text (inl e) = (handler-Fits x (masked was text) (Reach-IsSafe r) e).2.1
  lock_is_free {x} r was text (inr (e, k)) =
      (subst (λ p. Fits (enabled x.cpu) (held x.cpu) p) k (kernel-Fits x (Reach-IsSafe r) e)).1
