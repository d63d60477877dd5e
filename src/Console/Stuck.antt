-- ===== src/Console/Stuck.antt =====
-- Exceptions are not masked: one that arrives inside of a print.
use mathlib.Core.Path.{subst}
use mathlib.Core.Option.{some-injective}
use llm_os_rust.Base.{ℕ, ◌≡◌, refl, sym, ◌∙◌, Bool, true, List, [], none, some}
use llm_os_rust.Text.{Text}
use llm_os_rust.Vga.{Writer}
use llm_os_rust.Console.{
  Sync, Pc, outside, masked, writing, PrintStep, mask, acquire, byte, release, restore, leave,
  System, Step, run_kernel, interrupt, run_handler, end_of_interrupt, Reach,
}
use llm_os_rust.Console.Locking.{Fits, kernel-Fits, Reach-IsSafe}

module _ {S : Type 0} (sync : Sync S) where
  open sync use {enabled, held, disable, disable-enabled, disable-held}

  -- An exception of the kernel: its handler is entered whether or not interrupts are enabled. The
  -- handlers of breakpoints and page faults, and the panic behind a double fault, begin with a print.
  abbrev pub exception : System sync → System sync
  exception x = record x { cpu = disable x.cpu; handler = some outside }

  masked_waits :
      {s t : S} {w v : Writer} {p q : Pc} {out : List Text} (was : Bool) (text : Text)
      → PrintStep sync s w p t v q out
      → p ≡ masked was text
      → held s ≡ true
      → ⊥
  masked_waits was text (mask other) e h = cc
  masked_waits was text (acquire free) e h = cc
  masked_waits was text byte e h = cc
  masked_waits was text release e h = cc
  masked_waits was text restore e h = cc
  masked_waits was text leave e h = cc

  no-Step :
      {x y : System sync} {out : List Text} (was : Bool) (text : Text)
      → x.handler ≡ some (masked was text)
      → held x.cpu ≡ true
      → ¬ Step sync x y out
  no-Step was text e h (run_kernel none_runs step) = cc
  no-Step was text e h (interrupt none_runs on) = cc
  no-Step was text e h (run_handler {p} runs step) =
      masked_waits was text step (some-injective p (masked was text) (sym runs ∙ e)) h
  no-Step was text e h (end_of_interrupt runs) = cc

  -- An exception that arrives while the kernel writes with the lock, and whose handler begins
  -- with a print, hangs: after the handler's first step, none of any kind can follow.
  pub exception_hangs :
      {s : S} {w : Writer} {x : System sync} {texts : List Text}
      → Reach sync s w x texts
      → (was : Bool) (rest : List ℕ) (text : Text) → x.handler ≡ none
      → x.kernel ≡ writing was rest
      → (y : System sync) × Step sync (exception x) y []
        × ((z : System sync) (out : List Text) → ¬ Step sync y z out)
  exception_hangs {x} r was rest text e k =
      let (off, taken) =
        subst (λ p. Fits (enabled x.cpu) (held x.cpu) p) k
          (kernel-Fits sync x (Reach-IsSafe sync r) e) in
      (
        record x {
          cpu = disable (disable x.cpu);
          handler = some (masked (enabled (disable x.cpu)) text);
        },
        run_handler refl (mask text),
        λ z out.
            no-Step (enabled (disable x.cpu)) text refl
              (disable-held (disable x.cpu) ∙ disable-held x.cpu ∙ taken),
      )
