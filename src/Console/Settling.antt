-- ===== src/Console/Settling.antt =====
-- The ends of prints and of handlers.
use mathlib.Core.Path.{subst}
use llm_os_rust.Base.{
  inl, inr, Option-cases, ◌≡◌, refl, sym, ap, List, ◌+◌, none, some, arith, Option-cases,
}
use llm_os_rust.Text.{Text}
use llm_os_rust.Vga.{Writer}
use llm_os_rust.Console.{
  Sync, Pc, outside, System, Step, run_kernel, run_handler, end_of_interrupt, Reach,
}
use llm_os_rust.Console.Prints.{completed, PrintRun, stay, go, Ends-all}
use llm_os_rust.Console.Locking.{signals_owed, IsSafe, kernel-Fits, handler-Fits, Reach-IsSafe}

module _ {S : Type 0} (sync : Sync S) where
  open sync use {enabled, held}

  -- Steps of the kernel and the handlers, with no new interrupt.
  pub data Run : System sync → System sync → Type 0 where
    done : {x : System sync} → Run x x
    then :
        {x y z : System sync} {out : List Text}
        → Step sync x y out
        → y.entered ≡ x.entered
        → Run y z
        → Run x z

  abbrev kernel_at : System sync → S → Writer → Pc → System sync
  kernel_at x s w p = record x { cpu = s; writer = w; kernel = p }

  abbrev pub handler_at : System sync → S → Writer → Pc → System sync
  handler_at x s w p = record x { cpu = s; writer = w; handler = some p }

  kernel_runs :
      (x : System sync) {s t : S} {w v : Writer} {p q : Pc} {z : System sync}
      → x.handler ≡ none
      → PrintRun sync s w p t v q
      → Run (kernel_at x t v q) z
      → Run (kernel_at x s w p) z
  kernel_runs x e stay r = r
  kernel_runs x e (go step rest) r = then (run_kernel e step) refl (kernel_runs x e rest r)

  pub handler_runs :
      (x : System sync) {s t : S} {w v : Writer} {p q : Pc} {z : System sync}
      → PrintRun sync s w p t v q
      → Run (handler_at x t v q) z
      → Run (handler_at x s w p) z
  handler_runs x stay r = r
  handler_runs x (go step rest) r = then (run_handler refl step) refl (handler_runs x rest r)

  -- The system at the end of such steps, with the kernel outside, no handler, and each interrupt
  -- signalled.
  pub record Settles (x : System sync) : Type 0 where
    pub last : System sync
    pub run : Run x last
    pub no_handler : last.handler ≡ none
    pub kernel_outside : last.kernel ≡ outside
    pub all_signalled : last.signals ≡ x.entered

  Settles-kernel : (x : System sync) → IsSafe sync x → x.handler ≡ none → Settles x
  Settles-kernel x safe e =
      let n = Ends-all sync x.kernel x.cpu x.writer (kernel-Fits sync x safe e) in
      record {
        last = kernel_at x n.cpu (completed x.kernel x.writer) outside;
        run = kernel_runs x e n.run done;
        no_handler = e;
        kernel_outside = refl;
        all_signalled = omega (arith, safe.owed, ap signals_owed e);
      }

  Settles-handler : (x : System sync) (p : Pc) → IsSafe sync x → x.handler ≡ some p → Settles x
  Settles-handler x p safe e =
      let (out, off, fits, found) = handler-Fits sync x p safe e in
      let n = Ends-all sync p x.cpu x.writer fits in
      record {
        last = record x {
          cpu = sync.enable n.cpu;
          writer = completed p x.writer;
          handler = none;
          signals = x.signals + 1;
        };
        run =
            subst
              (λ o.
                Run (record x { handler = o })
                  (record x {
                    cpu = sync.enable n.cpu;
                    writer = completed p x.writer;
                    handler = none;
                    signals = x.signals + 1;
                  }))
              (sym e) (handler_runs x n.run (then (end_of_interrupt refl) refl done));
        no_handler = refl;
        kernel_outside = out;
        all_signalled = omega (arith, safe.owed, ap signals_owed e);
      }

  -- From whatever can be reached with prints and interrupts, there are steps without a new
  -- interrupt to the end of every print, where no handler runs, the kernel is outside of
  -- `_print`, and each interrupt that arrived was signalled as ended.
  pub Reach-Settles :
      {s : S} {w : Writer} {x : System sync} {texts : List Text}
      → Reach sync s w x texts
      → Settles x
  Reach-Settles {x} r = elim (Option-cases x.handler) [
    | inl e ↦ Settles-kernel x (Reach-IsSafe sync r) e
    | inr (p, e) ↦ Settles-handler x p (Reach-IsSafe sync r) e
  ]
