-- ===== src/Console/Atomic.antt =====
-- The screen under interrupts against the texts, each as a whole.
use llm_os_rust.Base.{◌≡◌, refl, sym, ap, ◌∙◌, List, [], ◌∷◌, ◌++◌, Option, none, some}
use llm_os_rust.Text.{Text}
use llm_os_rust.Vga.{Writer, write_bytes, write_string}
use llm_os_rust.Console.{
  Sync, Pc, outside, writing, PrintStep, mask, acquire, byte, release, restore, leave, System, Step,
  run_kernel, interrupt, run_handler, end_of_interrupt, Reach, here, next,
}
use llm_os_rust.Console.Locking.{enabled-outside, kernel-Fits, handler-Fits, Reach-IsSafe, IsSafe}

-- The texts printed one after the other, by nobody else.
abbrev pub write_texts : List Text → Writer → Writer
write_texts [] w = w
write_texts (text ∷ texts) w = write_texts texts (write_string text w)

write_texts-append :
    (texts more : List Text) (w : Writer)
    → write_texts (texts ++ more) w ≡ write_texts more (write_texts texts w)
write_texts-append [] more w = refl
write_texts-append (text ∷ texts) more w = write_texts-append texts more (write_string text w)

-- The writer with the bytes that a caller still has to write.
abbrev pub pending : Pc → Writer → Writer
pending (writing was rest) w = write_bytes rest w
pending _ w = w

-- The caller that runs: the handler, or else the kernel.
abbrev pub running : Option Pc → Pc → Pc
running none kernel = kernel
running (some p) kernel = p

module _ {S : Type 0} (sync : Sync S) where
  open sync use {enabled, held}

  PrintStep-pending :
      {s t : S} {w v : Writer} {p q : Pc} {out : List Text}
      → PrintStep sync s w p t v q out
      → pending q v ≡ write_texts out (pending p w)
  unfolding write_bytes write_string
  PrintStep-pending (mask text) = refl
  PrintStep-pending (acquire free) = refl
  PrintStep-pending byte = refl
  PrintStep-pending release = refl
  PrintStep-pending restore = refl
  PrintStep-pending leave = refl

  Step-pending :
      {x y : System sync} {out : List Text}
      → Step sync x y out
      → IsSafe sync x
      → pending (running y.handler y.kernel) y.writer
        ≡ write_texts out (pending (running x.handler x.kernel) x.writer)
  Step-pending {x} (run_kernel {s} {w} {p} {out} e step) safe =
      ap (λ o. pending (running o p) w) e
      ∙ PrintStep-pending step
      ∙ ap (λ o. write_texts out (pending (running o x.kernel) x.writer)) (sym e)
  Step-pending {x} (interrupt e on) safe =
      let (out, free) =
        enabled-outside sync (enabled x.cpu) (held x.cpu) x.kernel (kernel-Fits sync x safe e) on in
      ap (λ p. pending p x.writer) (sym out)
      ∙ ap (λ o. pending (running o x.kernel) x.writer) (sym e)
  Step-pending {x} (run_handler {p} {q} {s} {w} {out} e step) safe =
      PrintStep-pending step
      ∙ ap (λ o. write_texts out (pending (running o x.kernel) x.writer)) (sym e)
  Step-pending {x} (end_of_interrupt e) safe =
      let (out, off, free, found) = handler-Fits sync x outside safe e in
      ap (λ p. pending p x.writer) out ∙ ap (λ o. pending (running o x.kernel) x.writer) (sym e)

  -- However interrupts arrive between the steps of the prints of the kernel and of the
  -- handlers, the screen, with the bytes that the running print still has to write, is what
  -- the texts give that were printed so far, each as a whole, in the order in which they took
  -- the lock.
  pub Reach-pending :
      {s : S} {w : Writer} {x : System sync} {texts : List Text}
      → Reach sync s w x texts
      → pending (running x.handler x.kernel) x.writer ≡ write_texts texts w
  Reach-pending (here free) = refl
  Reach-pending {s} {w} (next {x} {y} {texts} {out} r step) =
      Step-pending step (Reach-IsSafe sync r)
      ∙ ap (write_texts out) (Reach-pending r)
      ∙ sym (write_texts-append texts out w)
