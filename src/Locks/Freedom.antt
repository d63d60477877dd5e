-- ===== src/Locks/Freedom.antt =====
-- No deadlock.
use mathlib.Core.Path.{subst}
use llm_os_rust.Base.{
  ℕ, zero, suc, ◌+◌, length, ap, arith, ◌≡◌, refl, sym, ◌∙◌, true, false, [], ◌∷◌, none, some,
  Option-cases, inl, inr, ◌⊎◌, Option,
}
use llm_os_rust.Locks.{
  Lock, acquire, Code, Frame, System, Work, run_kernel, run_handler, return, Reach, next, work,
}
use llm_os_rust.Locks.Discipline.{AllFree, Obeys}
use llm_os_rust.Locks.Guard.{
  IsGuarded, kernel-Guards, handler-Guards, Work-IsGuarded, Reach-IsGuarded, Obeys-AllFree,
  Executes-all,
}

-- The caller that can go on has this code left.
abbrev pub Active : System → Code → Type 0
Active x code =
    ((f : Frame) × (x.handler ≡ some f) × (f.code ≡ code))
    ⊎ ((x.handler ≡ none) × (x.kernel.code ≡ code))

-- However the kernel prints and comes to the end of `init`, and whatever timer and keyboard
-- interrupts arrive wherever they are enabled: whoever can go on and is about to take one of
-- the locks `WRITER`, `SERIAL1`, `PICS` and `KEYBOARD` finds it free, and none of these is held
-- wherever interrupts are enabled.
pub Reach-free :
    {x : System}
    → Reach x
    → ((lock : Lock) (rest : Code) → Active x (acquire lock ∷ rest) → x.held lock ≡ false)
      × (x.flag ≡ true → AllFree x.held)
Reach-free {x} r = (taken, idle (Option-cases x.handler))
  where
    taken : (lock : Lock) (rest : Code) → Active x (acquire lock ∷ rest) → x.held lock ≡ false
    taken lock rest (inl (f, e, k)) =
        let (kernel, off, found, obeys, masked) = handler-Guards x f (Reach-IsGuarded r) e in
        (subst (Obeys x.flag x.held f.saved) k obeys).1
    taken lock rest (inr (e, k)) =
        (subst (Obeys x.flag x.held x.kernel.saved) k (kernel-Guards x (Reach-IsGuarded r) e)).1

    idle :
        (x.handler ≡ none) ⊎ ((f : Frame) × (x.handler ≡ some f)) → x.flag ≡ true → AllFree x.held
    idle (inl e) on = Obeys-AllFree x.held x.kernel.saved x.kernel.code (
        subst (λ b. Obeys b x.held x.kernel.saved x.kernel.code) on
          (kernel-Guards x (Reach-IsGuarded r) e))
    idle (inr (f, e)) on =
        let (kernel, off, found, obeys, masked) = handler-Guards x f (Reach-IsGuarded r) e in
        let wrong : true ≡ false = sym on ∙ off in let no : ⊥ = cc in absurd no

-- So many steps with no new interrupt and no new call.
pub data Run : ℕ → System → System → Type 0 where
  nothing : {x : System} → Run zero x x
  then : {n : ℕ} {x y z : System} → Work x y → Run n y z → Run (suc n) x z

-- The kernel has nothing left to do, no handler runs, and no lock is held.
pub record IsQuiet (x : System) : Type 0 where
  pub no_handler : x.handler ≡ none
  pub kernel_done : x.kernel.code ≡ []
  pub free : AllFree x.held

abbrev pub left : Option Frame → ℕ
left none = zero
left (some f) = suc (length f.code)

-- The instructions that the handler and the kernel still have to do, and the return of the handler.
abbrev pub remaining : System → ℕ
remaining x = length x.kernel.code + left x.handler

pub record Finishes (n : ℕ) (x : System) : Type 0 where
  pub last : System
  pub run : Run n x last
  pub quiet : IsQuiet last

-- The instructions of a handler, and then more.
abbrev steps : Code → ℕ → ℕ
steps [] n = n
steps (i ∷ rest) n = suc (steps rest n)

steps-length : (code : Code) (n : ℕ) → steps code n ≡ length code + n
steps-length [] n = omega arith
steps-length (i ∷ rest) n = omega (arith, steps-length rest n)

Finishes-kernel :
    (code : Code) (x : System)
    → IsGuarded x
    → x.handler ≡ none
    → x.kernel.code ≡ code
    → Finishes (length code) x
Finishes-kernel [] x g e k = record {
  last = x;
  run = nothing;
  quiet = record {
    no_handler = e;
    kernel_done = k;
    free = subst (Obeys x.flag x.held x.kernel.saved) k (kernel-Guards x g e);
  };
}
Finishes-kernel (i ∷ rest) x g e k =
    let n =
      Executes-all x.flag x.held x.kernel.saved i rest
        (subst (Obeys x.flag x.held x.kernel.saved) k (kernel-Guards x g e)) in
    let w : Work x (record x {
      flag = n.flag';
      held = n.held';
      kernel = record { code = rest; saved = n.saved' };
    }) =
      run_kernel e k n.run in
    let f = Finishes-kernel rest _ (Work-IsGuarded w g) e refl in
    record { last = f.last; run = then w f.run; quiet = f.quiet }

Finishes-handler :
    (code : Code) (x : System) (f : Frame)
    → IsGuarded x
    → x.handler ≡ some f
    → f.code ≡ code
    → Finishes (suc (steps code (length x.kernel.code))) x
Finishes-handler [] x f g e k =
    let w : Work x (record x { flag = true; handler = none }) = return e k in
    let n = Finishes-kernel x.kernel.code _ (Work-IsGuarded w g) refl refl in
    record { last = n.last; run = then w n.run; quiet = n.quiet }
Finishes-handler (i ∷ rest) x f g e k =
    let (kernel, off, found, obeys, masked) = handler-Guards x f g e in
    let n =
      Executes-all x.flag x.held f.saved i rest (subst (Obeys x.flag x.held f.saved) k obeys) in
    let w : Work x (record x {
      flag = n.flag';
      held = n.held';
      handler = some (record { code = rest; saved = n.saved' });
    }) =
      run_handler e k n.run in
    let m = Finishes-handler rest _ _ (Work-IsGuarded w g) refl refl in
    record { last = m.last; run = then w m.run; quiet = m.quiet }

Work-remaining : {x y : System} → Work x y → suc (remaining y) ≡ remaining x
Work-remaining (run_kernel e k run) = omega (arith, ap length k)
Work-remaining {x} (run_handler e k run) = omega (arith, ap length k, ap left e)
Work-remaining {x} (return e k) = omega (arith, ap length k, ap left e)

Run-remaining : {n : ℕ} {x y : System} → Run n x y → n + remaining y ≡ remaining x
Run-remaining nothing = omega arith
Run-remaining (then w run) = omega (arith, Work-remaining w, Run-remaining run)

Run-Reach : {n : ℕ} {x y : System} → Run n x y → Reach x → Reach y
Run-Reach nothing r = r
Run-Reach (then w run) r = Run-Reach run (next r (work w))

Reach-Quiet : {x : System} → Reach x → Finishes (remaining x) x
Reach-Quiet {x} r = elim (Option-cases x.handler) [
  | inl e ↦
      subst (λ n. Finishes n x) (omega (arith, ap left e))
        (Finishes-kernel x.kernel.code x (Reach-IsGuarded r) e refl)
  | inr (f, e) ↦
      subst (λ n. Finishes n x)
        (omega (arith, ap left e, steps-length f.code (length x.kernel.code)))
        (Finishes-handler f.code x f (Reach-IsGuarded r) e refl)
]

-- From whatever the prints of the kernel, the end of `init`, and timer and keyboard interrupts
-- can reach, any run without a new interrupt and without a new call takes as many steps as it
-- takes off what the handler and the kernel still have to do, and the rest can be run to its
-- end, where no handler runs, the kernel has nothing left to do and the locks `WRITER`,
-- `SERIAL1`, `PICS` and `KEYBOARD` are free.
pub Reach-Finishes :
    {n : ℕ} {x y : System}
    → Reach x
    → Run n x y
    → (n + remaining y ≡ remaining x) × Finishes (remaining y) y
Reach-Finishes r run = (Run-remaining run, Reach-Quiet (Run-Reach run r))
