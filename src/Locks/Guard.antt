-- ===== src/Locks/Guard.antt =====
-- The discipline through the steps of the kernel and its handlers.
use mathlib.Core.Path.{subst, fun_ext}
use llm_os_rust.Base.{◌≡◌, refl, sym, Bool, true, false, [], ◌∷◌, Option, none, some}
use llm_os_rust.Locks.{
  Held, all_free, mark, Instruction, mask, restore, enable, acquire, release, Code, print,
  initialize, Execute, masks, restores, enables, acquires, releases, Frame, System, entered, Work,
  run_kernel, run_handler, return, Step, work, call, init, interrupt, Reach, here, next,
}
use llm_os_rust.Locks.Discipline.{
  AllFree, Obeys, Masked, print-Obeys, initialize-Obeys, handler-Obeys,
}

-- A handler runs with interrupts off, over a kernel that holds no lock.
abbrev pub Guards : Bool → Held → Option Frame → Frame → Type 0
Guards flag held none kernel = Obeys flag held kernel.saved kernel.code
Guards flag held (some f) kernel =
    Obeys true all_free kernel.saved kernel.code
    × (flag ≡ false)
    × (f.saved ≡ false)
    × Obeys flag held f.saved f.code
    × Masked f.code

unfoldable pub IsGuarded : System → Type 0
IsGuarded x = Guards x.flag x.held x.handler x.kernel

AllFree-all_free : (held : Held) → AllFree held → held ≡ all_free
AllFree-all_free held h = fun_ext h

-- Where interrupts are on, no lock is held.
pub Obeys-AllFree :
    (held : Held) (saved : Bool) (code : Code) → Obeys true held saved code → AllFree held
Obeys-AllFree held saved [] o = o
Obeys-AllFree held saved (mask ∷ rest) o = o.0 refl
Obeys-AllFree held saved (restore ∷ rest) o = o.0 refl
Obeys-AllFree held saved (enable ∷ rest) o = o.0 refl
Obeys-AllFree held saved (acquire lock ∷ rest) o = o.0 refl
Obeys-AllFree held saved (release lock ∷ rest) o = o.0 refl

-- One instruction keeps the discipline.
Execute-Obeys :
    {flag flag' saved saved' : Bool} {held held' : Held} {i : Instruction} (rest : Code)
    → Execute flag held saved i flag' held' saved'
    → Obeys flag held saved (i ∷ rest)
    → Obeys flag' held' saved' rest
Execute-Obeys rest masks (h, o) = o
Execute-Obeys rest restores (h, o) = o
Execute-Obeys rest enables (h, o) = o
Execute-Obeys rest (acquires free) (h, k, o) = o
Execute-Obeys rest releases (h, o) = o

-- An instruction of a handler leaves interrupts off.
Execute-Masked :
    {flag flag' saved saved' : Bool} {held held' : Held} {i : Instruction} (rest : Code)
    → Execute flag held saved i flag' held' saved'
    → flag ≡ false
    → saved ≡ false
    → Masked (i ∷ rest)
    → (flag' ≡ false) × (saved' ≡ false) × Masked rest
Execute-Masked rest masks f s m = (refl, f, m)
Execute-Masked rest restores f s m = (s, s, m)
Execute-Masked rest enables f s m = absurd m
Execute-Masked rest (acquires free) f s m = (f, s, m)
Execute-Masked rest releases f s m = (f, s, m)

-- What an instruction that obeys does.
pub record Executes (flag : Bool) (held : Held) (saved : Bool) (i : Instruction) (rest : Code)
    : Type 0 where
  pub flag' : Bool
  pub held' : Held
  pub saved' : Bool
  pub run : Execute flag held saved i flag' held' saved'

pub Executes-all :
    (flag : Bool) (held : Held) (saved : Bool) (i : Instruction) (rest : Code)
    → Obeys flag held saved (i ∷ rest)
    → Executes flag held saved i rest
Executes-all flag held saved mask rest o = record {
  flag' = false;
  held' = held;
  saved' = flag;
  run = masks;
}
Executes-all flag held saved restore rest o = record {
  flag' = saved;
  held' = held;
  saved' = saved;
  run = restores;
}
Executes-all flag held saved enable rest o = record {
  flag' = true;
  held' = held;
  saved' = saved;
  run = enables;
}
Executes-all flag held saved (acquire lock) rest (h, free, o) = record {
  flag' = flag;
  held' = mark lock true held;
  saved' = saved;
  run = acquires free;
}
Executes-all flag held saved (release lock) rest o = record {
  flag' = flag;
  held' = mark lock false held;
  saved' = saved;
  run = releases;
}

pub kernel-Guards :
    (x : System) → IsGuarded x → x.handler ≡ none → Obeys x.flag x.held x.kernel.saved x.kernel.code
unfolding IsGuarded
kernel-Guards x g e = subst (λ o. Guards x.flag x.held o x.kernel) e g

pub handler-Guards :
    (x : System) (f : Frame)
    → IsGuarded x
    → x.handler ≡ some f
    → Guards x.flag x.held (some f) x.kernel
unfolding IsGuarded
handler-Guards x f g e = subst (λ o. Guards x.flag x.held o x.kernel) e g

pub Work-IsGuarded : {x y : System} → Work x y → IsGuarded x → IsGuarded y
unfolding IsGuarded
Work-IsGuarded {x} (run_kernel {i} {rest} {flag} {saved} {held} e k run) g =
    subst (λ o. Guards flag held o (record { code = rest; saved = saved })) (sym e)
      (Execute-Obeys rest run (subst (Obeys x.flag x.held x.kernel.saved) k (kernel-Guards x g e)))
Work-IsGuarded {x} (run_handler {f} {i} {rest} e k run) g =
    let (kernel, off, found, obeys, masked) = handler-Guards x f g e in
    let (off', found', masked') = Execute-Masked rest run off found (subst Masked k masked) in
    (
      kernel,
      off',
      found',
      Execute-Obeys rest run (subst (Obeys x.flag x.held f.saved) k obeys),
      masked',
    )
Work-IsGuarded {x} (return {f} e k) g =
    let (kernel, off, found, obeys, masked) = handler-Guards x f g e in
    subst (λ h. Obeys true h x.kernel.saved x.kernel.code)
      (sym (AllFree-all_free x.held (subst (Obeys x.flag x.held f.saved) k obeys))) kernel

Step-IsGuarded : {x y : System} → Step x y → IsGuarded x → IsGuarded y
unfolding IsGuarded
Step-IsGuarded (work w) g = Work-IsGuarded w g
Step-IsGuarded {x} (call {lock} e k console) g =
    subst (λ o. Guards x.flag x.held o (entered (print lock))) (sym e)
      (print-Obeys lock x.flag false x.held
        (subst (Obeys x.flag x.held x.kernel.saved) k (kernel-Guards x g e)))
Step-IsGuarded {x} (init e k off) g =
    subst (λ o. Guards x.flag x.held o (entered initialize)) (sym e)
      (subst (λ b. Obeys b x.held false initialize) (sym off)
        (initialize-Obeys false x.held
          (subst (Obeys x.flag x.held x.kernel.saved) k (kernel-Guards x g e))))
Step-IsGuarded {x} (interrupt {code} e on which) g =
    let kernel =
      subst (λ b. Obeys b x.held x.kernel.saved x.kernel.code) on (kernel-Guards x g e) in
    let free = Obeys-AllFree x.held x.kernel.saved x.kernel.code kernel in
    let (obeys, masked) = handler-Obeys which x.held free in
    (
      subst (λ h. Obeys true h x.kernel.saved x.kernel.code) (AllFree-all_free x.held free) kernel,
      refl,
      refl,
      obeys,
      masked,
    )

pub Reach-IsGuarded : {x : System} → Reach x → IsGuarded x
unfolding IsGuarded
Reach-IsGuarded here = λ lock. refl
Reach-IsGuarded (next r step) = Step-IsGuarded step (Reach-IsGuarded r)
