-- ===== src/Console/Handlers.antt =====
-- The handlers of Interrupts.antt, each one function, against the steps of the console.
use mathlib.Core.Path.{subst}
use llm_os_rust.Base.{
  ◌+◌, ◌≡◌, refl, sym, ap, ◌∙◌, true, false, List, [], ◌∷◌, ◌++◌, All, length, arith, Option, none,
  some,
}
use llm_os_rust.Text.{Text}
use llm_os_rust.Vga.{Writer, write_string}
use llm_os_rust.Vga.Append.{write_string-nil}
use llm_os_rust.Interrupts.{
  Decoder, DecodedKey, unicode, raw_key, Machine, Interrupt, tick, key, trap, fault, double,
  running, handle, handle_all, on_timer, on_keyboard, decode, key_text,
}
use llm_os_rust.Interrupts.Handling.{
  IsHardware, on_keyboard_lem, on_timer_lem, vectors, typed, handle_all_hardware, machine_of,
}
use llm_os_rust.Console.{Sync, Pc, outside, System, Step, interrupt, run_handler, end_of_interrupt}
use llm_os_rust.Console.Prints.{PrintRun, stay, go, prints}

module _ {S : Type 0} (sync : Sync S) where
  open sync use {enabled, held, disable, enable, disable-held, enable-held, enable-enabled}

  -- Steps of the system.
  pub data Steps : System sync → System sync → Type 0 where
    nothing : {x : System sync} → Steps x x
    andthen : {x y z : System sync} {out : List Text} → Step sync x y out → Steps y z → Steps x z

  Steps-trans : {x y z : System sync} → Steps x y → Steps y z → Steps x z
  Steps-trans nothing r = r
  Steps-trans (andthen step rest) r = andthen step (Steps-trans rest r)

  -- Interrupts are on, the lock is free, and no handler runs.
  pub record IsIdle (x : System sync) : Type 0 where
    pub no_handler : x.handler ≡ none
    pub on : enabled x.cpu ≡ true
    pub free : held x.cpu ≡ false

  -- The system with a handler in it.
  abbrev within : System sync → S → Writer → Pc → System sync
  within x s w p = record x { cpu = s; writer = w; handler = some p; entered = x.entered + 1 }

  handler-Steps :
      (x : System sync) {s t : S} {w v : Writer} {p q : Pc} {z : System sync}
      → PrintRun sync s w p t v q
      → Steps (within x t v q) z
      → Steps (within x s w p) z
  handler-Steps x stay r = r
  handler-Steps x (go step rest) r = andthen (run_handler refl step) (handler-Steps x rest r)

  -- One interrupt, whose handler leaves the writer `w`.
  record Handled (x : System sync) (w : Writer) : Type 0 where
    after : System sync
    steps : Steps x after
    idle : IsIdle after
    shows : after.writer ≡ w
    same : after.kernel ≡ x.kernel
    signalled : after.signals ≡ x.signals + 1

  Handled-run :
      (x : System sync) (t : S) (w : Writer)
      → IsIdle x
      → held t ≡ false
      → PrintRun sync (disable x.cpu) x.writer outside t w outside
      → Handled x w
  Handled-run x t w h free run = record {
    after = record x {
      cpu = enable t;
      writer = w;
      handler = none;
      entered = x.entered + 1;
      signals = x.signals + 1;
    };
    steps =
        andthen (interrupt h.no_handler h.on)
          (handler-Steps x run (andthen (end_of_interrupt refl) nothing));
    idle = record { no_handler = refl; on = enable-enabled t; free = enable-held t ∙ free };
    shows = refl;
    same = refl;
    signalled = refl;
  }

  Handled-print :
      (x : System sync) (text : Text) → IsIdle x → Handled x (write_string text x.writer)
  Handled-print x text h =
      let (t, run, free) =
        prints sync text (disable x.cpu) x.writer (disable-held x.cpu ∙ h.free) in
      Handled-run x t (write_string text x.writer) h free run

  Handled-silent : (x : System sync) → IsIdle x → Handled x x.writer
  Handled-silent x h = Handled-run x (disable x.cpu) x.writer h (disable-held x.cpu ∙ h.free) stay

  -- A key that gives no text prints nothing.
  Handled-key :
      (x : System sync) (o : Option DecodedKey)
      → IsIdle x
      → Handled x (write_string (key_text o) x.writer)
  unfolding key_text
  Handled-key x none h = subst (Handled x) (sym (write_string-nil x.writer)) (Handled-silent x h)
  Handled-key x (some (unicode c)) h = Handled-print x (c ∷ []) h
  Handled-key x (some (raw_key name)) h = Handled-print x name h

  module _ {K Event : Type 0} (decoder : Decoder K Event) where
    -- The steps of the system to the screen and the signals of the machine.
    pub record Follows (is : List (Interrupt decoder)) (x : System sync) (m' : Machine K)
        : Type 0 where
      pub last : System sync
      pub steps : Steps x last
      pub idle : IsIdle last
      pub shows : last.writer ≡ m'.writer
      pub kernel_waits : last.kernel ≡ x.kernel
      pub all_signalled : last.signals ≡ x.signals + length is

    Follows-cons :
        (i : Interrupt decoder) (is : List (Interrupt decoder)) (x : System sync) (w : Writer)
        (m' : Machine K) (h : Handled x w)
        → Follows is h.after m'
        → Follows (i ∷ is) x m'
    Follows-cons i is x w m' h f = record {
      last = f.last;
      steps = Steps-trans h.steps f.steps;
      idle = f.idle;
      shows = f.shows;
      kernel_waits = f.kernel_waits ∙ h.same;
      all_signalled = omega (arith, f.all_signalled, h.signalled);
    }

    -- A list of interrupts, one after the other.
    Follows-all :
        (is : List (Interrupt decoder)) (x : System sync) (m : Machine K)
        → All (IsHardware decoder) is
        → IsIdle x
        → m.writer ≡ x.writer
        → (m' : Machine K) × (handle_all decoder is (running m) ≡ running m') × Follows is x m'
    unfolding handle_all handle
    Follows-all [] x m hs h e = (
      m,
      refl,
      record {
        last = x;
        steps = nothing;
        idle = h;
        shows = sym e;
        kernel_waits = refl;
        all_signalled = omega arith;
      },
    )
    Follows-all (tick ∷ is) x m (_, hs) h e =
        let one = Handled-silent x h in
        let (m', runs, f) =
          Follows-all is one.after (on_timer m) hs one.idle
            (ap (λ n. n.writer) (on_timer_lem decoder m) ∙ e ∙ sym one.shows) in
        (m', runs, Follows-cons tick is x x.writer m' one f)
    Follows-all (key scancode ∷ is) x m (_, hs) h e =
        let text = key_text (decode decoder scancode m.keyboard_state).0 in
        let one = Handled-key x (decode decoder scancode m.keyboard_state).0 h in
        let (m', runs, f) = Follows-all is one.after (on_keyboard decoder scancode m) hs one.idle (
          ap (λ n. n.writer) (on_keyboard_lem decoder scancode m)
          ∙ ap (write_string text) e
          ∙ sym one.shows) in
        (m', runs, Follows-cons (key scancode) is x (write_string text x.writer) m' one f)
    Follows-all (trap f ∷ is) x m (h, hs) idle e = absurd h
    Follows-all (fault a c f ∷ is) x m (h, hs) idle e = absurd h
    Follows-all (double f ∷ is) x m (h, hs) idle e = absurd h

    -- Where interrupts are on, the lock is free and no handler runs, timer and keyboard
    -- interrupts that `handle_all` takes as a list all return, each signalled as ended by
    -- its handler under its own vector, in their order, with the screen that the texts of
    -- the keys give, decoded one after the other; and they can arrive one after the other
    -- in the steps of the console: the system comes to where interrupts are on, the lock is
    -- free and no handler runs again, with that screen, the kernel where it was, and as
    -- many more signals as there were interrupts.
    pub handle_all-Follows :
        (is : List (Interrupt decoder)) (x : System sync) (m : Machine K)
        → All (IsHardware decoder) is
        → IsIdle x
        → m.writer ≡ x.writer
        → (m' : Machine K) × (handle_all decoder is (running m) ≡ running m')
          × (m'.signals ≡ m.signals ++ vectors decoder is)
          × (m'.writer ≡ write_string (typed decoder m.keyboard_state is) m.writer)
          × Follows is x m'
    handle_all-Follows is x m hs h e =
        let (m', runs, f) = Follows-all is x m hs h e in
        let (n, goes, signals, writer) = handle_all_hardware decoder is m hs in
        let same : m' ≡ n = ap (machine_of decoder) (sym runs ∙ goes) in
        (n, goes, signals, writer, subst (Follows is x) same f)
