-- ===== src/Console.antt =====
-- `_print` of src/vga_buffer.rs, step by step, with the interrupts that may arrive between two
-- steps: the kernel and the handlers of src/interrupts.rs share `WRITER` behind one spin lock.
-- `_print` of src/serial.rs takes the same steps with `SERIAL1`.
pub mod Locking
pub mod Atomic
pub mod Prints
pub mod Settling
pub mod Handlers
pub mod Stuck
mod Tests
use llm_os_rust.Base.{ℕ, ◌≡◌, Bool, true, false, List, [], ◌∷◌, Option, none, some, ◌++◌, ◌+◌}
use llm_os_rust.Text.{Text, bytes}
use llm_os_rust.Vga.{Writer, write_byte, shown}

-- What the code relies on in the x86_64 crate, the spin crate and the processor: the flag that
-- enables interrupts, and a lock that is held or free.
pub record Sync (S : Type 0) : Type 0 where
  pub enabled : S → Bool
  pub held : S → Bool
  pub disable : S → S
  pub enable : S → S
  pub lock : S → S
  pub unlock : S → S
  pub disable-enabled : (s : S) → enabled (disable s) ≡ false
  pub disable-held : (s : S) → held (disable s) ≡ held s
  pub enable-enabled : (s : S) → enabled (enable s) ≡ true
  pub enable-held : (s : S) → held (enable s) ≡ held s
  pub lock-enabled : (s : S) → enabled (lock s) ≡ enabled s
  pub lock-held : (s : S) → held (lock s) ≡ true
  pub unlock-enabled : (s : S) → enabled (unlock s) ≡ enabled s
  pub unlock-held : (s : S) → held (unlock s) ≡ false

-- Where a caller of `_print` stands: outside of it; with interrupts off, in front of the lock; with
-- the lock, the bytes that are left; with the lock given back. The flag is what `without_interrupts`
-- found and restores.
pub data Pc : Type 0 where
  outside : Pc
  masked : Bool → Text → Pc
  writing : Bool → List ℕ → Pc
  unlocked : Bool → Pc

module _ {S : Type 0} (sync : Sync S) where
  open sync use {enabled, held, disable, enable, lock, unlock}

  -- One step of `_print`, from what the processor, the lock and the writer are to what they are
  -- then, and the text that the step commits to the screen.
  pub data PrintStep (s : S) (w : Writer) : Pc → S → Writer → Pc → List Text → Type 0 where
    mask : (text : Text) → PrintStep s w outside (disable s) w (masked (enabled s) text) []
    acquire :
        {was : Bool} {text : Text}
        → held s ≡ false
        → PrintStep s w (masked was text) (lock s) w (writing was (bytes text)) (text ∷ [])
    byte :
        {was : Bool} {b : ℕ} {rest : List ℕ}
        → PrintStep s w (writing was (b ∷ rest)) s (write_byte (shown b) w) (writing was rest) []
    release : {was : Bool} → PrintStep s w (writing was []) (unlock s) w (unlocked was) []
    restore : PrintStep s w (unlocked true) (enable s) w outside []
    leave : PrintStep s w (unlocked false) s w outside []

  -- The kernel and, while one runs, a handler: neither goes on before the handler has returned.
  pub record System : Type 0 where
    pub cpu : S
    pub writer : Writer
    pub kernel : Pc
    pub handler : Option Pc
    pub entered : ℕ
    pub signals : ℕ

  -- One step of the system. An interrupt arrives where interrupts are enabled, and the processor
  -- disables them on the way to the handler; any handler here prints what it likes, signals the end of
  -- the interrupt and returns, which enables interrupts again; Console/Handlers.antt has those of
  -- Interrupts.antt.
  pub data Step (x : System) : System → List Text → Type 0 where
    run_kernel :
        {s : S} {w : Writer} {p : Pc} {out : List Text}
        → x.handler ≡ none
        → PrintStep x.cpu x.writer x.kernel s w p out
        → Step x (record x { cpu = s; writer = w; kernel = p }) out
    interrupt :
        x.handler ≡ none
        → enabled x.cpu ≡ true
        → Step x
            (record x { cpu = disable x.cpu; handler = some outside; entered = x.entered + 1 })
            []
    run_handler :
        {p q : Pc} {s : S} {w : Writer} {out : List Text}
        → x.handler ≡ some p
        → PrintStep x.cpu x.writer p s w q out
        → Step x (record x { cpu = s; writer = w; handler = some q }) out
    end_of_interrupt :
        x.handler ≡ some outside
        → Step x (record x { cpu = enable x.cpu; handler = none; signals = x.signals + 1 }) []

  -- The kernel before its first print.
  abbrev pub start : S → Writer → System
  start s w = record {
    cpu = s;
    writer = w;
    kernel = outside;
    handler = none;
    entered = 0;
    signals = 0;
  }

  -- What can happen from a free lock on, with the texts that were committed, the first in front.
  pub data Reach (s : S) (w : Writer) : System → List Text → Type 0 where
    here : held s ≡ false → Reach s w (start s w) []
    next :
        {x y : System} {texts out : List Text}
        → Reach s w x texts
        → Step x y out
        → Reach s w y (texts ++ out)
