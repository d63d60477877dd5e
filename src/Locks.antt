-- ===== src/Locks.antt =====
-- Four of the kernel's spin locks: `WRITER` of src/vga_buffer.rs, `SERIAL1` of src/serial.rs, `PICS` and
-- `KEYBOARD` of src/interrupts.rs. What the code does between taking and releasing them is left out
-- here; what it does to the interrupt flag is not. The
-- lock of `ALLOCATOR`, which `init_heap` and allocations take, is not among them.
pub mod Discipline
pub mod Guard
pub mod Freedom
mod Tests
use llm_os_rust.Base.{
  ℕ, ◌≡◌, Bool, true, false, List, [], ◌∷◌, ◌++◌, Option, none, some, if◌then◌else◌,
}

pub data Lock : Type 0 where
  writer serial pics keyboard : Lock

abbrev pub same : Lock → Lock → Bool
same writer writer = true
same serial serial = true
same pics pics = true
same keyboard keyboard = true
same _ _ = false

-- Which locks are held.
abbrev pub Held : Type 0
Held = Lock → Bool

abbrev pub all_free : Held
all_free lock = false

abbrev pub mark : Lock → Bool → Held → Held
mark lock taken held other = if same lock other then taken else held other

-- `mask` and `restore` are the two ends of `without_interrupts`; `enable` is `interrupts::enable`.
pub data Instruction : Type 0 where
  mask restore enable : Instruction
  acquire release : Lock → Instruction

abbrev pub Code : Type 0
Code = List Instruction

-- `_print` of src/vga_buffer.rs with `WRITER`, and of src/serial.rs with `SERIAL1`
unfoldable pub print : Lock → Code
print lock = mask ∷ acquire lock ∷ release lock ∷ restore ∷ []

unfoldable pub timer_handler : Code
timer_handler = acquire pics ∷ release pics ∷ []

-- The handler holds `KEYBOARD` to its end, over the print if the scancode completes a key.
unfoldable pub keyboard_handler : Bool → Code
unfolding print
keyboard_handler prints =
    acquire keyboard
    ∷ ((if prints then print writer else []) ++ acquire pics ∷ release pics ∷ release keyboard ∷ [])

-- The end of `llm_os::init`, before which interrupts are off.
unfoldable pub initialize : Code
initialize = acquire pics ∷ release pics ∷ enable ∷ []

-- What a caller still has to do, and the flag that its `without_interrupts` found.
pub record Frame : Type 0 where
  pub code : Code
  pub saved : Bool

pub record System : Type 0 where
  pub flag : Bool
  pub held : Held
  pub kernel : Frame
  pub handler : Option Frame

abbrev pub entered : Code → Frame
entered code = record { code = code; saved = false }

-- One instruction, on the flag, the locks and what was saved: `acquire` waits while its lock is
-- held.
pub data Execute (flag : Bool) (held : Held) (saved : Bool)
    : Instruction → Bool → Held → Bool → Type 0 where
  masks : Execute flag held saved mask false held flag
  restores : Execute flag held saved restore saved held saved
  enables : Execute flag held saved enable true held saved
  acquires :
      {lock : Lock}
      → held lock ≡ false
      → Execute flag held saved (acquire lock) flag (mark lock true held) saved
  releases :
      {lock : Lock} → Execute flag held saved (release lock) flag (mark lock false held) saved

-- The handlers that an interrupt can enter.
pub data IsHandler : Code → Type 0 where
  timer : IsHandler timer_handler
  key : (prints : Bool) → IsHandler (keyboard_handler prints)

-- The locks of the two consoles.
pub data IsConsole : Lock → Type 0 where
  screen : IsConsole writer
  port : IsConsole serial

-- What goes on by itself: the kernel where no handler runs, and a handler to its end, which enables
-- interrupts again.
pub data Work (x : System) : System → Type 0 where
  run_kernel :
      {i : Instruction} {rest : Code} {flag saved : Bool} {held : Held}
      → x.handler ≡ none
      → x.kernel.code ≡ i ∷ rest
      → Execute x.flag x.held x.kernel.saved i flag held saved
      → Work x
          (record x { flag = flag; held = held; kernel = record { code = rest; saved = saved } })
  run_handler :
      {f : Frame} {i : Instruction} {rest : Code} {flag saved : Bool} {held : Held}
      → x.handler ≡ some f
      → f.code ≡ i ∷ rest
      → Execute x.flag x.held f.saved i flag held saved
      → Work x (record x {
        flag = flag;
        held = held;
        handler = some (record { code = rest; saved = saved });
      })
  return :
      {f : Frame}
      → x.handler ≡ some f
      → f.code ≡ []
      → Work x (record x { flag = true; handler = none })

-- The kernel, with nothing left to do, prints again, or comes to the end of `init`, where interrupts
-- are off; and an interrupt arrives where they are enabled.
pub data Step (x : System) : System → Type 0 where
  work : {y : System} → Work x y → Step x y
  call :
      {lock : Lock}
      → x.handler ≡ none
      → x.kernel.code ≡ []
      → IsConsole lock
      → Step x (record x { kernel = entered (print lock) })
  init :
      x.handler ≡ none
      → x.kernel.code ≡ []
      → x.flag ≡ false
      → Step x (record x { kernel = entered initialize })
  interrupt :
      {code : Code}
      → x.handler ≡ none
      → x.flag ≡ true
      → IsHandler code
      → Step x (record x { flag = false; handler = some (entered code) })

-- The kernel at its start, with interrupts off and all locks free.
abbrev pub start : System
start = record { flag = false; held = all_free; kernel = entered []; handler = none }

pub data Reach : System → Type 0 where
  here : Reach start
  next : {x y : System} → Reach x → Step x y → Reach y
