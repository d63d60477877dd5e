-- ===== src/Console/Tests.antt =====
-- Runs of the console on a processor that is its flag and its lock.
use llm_os_rust.Base.{◌++◌, ◌≡◌, refl, Bool, true, false, List, [], ◌∷◌, none, some}
use llm_os_rust.Vga.{write_string}
use llm_os_rust.Interrupts.Handling.{typed}
use llm_os_rust.Text.{Text, codes, bytes}
use llm_os_rust.Vga.Tests.{writer}
use llm_os_rust.Console.{
  Sync, masked, writing, mask, acquire, System, Step, run_kernel, interrupt, run_handler, start,
  Reach, here, next,
}
use llm_os_rust.Console.Atomic.{write_texts, pending, Reach-pending}
use llm_os_rust.Console.Settling.{Settles, Reach-Settles}
use llm_os_rust.Interrupts.{Machine, handle_all, running}
use llm_os_rust.Interrupts.Tests.{decoder, machine, typing}
use llm_os_rust.Console.Handlers.{Follows, handle_all-Follows}
use llm_os_rust.Console.Stuck.{exception, exception_hangs}

record Cpu : Type 0 where
  flag : Bool
  lock : Bool

abbrev cpu_sync : Sync Cpu
cpu_sync = record {
  enabled = λ s. s.flag;
  held = λ s. s.lock;
  disable = λ s. record s { flag = false };
  enable = λ s. record s { flag = true };
  lock = λ s. record s { lock = true };
  unlock = λ s. record s { lock = false };
  disable-enabled = λ s. refl;
  disable-held = λ s. refl;
  enable-enabled = λ s. refl;
  enable-held = λ s. refl;
  lock-enabled = λ s. refl;
  lock-held = λ s. refl;
  unlock-enabled = λ s. refl;
  unlock-held = λ s. refl;
}

abbrev idle : Cpu
idle = record { flag = true; lock = false }

abbrev text : Text
text = codes "ok"

-- The kernel in front of the lock, and then with its first byte behind it.
abbrev at_lock : System cpu_sync
at_lock = record {
  cpu = record { flag = false; lock = false };
  writer = writer;
  kernel = masked true text;
  handler = none;
  entered = 0;
  signals = 0;
}

at_lock-Reach : Reach cpu_sync idle writer at_lock []
at_lock-Reach = next (here refl) (run_kernel refl (mask text))

abbrev inside : System cpu_sync
inside = record at_lock {
  cpu = record { flag = false; lock = true };
  kernel = writing true (bytes text);
}

inside-Reach : Reach cpu_sync idle writer inside (text ∷ [])
inside-Reach = next at_lock-Reach (run_kernel refl (acquire refl))

-- An interrupt whose handler stands in front of the lock.
abbrev interrupted : System cpu_sync
interrupted = record (start cpu_sync idle writer) {
  cpu = record { flag = false; lock = false };
  handler = some (masked false (codes "."));
  entered = 1;
}

interrupted-Reach : Reach cpu_sync idle writer interrupted []
interrupted-Reach =
    next (next (here refl) (interrupt refl refl)) (run_handler refl (mask (codes ".")))

Reach-pending_example : pending (writing true (bytes text)) writer ≡ write_texts (text ∷ []) writer
Reach-pending_example = Reach-pending cpu_sync inside-Reach

Reach-Settles_example : Settles cpu_sync interrupted
Reach-Settles_example = Reach-Settles cpu_sync interrupted-Reach

exception_hangs_example :
    (y : System cpu_sync) × Step cpu_sync (exception cpu_sync inside) y []
    × ((z : System cpu_sync) (out : List Text) → ¬ Step cpu_sync y z out)
exception_hangs_example =
    exception_hangs cpu_sync inside-Reach true (bytes text) (codes "KERNEL PANIC") refl refl

handle_all-Follows_example :
    (m : Machine (Unit {0})) × (handle_all decoder typing (running machine) ≡ running m)
    × (m.signals ≡ machine.signals ++ 33 ∷ 32 ∷ 33 ∷ [])
    × (m.writer ≡ write_string (typed decoder tt typing) machine.writer)
    × Follows cpu_sync decoder typing (start cpu_sync idle writer) m
handle_all-Follows_example =
    handle_all-Follows cpu_sync decoder typing (start cpu_sync idle writer) machine
      (tt, (tt, (tt, tt))) (record { no_handler = refl; on = refl; free = refl }) refl
