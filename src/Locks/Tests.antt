-- ===== src/Locks/Tests.antt =====
-- A key pressed in front of a print.
use llm_os_rust.Base.{◌≡◌, refl, true, false, [], ◌∷◌, Bool, none, Option, some, ◌+◌}
use llm_os_rust.Locks.{
  Lock, pics, mark, all_free, acquire, release, System, work, run_kernel, run_handler, init,
  interrupt, key, keyboard_handler, initialize, Reach, here, next, acquires, releases, enables,
  Code, keyboard, print, Frame, Held, writer, call, screen, restore, masks,
}
use llm_os_rust.Locks.Discipline.{AllFree}
use llm_os_rust.Locks.Freedom.{
  Finishes, Active, Reach-free, Reach-Finishes, Run, then, remaining, nothing,
}

abbrev frame : Code → Bool → Frame
frame code saved = record { code = code; saved = saved }

abbrev system : Bool → Held → Frame → Option Frame → System
system flag held kernel handler = record {
  flag = flag;
  held = held;
  kernel = kernel;
  handler = handler;
}

-- `init` to its end.
initialized : Reach (system true (mark pics false (mark pics true all_free)) (frame [] false) none)
unfolding initialize
initialized =
    next
      (next (next (next here (init refl refl refl)) (work (run_kernel refl refl (acquires refl))))
        (work (run_kernel refl refl releases)))
      (work (run_kernel refl refl enables))

-- The keyboard handler, about to take `WRITER`, in front of a print that is about to take it too.
abbrev pressed : System
pressed =
    system false (mark keyboard true (mark pics false (mark pics true all_free)))
      (frame (print writer) false)
      (some (
        frame
          (acquire writer
            ∷ release writer
            ∷ restore
            ∷ acquire pics
            ∷ release pics
            ∷ release keyboard
            ∷ [])
          false))

pressed-Reach : Reach pressed
unfolding keyboard_handler print
pressed-Reach =
    next
      (next (next (next initialized (call refl refl screen)) (interrupt refl refl (key true)))
        (work (run_handler refl refl (acquires refl))))
      (work (run_handler refl refl masks))

Reach-free_example :
    ((lock : Lock) (rest : Code) → Active pressed (acquire lock ∷ rest) → pressed.held lock ≡ false)
    × (pressed.flag ≡ true → AllFree pressed.held)
Reach-free_example = Reach-free pressed-Reach

-- The handler after it has printed.
abbrev printed : System
printed =
    system false (mark writer false (mark writer true pressed.held)) (frame (print writer) false)
      (some (frame (restore ∷ acquire pics ∷ release pics ∷ release keyboard ∷ []) false))

pressed-printed : Run 2 pressed printed
pressed-printed =
    then (run_handler refl refl (acquires refl)) (then (run_handler refl refl releases) nothing)

Reach-Finishes_example :
    (2 + remaining printed ≡ remaining pressed) × Finishes (remaining printed) printed
Reach-Finishes_example = Reach-Finishes pressed-Reach pressed-printed
