-- ===== src/Boot/Tests.antt =====
-- Boots of the machine of the heap's tests.
use llm_os_rust.Base.{
  All-replicate, map, replicate, refl, ◌++◌, [], ◌∷◌, arith, ℕ, ◌≡◌, some, List, Bool, false, true,
  sym, ap, Result, ok,
}
use llm_os_rust.Base.{Result, ok, err, ltb, ◌^◌, ◌-◌, if◌then◌else◌}
use llm_os_rust.Text.{bytes, Text, codes}
use llm_os_rust.Heap.{MapToError, page_range}
use llm_os_rust.Heap.Tests.{
  simple, simple_paging, Tables, table_mapper, keep_tables, no_tables, region, region_length,
  All_free,
}
use llm_os_rust.Agent
use llm_os_rust.Boot.{
  Selectors, kernel_main, run_loop, Boot, banner, Action, init, serial_println, start_agent_actions,
  gdt_init,
}
use llm_os_rust.Vga.{Row, shown, initial_writer}
use llm_os_rust.Vga.Scroll.{HasWidth}
use llm_os_rust.Vga.Terminal.{Shows, enter_all}
use llm_os_rust.Interrupts.{
  Machine, handle_all, running, on_timer, on_keyboard, key, Interrupt, tick,
}
use llm_os_rust.Interrupts.Tests.{decoder}
use mathlib.Core.Path.{subst}
use llm_os_rust.Boot.Interrupted.{Boots, acts, finished, keys, ticks, perform, enables}
use llm_os_rust.Boot.Shuffle.{Shuffle}
use llm_os_rust.Boot.Screen.{kernel_weaves, switched_on, power_on}
use llm_os_rust.Boot.Order.{
  at_power_on, all_ready, steps_from, Ended, kernel_main-steps_from, kernel_main-Ended,
}
use llm_os_rust.Memory.{BootInfoFrameAllocator}
use llm_os_rust.Boot.Transcript.{
  screen_of, serial_of, boot_text, boot_log, start_text, banner_text, all_actions,
}
use llm_os_rust.Boot.Arrival.{kernel_main_arrives, booted, booted_lem}

abbrev selectors : Selectors
selectors = record { code_selector = 8; tss_selector = 16 }

abbrev debug_error : MapToError ⊥ → Text
debug_error e = codes "error"

abbrev panic_info : Text → Text
panic_info message = message

-- The canonical addresses, as they are; of the others the text of the panic.
abbrev virt_addr : ℕ → Result ℕ Text
virt_addr n =
    if ltb n (2 ^ 47)
    then ok n
    else (if ltb n (2 ^ 64 - 2 ^ 47) then err (codes "not canonical") else ok n)

abbrev offset : ℕ
offset = 0x1000_0000

kernel_main-steps_from_example :
    steps_from
      (kernel_main simple_paging selectors virt_addr
        (λ n. ok simple)
        debug_error
        panic_info
        offset).actions
      (some at_power_on)
    ≡ some all_ready
kernel_main-steps_from_example =
    kernel_main-steps_from simple_paging selectors virt_addr (λ n. ok simple) debug_error panic_info
      offset

kernel_main-Ended_example :
    Ended simple_paging selectors virt_addr
      (λ n. ok simple)
      debug_error
      panic_info
      offset
      (kernel_main simple_paging selectors virt_addr
        (λ n. ok simple)
        debug_error
        panic_info
        offset).ending
kernel_main-Ended_example =
    kernel_main-Ended simple_paging selectors virt_addr (λ n. ok simple) debug_error panic_info
      offset

abbrev arrived : Boot (BootInfoFrameAllocator × Tables)
arrived =
    booted table_mapper keep_tables selectors virt_addr (λ n. ok no_tables) debug_error panic_info
      (region ∷ []) offset

kernel_main_arrives_example :
    (s : BootInfoFrameAllocator × Tables) × (arrived.ending ≡ run_loop (Agent.boot Agent.new).0 s)
    × (screen_of arrived.actions ≡ boot_text)
    × (serial_of arrived.actions ≡ boot_log)
kernel_main_arrives_example =
    kernel_main_arrives table_mapper keep_tables selectors virt_addr (λ n. ok no_tables) debug_error
      panic_info (region ∷ []) offset offset no_tables (omega arith) refl refl
      (omega (arith, region_length)) (omega (arith, region_length)) (All_free page_range)

abbrev blank_row : Row
blank_row = replicate 80 (record { ascii_character = 32; color_code = 0 })

abbrev perform_all : List Action → Machine (Unit {0}) → Machine (Unit {0})
perform_all [] m = m
perform_all (a ∷ actions) m = perform_all actions (perform a m)

abbrev enables_all : List Action → Bool → Bool
enables_all [] flag = flag
enables_all (a ∷ actions) flag = enables_all actions (enables a flag)

behind_all :
    (flag : Bool) (before actions : List Action) (is : List (Interrupt decoder))
    (m m' : Machine (Unit {0}))
    → Boots decoder (enables_all before flag) actions is (perform_all before m) m'
    → Boots decoder flag (before ++ actions) is m m'
behind_all flag [] actions is m m' run = run
behind_all flag (a ∷ before) actions is m m' run =
    acts (behind_all (enables a flag) before actions is (perform a m) m' run)

quiet :
    (flag : Bool) (actions : List Action) (m : Machine (Unit {0}))
    → Boots decoder flag actions [] m (perform_all actions m)
quiet flag [] m = finished
quiet flag (a ∷ actions) m = acts (quiet (enables a flag) actions (perform a m))

abbrev first_actions : List Action
first_actions =
    banner ++ (init selectors ++ serial_println (codes "[kernel] GDT, IDT, PIC initialized") ∷ [])

abbrev last_actions : List Action
last_actions = start_agent_actions (Agent.boot Agent.new).1

abbrev blank : Machine (Unit {0})
blank = switched_on tt (initial_writer (replicate 24 blank_row ++ blank_row ∷ []))

-- The machine behind a boot into which a key and a tick came once interrupts were enabled.
abbrev interrupted : Machine (Unit {0})
interrupted =
    perform_all last_actions (on_timer (on_keyboard decoder 79 (perform_all first_actions blank)))

boot_run : Boots decoder false (all_actions selectors) (key 79 ∷ tick ∷ []) blank interrupted
unfolding banner init gdt_init
boot_run = behind_all false first_actions last_actions (key 79 ∷ tick ∷ []) blank interrupted (
    keys 79 (
      ticks (
        quiet true last_actions
          (on_timer (on_keyboard decoder 79 (perform_all first_actions blank))))))

arrived_run : Boots decoder false arrived.actions (key 79 ∷ tick ∷ []) blank interrupted
arrived_run =
    let (s, e) =
      booted_lem table_mapper keep_tables selectors virt_addr (λ n. ok no_tables) debug_error
        panic_info (region ∷ []) offset offset no_tables (omega arith) refl refl
        (omega (arith, region_length)) (omega (arith, region_length)) (All_free page_range) in
    subst (λ actions. Boots decoder false actions (key 79 ∷ tick ∷ []) blank interrupted)
      (sym (ap (λ b. b.actions) e)) boot_run

kernel_weaves_example :
    (woven : Text) × Shuffle start_text (codes "O") woven
    × (interrupted.signals ≡ 33 ∷ 32 ∷ [])
    × Shows interrupted.writer (
        enter_all
          (map shown (bytes (banner_text ++ woven)))
          (power_on (replicate 24 blank_row) blank_row))
unfolding llm_os_rust.Interrupts.key_text llm_os_rust.Interrupts.decode
kernel_weaves_example =
    kernel_weaves table_mapper keep_tables selectors virt_addr (λ n. ok no_tables) debug_error
      panic_info (region ∷ []) decoder offset offset no_tables (replicate 24 blank_row) blank_row tt
      (key 79 ∷ tick ∷ []) interrupted (omega arith) refl refl (omega (arith, region_length))
      (omega (arith, region_length)) (All_free page_range) refl
      (All-replicate HasWidth 24 blank_row refl) refl arrived_run
