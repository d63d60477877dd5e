-- ===== src/Boot.antt =====
-- src/gdt.rs, `init` of src/lib.rs, and src/main.rs: the boot of the kernel up to its run loop. The
-- boot is the list of its actions on the hardware and the two consoles, and how it ends. Interrupts
-- that arrive while the kernel boots are in Boot/Interrupted.antt.
pub mod Order
pub mod Transcript
pub mod Arrival
pub mod Shuffle
pub mod Interrupted
pub mod Screen
mod Tests
use llm_os_rust.Base.{
  ℕ, ◌+◌, ◌*◌, Bool, true, false, List, [], ◌∷◌, ◌++◌, ◌==◌, if◌then◌else◌, set, replicate, Result,
  ok, err,
}
use llm_os_rust.Text.{Text, codes}
use llm_os_rust.Heap
use llm_os_rust.Heap.{MapToError, Paging}
use llm_os_rust.Interrupts.{double_fault_ist_index}
use llm_os_rust.TestRunner.{Test, Run, test_runner, test_panic_handler}
use llm_os_rust.Agent
use llm_os_rust.Agent.{Agent, Printed}

-- The seven entries of the interrupt stack table of `TSS`, by the address of the static stack.
unfoldable pub interrupt_stack_table : ℕ → List ℕ
interrupt_stack_table stack_start =
    let stack_size : ℕ = 4096 * 5 in
    set (replicate 7 0) double_fault_ist_index (stack_start + stack_size)

-- The selectors that `GlobalDescriptorTable::add_entry` gives to the two segments.
pub record Selectors : Type 0 where
  pub code_selector : ℕ
  pub tss_selector : ℕ

pub data Action : Type 0 where
  print : Text → Action
  serial_print : Text → Action
  load_gdt : Action
  set_code_segment : ℕ → Action
  load_tss : ℕ → Action
  load_idt : Action
  initialize_pics : Action
  enable_interrupts : Action
  halt : Action

abbrev pub println : Text → Action
println s = print (s ++ codes "\n")

abbrev pub serial_println : Text → Action
serial_println s = serial_print (s ++ codes "\n")

-- The loop that never ends, by its first halt.
abbrev pub hlt_loop : List Action
hlt_loop = halt ∷ []

-- `interrupts::init_idt`
abbrev pub init_idt : List Action
init_idt = load_idt ∷ []

-- `gdt::init`
unfoldable pub gdt_init : Selectors → List Action
gdt_init s = load_gdt ∷ set_code_segment s.code_selector ∷ load_tss s.tss_selector ∷ []

-- `llm_os::init`
unfoldable pub init : Selectors → List Action
unfolding gdt_init
init s = gdt_init s ++ (init_idt ++ initialize_pics ∷ enable_interrupts ∷ [])

-- The entry point of the library's tests: the actions of `init` and the run of the tests, behind
-- which it halts.
unfoldable pub test_kernel_main : Selectors → List Test → List Action × Run
unfolding init test_runner
test_kernel_main s tests = (init s, test_runner tests (record { serial = []; exits = [] }))

-- `panic` in a test build of the kernel
unfoldable pub test_panic : Text → Run → Run
test_panic info r = test_panic_handler info r

-- How the boot ends: in the run loop with an agent, or in the panic handler.
pub data Ending (S : Type 0) : Type 0 where
  run_loop : Agent → S → Ending S
  panic : Text → Ending S

pub record Boot (S : Type 0) : Type 0 where
  pub actions : List Action
  pub ending : Ending S

unfoldable pub banner : List Action
banner =
    println (codes "==================================")
    ∷ println (codes "  LLM OS v0.1.0")
    ∷ println (codes "  An AI-First Operating System")
    ∷ println (codes "==================================")
    ∷ serial_println (codes "[kernel] Booting LLM OS...")
    ∷ []

-- The panic handler: `info` is what its `PanicInfo` prints.
unfoldable pub panic_actions : Text → List Action
panic_actions info =
    println (codes "KERNEL PANIC: " ++ info)
    ∷ serial_println (codes "KERNEL PANIC: " ++ info)
    ∷ hlt_loop

unfoldable pub start_agent_actions : Printed → List Action
start_agent_actions p =
    serial_println (codes "[kernel] Heap allocator initialized")
    ∷ println []
    ∷ println (codes "Hardware initialized.")
    ∷ println (codes "Starting Agent runtime...")
    ∷ serial_println (codes "[kernel] Starting Agent runtime...")
    ∷ serial_print p.serial
    ∷ print p.screen
    ∷ println []
    ∷ println (codes "Agent is alive. Entering run loop.")
    ∷ serial_println (codes "[kernel] Agent run loop started")
    ∷ hlt_loop

abbrev pub offset_message : Text
offset_message = codes "Physical memory offset is 0! Bootloader failed to map memory."

-- The kernel is given the selectors, the paging of the machine, `VirtAddr::new`, the state that
-- `memory::init` and `BootInfoFrameAllocator::init` make for the address of the physical memory, and
-- the texts of errors and panics. An `err` of one of the calls is the text that it panics with.
module _ {S E : Type 0} (paging : Paging S E) (selectors : Selectors)
    (virt_addr : ℕ → Result ℕ Text) (memory_init : ℕ → Result S Text)
    (debug_error : MapToError E → Text) (panic_info : Text → Text) where
  unfoldable pub panic_with : List Action → Text → Boot S
  panic_with before message = record {
    actions = before ++ panic_actions (panic_info message);
    ending = panic message;
  }

  -- What follows `init_heap`, with the `expect` on its result.
  unfoldable pub after_heap : List Action → Result (Unit {0}) (MapToError E) × S → Boot S
  unfolding panic_with
  after_heap before (err e, s) =
      panic_with before (codes "heap initialization failed: " ++ debug_error e)
  after_heap before (ok _, s) =
      let (agent, printed) = Agent.boot Agent.new in
      record { actions = before ++ start_agent_actions printed; ending = run_loop agent s }

  -- What follows `memory::init`, unless it panics.
  unfoldable pub after_memory : List Action → Result S Text → Boot S
  unfolding after_heap panic_with
  after_memory before (err message) = panic_with before message
  after_memory before (ok s) = after_heap before (Heap.init_heap paging s)

  -- What follows `VirtAddr::new`, unless it panics.
  unfoldable pub after_offset : List Action → Result ℕ Text → Boot S
  unfolding after_memory panic_with
  after_offset before (err message) = panic_with before message
  after_offset before (ok phys_mem_offset) = after_memory before (memory_init phys_mem_offset)

  unfoldable pub hardware_actions : List Action
  hardware_actions =
      banner ++ (init selectors ++ serial_println (codes "[kernel] GDT, IDT, PIC initialized") ∷ [])

  -- `kernel_main`, by the `physical_memory_offset` of the boot information
  unfoldable pub kernel_main : ℕ → Boot S
  unfolding after_offset panic_with
  kernel_main physical_memory_offset =
      if physical_memory_offset == 0
      then panic_with hardware_actions offset_message
      else after_offset hardware_actions (virt_addr physical_memory_offset)
