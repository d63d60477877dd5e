-- ===== src/Lib.antt =====
-- A model of the LLM OS kernel (src/), a bare-metal x86_64 kernel whose only process is an agent.
--
-- The program's parts, and the files that model them:
--
-- * Context.antt models the context window, src/agent/context.rs. `ContextWindow` is the struct, its
--   `VecDeque` a list with its front first; `push_message`, `evict_oldest`, `estimate_tokens` and
--   `status` are the methods of those names. The `while` loop of `push_message` is `make_room`, on
--   fuel: one round more than the window has messages, since each round but the last takes one out.
--   Context/Room.antt is about that loop, Context/History.antt has the history of all pushes, of which
--   the window and its log are a view, and Context/Reference.antt the window as a function of it.
-- * Tools.antt models the tool registry, src/agent/tools.rs: `ToolRegistry` with its two `BTreeMap`s,
--   `register`, `execute` and the methods `exec_calculator`, `exec_memory_store` and
--   `exec_memory_recall`. Tools/I64.antt is the arithmetic of `i64` for the two build profiles: a dev
--   build panics on overflow, a release build wraps around. A panic is the outcome `panicked`;
--   Tools/Panics.antt and Agent/Panics.antt have the inputs that lead to it.
-- * Agent.antt models the agent, src/agent/mod.rs: `new`, `boot`, `process_input` and
--   `handle_tool_call`. The agent owns a context window and a registry. Every input and response is
--   pushed into the window; an input that starts with `/tool ` goes to the registry. Agent/Session.antt,
--   Agent/Said.antt and Agent/Persistence.antt have sequences of inputs, against the abstract agent of
--   Agent/Ideal.antt; Agent/Grammar.antt has the grammar of the inputs, Agent/Reading.antt the reading as a
--   function.
-- * Vga.antt models the text screen, src/vga_buffer.rs: `Writer` with `write_byte`, `write_string`,
--   `new_line` and `clear_row` over 25 rows of 80 cells. Vga/Terminal.antt has the terminal that keeps
--   its lines, of which the screen is the end.
-- * Console.antt models `_print` of src/vga_buffer.rs as steps of the kernel and of the handlers of
--   src/interrupts.rs, which share the flag that enables interrupts and the lock of `WRITER`; what the
--   x86_64 and spin crates promise of the two is the interface `Sync`. A handler may print any
--   texts; Console/Handlers.antt is about those of Interrupts.antt.
-- * Locks.antt has four of the kernel's spin locks, `WRITER`, `SERIAL1`, `PICS` and `KEYBOARD`: what
--   `_print` of both consoles, the end of `init` and the two hardware interrupt handlers do to them and
--   to the flag that enables interrupts, as instructions that a system runs step by step.
--   Locks/Discipline.antt has the check of such code, and Locks/Guard.antt takes it through the steps.
-- * Serial.antt models src/serial.rs: `SERIAL1`, `_print` and the macros, over the interface `Uart` for
--   what the uart_16550 crate promises; what the driver sends for a byte is a parameter. Its `_print` takes the same steps as that of the screen.
-- * Memory.antt models the frame allocator, src/memory.rs: `BootInfoFrameAllocator` over the regions of
--   the bootloader's memory map.
-- * Heap.antt models `init_heap` of src/allocator.rs, over the operations `Paging` of the page table
--   mapper, the frame allocator and the heap allocator. Heap/Mapper.antt puts the allocator of
--   Memory.antt in their place, with the interface `Mapper` for what the x86_64 crate promises: a page
--   needs three page tables at most, so that 1024 frames are enough for 256 pages.
-- * Interrupts.antt models src/interrupts.rs: the table `IDT`, the handlers, and a sequence of
--   interrupts as the list that `handle_all` takes. The handlers print by Vga.antt.
-- * TestRunner.antt models the test infrastructure of src/lib.rs.
-- * Boot.antt models `kernel_main` and `panic` of src/main.rs, `init` of src/lib.rs and src/gdt.rs: the
--   boot as the list of its actions on the hardware and the consoles, and how it ends. It calls
--   `init_heap` of Heap.antt and `boot` of Agent.antt. Boot/Order.antt has the order that the actions
--   must keep, as the step function of a monitor, Boot/Arrival.antt the boot over Memory.antt, and
--   Boot/Transcript.antt what it prints. Boot/Interrupted.antt has the runs of the boot in which
--   interrupts arrive, and Boot/Screen.antt puts them, the boot and the screen together.
--
-- Text.antt is what the kernel uses of `str`, Text/Decimal.antt the print and the parser of integers,
-- BTreeMap.antt an association list in the order of its keys, and Base.antt the names, lists, outcomes
-- and integers that all parts share. A text is the list of its code points; `bytes` is its UTF-8 form.
-- What the agent prints to the serial port is returned as a text beside the new state.
--
-- Numbers: a `usize` has 64 bits. Sums of tokens are written with their wrap-around, which is that of a
-- release build; a dev build panics where one reaches 2^64, which is not modelled. Theorems about the
-- numbers of a window ask that no sum reaches it, or get it from the invariant of the agent. Lengths of
-- texts and lists are those of memory and have no bound of their own.
--
-- Not modelled: the heap that runs out: allocation is taken to succeed; the lock of `ALLOCATOR`, which
-- allocations and `init_heap` take; the panic of `PhysAddr::new` at 2^52 and above, where no memory
-- lies; bootloader/, a copy of the bootloader crate; the PICs and the CPU's registers but for the
-- order in which the boot uses them, and for the interrupt flag. Given as parameters: the percentage that
-- `status` prints, which the kernel computes in `f64`; `VirtAddr::new` and `memory::init` as
-- `kernel_main` calls them, each with a result or the text of a panic; the keyboard decoder; the UART;
-- the mapper and the heap allocator; the CR3 register; the texts that `Debug` gives to stack frames,
-- errors and panics.
pub mod Base
pub mod Text
pub mod BTreeMap
pub mod Context
pub mod Tools
pub mod Agent
pub mod Vga
pub mod Console
pub mod Locks
pub mod Serial
pub mod Memory
pub mod Heap
pub mod Interrupts
pub mod TestRunner
pub mod Boot
