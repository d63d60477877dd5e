-- ===== src/Boot/Arrival.antt =====
-- The boot over the frame allocator of src/memory.rs: when it arrives at the run loop.
use llm_os_rust.Base.{
  ℕ, refl, ◌∙◌, ok, err, Result, ◌^◌, ◌≤◌, ◌<◌, ◌≡◌, ◌≢◌, ap, false, List, length, All, ◌==◌, arith,
  ok, ◌∙◌, Result,
}
use llm_os_rust.Text.{Text}
use llm_os_rust.Memory
use llm_os_rust.Memory.{MemoryRegion, usable_frames, BootInfoFrameAllocator}
use llm_os_rust.Heap
use llm_os_rust.Heap.{MapToError, page_range, init_heap}
use llm_os_rust.Heap.Backing.{init_heap_succeeds}
use llm_os_rust.Heap.Mapper.{Mapper, kernel_paging}
use llm_os_rust.Agent
use llm_os_rust.Boot.Transcript.{
  all_actions, screen_of, serial_of, boot_text, boot_log, all_actions-screen, all_actions-serial,
}
use llm_os_rust.Boot.{
  Selectors, run_loop, after_heap, hardware_actions, kernel_main, Paging, Boot, after_offset,
  after_memory,
}

module _ {M E : Type 0} (mapper : Mapper M E) (heap_init : ℕ → ℕ → M → M) (selectors : Selectors)
    (virt_addr : ℕ → Result ℕ Text) (tables : ℕ → Result M Text) (debug_error : MapToError E → Text)
    (panic_info : Text → Text) (regions : List MemoryRegion) where
  abbrev pub with_frames : Result M Text → Result (BootInfoFrameAllocator × M) Text
  with_frames (err message) = err message
  with_frames (ok t) = ok (Memory.init regions, t)

  -- `memory::init` and `BootInfoFrameAllocator::init`
  abbrev pub kernel_memory : ℕ → Result (BootInfoFrameAllocator × M) Text
  kernel_memory address = with_frames (tables address)

  -- `kernel_main` on that memory
  abbrev pub booted : ℕ → Boot (BootInfoFrameAllocator × M)
  booted physical_memory_offset =
      kernel_main (kernel_paging mapper heap_init) selectors virt_addr kernel_memory debug_error
        panic_info physical_memory_offset

  -- The boot where `init_heap` returns no error.
  kernel_main-runs :
      (paging : Paging (BootInfoFrameAllocator × M) E)
      (memory_init : ℕ → Result (BootInfoFrameAllocator × M) Text)
      (physical_memory_offset address : ℕ) (start s : BootInfoFrameAllocator × M)
      → physical_memory_offset ≢ 0
      → virt_addr physical_memory_offset ≡ ok address
      → memory_init address ≡ ok start
      → init_heap paging start ≡ (ok tt, s)
      → kernel_main paging selectors virt_addr memory_init debug_error panic_info
          physical_memory_offset
        ≡ record { actions = all_actions selectors; ending = run_loop (Agent.boot Agent.new).0 s }
  unfolding kernel_main after_offset after_memory after_heap hardware_actions
  kernel_main-runs paging memory_init offset address start s nonzero v i runs =
      let given : (offset == 0) ≡ false = ground arith in rw given (rw v (rw i (rw runs refl)))

  pub booted_lem :
      (physical_memory_offset address : ℕ) (t : M)
      → physical_memory_offset ≢ 0
      → virt_addr physical_memory_offset ≡ ok address
      → tables address ≡ ok t
      → length (usable_frames regions) < 2 ^ 64
      → 1024 ≤ length (usable_frames regions)
      → All (mapper.IsFree t) page_range
      → (s : BootInfoFrameAllocator × M) × (booted physical_memory_offset ≡ record {
        actions = all_actions selectors;
        ending = run_loop (Agent.boot Agent.new).0 s;
      })
  booted_lem offset address t nonzero v i bounded enough free =
      let (next, left, runs, backs) =
        init_heap_succeeds mapper heap_init regions bounded t enough free in
      let s : BootInfoFrameAllocator × M = (
        record { memory_map = regions; next = next },
        heap_init Heap.heap_start Heap.heap_size left,
      ) in
      (
        s,
        kernel_main-runs (kernel_paging mapper heap_init) kernel_memory offset address
            (Memory.init regions, t) s nonzero v (ap with_frames i) runs,
      )

  -- With a physical memory offset other than 0 that `VirtAddr::new` and `memory::init` take
  -- without a panic, a memory map that has 1024 usable frames or more, but less than 2^64,
  -- and pages of the heap that can all be mapped, the boot ends in the run loop with the
  -- booted agent, for any mapper that takes at most three frames for the page tables of a
  -- page; and what it prints on the screen and sends to the serial port is `boot_text` and
  -- `boot_log`, written out.
  pub kernel_main_arrives :
      (physical_memory_offset address : ℕ) (t : M)
      → physical_memory_offset ≢ 0
      → virt_addr physical_memory_offset ≡ ok address
      → tables address ≡ ok t
      → length (usable_frames regions) < 2 ^ 64
      → 1024 ≤ length (usable_frames regions)
      → All (mapper.IsFree t) page_range
      → (s : BootInfoFrameAllocator × M) × (booted physical_memory_offset).ending
          ≡ run_loop (Agent.boot Agent.new).0 s
        × screen_of (booted physical_memory_offset).actions ≡ boot_text
        × serial_of (booted physical_memory_offset).actions ≡ boot_log
  kernel_main_arrives offset address t nonzero v i bounded enough free =
      let (s, e) = booted_lem offset address t nonzero v i bounded enough free in
      (
        s,
        ap (λ b. b.ending) e,
        ap (λ b. screen_of b.actions) e ∙ all_actions-screen selectors,
        ap (λ b. serial_of b.actions) e ∙ all_actions-serial selectors,
      )
