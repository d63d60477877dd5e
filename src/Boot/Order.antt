-- ===== src/Boot/Order.antt =====
-- The order that the actions of the boot must keep, and what its endings mean.
use llm_os_rust.Base.{
  ℕ, ◌≡◌, ◌≢◌, refl, ◌∙◌, Bool, true, false, ◌&&◌, List, [], ◌∷◌, ◌++◌, Option, none, some, arith,
  ◌==◌, if◌then◌else◌, Result, ok, err, ◌⊎◌, inl, inr,
}
use llm_os_rust.Text.{Text}
use llm_os_rust.Heap
use llm_os_rust.Heap.{MapToError, Paging, heap_start, heap_size, page_range}
use llm_os_rust.Heap.Mapping.{heap_pages, Maps, Stops, Initialised, init_heap-Initialised}
use llm_os_rust.Agent.{Printed}
use llm_os_rust.Agent.Invariant.{IsRunning, boot-IsRunning}
use llm_os_rust.Boot.{
  Selectors, Action, print, serial_print, load_gdt, set_code_segment, load_tss, load_idt,
  initialize_pics, enable_interrupts, halt, init, gdt_init, banner, panic_actions,
  start_agent_actions, Ending, run_loop, panic, hardware_actions, panic_with, after_heap,
  kernel_main, offset_message, after_offset, after_memory,
}

-- What has been set up.
pub record Ready : Type 0 where
  pub gdt : Bool
  pub tss : Bool
  pub idt : Bool
  pub pics : Bool
  pub interrupts : Bool

abbrev pub at_power_on : Ready
at_power_on = record { gdt = false; tss = false; idt = false; pics = false; interrupts = false }

abbrev pub all_ready : Ready
all_ready = record { gdt = true; tss = true; idt = true; pics = true; interrupts = true }

-- An action on what has been set up: `none` where it comes too early, or a second time.
unfoldable pub step : Action → Ready → Option Ready
step (print s) r = some r
step (serial_print s) r = some r
step load_gdt r = if r.interrupts then none else some (record r { gdt = true })
step (set_code_segment n) r = if r.gdt then some r else none
step (load_tss n) r = if r.gdt then some (record r { tss = true }) else none
step load_idt r = if r.tss then some (record r { idt = true }) else none
step initialize_pics r = if r.idt then some (record r { pics = true }) else none
step enable_interrupts r =
    if r.gdt && (r.tss && (r.idt && r.pics))
    then (if r.interrupts then none else some (record r { interrupts = true }))
    else none
step halt r = if r.interrupts then some r else none

abbrev pub steps_from : List Action → Option Ready → Option Ready
steps_from [] r = r
steps_from (a ∷ rest) none = none
steps_from (a ∷ rest) (some r) = steps_from rest (step a r)

steps_from-append :
    (xs ys : List Action) (o : Option Ready)
    → steps_from (xs ++ ys) o ≡ steps_from ys (steps_from xs o)
steps_from-append [] ys o = refl
steps_from-append (a ∷ xs) [] none = refl
steps_from-append (a ∷ xs) (b ∷ ys) none = refl
steps_from-append (a ∷ xs) ys (some r) = steps_from-append xs ys (step a r)

module _ {S E : Type 0} (paging : Paging S E) (selectors : Selectors)
    (virt_addr : ℕ → Result ℕ Text) (memory_init : ℕ → Result S Text)
    (debug_error : MapToError E → Text) (panic_info : Text → Text) where
  -- The set-up of the hardware, and then actions that keep it.
  ready_then :
      (tail : List Action)
      → steps_from tail (some all_ready) ≡ some all_ready
      → steps_from
          (hardware_actions paging selectors virt_addr memory_init debug_error panic_info ++ tail)
          (some at_power_on)
        ≡ some all_ready
  unfolding hardware_actions init gdt_init banner step
  ready_then tail e =
      steps_from-append
        (hardware_actions paging selectors virt_addr memory_init debug_error panic_info) tail
        (some at_power_on)
      ∙ e

  panic_is_late :
      (message : Text) → steps_from (panic_actions message) (some all_ready) ≡ some all_ready
  unfolding panic_actions step
  panic_is_late message = refl

  agent_is_late :
      (p : Printed) → steps_from (start_agent_actions p) (some all_ready) ≡ some all_ready
  unfolding start_agent_actions step
  agent_is_late p = refl

  -- Whatever offset the bootloader gives and however the boot ends, in the run loop or in a
  -- panic of any of its steps, no action comes before what it needs: segment and TSS are set
  -- with the GDT loaded, the IDT is loaded with the TSS set, the PICs are initialised behind
  -- it, the interrupts are enabled once, behind all of these, and the processor halts only
  -- with them enabled.
  pub kernel_main-steps_from :
      (physical_memory_offset : ℕ)
      → steps_from
          (kernel_main paging selectors virt_addr memory_init debug_error panic_info
            physical_memory_offset).actions
          (some at_power_on)
        ≡ some all_ready
  unfolding kernel_main after_offset after_memory after_heap panic_with
  kernel_main-steps_from offset = either (offset == 0) (virt_addr offset)
    where
      panicked :
          (message : Text)
          → steps_from
              (panic_with paging selectors virt_addr memory_init debug_error panic_info
                (hardware_actions paging selectors virt_addr memory_init debug_error panic_info)
                message).actions
              (some at_power_on)
            ≡ some all_ready
      panicked message =
          ready_then (panic_actions (panic_info message)) (panic_is_late (panic_info message))

      mapped :
          (r : Result (Unit {0}) (MapToError E) × S)
          → steps_from
              (after_heap paging selectors virt_addr memory_init debug_error panic_info
                (hardware_actions paging selectors virt_addr memory_init debug_error panic_info)
                r).actions
              (some at_power_on)
            ≡ some all_ready
      mapped (err e, s) = panicked _
      mapped (ok _, s) = ready_then _ (agent_is_late _)

      with_memory :
          (r : Result S Text)
          → steps_from
              (after_memory paging selectors virt_addr memory_init debug_error panic_info
                (hardware_actions paging selectors virt_addr memory_init debug_error panic_info)
                r).actions
              (some at_power_on)
            ≡ some all_ready
      with_memory (err message) = panicked message
      with_memory (ok s) = mapped (Heap.init_heap paging s)

      either :
          (b : Bool) (r : Result ℕ Text)
          → steps_from
              (if b
                then panic_with paging selectors virt_addr memory_init debug_error panic_info
                    (hardware_actions paging selectors virt_addr memory_init debug_error panic_info)
                    offset_message
                else after_offset paging selectors virt_addr memory_init debug_error panic_info
                    (hardware_actions paging selectors virt_addr memory_init debug_error panic_info)
                    r).actions
              (some at_power_on)
            ≡ some all_ready
      either true r = panicked offset_message
      either false (err message) = panicked message
      either false (ok address) = with_memory (memory_init address)

  nonzero : (n : ℕ) → (n == 0) ≡ false → n ≢ 0
  nonzero n e z = ground arith

  -- How the boot ends, for an offset.
  abbrev pub Ended : ℕ → Ending S → Type 0
  Ended offset (run_loop agent s) =
      (offset ≢ 0)
      × ((address : ℕ) × (start : S) × (virt_addr offset ≡ ok address)
          × (memory_init address ≡ ok start)
          × ((t : S) × Maps paging heap_pages start t
              × (s ≡ paging.heap_init heap_start heap_size t)
              × IsRunning agent))
  Ended offset (panic message) =
      (offset ≡ 0)
      ⊎ ((offset ≢ 0)
          × ((virt_addr offset ≡ err message)
              ⊎ ((address : ℕ) × (virt_addr offset ≡ ok address)
                  × ((memory_init address ≡ err message)
                      ⊎ ((start : S) × (e : MapToError E) × (t : S) × (memory_init address
                            ≡ ok start)
                          × Stops paging heap_pages start e t)))))

  -- If the boot ends in the run loop, the physical memory offset is not zero, `VirtAddr::new`
  -- and `memory::init` took it without a panic, the 256 pages from the start of the heap on
  -- were mapped, in order, the heap allocator then got the region, and the agent satisfies
  -- its invariant. If it ends in a panic, the offset is zero, or one of these two panicked,
  -- with the message of the ending, or one of the pages could not be mapped.
  pub kernel_main-Ended :
      (physical_memory_offset : ℕ)
      → Ended physical_memory_offset
          (kernel_main paging selectors virt_addr memory_init debug_error panic_info
            physical_memory_offset).ending
  unfolding kernel_main after_offset after_memory after_heap panic_with
  kernel_main-Ended offset = either (offset == 0) refl (virt_addr offset) refl
    where
      mapped :
          (address : ℕ) (start : S)
          → offset ≢ 0
          → virt_addr offset ≡ ok address
          → memory_init address ≡ ok start
          → (r : Result (Unit {0}) (MapToError E) × S) → Initialised paging start r
          → Ended offset
              (after_heap paging selectors virt_addr memory_init debug_error panic_info
                (hardware_actions paging selectors virt_addr memory_init debug_error panic_info)
                r).ending
      mapped address start n v i (err x, t) h = inr (n, inr (address, v, inr (start, x, t, i, h)))
      mapped address start n v i (ok _, t) (u, m, eq) =
          (n, (address, start, v, i, (u, m, eq, boot-IsRunning)))

      with_memory :
          (address : ℕ)
          → offset ≢ 0
          → virt_addr offset ≡ ok address
          → (r : Result S Text) → memory_init address ≡ r
          → Ended offset
              (after_memory paging selectors virt_addr memory_init debug_error panic_info
                (hardware_actions paging selectors virt_addr memory_init debug_error panic_info)
                r).ending
      with_memory address n v (err message) i = inr (n, inr (address, v, inl i))
      with_memory address n v (ok start) i =
          mapped address start n v i (Heap.init_heap paging start)
            (init_heap-Initialised paging start)

      either :
          (b : Bool)
          → (offset == 0) ≡ b
          → (r : Result ℕ Text) → virt_addr offset ≡ r
          → Ended offset
              (if b
                then panic_with paging selectors virt_addr memory_init debug_error panic_info
                    (hardware_actions paging selectors virt_addr memory_init debug_error panic_info)
                    offset_message
                else after_offset paging selectors virt_addr memory_init debug_error panic_info
                    (hardware_actions paging selectors virt_addr memory_init debug_error panic_info)
                    r).ending
      either true e r v = inl (ground arith)
      either false e (err message) v = inr (nonzero offset e, inl v)
      either false e (ok address) v =
          with_memory address (nonzero offset e) v (memory_init address) refl
