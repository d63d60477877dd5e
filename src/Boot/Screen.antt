-- ===== src/Boot/Screen.antt =====
-- The screen of the kernel, from its first print to the keys that are typed in the run loop.
use mathlib.Core.Path.{subst}
use llm_os_rust.Base.{
  ℕ, ◌^◌, ◌≤◌, ◌<◌, ◌≡◌, ◌≢◌, refl, ap, sym, ◌∙◌, List, [], ◌∷◌, ◌++◌, length, map, All, arith,
  false, Result, ok,
}
use llm_os_rust.Text.{Text, bytes}
use llm_os_rust.Vga.{Row, Buffer, Writer, initial_writer, write_string, shown}
use llm_os_rust.Vga.Scroll.{HasWidth}
use llm_os_rust.Vga.Append.{write_string-append, write_string-nil}
use llm_os_rust.Vga.Terminal.{Terminal, Shows, enter_all, write_string-Shows}
use llm_os_rust.Memory.{MemoryRegion, usable_frames}
use llm_os_rust.Heap.{MapToError, page_range}
use llm_os_rust.Heap.Mapper.{Mapper}
use llm_os_rust.Interrupts.{Decoder, Machine, Interrupt, running, handle_all}
use llm_os_rust.Interrupts.Handling.{IsHardware, vectors, typed, handle_all_hardware}
use llm_os_rust.Boot.{Selectors, Action, print}
use llm_os_rust.Boot.Transcript.{
  screen_of, boot_text, banner_text, start_text, front, all_actions, all_actions-front,
  all_actions-behind,
}
use llm_os_rust.Boot.Shuffle.{Shuffle}
use llm_os_rust.Boot.Interrupted.{Boots, Boots-Follows}
use llm_os_rust.Boot.Arrival.{booted, booted_lem, kernel_main_arrives}

-- The prints of the actions, by `WRITER`.
abbrev pub run_prints : List Action → Writer → Writer
run_prints [] w = w
run_prints (print s ∷ actions) w = run_prints actions (write_string s w)
run_prints (_ ∷ actions) w = run_prints actions w

run_prints-screen_of :
    (actions : List Action) (w : Writer) → run_prints actions w ≡ write_string (screen_of actions) w
run_prints-screen_of [] w = sym (write_string-nil w)
run_prints-screen_of (print s ∷ actions) w =
    run_prints-screen_of actions (write_string s w)
    ∙ sym (write_string-append s (screen_of actions) w)
run_prints-screen_of (_ ∷ actions) w = run_prints-screen_of actions w

-- What the screen holds before the first print.
abbrev pub power_on : Buffer → Row → Terminal
power_on lines last = record {
  color = (initial_writer (lines ++ last ∷ [])).color;
  lines = lines;
  line = [];
  behind = last;
}

power_on-Shows :
    (lines : Buffer) (last : Row)
    → length lines ≡ 24
    → All HasWidth lines
    → HasWidth last
    → Shows (initial_writer (lines ++ last ∷ [])) (power_on lines last)
unfolding initial_writer
power_on-Shows lines last deep wide width = record {
  colored = refl;
  deep = omega (arith, deep);
  wide = wide;
  width = width;
  split = record { rows = rw deep refl; last = rw deep deep; column = refl };
}

-- The machine in front of the boot.
abbrev pub switched_on : {K : Type 0} → K → Writer → Machine K
switched_on k w = record { keyboard_state = k; writer = w; signals = [] }

module _ {M E : Type 0} (mapper : Mapper M E) (heap_init : ℕ → ℕ → M → M) (selectors : Selectors)
    (virt_addr : ℕ → Result ℕ Text) (tables : ℕ → Result M Text) (debug_error : MapToError E → Text)
    (panic_info : Text → Text) (regions : List MemoryRegion) where
  -- The screen behind the boot.
  abbrev pub boot_writer : ℕ → Buffer → Writer
  boot_writer physical_memory_offset b =
      run_prints
        (booted mapper heap_init selectors virt_addr tables debug_error panic_info regions
          physical_memory_offset).actions
        (initial_writer b)

  boot_writer-boot_text :
      (physical_memory_offset address : ℕ) (t : M) (b : Buffer)
      → physical_memory_offset ≢ 0
      → virt_addr physical_memory_offset ≡ ok address
      → tables address ≡ ok t
      → length (usable_frames regions) < 2 ^ 64
      → 1024 ≤ length (usable_frames regions)
      → All (mapper.IsFree t) page_range
      → boot_writer physical_memory_offset b ≡ write_string boot_text (initial_writer b)
  boot_writer-boot_text offset address t b nonzero v i bounded enough free =
      let (s, ending, screen, serial) =
        kernel_main_arrives mapper heap_init selectors virt_addr tables debug_error panic_info
          regions offset address t nonzero v i bounded enough free in
      run_prints-screen_of
        (booted mapper heap_init selectors virt_addr tables debug_error panic_info regions
          offset).actions
        (initial_writer b)
      ∙ ap (λ s. write_string s (initial_writer b)) screen

  module _ {K Event : Type 0} (decoder : Decoder K Event) where
    -- With a physical memory offset other than 0 that `VirtAddr::new` and `memory::init`
    -- take without a panic, a memory map that has 1024 usable frames or more, but less than
    -- 2^64, and pages of the heap that can all be mapped, for any mapper that takes at most
    -- three frames for the page tables of a page; on a screen of twenty-five rows of eighty
    -- cells, and where timer and keyboard interrupts arrive behind the boot: they are all
    -- handled and signalled as ended in their order, and the screen shows the end of the
    -- terminal that was entered `boot_text` and then what the keys give.
    pub kernel_types :
        (physical_memory_offset address : ℕ) (t : M) (lines : Buffer) (last : Row) (k : K)
        (is : List (Interrupt decoder))
        → physical_memory_offset ≢ 0
        → virt_addr physical_memory_offset ≡ ok address
        → tables address ≡ ok t
        → length (usable_frames regions) < 2 ^ 64
        → 1024 ≤ length (usable_frames regions)
        → All (mapper.IsFree t) page_range
        → length lines ≡ 24
        → All HasWidth lines
        → HasWidth last
        → All (IsHardware decoder) is
        → (m : Machine K) × (handle_all decoder is (
              running (record {
                keyboard_state = k;
                writer = boot_writer physical_memory_offset (lines ++ last ∷ []);
                signals = [];
              }))
            ≡ running m)
          × (m.signals ≡ vectors decoder is)
          × Shows m.writer (
              enter_all (map shown (bytes (boot_text ++ typed decoder k is))) (power_on lines last))
    kernel_types offset address t lines last k is nonzero v i bounded enough free deep wide width
          hardware =
        let w : Writer = initial_writer (lines ++ last ∷ []) in
        let (m, runs, signals, writer) =
          handle_all_hardware decoder is
            (record {
              keyboard_state = k;
              writer = boot_writer offset (lines ++ last ∷ []);
              signals = [];
            })
            hardware in
        let printed =
          writer
          ∙ ap (write_string (typed decoder k is)) (
              boot_writer-boot_text offset address t (lines ++ last ∷ []) nonzero v i bounded enough
                free)
          ∙ sym (write_string-append boot_text (typed decoder k is) w) in
        (
          m,
          runs,
          signals,
          subst
              (λ x. Shows x (
                enter_all (map shown (bytes (boot_text ++ typed decoder k is)))
                  (power_on lines last)))
              (sym printed)
              (write_string-Shows (boot_text ++ typed decoder k is) w (power_on lines last)
                (power_on-Shows lines last deep wide width)),
        )

    -- With a physical memory offset other than 0 that `VirtAddr::new` and `memory::init`
    -- take without a panic, a memory map that has 1024 usable frames or more, but less than
    -- 2^64, and pages of the heap that can all be mapped, for any mapper that takes at most
    -- three frames for the page tables of a page; on a screen of twenty-five rows of eighty
    -- cells; and for any run of the boot's actions with timer and keyboard interrupts in
    -- between, from the action that enables them on, and behind the boot: each interrupt is
    -- signalled as ended, in their order, and the screen shows the end of the terminal that
    -- was entered the banner, uninterrupted, and then the rest of the boot's text and what
    -- the keys give, each in its order, in turns.
    pub kernel_weaves :
        (physical_memory_offset address : ℕ) (t : M) (lines : Buffer) (last : Row) (k : K)
        (is : List (Interrupt decoder)) (m : Machine K)
        → physical_memory_offset ≢ 0
        → virt_addr physical_memory_offset ≡ ok address
        → tables address ≡ ok t
        → length (usable_frames regions) < 2 ^ 64
        → 1024 ≤ length (usable_frames regions)
        → All (mapper.IsFree t) page_range
        → length lines ≡ 24
        → All HasWidth lines
        → HasWidth last
        → Boots decoder false
            (booted mapper heap_init selectors virt_addr tables debug_error panic_info regions
              physical_memory_offset).actions
            is
            (switched_on k (initial_writer (lines ++ last ∷ [])))
            m
        → (woven : Text) × Shuffle start_text (typed decoder k is) woven
          × (m.signals ≡ vectors decoder is)
          × Shows m.writer
              (enter_all (map shown (bytes (banner_text ++ woven))) (power_on lines last))
    kernel_weaves offset address t lines last k is m nonzero v i bounded enough free deep wide width
          run =
        let w : Writer = initial_writer (lines ++ last ∷ []) in
        let (s, e) =
          booted_lem mapper heap_init selectors virt_addr tables debug_error panic_info regions
            offset address t nonzero v i bounded enough free in
        let run' : Boots decoder false (all_actions selectors) is (switched_on k w) m =
          subst (λ actions. Boots decoder false actions is (switched_on k w) m)
            (ap (λ b. b.actions) e) run in
        let r = Boots-Follows decoder run' in
        (
          r.woven,
          subst (λ u. Shuffle u (typed decoder k is) r.woven) (all_actions-behind selectors)
              r.shuffle,
          r.signalled,
          subst
              (λ x.
                Shows x
                  (enter_all (map shown (bytes (banner_text ++ r.woven))) (power_on lines last)))
              (sym (
                r.screen
                ∙ sym (write_string-append (front (all_actions selectors)) r.woven w)
                ∙ ap (λ u. write_string (u ++ r.woven) w) (all_actions-front selectors)))
              (write_string-Shows (banner_text ++ r.woven) w (power_on lines last)
                (power_on-Shows lines last deep wide width)),
        )
