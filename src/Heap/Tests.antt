-- ===== src/Heap/Tests.antt =====
-- A machine that has a number of frames left, and the set-up of its heap.
use llm_os_rust.Base.{
  ℕ, zero, suc, ◌+◌, ◌*◌, ◌≤◌, ◌≡◌, refl, List, [], ◌∷◌, arith, Option, some, none, ok, get_elem?,
  All, if◌then◌else◌, true, length, ◌==◌, length-append, ◌∙◌, ◌≢◌,
}
use llm_os_rust.Memory.{
  containing_address, MemoryRegion, usable_frames, frames_at, step_by, allocate_frame, init,
}
use llm_os_rust.Heap.{
  MapToError, PageTableFlags, Paging, heap_start, heap_size, page_range, init_heap,
}
use llm_os_rust.Heap.Backing.{init_heap_succeeds, Backs}
use llm_os_rust.Heap.Disjoint.{init_heap-disjoint}
use llm_os_rust.Heap.Mapper.{Mapper, kernel_paging}
use llm_os_rust.Memory.Frames.{length-step_by, IsMemoryMap}

-- The frames that are left, the pages that are mapped, and the regions of the heap allocator.
pub record Simple : Type 0 where
  pub left : ℕ
  pub pages : List ℕ
  pub regions : List ℕ

abbrev take_frame : Simple → Option ℕ × Simple
take_frame s = elim s.left [ zero ↦ (none, s) | suc n ↦ (some (n * 4096), record s { left = n }) ]

abbrev pub simple_paging : Paging Simple ⊥
simple_paging = record {
  allocate_frame = take_frame;
  map_to = λ page frame flags s. (ok tt, record s { pages = page ∷ s.pages });
  heap_init = λ start size s. record s { regions = start ∷ size ∷ s.regions };
}

abbrev pub simple : Simple
simple = record { left = 300; pages = []; regions = [] }

second_page : get_elem? page_range 1 ≡ some (heap_start + 4096)
unfolding page_range llm_os_rust.Heap.range_inclusive llm_os_rust.Memory.addresses_from
    containing_address
second_page = refl

-- Page tables as a function, and a mapper that takes one frame for a table with every page.
abbrev pub Tables : Type 0
Tables = ℕ → Option ℕ

unfoldable pub map_table : Tables → ℕ → ℕ → Tables
map_table m page frame q = if q == page then some frame else m q

pub map_table-at : (m : Tables) (page frame : ℕ) → map_table m page frame page ≡ some frame
unfolding map_table
map_table-at m page frame = ground arith

pub map_table-off : (m : Tables) (page frame q : ℕ) → q ≢ page → map_table m page frame q ≡ m q
unfolding map_table
map_table-off m page frame q ne = ground arith

abbrev pub table_mapper : Mapper Tables ⊥
table_mapper = record {
  map_to = λ page frame flags s. (ok tt, ((allocate_frame s.0).1, map_table s.1 page frame));
  translate = λ m q. m q;
  IsFree = λ m q. m q ≡ none;
  draws = λ page frame flags a m. (1, omega arith, refl);
  maps = λ page frame flags a m free frames. (refl, map_table-at m page frame);
  keeps = λ page frame flags a m q ne.
      (map_table-off m page frame q ne, λ free. map_table-off m page frame q ne ∙ free);
}

abbrev pub keep_tables : ℕ → ℕ → Tables → Tables
keep_tables start size m = m

-- No page is mapped yet.
abbrev pub no_tables : Tables
no_tables q = none

pub All_free : (pages : List ℕ) → All (λ q. no_tables q ≡ none) pages
All_free [] = tt
All_free (page ∷ pages) = (refl, All_free pages)

-- Four megabytes in one region.
abbrev pub region : MemoryRegion
region = record { usable = true; start_addr = 0x10_0000; end_addr = 0x50_0000 }

pub region_length : length (usable_frames (region ∷ [])) ≡ 1024
unfolding usable_frames
region_length =
    length-append (frames_at (step_by 0x10_0000 0x50_0000)) []
    ∙ omega (arith, length-step_by 0x10_0000 0x50_0000)

init_heap_succeeds_example :
    (next : ℕ) × (tables : Tables) × (init_heap
        (kernel_paging table_mapper keep_tables)
        (init (region ∷ []), no_tables)
      ≡ (ok tt, (record { memory_map = region ∷ []; next = next }, tables)))
    × Backs table_mapper keep_tables
        (region ∷ [])
        (omega (arith, region_length))
        0
        page_range
        tables
init_heap_succeeds_example =
    init_heap_succeeds table_mapper keep_tables (region ∷ []) (omega (arith, region_length))
      no_tables (omega (arith, region_length)) (All_free page_range)

region-IsMemoryMap : IsMemoryMap 0 (region ∷ [])
region-IsMemoryMap = (omega arith, omega arith, refl, refl, tt)

init_heap-disjoint_example :
    (next : ℕ) × (tables : Tables) × (f : ℕ) × (g : ℕ) × (init_heap
        (kernel_paging table_mapper keep_tables)
        (init (region ∷ []), no_tables)
      ≡ (ok tt, (record { memory_map = region ∷ []; next = next }, tables)))
    × (tables (heap_start + 3 * 4096) ≡ some f)
    × (tables (heap_start + 255 * 4096) ≡ some g)
    × (f + 4096 ≤ g)
init_heap-disjoint_example =
    init_heap-disjoint table_mapper keep_tables (region ∷ []) (omega (arith, region_length))
      no_tables 3 255 region-IsMemoryMap (omega (arith, region_length)) (All_free page_range)
      (omega arith) (omega arith)
