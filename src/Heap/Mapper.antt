-- ===== src/Heap/Mapper.antt =====
-- What `init_heap` of src/allocator.rs is given by `kernel_main` of src/main.rs: a mapper of the x86_64
-- crate and the frame allocator of src/memory.rs.
use llm_os_rust.Base.{ℕ, ◌≤◌, ◌<◌, ◌≡◌, ◌≢◌, Option, some, Result, ok}
use llm_os_rust.Memory.{BootInfoFrameAllocator, allocate_frame}
use llm_os_rust.Memory.Allocation.{after_calls}
use llm_os_rust.Heap.{MapToError, PageTableFlags, Paging}

-- That many more calls of `allocate_frame` all return a frame.
abbrev pub HasFrames : ℕ → BootInfoFrameAllocator → Type 0
HasFrames c a = (k : ℕ) → k < c → (frame : ℕ) × ((allocate_frame (after_calls k a)).0 ≡ some frame)

-- What the kernel relies on in the page table mapper of the x86_64 crate. `M` is the state of the
-- page tables: the frame that a page is mapped to, and whether a page can be mapped. `map_to` may
-- draw frames for page tables from the allocator that it is given, at most three; it maps the page
-- if the page can be mapped and three frames are there, and it leaves the other pages alone.
pub record Mapper (M E : Type 0) : Type 1 where
  pub map_to :
      ℕ
      → ℕ
      → PageTableFlags
      → BootInfoFrameAllocator × M
      → Result (Unit {0}) (MapToError E) × (BootInfoFrameAllocator × M)
  pub translate : M → ℕ → Option ℕ
  pub IsFree : M → ℕ → Type 0
  pub draws :
      (page frame : ℕ) (flags : PageTableFlags) (a : BootInfoFrameAllocator) (m : M)
      → (k : ℕ) × (k ≤ 3) × ((map_to page frame flags (a, m)).1.0 ≡ after_calls k a)
  pub maps :
      (page frame : ℕ) (flags : PageTableFlags) (a : BootInfoFrameAllocator) (m : M)
      → IsFree m page
      → HasFrames 3 a
      → ((map_to page frame flags (a, m)).0 ≡ ok tt)
        × (translate (map_to page frame flags (a, m)).1.1 page ≡ some frame)
  pub keeps :
      (page frame : ℕ) (flags : PageTableFlags) (a : BootInfoFrameAllocator) (m : M) (q : ℕ)
      → q ≢ page
      → (translate (map_to page frame flags (a, m)).1.1 q ≡ translate m q)
        × (IsFree m q → IsFree (map_to page frame flags (a, m)).1.1 q)

-- `kernel_main` hands `init_heap` the mapper and the allocator of the memory map.
module _ {M E : Type 0} (mapper : Mapper M E) (heap_init : ℕ → ℕ → M → M) where
  take_frame : BootInfoFrameAllocator × M → Option ℕ × (BootInfoFrameAllocator × M)
  take_frame (a, m) = ((allocate_frame a).0, ((allocate_frame a).1, m))

  unfoldable pub kernel_paging : Paging (BootInfoFrameAllocator × M) E
  unfolding take_frame
  kernel_paging = record {
    allocate_frame = take_frame;
    map_to = mapper.map_to;
    heap_init = λ start size s. (s.0, heap_init start size s.1);
  }
