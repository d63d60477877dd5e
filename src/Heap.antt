-- ===== src/Heap.antt =====
-- src/allocator.rs: the set-up of the kernel heap. The page table mapper, the frame allocator and
-- the heap allocator are arguments of `init_heap` or come from other crates: they are the fields of
-- `Paging`, over the state of the machine.
pub mod Mapping
pub mod Mapper
pub mod Backing
pub mod Disjoint
pub mod Tests
use llm_os_rust.Base.{
  ℕ, zero, suc, ◌+◌, ◌-◌, ◌*◌, ◌/◌, List, [], ◌∷◌, Option, none, some, Result, ok, err,
}
use llm_os_rust.Memory.{containing_address, addresses_from}

pub data MapToError (E : Type 0) : Type 0 where
  frame_allocation_failed : MapToError E
  other : E → MapToError E

-- The flags of a page table entry that `init_heap` sets.
pub record PageTableFlags : Type 0 where
  pub present : ℕ
  pub writable : ℕ

unfoldable pub heap_flags : PageTableFlags
heap_flags = record { present = 1; writable = 1 }

-- What `init_heap` is given: `FrameAllocator::allocate_frame`, `Mapper::map_to` with the flush of
-- what it returns, and `LockedHeap::init`.
pub record Paging (S E : Type 0) : Type 0 where
  pub allocate_frame : S → Option ℕ × S
  pub map_to : ℕ → ℕ → PageTableFlags → S → Result (Unit {0}) (MapToError E) × S
  pub heap_init : ℕ → ℕ → S → S

abbrev pub heap_start : ℕ
heap_start = 0x4444_4444_0000

abbrev pub heap_size : ℕ
heap_size = 1024 * 1024

-- `Page::range_inclusive`, a page standing for its start address
unfoldable pub range_inclusive : ℕ → ℕ → List ℕ
range_inclusive first last = addresses_from ((last - first) / 4096 + 1) first

unfoldable pub page_range : List ℕ
page_range =
    let heap_end : ℕ = heap_start + heap_size - 1 in
    range_inclusive (containing_address heap_start) (containing_address heap_end)

-- The `?` operator: an error is returned at once.
module _ {S E : Type 0} where
  abbrev pub and_then :
      Result (Unit {0}) E × S → (S → Result (Unit {0}) E × S) → Result (Unit {0}) E × S
  and_then (ok _, s) k = k s
  and_then (err e, s) k = (err e, s)

module _ {S E : Type 0} (paging : Paging S E) where
  abbrev pub map_to_frame : ℕ → Option ℕ × S → Result (Unit {0}) (MapToError E) × S
  map_to_frame page (none, s) = (err frame_allocation_failed, s)
  map_to_frame page (some frame, s) = paging.map_to page frame heap_flags s

  -- The frame for a page, mapped, with the `?` on both calls.
  unfoldable pub map_page : ℕ → S → Result (Unit {0}) (MapToError E) × S
  map_page page s = map_to_frame page (paging.allocate_frame s)

  unfoldable pub map_pages : List ℕ → S → Result (Unit {0}) (MapToError E) × S
  map_pages [] s = (ok tt, s)
  map_pages (page ∷ pages) s = and_then (map_page page s) (map_pages pages)

  unfoldable pub init_heap : S → Result (Unit {0}) (MapToError E) × S
  init_heap s =
      and_then (map_pages page_range s) λ s'. (ok tt, paging.heap_init heap_start heap_size s')
