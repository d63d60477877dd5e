-- ===== src/Memory.antt =====
-- src/memory.rs: the frame allocator over the bootloader's memory map. The map comes from the
-- bootloader crate: what the kernel reads of a region is whether its type is `Usable`, and its start
-- and end address. The page table is
-- the address of its level 4 table, which `init` finds by the CR3 register.
pub mod Frames
pub mod Allocation
mod Tests
use llm_os_rust.Base.{
  ℕ, zero, suc, ◌+◌, ◌-◌, ◌*◌, ◌/◌, ◌%◌, ◌^◌, Bool, true, false, List, [], ◌∷◌, ◌++◌, Option, none,
  some, ltb, if◌then◌else◌, get_elem?,
}

pub record MemoryRegion : Type 0 where
  pub usable : Bool
  pub start_addr : ℕ
  pub end_addr : ℕ

-- `(start..end).step_by(4096)`, with the number of steps that are left
unfoldable pub addresses_from : ℕ → ℕ → List ℕ
addresses_from zero start = []
addresses_from (suc left) start = start ∷ addresses_from left (start + 4096)

-- A range that is not empty has one step for each 4096 begun.
unfoldable pub step_by : ℕ → ℕ → List ℕ
unfolding addresses_from
step_by start stop = addresses_from ((stop - start + 4095) / 4096) start

-- `PhysFrame::containing_address`: a frame is its start address, a multiple of 4096. That
-- `PhysAddr::new` panics at 2^52 and above is left out: addresses of memory lie below.
unfoldable pub containing_address : ℕ → ℕ
containing_address addr = addr / 4096 * 4096

unfoldable pub frames_at : List ℕ → List ℕ
unfolding containing_address
frames_at [] = []
frames_at (addr ∷ addrs) = containing_address addr ∷ frames_at addrs

-- `usable_frames`
unfoldable pub usable_frames : List MemoryRegion → List ℕ
usable_frames [] = []
usable_frames (r ∷ regions) =
    if r.usable
    then frames_at (step_by r.start_addr r.end_addr) ++ usable_frames regions
    else usable_frames regions

pub record OffsetPageTable : Type 0 where
  pub level_4_table : ℕ
  pub phys_offset : ℕ

-- `virt_add` is the addition of the x86_64 crate's `VirtAddr`, and `cr3_frame` the start address of
-- the frame that the CR3 register holds.
module _ (virt_add : ℕ → ℕ → ℕ) (cr3_frame : ℕ) where
  -- The address of the active level 4 table
  unfoldable pub active_level_4_table : ℕ → ℕ
  active_level_4_table physical_memory_offset = virt_add physical_memory_offset cr3_frame

  -- `memory::init`
  unfoldable pub memory_init : ℕ → OffsetPageTable
  unfolding active_level_4_table
  memory_init physical_memory_offset = record {
    level_4_table = active_level_4_table physical_memory_offset;
    phys_offset = physical_memory_offset;
  }

pub record BootInfoFrameAllocator : Type 0 where
  pub memory_map : List MemoryRegion
  pub next : ℕ

-- `BootInfoFrameAllocator::init`
unfoldable pub init : List MemoryRegion → BootInfoFrameAllocator
init memory_map = record { memory_map = memory_map; next = 0 }

-- `allocate_frame`: `nth` of the iterator is the element at the index, and `next` is a `usize`.
unfoldable pub allocate_frame : BootInfoFrameAllocator → Option ℕ × BootInfoFrameAllocator
allocate_frame a =
    (get_elem? (usable_frames a.memory_map) a.next, record a { next = (a.next + 1) % 2 ^ 64 })
