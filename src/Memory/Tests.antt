-- ===== src/Memory/Tests.antt =====
-- Runs of the frame allocator on a small memory map.
use llm_os_rust.Base.{
  ℕ, ◌+◌, ◌%◌, ◌≤◌, ◌<◌, ◌^◌, length, ◌≡◌, refl, true, false, List, [], ◌∷◌, arith, some, none, inl,
  inr,
}
use llm_os_rust.Memory.{MemoryRegion, usable_frames, step_by}
use llm_os_rust.Memory.Frames.{IsMemoryMap, IsUsable}
use llm_os_rust.Memory.Allocation.{
  nth_frame, allocate_frame_fresh, allocate_frame-IsUsable, allocate_frame_once,
}

-- Two usable frames, one that is reserved, and two more.
abbrev memory_map : List MemoryRegion
memory_map =
    record { usable = true; start_addr = 0; end_addr = 8192 }
    ∷ (record { usable = false; start_addr = 8192; end_addr = 12288 })
    ∷ (record { usable = true; start_addr = 16384; end_addr = 24576 })
    ∷ []

memory_map-IsMemoryMap : IsMemoryMap 0 memory_map
memory_map-IsMemoryMap = omega arith

second : nth_frame memory_map 1 ≡ some 4096
unfolding llm_os_rust.Memory.allocate_frame usable_frames llm_os_rust.Memory.init
    llm_os_rust.Memory.frames_at step_by
second = refl

third : nth_frame memory_map 2 ≡ some 16384
unfolding llm_os_rust.Memory.allocate_frame usable_frames llm_os_rust.Memory.init
    llm_os_rust.Memory.frames_at step_by
third = refl

fifth : nth_frame memory_map 4 ≡ none
unfolding llm_os_rust.Memory.allocate_frame usable_frames llm_os_rust.Memory.init
    llm_os_rust.Memory.frames_at step_by
fifth = refl

allocate_frame_fresh_example : 4096 + 4096 ≤ 16384
allocate_frame_fresh_example =
    allocate_frame_fresh memory_map 1 2 4096 16384 memory_map-IsMemoryMap (omega arith)
      (omega arith) second third

allocate_frame-IsUsable_example : IsUsable memory_map 16384 × (16384 % 4096 ≡ 0)
allocate_frame-IsUsable_example =
    allocate_frame-IsUsable memory_map 2 16384 memory_map-IsMemoryMap (omega arith) third

four_frames : length (usable_frames memory_map) ≡ 4
unfolding usable_frames llm_os_rust.Memory.frames_at step_by
four_frames = refl

allocate_frame_once_example :
    (n : ℕ) × (n < length (usable_frames memory_map))
    × (nth_frame memory_map n ≡ some 20480)
    × ((m : ℕ) → m < 2 ^ 64 → nth_frame memory_map m ≡ some 20480 → m ≡ n)
allocate_frame_once_example =
    allocate_frame_once memory_map 20480 memory_map-IsMemoryMap (omega (arith, four_frames))
      (inr (inr (inl (refl, omega arith, omega arith)))) (omega arith)
