-- ===== src/Heap/Disjoint.antt =====
-- The frames under different pages of the heap.
use mathlib.Core.Option.{some-injective}
use llm_os_rust.Base.{
  ℕ, zero, suc, ◌+◌, ◌^◌, ◌≤◌, ◌<◌, ◌≡◌, ap, sym, ◌∙◌, List, [], ◌∷◌, length, get_elem?, arith,
  some, ok, ◌*◌, All,
}
use llm_os_rust.Memory.{MemoryRegion, usable_frames, init}
use llm_os_rust.Memory.Allocation.{Ascends-lt}
use llm_os_rust.Memory.Frames.{IsMemoryMap, usable_frames-Ascends}
use llm_os_rust.Heap.Mapper.{Mapper, kernel_paging}
use llm_os_rust.Heap.Mapping.{addresses_from_get, page_range-addresses}
use llm_os_rust.Heap.{heap_start, heap_size, page_range, init_heap}
use llm_os_rust.Heap.Backing.{Backs, init_heap_succeeds}

module _ {M E : Type 0} (mapper : Mapper M E) (heap_init : ℕ → ℕ → M → M)
    (regions : List MemoryRegion) (bounded : length (usable_frames regions) < 2 ^ 64) where
  abbrev frames : List ℕ
  frames = usable_frames regions

  -- The entry of a page of the list.
  Backs-get :
      (n : ℕ) (pages : List ℕ) (m : M) (j page : ℕ)
      → Backs mapper heap_init regions bounded n pages m
      → get_elem? pages j ≡ some page
      → (i : ℕ) × (frame : ℕ) × (n ≤ i)
        × (get_elem? frames i ≡ some frame)
        × (mapper.translate m page ≡ some frame)
  Backs-get n [] m j page h e = cc
  Backs-get n (p ∷ pages) m zero page (i, frame, low, found, there, rest) e =
      (i, frame, low, found, ap (mapper.translate m) (some-injective page p (sym e)) ∙ there)
  Backs-get n (p ∷ pages) m (suc j) page (i, frame, low, found, there, rest) e =
      let (k, g, lo, f, t) = Backs-get (suc i) pages m j page rest e in (k, g, omega arith, f, t)

  -- Two pages of a list that is mapped in this way stand on frames that do not overlap.
  Backs-disjoint :
      (n : ℕ) (pages : List ℕ) (m : M) (j k p q f g : ℕ)
      → IsMemoryMap 0 regions
      → Backs mapper heap_init regions bounded n pages m
      → j < k
      → get_elem? pages j ≡ some p
      → get_elem? pages k ≡ some q
      → mapper.translate m p ≡ some f
      → mapper.translate m q ≡ some g
      → f + 4096 ≤ g
  Backs-disjoint n [] m j k p q f g map h lt hp hq hf hg = cc
  Backs-disjoint n (x ∷ pages) m j zero p q f g map h lt hp hq hf hg = absurd (omega arith)
  Backs-disjoint n (x ∷ pages) m zero (suc k) p q f g map (i, a, low, found, there, rest) lt hp hq
        hf hg =
      let (i', b, low', found', there') = Backs-get (suc i) pages m k q rest hq in
      Ascends-lt 0 frames i i' f g (usable_frames-Ascends 0 regions map) (omega arith)
        (found ∙ sym there ∙ ap (mapper.translate m) (some-injective x p hp) ∙ hf)
        (found' ∙ sym there' ∙ hg)
  Backs-disjoint n (x ∷ pages) m (suc j) (suc k) p q f g map (i, a, low, found, there, rest) lt hp
        hq hf hg =
      Backs-disjoint (suc i) pages m j k p q f g map rest (omega arith) hp hq hf hg

  page_at : (k : ℕ) → k < 256 → get_elem? page_range k ≡ some (heap_start + k * 4096)
  page_at k lt = rw page_range-addresses (addresses_from_get 256 heap_start k lt)

  -- On a memory map of whole frames, in order and without overlap, that has 1024 usable
  -- frames or more, but less than 2^64, and with pages of the heap that can all be mapped,
  -- for any mapper that takes at most three frames for the page tables of a page: `init_heap`
  -- returns no error, and any two of the 256 pages from the start of the heap on are mapped
  -- to frames that do not overlap, the later page to the later frame.
  pub init_heap-disjoint :
      (m : M) (j k : ℕ)
      → IsMemoryMap 0 regions
      → 1024 ≤ length frames
      → All (mapper.IsFree m) page_range
      → j < k
      → k < 256
      → (next : ℕ) × (tables : M) × (f : ℕ) × (g : ℕ) × (init_heap
            (kernel_paging mapper heap_init)
            (init regions, m)
          ≡ (
            ok tt,
            (record { memory_map = regions; next = next }, heap_init heap_start heap_size tables),
          ))
        × (mapper.translate tables (heap_start + j * 4096) ≡ some f)
        × (mapper.translate tables (heap_start + k * 4096) ≡ some g)
        × (f + 4096 ≤ g)
  init_heap-disjoint m j k map enough free lt within =
      let (next, tables, runs, backs) =
        init_heap_succeeds mapper heap_init regions bounded m enough free in
      let hp = page_at j (omega arith) in
      let hq = page_at k within in
      let (i, f, low, found, there) = Backs-get 0 page_range tables j _ backs hp in
      let (i', g, low', found', there') = Backs-get 0 page_range tables k _ backs hq in
      (
        next,
        tables,
        f,
        g,
        runs,
        there,
        there',
        Backs-disjoint 0 page_range tables j k _ _ f g map backs lt hp hq there there',
      )
