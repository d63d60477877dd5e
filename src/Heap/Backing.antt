-- ===== src/Heap/Backing.antt =====
-- `init_heap` over the frame allocator of src/memory.rs: which frames the heap stands on.
use llm_os_rust.Base.{
  ℕ, zero, suc, ◌+◌, ◌*◌, ◌%◌, ◌^◌, ◌≤◌, ◌<◌, ◌≡◌, ◌≢◌, refl, ap, ◌∙◌, List, [], ◌∷◌, length,
  get_elem?, get_elem?_within, All, arith, some, ok,
}
use llm_os_rust.Memory.{
  MemoryRegion, usable_frames, BootInfoFrameAllocator, allocate_frame, addresses_from, init,
}
use llm_os_rust.Memory.Allocation.{after_calls}
use llm_os_rust.Heap.Mapping.{page_range-addresses}
use llm_os_rust.Heap.{
  heap_flags, page_range, map_page, map_pages, init_heap, map_to_frame, and_then, heap_start,
  heap_size,
}
use llm_os_rust.Heap.Mapper.{HasFrames, Mapper, kernel_paging}

module _ {M E : Type 0} (mapper : Mapper M E) (heap_init : ℕ → ℕ → M → M) where
  module _ (regions : List MemoryRegion) (bounded : length (usable_frames regions) < 2 ^ 64) where
    abbrev frames : List ℕ
    frames = usable_frames regions

    abbrev at : ℕ → BootInfoFrameAllocator
    at n = record { memory_map = regions; next = n }

    after_calls-at : (k n : ℕ) → n + k < 2 ^ 64 → after_calls k (at n) ≡ at (n + k)
    unfolding allocate_frame
    after_calls-at zero n h = ap at (omega arith)
    after_calls-at (suc k) n h = rw (after_calls-at k n (omega arith)) (ap at (omega arith))

    HasFrames-at : (c n : ℕ) → n + c ≤ length frames → HasFrames c (at n)
    unfolding allocate_frame
    HasFrames-at c n h k lt =
        let (frame, found) = get_elem?_within frames (n + k) (omega arith) in
        (frame, rw (after_calls-at k n (omega arith)) found)

    -- The page is mapped to the next frame, and up to three more frames are drawn.
    record MapsNext (page n : ℕ) (m : M) : Type 0 where
      drawn : ℕ
      few : drawn ≤ 3
      tables : M
      frame : ℕ
      taken : get_elem? frames n ≡ some frame
      runs :
          map_page (kernel_paging mapper heap_init) page (at n, m)
          ≡ (ok tt, (at (n + 1 + drawn), tables))
      mapped : mapper.translate tables page ≡ some frame
      others : (q : ℕ) → q ≢ page → mapper.translate tables q ≡ mapper.translate m q
      free : (q : ℕ) → q ≢ page → mapper.IsFree m q → mapper.IsFree tables q

    map_page-next :
        (page n : ℕ) (m : M) → mapper.IsFree m page → n + 4 ≤ length frames → MapsNext page n m
    unfolding map_page kernel_paging allocate_frame
    map_page-next page n m free enough =
        let (frame, found) = get_elem?_within frames n (omega arith) in
        let a = at (n + 1) in
        let r = mapper.map_to page frame heap_flags (a, m) in
        let (k, few, drawn) = mapper.draws page frame heap_flags a m in
        let (fine, there) =
          mapper.maps page frame heap_flags a m free (HasFrames-at 3 (n + 1) (omega arith)) in
        record {
          drawn = k;
          few = few;
          tables = r.1.1;
          frame = frame;
          taken = found;
          runs =
              ap
                (λ o.
                  map_to_frame (kernel_paging mapper heap_init) page
                    (o, (at ((n + 1) % 2 ^ 64), m)))
                found
              ∙ ap (λ i. mapper.map_to page frame heap_flags (at i, m)) (omega arith)
              ∙ ap (λ o. (o, (r.1.0, r.1.1))) fine
              ∙ ap (λ b. (ok tt, (b, r.1.1))) (drawn ∙ after_calls-at k (n + 1) (omega arith));
          mapped = there;
          others = λ q ne. (mapper.keeps page frame heap_flags a m q ne).0;
          free = λ q ne. (mapper.keeps page frame heap_flags a m q ne).1;
        }

    -- Each page in turn is mapped to a usable frame, from number `n` of the list on, later pages to
    -- later frames.
    abbrev pub Backs : ℕ → List ℕ → M → Type 0
    Backs n [] m = Unit
    Backs n (page ∷ pages) m =
        (i : ℕ) × (frame : ℕ) × (n ≤ i)
        × (get_elem? frames i ≡ some frame)
        × (mapper.translate m page ≡ some frame)
        × Backs (suc i) pages m

    Backs-from : (n k : ℕ) (pages : List ℕ) (m : M) → n ≤ k → Backs k pages m → Backs n pages m
    Backs-from n k [] m le h = tt
    Backs-from n k (page ∷ pages) m le (i, frame, low, found, there, rest) =
        (i, frame, omega arith, found, there, rest)

    free_behind :
        (left start page : ℕ) (m u : M)
        → page < start
        → ((q : ℕ) → q ≢ page → mapper.IsFree m q → mapper.IsFree u q)
        → All (mapper.IsFree m) (addresses_from left start)
        → All (mapper.IsFree u) (addresses_from left start)
    unfolding addresses_from
    free_behind zero start page m u lt keep h = tt
    free_behind (suc left) start page m u lt keep (h, hs) = (
      keep start (λ e. omega arith) h,
      free_behind left (start + 4096) page m u (omega arith) keep hs,
    )

    record MapsAll (left start n : ℕ) (m : M) : Type 0 where
      next : ℕ
      tables : M
      runs :
          map_pages (kernel_paging mapper heap_init) (addresses_from left start) (at n, m)
          ≡ (ok tt, (at next, tables))
      backs : Backs n (addresses_from left start) tables
      others : (q : ℕ) → q < start → mapper.translate tables q ≡ mapper.translate m q

    MapsAll-suc :
        (left start n : ℕ) (m : M) (p : MapsNext start n m)
        → MapsAll left (start + 4096) (n + 1 + p.drawn) p.tables
        → MapsAll (suc left) start n m
    unfolding map_pages addresses_from
    MapsAll-suc left start n m p r = record {
      next = r.next;
      tables = r.tables;
      runs =
          ap
            (λ x.
              and_then x
                (map_pages (kernel_paging mapper heap_init) (addresses_from left (start + 4096))))
            p.runs
          ∙ r.runs;
      backs = (
        n,
        p.frame,
        omega arith,
        p.taken,
        r.others start (omega arith) ∙ p.mapped,
        Backs-from (suc n) (n + 1 + p.drawn) (addresses_from left (start + 4096)) r.tables
            (omega arith) r.backs,
      );
      others = λ q lt. r.others q (omega arith) ∙ p.others q (λ e. omega arith);
    }

    map_pages-MapsAll :
        (left start n : ℕ) (m : M)
        → n + left * 4 ≤ length frames
        → All (mapper.IsFree m) (addresses_from left start)
        → MapsAll left start n m
    unfolding map_pages addresses_from
    map_pages-MapsAll zero start n m enough free = record {
      next = n;
      tables = m;
      runs = refl;
      backs = tt;
      others = λ q lt. refl;
    }
    map_pages-MapsAll (suc left) start n m enough (free, rest) =
        let p = map_page-next start n m free (omega arith) in
        MapsAll-suc left start n m p (
          map_pages-MapsAll left (start + 4096) (n + 1 + p.drawn) p.tables (omega (arith, p.few))
            (free_behind left (start + 4096) start m p.tables (omega arith) p.free rest))

    -- With a memory map that has 1024 usable frames or more, but less than 2^64, and pages
    -- of the heap that can all be mapped, `init_heap` returns no error, for any mapper that
    -- takes at most three frames for the page tables of a page; and it leaves each page of
    -- the heap mapped to a usable frame, later pages to frames that stand later in the
    -- list.
    pub init_heap_succeeds :
        (m : M)
        → 1024 ≤ length frames
        → All (mapper.IsFree m) page_range
        → (next : ℕ) × (tables : M) × (init_heap (kernel_paging mapper heap_init) (init regions, m)
            ≡ (
              ok tt,
              (record { memory_map = regions; next = next }, heap_init heap_start heap_size tables),
            ))
          × Backs 0 page_range tables
    unfolding init_heap init kernel_paging
    init_heap_succeeds m enough free =
        let r =
          map_pages-MapsAll 256 heap_start 0 m (omega arith) (rw page_range-addresses at free) in
        (
          r.next,
          r.tables,
          ap
                (λ pages.
                  and_then (map_pages (kernel_paging mapper heap_init) pages (at 0, m))
                    (λ s'. (ok tt, (s'.0, heap_init heap_start heap_size s'.1))))
                page_range-addresses
              ∙ ap (λ x. and_then x (λ s'. (ok tt, (s'.0, heap_init heap_start heap_size s'.1))))
                  r.runs,
          rw page_range-addresses r.backs,
        )
