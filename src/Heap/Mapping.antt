-- ===== src/Heap/Mapping.antt =====
-- Which pages `init_heap` maps, and when it hands the region to the heap allocator.
use mathlib.Core.Path.{subst}
use llm_os_rust.Base.{
  ℕ, zero, suc, ◌+◌, ◌-◌, ◌*◌, ◌/◌, ◌≤◌, ◌<◌, ◌≡◌, refl, ap, ◌∙◌, List, [], ◌∷◌, ◌++◌, get_elem?,
  arith, some, Result, ok, err,
}
use llm_os_rust.Memory.{containing_address, addresses_from}
use llm_os_rust.Heap.{
  MapToError, Paging, heap_start, heap_size, range_inclusive, page_range, map_page, map_pages,
  init_heap, and_then,
}

pub addresses_from_get :
    (left start k : ℕ)
    → k < left
    → get_elem? (addresses_from left start) k ≡ some (start + k * 4096)
unfolding addresses_from
addresses_from_get zero start k lt = absurd (omega arith)
addresses_from_get (suc left) start zero lt = ground arith
addresses_from_get (suc left) start (suc k) lt =
    addresses_from_get left (start + 4096) k (omega arith) ∙ ap some (omega arith)

pub page_range-addresses : page_range ≡ addresses_from 256 heap_start
unfolding page_range range_inclusive containing_address
page_range-addresses = refl

-- The 256 pages from the start of the heap on: one mebibyte.
abbrev pub heap_pages : List ℕ
heap_pages = addresses_from 256 heap_start

-- The page of every byte of the heap is among the pages that are mapped.
pub page_range_covers :
    (addr : ℕ)
    → heap_start ≤ addr
    → addr < heap_start + heap_size
    → (i : ℕ) × (get_elem? page_range i ≡ some (containing_address addr))
page_range_covers addr lo hi = (
  (addr - heap_start) / 4096,
  rw page_range-addresses (
      addresses_from_get 256 heap_start ((addr - heap_start) / 4096) (omega arith)
      ∙ ap some (containing addr lo hi)),
)
  where
    containing :
        (addr : ℕ)
        → heap_start ≤ addr
        → addr < heap_start + heap_size
        → heap_start + (addr - heap_start) / 4096 * 4096 ≡ containing_address addr
    containing addr lo hi = unfold containing_address in omega arith

addresses_from_within :
    (left start i page : ℕ)
    → get_elem? (addresses_from left start) i ≡ some page
    → (start ≤ page) × (page + 4096 ≤ start + left * 4096)
unfolding addresses_from
addresses_from_within zero start i page h = cc
addresses_from_within (suc left) start zero page h = ground arith
addresses_from_within (suc left) start (suc i) page h =
    omega (arith, addresses_from_within left (start + 4096) i page h)

-- Every page that is mapped lies whole inside the heap.
pub page_range_within :
    (i page : ℕ)
    → get_elem? page_range i ≡ some page
    → (heap_start ≤ page) × (page + 4096 ≤ heap_start + heap_size)
page_range_within i page h =
    addresses_from_within 256 heap_start i page (rw page_range-addresses at h)

module _ {S E : Type 0} (paging : Paging S E) where
  -- Each page of the list in turn is given a frame and mapped.
  pub data Maps : List ℕ → S → S → Type 0 where
    none_left : {s : S} → Maps [] s s
    mapped :
        {page : ℕ} {pages : List ℕ} {s t u : S}
        → map_page paging page s ≡ (ok tt, t)
        → Maps pages t u
        → Maps (page ∷ pages) s u

  -- The run of `map_pages`: all pages are mapped, or the first that cannot be ends it.
  pub record Stops (pages : List ℕ) (s : S) (e : MapToError E) (u : S) : Type 0 where
    pub before : List ℕ
    pub page : ℕ
    pub after : List ℕ
    pub splits : pages ≡ before ++ page ∷ after
    pub state : S
    pub maps : Maps before s state
    pub fails : map_page paging page state ≡ (err e, u)

  abbrev Ran : List ℕ → S → Result (Unit {0}) (MapToError E) × S → Type 0
  Ran pages s (ok _, t) = Maps pages s t
  Ran pages s (err e, u) = Stops pages s e u

  Ran-cons :
      (page : ℕ) (pages : List ℕ) (s t : S) (r : Result (Unit {0}) (MapToError E) × S)
      → map_page paging page s ≡ (ok tt, t)
      → Ran pages t r
      → Ran (page ∷ pages) s r
  Ran-cons page pages s t (ok _, u) e h = mapped e h
  Ran-cons page pages s t (err x, u) e h = record {
    before = page ∷ h.before;
    page = h.page;
    after = h.after;
    splits = ap (λ ps. page ∷ ps) h.splits;
    state = h.state;
    maps = mapped e h.maps;
    fails = h.fails;
  }

  map_pages-Ran : (pages : List ℕ) (s : S) → Ran pages s (map_pages paging pages s)
  unfolding map_pages
  map_pages-Ran [] s = none_left
  map_pages-Ran (page ∷ pages) s = next (map_page paging page s) refl (map_pages-Ran pages)
    where
      next :
          (r : Result (Unit {0}) (MapToError E) × S)
          → map_page paging page s ≡ r
          → ((t : S) → Ran pages t (map_pages paging pages t))
          → Ran (page ∷ pages) s (and_then r (map_pages paging pages))
      next (ok _, t) e ih = Ran-cons page pages s t (map_pages paging pages t) e (ih t)
      next (err x, t) e ih = record {
        before = [];
        page = page;
        after = pages;
        splits = refl;
        state = s;
        maps = none_left;
        fails = e;
      }

  -- What `init_heap` returns and leaves, by the run of its loop.
  abbrev pub Initialised : S → Result (Unit {0}) (MapToError E) × S → Type 0
  Initialised s (ok _, u) =
      (t : S) × Maps heap_pages s t × (u ≡ paging.heap_init heap_start heap_size t)
  Initialised s (err e, u) = Stops heap_pages s e u

  pub init_heap-Initialised : (s : S) → Initialised s (init_heap paging s)
  unfolding init_heap
  init_heap-Initialised s = finish (map_pages paging page_range s) (
      subst (λ pages. Ran pages s (map_pages paging page_range s)) page_range-addresses
        (map_pages-Ran page_range s))
    where
      finish :
          (r : Result (Unit {0}) (MapToError E) × S)
          → Ran heap_pages s r
          → Initialised s (and_then r (λ s'. (ok tt, paging.heap_init heap_start heap_size s')))
      finish (ok _, t) h = (t, h, refl)
      finish (err e, t) h = h
