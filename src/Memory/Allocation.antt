-- ===== src/Memory/Allocation.antt =====
-- What successive calls of `allocate_frame` return.
use mathlib.Core.Path.{subst}
use mathlib.Core.Option.{some-injective}
use llm_os_rust.Base.{
  ℕ, zero, suc, ◌+◌, ◌%◌, ◌^◌, ◌≤◌, ◌<◌, ◌≡◌, refl, sym, ◌∙◌, List, [], ◌∷◌, get_elem?, length, ◌⊎◌,
  inl, inr, arith, Option, none, some, All,
}
use llm_os_rust.Memory.{MemoryRegion, usable_frames, BootInfoFrameAllocator, init, allocate_frame}
use llm_os_rust.Memory.Frames.{
  IsMemoryMap, Ascends, usable_frames-Ascends, IsUsable, usable_frames_sound,
  usable_frames_complete,
}

-- The allocator after a number of calls.
abbrev pub after_calls : ℕ → BootInfoFrameAllocator → BootInfoFrameAllocator
after_calls zero a = a
after_calls (suc n) a = (allocate_frame (after_calls n a)).1

-- What the call behind `n` others returns, from the start.
abbrev pub nth_frame : List MemoryRegion → ℕ → Option ℕ
nth_frame regions n = (allocate_frame (after_calls n (init regions))).0

after_calls-init :
    (regions : List MemoryRegion) (n : ℕ)
    → n < 2 ^ 64
    → after_calls n (init regions) ≡ record { memory_map = regions; next = n }
unfolding allocate_frame init
after_calls-init regions zero h = refl
after_calls-init regions (suc n) h = rw (after_calls-init regions n (omega arith)) (ground arith)

-- The calls go through the usable frames in order, each once.
pub nth_frame-usable_frames :
    (regions : List MemoryRegion) (n : ℕ)
    → n < 2 ^ 64
    → nth_frame regions n ≡ get_elem? (usable_frames regions) n
unfolding allocate_frame usable_frames
nth_frame-usable_frames regions n h =
    rw (after_calls-init regions n h) (unfold allocate_frame in refl)

Ascends-get :
    (low : ℕ) (fs : List ℕ) (i : ℕ) (f : ℕ) → Ascends low fs → get_elem? fs i ≡ some f → low ≤ f
Ascends-get low [] i f a h = cc
Ascends-get low (g ∷ fs) zero f (l, m, a) h = ground arith
Ascends-get low (g ∷ fs) (suc i) f (l, m, a) h = omega (arith, Ascends-get (g + 4096) fs i f a h)

pub Ascends-lt :
    (low : ℕ) (fs : List ℕ) (i j : ℕ) (f g : ℕ)
    → Ascends low fs
    → i < j
    → get_elem? fs i ≡ some f
    → get_elem? fs j ≡ some g
    → f + 4096 ≤ g
Ascends-lt low [] i j f g a lt hf hg = cc
Ascends-lt low (x ∷ fs) i zero f g (l, m, a) lt hf hg = absurd (omega arith)
Ascends-lt low (x ∷ fs) zero (suc j) f g (l, m, a) lt hf hg =
    ground (arith, Ascends-get (x + 4096) fs j g a hg)
Ascends-lt low (x ∷ fs) (suc i) (suc j) f g (l, m, a) lt hf hg =
    Ascends-lt (x + 4096) fs i j f g a (omega arith) hf hg

-- On a memory map of whole frames, in the order of their addresses and without overlap, and
-- within 2^64 calls: of two calls that return a frame, the later frame lies whole behind the
-- earlier one, so that no frame is handed out twice and no two overlap.
pub allocate_frame_fresh :
    (regions : List MemoryRegion) (n m f g : ℕ)
    → IsMemoryMap 0 regions
    → n < m
    → m < 2 ^ 64
    → nth_frame regions n ≡ some f
    → nth_frame regions m ≡ some g
    → f + 4096 ≤ g
allocate_frame_fresh regions n m f g map lt fits hf hg =
    Ascends-lt 0 (usable_frames regions) n m f g (usable_frames-Ascends 0 regions map) lt
      (sym (nth_frame-usable_frames regions n (omega arith)) ∙ hf)
      (sym (nth_frame-usable_frames regions m fits) ∙ hg)

All-get : (P : ℕ → Type 0) (fs : List ℕ) (i f : ℕ) → All P fs → get_elem? fs i ≡ some f → P f
All-get P [] i f h e = cc
All-get P (g ∷ fs) zero f (h, hs) e = subst P (some-injective g f e) h
All-get P (g ∷ fs) (suc i) f (h, hs) e = All-get P fs i f hs e

-- On a memory map of whole frames, in the order of their addresses and without overlap, and
-- within 2^64 calls, a frame that is handed out is a whole frame of a usable region of the map.
pub allocate_frame-IsUsable :
    (regions : List MemoryRegion) (n f : ℕ)
    → IsMemoryMap 0 regions
    → n < 2 ^ 64
    → nth_frame regions n ≡ some f
    → IsUsable regions f × (f % 4096 ≡ 0)
allocate_frame-IsUsable regions n f map fits h =
    All-get (λ g. IsUsable regions g × (g % 4096 ≡ 0)) (usable_frames regions) n f
      (usable_frames_sound 0 regions map) (sym (nth_frame-usable_frames regions n fits) ∙ h)

get_elem?-none : (fs : List ℕ) (i j : ℕ) → i ≤ j → get_elem? fs i ≡ none → get_elem? fs j ≡ none
get_elem?-none [] i j le h = refl
get_elem?-none (f ∷ fs) zero j le h = cc
get_elem?-none (f ∷ fs) (suc i) zero le h = absurd (omega arith)
get_elem?-none (f ∷ fs) (suc i) (suc j) le h = get_elem?-none fs i j (omega arith) h

-- Within 2^64 calls, once a call finds no frame, no later call finds one.
pub allocate_frame_exhausted :
    (regions : List MemoryRegion) (n m : ℕ)
    → n ≤ m
    → m < 2 ^ 64
    → nth_frame regions n ≡ none
    → nth_frame regions m ≡ none
allocate_frame_exhausted regions n m le fits h =
    nth_frame-usable_frames regions m fits
    ∙ get_elem?-none (usable_frames regions) n m le
        (sym (nth_frame-usable_frames regions n (omega arith)) ∙ h)

lt_cases : (m n : ℕ) → (m < n) ⊎ (m ≡ n) ⊎ (n < m)
lt_cases m n = ground arith

get_elem?-some : (fs : List ℕ) (i f : ℕ) → get_elem? fs i ≡ some f → i < length fs
get_elem?-some [] i f h = cc
get_elem?-some (g ∷ fs) zero f h = omega arith
get_elem?-some (g ∷ fs) (suc i) f h = omega (arith, get_elem?-some fs i f h)

-- On a memory map of whole frames, in the order of their addresses and without overlap, with
-- less than 2^64 usable frames: each whole frame of a usable region is returned by one of as
-- many calls as there are usable frames, and by no other call within 2^64 calls.
pub allocate_frame_once :
    (regions : List MemoryRegion) (f : ℕ)
    → IsMemoryMap 0 regions
    → length (usable_frames regions) < 2 ^ 64
    → IsUsable regions f
    → f % 4096 ≡ 0
    → (n : ℕ) × (n < length (usable_frames regions))
      × (nth_frame regions n ≡ some f)
      × ((m : ℕ) → m < 2 ^ 64 → nth_frame regions m ≡ some f → m ≡ n)
allocate_frame_once regions f map bounded usable whole =
    let (n, at) = usable_frames_complete 0 regions f map usable whole in
    let inside = get_elem?-some (usable_frames regions) n f at in
    let got = nth_frame-usable_frames regions n (omega arith) ∙ at in
    (
      n,
      inside,
      got,
      λ m fits again. elim (lt_cases m n) [
        | inl lt ↦
            absurd
              (omega (arith, allocate_frame_fresh regions m n f f map lt (omega arith) again got))
        | inr (inl e) ↦ e
        | inr (inr gt) ↦
            absurd (omega (arith, allocate_frame_fresh regions n m f f map gt fits got again))
      ],
    )
