-- ===== src/Memory/Frames.antt =====
-- The list of usable frames against the regions of the map.
use mathlib.Core.Path.{subst}
use llm_os_rust.Base.{
  ℕ, zero, suc, ◌+◌, ◌-◌, ◌*◌, ◌/◌, ◌%◌, ◌≤◌, ◌<◌, ◌≡◌, refl, ap, ◌∙◌, true, false, List, [], ◌∷◌,
  ◌++◌, length, get_elem?, arith, some, All, All-append, Bool-cases, ◌⊎◌, inl, inr, All-mono,
  get_elem?-append_left, get_elem?-append_right,
}
use llm_os_rust.Memory.{
  MemoryRegion, addresses_from, step_by, containing_address, frames_at, usable_frames,
}

-- What the kernel relies on in the map that the bootloader passes: regions are made of whole
-- frames, stand in the order of their addresses from `low` on, and do not overlap.
abbrev pub IsMemoryMap : ℕ → List MemoryRegion → Type 0
IsMemoryMap low [] = Unit
IsMemoryMap low (r ∷ regions) =
    (low ≤ r.start_addr)
    × (r.start_addr ≤ r.end_addr)
    × (r.start_addr % 4096 ≡ 0)
    × (r.end_addr % 4096 ≡ 0)
    × IsMemoryMap r.end_addr regions

-- Whole frames from `low` on, each behind the one before it.
abbrev pub Ascends : ℕ → List ℕ → Type 0
Ascends low [] = Unit
Ascends low (f ∷ fs) = (low ≤ f) × (f % 4096 ≡ 0) × Ascends (f + 4096) fs

-- The same, up to `high`.
abbrev Fills : ℕ → ℕ → List ℕ → Type 0
Fills low high [] = low ≤ high
Fills low high (f ∷ fs) = (low ≤ f) × (f % 4096 ≡ 0) × Fills (f + 4096) high fs

Ascends-from : (low low' : ℕ) (fs : List ℕ) → low' ≤ low → Ascends low fs → Ascends low' fs
Ascends-from low low' [] h a = tt
Ascends-from low low' (f ∷ fs) h (l, m, a) = (omega arith, m, a)

Fills-append :
    (low high : ℕ) (fs gs : List ℕ) → Fills low high fs → Ascends high gs → Ascends low (fs ++ gs)
Fills-append low high [] gs h a = Ascends-from high low gs h a
Fills-append low high (f ∷ fs) gs (l, m, h) a = (l, m, Fills-append (f + 4096) high fs gs h a)

Fills-within :
    (low high lo : ℕ) (fs : List ℕ)
    → lo ≤ low
    → Fills low high fs
    → All (λ f. (lo ≤ f) × (f + 4096 ≤ high) × (f % 4096 ≡ 0)) fs
Fills-within low high lo [] h a = tt
Fills-within low high lo (f ∷ fs) h (l, m, a) = (
  (omega arith, Fills_le (f + 4096) high fs a, m),
  Fills-within (f + 4096) high lo fs (omega arith) a,
)
  where
    Fills_le : (low high : ℕ) (fs : List ℕ) → Fills low high fs → low ≤ high
    Fills_le low high [] h = h
    Fills_le low high (f ∷ fs) (l, m, h) = omega (arith, Fills_le (f + 4096) high fs h)

containing_address-aligned : (addr : ℕ) → addr % 4096 ≡ 0 → containing_address addr ≡ addr
unfolding containing_address
containing_address-aligned addr h = omega arith

step_total : (left start : ℕ) → start + suc left * 4096 ≡ start + 4096 + left * 4096
step_total left start = omega arith

frames-Fills :
    (left start : ℕ)
    → start % 4096 ≡ 0
    → Fills start (start + left * 4096) (frames_at (addresses_from left start))
unfolding frames_at addresses_from
frames-Fills zero start h = omega arith
frames-Fills (suc left) start h =
    rw (containing_address-aligned start h, step_total left start)
      (omega arith, h, frames-Fills left (start + 4096) (omega arith))

frames_get :
    (left start k : ℕ)
    → start % 4096 ≡ 0
    → k < left
    → get_elem? (frames_at (addresses_from left start)) k ≡ some (start + k * 4096)
unfolding frames_at addresses_from
frames_get zero start k h lt = absurd (omega arith)
frames_get (suc left) start zero h lt = ground arith
frames_get (suc left) start (suc k) h lt =
    frames_get left (start + 4096) k (omega arith) (omega arith) ∙ ap some (omega arith)

-- The frames of a region are all its frames.
region-Fills :
    (start stop : ℕ)
    → start ≤ stop
    → start % 4096 ≡ 0
    → stop % 4096 ≡ 0
    → Fills start stop (frames_at (step_by start stop))
unfolding step_by
region-Fills start stop h a b =
    subst (λ n. Fills start n (frames_at (addresses_from ((stop - start + 4095) / 4096) start)))
      (omega arith) (frames-Fills ((stop - start + 4095) / 4096) start a)

length-frames_at : (left start : ℕ) → length (frames_at (addresses_from left start)) ≡ left
unfolding frames_at addresses_from
length-frames_at zero start = refl
length-frames_at (suc left) start = ap suc (length-frames_at left (start + 4096))

-- A region has a frame for each 4096 bytes begun.
pub length-step_by :
    (start stop : ℕ) → length (frames_at (step_by start stop)) ≡ (stop - start + 4095) / 4096
unfolding step_by
length-step_by start stop = length-frames_at ((stop - start + 4095) / 4096) start

-- The usable frames stand in ascending order, without overlap.
pub usable_frames-Ascends :
    (low : ℕ) (regions : List MemoryRegion)
    → IsMemoryMap low regions
    → Ascends low (usable_frames regions)
unfolding usable_frames
usable_frames-Ascends low [] h = tt
usable_frames-Ascends low (r ∷ regions) (l, le, a, b, h) = elim (Bool-cases r.usable) [
  | inl usable ↦
      rw (usable, usable_frames)
        (Ascends-from r.start_addr low _ l (
          Fills-append r.start_addr r.end_addr _ _ (region-Fills r.start_addr r.end_addr le a b)
            (usable_frames-Ascends r.end_addr regions h)))
  | inr other ↦
      rw (other, usable_frames)
        (Ascends-from r.end_addr low _ (omega arith) (usable_frames-Ascends r.end_addr regions h))
]

-- The frame lies in a usable region of the map.
abbrev pub IsUsable : List MemoryRegion → ℕ → Type 0
IsUsable [] f = ⊥
IsUsable (r ∷ regions) f =
    ((r.usable ≡ true) × (r.start_addr ≤ f) × (f + 4096 ≤ r.end_addr)) ⊎ IsUsable regions f

abbrev region_frames : MemoryRegion → List ℕ
region_frames r = frames_at (step_by r.start_addr r.end_addr)

at_usable :
    (r : MemoryRegion) (regions : List MemoryRegion)
    → r.usable ≡ true
    → usable_frames (r ∷ regions) ≡ region_frames r ++ usable_frames regions
unfolding usable_frames
at_usable r regions h = rw h

at_other :
    (r : MemoryRegion) (regions : List MemoryRegion)
    → r.usable ≡ false
    → usable_frames (r ∷ regions) ≡ usable_frames regions
unfolding usable_frames
at_other r regions h = rw h

-- Every frame of the list is a whole frame of a usable region.
pub usable_frames_sound :
    (low : ℕ) (regions : List MemoryRegion)
    → IsMemoryMap low regions
    → All (λ f. IsUsable regions f × (f % 4096 ≡ 0)) (usable_frames regions)
usable_frames_sound low [] h = unfold usable_frames in tt
usable_frames_sound low (r ∷ regions) (l, le, a, b, h) =
    let rest =
      All-mono (λ f. IsUsable regions f × (f % 4096 ≡ 0))
        (λ f. IsUsable (r ∷ regions) f × (f % 4096 ≡ 0)) (λ f u. (inr u.0, u.1))
        (usable_frames regions) (usable_frames_sound r.end_addr regions h) in
    elim (Bool-cases r.usable) [
      | inl usable ↦ rw (at_usable r regions usable) (
          All-append (λ f. IsUsable (r ∷ regions) f × (f % 4096 ≡ 0)) (region_frames r)
            (usable_frames regions)
            (All-mono (λ f. (r.start_addr ≤ f) × (f + 4096 ≤ r.end_addr) × (f % 4096 ≡ 0))
              (λ f. IsUsable (r ∷ regions) f × (f % 4096 ≡ 0))
              (λ f u. (inl (usable, u.0, u.1), u.2)) (region_frames r)
              (Fills-within r.start_addr r.end_addr r.start_addr (region_frames r) (omega arith)
                (region-Fills r.start_addr r.end_addr le a b)))
            rest)
      | inr other ↦ rw (at_other r regions other) rest
    ]

region_get :
    (start stop f : ℕ)
    → start % 4096 ≡ 0
    → f % 4096 ≡ 0
    → start ≤ f
    → f + 4096 ≤ stop
    → get_elem? (frames_at (step_by start stop)) ((f - start) / 4096) ≡ some f
unfolding step_by
region_get start stop f a m lo hi =
    frames_get ((stop - start + 4095) / 4096) start ((f - start) / 4096) a (omega arith)
    ∙ ap some (omega arith)

-- On a memory map of whole frames, in order and without overlap, every whole frame of a usable
-- region is in the list of usable frames.
pub usable_frames_complete :
    (low : ℕ) (regions : List MemoryRegion) (f : ℕ)
    → IsMemoryMap low regions
    → IsUsable regions f
    → f % 4096 ≡ 0
    → (i : ℕ) × (get_elem? (usable_frames regions) i ≡ some f)
usable_frames_complete low [] f h u m = absurd u
usable_frames_complete low (r ∷ regions) f (l, le, a, b, h) (inl (usable, lo, hi)) m = (
  (f - r.start_addr) / 4096,
  rw (at_usable r regions usable) (
      get_elem?-append_left (region_frames r) (usable_frames regions) ((f - r.start_addr) / 4096) f
        (region_get r.start_addr r.end_addr f a m lo hi)),
)
usable_frames_complete low (r ∷ regions) f (l, le, a, b, h) (inr u) m =
    let (i, e) = usable_frames_complete r.end_addr regions f h u m in
    elim (Bool-cases r.usable) [
      | inl usable ↦ (
        length (region_frames r) + i,
        rw (at_usable r regions usable)
            (get_elem?-append_right (region_frames r) (usable_frames regions) i ∙ e),
      )
      | inr other ↦ (i, rw (at_other r regions other) e)
    ]
