-- ===== src/Context/Eviction.antt =====
-- `evict_oldest` against a description of it: the messages without their oldest evictable ones.
use llm_os_rust.Base.{
  ℕ, zero, suc, ◌+◌, ◌≤◌, ◌≡◌, refl, ap, sym, false, List, [], ◌∷◌, ◌++◌, Option, none, some,
  if◌then◌else◌, length, ◌⊎◌, inl, inr, arith, All, Bool-cases,
}
use llm_os_rust.Context.{
  Message, ContextWindow, is_system, position_evictable, remove, without, evict_oldest,
}

abbrev pub total_tokens : List Message → ℕ
total_tokens [] = 0
total_tokens (m ∷ ms) = m.token_count + total_tokens ms

-- The messages without the `k` oldest that are not the system's.
unfoldable pub forget : ℕ → List Message → List Message
unfolding is_system
forget zero ms = ms
forget (suc k) [] = []
forget (suc k) (m ∷ ms) = if is_system m.role then m ∷ forget (suc k) ms else forget k ms

unfoldable pub evictable : List Message → ℕ
unfolding is_system
evictable [] = 0
evictable (m ∷ ms) = if is_system m.role then evictable ms else suc (evictable ms)

unfoldable pub system_only : List Message → List Message
unfolding is_system
system_only [] = []
system_only (m ∷ ms) = if is_system m.role then m ∷ system_only ms else system_only ms

-- The `k` oldest messages that are not the system's.
unfoldable pub forgotten : ℕ → List Message → List Message
unfolding is_system
forgotten zero ms = []
forgotten (suc k) [] = []
forgotten (suc k) (m ∷ ms) = if is_system m.role then forgotten (suc k) ms else m ∷ forgotten k ms

-- The message that `remove` takes out and what it leaves, in one pass.
first_out : List Message → Option (Message × List Message)
first_out [] = none
first_out (m ∷ ms) =
    if is_system m.role
    then elim (first_out ms) [ none ↦ none | some (x, rest) ↦ some (x, m ∷ rest) ]
    else some (m, ms)

remove_at : Option ℕ → List Message → Option (Message × List Message)
remove_at none ms = none
remove_at (some i) ms = remove i ms

remove-position : (ms : List Message) → remove_at (position_evictable ms) ms ≡ first_out ms
unfolding remove_at remove position_evictable first_out
remove-position [] = refl
remove-position (m ∷ ms) = ground (arith, remove-position ms)

pub forget-zero : (ms : List Message) → forget 0 ms ≡ ms
unfolding forget
forget-zero [] = refl
forget-zero (m ∷ ms) = refl

-- The oldest evictable message of a list.
abbrev Takes : List Message → Message → Type 0
Takes ms m =
    (first_out ms ≡ some (m, forget 1 ms))
    × (is_system m.role ≡ false)
    × (total_tokens ms ≡ m.token_count + total_tokens (forget 1 ms))
    × (evictable ms ≡ suc (evictable (forget 1 ms)))
    × (forgotten 1 ms ≡ m ∷ [])

first_out_cases :
    (ms : List Message)
    → ((first_out ms ≡ none) × (evictable ms ≡ 0)) ⊎ ((m : Message) × Takes ms m)
unfolding first_out evictable forget forgotten
first_out_cases [] = inl (refl, refl)
first_out_cases (m ∷ ms) = elim (Bool-cases (is_system m.role)) [
  | inr out ↦ inr (m, ground (arith, forget-zero ms))
  | inl kept ↦ elim (first_out_cases ms) [
    | inl (e, z) ↦ inl (ground (arith, e), ground (arith, z))
    | inr (x, t) ↦ inr (x, ground (arith, t))
  ]
]

evict_first : ContextWindow → Option (Message × List Message) → Option (Message × ContextWindow)
evict_first w none = none
evict_first w (some (m, rest)) = some (m, without w m rest)

evict_oldest-first_out : (w : ContextWindow) → evict_oldest w ≡ evict_first w (first_out w.messages)
unfolding evict_oldest evict_first remove_at
evict_oldest-first_out w = ground (arith, remove-position w.messages)

-- What one eviction does, or why there is none.
pub evict_oldest_cases :
    (w : ContextWindow)
    → ((evict_oldest w ≡ none) × (evictable w.messages ≡ 0))
      ⊎ ((m : Message) × (evict_oldest w ≡ some (m, without w m (forget 1 w.messages)))
          × (is_system m.role ≡ false)
          × (total_tokens w.messages ≡ m.token_count + total_tokens (forget 1 w.messages))
          × (evictable w.messages ≡ suc (evictable (forget 1 w.messages)))
          × (forgotten 1 w.messages ≡ m ∷ []))
unfolding evict_first
evict_oldest_cases w = elim (first_out_cases w.messages) [
  | inl (e, z) ↦ inl (ground (arith, evict_oldest-first_out w), z)
  | inr (m, t) ↦ inr (m, ground (arith, evict_oldest-first_out w), t.1, t.2, t.3, t.4)
]

-- To forget one more is to forget one of what is left.
pub forget-suc : (k : ℕ) (ms : List Message) → forget (suc k) ms ≡ forget k (forget 1 ms)
unfolding forget
forget-suc zero ms = sym (forget-zero _)
forget-suc (suc k) [] = refl
forget-suc (suc k) (m ∷ ms) = ground (arith, forget-suc (suc k) ms, forget-zero ms)

pub forgotten-zero : (ms : List Message) → forgotten 0 ms ≡ []
unfolding forgotten
forgotten-zero [] = refl
forgotten-zero (m ∷ ms) = refl

pub forgotten-suc :
    (k : ℕ) (ms : List Message) → forgotten (suc k) ms ≡ forgotten 1 ms ++ forgotten k (forget 1 ms)
unfolding forgotten forget
forgotten-suc zero [] = refl
forgotten-suc (suc k) [] = refl
forgotten-suc zero (m ∷ ms) =
    ground (
      arith,
      forgotten-suc zero ms,
      forget-zero ms,
      forgotten-zero ms,
      forgotten-zero (forget 1 ms),
    )
forgotten-suc (suc k) (m ∷ ms) =
    ground (arith, forgotten-suc (suc k) ms, forget-zero ms, forgotten-zero ms)

pub system_only-forget : (k : ℕ) (ms : List Message) → system_only (forget k ms) ≡ system_only ms
unfolding forget system_only
system_only-forget zero ms = ap system_only (forget-zero ms)
system_only-forget (suc k) [] = refl
system_only-forget (suc k) (m ∷ ms) =
    ground (arith, system_only-forget (suc k) ms, system_only-forget k ms)

pub evictable-length : (ms : List Message) → evictable ms ≤ length ms
unfolding evictable
evictable-length [] = omega arith
evictable-length (m ∷ ms) = ground (arith, evictable-length ms)

pub total_tokens-append :
    (ms ns : List Message) → total_tokens (ms ++ ns) ≡ total_tokens ms + total_tokens ns
total_tokens-append [] ns = omega arith
total_tokens-append (m ∷ ms) ns = omega (arith, total_tokens-append ms ns)

pub system_only-append :
    (ms ns : List Message) → system_only (ms ++ ns) ≡ system_only ms ++ system_only ns
unfolding system_only
system_only-append [] ns = refl
system_only-append (m ∷ ms) ns = ground (arith, system_only-append ms ns)

-- Where nothing can be evicted, all messages are the system's.
pub system_only-evictable : (ms : List Message) → evictable ms ≡ 0 → system_only ms ≡ ms
unfolding system_only evictable
system_only-evictable [] h = refl
system_only-evictable (m ∷ ms) h = ground (arith, system_only-evictable ms)

pub All-forget : (P : Message → Type 0) (k : ℕ) (ms : List Message) → All P ms → All P (forget k ms)
unfolding forget
All-forget P zero ms h = rw (forget-zero ms) h
All-forget P (suc k) [] h = tt
All-forget P (suc k) (m ∷ ms) (h, hs) =
    ground (arith, All-forget P (suc k) ms hs, All-forget P k ms hs)
