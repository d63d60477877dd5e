-- ===== src/Context/Room.antt =====
-- The eviction loop of `push_message`: what it takes out, and what it prints.
use llm_os_rust.Base.{
  ℕ, zero, suc, ◌+◌, ◌%◌, ◌≤◌, ◌<◌, ◌≡◌, refl, sym, ◌∙◌, [], ◌∷◌, ◌++◌, ltb, ◌⊎◌, inl, inr, arith,
  Bool-cases, List, ap,
}
use llm_os_rust.Text.{Text}
use llm_os_rust.Context.{
  Message, ContextWindow, without, count_eviction, make_room, usize_mod, usize_add, eviction_line,
}
use llm_os_rust.Context.Eviction.{
  total_tokens, forget, evictable, evict_oldest_cases, forget-suc, forget-zero, forgotten,
  forgotten-zero, forgotten-suc,
}

-- The lines of the log for messages that are evicted one after the other, from a count on.
unfoldable pub eviction_lines : ℕ → List Message → Text
eviction_lines n [] = []
eviction_lines n (m ∷ ms) = eviction_line m (usize_add n 1) ++ eviction_lines (usize_add n 1) ms

pub eviction_lines-cons :
    (n : ℕ) (m : Message) (ms : List Message)
    → eviction_lines n (m ∷ ms)
      ≡ eviction_line m (usize_add n 1) ++ eviction_lines (usize_add n 1) ms
unfolding eviction_lines
eviction_lines-cons n m ms = refl

-- `v` is `w` with the `k` oldest evictable messages gone, and no fewer would make room; `out` has
-- the lines of these messages.
pub record MadeRoom (k token_count : ℕ) (w v : ContextWindow) (out : Text) : Type 0 where
  pub forgets : v.messages ≡ forget k w.messages
  pub within : k ≤ evictable w.messages
  pub logs : out ≡ eviction_lines w.total_evicted (forgotten k w.messages)
  pub max_kept : v.max_tokens ≡ w.max_tokens
  pub counts : v.current_tokens ≡ total_tokens v.messages
  pub counts_evicted : v.total_evicted ≡ (w.total_evicted + k) % usize_mod
  pub stops : (v.current_tokens + token_count ≤ v.max_tokens) ⊎ (evictable v.messages ≡ 0)
  pub least : (j : ℕ) → j < k → w.max_tokens < total_tokens (forget j w.messages) + token_count

MadeRoom-none :
    (t : ℕ) (w : ContextWindow)
    → w.current_tokens ≡ total_tokens w.messages
    → w.total_evicted < usize_mod
    → (w.current_tokens + t ≤ w.max_tokens) ⊎ (evictable w.messages ≡ 0)
    → MadeRoom 0 t w w []
unfolding eviction_lines
MadeRoom-none t w c e s = record {
  forgets = sym (forget-zero w.messages);
  within = omega arith;
  logs = sym (ap (eviction_lines w.total_evicted) (forgotten-zero w.messages));
  max_kept = refl;
  counts = c;
  counts_evicted = omega arith;
  stops = s;
  least = λ j h. absurd (omega arith);
}

-- The window after one round of the loop.
abbrev pub evicted_once : ContextWindow → Message → ContextWindow
evicted_once w m = count_eviction (without w m (forget 1 w.messages))

least_suc :
    (k t j : ℕ) (w : ContextWindow)
    → w.max_tokens < w.current_tokens + t
    → w.current_tokens ≡ total_tokens w.messages
    → ((i : ℕ) → i < k → w.max_tokens < total_tokens (forget i (forget 1 w.messages)) + t)
    → j < suc k
    → w.max_tokens < total_tokens (forget j w.messages) + t
least_suc k t zero w over c h lt = rw (forget-zero w.messages) (omega arith)
least_suc k t (suc j) w over c h lt = rw (forget-suc j w.messages) (h j (omega arith))

MadeRoom-suc :
    (k t : ℕ) (w v : ContextWindow) (out : Text) (m : Message)
    → w.max_tokens < w.current_tokens + t
    → w.current_tokens ≡ total_tokens w.messages
    → evictable w.messages ≡ suc (evictable (forget 1 w.messages))
    → forgotten 1 w.messages ≡ m ∷ []
    → MadeRoom k t (evicted_once w m) v out
    → MadeRoom (suc k) t w v (eviction_line m (usize_add w.total_evicted 1) ++ out)
unfolding count_eviction without
MadeRoom-suc k t w v out m over c fewer first r = record {
  forgets = r.forgets ∙ sym (forget-suc k w.messages);
  within = omega (arith, r.within);
  logs =
      ap (λ s. eviction_line m (usize_add w.total_evicted 1) ++ s) r.logs
      ∙ sym (eviction_lines-cons w.total_evicted m (forgotten k (forget 1 w.messages)))
      ∙ ap (λ ms. eviction_lines w.total_evicted (ms ++ forgotten k (forget 1 w.messages)))
          (sym first)
      ∙ ap (eviction_lines w.total_evicted) (sym (forgotten-suc k w.messages));
  max_kept = r.max_kept;
  counts = r.counts;
  counts_evicted = omega arith;
  stops = r.stops;
  least = λ j. least_suc k t j w over c r.least;
}

-- The loop ends by its test or for want of a message to evict, in as many rounds as it was given.
pub make_room_lem :
    (fuel t : ℕ) (w : ContextWindow)
    → w.current_tokens ≡ total_tokens w.messages
    → w.total_evicted < usize_mod
    → w.current_tokens + t < usize_mod
    → evictable w.messages < fuel
    → (k : ℕ) × MadeRoom k t w (make_room fuel t w).0 (make_room fuel t w).1
unfolding make_room
make_room_lem zero t w c e fits enough = absurd (omega arith)
make_room_lem (suc fuel) t w c e fits enough =
    elim (Bool-cases (ltb w.max_tokens (usize_add w.current_tokens t))) [
      | inr room ↦ (0, rw (room, make_room) (MadeRoom-none t w c e (inl (ground arith))))
      | inl full ↦ elim (evict_oldest_cases w) [
        | inl (stuck, nothing) ↦
            (0, rw (full, make_room) (rw (stuck, make_room) (MadeRoom-none t w c e (inr nothing))))
        | inr (m, found, other, tokens, fewer, first) ↦
            let (k, r) =
              make_room_lem fuel t (evicted_once w m) (omega arith) (omega arith) (omega arith)
                (omega arith) in
            (
              suc k,
              rw (full, make_room)
                  (rw (found, make_room) (MadeRoom-suc k t w _ _ m (ground arith) c fewer first r)),
            )
      ]
    ]
