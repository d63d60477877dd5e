-- ===== src/Context/Push.antt =====
-- What `push_message` does to a window.
use llm_os_rust.Base.{
  ℕ, zero, suc, ◌+◌, ◌%◌, ◌≤◌, ◌<◌, ◌≡◌, refl, sym, ◌∙◌, [], ◌∷◌, ◌++◌, ◌⊎◌, inl, inr, arith, All,
  List, length, ap, All-append,
}
use llm_os_rust.Text.{Text}
use llm_os_rust.Context.{
  Role, Message, ContextWindow, estimate_tokens, make_room, usize_mod, usize_add, push_message,
  push_back, new,
}
use llm_os_rust.Context.Eviction.{
  total_tokens, forget, evictable, forget-zero, evictable-length, total_tokens-append, All-forget,
  forgotten,
}
use llm_os_rust.Context.Room.{eviction_lines, MadeRoom, make_room_lem}

-- The message carries the estimate for its own text.
abbrev pub IsEstimated : Message → Type 0
IsEstimated m = m.token_count ≡ estimate_tokens m.content

pub record IsValid (w : ContextWindow) : Type 0 where
  pub counted : w.current_tokens ≡ total_tokens w.messages
  pub estimated : All IsEstimated w.messages
  pub evicted : w.total_evicted < usize_mod

abbrev pub message_for : Role → Text → Message
message_for role content = record {
  role = role;
  content = content;
  token_count = estimate_tokens content;
}

-- `v` is the window `w` after a push, which evicted `k` messages and printed `out`.
pub record Pushed (k : ℕ) (role : Role) (content : Text) (w v : ContextWindow) (out : Text)
    : Type 0 where
  pub within : k ≤ evictable w.messages
  pub logs : out ≡ eviction_lines w.total_evicted (forgotten k w.messages)
  pub appends : v.messages ≡ forget k w.messages ++ message_for role content ∷ []
  pub max_kept : v.max_tokens ≡ w.max_tokens
  pub counts_evicted : v.total_evicted ≡ (w.total_evicted + k) % usize_mod
  pub fits_or_stuck : (v.current_tokens ≤ v.max_tokens) ⊎ (evictable (forget k w.messages) ≡ 0)
  pub least :
      (j : ℕ) → j < k → w.max_tokens < total_tokens (forget j w.messages) + estimate_tokens content

pub total_tokens-forget : (k : ℕ) (ms : List Message) → total_tokens (forget k ms) ≤ total_tokens ms
unfolding forget
total_tokens-forget zero ms = omega (arith, ap total_tokens (forget-zero ms))
total_tokens-forget (suc k) [] = omega arith
total_tokens-forget (suc k) (m ∷ ms) =
    ground (arith, total_tokens-forget (suc k) ms, total_tokens-forget k ms)

-- The addition behind the loop.
module _ (role : Role) (content : Text) (w : ContextWindow) (valid : IsValid w)
    (fits : w.current_tokens + estimate_tokens content < usize_mod) where
  module _ (k : ℕ) (v : ContextWindow) (out : Text)
      (r : MadeRoom k (estimate_tokens content) w v out) where
    tokens_left : v.current_tokens + estimate_tokens content < usize_mod
    tokens_left = omega (
      arith,
      total_tokens-forget k w.messages,
      r.counts,
      ap total_tokens r.forgets,
      valid.counted,
      fits,
    )

    fits_or_stuck_after :
        ((push_back role content v).current_tokens ≤ v.max_tokens)
        ⊎ (evictable (forget k w.messages) ≡ 0)
    unfolding push_back usize_add
    fits_or_stuck_after = elim r.stops [
      | inl room ↦ inl (omega (arith, tokens_left))
      | inr stuck ↦ inr (sym (ap evictable r.forgets) ∙ stuck)
    ]

    push_back-Pushed : Pushed k role content w (push_back role content v) out
    unfolding push_back
    push_back-Pushed = record {
      within = r.within;
      logs = r.logs;
      appends = ap (λ ms. ms ++ message_for role content ∷ []) r.forgets;
      max_kept = r.max_kept;
      counts_evicted = r.counts_evicted;
      fits_or_stuck = fits_or_stuck_after;
      least = r.least;
    }

    push_back-IsValid : IsValid (push_back role content v)
    unfolding push_back usize_add
    push_back-IsValid = record {
      counted = omega (
        arith,
        tokens_left,
        r.counts,
        total_tokens-append v.messages (message_for role content ∷ []),
      );
      estimated =
          All-append IsEstimated v.messages (message_for role content ∷ [])
            (rw r.forgets (All-forget IsEstimated k w.messages valid.estimated)) (refl, tt);
      evicted = omega (arith, r.counts_evicted);
    }

  room :
      (k : ℕ) × MadeRoom k
        (estimate_tokens content)
        w
        (make_room (suc (length w.messages)) (estimate_tokens content) w).0
        (make_room (suc (length w.messages)) (estimate_tokens content) w).1
  room =
      make_room_lem (suc (length w.messages)) (estimate_tokens content) w valid.counted
        valid.evicted fits (omega (arith, evictable-length w.messages))

  -- On a well-formed window, where the tokens of the window and of the new message sum up
  -- without wrapping around, a push takes out the `k` oldest messages that are not the
  -- system's, of which there are that many, and puts the new one last; it prints their
  -- eviction lines in that order, `k` is counted as evicted, the limit stays, and either the
  -- window is within its limit or no message is left to evict; and no smaller number of
  -- evictions would have made room.
  pub push_message_lem :
      (k : ℕ) × Pushed k role content w
        (push_message role content w).0
        (push_message role content w).1
  unfolding push_message
  push_message_lem = let (k, r) = room in (k, push_back-Pushed k _ _ r)

  -- On a well-formed window, where the tokens of the window and of the new message sum up
  -- without wrapping around, a push leaves a well-formed window: `current_tokens` is the sum
  -- of the tokens of its messages, the tokens of each are those of its content, and the count
  -- of evictions is a `usize`.
  pub push_message-IsValid : IsValid (push_message role content w).0
  unfolding push_message
  push_message-IsValid = let (k, r) = room in push_back-IsValid k _ _ r

pub new-IsValid : (max_tokens : ℕ) → IsValid (new max_tokens)
unfolding new
new-IsValid max_tokens = record { counted = refl; estimated = tt; evicted = omega arith }
