-- ===== src/Context/Bounds.antt =====
-- Bounds of the window, and the rounds of the eviction loop.
use llm_os_rust.Base.{
  ℕ, zero, suc, ◌+◌, ◌≤◌, ◌<◌, ◌≡◌, refl, ap, sym, ◌∙◌, [], ◌∷◌, ◌++◌, ◌⊎◌, inl, inr, arith,
  Bool-cases, ltb, length,
}
use llm_os_rust.Text.{Text}
use llm_os_rust.Context.{
  Role, Message, ContextWindow, without, count_eviction, estimate_tokens, make_room, push_message,
  usize_mod, usize_add, push_back,
}
use llm_os_rust.Context.Eviction.{
  total_tokens, forget, evictable, system_only, evict_oldest_cases, system_only-forget,
  total_tokens-append, system_only-append, system_only-evictable,
}
use llm_os_rust.Context.Push.{IsValid, Pushed, message_for, push_message_lem, push_message-IsValid}
use llm_os_rust.Context.Room.{evicted_once}

-- With more rounds than there are messages to evict, the number of rounds makes no difference: the
-- source's `while` loop ends, and `make_room` computes what it leaves.
pub make_room_rounds :
    (fuel more token_count : ℕ) (w : ContextWindow)
    → evictable w.messages < fuel
    → evictable w.messages < more
    → make_room fuel token_count w ≡ make_room more token_count w
unfolding make_room
make_room_rounds zero more t w h k = absurd (omega arith)
make_room_rounds (suc fuel) zero t w h k = absurd (omega arith)
make_room_rounds (suc fuel) (suc more) t w h k =
    elim (Bool-cases (ltb w.max_tokens (usize_add w.current_tokens t))) [
      | inr room ↦ rw (room, make_room)
      | inl full ↦ elim (evict_oldest_cases w) [
        | inl (stuck, nothing) ↦ rw (full, make_room) (rw (stuck, make_room))
        | inr (m, found, other, tokens, fewer, first) ↦
            let same =
              make_room_rounds fuel more t (evicted_once w m) (once m fewer h) (once m fewer k) in
            rw (full, make_room) (rw (found, make_room) (rw same))
      ]
    ]
  where
    once :
        {n : ℕ} (m : Message)
        → evictable w.messages ≡ suc (evictable (forget 1 w.messages))
        → evictable w.messages < suc n
        → evictable (evicted_once w m).messages < n
    once m e lt = unfold count_eviction without in omega arith

make_room_still :
    (fuel t : ℕ) (w : ContextWindow)
    → w.current_tokens + t < usize_mod
    → w.current_tokens + t ≤ w.max_tokens
    → make_room (suc fuel) t w ≡ (w, [])
unfolding make_room usize_add
make_room_still fuel t w fits h = ground arith

module _ (role : Role) (content : Text) (w : ContextWindow) (valid : IsValid w)
    (fits : w.current_tokens + estimate_tokens content < usize_mod) where
  -- On a well-formed window whose sum does not wrap around, a push keeps every system
  -- message, in order, and adds its own if it is one.
  pub push_message-system_only :
      system_only (push_message role content w).0.messages
      ≡ system_only w.messages ++ system_only (message_for role content ∷ [])
  push_message-system_only =
      let (k, p) = push_message_lem role content w valid fits in
      ap system_only p.appends
      ∙ system_only-append (forget k w.messages) (message_for role content ∷ [])
      ∙ ap (λ ms. ms ++ system_only (message_for role content ∷ []))
          (system_only-forget k w.messages)

  tokens_after :
      (k : ℕ)
      → Pushed k role content w (push_message role content w).0 (push_message role content w).1
      → (push_message role content w).0.current_tokens
        ≡ total_tokens (forget k w.messages) + estimate_tokens content
  tokens_after k p = omega (
    arith,
    (push_message-IsValid role content w valid fits).counted,
    ap total_tokens p.appends,
    total_tokens-append (forget k w.messages) (message_for role content ∷ []),
  )

  -- After a push the window is within its limit, or the system's messages and the new one are all
  -- that it holds.
  pub tokens_stuck :
      ((push_message role content w).0.current_tokens ≤ w.max_tokens)
      ⊎ ((push_message role content w).0.current_tokens
          ≡ total_tokens (system_only w.messages) + estimate_tokens content)
  tokens_stuck =
      let (k, p) = push_message_lem role content w valid fits in
      elim p.fits_or_stuck [
        | inl within ↦ inl (omega (arith, p.max_kept))
        | inr stuck ↦ inr (
            omega (
              arith,
              tokens_after k p,
              ap total_tokens (
                  sym (system_only-evictable (forget k w.messages) stuck)
                  ∙ system_only-forget k w.messages),
            ))
      ]

  -- On a well-formed window whose sum does not wrap around: if the system messages leave room
  -- for the new one, the window is within its limit after the push.
  pub push_message_bounded :
      total_tokens (system_only w.messages) + estimate_tokens content ≤ w.max_tokens
      → (push_message role content w).0.current_tokens ≤ w.max_tokens
  push_message_bounded h = elim tokens_stuck [ inl within ↦ within | inr e ↦ omega arith ]

  -- On a well-formed window whose sum does not wrap around, a message that is larger than the
  -- limit is pushed all the same, and the limit is passed.
  pub push_message_oversize :
      w.max_tokens < estimate_tokens content
      → w.max_tokens < (push_message role content w).0.current_tokens
  push_message_oversize h =
      let (k, p) = push_message_lem role content w valid fits in omega (arith, tokens_after k p)

  -- On a well-formed window whose sum does not wrap around and stays within the limit, a push
  -- adds the new message at the end, and nothing is evicted and nothing is printed.
  pub push_message_with_room :
      w.current_tokens + estimate_tokens content ≤ w.max_tokens
      → ((push_message role content w).0.messages ≡ w.messages ++ message_for role content ∷ [])
        × ((push_message role content w).1 ≡ [])
  unfolding push_message push_back
  push_message_with_room h = rw (make_room_still (length w.messages) _ w fits h) (refl, refl)
