-- ===== src/Context/Reference.antt =====
-- The window behind any pushes, as a function of what was pushed.
use mathlib.Core.Path.{subst}
use llm_os_rust.Base.{
  ℕ, zero, suc, ◌+◌, ◌-◌, ◌≤◌, ◌<◌, ◌≡◌, sym, ap, ◌∙◌, [], ◌∷◌, ◌++◌, ◌⊎◌, inl, inr, arith, List,
  length, leb, if◌then◌else◌, Bool-cases,
}
use llm_os_rust.Text.{Text}
use llm_os_rust.Context.{Role, Message, ContextWindow, estimate_tokens, usize_mod, push_message}
use llm_os_rust.Context.Forget.{forget-add, forget-append, evictable-forget}
use llm_os_rust.Context.Eviction.{total_tokens, forget, evictable, total_tokens-append}
use llm_os_rust.Context.Push.{message_for, Pushed, push_message_lem}
use llm_os_rust.Context.History.{IsView, counted_all, more_within, view_fits, push_message-IsView}

-- `k` evictions from the messages are needed for a message of so many tokens: it fits then, or no
-- more can be evicted; and it does not fit with fewer.
pub record IsNeeded (max_tokens : ℕ) (h : List Message) (tokens k : ℕ) : Type 0 where
  pub within : k ≤ evictable h
  pub fits : (total_tokens (forget k h) + tokens ≤ max_tokens) ⊎ (k ≡ evictable h)
  pub least : (j : ℕ) → j < k → max_tokens < total_tokens (forget j h) + tokens

-- The search for that number, from `j` on.
abbrev search_from : ℕ → ℕ → List Message → ℕ → ℕ → ℕ
search_from zero max_tokens h tokens j = j
search_from (suc n) max_tokens h tokens j =
    let rest = search_from n max_tokens h tokens (suc j) in
    if leb (total_tokens (forget j h) + tokens) max_tokens then j else rest

abbrev pub needed : ℕ → List Message → ℕ → ℕ
needed max_tokens h tokens = search_from (evictable h) max_tokens h tokens 0

search_from-IsNeeded :
    (n max_tokens : ℕ) (h : List Message) (tokens j k : ℕ)
    → j + n ≡ evictable h
    → j ≤ k
    → IsNeeded max_tokens h tokens k
    → search_from n max_tokens h tokens j ≡ k
search_from-IsNeeded zero m h tokens j k e le p = omega (arith, p.within)
search_from-IsNeeded (suc n) m h tokens j k e le p =
    ground (arith, p.least j, p.fits, search_from-IsNeeded n m h tokens (suc j) k (omega arith), p)

pub needed-IsNeeded :
    (max_tokens : ℕ) (h : List Message) (tokens k : ℕ)
    → IsNeeded max_tokens h tokens k
    → needed max_tokens h tokens ≡ k
needed-IsNeeded m h tokens k p =
    search_from-IsNeeded (evictable h) m h tokens 0 k (omega arith) (omega arith) p

-- The window behind the push of a message with so many evictions in all.
abbrev pub window_with : ℕ → List Message → Message → ℕ → ContextWindow
window_with max_tokens h m k = record {
  messages = forget k h ++ m ∷ [];
  max_tokens = max_tokens;
  current_tokens = total_tokens (forget k h) + m.token_count;
  total_evicted = k;
}

lt_or_add : (j k : ℕ) → (j < k) ⊎ ((i : ℕ) × (j ≡ k + i))
lt_or_add j k = elim (Bool-cases (leb k j)) [
  | inl le ↦ inr (j - k, ground arith)
  | inr lt ↦ inl (ground arith)
]

-- A window that is what is left of the history, and whose evictions were all needed.
pub record Tracks (max_tokens : ℕ) (h : List Message) (w : ContextWindow) (out : Text)
    : Type 0 where
  pub view : IsView h w out
  pub limit : w.max_tokens ≡ max_tokens
  pub all_needed : (j : ℕ) → j < w.total_evicted → max_tokens < total_tokens (forget j h)

module _ (max_tokens : ℕ) (role : Role) (content : Text) (h : List Message) (w : ContextWindow)
    (out : Text) (t : Tracks max_tokens h w out)
    (tokens : total_tokens h + estimate_tokens content < usize_mod)
    (few : length h < usize_mod) where
  abbrev pub v : ContextWindow
  v = (push_message role content w).0

  after : IsView (h ++ message_for role content ∷ []) v (out ++ (push_message role content w).1)
  after = push_message-IsView role content h w out t.view tokens few

  module _ (d : ℕ) (log : Text) (p : Pushed d role content w v log) where
    count : v.total_evicted ≡ w.total_evicted + d
    count = counted_all role content h w out t.view tokens few d v log p

    enough : w.total_evicted + d ≤ evictable h
    enough = more_within role content h w out t.view tokens few d v log p

    forget_more : (i : ℕ) → forget i w.messages ≡ forget (w.total_evicted + i) h
    forget_more i = ap (forget i) t.view.shows ∙ forget-add w.total_evicted i h

    too_many :
        (j : ℕ)
        → j < w.total_evicted + d
        → max_tokens < total_tokens (forget j h) + estimate_tokens content
    too_many j lt = elim (lt_or_add j w.total_evicted) [
      | inl old ↦ omega (arith, t.all_needed j old)
      | inr (i, e) ↦
          let e' : total_tokens (forget i w.messages) ≡ total_tokens (forget j h) =
            ap total_tokens (forget_more i ∙ ap (λ n. forget n h) (sym e)) in
          omega (arith, p.least i (omega arith), t.limit)
    ]

    kept : v.messages ≡ forget v.total_evicted h ++ message_for role content ∷ []
    kept =
        p.appends
        ∙ ap (λ ms. ms ++ message_for role content ∷ [])
            (forget_more d ∙ ap (λ n. forget n h) (sym count))

    tokens_kept :
        v.current_tokens ≡ total_tokens (forget v.total_evicted h) + estimate_tokens content
    tokens_kept = omega (
      arith,
      after.valid.counted,
      ap total_tokens kept,
      total_tokens-append (forget v.total_evicted h) (message_for role content ∷ []),
    )

    stuck_or_fits :
        (total_tokens (forget (w.total_evicted + d) h) + estimate_tokens content ≤ max_tokens)
        ⊎ (w.total_evicted + d ≡ evictable h)
    stuck_or_fits = elim p.fits_or_stuck [
      | inl fits ↦ inl (
          omega
            (arith, p.max_kept, t.limit, tokens_kept, ap (λ n. total_tokens (forget n h)) count))
      | inr stuck ↦ inr (
          omega (
            arith,
            sym (ap evictable (forget_more d)) ∙ stuck,
            evictable-forget (w.total_evicted + d) h enough,
          ))
    ]

    Pushed-IsNeeded : IsNeeded max_tokens h (estimate_tokens content) v.total_evicted
    Pushed-IsNeeded =
        subst (IsNeeded max_tokens h (estimate_tokens content)) (sym count)
          (record { within = enough; fits = stuck_or_fits; least = too_many })

    limit_kept : v.max_tokens ≡ max_tokens
    limit_kept = p.max_kept ∙ t.limit

    all_needed_after :
        (j : ℕ)
        → j < v.total_evicted
        → max_tokens < total_tokens (forget j (h ++ message_for role content ∷ []))
    all_needed_after j lt =
        let e : forget j (h ++ message_for role content ∷ [])
            ≡ forget j h ++ message_for role content ∷ [] =
          forget-append j h (message_for role content ∷ []) (omega (arith, count, enough)) in
        omega (
          arith,
          too_many j (omega (arith, count)),
          ap total_tokens e,
          total_tokens-append (forget j h) (message_for role content ∷ []),
        )

    Pushed-Tracks :
        Tracks max_tokens
          (h ++ message_for role content ∷ [])
          v
          (out ++ (push_message role content w).1)
    Pushed-Tracks = record { view = after; limit = limit_kept; all_needed = all_needed_after }

    Pushed-window_with :
        v
        ≡ window_with max_tokens h
            (message_for role content)
            (needed max_tokens h (estimate_tokens content))
    Pushed-window_with =
        (λ i. record {
          messages = kept i;
          max_tokens = limit_kept i;
          current_tokens = tokens_kept i;
          total_evicted = v.total_evicted;
        })
        ∙ ap (window_with max_tokens h (message_for role content)) (
            sym (
              needed-IsNeeded max_tokens h (estimate_tokens content) v.total_evicted
                Pushed-IsNeeded))

  abbrev pushed : (d : ℕ) × Pushed d role content w v (push_message role content w).1
  pushed =
      push_message_lem role content w t.view.valid
        (view_fits role content h w out t.view tokens few)

  pub push_message-Tracks :
      Tracks max_tokens
        (h ++ message_for role content ∷ [])
        v
        (out ++ (push_message role content w).1)
  push_message-Tracks = Pushed-Tracks pushed.0 _ pushed.1

  pub push_message-window_with :
      v
      ≡ window_with max_tokens h
          (message_for role content)
          (needed max_tokens h (estimate_tokens content))
  push_message-window_with = Pushed-window_with pushed.0 _ pushed.1

  pub push_message-IsNeeded : IsNeeded max_tokens h (estimate_tokens content) v.total_evicted
  push_message-IsNeeded = Pushed-IsNeeded pushed.0 _ pushed.1
