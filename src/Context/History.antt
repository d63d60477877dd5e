-- ===== src/Context/History.antt =====
-- The window and its log against the history of all pushes.
use llm_os_rust.Base.{
  ℕ, ◌+◌, ◌≤◌, ◌<◌, ◌≡◌, refl, sym, ap, ◌∙◌, [], ◌∷◌, ◌++◌, arith, List, length, append_assoc,
  append-nil, length-append,
}
use llm_os_rust.Text.{Text}
use llm_os_rust.Context.{
  Role, Message, ContextWindow, estimate_tokens, usize_mod, push_message, new,
}
use llm_os_rust.Context.Eviction.{
  total_tokens, forget, forgotten, evictable, evictable-length, total_tokens-append,
}
use llm_os_rust.Context.Forget.{
  forget-append, forgotten-append, evictable-append, forget-add, forgotten-add, evictable-forget,
  length-forgotten, eviction_lines-append,
}
use llm_os_rust.Context.Push.{
  IsValid, new-IsValid, message_for, Pushed, push_message_lem, push_message-IsValid,
  total_tokens-forget,
}
use llm_os_rust.Context.Room.{eviction_lines}

-- `w` and the log `out` are what is left of the history `h`: the window is the history without its
-- oldest evictable messages, as many as it counts, and the log has their lines.
pub record IsView (h : List Message) (w : ContextWindow) (out : Text) : Type 0 where
  pub valid : IsValid w
  pub shows : w.messages ≡ forget w.total_evicted h
  pub within : w.total_evicted ≤ evictable h
  pub logged : out ≡ eviction_lines 0 (forgotten w.total_evicted h)

module _ (role : Role) (content : Text) (h : List Message) (w : ContextWindow) (out : Text)
    (view : IsView h w out) (tokens : total_tokens h + estimate_tokens content < usize_mod)
    (few : length h < usize_mod) where
  pub view_fits : w.current_tokens + estimate_tokens content < usize_mod
  view_fits =
      omega (
        arith,
        view.valid.counted,
        ap total_tokens view.shows,
        total_tokens-forget w.total_evicted h,
      )

  module _ (k : ℕ) (v : ContextWindow) (log : Text) (p : Pushed k role content w v log) where
    pub more_within : w.total_evicted + k ≤ evictable h
    more_within =
        omega
          (arith, p.within, ap evictable view.shows, evictable-forget w.total_evicted h view.within)

    pub counted_all : v.total_evicted ≡ w.total_evicted + k
    counted_all = omega (arith, p.counts_evicted, more_within, evictable-length h)

    shows_after : v.messages ≡ forget v.total_evicted (h ++ message_for role content ∷ [])
    shows_after =
        p.appends
        ∙ ap (λ ms. forget k ms ++ message_for role content ∷ []) view.shows
        ∙ ap (λ ms. ms ++ message_for role content ∷ []) (forget-add w.total_evicted k h)
        ∙ sym (forget-append (w.total_evicted + k) h (message_for role content ∷ []) more_within)
        ∙ ap (λ n. forget n (h ++ message_for role content ∷ [])) (sym counted_all)

    logged_after :
        out ++ log
        ≡ eviction_lines 0 (forgotten v.total_evicted (h ++ message_for role content ∷ []))
    logged_after =
        ap (λ s. s ++ log) view.logged
        ∙ ap (λ s. eviction_lines 0 (forgotten w.total_evicted h) ++ s)
            (p.logs
              ∙ ap (λ ms. eviction_lines w.total_evicted (forgotten k ms)) view.shows
              ∙ ap (λ n. eviction_lines n (forgotten k (forget w.total_evicted h)))
                  (omega (arith, length-forgotten w.total_evicted h view.within)))
        ∙ sym (
            eviction_lines-append 0 (forgotten w.total_evicted h)
              (forgotten k (forget w.total_evicted h))
              (omega (
                arith,
                length-forgotten w.total_evicted h view.within,
                view.within,
                evictable-length h,
              )))
        ∙ ap (eviction_lines 0) (sym (forgotten-add w.total_evicted k h))
        ∙ ap (eviction_lines 0) (
            sym (
              forgotten-append (w.total_evicted + k) h (message_for role content ∷ []) more_within))
        ∙ ap (λ n. eviction_lines 0 (forgotten n (h ++ message_for role content ∷ [])))
            (sym counted_all)

    Pushed-IsView : IsValid v → IsView (h ++ message_for role content ∷ []) v (out ++ log)
    Pushed-IsView valid = record {
      valid = valid;
      shows = shows_after;
      within =
          omega
            (arith, counted_all, more_within, evictable-append h (message_for role content ∷ []));
      logged = logged_after;
    }

  pub push_message-IsView :
      IsView
        (h ++ message_for role content ∷ [])
        (push_message role content w).0
        (out ++ (push_message role content w).1)
  push_message-IsView =
      let (k, p) = push_message_lem role content w view.valid view_fits in
      Pushed-IsView k _ _ p (push_message-IsValid role content w view.valid view_fits)

-- Pushes one after the other, with all that they print.
unfoldable pub push_all : List (Role × Text) → ContextWindow → ContextWindow × Text
push_all [] w = (w, [])
push_all ((role, content) ∷ ps) w =
    let (v, out) = push_message role content w in let (u, rest) = push_all ps v in (u, out ++ rest)

-- All messages that were ever pushed.
abbrev pub history : List (Role × Text) → List Message
history [] = []
history ((role, content) ∷ ps) = message_for role content ∷ history ps

push_all-IsView :
    (ps : List (Role × Text)) (h : List Message) (w : ContextWindow) (out : Text)
    → IsView h w out
    → total_tokens h + total_tokens (history ps) < usize_mod
    → length h + length (history ps) < usize_mod
    → IsView (h ++ history ps) (push_all ps w).0 (out ++ (push_all ps w).1)
unfolding push_all
push_all-IsView [] h w out view tokens few = rw (append-nil h, append-nil out) view
push_all-IsView ((role, content) ∷ ps) h w out view tokens few =
    let m = message_for role content in
    let (v, log) = push_message role content w in
    let after =
      push_all-IsView ps (h ++ m ∷ []) v (out ++ log)
        (push_message-IsView role content h w out view (omega arith) (omega arith))
        (omega (arith, total_tokens-append h (m ∷ []))) (omega (arith, length-append h (m ∷ []))) in
    rw (append_assoc h (m ∷ []) (history ps), append_assoc out log (push_all ps v).1) at after

pub length-le-total : (ps : List (Role × Text)) → length (history ps) ≤ total_tokens (history ps)
unfolding estimate_tokens
length-le-total [] = omega arith
length-le-total ((role, content) ∷ ps) = ground (arith, length-le-total ps)

-- After any pushes into a new window, where the tokens of all that was pushed sum up to less
-- than 2^64, the window is well formed and is the history of all pushes without its oldest
-- messages that are not the system's, as many as `total_evicted` counts; and what was printed
-- are the eviction lines of just these messages, in their order and numbered from one.
pub push_all_lem :
    (max_tokens : ℕ) (ps : List (Role × Text))
    → total_tokens (history ps) < usize_mod
    → IsView (history ps) (push_all ps (new max_tokens)).0 (push_all ps (new max_tokens)).1
unfolding new eviction_lines forget forgotten
push_all_lem max_tokens ps tokens =
    push_all-IsView ps [] (new max_tokens) []
      (record { valid = new-IsValid max_tokens; shows = refl; within = omega arith; logged = refl })
      (omega arith) (omega (arith, length-le-total ps))
