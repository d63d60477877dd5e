-- ===== src/Context/Closed.antt =====
-- Any pushes at once: what they leave and print, by what was pushed.
use mathlib.Core.Path.{subst}
use llm_os_rust.Base.{
  ℕ, ◌+◌, ◌<◌, ◌≡◌, refl, sym, ap, ◌∙◌, [], ◌∷◌, ◌++◌, arith, List, length, append_assoc,
  append-nil, length-append,
}
use llm_os_rust.Text.{Text}
use llm_os_rust.Context.{
  Role, Message, ContextWindow, estimate_tokens, usize_mod, push_message, new,
}
use llm_os_rust.Context.Eviction.{total_tokens, forget, forgotten, total_tokens-append}
use llm_os_rust.Context.Forget.{forgotten-append}
use llm_os_rust.Context.Room.{eviction_lines}
use llm_os_rust.Context.Push.{message_for, new-IsValid}
use llm_os_rust.Context.History.{history, push_all, length-le-total}
use llm_os_rust.Context.Reference.{
  IsNeeded, needed, needed-IsNeeded, window_with, Tracks, push_message-Tracks,
  push_message-window_with, push_message-IsNeeded,
}

pub push_all-append :
    (ps qs : List (Role × Text)) (w : ContextWindow)
    → push_all (ps ++ qs) w
      ≡ ((push_all qs (push_all ps w).0).0, (push_all ps w).1 ++ (push_all qs (push_all ps w).0).1)
unfolding push_all
push_all-append [] qs w = refl
push_all-append ((role, content) ∷ ps) qs w =
    let (v, log) = push_message role content w in
    rw
      (
        push_all-append ps qs v,
        append_assoc log (push_all ps v).1 (push_all qs (push_all ps v).0).1,
      )
      refl

push_all-Tracks :
    (max_tokens : ℕ) (ps : List (Role × Text)) (h : List Message) (w : ContextWindow) (out : Text)
    → Tracks max_tokens h w out
    → total_tokens h + total_tokens (history ps) < usize_mod
    → length h + length (history ps) < usize_mod
    → Tracks max_tokens (h ++ history ps) (push_all ps w).0 (out ++ (push_all ps w).1)
unfolding push_all
push_all-Tracks max_tokens [] h w out t tokens few = rw (append-nil h, append-nil out) t
push_all-Tracks max_tokens ((role, content) ∷ ps) h w out t tokens few =
    let m = message_for role content in
    let (v, log) = push_message role content w in
    let after =
      push_all-Tracks max_tokens ps (h ++ m ∷ []) v (out ++ log)
        (push_message-Tracks max_tokens role content h w out t (omega arith) (omega arith))
        (omega (arith, total_tokens-append h (m ∷ []))) (omega (arith, length-append h (m ∷ []))) in
    rw (append_assoc h (m ∷ []) (history ps), append_assoc out log (push_all ps v).1) at after

new-Tracks : (max_tokens : ℕ) → Tracks max_tokens [] (new max_tokens) []
unfolding new eviction_lines forget forgotten
new-Tracks max_tokens = record {
  view = record {
    valid = new-IsValid max_tokens;
    shows = refl;
    within = omega arith;
    logged = refl;
  };
  limit = refl;
  all_needed = λ j lt. absurd (omega arith);
}

-- What the window and the log are behind the last of the pushes, by all messages before it.
abbrev pub closed : ℕ → List Message → Message → ContextWindow × Text
closed max_tokens h m =
    let k = needed max_tokens h m.token_count in
    (window_with max_tokens h m k, eviction_lines 0 (forgotten k h))

-- After any pushes into a new window, and one more, where the tokens of all that was pushed sum
-- up to less than 2^64, the whole window and all that was printed are a function of what was
-- pushed: of the messages before the last one, the `k` oldest that are not the system's are
-- gone and were printed, in their order and numbered from one, and `k` is the least number with
-- which the rest and the last message are within the limit, or the number of all that could be
-- evicted.
pub push_all-closed :
    (max_tokens : ℕ) (ps : List (Role × Text)) (role : Role) (content : Text)
    → total_tokens (history ps) + estimate_tokens content < usize_mod
    → (push_all (ps ++ (role, content) ∷ []) (new max_tokens)
        ≡ closed max_tokens (history ps) (message_for role content))
      × IsNeeded max_tokens
          (history ps)
          (estimate_tokens content)
          (needed max_tokens (history ps) (estimate_tokens content))
unfolding push_all
push_all-closed max_tokens ps role content tokens =
    let (w, log) = push_all ps (new max_tokens) in
    let h = history ps in
    let few : length h < usize_mod = omega (arith, length-le-total ps) in
    let t : Tracks max_tokens h w log =
      push_all-Tracks max_tokens ps [] (new max_tokens) [] (new-Tracks max_tokens) (omega arith)
        (omega (arith, length-le-total ps)) in
    let is = push_message-IsNeeded max_tokens role content h w log t tokens few in
    let k = needed-IsNeeded max_tokens h (estimate_tokens content) _ is in
    let window = push_message-window_with max_tokens role content h w log t tokens few in
    let after = push_message-Tracks max_tokens role content h w log t tokens few in
    let logs =
      ap (λ s. log ++ s) (append-nil (push_message role content w).1)
      ∙ after.view.logged
      ∙ ap (eviction_lines 0) (forgotten-append _ h (message_for role content ∷ []) is.within)
      ∙ ap (λ n. eviction_lines 0 (forgotten n h)) (sym k) in
    (
      push_all-append ps ((role, content) ∷ []) (new max_tokens) ∙ (λ i. (window i, logs i)),
      subst (IsNeeded max_tokens h (estimate_tokens content)) (sym k) is,
    )
