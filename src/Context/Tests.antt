-- ===== src/Context/Tests.antt =====
-- Runs of the context window on small inputs.
use llm_os_rust.Base.{ℕ, ◌+◌, ◌≤◌, ◌<◌, ◌≡◌, refl, [], ◌∷◌, ◌++◌, arith, List}
use llm_os_rust.Text.{Text, codes}
use llm_os_rust.Context.{
  Message, ContextWindow, system, user, assistant, estimate_tokens, make_room, push_message,
  evict_oldest, new, usize_mod, Role, tool,
}
use llm_os_rust.Context.Eviction.{system_only, evictable}
use llm_os_rust.Context.Push.{IsValid, Pushed, message_for, push_message_lem, push_message-IsValid}
use llm_os_rust.Context.Bounds.{
  make_room_rounds, push_message-system_only, push_message_bounded, push_message_oversize,
}
use llm_os_rust.Context.History.{push_all, history}
use llm_os_rust.Context.Reference.{IsNeeded, needed}
use llm_os_rust.Context.Closed.{closed, push_all-closed}

-- Three tokens for the system, two for the user, and a limit of six.
abbrev window : ContextWindow
window = record {
  messages =
      record { role = system; content = codes "system prompt"; token_count = 3 }
      ∷ (record { role = user; content = codes "hello world"; token_count = 2 })
      ∷ [];
  max_tokens = 6;
  current_tokens = 5;
  total_evicted = 0;
}

abbrev reply : Text
reply = codes "twelve bytes"

window-IsValid : IsValid window
unfolding estimate_tokens
window-IsValid = record { counted = refl; estimated = (refl, (refl, tt)); evicted = omega arith }

reply_fits : window.current_tokens + estimate_tokens reply < usize_mod
unfolding estimate_tokens
reply_fits = omega arith

evicts_the_user :
    (push_message assistant reply window).1
    ≡ codes "[context] Evicted user message (2 tokens). Total evicted: 1\n"
unfolding push_message make_room estimate_tokens llm_os_rust.Context.eviction_line
evicts_the_user = refl

new_message_stays : (push_message assistant reply window).0.current_tokens ≡ 6
unfolding push_message llm_os_rust.Context.push_back llm_os_rust.Context.usize_add make_room
    estimate_tokens
new_message_stays = refl

push_message_lem_example :
    (k : ℕ) × Pushed k assistant reply window
      (push_message assistant reply window).0
      (push_message assistant reply window).1
push_message_lem_example = push_message_lem assistant reply window window-IsValid reply_fits

push_message-IsValid_example : IsValid (push_message assistant reply window).0
push_message-IsValid_example = push_message-IsValid assistant reply window window-IsValid reply_fits

push_message-system_only_example :
    system_only (push_message assistant reply window).0.messages
    ≡ system_only window.messages ++ system_only (message_for assistant reply ∷ [])
push_message-system_only_example =
    push_message-system_only assistant reply window window-IsValid reply_fits

push_message_bounded_example : (push_message assistant reply window).0.current_tokens ≤ 6
unfolding estimate_tokens system_only
push_message_bounded_example =
    push_message_bounded assistant reply window window-IsValid reply_fits (omega arith)

abbrev long : Text
long = codes "a message of more than twenty-eight bytes"

long_fits : window.current_tokens + estimate_tokens long < usize_mod
unfolding estimate_tokens
long_fits = omega arith

push_message_oversize_example : 6 < (push_message user long window).0.current_tokens
unfolding estimate_tokens
push_message_oversize_example =
    push_message_oversize user long window window-IsValid long_fits (omega arith)

abbrev word : Text
word = codes "ok"

make_room_rounds_example : make_room 2 4 window ≡ make_room 9 4 window
unfolding evictable
make_room_rounds_example = make_room_rounds 2 9 4 window (omega arith) (omega arith)

-- Five pushes into a window of six tokens.
abbrev pushes : List (Role × Text)
pushes =
    (system, codes "system prompt")
    ∷ (user, codes "hello world")
    ∷ (assistant, reply)
    ∷ (tool, codes "[store] Stored")
    ∷ (user, word)
    ∷ []

push_all-closed_example :
    (push_all (pushes ++ (user, word) ∷ []) (new 6)
      ≡ closed 6 (history pushes) (message_for user word))
    × IsNeeded 6
        (history pushes)
        (estimate_tokens word)
        (needed 6 (history pushes) (estimate_tokens word))
unfolding estimate_tokens
push_all-closed_example = push_all-closed 6 pushes user word (omega arith)

closed_window : (closed 6 (history pushes) (message_for user word)).0 ≡ record {
  messages =
      message_for system (codes "system prompt")
      ∷ message_for user word
      ∷ message_for user word
      ∷ [];
  max_tokens = 6;
  current_tokens = 5;
  total_evicted = 3;
}
unfolding estimate_tokens llm_os_rust.Context.Eviction.forget evictable
closed_window = refl

three_are_evicted : (push_all pushes (new 6)).0.total_evicted ≡ 3
unfolding new push_all push_message llm_os_rust.Context.push_back llm_os_rust.Context.usize_add
    make_room estimate_tokens
three_are_evicted = refl
