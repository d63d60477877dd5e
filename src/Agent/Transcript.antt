-- ===== src/Agent/Transcript.antt =====
-- What the window holds behind a processed input.
use llm_os_rust.Base.{
  ℕ, suc, ◌≡◌, refl, List, [], ◌∷◌, ◌++◌, length, Outcome, done, panicked, ◌>>=◌, Ensures,
  Ensures-done,
}
use llm_os_rust.Text.{Text}
use llm_os_rust.Context.{
  ContextWindow, Role, Message, user, assistant, push_message, push_back, make_room,
  estimate_tokens,
}
use llm_os_rust.Context.Push.{message_for}
use llm_os_rust.Tools.I64.{Profile}
use llm_os_rust.Agent.{Agent, respond, record_response, process_input, processing_line}

-- The window ends with the message.
abbrev pub EndsWith : Message → ContextWindow → Type 0
EndsWith m c = (front : List Message) × (c.messages ≡ front ++ m ∷ [])

push_message-EndsWith :
    (role : Role) (content : Text) (c : ContextWindow)
    → EndsWith (message_for role content) (push_message role content c).0
unfolding push_message push_back
push_message-EndsWith role content c =
    ((make_room (suc (length c.messages)) (estimate_tokens content) c).0.messages, refl)

module _ (percent : ℕ → ℕ → Text) where
  abbrev Recorded : Agent × Text × Text → Type 0
  Recorded p = EndsWith (message_for assistant p.1) p.0.context

  recorded :
      (printed : Text) (m : Outcome (Text × Agent × Text))
      → Ensures Recorded (do answer ← m; done (record_response percent printed answer))
  unfolding record_response
  recorded printed (done p) = push_message-EndsWith assistant p.0 p.1.context
  recorded printed panicked = tt

  -- Where `process_input` returns, its response is the last message of the window, under the
  -- role of the assistant, whatever had to be evicted for it.
  pub process_input_records :
      (profile : Profile) (input : Text) (a : Agent) (p : Agent × Text × Text)
      → process_input percent profile input a ≡ done p
      → EndsWith (message_for assistant p.1) p.0.context
  unfolding process_input
  process_input_records profile input a p e =
      let c = push_message user input a.context in
      Ensures-done Recorded p
        (recorded (c.1 ++ processing_line percent input)
          (respond percent profile input (record a { context = c.0 })))
        e
