-- ===== src/Agent/Window.antt =====
-- A session with any inputs: the agent's window against the transcript of all that was said.
use llm_os_rust.Base.{
  ℕ, ◌+◌, ◌*◌, ◌≤◌, ◌≡◌, refl, ap, ◌∙◌, List, [], ◌∷◌, ◌++◌, arith, drop, Result, ok, err, Outcome,
  done, panicked, ◌>>=◌, Ensures, Ensures-if, ◌⊎◌, inl, inr,
}
use llm_os_rust.Text.{Text, codes, starts_with, splitn_two}
use llm_os_rust.Context.{ContextWindow, Role, user, assistant, tool, push_message, estimate_tokens}
use llm_os_rust.Context.Eviction.{total_tokens}
use llm_os_rust.Context.History.{push_all, history}
use llm_os_rust.Tools.{ToolRegistry, execute}
use llm_os_rust.Tools.I64.{Profile}
use llm_os_rust.Agent.{
  Agent, first_part, second_part, tool_response, handle_tool_call, tool_prefix, respond,
  record_response, process_input, processing_line,
}

-- Inputs, their responses, and the messages of the conversation: an input, the result of a tool if
-- one was called and returned without an error, and the response, which is that result then.
pub data Transcript : List Text → List Text → List (Role × Text) → Type 0 where
  nothing_said : Transcript [] [] []
  answers :
      {input response : Text} {inputs responses : List Text} {ps : List (Role × Text)}
      → Transcript inputs responses ps
      → Transcript
          (input ∷ inputs)
          (response ∷ responses)
          ((user, input) ∷ (assistant, response) ∷ ps)
  answers_by_tool :
      {input response : Text} {inputs responses : List Text} {ps : List (Role × Text)}
      → Transcript inputs responses ps
      → Transcript
          (input ∷ inputs)
          (response ∷ responses)
          ((user, input) ∷ (tool, response) ∷ (assistant, response) ∷ ps)

-- The tokens of texts.
abbrev pub spoken : List Text → ℕ
spoken [] = 0
spoken (text ∷ texts) = estimate_tokens text + spoken texts

pub Transcript-tokens :
    {inputs responses : List Text} {ps : List (Role × Text)}
    → Transcript inputs responses ps
    → total_tokens (history ps) ≤ spoken inputs + 2 * spoken responses
Transcript-tokens nothing_said = omega arith
Transcript-tokens (answers t) = omega (arith, Transcript-tokens t)
Transcript-tokens (answers_by_tool t) = omega (arith, Transcript-tokens t)

-- The window behind a response is the one before it, or it has the response of a tool.
abbrev Replied : ContextWindow → Text × Agent × Text → Type 0
Replied c q = (q.1.context ≡ c) ⊎ (q.1.context ≡ (push_message tool q.0 c).0)

tool_response-Replied :
    (a : Agent) (p : Result Text Text × ToolRegistry) → Replied a.context (tool_response a p)
unfolding tool_response
tool_response-Replied a (ok result, r) = inr refl
tool_response-Replied a (err e, r) = inl refl

handle_tool_call-Replied :
    (profile : Profile) (input : Text) (a : Agent)
    → Ensures (Replied a.context) (handle_tool_call profile input a)
unfolding handle_tool_call
handle_tool_call-Replied profile input a = answered (
    execute profile (first_part (splitn_two b' ' input)) (second_part (splitn_two b' ' input))
      a.tool_registry)
  where
    answered :
        (m : Outcome (Result Text Text × ToolRegistry))
        → Ensures (Replied a.context) (do answer ← m; done (tool_response a answer))
    answered (done p) = tool_response-Replied a p
    answered panicked = tt

module _ (percent : ℕ → ℕ → Text) (profile : Profile) where
  respond-Replied :
      (input : Text) (a : Agent) → Ensures (Replied a.context) (respond percent profile input a)
  unfolding respond
  respond-Replied input a =
      Ensures-if (Replied a.context) (starts_with input tool_prefix) _ _
        (handle_tool_call-Replied profile (drop 6 input) a)
        (Ensures-if (Replied a.context) (starts_with input (codes "/context")) _ _ (inl refl) (
          Ensures-if (Replied a.context) (starts_with input (codes "/help")) _ _ (inl refl)
            (inl refl)))

  -- What an input does to the window.
  abbrev Spoke : ContextWindow → Text → Agent × Text × Text → Type 0
  Spoke c input p =
      (p.0.context ≡ (push_all ((user, input) ∷ (assistant, p.1) ∷ []) c).0)
      ⊎ (p.0.context ≡ (push_all ((user, input) ∷ (tool, p.1) ∷ (assistant, p.1) ∷ []) c).0)

  recorded-Spoke :
      (c : ContextWindow) (input printed : Text) (m : Outcome (Text × Agent × Text))
      → Ensures (Replied (push_message user input c).0) m
      → Ensures (Spoke c input) (do answer ← m; done (record_response percent printed answer))
  unfolding record_response push_all
  recorded-Spoke c input printed (done q) (inl e) =
      inl (ap (λ d. (push_message assistant q.0 d).0) e)
  recorded-Spoke c input printed (done q) (inr e) =
      inr (ap (λ d. (push_message assistant q.0 d).0) e)
  recorded-Spoke c input printed panicked h = tt

  process_input-Spoke :
      (input : Text) (a : Agent)
      → Ensures (Spoke a.context input) (process_input percent profile input a)
  unfolding process_input
  process_input-Spoke input a =
      let c = push_message user input a.context in
      recorded-Spoke a.context input (c.1 ++ processing_line percent input)
        (respond percent profile input (record a { context = c.0 }))
        (respond-Replied input (record a { context = c.0 }))

  -- Inputs one after the other: the agent behind them, and its responses.
  unfoldable pub session : List Text → Agent → Outcome (Agent × List Text)
  session [] a = done (a, [])
  session (input ∷ inputs) a = do
    p ← process_input percent profile input a
    q ← session inputs p.0
    done (q.0, p.1 ∷ q.1)

  -- The window behind a session is the one that all of the transcript was pushed into.
  abbrev pub Recorded : ContextWindow → List Text → Agent × List Text → Type 0
  Recorded c inputs q =
      (ps : List (Role × Text)) × Transcript inputs q.1 ps × (q.0.context ≡ (push_all ps c).0)

  pub session-Recorded :
      (inputs : List Text) (a : Agent) → Ensures (Recorded a.context inputs) (session inputs a)
  unfolding session push_all
  session-Recorded [] a = ([], nothing_said, refl)
  session-Recorded (input ∷ inputs) a =
      first (process_input percent profile input a) (process_input-Spoke input a)
        (λ b. session-Recorded inputs b)
    where
      both :
          (p : Agent × Text × Text) (m : Outcome (Agent × List Text))
          → Spoke a.context input p
          → Ensures (Recorded p.0.context inputs) m
          → Ensures (Recorded a.context (input ∷ inputs)) (do q ← m; done (q.0, p.1 ∷ q.1))
      both p (done q) (inl e) (ps, t, k) =
          ((user, input) ∷ (assistant, p.1) ∷ ps, answers t, k ∙ ap (λ c. (push_all ps c).0) e)
      both p (done q) (inr e) (ps, t, k) = (
        (user, input) ∷ (tool, p.1) ∷ (assistant, p.1) ∷ ps,
        answers_by_tool t,
        k ∙ ap (λ c. (push_all ps c).0) e,
      )
      both p panicked s h = tt

      first :
          (m : Outcome (Agent × Text × Text))
          → Ensures (Spoke a.context input) m
          → ((b : Agent) → Ensures (Recorded b.context inputs) (session inputs b))
          → Ensures
              (Recorded a.context (input ∷ inputs))
              (do p ← m; q ← session inputs p.0; done (q.0, p.1 ∷ q.1))
      first (done p) s rest = both p (session inputs p.0) s (rest p.0)
      first panicked s rest = tt
