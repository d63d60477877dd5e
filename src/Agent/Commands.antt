-- ===== src/Agent/Commands.antt =====
-- What the agent answers to the commands, through the parsing of the input.
use llm_os_rust.Base.{
  ℕ, ◌≡◌, refl, ap, ◌∙◌, Bool, true, false, [], ◌∷◌, ◌++◌, if◌then◌else◌, Result, ok, err, Outcome,
  done, panicked, ◌>>=◌, ◌⊎◌,
}
use llm_os_rust.Text.{Text, codes, starts_with, trim}
use llm_os_rust.Text.Equality.{starts_with-append, text_eq_refl}
use llm_os_rust.Text.Pieces.{Lacks, splitn_two-append}
use llm_os_rust.BTreeMap.{get-insert}
use llm_os_rust.Context
use llm_os_rust.Context.{ContextWindow, user, assistant, push_message, status}
use llm_os_rust.Tools.{ToolRegistry, execute, name, calculator, stored, recalled, run_tool}
use llm_os_rust.Tools.I64.{Profile}
use llm_os_rust.Tools.I64
use llm_os_rust.Base.Int.{ℤ}
use llm_os_rust.Tools.Memory.{HasTools, execute-store, execute-recall, execute-name, remember}
use llm_os_rust.Tools.Calculator.{Operator, over, expression, value, Applies}
use llm_os_rust.Tools.Overflow.{exec_calculator_overflow}
use llm_os_rust.Text.Decimal.RoundTrip.{IsI64}
use llm_os_rust.Agent.{
  Agent, first_part, second_part, tool_response, handle_tool_call, tool_prefix, help, respond,
  record_response, process_input, processing_line,
}

-- The input that calls a tool.
abbrev pub tool_call : Text → Text → Text
tool_call tool args = tool_prefix ++ (tool ++ b' ' ∷ args)

-- The response to a call of a tool that returned.
abbrev pub response_of : Result Text Text → Text
response_of (ok result) = result
response_of (err e) = codes "Tool error: " ++ e

-- The window behind a call: a result is pushed into it, an error is not.
abbrev pub after_call : Result Text Text → ContextWindow → ContextWindow
after_call (ok result) c = (push_message Context.tool result c).0
after_call (err e) c = c

handle_tool_call-parts :
    (profile : Profile) (tool args : Text) (a : Agent)
    → Lacks b' ' tool
    → handle_tool_call profile (tool ++ b' ' ∷ args) a
      ≡ (do answer ← execute profile tool args a.tool_registry; done (tool_response a answer))
unfolding handle_tool_call first_part second_part
handle_tool_call-parts profile tool args a lacks = rw (splitn_two-append b' ' tool args lacks)

tool_response_lem :
    (a : Agent) (result : Result Text Text) (r : ToolRegistry)
    → ((tool_response a (result, r)).0 ≡ response_of result)
      × ((tool_response a (result, r)).1.tool_registry ≡ r)
      × ((tool_response a (result, r)).1.context ≡ after_call result a.context)
unfolding tool_response
tool_response_lem a (ok result) r = (refl, refl, refl)
tool_response_lem a (err e) r = (refl, refl, refl)

recall_own :
    (profile : Profile) (key text : Text) (r : ToolRegistry)
    → HasTools r
    → trim key ≡ key
    → execute profile (codes "recall") key (remember key text r)
      ≡ done (ok (key ++ (codes " = " ++ text)), remember key text r)
unfolding name recalled
recall_own profile key text r h trimmed =
    execute-recall profile (remember key text r) key h
    ∙ rw (trimmed, get-insert key key text r.memory, text_eq_refl key)

module _ (percent : ℕ → ℕ → Text) (profile : Profile) where
  respond-tool_call :
      (tool args : Text) (a : Agent)
      → Lacks b' ' tool
      → respond percent profile (tool_call tool args) a
        ≡ (do answer ← execute profile tool args a.tool_registry; done (tool_response a answer))
  unfolding respond
  respond-tool_call tool args a lacks =
      rw (starts_with-append tool_prefix (tool ++ b' ' ∷ args))
        (handle_tool_call-parts profile tool args a lacks)

  -- For a tool name without spaces and a call that `execute` answers, `process_input`
  -- returns: its response is the result of the tool or `Tool error: ` with the error, the
  -- registry is the one that the tool left, and the window got the input, then a result, but
  -- not an error, under the role of the tool, and then the response.
  pub process_input-tool_call :
      (tool args : Text) (a : Agent) (result : Result Text Text) (r : ToolRegistry)
      → Lacks b' ' tool
      → execute profile tool args a.tool_registry ≡ done (result, r)
      → (p : Agent × Text × Text) × (process_input percent profile (tool_call tool args) a ≡ done p)
        × (p.1 ≡ response_of result)
        × (p.0.tool_registry ≡ r)
        × (p.0.context
            ≡ (push_message assistant
                (response_of result)
                (after_call result (push_message user (tool_call tool args) a.context).0)).0)
  unfolding process_input record_response
  process_input-tool_call tool args a result r lacks e =
      let input = tool_call tool args in
      let c = push_message user input a.context in
      let b : Agent = record a { context = c.0 } in
      let (text, left, kept) = tool_response_lem b result r in
      (
        record_response percent (c.1 ++ processing_line percent input)
            (tool_response b (result, r)),
        rw (respond-tool_call tool args b lacks) (rw e),
        text,
        left,
        ap (λ s. (push_message assistant s (tool_response b (result, r)).1.context).0) text
            ∙ ap (λ w. (push_message assistant (response_of result) w).0) kept,
      )

  -- A call of a tool that panics takes the kernel with it.
  pub process_input_panics :
      (tool args : Text) (a : Agent)
      → Lacks b' ' tool
      → execute profile tool args a.tool_registry ≡ panicked
      → process_input percent profile (tool_call tool args) a ≡ panicked
  unfolding process_input
  process_input_panics tool args a lacks e =
      let b : Agent = record a {
        context = (push_message user (tool_call tool args) a.context).0;
      } in
      rw (respond-tool_call tool args b lacks) (rw e)

  -- The answer to an input that calls no tool, by the window that holds the input.
  abbrev pub plain_response : Text → ContextWindow → Text
  plain_response input c =
      if starts_with input (codes "/context")
      then status percent c
      else if starts_with input (codes "/help")
      then help
      else codes "[echo] " ++ input

  pub respond-plain :
      (input : Text) (a : Agent)
      → starts_with input tool_prefix ≡ false
      → respond percent profile input a ≡ done (plain_response input a.context, a, [])
  unfolding respond
  respond-plain input a h =
      rw h (choose _ _ _ (starts_with input (codes "/context")) (starts_with input (codes "/help")))
    where
      choose :
          (x y z : Text) (b c : Bool)
          → ◌≡◌ {A = Outcome (Text × Agent × Text)}
              (if b then done (x, a, []) else if c then done (y, a, []) else done (z, a, []))
              (done (if b then x else if c then y else z, a, []))
      choose x y z true c = refl
      choose x y z false true = refl
      choose x y z false false = refl

  -- An input that does not start with `/tool ` is always answered: with the status of the
  -- window that holds it, with the help, or with its echo. The registry stays as it is.
  pub process_input_plain :
      (input : Text) (a : Agent)
      → starts_with input tool_prefix ≡ false
      → (p : Agent × Text × Text) × (process_input percent profile input a ≡ done p)
        × (p.1 ≡ plain_response input (push_message user input a.context).0)
        × (p.0.tool_registry ≡ a.tool_registry)
  unfolding process_input record_response
  process_input_plain input a h =
      let c = push_message user input a.context in
      let b : Agent = record a { context = c.0 } in
      (
        record_response percent (c.1 ++ processing_line percent input)
            (plain_response input c.0, b, []),
        rw (respond-plain input b h),
        refl,
        refl,
      )

  -- The answers to two inputs in a row, the second to the agent that the first left.
  abbrev pub second_answer : Text → Text → Agent → Outcome Text
  second_answer first second a = do
    p ← process_input percent profile first a
    q ← process_input percent profile second p.0
    done q.1

  -- On an agent that has its tools, and for a key without spaces that trimming does not
  -- change, an input that stores a text under the key and then an input that recalls the key
  -- both return, and the response to the second is the key, an equals sign and the text.
  pub process_input_recalls :
      (key text : Text) (a : Agent)
      → HasTools a.tool_registry
      → Lacks b' ' key
      → trim key ≡ key
      → second_answer
          (tool_call (codes "store") (key ++ b' ' ∷ text))
          (tool_call (codes "recall") key)
          a
        ≡ done (key ++ (codes " = " ++ text))
  unfolding name
  process_input_recalls key text a h lacks trimmed =
      let r = remember key text a.tool_registry in
      let (p, stores, _, left, _) =
        process_input-tool_call (codes "store") (key ++ b' ' ∷ text) a (ok (stored key text)) r
          (refl, (refl, (refl, (refl, (refl, tt)))))
          (execute-store profile a.tool_registry key text h lacks) in
      let (q, recalls, answer, _, _) =
        process_input-tool_call (codes "recall") key p.0 (ok (key ++ (codes " = " ++ text))) r
          (refl, (refl, (refl, (refl, (refl, (refl, tt))))))
          (ap (λ s. execute profile (codes "recall") key s) left
            ∙ recall_own profile key text a.tool_registry h trimmed) in
      rw stores (rw recalls (ap done answer))

  -- On an agent that has its tools, an input that has the calculator apply an operator to two
  -- `i64` numbers, no division by zero, panics if the exact result is out of range and either
  -- the build is a dev build or the operator is the division.
  pub process_input_calculator_panics :
      (o : Operator) (x y : ℤ) (a : Agent)
      → HasTools a.tool_registry
      → IsI64 x
      → IsI64 y
      → Applies o y
      → I64.in_range (value o x y) ≡ false
      → (profile ≡ I64.dev) ⊎ (o ≡ over)
      → process_input percent profile (tool_call (codes "calc") (expression x o y)) a ≡ panicked
  unfolding name run_tool
  process_input_calculator_panics o x y a h hx hy applies out why =
      process_input_panics (codes "calc") (expression x o y) a (refl, (refl, (refl, (refl, tt))))
        (execute-name profile calculator (expression x o y) a.tool_registry h
          ∙ (rw (exec_calculator_overflow profile o x y hx hy applies out why)))
