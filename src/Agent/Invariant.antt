-- ===== src/Agent/Invariant.antt =====
-- The invariant of the agent, from `boot` on.
use llm_os_rust.Base.{
  ℕ, ◌+◌, ◌≤◌, ◌<◌, ◌≡◌, refl, ◌∙◌, ◌++◌, arith, Result, ok, err, Outcome, done, panicked, ◌>>=◌,
  Ensures, Ensures-done, drop, Ensures-if,
}
use llm_os_rust.Text.{Text, codes, starts_with, splitn_two}
use llm_os_rust.Context
use llm_os_rust.Context.{
  ContextWindow, system, user, assistant, tool, is_system, estimate_tokens, push_message, usize_mod,
}
use llm_os_rust.Context.Eviction.{system_only}
use llm_os_rust.Context.Push.{new-IsValid, push_message-IsValid, push_message_lem}
use llm_os_rust.Context.Bounds.{push_message-system_only, push_message_bounded}
use llm_os_rust.Tools.{ToolRegistry, execute}
use llm_os_rust.Tools.I64.{Profile}
use llm_os_rust.Tools.Memory.{execute-IsValid, booted-IsValid}
use llm_os_rust.Tools.Memory as Registry
use llm_os_rust.Agent.{
  Agent, new, boot, system_prompt, register_tools, first_part, second_part, tool_response,
  handle_tool_call, tool_prefix, respond, record_response, process_input, processing_line,
}
use llm_os_rust.Agent.Push.{Fits, IsRunningWindow, push_message-IsRunningWindow, prompt_tokens}

pub record IsRunning (a : Agent) : Type 0 where
  pub window : IsRunningWindow a.context
  pub registry : Registry.IsValid a.tool_registry

abbrev empty_window : ContextWindow
empty_window = Context.new 4096

prompt_fits : empty_window.current_tokens + estimate_tokens system_prompt < usize_mod
unfolding Context.new
prompt_fits = omega (arith, prompt_tokens)

prompt_within : (push_message system system_prompt empty_window).0.current_tokens ≤ 4096
unfolding Context.new system_only
prompt_within =
    push_message_bounded system system_prompt empty_window (new-IsValid 4096) prompt_fits
      (omega (arith, prompt_tokens))

booted_window : IsRunningWindow (push_message system system_prompt empty_window).0
booted_window = record {
  valid = push_message-IsValid system system_prompt empty_window (new-IsValid 4096) prompt_fits;
  limit =
      (push_message_lem system system_prompt empty_window (new-IsValid 4096) prompt_fits).1.max_kept
      ∙ (unfold Context.new in refl);
  prompt =
      push_message-system_only system system_prompt empty_window (new-IsValid 4096) prompt_fits
      ∙ (unfold Context.new system_only in refl);
  light = omega (arith, prompt_within);
}

-- Booting a new agent establishes the invariant of the agent.
pub boot-IsRunning : IsRunning (boot new).0
unfolding boot new register_tools
boot-IsRunning = record { window = booted_window; registry = booted-IsValid }

-- The response to an input, with the agent that it leaves.
abbrev Responded : Text × Agent × Text → Type 0
Responded p = Fits p.0 → IsRunning p.1

tool_response-Responded :
    (a : Agent) (p : Result Text Text × ToolRegistry)
    → IsRunningWindow a.context
    → Registry.IsValid p.1
    → Responded (tool_response a p)
unfolding tool_response
tool_response-Responded a (ok result, r) h v fits = record {
  window = push_message-IsRunningWindow tool result a.context h (unfold is_system in refl) fits;
  registry = v;
}
tool_response-Responded a (err e, r) h v fits = record { window = h; registry = v }

answered-Responded :
    (a : Agent) (m : Outcome (Result Text Text × ToolRegistry))
    → IsRunningWindow a.context
    → ((p : Result Text Text × ToolRegistry) → m ≡ done p → Registry.IsValid p.1)
    → Ensures Responded (do answer ← m; done (tool_response a answer))
answered-Responded a (done p) h v = tool_response-Responded a p h (v p refl)
answered-Responded a panicked h v = tt

handle_tool_call-Responded :
    (profile : Profile) (input : Text) (a : Agent)
    → IsRunning a
    → Ensures Responded (handle_tool_call profile input a)
unfolding handle_tool_call
handle_tool_call-Responded profile input a h =
    let parts = splitn_two b' ' input in
    answered-Responded a (execute profile (first_part parts) (second_part parts) a.tool_registry)
      h.window
      (λ p.
        execute-IsValid profile (first_part parts) (second_part parts) a.tool_registry p h.registry)

module _ (percent : ℕ → ℕ → Text) where
  respond-Responded :
      (profile : Profile) (input : Text) (a : Agent)
      → IsRunning a
      → Ensures Responded (respond percent profile input a)
  unfolding respond
  respond-Responded profile input a h =
      Ensures-if Responded (starts_with input tool_prefix) _ _
        (handle_tool_call-Responded profile (drop 6 input) a h)
        (Ensures-if Responded (starts_with input (codes "/context")) _ _ (λ _. h)
          (Ensures-if Responded (starts_with input (codes "/help")) _ _ (λ _. h) (λ _. h)))

  abbrev Processed : Agent × Text × Text → Type 0
  Processed p = Fits p.1 → IsRunning p.0

  recorded-Processed :
      (printed : Text) (m : Outcome (Text × Agent × Text))
      → Ensures Responded m
      → Ensures Processed (do answer ← m; done (record_response percent printed answer))
  unfolding record_response
  recorded-Processed printed (done p) h = λ fits. record {
    window =
        push_message-IsRunningWindow assistant p.0 p.1.context (h fits).window
          (unfold is_system in refl) fits;
    registry = (h fits).registry;
  }
  recorded-Processed printed panicked h = tt

  -- Where `process_input` returns and the input and the response are shorter than 2^62 bytes,
  -- it keeps the invariant of the agent: the window and the registry are well formed, the
  -- limit is 4096, the prompt is the only system message of the window, and its tokens are at
  -- most 4096 + 2^60.
  pub process_input-IsRunning :
      (profile : Profile) (input : Text) (a : Agent) (p : Agent × Text × Text)
      → IsRunning a
      → Fits input
      → process_input percent profile input a ≡ done p
      → Fits p.1
      → IsRunning p.0
  unfolding process_input
  process_input-IsRunning profile input a p h fits e =
      let c = push_message user input a.context in
      let b : Agent = record a { context = c.0 } in
      let after : IsRunning b = record {
        window =
            push_message-IsRunningWindow user input a.context h.window (unfold is_system in refl)
              fits;
        registry = h.registry;
      } in
      Ensures-done Processed p
        (recorded-Processed (c.1 ++ processing_line percent input) (respond percent profile input b)
          (respond-Responded profile input b after))
        e
