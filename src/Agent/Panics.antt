-- ===== src/Agent/Panics.antt =====
-- When an input panics.
use llm_os_rust.Base.{
  ℕ, ◌≡◌, sym, ap, ◌∙◌, ◌↔◌, true, Bool-cases, List, ◌++◌, drop, done, panicked, ◌>>=◌, inl, inr,
}
use llm_os_rust.Text.{Text, starts_with, splitn_two, trim, split_whitespace}
use llm_os_rust.Context.{user, push_message}
use llm_os_rust.Tools.{execute, name, calculator}
use llm_os_rust.Tools.I64.{Profile}
use llm_os_rust.Tools.Panics.{Overflows, IsBooted, execute-panicked, >>=-panicked}
use llm_os_rust.Agent.{
  Agent, first_part, second_part, tool_response, handle_tool_call, tool_prefix, respond,
  record_response, process_input, processing_line,
}
use llm_os_rust.Agent.Commands.{respond-plain}

-- An input that calls the calculator with an expression that overflows.
pub record Crashes (profile : Profile) (input : Text) : Type 0 where
  pub calls_tool : starts_with input tool_prefix ≡ true
  pub calls_calculator : name calculator ≡ first_part (splitn_two b' ' (drop 6 input))
  pub overflows :
      Overflows profile (split_whitespace (trim (second_part (splitn_two b' ' (drop 6 input)))))

handle_tool_call-panicked :
    (profile : Profile) (input : Text) (a : Agent)
    → (handle_tool_call profile input a ≡ panicked) ↔ (
        execute profile
          (first_part (splitn_two b' ' input))
          (second_part (splitn_two b' ' input))
          a.tool_registry
        ≡ panicked)
unfolding handle_tool_call
handle_tool_call-panicked profile input a = (
  >>=-panicked
      (execute profile (first_part (splitn_two b' ' input)) (second_part (splitn_two b' ' input))
        a.tool_registry)
      (tool_response a),
  ap (λ m. do answer ← m; done (tool_response a answer)),
)

module _ (percent : ℕ → ℕ → Text) (profile : Profile) where
  respond-tool :
      (input : Text) (a : Agent)
      → starts_with input tool_prefix ≡ true
      → respond percent profile input a ≡ handle_tool_call profile (drop 6 input) a
  unfolding respond
  respond-tool input a h = rw h

  respond-panicked :
      (input : Text) (a : Agent)
      → IsBooted a.tool_registry
      → (respond percent profile input a ≡ panicked) ↔ Crashes profile input
  respond-panicked input a h = (there, back)
    where
      parts : List Text
      parts = splitn_two b' ' (drop 6 input)

      there : respond percent profile input a ≡ panicked → Crashes profile input
      there e = elim (Bool-cases (starts_with input tool_prefix)) [
        | inl calls ↦
            let called = sym (respond-tool input a calls) ∙ e in
            let (named, over) =
              (execute-panicked profile (first_part parts) (second_part parts) a.tool_registry h).0
                ((handle_tool_call-panicked profile (drop 6 input) a).0 called) in
            record { calls_tool = calls; calls_calculator = named; overflows = over }
        | inr plain ↦ let answered = sym (respond-plain percent profile input a plain) ∙ e in cc
      ]

      back : Crashes profile input → respond percent profile input a ≡ panicked
      back c =
          respond-tool input a c.calls_tool
          ∙ (handle_tool_call-panicked profile (drop 6 input) a).1 (
              (execute-panicked profile (first_part parts) (second_part parts) a.tool_registry h).1
                (c.calls_calculator, c.overflows))

  -- In the model, where sums of tokens wrap around and allocation succeeds, nothing else panics.
  process_input-panicked :
      (input : Text) (a : Agent)
      → IsBooted a.tool_registry
      → (process_input percent profile input a ≡ panicked) ↔ Crashes profile input
  unfolding process_input
  process_input-panicked input a h =
      let c = push_message user input a.context in
      let b : Agent = record a { context = c.0 } in
      let (there, back) = respond-panicked input b h in
      (
        λ e. there (
            >>=-panicked (respond percent profile input b)
              (record_response percent (c.1 ++ processing_line percent input)) e),
        λ k.
            ap
              (λ m. do
                answer ← m
                done (record_response percent (c.1 ++ processing_line percent input) answer))
              (back k),
      )

  -- With an agent whose registry has the tools of the boot, and whatever its window is, an
  -- input panics the kernel if it is a call of `calc` with three parts, two `i64` numbers and
  -- an operator between them that can be applied, whose result no `i64` holds, in a dev build
  -- or for a division.
  pub process_input-panics :
      (input : Text) (a : Agent)
      → IsBooted a.tool_registry
      → Crashes profile input
      → process_input percent profile input a ≡ panicked
  process_input-panics input a h c = (process_input-panicked input a h).1 c
