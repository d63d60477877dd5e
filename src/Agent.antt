-- ===== src/Agent.antt =====
-- src/agent/mod.rs: the agent runtime. A method returns the new agent, its result, and what it
-- prints to the serial port and to the screen, in the order of the writes.
pub mod Invariant
pub mod Push
pub mod Commands
pub mod Transcript
pub mod Grammar
pub mod Reading
pub mod Ideal
pub mod Session
pub mod Window
pub mod Said
pub mod Persistence
pub mod Panics
mod Tests
use llm_os_rust.Base.{
  ℕ, Bool, true, false, List, [], ◌∷◌, ◌++◌, if◌then◌else◌, drop, Result, ok, err, Outcome, done,
  ◌>>=◌,
}
use llm_os_rust.Text.{Text, codes, starts_with, splitn_two}
use llm_os_rust.Text.Decimal.{format_u64}
use llm_os_rust.Context
use llm_os_rust.Context.{ContextWindow, Role, system, user, assistant, tool, push_message, status}
use llm_os_rust.Tools
use llm_os_rust.Tools.{
  ToolRegistry, calculator, memory_store, memory_recall, echo, register, execute, tool_count,
  tool_names, debug_names,
}
use llm_os_rust.Tools.I64.{Profile}

pub record Agent : Type 0 where
  pub context : ContextWindow
  pub tool_registry : ToolRegistry

-- What went to the serial port and what to the screen.
pub record Printed : Type 0 where
  pub serial : Text
  pub screen : Text

-- `Agent::new`
unfoldable pub new : Agent
new = record { context = Context.new 4096; tool_registry = Tools.new }

unfoldable pub system_prompt : Text
system_prompt =
    codes
      "You are an AI agent running as the sole process on a bare-metal x86_64 operating system. You have access to tools for calculation, memory storage, and memory recall. Process user input and respond helpfully."

-- The four `register` calls of `boot`.
unfoldable pub register_tools : ToolRegistry → ToolRegistry
register_tools r =
    register echo (register memory_recall (register memory_store (register calculator r)))

unfoldable pub boot_serial : Text → ContextWindow → ToolRegistry → Text
boot_serial evictions c r =
    codes "[agent] Booting agent...\n"
    ++ (evictions
        ++ (codes "[agent] System prompt loaded ("
            ++ (format_u64 c.current_tokens
                ++ (codes " tokens used)\n[agent] "
                    ++ (format_u64 (tool_count r)
                        ++ (codes " tools registered: "
                            ++ (debug_names (tool_names r) ++ codes "\n")))))))

unfoldable pub boot_screen : ContextWindow → ToolRegistry → Text
boot_screen c r =
    codes "  Tools: "
    ++ (format_u64 (tool_count r)
        ++ (codes "\n  Context: "
            ++ (format_u64 c.current_tokens
                ++ (codes "/" ++ (format_u64 c.max_tokens ++ codes " tokens\n")))))

unfoldable pub boot : Agent → Agent × Printed
boot a =
    let (c, evictions) = push_message system system_prompt a.context in
    let r = register_tools a.tool_registry in
    (
      record { context = c; tool_registry = r },
      record { serial = boot_serial evictions c r; screen = boot_screen c r },
    )

-- The first part of `splitn(2, ' ')`, or the empty text.
unfoldable pub first_part : List Text → Text
first_part [] = []
first_part (name ∷ parts) = name

-- The second part, or the empty text.
unfoldable pub second_part : List Text → Text
second_part (name ∷ args ∷ parts) = args
second_part _ = []

-- The arms of `handle_tool_call`, with what they print.
unfoldable pub tool_response : Agent → Result Text Text × ToolRegistry → Text × Agent × Text
tool_response a (ok result, r) =
    let (c, out) = push_message tool result a.context in
    (result, record { context = c; tool_registry = r }, out)
tool_response a (err e, r) = (codes "Tool error: " ++ e, record a { tool_registry = r }, [])

unfoldable pub handle_tool_call : Profile → Text → Agent → Outcome (Text × Agent × Text)
handle_tool_call profile input a =
    let parts = splitn_two b' ' input in
    do
      answer ← execute profile (first_part parts) (second_part parts) a.tool_registry
      done (tool_response a answer)

abbrev pub tool_prefix : Text
tool_prefix = codes "/tool "

unfoldable pub help : Text
help =
    codes
      "Available commands:\n/tool <name> <args>  — invoke a tool\n/context             — show context window status\n/help                — show this help\n(anything else)      — echoed back (LLM inference not yet connected)"

-- `percent` is the percentage that `status` prints.
module _ (percent : ℕ → ℕ → Text) where
  -- The response to an input. The prefix that is cut off has six bytes, one for each character.
  unfoldable pub respond : Profile → Text → Agent → Outcome (Text × Agent × Text)
  respond profile input a =
      if starts_with input tool_prefix
      then handle_tool_call profile (drop 6 input) a
      else if starts_with input (codes "/context")
      then done (status percent a.context, a, [])
      else if starts_with input (codes "/help")
      then done (help, a, [])
      else done (codes "[echo] " ++ input, a, [])

  unfoldable pub record_response : Text → Text × Agent × Text → Agent × Text × Text
  record_response printed (response, a, out) =
      let (c, evictions) = push_message assistant response a.context in
      (record a { context = c }, response, printed ++ (out ++ evictions))

  unfoldable pub processing_line : Text → Text
  processing_line input = codes "[agent] Processing input: " ++ (input ++ codes "\n")

  -- `process_input`: the new agent, the response, and what goes to the serial port
  unfoldable pub process_input : Profile → Text → Agent → Outcome (Agent × Text × Text)
  process_input profile input a =
      let (c, evictions) = push_message user input a.context in
      do
        answer ← respond profile input (record a { context = c })
        done (record_response (evictions ++ processing_line input) answer)
