-- ===== src/Agent/Tests.antt =====
-- Runs of the agent.
use llm_os_rust.Base.{
  ◌++◌, map, ℕ, ◌+◌, ◌<◌, ◌≡◌, refl, true, false, [], ◌∷◌, arith, Outcome, done, panicked, ok, All,
  none, inl,
}
use llm_os_rust.Base.Int.{pos}
use llm_os_rust.Text.{Text, codes, starts_with, trim, text_eq}
use llm_os_rust.Context.{assistant, user, estimate_tokens, push_message}
use llm_os_rust.Tools.I64
use llm_os_rust.Tools.{execute, name, stored, exec_calculator, recalled}
use llm_os_rust.Tools.Memory.{remember, execute-store}
use llm_os_rust.Tools.Calculator.{plus, expression}
use llm_os_rust.Agent.{
  Agent, new, boot, process_input, tool_prefix, starts_with, respond, system_prompt,
  record_response, List,
}
use llm_os_rust.Agent.Push.{Fits}
use llm_os_rust.Agent.Invariant.{IsRunning, boot-IsRunning, process_input-IsRunning}
use llm_os_rust.Agent.Commands.{after_call, tool_call, process_input-tool_call}
use llm_os_rust.Agent.Panics.{Crashes, process_input-panics}
use llm_os_rust.Tools.Panics.{IsBooted}
use llm_os_rust.Base.{◌↔◌, ap, length}
use llm_os_rust.Agent.{first_part}
use llm_os_rust.Text.{splitn_two, text_eq}
use llm_os_rust.Agent.Window.{spoken, session}
use llm_os_rust.Agent.Said.{session-closed}
use llm_os_rust.Context.{system, Role, usize_mod}
use llm_os_rust.Context.Eviction.{total_tokens}
use llm_os_rust.Context.History.{history}
use llm_os_rust.Context.Push.{message_for}
use llm_os_rust.Context.Reference.{IsNeeded, needed}
use llm_os_rust.Context.Closed.{closed}
use llm_os_rust.Base.{◌*◌}
use llm_os_rust.Agent.Grammar.{store, store_nothing, ask_status, recall, calc, unknown, say, AllAsk}
use llm_os_rust.Agent.Reading.{asked}
use llm_os_rust.Agent.Ideal.{Memory, Remembers, Represents, reply, replies, recollects, prompted}
use llm_os_rust.Agent.Persistence.{storing, recalling, Overwrites, session_recalls}
use llm_os_rust.Agent.Grammar.{Command}
use llm_os_rust.Agent.Reading.{Asks-asked}
use llm_os_rust.Agent.Session.{converse, converse-replies}

-- A percentage that is never looked at.
abbrev no_percent : ℕ → ℕ → Text
no_percent a b = codes "?"

abbrev agent : Agent
agent = (boot new).0

abbrev hello : Text
hello = codes "hello"

abbrev returned : Outcome (Agent × Text × Text) → Agent × Text × Text
returned (done p) = p
returned panicked = (agent, [], [])

abbrev greeted : Agent × Text × Text
greeted = returned (process_input no_percent I64.dev hello agent)

greeting_returns : process_input no_percent I64.dev hello agent ≡ done greeted
unfolding process_input respond starts_with record_response
greeting_returns = refl

hello-Fits : Fits hello
unfolding estimate_tokens
hello-Fits = omega arith

greeting-Fits : Fits greeted.1
unfolding process_input respond starts_with record_response estimate_tokens
greeting-Fits = omega arith

process_input-IsRunning_example : IsRunning greeted.0
process_input-IsRunning_example =
    process_input-IsRunning no_percent I64.dev hello agent greeted boot-IsRunning hello-Fits
      greeting_returns greeting-Fits

store_returns :
    execute I64.dev (codes "store") (codes "name Ada") agent.tool_registry
    ≡ done
        (ok (codes "Stored: name = Ada"), remember (codes "name") (codes "Ada") agent.tool_registry)
unfolding name stored
store_returns =
    execute-store I64.dev agent.tool_registry (codes "name") (codes "Ada")
      boot-IsRunning.registry.has_tools (refl, (refl, (refl, (refl, tt))))

process_input-tool_call_example :
    (p : Agent × Text × Text) × (process_input no_percent I64.dev
        (tool_call (codes "store") (codes "name Ada"))
        agent
      ≡ done p)
    × (p.1 ≡ codes "Stored: name = Ada")
    × (p.0.tool_registry ≡ remember (codes "name") (codes "Ada") agent.tool_registry)
    × (p.0.context
        ≡ (push_message assistant (codes "Stored: name = Ada") (
            after_call
              (ok (codes "Stored: name = Ada"))
              (push_message user
                (tool_call (codes "store") (codes "name Ada"))
                agent.context).0)).0)
process_input-tool_call_example =
    process_input-tool_call no_percent I64.dev (codes "store") (codes "name Ada") agent
      (ok (codes "Stored: name = Ada")) (remember (codes "name") (codes "Ada") agent.tool_registry)
      (refl, (refl, (refl, (refl, (refl, tt))))) store_returns

abbrev lines : List Text
lines =
    codes "/tool store name Ada"
    ∷ codes "/tool recall  name "
    ∷ codes "/tool recall age"
    ∷ codes "/tool store"
    ∷ codes "/context"
    ∷ codes "/tool calc 7 / 2"
    ∷ codes "/tool search x"
    ∷ codes "hello"
    ∷ []

-- The reading of the lines.
lines_are_read :
    map asked lines
    ≡ store (codes "name") (codes "Ada")
      ∷ recall (codes "name")
      ∷ recall (codes "age")
      ∷ store_nothing
      ∷ ask_status
      ∷ calc (codes "7 / 2")
      ∷ unknown (codes "search")
      ∷ say (codes "hello")
      ∷ []
unfolding asked starts_with text_eq name first_part splitn_two llm_os_rust.Agent.second_part trim
lines_are_read = refl

-- What the booted agent remembers.
abbrev memory : Memory
memory = record { values = λ key. none; said = (system, system_prompt) ∷ [] }

agent-Remembers : Remembers agent memory
unfolding llm_os_rust.BTreeMap.get boot llm_os_rust.Agent.register_tools llm_os_rust.Tools.register
    new llm_os_rust.Tools.new llm_os_rust.Context.History.push_all
agent-Remembers = record {
  represents = record { has_tools = refl; holds = λ key. refl };
  window = refl;
}

lines_are_answered :
    replies no_percent I64.dev memory lines
    ≡ done (
        codes "Stored: name = Ada"
        ∷ codes "name = Ada"
        ∷ codes "Tool error: Key 'age' not found in memory"
        ∷ codes "Tool error: Usage: /tool store <key> <value>"
        ∷ codes "Context Window Status:\nTokens: 101/4096 (?% full)\nMessages: 12\nEvicted: 0"
        ∷ codes "7 / 2 = 3"
        ∷ codes
            "Tool error: Unknown tool 'search'. Available: [\"calc\", \"echo\", \"recall\", \"store\"]"
        ∷ codes "[echo] hello"
        ∷ [])
unfolding replies reply exec_calculator stored recalled text_eq trim
    llm_os_rust.Text.split_whitespace llm_os_rust.Tools.calculate_parts
    llm_os_rust.Text.Decimal.parse_i64 llm_os_rust.Tools.calculate I64.is_zero I64.divide
    llm_os_rust.Tools.equation llm_os_rust.Text.Decimal.format_i64 asked starts_with name first_part
    llm_os_rust.Agent.second_part splitn_two llm_os_rust.Context.status
    llm_os_rust.Context.History.push_all push_message llm_os_rust.Context.push_back
    llm_os_rust.Context.usize_add llm_os_rust.Context.make_room llm_os_rust.Context.new
    estimate_tokens system_prompt
lines_are_answered = refl

converse-replies_example :
    AllAsk lines (map asked lines)
    × (converse no_percent I64.dev lines agent ≡ replies no_percent I64.dev memory lines)
converse-replies_example = converse-replies no_percent I64.dev lines agent memory agent-Remembers

abbrev inputs : List Text
inputs = codes "/tool echo hi" ∷ codes "hello" ∷ []

abbrev ended : Outcome (Agent × List Text) → Agent × List Text
ended (done q) = q
ended panicked = (agent, [])

abbrev spoke : Agent × List Text
spoke = ended (session no_percent I64.dev inputs agent)

session_is_answered : session no_percent I64.dev inputs agent ≡ done spoke
unfolding session process_input respond starts_with record_response
    llm_os_rust.Agent.handle_tool_call execute llm_os_rust.BTreeMap.get boot
    llm_os_rust.Agent.register_tools llm_os_rust.Tools.register llm_os_rust.BTreeMap.insert new
    llm_os_rust.Tools.new text_eq name llm_os_rust.Text.text_lt llm_os_rust.Agent.first_part
    llm_os_rust.Text.splitn_two llm_os_rust.Tools.run_tool
session_is_answered = refl

session_responses : spoke.1 ≡ codes "[echo] hi" ∷ codes "[echo] hello" ∷ []
unfolding session process_input respond starts_with record_response
    llm_os_rust.Agent.handle_tool_call llm_os_rust.Agent.tool_response execute
    llm_os_rust.BTreeMap.get boot llm_os_rust.Agent.register_tools llm_os_rust.Tools.register
    llm_os_rust.BTreeMap.insert new llm_os_rust.Tools.new text_eq name llm_os_rust.Text.text_lt
    llm_os_rust.Agent.first_part llm_os_rust.Agent.second_part llm_os_rust.Text.splitn_two
    llm_os_rust.Tools.run_tool
session_responses = refl

session_is_short : spoken (system_prompt ∷ inputs) + 2 * spoken spoke.1 < usize_mod
unfolding estimate_tokens system_prompt
session_is_short = rw session_responses (omega arith)

session-closed_example :
    (m : Memory) × (front : List (Role × Text)) × (role : Role) × (content : Text) × (recollects
        no_percent I64.dev prompted inputs
      ≡ done (m, spoke.1))
    × Represents spoke.0.tool_registry m.values
    × (m.said ≡ front ++ (role, content) ∷ [])
    × (spoke.0.context ≡ (closed 4096 (history front) (message_for role content)).0)
    × IsNeeded 4096
        (history front)
        (estimate_tokens content)
        (needed 4096 (history front) (estimate_tokens content))
session-closed_example =
    session-closed no_percent I64.dev inputs spoke session_is_answered session_is_short

agent-IsBooted : IsBooted agent.tool_registry
unfolding boot new llm_os_rust.Agent.register_tools
agent-IsBooted = refl

abbrev overflowing : Text
overflowing = codes "/tool calc 9223372036854775807 + 1"

overflowing-Crashes : Crashes I64.dev overflowing
unfolding starts_with first_part name splitn_two llm_os_rust.Text.split_whitespace trim
    llm_os_rust.Agent.second_part llm_os_rust.Tools.Calculator.symbol
    llm_os_rust.Text.Decimal.parse_i64 I64.in_range llm_os_rust.Tools.Calculator.value
    llm_os_rust.Base.Int.◌+ℤ◌
overflowing-Crashes = record {
  calls_tool = refl;
  calls_calculator = refl;
  overflows = record {
    first = codes "9223372036854775807";
    second = codes "1";
    operator = plus;
    a = pos 9_223_372_036_854_775_807;
    b = pos 1;
    three = refl;
    read_first = refl;
    read_second = refl;
    can = tt;
    out = refl;
    why = inl refl;
  };
}

process_input-panics_example : process_input no_percent I64.dev overflowing agent ≡ panicked
process_input-panics_example =
    process_input-panics no_percent I64.dev overflowing agent agent-IsBooted overflowing-Crashes

abbrev later : List Text
later = codes "hello" ∷ codes "/tool store age 36" ∷ []

abbrev chatted : Agent × List Text
chatted = ended (session no_percent I64.dev (storing (codes "name") (codes "Ada") ∷ later) agent)

chat_is_answered :
    session no_percent I64.dev (storing (codes "name") (codes "Ada") ∷ later) agent ≡ done chatted
unfolding session process_input respond starts_with record_response
    llm_os_rust.Agent.handle_tool_call execute llm_os_rust.BTreeMap.get boot
    llm_os_rust.Agent.register_tools llm_os_rust.Tools.register llm_os_rust.BTreeMap.insert new
    llm_os_rust.Tools.new text_eq name llm_os_rust.Text.text_lt llm_os_rust.Agent.first_part
    llm_os_rust.Text.splitn_two llm_os_rust.Tools.run_tool llm_os_rust.Agent.tool_response
    llm_os_rust.Tools.exec_memory_store llm_os_rust.Agent.second_part
chat_is_answered = refl

key_of : Command → Text
key_of (store key value) = key
key_of _ = []

later_keep_name : All (λ input. ¬ Overwrites (codes "name") input) later
unfolding asked starts_with text_eq name first_part splitn_two llm_os_rust.Agent.second_part key_of
later_keep_name = (
  λ (value, asks).
      let wrong : true ≡ false = ap (λ c. text_eq [] (key_of c)) (Asks-asked asks) in cc,
  (
    λ (value, asks).
        let wrong : false ≡ true = ap (λ c. text_eq (codes "name") (key_of c)) (Asks-asked asks) in
        cc,
    tt,
  ),
)

chat_responses :
    chatted.1 ≡ codes "Stored: name = Ada" ∷ codes "[echo] hello" ∷ codes "Stored: age = 36" ∷ []
unfolding session process_input respond starts_with record_response
    llm_os_rust.Agent.handle_tool_call llm_os_rust.Agent.tool_response execute
    llm_os_rust.BTreeMap.get boot llm_os_rust.Agent.register_tools llm_os_rust.Tools.register
    llm_os_rust.BTreeMap.insert new llm_os_rust.Tools.new text_eq name llm_os_rust.Text.text_lt
    llm_os_rust.Agent.first_part llm_os_rust.Agent.second_part llm_os_rust.Text.splitn_two
    llm_os_rust.Tools.run_tool llm_os_rust.Tools.exec_memory_store stored
chat_responses = refl

chat_is_short :
    total_tokens (history memory.said)
      + (spoken (storing (codes "name") (codes "Ada") ∷ recalling (codes "name") ∷ later)
          + 2 * (spoken chatted.1 + estimate_tokens (codes "name = Ada")))
    < usize_mod
unfolding estimate_tokens system_prompt
chat_is_short = rw chat_responses (omega arith)

session_recalls_example :
    (p : Agent × Text × Text) × (process_input no_percent I64.dev
        (recalling (codes "name"))
        chatted.0
      ≡ done p)
    × (p.1 ≡ codes "name = Ada")
unfolding trim
session_recalls_example =
    session_recalls no_percent I64.dev (codes "name") (codes "Ada") later agent memory chatted
      agent-Remembers (refl, (refl, (refl, (refl, tt)))) refl later_keep_name chat_is_answered
      chat_is_short
