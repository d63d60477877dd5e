-- ===== src/Agent/Ideal.antt =====
-- An abstract agent, which remembers what it was told to store and all that was said.
use llm_os_rust.Base.{
  ℕ, ◌≡◌, refl, ap, ◌∙◌, List, [], ◌∷◌, ◌++◌, Option, none, some, Result, ok, err, Outcome, done,
  panicked, ◌>>=◌, if◌then◌else◌,
}
use llm_os_rust.Text.{Text, codes, text_eq, trim}
use llm_os_rust.Text.Pieces.{splitn_two-Lacks}
use llm_os_rust.BTreeMap
use llm_os_rust.BTreeMap.{get-insert}
use llm_os_rust.Context
use llm_os_rust.Context.{Role, system, user, assistant, tool, status}
use llm_os_rust.Context.History.{push_all}
use llm_os_rust.Tools.{
  ToolRegistry, execute, name, calculator, memory_store, echo, stored, recalled, run_tool,
  exec_calculator, exec_memory_store, store_parts,
}
use llm_os_rust.Tools.I64.{Profile}
use llm_os_rust.Tools.Memory.{execute-store, execute-recall, execute-name}
use llm_os_rust.Tools.Panics.{IsBooted, IsBooted-HasTools}
use llm_os_rust.Tools.Unknown.{no_such_tool, execute-unknown}
use llm_os_rust.Agent.{Agent, help, system_prompt}
use llm_os_rust.Agent.Grammar.{
  Command, store, store_nothing, recall, calc, repeat, unknown, ask_help, ask_status, say, Calls,
  stores, lacks_value, recalls, calculates, repeats, misses,
}
use llm_os_rust.Agent.Reading.{asked}

-- An answer is the result of a tool, or it is not.
pub data Answer : Type 0 where
  by_tool plainly : Text → Answer

abbrev pub words : Answer → Text
words (by_tool text) = text
words (plainly text) = text

-- The answer to a call that returned.
abbrev pub answer_of : Result Text Text → Answer
answer_of (ok result) = by_tool result
answer_of (err e) = plainly (codes "Tool error: " ++ e)

-- The value of each key.
abbrev pub Values : Type 0
Values = Text → Option Text

-- The values that are held, and all that was said.
pub record Memory : Type 0 where
  pub values : Values
  pub said : List (Role × Text)

-- What an input and its answer add to what was said.
abbrev pub turn : Text → Answer → List (Role × Text)
turn input (by_tool text) = (user, input) ∷ (tool, text) ∷ (assistant, text) ∷ []
turn input (plainly text) = (user, input) ∷ (assistant, text) ∷ []

-- What is remembered behind the boot.
abbrev pub prompted : Memory
prompted = record { values = λ key. none; said = (system, system_prompt) ∷ [] }

-- The answer to a command, and the values that are held then.
unfoldable pub reply : Profile → Values → Text → Command → Outcome (Answer × Values)
reply profile values shown (store key value) =
    done (by_tool (stored key value), λ j. if text_eq key j then some value else values j)
reply profile values shown store_nothing =
    done (plainly (codes "Tool error: Usage: /tool store <key> <value>"), values)
reply profile values shown (recall key) = done (answer_of (recalled key (values key)), values)
reply profile values shown (calc expr) = do
  result ← exec_calculator profile expr
  done (answer_of result, values)
reply profile values shown (repeat text) = done (by_tool (codes "[echo] " ++ text), values)
reply profile values shown (unknown other) =
    done (plainly (codes "Tool error: " ++ no_such_tool other), values)
reply profile values shown ask_help = done (plainly help, values)
reply profile values shown ask_status = done (plainly shown, values)
reply profile values shown (say text) = done (plainly (codes "[echo] " ++ text), values)

-- The registry has the tools of the boot and holds the values.
pub record Represents (r : ToolRegistry) (values : Values) : Type 0 where
  pub has_tools : IsBooted r
  pub holds : (key : Text) → BTreeMap.get key r.memory ≡ values key

-- The call of a tool and the memory both panic, or both answer the same and correspond again.
abbrev pub Matches : Outcome (Result Text Text × ToolRegistry) → Outcome (Answer × Values) → Type 0
Matches panicked panicked = Unit
Matches (done p) (done q) = (answer_of p.0 ≡ q.0) × Represents p.1 q.1
Matches _ _ = ⊥

calculates-Matches :
    (r : ToolRegistry) (values : Values) (m : Outcome (Result Text Text))
    → Represents r values
    → Matches (do result ← m; done (result, r)) (do result ← m; done (answer_of result, values))
calculates-Matches r values panicked rep = tt
calculates-Matches r values (done result) rep = (refl, rep)

pub Calls-Matches :
    (profile : Profile) {tool args : Text} {c : Command} (r : ToolRegistry) (values : Values)
    (shown : Text)
    → Calls tool args c
    → Represents r values
    → Matches (execute profile tool args r) (reply profile values shown c)
unfolding reply name
Calls-Matches profile r values shown (stores {key} {value} lacks) rep =
    rw (execute-store profile r key value (IsBooted-HasTools r rep.has_tools) lacks) (
      refl,
      record {
        has_tools = rep.has_tools;
        holds = λ j.
            get-insert key j value r.memory
            ∙ ap (λ x. if text_eq key j then some value else x) (rep.holds j);
      },
    )
Calls-Matches profile r values shown (lacks_value {args} lacks) rep =
    rw (execute-name profile memory_store args r (IsBooted-HasTools r rep.has_tools)) (
      unfold run_tool exec_memory_store in
      rw (splitn_two-Lacks b' ' args lacks) (unfold store_parts in (refl, rep)))
Calls-Matches profile r values shown (recalls {args}) rep =
    rw (execute-recall profile r args (IsBooted-HasTools r rep.has_tools))
      (ap (λ o. answer_of (recalled (trim args) o)) (rep.holds (trim args)), rep)
Calls-Matches profile r values shown (calculates {expr}) rep =
    rw (execute-name profile calculator expr r (IsBooted-HasTools r rep.has_tools))
      (unfold run_tool in calculates-Matches r values (exec_calculator profile expr) rep)
Calls-Matches profile r values shown (repeats {text}) rep =
    rw (execute-name profile echo text r (IsBooted-HasTools r rep.has_tools))
      (unfold run_tool in (refl, rep))
Calls-Matches profile r values shown (misses {tool = missing} {args} other) rep =
    rw (execute-unknown profile missing args r rep.has_tools other) (refl, rep)

-- The agent holds the values, and its window is the one that all that was said was pushed into.
pub record Remembers (a : Agent) (m : Memory) : Type 0 where
  pub represents : Represents a.tool_registry m.values
  pub window : a.context ≡ (push_all m.said (Context.new 4096)).0

module _ (percent : ℕ → ℕ → Text) where
  -- The status of the window that all of this was pushed into.
  abbrev pub status_of : List (Role × Text) → Text
  status_of said = status percent (push_all said (Context.new 4096)).0

  -- The answers to inputs, each by its reading.
  unfoldable pub replies : Profile → Memory → List Text → Outcome (List Text)
  unfolding reply
  replies profile m [] = done []
  replies profile m (input ∷ inputs) = do
    p ← reply profile m.values (status_of (m.said ++ (user, input) ∷ [])) (asked input)
    rest ← replies profile (record { values = p.1; said = m.said ++ turn input p.0 }) inputs
    done (words p.0 ∷ rest)

  -- The answers, and what is remembered behind them.
  unfoldable pub recollects : Profile → Memory → List Text → Outcome (Memory × List Text)
  unfolding reply
  recollects profile m [] = done (m, [])
  recollects profile m (input ∷ inputs) = do
    p ← reply profile m.values (status_of (m.said ++ (user, input) ∷ [])) (asked input)
    q ← recollects profile (record { values = p.1; said = m.said ++ turn input p.0 }) inputs
    done (q.0, words p.0 ∷ q.1)
