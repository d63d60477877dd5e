-- ===== src/Tools.antt =====
-- src/agent/tools.rs: the tool registry, the agent's syscall table.
pub mod I64
pub mod Calculator
pub mod Answers
pub mod Branches
pub mod Panics
pub mod Unknown
pub mod Overflow
pub mod Memory
mod Tests
use llm_os_rust.Base.{
  ℕ, zero, suc, Bool, true, false, List, [], ◌∷◌, ◌++◌, Option, none, some, if◌then◌else◌, length,
  Result, ok, err, Outcome, done, panicked, ◌>>=◌,
}
use llm_os_rust.Base.Int.{ℤ, ◌+ℤ◌, ◌-ℤ◌, ◌*ℤ◌}
use llm_os_rust.Text.{Text, codes, text_eq, trim, split_whitespace, splitn_two}
use llm_os_rust.Text.Decimal.{format_i64, parse_i64}
use llm_os_rust.BTreeMap
use llm_os_rust.BTreeMap.{BTreeMap}
use I64.{Profile, checked, divide, is_zero}

pub data BuiltinTool : Type 0 where
  calculator memory_store memory_recall echo : BuiltinTool

unfoldable pub name : BuiltinTool → Text
name calculator = codes "calc"
name memory_store = codes "store"
name memory_recall = codes "recall"
name echo = codes "echo"

unfoldable pub description : BuiltinTool → Text
description calculator = codes "Evaluate arithmetic: /tool calc <expr> (supports +, -, *, /)"
description memory_store = codes "Store key-value: /tool store <key> <value>"
description memory_recall = codes "Recall by key: /tool recall <key>"
description echo = codes "Echo input: /tool echo <text>"

pub record ToolRegistry : Type 0 where
  pub tools : BTreeMap BuiltinTool
  pub memory : BTreeMap Text

-- `ToolRegistry::new`
unfoldable pub new : ToolRegistry
new = record { tools = []; memory = [] }

unfoldable pub register : BuiltinTool → ToolRegistry → ToolRegistry
register tool r = record r { tools = BTreeMap.insert (name tool) tool r.tools }

unfoldable pub tool_count : ToolRegistry → ℕ
tool_count r = length r.tools

unfoldable pub tool_names : ToolRegistry → List Text
tool_names r = BTreeMap.keys r.tools

-- `{:?}` of a name: names are made of letters, so that nothing is escaped.
unfoldable pub debug_name : Text → Text
debug_name s = codes "\"" ++ (s ++ codes "\"")

unfoldable pub debug_rest : List Text → Text
unfolding debug_name
debug_rest [] = codes "]"
debug_rest (s ∷ names) = codes ", " ++ (debug_name s ++ debug_rest names)

-- `{:?}` of `tool_names`
unfoldable pub debug_names : List Text → Text
unfolding debug_rest
debug_names [] = codes "[]"
debug_names (s ∷ names) = codes "[" ++ (debug_name s ++ debug_rest names)

unfoldable pub unknown_tool : Text → List Text → Text
unfolding debug_names
unknown_tool tool names =
    codes "Unknown tool '" ++ (tool ++ (codes "'. Available: " ++ debug_names names))

-- `a <op> b` in `i64`, or the message of the error
unfoldable pub calculate : Profile → ℤ → Text → ℤ → Outcome (Result ℤ Text)
calculate profile a op b =
    if text_eq op (codes "+")
    then (do r ← checked profile (a +ℤ b); done (ok r))
    else if text_eq op (codes "-")
    then (do r ← checked profile (a -ℤ b); done (ok r))
    else if text_eq op (codes "*")
    then (do r ← checked profile (a *ℤ b); done (ok r))
    else if text_eq op (codes "/")
    then (if is_zero b
        then done (err (codes "Division by zero"))
        else (do r ← divide a b; done (ok r)))
    else done (err (codes "Unknown operator: " ++ (op ++ codes " (use +, -, *, /)")))

abbrev pub calculator_usage : Text
calculator_usage = codes "Usage: /tool calc <num> <op> <num> (e.g., /tool calc 42 + 7)"

unfoldable pub equation : ℤ → Text → ℤ → ℤ → Text
equation a op b result =
    format_i64 a
    ++ (codes " " ++ (op ++ (codes " " ++ (format_i64 b ++ (codes " = " ++ format_i64 result)))))

unfoldable pub answer : ℤ → Text → ℤ → Result ℤ Text → Result Text Text
answer a op b (ok result) = ok (equation a op b result)
answer a op b (err e) = err e

unfoldable pub invalid_number : Text → Text
invalid_number part = codes "Invalid number: " ++ part

-- The three parts of an expression, the first operand read first.
unfoldable pub calculate_parts : Profile → Text → Text → Text → Outcome (Result Text Text)
unfolding answer
calculate_parts profile first op second = elim (parse_i64 first) [
  | none ↦ done (err (invalid_number first))
  | some a ↦ elim (parse_i64 second) [
    | none ↦ done (err (invalid_number second))
    | some b ↦ (do r ← calculate profile a op b; done (answer a op b r))
  ]
]

unfoldable pub calculator_on : Profile → List Text → Outcome (Result Text Text)
calculator_on profile (first ∷ op ∷ second ∷ []) = calculate_parts profile first op second
calculator_on profile _ = done (err calculator_usage)

unfoldable pub exec_calculator : Profile → Text → Outcome (Result Text Text)
unfolding calculator_on
exec_calculator profile expr = calculator_on profile (split_whitespace (trim expr))

abbrev pub store_usage : Text
store_usage = codes "Usage: /tool store <key> <value>"

unfoldable pub stored : Text → Text → Text
stored key value = codes "Stored: " ++ (key ++ (codes " = " ++ value))

unfoldable pub store_parts : ToolRegistry → List Text → Result Text Text × ToolRegistry
store_parts r (key ∷ value ∷ []) =
    (ok (stored key value), record r { memory = BTreeMap.insert key value r.memory })
store_parts r _ = (err store_usage, r)

unfoldable pub exec_memory_store : Text → ToolRegistry → Result Text Text × ToolRegistry
unfolding store_parts
exec_memory_store args r = store_parts r (splitn_two b' ' args)

unfoldable pub recalled : Text → Option Text → Result Text Text
recalled key (some value) = ok (key ++ (codes " = " ++ value))
recalled key none = err (codes "Key '" ++ (key ++ codes "' not found in memory"))

unfoldable pub exec_memory_recall : Text → ToolRegistry → Result Text Text
unfolding recalled
exec_memory_recall args r = let key = trim args in recalled key (BTreeMap.get key r.memory)

-- The arm of `execute` for the tool that was looked up.
unfoldable pub run_tool :
    Profile → BuiltinTool → Text → ToolRegistry → Outcome (Result Text Text × ToolRegistry)
run_tool profile calculator args r = do result ← exec_calculator profile args; done (result, r)
run_tool profile memory_store args r = done (exec_memory_store args r)
run_tool profile memory_recall args r = done (exec_memory_recall args r, r)
run_tool profile echo args r = done (ok (codes "[echo] " ++ args), r)

unfoldable pub execute :
    Profile → Text → Text → ToolRegistry → Outcome (Result Text Text × ToolRegistry)
execute profile tool args r = elim (BTreeMap.get tool r.tools) [
  | none ↦ done (err (unknown_tool tool (tool_names r)), r)
  | some builtin ↦ run_tool profile builtin args r
]
