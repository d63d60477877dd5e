-- ===== src/Tools/Unknown.antt =====
-- Calls by a name that no tool has.
use llm_os_rust.Base.{◌≡◌, ◌≢◌, refl, ap, ◌∙◌, false, Bool-cases, inl, inr, ◌++◌, err, done, none}
use llm_os_rust.Text.{Text, codes, text_eq}
use llm_os_rust.Text.Equality.{text_eq_sound}
use llm_os_rust.BTreeMap
use llm_os_rust.Tools.{
  BuiltinTool, calculator, memory_store, memory_recall, echo, name, ToolRegistry, execute,
  unknown_tool, tool_names,
}
use llm_os_rust.Tools.I64.{Profile}
use llm_os_rust.Tools.Memory.{booted}
use llm_os_rust.Tools.Panics.{IsBooted, booted-get}

-- The error of such a call, with the names of the tools in their order.
abbrev pub no_such_tool : Text → Text
no_such_tool tool =
    codes "Unknown tool '"
    ++ (tool ++ codes "'. Available: [\"calc\", \"echo\", \"recall\", \"store\"]")

booted_names : (tool : Text) → unknown_tool tool (tool_names booted) ≡ no_such_tool tool
unfolding unknown_tool tool_names BTreeMap.keys llm_os_rust.Tools.register BTreeMap.insert
    llm_os_rust.Tools.new text_eq name llm_os_rust.Text.text_lt
booted_names tool = refl

names-IsBooted :
    (tool : Text) (r : ToolRegistry)
    → IsBooted r
    → unknown_tool tool (tool_names r) ≡ no_such_tool tool
unfolding tool_names
names-IsBooted tool r h = ap (λ t. unknown_tool tool (BTreeMap.keys t)) h ∙ booted_names tool

pub other_name : (b : BuiltinTool) (tool : Text) → name b ≢ tool → text_eq (name b) tool ≡ false
other_name b tool h = elim (Bool-cases (text_eq (name b) tool)) [
  | inl same ↦ absurd (h (text_eq_sound (name b) tool same))
  | inr other ↦ other
]

booted-none :
    (tool : Text) → ((b : BuiltinTool) → name b ≢ tool) → BTreeMap.get tool booted.tools ≡ none
booted-none tool h =
    booted-get tool
    ∙ rw
        (
          other_name echo tool (h echo),
          other_name memory_recall tool (h memory_recall),
          other_name memory_store tool (h memory_store),
          other_name calculator tool (h calculator),
        )
        refl

pub execute-unknown :
    (profile : Profile) (tool args : Text) (r : ToolRegistry)
    → IsBooted r
    → ((b : BuiltinTool) → name b ≢ tool)
    → execute profile tool args r ≡ done (err (no_such_tool tool), r)
unfolding execute
execute-unknown profile tool args r h misses =
    rw (ap (BTreeMap.get tool) h ∙ booted-none tool misses, execute)
      (ap (λ e. done (err e, r)) (names-IsBooted tool r h))
