-- ===== src/Agent/Reading.antt =====
-- The reading of an input in the grammar, as a function: an input has at most one.
use mathlib.Core.Path.{subst}
use llm_os_rust.Base.{◌≡◌, refl, ap, sym, List, [], ◌∷◌, ◌++◌, map, drop, if◌then◌else◌}
use llm_os_rust.Text.{Text, codes, text_eq, trim, starts_with, splitn_two}
use llm_os_rust.Text.Equality.{starts_with-append}
use llm_os_rust.Text.Pieces.{splitn_two-append, splitn_two-Lacks}
use llm_os_rust.Tools.{name, calculator, memory_store, memory_recall, echo}
use llm_os_rust.Tools.Unknown.{other_name}
use llm_os_rust.Agent.{tool_prefix, first_part, second_part}
use llm_os_rust.Agent.Grammar.{
  Command, store, store_nothing, recall, calc, repeat, unknown, ask_help, ask_status, say, Calls,
  stores, lacks_value, recalls, calculates, repeats, misses, Asks, with_args, without, asks_status,
  helps, says, AllAsk, none_left, one_more, Asks-total,
}

abbrev stored_by : List Text → Command
stored_by (key ∷ value ∷ []) = store key value
stored_by _ = store_nothing

unfoldable pub called : Text → Text → Command
called tool args =
    if text_eq (name memory_store) tool
    then stored_by (splitn_two b' ' args)
    else if text_eq (name memory_recall) tool
    then recall (trim args)
    else if text_eq (name calculator) tool
    then calc args
    else if text_eq (name echo) tool
    then repeat args
    else unknown tool

unfoldable pub asked : Text → Command
unfolding called
asked text =
    let parts = splitn_two b' ' (drop 6 text) in
    if starts_with text tool_prefix
    then called (first_part parts) (second_part parts)
    else if starts_with text (codes "/context")
    then ask_status
    else if starts_with text (codes "/help")
    then ask_help
    else say text

Calls-called : {tool args : Text} {c : Command} → Calls tool args c → called tool args ≡ c
unfolding called name text_eq
Calls-called (stores {key} {value} lacks) = ap stored_by (splitn_two-append b' ' key value lacks)
Calls-called (lacks_value {args} lacks) = ap stored_by (splitn_two-Lacks b' ' args lacks)
Calls-called recalls = refl
Calls-called calculates = refl
Calls-called repeats = refl
Calls-called (misses {tool} {args} h) =
    rw
      (
        other_name memory_store tool (h memory_store),
        other_name memory_recall tool (h memory_recall),
        other_name calculator tool (h calculator),
        other_name echo tool (h echo),
      )
      refl

pub Asks-asked : {text : Text} {c : Command} → Asks text c → asked text ≡ c
unfolding asked first_part second_part
Asks-asked (with_args {tool} {args} lacks calls) =
    rw
      (starts_with-append tool_prefix (tool ++ b' ' ∷ args), splitn_two-append b' ' tool args lacks)
      (Calls-called calls)
Asks-asked (without {tool} lacks calls) =
    rw (starts_with-append tool_prefix tool, splitn_two-Lacks b' ' tool lacks) (Calls-called calls)
Asks-asked (asks_status plain asks) = rw (plain, asks) refl
Asks-asked (helps plain context asks) = rw (plain, context, asks) refl
Asks-asked (says plain context other) = rw (plain, context, other) refl

pub asked-Asks : (text : Text) → Asks text (asked text)
asked-Asks text = let (c, asks) = Asks-total text in subst (Asks text) (sym (Asks-asked asks)) asks

pub asked-AllAsk : (texts : List Text) → AllAsk texts (map asked texts)
asked-AllAsk [] = none_left
asked-AllAsk (text ∷ texts) = one_more (asked-Asks text) (asked-AllAsk texts)
