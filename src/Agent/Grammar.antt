-- ===== src/Agent/Grammar.antt =====
-- What a user can ask for, as a grammar of the inputs of `process_input`.
use mathlib.Core.Path.{subst}
use llm_os_rust.Base.{
  ℕ, ◌≡◌, ◌≢◌, refl, sym, ap, ◌∙◌, true, false, Bool-cases, inl, inr, ◌⊎◌, List, [], ◌∷◌, ◌++◌,
  ◌==◌, arith,
}
use llm_os_rust.Text.{Text, codes, text_eq, trim, starts_with}
use llm_os_rust.Text.Equality.{text_eq_sound, text_eq_refl}
use llm_os_rust.Text.Pieces.{Lacks}
use llm_os_rust.Tools.{BuiltinTool, name, calculator, memory_store, memory_recall, echo}
use llm_os_rust.Agent.{tool_prefix}

pub data Command : Type 0 where
  store : Text → Text → Command
  store_nothing : Command
  recall : Text → Command
  calc : Text → Command
  repeat : Text → Command
  unknown : Text → Command
  ask_help ask_status : Command
  say : Text → Command

-- A tool and its arguments: the key of `store` ends at the first space, that of `recall` is trimmed.
pub data Calls : Text → Text → Command → Type 0 where
  stores :
      {key value : Text}
      → Lacks b' ' key
      → Calls (codes "store") (key ++ b' ' ∷ value) (store key value)
  lacks_value : {args : Text} → Lacks b' ' args → Calls (codes "store") args store_nothing
  recalls : {args : Text} → Calls (codes "recall") args (recall (trim args))
  calculates : {expr : Text} → Calls (codes "calc") expr (calc expr)
  repeats : {text : Text} → Calls (codes "echo") text (repeat text)
  misses : {tool args : Text} → ((b : BuiltinTool) → name b ≢ tool) → Calls tool args (unknown tool)

-- An input: a call with or without arguments, or a text that is no call.
pub data Asks : Text → Command → Type 0 where
  with_args :
      {tool args : Text} {c : Command}
      → Lacks b' ' tool
      → Calls tool args c
      → Asks (tool_prefix ++ (tool ++ b' ' ∷ args)) c
  without :
      {tool : Text} {c : Command} → Lacks b' ' tool → Calls tool [] c → Asks (tool_prefix ++ tool) c
  asks_status :
      {text : Text}
      → starts_with text tool_prefix ≡ false
      → starts_with text (codes "/context") ≡ true
      → Asks text ask_status
  helps :
      {text : Text}
      → starts_with text tool_prefix ≡ false
      → starts_with text (codes "/context") ≡ false
      → starts_with text (codes "/help") ≡ true
      → Asks text ask_help
  says :
      {text : Text}
      → starts_with text tool_prefix ≡ false
      → starts_with text (codes "/context") ≡ false
      → starts_with text (codes "/help") ≡ false
      → Asks text (say text)

-- Inputs one after the other.
pub data AllAsk : List Text → List Command → Type 0 where
  none_left : AllAsk [] []
  one_more :
      {text : Text} {texts : List Text} {c : Command} {cs : List Command}
      → Asks text c
      → AllAsk texts cs
      → AllAsk (text ∷ texts) (c ∷ cs)

split_at :
    (sep : ℕ) (s : Text)
    → ((a : Text) × (b : Text) × (s ≡ a ++ sep ∷ b) × Lacks sep a) ⊎ Lacks sep s
split_at sep [] = inr tt
split_at sep (c ∷ s) = elim (Bool-cases (c == sep)) [
  | inl at ↦ inl ([], s, ap (λ d. d ∷ s) (ground arith), tt)
  | inr other ↦ elim (split_at sep s) [
    | inl (a, b, e, lacks) ↦ inl (c ∷ a, b, ap (λ t. c ∷ t) e, (other, lacks))
    | inr lacks ↦ inr (other, lacks)
  ]
]

starts_with-prefix : (s p : Text) → starts_with s p ≡ true → (rest : Text) × (s ≡ p ++ rest)
unfolding starts_with
starts_with-prefix s [] h = (s, refl)
starts_with-prefix [] (d ∷ p) h = cc
starts_with-prefix (c ∷ s) (d ∷ p) h = elim (Bool-cases (c == d)) [
  | inl same ↦ let (rest, e) = starts_with-prefix s p (rw same at h) in (rest, ground (arith, e))
  | inr other ↦ let wrong : false ≡ true = rw other at h in cc
]

store-Calls : (args : Text) → (c : Command) × Calls (codes "store") args c
store-Calls args = elim (split_at b' ' args) [
  | inl (key, value, e, lacks) ↦ (
    store key value,
    subst (λ t. Calls (codes "store") t (store key value)) (sym e) (stores lacks),
  )
  | inr lacks ↦ (store_nothing, lacks_value lacks)
]

named-Calls : (b : BuiltinTool) (args : Text) → (c : Command) × Calls (name b) args c
unfolding name
named-Calls calculator args = (calc args, calculates)
named-Calls memory_store args = store-Calls args
named-Calls memory_recall args = (recall (trim args), recalls)
named-Calls echo args = (repeat args, repeats)

is_name : (b : BuiltinTool) (tool : Text) → (name b ≡ tool) ⊎ (name b ≢ tool)
is_name b tool = elim (Bool-cases (text_eq (name b) tool)) [
  | inl same ↦ inl (text_eq_sound (name b) tool same)
  | inr other ↦ inr (λ e.
      let wrong : text_eq (name b) tool ≡ true =
        ap (text_eq (name b)) (sym e) ∙ text_eq_refl (name b) in
      cc)
]

find_tool :
    (tool : Text) → ((b : BuiltinTool) × (name b ≡ tool)) ⊎ ((b : BuiltinTool) → name b ≢ tool)
find_tool tool =
    chosen (is_name calculator tool) (is_name memory_store tool) (is_name memory_recall tool)
      (is_name echo tool)
  where
    Decided : BuiltinTool → Type 0
    Decided b = (name b ≡ tool) ⊎ (name b ≢ tool)

    chosen :
        Decided calculator
        → Decided memory_store
        → Decided memory_recall
        → Decided echo
        → ((b : BuiltinTool) × (name b ≡ tool)) ⊎ ((b : BuiltinTool) → name b ≢ tool)
    chosen (inl e) _ _ _ = inl (calculator, e)
    chosen _ (inl e) _ _ = inl (memory_store, e)
    chosen _ _ (inl e) _ = inl (memory_recall, e)
    chosen _ _ _ (inl e) = inl (echo, e)
    chosen (inr c) (inr s) (inr r) (inr e) = inr all
      where
        all : (b : BuiltinTool) → name b ≢ tool
        all calculator = c
        all memory_store = s
        all memory_recall = r
        all echo = e

Calls-total : (tool args : Text) → (c : Command) × Calls tool args c
Calls-total tool args = elim (find_tool tool) [
  | inl (b, e) ↦ let (c, calls) = named-Calls b args in (c, subst (λ t. Calls t args c) e calls)
  | inr none ↦ (unknown tool, misses none)
]

call-Asks : (rest : Text) → (c : Command) × Asks (tool_prefix ++ rest) c
call-Asks rest = elim (split_at b' ' rest) [
  | inl (tool, args, e, lacks) ↦
      let (c, calls) = Calls-total tool args in
      (c, subst (λ t. Asks (tool_prefix ++ t) c) (sym e) (with_args lacks calls))
  | inr lacks ↦ let (c, calls) = Calls-total rest [] in (c, without lacks calls)
]

-- Every input asks for something.
pub Asks-total : (text : Text) → (c : Command) × Asks text c
Asks-total text = elim (Bool-cases (starts_with text tool_prefix)) [
  | inl calls ↦
      let (rest, e) = starts_with-prefix text tool_prefix calls in
      let (c, asks) = call-Asks rest in (c, subst (λ t. Asks t c) (sym e) asks)
  | inr plain ↦ elim (Bool-cases (starts_with text (codes "/context"))) [
    | inl context ↦ (ask_status, asks_status plain context)
    | inr context ↦ elim (Bool-cases (starts_with text (codes "/help"))) [
      | inl help ↦ (ask_help, helps plain context help)
      | inr other ↦ (say text, says plain context other)
    ]
  ]
]
