-- ===== src/Tools/Memory.antt =====
-- The registry's tables, by what `store` writes and `recall` reads.
use llm_os_rust.Base.{
  Ensures, Ensures-bind, Ensures-done, ◌≡◌, ◌≢◌, refl, ap, sym, ◌∙◌, List, [], ◌∷◌, ◌++◌, arith,
  Result, ok, done, ◌>>=◌, Option, none, some, if◌then◌else◌,
}
use llm_os_rust.Text.{Text, codes, text_eq, trim, splitn_two, text_lt}
use llm_os_rust.Text.Equality.{text_eq_iff}
use llm_os_rust.Text.Pieces.{Lacks, splitn_two-append, trim_idem}
use llm_os_rust.BTreeMap
use llm_os_rust.BTreeMap.{BTreeMap, get-insert, insert-IsSorted, IsSorted}
use llm_os_rust.Tools.I64.{Profile}
use llm_os_rust.Tools.{
  BuiltinTool, ToolRegistry, calculator, memory_store, memory_recall, echo, name, register,
  run_tool, execute, exec_calculator, exec_memory_store, exec_memory_recall, store_parts, stored,
  recalled, new,
}

-- The registry after `Agent::boot`: each tool stands under its own name.
abbrev pub booted : ToolRegistry
booted = register echo (register memory_recall (register memory_store (register calculator new)))

abbrev pub HasTools : ToolRegistry → Type 0
HasTools r = (tool : BuiltinTool) → BTreeMap.get (name tool) r.tools ≡ some tool

pub booted-HasTools : HasTools booted
unfolding register new name BTreeMap.get BTreeMap.insert text_eq llm_os_rust.Text.text_lt
booted-HasTools calculator = refl
booted-HasTools memory_store = refl
booted-HasTools memory_recall = refl
booted-HasTools echo = refl

pub record IsValid (r : ToolRegistry) : Type 0 where
  pub has_tools : HasTools r
  pub sorted_tools : IsSorted r.tools
  pub sorted_memory : IsSorted r.memory

store_parts-IsValid :
    (r : ToolRegistry) (parts : List Text) → IsValid r → IsValid (store_parts r parts).1
unfolding store_parts
store_parts-IsValid r (k ∷ v ∷ []) h = record {
  has_tools = h.has_tools;
  sorted_tools = h.sorted_tools;
  sorted_memory = insert-IsSorted k v r.memory h.sorted_memory;
}
store_parts-IsValid r _ h = h

abbrev KeepsValid : Result Text Text × ToolRegistry → Type 0
KeepsValid p = IsValid p.1

run_tool-IsValid :
    (profile : Profile) (tool : BuiltinTool) (args : Text) (r : ToolRegistry)
    → IsValid r
    → Ensures KeepsValid (run_tool profile tool args r)
unfolding run_tool
run_tool-IsValid profile calculator args r h =
    Ensures-bind KeepsValid (exec_calculator profile args) (λ result. done (result, r)) (λ _. h)
run_tool-IsValid profile memory_store args r h =
    unfold exec_memory_store in store_parts-IsValid r (splitn_two b' ' args) h
run_tool-IsValid profile memory_recall args r h = h
run_tool-IsValid profile echo args r h = h

found-IsValid :
    (profile : Profile) (tool args : Text) (r : ToolRegistry) (found : Option BuiltinTool)
    → BTreeMap.get tool r.tools ≡ found
    → IsValid r
    → Ensures KeepsValid (execute profile tool args r)
unfolding execute
found-IsValid profile tool args r none e h = rw (e, execute) h
found-IsValid profile tool args r (some builtin) e h =
    rw (e, execute) (run_tool-IsValid profile builtin args r h)

-- From a well-formed registry, a call that returns leaves one: each tool stands under its own
-- name, and both tables are sorted by their keys.
pub execute-IsValid :
    (profile : Profile) (tool args : Text) (r : ToolRegistry) (p : Result Text Text × ToolRegistry)
    → IsValid r
    → execute profile tool args r ≡ done p
    → IsValid p.1
execute-IsValid profile tool args r p h e =
    Ensures-done KeepsValid p (found-IsValid profile tool args r _ refl h) e

-- With the tools in place, a call by the name of a tool is the run of that tool.
pub execute-name :
    (profile : Profile) (tool : BuiltinTool) (args : Text) (r : ToolRegistry)
    → HasTools r
    → execute profile (name tool) args r ≡ run_tool profile tool args r
unfolding execute
execute-name profile tool args r h = rw (h tool, execute)

-- The registry with one more entry in its memory.
abbrev pub remember : Text → Text → ToolRegistry → ToolRegistry
remember key value r = record r { memory = BTreeMap.insert key value r.memory }

pub execute-store :
    (profile : Profile) (r : ToolRegistry) (key value : Text)
    → HasTools r
    → Lacks b' ' key
    → execute profile (name memory_store) (key ++ b' ' ∷ value) r
      ≡ done (ok (stored key value), remember key value r)
execute-store profile r key value h lacks =
    execute-name profile memory_store (key ++ b' ' ∷ value) r h
    ∙ (unfold run_tool exec_memory_store in
        ap (λ ps. done (store_parts r ps)) (splitn_two-append b' ' key value lacks))

pub execute-recall :
    (profile : Profile) (r : ToolRegistry) (args : Text)
    → HasTools r
    → execute profile (name memory_recall) args r
      ≡ done (recalled (trim args) (BTreeMap.get (trim args) r.memory), r)
execute-recall profile r args h =
    execute-name profile memory_recall args r h ∙ (unfold run_tool exec_memory_recall in refl)

-- In a registry that has its tools: behind a `store` of a key without spaces, `recall` answers
-- with the new value if its trimmed argument is that key, and as it would have before if it is
-- not.
pub recall-store :
    (profile : Profile) (r : ToolRegistry) (key value args : Text)
    → HasTools r
    → Lacks b' ' key
    → (do
      (_, r') ← execute profile (name memory_store) (key ++ b' ' ∷ value) r
      execute profile (name memory_recall) args r')
      ≡ done (
        recalled
            (trim args)
            (if text_eq key (trim args) then some value else BTreeMap.get (trim args) r.memory),
        remember key value r,
      )
recall-store profile r key value args h lacks = rw (execute-store profile r key value h lacks) (
    execute-recall profile (remember key value r) args h
    ∙ ap (λ o. done (recalled (trim args) o, remember key value r))
        (get-insert key (trim args) value r.memory))

-- In a registry that has its tools, a key without spaces that trimming would change is stored,
-- and no `recall` finds it: the answer to every argument is the one that it would have been
-- without the entry.
pub recall_untrimmed :
    (profile : Profile) (r : ToolRegistry) (key value args : Text)
    → HasTools r
    → Lacks b' ' key
    → trim key ≢ key
    → (do
      (_, r') ← execute profile (name memory_store) (key ++ b' ' ∷ value) r
      execute profile (name memory_recall) args r')
      ≡ done (recalled (trim args) (BTreeMap.get (trim args) r.memory), remember key value r)
recall_untrimmed profile r key value args h lacks untrimmed =
    recall-store profile r key value args h lacks
    ∙ ap (λ o. done (recalled (trim args) o, remember key value r))
        (other (λ e. untrimmed (ap trim e ∙ trim_idem args ∙ sym e)))
  where
    other :
        key ≢ trim args
        → (if text_eq key (trim args) then some value else BTreeMap.get (trim args) r.memory)
          ≡ BTreeMap.get (trim args) r.memory
    other ne = ground (arith, text_eq_iff key (trim args))

pub booted-IsValid : IsValid booted
booted-IsValid = record {
  has_tools = booted-HasTools;
  sorted_tools =
      unfold register new name BTreeMap.insert text_eq text_lt in
      ((refl, (refl, (refl, tt))), ((refl, (refl, tt)), ((refl, tt), (tt, tt))));
  sorted_memory = unfold register new in tt;
}
