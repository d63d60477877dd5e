-- ===== src/Tools/Panics.antt =====
-- When a call of a tool panics.
use llm_os_rust.Base.{
  if◌then◌else◌, ◌≡◌, refl, sym, ap, ◌∙◌, ◌↔◌, false, List, [], ◌∷◌, Option, none, some, arith,
  Result, Outcome, done, panicked, ◌>>=◌, ◌⊎◌,
}
use llm_os_rust.Base.Int.{ℤ}
use llm_os_rust.Text.{Text, text_eq, trim, split_whitespace}
use llm_os_rust.Text.Decimal.{parse_i64}
use llm_os_rust.Text.Equality.{text_eq_sound}
use llm_os_rust.BTreeMap
use llm_os_rust.BTreeMap.{get-insert}
use llm_os_rust.Tools.{
  BuiltinTool, calculator, memory_store, memory_recall, echo, name, ToolRegistry, calculate_parts,
  calculator_on, exec_calculator, run_tool, execute, register, new,
}
use llm_os_rust.Tools.I64.{Profile, dev, in_range}
use llm_os_rust.Tools.Calculator.{
  Operator, over, symbol, value, Applies, calculate-symbol, answer-answered, result_of, answered,
}
use llm_os_rust.Tools.Overflow.{result_of_overflow}
use llm_os_rust.Tools.Branches.{
  Says, usage, first_invalid, second_invalid, unknown, by_zero, exact, wrapped, panics,
  exec_calculator-Says,
}
use llm_os_rust.Tools.Memory.{booted, booted-HasTools, HasTools, execute-name}

-- The parts of an expression are two `i64` numbers and an operator that can be applied to them,
-- with a result that no `i64` holds, in a dev build or for a division.
pub record Overflows (profile : Profile) (parts : List Text) : Type 0 where
  pub first : Text
  pub second : Text
  pub operator : Operator
  pub a : ℤ
  pub b : ℤ
  pub three : parts ≡ first ∷ symbol operator ∷ second ∷ []
  pub read_first : parse_i64 first ≡ some a
  pub read_second : parse_i64 second ≡ some b
  pub can : Applies operator b
  pub out : in_range (value operator a b) ≡ false
  pub why : (profile ≡ dev) ⊎ (operator ≡ over)

Says-Overflows :
    {profile : Profile} {parts : List Text} {m : Outcome (Result Text Text)}
    → Says profile parts m
    → m ≡ panicked
    → Overflows profile parts
Says-Overflows (usage h) e = cc
Says-Overflows (first_invalid h) e = cc
Says-Overflows (second_invalid h k) e = cc
Says-Overflows (unknown h k n) e = cc
Says-Overflows (by_zero h k z) e = cc
Says-Overflows (exact o h k can inside) e = cc
Says-Overflows (wrapped o h k out rel other) e = cc
Says-Overflows (panics {first} {second} {a} {b} o h k can out why) e = record {
  first = first;
  second = second;
  operator = o;
  a = a;
  b = b;
  three = refl;
  read_first = h;
  read_second = k;
  can = can;
  out = out;
  why = why;
}

calculate_parts-panicked :
    (profile : Profile) (first second : Text) (o : Operator) (a b : ℤ)
    → parse_i64 first ≡ some a
    → parse_i64 second ≡ some b
    → Applies o b
    → in_range (value o a b) ≡ false
    → (profile ≡ dev) ⊎ (o ≡ over)
    → calculate_parts profile first (symbol o) second ≡ panicked
unfolding calculate_parts
calculate_parts-panicked profile first second o a b h k can out why =
    rw (h, k, calculate_parts)
      (rw (calculate-symbol profile o a b can) (
        answer-answered a o b (result_of profile o (value o a b))
        ∙ ap (answered a o b) (result_of_overflow profile o (value o a b) out why)))

pub exec_calculator-panicked :
    (profile : Profile) (expr : Text)
    → (exec_calculator profile expr ≡ panicked) ↔ Overflows profile (split_whitespace (trim expr))
unfolding exec_calculator calculator_on
exec_calculator-panicked profile expr = (
  Says-Overflows (exec_calculator-Says profile expr),
  λ h.
      ap (calculator_on profile) h.three
      ∙ calculate_parts-panicked profile h.first h.second h.operator h.a h.b h.read_first
          h.read_second h.can h.out h.why,
)

-- The tools are those that the boot registered.
abbrev pub IsBooted : ToolRegistry → Type 0
IsBooted r = r.tools ≡ booted.tools

get-register :
    (tool : Text) (b : BuiltinTool) (r : ToolRegistry)
    → BTreeMap.get tool (register b r).tools
      ≡ (if text_eq (name b) tool then some b else BTreeMap.get tool r.tools)
unfolding register
get-register tool b r = get-insert (name b) tool b r.tools

pub booted-get :
    (tool : Text)
    → BTreeMap.get tool booted.tools ≡ (
        if text_eq (name echo) tool
        then some echo
        else if text_eq (name memory_recall) tool
        then some memory_recall
        else if text_eq (name memory_store) tool
        then some memory_store
        else if text_eq (name calculator) tool
        then some calculator
        else none)
unfolding new BTreeMap.get
booted-get tool = simp get-register

-- A name of the booted table that leads to the calculator is the calculator's.
calculator-name :
    (tool : Text) → BTreeMap.get tool booted.tools ≡ some calculator → name calculator ≡ tool
calculator-name tool h =
    let h' = sym (booted-get tool) ∙ h in ground (arith, text_eq_sound (name calculator) tool)

pub >>=-panicked {ℓ κ} :
    {A : Type ℓ} {B : Type κ} (m : Outcome A) (f : A → B)
    → (do a ← m; done (f a)) ≡ panicked
    → m ≡ panicked
>>=-panicked (done a) f e = cc
>>=-panicked panicked f e = refl

run_tool-panicked :
    (profile : Profile) (builtin : BuiltinTool) (args : Text) (r : ToolRegistry)
    → run_tool profile builtin args r ≡ panicked
    → (builtin ≡ calculator) × Overflows profile (split_whitespace (trim args))
unfolding run_tool
run_tool-panicked profile calculator args r e = (
  refl,
  (exec_calculator-panicked profile args).0
      (>>=-panicked (exec_calculator profile args) (λ result. (result, r)) e),
)
run_tool-panicked profile memory_store args r e = cc
run_tool-panicked profile memory_recall args r e = cc
run_tool-panicked profile echo args r e = cc

pub IsBooted-HasTools : (r : ToolRegistry) → IsBooted r → HasTools r
IsBooted-HasTools r h tool = ap (BTreeMap.get (name tool)) h ∙ booted-HasTools tool

calculator-panicked :
    (profile : Profile) (tool args : Text) (r : ToolRegistry)
    → IsBooted r
    → (name calculator ≡ tool) × Overflows profile (split_whitespace (trim args))
    → execute profile tool args r ≡ panicked
unfolding run_tool
calculator-panicked profile tool args r h (same, out) =
    ap (λ t. execute profile t args r) (sym same)
    ∙ execute-name profile calculator args r (IsBooted-HasTools r h)
    ∙ ap (λ m. do result ← m; done (result, r)) ((exec_calculator-panicked profile args).1 out)

-- In a registry that has the tools of the boot, a call of `execute` with any name and any
-- arguments panics if and only if the name is that of the calculator and the arguments have
-- three parts, two `i64` numbers and an operator between them that can be applied, whose result
-- no `i64` holds, in a dev build or for a division; allocation is taken to succeed.
pub execute-panicked :
    (profile : Profile) (tool args : Text) (r : ToolRegistry)
    → IsBooted r
    → (execute profile tool args r ≡ panicked)
      ↔ ((name calculator ≡ tool) × Overflows profile (split_whitespace (trim args)))
execute-panicked profile tool args r h =
    (found (BTreeMap.get tool r.tools) refl, calculator-panicked profile tool args r h)
  where
    found :
        (o : Option BuiltinTool)
        → BTreeMap.get tool r.tools ≡ o
        → execute profile tool args r ≡ panicked
        → (name calculator ≡ tool) × Overflows profile (split_whitespace (trim args))
    found none at e = unfold execute in let e' = rw (at, execute) at e in cc
    found (some builtin) at e =
        unfold execute in
        let (same, out) = run_tool-panicked profile builtin args r (rw (at, execute) at e) in
        (calculator-name tool (ap (BTreeMap.get tool) (sym h) ∙ at ∙ ap some same), out)
