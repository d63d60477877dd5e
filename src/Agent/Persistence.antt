-- ===== src/Agent/Persistence.antt =====
-- A value from the input that stores it to a later input that recalls it.
use mathlib.Core.Path.{subst}
use llm_os_rust.Base.{
  ℕ, ◌+◌, ◌*◌, ◌<◌, ◌≡◌, refl, ap, ◌∙◌, Bool-cases, List, [], ◌∷◌, ◌++◌, some, All, Result, Outcome,
  done, panicked, ◌>>=◌, Ensures, inl, inr,
}
use llm_os_rust.Text.{Text, codes, text_eq, trim}
use llm_os_rust.Text.Equality.{text_eq_sound}
use llm_os_rust.Text.Pieces.{Lacks}
use llm_os_rust.Context.{user, estimate_tokens, usize_mod}
use llm_os_rust.Context.Eviction.{total_tokens}
use llm_os_rust.Context.History.{history}
use llm_os_rust.Tools.{recalled, exec_calculator}
use llm_os_rust.Tools.I64.{Profile}
use llm_os_rust.Agent.{Agent, tool_prefix, process_input}
use llm_os_rust.Agent.Grammar.{
  Command, store, store_nothing, recall, calc, repeat, unknown, ask_help, ask_status, say, Asks,
  with_args, stores, recalls,
}
use llm_os_rust.Agent.Reading.{asked, asked-Asks, Asks-asked}
use llm_os_rust.Agent.Ideal.{
  Answer, answer_of, by_tool, Values, Memory, words, turn, reply, Remembers, status_of, recollects,
}
use llm_os_rust.Agent.Session.{Agrees, turn-Agrees}
use llm_os_rust.Agent.Said.{Agreed, session-Agreed}
use llm_os_rust.Text.Equality.{text_eq_refl}
use llm_os_rust.Agent.Window.{session, spoken}

-- The input that stores a value under a key, and the one that asks for it.
abbrev pub storing : Text → Text → Text
storing key value = tool_prefix ++ (codes "store" ++ b' ' ∷ (key ++ b' ' ∷ value))

abbrev pub recalling : Text → Text
recalling key = tool_prefix ++ (codes "recall" ++ b' ' ∷ key)

-- The input stores a value under the key.
abbrev pub Overwrites : Text → Text → Type 0
Overwrites key input = (value : Text) × Asks input (store key value)

-- The value of the key is as it was.
abbrev Keeps : Values → Text → Answer × Values → Type 0
Keeps values key p = p.1 key ≡ values key

-- A command that is no `store` of the key leaves its value.
reply-Keeps :
    (profile : Profile) (values : Values) (shown : Text) (key : Text) (c : Command)
    → ((value : Text) → ¬ (c ≡ store key value))
    → Ensures (Keeps values key) (reply profile values shown c)
unfolding reply
reply-Keeps profile values shown key (store k value) other = elim (Bool-cases (text_eq k key)) [
  | inl same ↦ absurd (other value (ap (λ t. store t value) (text_eq_sound k key same)))
  | inr differ ↦ rw differ refl
]
reply-Keeps profile values shown key store_nothing other = refl
reply-Keeps profile values shown key (recall k) other = refl
reply-Keeps profile values shown key (calc expr) other = calculated (exec_calculator profile expr)
  where
    calculated :
        (m : Outcome (Result Text Text))
        → Ensures (Keeps values key) (do result ← m; done (answer_of result, values))
    calculated (done result) = refl
    calculated panicked = tt
reply-Keeps profile values shown key (repeat text) other = refl
reply-Keeps profile values shown key (unknown tool) other = refl
reply-Keeps profile values shown key ask_help other = refl
reply-Keeps profile values shown key ask_status other = refl
reply-Keeps profile values shown key (say text) other = refl

-- What is remembered then has the value under the key.
abbrev HasValue : Text → Text → Memory × List Text → Type 0
HasValue key value q = q.0.values key ≡ some value

module _ (percent : ℕ → ℕ → Text) (profile : Profile) where
  recollects_step :
      (key value input : Text) (inputs : List Text) (m : Memory)
      → Ensures
          (λ (p : Answer × Values). p.1 key ≡ some value)
          (reply profile m.values (status_of percent (m.said ++ (user, input) ∷ [])) (asked input))
      → ((m' : Memory)
          → m'.values key ≡ some value
          → Ensures (HasValue key value) (recollects percent profile m' inputs))
      → Ensures (HasValue key value) (recollects percent profile m (input ∷ inputs))
  unfolding recollects
  recollects_step key value input inputs m =
      next (reply profile m.values (status_of percent (m.said ++ (user, input) ∷ [])) (asked input))
    where
      answered :
          (answer : Text) (y : Outcome (Memory × List Text))
          → Ensures (HasValue key value) y
          → Ensures (HasValue key value) (do q ← y; done (q.0, answer ∷ q.1))
      answered answer (done q) k = k
      answered answer panicked k = tt

      next :
          (n : Outcome (Answer × Values))
          → Ensures (λ (p : Answer × Values). p.1 key ≡ some value) n
          → ((m' : Memory)
              → m'.values key ≡ some value
              → Ensures (HasValue key value) (recollects percent profile m' inputs))
          → Ensures (HasValue key value) (do
            p ← n
            q ←
                recollects percent profile
                  (record { values = p.1; said = m.said ++ turn input p.0 })
                  inputs
            done (q.0, words p.0 ∷ q.1))
      next panicked kept rest = tt
      next (done p) kept rest =
          answered (words p.0) (recollects percent profile _ inputs) (rest _ kept)

  recollects_keeps :
      (key value : Text) (inputs : List Text) (m : Memory)
      → All (λ input. ¬ Overwrites key input) inputs
      → m.values key ≡ some value
      → Ensures (HasValue key value) (recollects percent profile m inputs)
  recollects_keeps key value [] m hs e = unfold recollects in e
  recollects_keeps key value (input ∷ inputs) m (h, hs) e =
      recollects_step key value input inputs m
        (subst
          (λ o.
            Ensures (λ (p : Answer × Values). p.1 key ≡ o)
              (reply profile m.values (status_of percent (m.said ++ (user, input) ∷ []))
                (asked input)))
          e
          (reply-Keeps profile m.values _ key (asked input)
            (λ v same. h (v, subst (Asks input) same (asked-Asks input)))))
        (λ n k. recollects_keeps key value inputs n hs k)

  storing-asked : (key value : Text) → Lacks b' ' key → asked (storing key value) ≡ store key value
  storing-asked key value lacks =
      Asks-asked (with_args (refl, (refl, (refl, (refl, (refl, tt))))) (stores lacks))

  recalling-asked : (key : Text) → trim key ≡ key → asked (recalling key) ≡ recall key
  recalling-asked key trimmed =
      Asks-asked (with_args (refl, (refl, (refl, (refl, (refl, (refl, tt)))))) recalls)
      ∙ ap recall trimmed

  stored-first :
      (key value : Text) (inputs : List Text) (m : Memory)
      → Lacks b' ' key
      → All (λ input. ¬ Overwrites key input) inputs
      → Ensures (HasValue key value) (recollects percent profile m (storing key value ∷ inputs))
  stored-first key value inputs m lacks hs =
      recollects_step key value (storing key value) inputs m
        (rw (storing-asked key value lacks) (unfold reply in rw (text_eq_refl key) refl))
        (λ n k. recollects_keeps key value inputs n hs k)

  -- The agent answers as the abstract one.
  answers_alike :
      (input : Text) (a : Agent) (m : Memory) (answer : Answer) (values : Values)
      → Remembers a m
      → reply profile m.values (status_of percent (m.said ++ (user, input) ∷ [])) (asked input)
        ≡ done (answer, values)
      → (p : Agent × Text × Text) × (process_input percent profile input a ≡ done p)
        × (p.1 ≡ words answer)
  answers_alike input a m answer values r e =
      inverted (process_input percent profile input a) refl (
        subst (Agrees percent profile a.context input (process_input percent profile input a)) e
          (turn-Agrees percent profile input a m r))
    where
      inverted :
          (o : Outcome (Agent × Text × Text))
          → process_input percent profile input a ≡ o
          → Agrees percent profile a.context input o (done (answer, values))
          → (p : Agent × Text × Text) × (process_input percent profile input a ≡ done p)
            × (p.1 ≡ words answer)
      inverted panicked k h = absurd h
      inverted (done p) k (same, rep, window) = (p, k, same)

  -- With an agent that holds what the abstract agent remembers, and a key without spaces that
  -- trimming does not change: where a session returns that begins with the input that stores
  -- a value under the key, and none of whose later inputs stores under that key, the input
  -- that recalls the key is then answered with the key and that value, whatever has been
  -- evicted from the window; the tokens of all that is said, with that input and twice its
  -- answer, sum up to less than 2^64, so that no sum overflows in a dev build either, and
  -- allocation is taken to succeed.
  pub session_recalls :
      (key value : Text) (inputs : List Text) (a : Agent) (m : Memory) (q : Agent × List Text)
      → Remembers a m
      → Lacks b' ' key
      → trim key ≡ key
      → All (λ input. ¬ Overwrites key input) inputs
      → session percent profile (storing key value ∷ inputs) a ≡ done q
      → total_tokens (history m.said)
          + (spoken (storing key value ∷ recalling key ∷ inputs)
              + 2 * (spoken q.1 + estimate_tokens (key ++ (codes " = " ++ value))))
        < usize_mod
      → (p : Agent × Text × Text) × (process_input percent profile (recalling key) q.0 ≡ done p)
        × (p.1 ≡ key ++ (codes " = " ++ value))
  session_recalls key value inputs a m q r lacks trimmed hs e small =
      found (recollects percent profile m (storing key value ∷ inputs))
        (stored-first key value inputs m lacks hs)
        (subst
          (λ x.
            Agreed percent profile x (recollects percent profile m (storing key value ∷ inputs)))
          e (session-Agreed percent profile (storing key value ∷ inputs) a m r))
    where
      found :
          (y : Outcome (Memory × List Text))
          → Ensures (HasValue key value) y
          → Agreed percent profile (done q) y
          → (p : Agent × Text × Text) × (process_input percent profile (recalling key) q.0 ≡ done p)
            × (p.1 ≡ key ++ (codes " = " ++ value))
      found panicked h g = absurd g
      found (done (n, texts)) h (same, left) =
          answers_alike (recalling key) q.0 n (by_tool (key ++ (codes " = " ++ value))) n.values
            left
            (rw (recalling-asked key trimmed)
              (unfold reply recalled in ap (λ o. done (answer_of (recalled key o), n.values)) h))
