-- ===== src/Agent/Said.antt =====
-- The window behind a session, by all that was said.
use mathlib.Core.Path.{subst}
use llm_os_rust.Base.{
  ℕ, ◌+◌, ◌*◌, ◌<◌, ◌≡◌, refl, sym, ap, ◌∙◌, List, [], ◌∷◌, ◌++◌, arith, done, panicked, ◌>>=◌,
  Ensures, Ensures-done, Outcome, append_assoc, append-nil,
}
use llm_os_rust.Text.{Text}
use llm_os_rust.Context
use llm_os_rust.Context.{
  ContextWindow, Role, Message, system, user, assistant, tool, push_message, estimate_tokens,
  usize_mod,
}
use llm_os_rust.Context.Eviction.{total_tokens}
use llm_os_rust.Context.History.{IsView, push_all, history, push_all_lem}
use llm_os_rust.Context.Push.{message_for}
use llm_os_rust.Context.Reference.{IsNeeded, needed}
use llm_os_rust.Context.Closed.{closed, push_all-closed}
use llm_os_rust.Tools
use llm_os_rust.BTreeMap
use llm_os_rust.Tools.I64.{Profile}
use llm_os_rust.Agent.Ideal.{
  Answer, by_tool, plainly, words, Values, Memory, turn, reply, Represents, Remembers, prompted,
  status_of, recollects,
}
use llm_os_rust.Agent.Reading.{asked}
use llm_os_rust.Agent.Session.{Agrees, turn-Agrees, window-append}
use llm_os_rust.Agent.{Agent, new, boot, system_prompt, register_tools, process_input}
use llm_os_rust.Agent.Window.{
  Transcript, nothing_said, answers, answers_by_tool, Transcript-tokens, spoken, session, Recorded,
  session-Recorded,
}

-- What was said last, and what before it.
last_said :
    (p : Role × Text) (ps : List (Role × Text))
    → (front : List (Role × Text)) × (role : Role) × (content : Text) × (p ∷ ps
        ≡ front ++ (role, content) ∷ [])
last_said (role, content) [] = ([], role, content, refl)
last_said p (q ∷ ps) =
    let (front, role, content, e) = last_said q ps in
    (p ∷ front, role, content, ap (λ qs. p ∷ qs) e)

history_tokens-append :
    (ps : List (Role × Text)) (role : Role) (content : Text)
    → total_tokens (history (ps ++ (role, content) ∷ []))
      ≡ total_tokens (history ps) + estimate_tokens content
history_tokens-append [] role content = omega arith
history_tokens-append ((r, c) ∷ ps) role content =
    omega (arith, history_tokens-append ps role content)

module _ (percent : ℕ → ℕ → Text) (profile : Profile) where
  -- Where a session of any inputs with the booted agent returns, and the tokens of its prompt
  -- and inputs and twice those of its responses sum up to less than 2^64, the agent's window
  -- is well formed and is the transcript without its oldest messages that are not the
  -- system's, as many as the window counts as evicted. The transcript is the prompt and then,
  -- for each input, the input, the response once more under the role of the tool for a tool
  -- that returned no error, and the response.
  pub session-IsView :
      (inputs : List Text) (q : Agent × List Text)
      → session percent profile inputs (boot new).0 ≡ done q
      → spoken (system_prompt ∷ inputs) + 2 * spoken q.1 < usize_mod
      → (ps : List (Role × Text)) × (log : Text) × Transcript inputs q.1 ps
        × IsView (history ((system, system_prompt) ∷ ps)) q.0.context log
  unfolding boot new push_all
  session-IsView inputs q e tokens =
      let (ps, t, k) =
        Ensures-done (Recorded percent profile (boot new).0.context inputs) q
          (session-Recorded percent profile inputs (boot new).0) e in
      (
        ps,
        (push_all ((system, system_prompt) ∷ ps) (Context.new 4096)).1,
        t,
        subst
            (λ w.
              IsView (history ((system, system_prompt) ∷ ps)) w
                (push_all ((system, system_prompt) ∷ ps) (Context.new 4096)).1)
            (sym k)
            (push_all_lem 4096 ((system, system_prompt) ∷ ps)
              (omega (arith, tokens, Transcript-tokens t))),
      )

  -- Both panic, or both give the same answers and correspond.
  abbrev pub Agreed : Outcome (Agent × List Text) → Outcome (Memory × List Text) → Type 0
  Agreed panicked panicked = Unit
  Agreed (done p) (done q) = (p.1 ≡ q.1) × Remembers p.0 q.0
  Agreed _ _ = ⊥

  Agreed-cons :
      (response answer : Text) (x : Outcome (Agent × List Text)) (y : Outcome (Memory × List Text))
      → response ≡ answer
      → Agreed x y
      → Agreed (do p ← x; done (p.0, response ∷ p.1)) (do q ← y; done (q.0, answer ∷ q.1))
  Agreed-cons response answer panicked panicked e h = tt
  Agreed-cons response answer (done p) (done q) e (same, r) =
      (ap (λ t. t ∷ p.1) e ∙ ap (λ ts. answer ∷ ts) same, r)
  Agreed-cons response answer panicked (done q) e h = absurd h
  Agreed-cons response answer (done p) panicked e h = absurd h

  pub session-Agreed :
      (inputs : List Text) (a : Agent) (m : Memory)
      → Remembers a m
      → Agreed (session percent profile inputs a) (recollects percent profile m inputs)
  unfolding session recollects
  session-Agreed [] a m r = (refl, r)
  session-Agreed (input ∷ inputs) a m r =
      next (process_input percent profile input a) _ (λ b n. session-Agreed inputs b n)
        (turn-Agrees percent profile input a m r)
    where
      next :
          (o : Outcome (Agent × Text × Text)) (n : Outcome (Answer × Values))
          → ((b : Agent) (m' : Memory)
              → Remembers b m'
              → Agreed (session percent profile inputs b) (recollects percent profile m' inputs))
          → Agrees percent profile a.context input o n
          → Agreed
              (do p ← o; q ← session percent profile inputs p.0; done (q.0, p.1 ∷ q.1))
              (do
                p ← n
                q ←
                    recollects percent profile
                      (record { values = p.1; said = m.said ++ turn input p.0 })
                      inputs
                done (q.0, words p.0 ∷ q.1))
      next panicked panicked ih g = tt
      next (done p) panicked ih g = absurd g
      next panicked (done q) ih g = absurd g
      next (done p) (done q) ih (text, rep, window) =
          Agreed-cons p.1 (words q.0) (session percent profile inputs p.0) _ text (
            ih p.0 (record { values = q.1; said = m.said ++ turn input q.0 })
              (record {
                represents = rep;
                window = window ∙ window-append a.context m.said (turn input q.0) r.window;
              }))

  boot-Remembers : Remembers (boot new).0 prompted
  unfolding boot new register_tools Tools.new BTreeMap.get push_all Tools.register
  boot-Remembers = record {
    represents = record { has_tools = refl; holds = λ key. refl };
    window = refl;
  }

  -- What is said in a session is its transcript.
  abbrev Adds : Memory → List Text → Memory × List Text → Type 0
  Adds m inputs q = (ps : List (Role × Text)) × Transcript inputs q.1 ps × (q.0.said ≡ m.said ++ ps)

  recollects-Adds :
      (m : Memory) (inputs : List Text)
      → Ensures (Adds m inputs) (recollects percent profile m inputs)
  unfolding recollects
  recollects-Adds m [] = ([], nothing_said, sym (append-nil m.said))
  recollects-Adds m (input ∷ inputs) =
      next (reply profile m.values (status_of percent (m.said ++ (user, input) ∷ [])) (asked input))
        (λ n. recollects-Adds n inputs)
    where
      both :
          (answer : Answer) (y : Outcome (Memory × List Text)) (values : Values)
          → Ensures (Adds (record { values = values; said = m.said ++ turn input answer }) inputs) y
          → Ensures (Adds m (input ∷ inputs)) (do q ← y; done (q.0, words answer ∷ q.1))
      both (by_tool text) (done q) values (ps, t, e) = (
        turn input (by_tool text) ++ ps,
        answers_by_tool t,
        e ∙ append_assoc m.said (turn input (by_tool text)) ps,
      )
      both (plainly text) (done q) values (ps, t, e) = (
        turn input (plainly text) ++ ps,
        answers t,
        e ∙ append_assoc m.said (turn input (plainly text)) ps,
      )
      both answer panicked values h = tt

      next :
          (n : Outcome (Answer × Values))
          → ((m' : Memory) → Ensures (Adds m' inputs) (recollects percent profile m' inputs))
          → Ensures (Adds m (input ∷ inputs)) (do
            p ← n
            q ←
                recollects percent profile
                  (record { values = p.1; said = m.said ++ turn input p.0 })
                  inputs
            done (q.0, words p.0 ∷ q.1))
      next panicked ih = tt
      next (done p) ih = both p.0 (recollects percent profile _ inputs) p.1 (ih _)

  -- The abstract agent's run next to a session that returns.
  record Recollected (inputs : List Text) (q : Agent × List Text) : Type 0 where
    memory : Memory
    runs : recollects percent profile prompted inputs ≡ done (memory, q.1)
    remembers : Remembers q.0 memory
    parts : List (Role × Text)
    transcript : Transcript inputs q.1 parts
    said : memory.said ≡ (system, system_prompt) ∷ parts

  session-Recollected :
      (inputs : List Text) (q : Agent × List Text)
      → session percent profile inputs (boot new).0 ≡ done q
      → Recollected inputs q
  session-Recollected inputs q e =
      found (recollects percent profile prompted inputs) refl (recollects-Adds prompted inputs) (
        subst (λ x. Agreed x (recollects percent profile prompted inputs)) e
          (session-Agreed inputs (boot new).0 prompted boot-Remembers))
    where
      found :
          (y : Outcome (Memory × List Text))
          → recollects percent profile prompted inputs ≡ y
          → Ensures (Adds prompted inputs) y
          → Agreed (done q) y
          → Recollected inputs q
      found panicked k adds h = absurd h
      found (done (m, texts)) k (ps, t, said) (same, r) = record {
        memory = m;
        runs = k ∙ ap (λ ts. done (m, ts)) (sym same);
        remembers = r;
        parts = ps;
        transcript = subst (λ ts. Transcript inputs ts ps) (sym same) t;
        said = said;
      }

  -- Where a session of any inputs with the booted agent returns, and the tokens of its prompt
  -- and inputs and twice those of its responses sum up to less than 2^64, the abstract agent
  -- that remembers the prompt and no value gives the same responses to the inputs; the
  -- registry holds the values that it then remembers; and the agent's whole window is a
  -- function of all that it then remembers as said, which is the prompt and then, for each
  -- input, the input, the result of a tool that returned no error, under the role of the
  -- tool, and the response: of the messages before the last one, the oldest that are not the
  -- system's are gone, in the least number with which the rest and the last message have 4096
  -- tokens at most, or all of them where no number is enough.
  pub session-closed :
      (inputs : List Text) (q : Agent × List Text)
      → session percent profile inputs (boot new).0 ≡ done q
      → spoken (system_prompt ∷ inputs) + 2 * spoken q.1 < usize_mod
      → (m : Memory) × (front : List (Role × Text)) × (role : Role) × (content : Text) × (recollects
            percent profile prompted inputs
          ≡ done (m, q.1))
        × Represents q.0.tool_registry m.values
        × (m.said ≡ front ++ (role, content) ∷ [])
        × (q.0.context ≡ (closed 4096 (history front) (message_for role content)).0)
        × IsNeeded 4096
            (history front)
            (estimate_tokens content)
            (needed 4096 (history front) (estimate_tokens content))
  session-closed inputs q e tokens =
      let r = session-Recollected inputs q e in
      let (front, role, content, split) = last_said (system, system_prompt) r.parts in
      let bound : total_tokens (history front) + estimate_tokens content < usize_mod = omega (
        arith,
        tokens,
        Transcript-tokens r.transcript,
        ap (λ qs. total_tokens (history qs)) split,
        history_tokens-append front role content,
      ) in
      let (window, needed) = push_all-closed 4096 front role content bound in
      (
        r.memory,
        front,
        role,
        content,
        r.runs,
        r.remembers.represents,
        r.said ∙ split,
        r.remembers.window
            ∙ ap (λ qs. (push_all qs (Context.new 4096)).0) (r.said ∙ split)
            ∙ ap (λ p. p.0) window,
        needed,
      )
