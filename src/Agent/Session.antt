-- ===== src/Agent/Session.antt =====
-- A session with the agent against the abstract agent, which knows of no registry and no tables.
use llm_os_rust.Base.{
  map, ℕ, ◌≡◌, refl, sym, ap, ◌∙◌, false, List, [], ◌∷◌, ◌++◌, Result, ok, err, Outcome, done,
  panicked, ◌>>=◌,
}
use llm_os_rust.Text.{Text, codes, starts_with, splitn_two}
use llm_os_rust.Text.Equality.{starts_with-append}
use llm_os_rust.Text.Pieces.{splitn_two-append, splitn_two-Lacks}
use llm_os_rust.Context
use llm_os_rust.Context.{ContextWindow, Role, user, assistant, tool, push_message, status}
use llm_os_rust.Context.History.{push_all}
use llm_os_rust.Context.Closed.{push_all-append}
use llm_os_rust.Tools.{ToolRegistry, execute}
use llm_os_rust.Tools.I64.{Profile}
use llm_os_rust.Agent.{
  Agent, tool_prefix, process_input, respond, handle_tool_call, tool_response, record_response,
  first_part, second_part, help, processing_line,
}
use llm_os_rust.Agent.Grammar.{Command, Asks, with_args, without, asks_status, helps, says, AllAsk}
use llm_os_rust.Agent.Reading.{asked, asked-AllAsk, asked-Asks}
use llm_os_rust.Agent.Ideal.{
  Answer, plainly, words, Values, Memory, turn, reply, Represents, Matches, Calls-Matches,
  Remembers, status_of, replies,
}
use llm_os_rust.Agent.Commands.{respond-plain, plain_response}

pub window-append :
    (c : ContextWindow) (said more : List (Role × Text))
    → c ≡ (push_all said (Context.new 4096)).0
    → (push_all more c).0 ≡ (push_all (said ++ more) (Context.new 4096)).0
window-append c said more e =
    ap (λ w. (push_all more w).0) e
    ∙ sym (ap (λ p. p.0) (push_all-append said more (Context.new 4096)))

module _ (percent : ℕ → ℕ → Text) (profile : Profile) where
  -- Inputs one after the other, with the responses of the agent.
  unfoldable pub converse : List Text → Agent → Outcome (List Text)
  converse [] a = done []
  converse (input ∷ inputs) a = do
    p ← process_input percent profile input a
    rest ← converse inputs p.0
    done (p.1 ∷ rest)

  -- Both panic, or both answer with the same text, correspond again, and the window got the turn.
  abbrev pub Agrees :
      ContextWindow → Text → Outcome (Agent × Text × Text) → Outcome (Answer × Values) → Type 0
  Agrees c input panicked panicked = Unit
  Agrees c input (done p) (done q) =
      (p.1 ≡ words q.0)
      × Represents p.0.tool_registry q.1
      × (p.0.context ≡ (push_all (turn input q.0) c).0)
  Agrees c input _ _ = ⊥

  answered-Agrees :
      (input printed : Text) (a b : Agent) (m : Outcome (Result Text Text × ToolRegistry))
      (n : Outcome (Answer × Values))
      → b.context ≡ (push_message user input a.context).0
      → Matches m n
      → Agrees a.context input
          (do
            response ← (do answer ← m; done (tool_response b answer))
            done (record_response percent printed response))
          n
  unfolding record_response tool_response push_all
  answered-Agrees input printed a b panicked panicked e h = tt
  answered-Agrees input printed a b (done (ok result, r)) (done q) e (same, rep) = (
    ap words same,
    rep,
    ap (λ c. (push_message assistant result (push_message tool result c).0).0) e
        ∙ ap (λ answer. (push_all (turn input answer) a.context).0) same,
  )
  answered-Agrees input printed a b (done (err e', r)) (done q) e (same, rep) = (
    ap words same,
    rep,
    ap (λ c. (push_message assistant (codes "Tool error: " ++ e') c).0) e
        ∙ ap (λ answer. (push_all (turn input answer) a.context).0) same,
  )
  answered-Agrees input printed a b panicked (done q) e h = absurd h
  answered-Agrees input printed a b (done p) panicked e h = absurd h

  -- An input that begins with `/tool `, by the parts of what follows.
  call-Agrees :
      (rest called args : Text) (a : Agent) (n : Outcome (Answer × Values))
      → first_part (splitn_two b' ' rest) ≡ called
      → second_part (splitn_two b' ' rest) ≡ args
      → Matches (execute profile called args a.tool_registry) n
      → Agrees a.context
          (tool_prefix ++ rest)
          (process_input percent profile (tool_prefix ++ rest) a)
          n
  unfolding process_input respond handle_tool_call
  call-Agrees rest called args a n named given h =
      let c = push_message user (tool_prefix ++ rest) a.context in
      rw (starts_with-append tool_prefix rest, named, given)
        (answered-Agrees (tool_prefix ++ rest)
          (c.1 ++ processing_line percent (tool_prefix ++ rest)) a (record a { context = c.0 })
          (execute profile called args a.tool_registry) n refl h)

  plain-Agrees :
      (text answer : Text) (a : Agent) (values : Values)
      → starts_with text tool_prefix ≡ false
      → plain_response percent profile text (push_message user text a.context).0 ≡ answer
      → Represents a.tool_registry values
      → Agrees a.context text (process_input percent profile text a) (done (plainly answer, values))
  unfolding process_input record_response push_all
  plain-Agrees text answer a values plain e rep =
      let c = push_message user text a.context in
      rw (respond-plain percent profile text (record a { context = c.0 }) plain)
        (e, rep, ap (λ s. (push_message assistant s c.0).0) e)

  Asks-Agrees :
      {text : Text} {c : Command} (a : Agent) (values : Values) (shown : Text)
      → Asks text c
      → status percent (push_message user text a.context).0 ≡ shown
      → Represents a.tool_registry values
      → Agrees a.context text (process_input percent profile text a) (reply profile values shown c)
  unfolding first_part second_part
  Asks-Agrees a values shown (with_args {tool = called} {args} lacks calls) e rep =
      call-Agrees (called ++ b' ' ∷ args) called args a _
        (ap first_part (splitn_two-append b' ' called args lacks))
        (ap second_part (splitn_two-append b' ' called args lacks))
        (Calls-Matches profile a.tool_registry values shown calls rep)
  Asks-Agrees a values shown (without {tool = called} lacks calls) e rep =
      call-Agrees called called [] a _ (ap first_part (splitn_two-Lacks b' ' called lacks))
        (ap second_part (splitn_two-Lacks b' ' called lacks))
        (Calls-Matches profile a.tool_registry values shown calls rep)
  Asks-Agrees a values shown (asks_status {text} plain asks) e rep =
      unfold reply in plain-Agrees text shown a values plain (rw asks e) rep
  Asks-Agrees a values shown (helps {text} plain context asks) e rep =
      unfold reply in plain-Agrees text help a values plain (rw (context, asks) refl) rep
  Asks-Agrees a values shown (says {text} plain context other) e rep =
      unfold reply in plain-Agrees text _ a values plain (rw (context, other) refl) rep

  pub turn-Agrees :
      (input : Text) (a : Agent) (m : Memory)
      → Remembers a m
      → Agrees a.context input
          (process_input percent profile input a)
          (reply profile m.values (status_of percent (m.said ++ (user, input) ∷ [])) (asked input))
  unfolding push_all
  turn-Agrees input a m r =
      Asks-Agrees a m.values _ (asked-Asks input)
        (ap (status percent) (window-append a.context m.said ((user, input) ∷ []) r.window))
        r.represents

  replies-converse :
      (inputs : List Text) (a : Agent) (m : Memory)
      → Remembers a m
      → converse inputs a ≡ replies percent profile m inputs
  unfolding converse replies
  replies-converse [] a m r = refl
  replies-converse (input ∷ inputs) a m r =
      next (process_input percent profile input a) _ (λ b n. replies-converse inputs b n)
        (turn-Agrees input a m r)
    where
      next :
          (o : Outcome (Agent × Text × Text)) (n : Outcome (Answer × Values))
          → ((b : Agent) (m' : Memory)
              → Remembers b m'
              → converse inputs b ≡ replies percent profile m' inputs)
          → Agrees a.context input o n
          → (do p ← o; rest ← converse inputs p.0; done (p.1 ∷ rest)) ≡ (do
            q ← n
            rest ←
                replies percent profile
                  (record { values = q.1; said = m.said ++ turn input q.0 })
                  inputs
            done (words q.0 ∷ rest))
      next panicked panicked ih g = refl
      next (done p) panicked ih g = absurd g
      next panicked (done q) ih g = absurd g
      next (done p) (done q) ih (text, rep, window) = rw (
        text,
        ih p.0 (record { values = q.1; said = m.said ++ turn input q.0 })
            (record {
              represents = rep;
              window = window ∙ window-append a.context m.said (turn input q.0) r.window;
            }),
      )

  -- On an agent that holds what the abstract agent remembers, any inputs have in the grammar
  -- of the commands the reading that `asked` gives, and are answered by it one after the
  -- other as the abstract agent answers, which remembers the value of each key and what was
  -- said, and knows of no registry and no tables; a question for the status is answered with
  -- that of the window that all that was said was pushed into; and the agent panics where,
  -- and only where, the calculation of the abstract agent does.
  pub converse-replies :
      (inputs : List Text) (a : Agent) (m : Memory)
      → Remembers a m
      → AllAsk inputs (map asked inputs) × (converse inputs a ≡ replies percent profile m inputs)
  converse-replies inputs a m r = (asked-AllAsk inputs, replies-converse inputs a m r)
