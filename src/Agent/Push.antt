-- ===== src/Agent/Push.antt =====
-- A push into the agent's window, and the invariant of that window.
use llm_os_rust.Base.{◌+◌, ◌^◌, ◌≤◌, ◌<◌, ◌≡◌, refl, ap, ◌∙◌, false, [], ◌∷◌, ◌++◌, inl, inr, arith}
use llm_os_rust.Text.{Text}
use llm_os_rust.Context.{
  ContextWindow, Role, system, is_system, estimate_tokens, push_message, usize_mod,
}
use llm_os_rust.Context.Eviction.{total_tokens, system_only}
use llm_os_rust.Context.Push.{IsValid, message_for, push_message_lem, push_message-IsValid}
use llm_os_rust.Context.Bounds.{push_message-system_only, push_message_bounded, tokens_stuck}
use llm_os_rust.Agent.{system_prompt}

-- A text of less than 2^62 bytes.
abbrev pub Fits : Text → Type 0
Fits text = estimate_tokens text < 2 ^ 60

pub record IsRunningWindow (c : ContextWindow) : Type 0 where
  pub valid : IsValid c
  pub limit : c.max_tokens ≡ 4096
  pub prompt : system_only c.messages ≡ message_for system system_prompt ∷ []
  pub light : c.current_tokens ≤ 4096 + 2 ^ 60

pub prompt_tokens : estimate_tokens system_prompt ≤ 4096
unfolding estimate_tokens system_prompt
prompt_tokens = omega arith

module _ (role : Role) (content : Text) (c : ContextWindow) (running : IsRunningWindow c)
    (other : is_system role ≡ false) (fits : Fits content) where
  -- The sum that the push computes is far from wrapping around.
  pub push_no_overflow : c.current_tokens + estimate_tokens content < usize_mod
  push_no_overflow = omega (arith, running.light)

  prompt_kept :
      system_only (push_message role content c).0.messages ≡ message_for system system_prompt ∷ []
  prompt_kept =
      push_message-system_only role content c running.valid push_no_overflow
      ∙ ap (λ ms. ms ++ system_only (message_for role content ∷ [])) running.prompt
      ∙ (unfold system_only in rw other refl)

  light_after : (push_message role content c).0.current_tokens ≤ 4096 + 2 ^ 60
  light_after = elim (tokens_stuck role content c running.valid push_no_overflow) [
    | inl within ↦ omega (arith, running.limit)
    | inr e ↦ omega (arith, ap total_tokens running.prompt, prompt_tokens)
  ]

  pub push_message-IsRunningWindow : IsRunningWindow (push_message role content c).0
  push_message-IsRunningWindow = record {
    valid = push_message-IsValid role content c running.valid push_no_overflow;
    limit =
        (push_message_lem role content c running.valid push_no_overflow).1.max_kept ∙ running.limit;
    prompt = prompt_kept;
    light = light_after;
  }

  -- On a running window, a message that is not the system's, is shorter than 2^62 bytes and
  -- has tokens that fit into 4096 together with those of the prompt leaves the window with at
  -- most 4096 tokens.
  pub push_message_within :
      estimate_tokens system_prompt + estimate_tokens content ≤ 4096
      → (push_message role content c).0.current_tokens ≤ 4096
  push_message_within h = omega (
    arith,
    running.limit,
    ap total_tokens running.prompt,
    push_message_bounded role content c running.valid push_no_overflow,
  )
