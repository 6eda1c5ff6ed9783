-- ===== src/Policy/Laws.antt =====
-- Which requests are low risk, and which are approved with nobody asked.
use saturnus.Base.{◌≤◌, String, ◌≡◌, ◌↔◌, ◌⊎◌, true, false, arith, eq_iff}
use saturnus.Store.Types.{Time, Session}
use saturnus.Policy.{
  risk, evaluate, has_allowed_command, has_dangerous_command, has_external_path, has_secret_pattern,
  is_read, is_write, is_exec,
}

module _ (to_lower : String → String) where
  -- What a low risk rests on: no secret pattern, and a tool of one of three kinds.
  abbrev pub LowRisk : String → String → Type 0
  LowRisk tool input =
      let name = to_lower tool in
      let body = to_lower input in
      (has_secret_pattern body ≡ false)
      × ((is_read name ≡ true)
          ⊎ ((is_write name ≡ true) × (has_external_path body ≡ false))
          ⊎ ((is_exec name ≡ true)
              × (is_write name ≡ false)
              × (has_dangerous_command body ≡ false)
              × (has_allowed_command body ≡ true)))

  -- The risk is low exactly when the input has no secret pattern and the tool reads, or writes
  -- with no external path, or runs an allowed command that is not dangerous.
  pub risk_low : (tool input : String) → (risk to_lower tool input ≡ "low") ↔ LowRisk tool input
  unfolding risk
  risk_low tool input = ground (arith, eq_iff "high" "low", eq_iff "medium" "low")

  -- A request is approved automatically exactly when the session has auto-pass on, its time limit
  -- is unset or not yet past, and the risk is low.
  pub evaluate_auto :
      (now : Time) (session : Session) (tool input : String)
      → ((evaluate to_lower now session tool input).auto_approve ≡ true) ↔ (
          (session.auto_pass ≡ true)
          × ((session.auto_pass_until ≡ 0) ⊎ (now ≤ session.auto_pass_until))
          × (risk to_lower tool input ≡ "low"))
  unfolding evaluate
  evaluate_auto now session tool input = ground (arith, eq_iff (risk to_lower tool input) "low")
