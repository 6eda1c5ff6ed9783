-- ===== src/Server/Approvals/Laws.antt =====
-- What reaches the store without a person: only requests that the policy approves.
use saturnus.Base.{
  ◌≤◌, String, ◌≡◌, refl, ap, ◌∙◌, ◌⊎◌, true, false, none, some, ◌==◌, ◌++◌, ◌∷◌, [], arith,
  Option-cases, Bool-cases, inl, inr, ok, err, Result, or_text, any, List, ◌+++◌, subst, sym,
}
use mathlib.Core.Option.{some_inj}
use saturnus.Store.Types.{Env, Session, ApprovalRequest, ApprovalDecision, Store}
use saturnus.Store.Approvals.{fill_decision, session_by, get_approval, create_approval}
use saturnus.Store.Approvals.Laws.{decide_settled, create_ok, decide_ok, decide_effect}
use saturnus.Policy.{risk, evaluate}
use saturnus.Policy.Laws.{evaluate_auto}
use saturnus.Server.Approvals.{
  Reply, policy_decision, automatic, handle_create_approval, wait_reply,
}

-- CreateApproval decides nothing.
decisions-create :
    (env : Env) (req : ApprovalRequest) (s : Store)
    → (create_approval env req s).0.decisions ≡ s.decisions
unfolding create_approval
decisions-create env req s = ground arith

decisions-wait :
    (reason : String) (r : Store × Result ApprovalRequest) → (wait_reply reason r).0 ≡ r.0
unfolding wait_reply
decisions-wait reason (s, ok a) = refl
decisions-wait reason (s, err e) = refl

module _ (to_lower : String → String) where
  -- The handler leaves the decisions as they were, unless the session has auto-pass on, its limit
  -- is unset or not yet past, and the request's risk is low.
  pub handle_create_decides_low_risk :
      (env env' : Env) (req : ApprovalRequest) (s : Store)
      → ((handle_create_approval to_lower env env' req s).0.decisions ≡ s.decisions)
        ⊎ ((session : Session) × (session_by req.session_id s ≡ some session)
            × (session.auto_pass ≡ true)
            × ((session.auto_pass_until ≡ 0) ⊎ (env.now ≤ session.auto_pass_until))
            × (risk to_lower req.tool_name req.tool_input ≡ "low"))
  unfolding handle_create_approval
  handle_create_decides_low_risk env env' req s =
      elim (Option-cases (session_by req.session_id s)) [
        | inl e ↦ inl (rw (e, handle_create_approval))
        | inr (session, e) ↦
            elim (Bool-cases
              (evaluate to_lower env.now session req.tool_name req.tool_input).auto_approve) [
                | inl auto ↦
                    let (on, in_time, low) =
                      (evaluate_auto to_lower env.now session req.tool_name req.tool_input).0
                        auto in
                    inr (session, e, on, in_time, low)
                | inr manual ↦ inl (
                    rw (e, manual, handle_create_approval)
                      (ap (λ (u : Store). u.decisions) (decisions-wait _ _)
                        ∙ decisions-create env _ s))
              ]
      ]

  -- An automatic approval, where the ids are fresh and the request does not bring a status of its
  -- own: the stored request is approved with the policy's reason, and the policy's decision is
  -- recorded for it.
  pub handle_create_auto :
      (env env' : Env) (req : ApprovalRequest) (s : Store) (session : Session)
      → session_by req.session_id s ≡ some session
      → (evaluate to_lower env.now session req.tool_name req.tool_input).auto_approve ≡ true
      → or_text req.status "pending" ≡ "pending"
      → any (λ r. r.id == or_text req.id ("apr_" +++ env.new_id 0)) s.approvals ≡ false
      → any (λ d. d.id == ("dec_" +++ env'.new_id 0)) s.decisions ≡ false
      → (stored : ApprovalRequest) × (d : ApprovalDecision) × ((handle_create_approval to_lower env
            env' req s).1
          ≡ automatic stored (some d))
        × (get_approval stored.id (handle_create_approval to_lower env env' req s).0 ≡ some stored)
        × (stored.status ≡ "approved")
        × (d.request_id ≡ stored.id)
        × (d.decided_by ≡ "policy")
        × ((handle_create_approval to_lower env env' req s).0.decisions ≡ s.decisions ++ d ∷ [])
  unfolding handle_create_approval fill_decision
  handle_create_auto env env' req s session found auto plain fresh fresh' =
      let eval = evaluate to_lower env.now session req.tool_name req.tool_input in
      let asked : ApprovalRequest = record req {
        risk_level = eval.risk_level;
        reason = eval.reason;
      } in
      let (t, filled, made, there, same, status) = create_ok env asked s session found fresh in
      let (u, done) =
        decide_ok env' filled.id (policy_decision eval.reason) t filled there (status ∙ plain) refl
          (subst
            (λ (ds : List ApprovalDecision).
              any (λ d. d.id == ("dec_" +++ env'.new_id 0)) ds ≡ false)
            (sym same) fresh') in
      let (_, (old, was, _, now), added, for_id, says, _) =
        decide_effect env' filled.id (policy_decision eval.reason) t u _ _ done in
      let stored : ApprovalRequest = record filled { status = "approved"; reason = eval.reason } in
      let dec = fill_decision env' filled.id (policy_decision eval.reason) in
      let runs : handle_create_approval to_lower env env' req s ≡ (u, automatic stored (some dec)) =
        rw (found, handle_create_approval) (rw (auto, made, done)) in
      let old_is : filled ≡ old = some_inj.0 (sym there ∙ was) in
      (
        stored,
        dec,
        ap (λ (x : Store × Reply). x.1) runs,
        ap (λ (x : Store × Reply). get_approval filled.id x.0) runs
            ∙ now
            ∙ ap
                (λ (r : ApprovalRequest).
                  some (record r { status = "approved"; reason = eval.reason }))
                (sym old_is),
        refl,
        for_id,
        refl,
        ap (λ (x : Store × Reply). x.0.decisions) runs ∙ added ∙ ap (λ ds. ds ++ dec ∷ []) same,
      )

  -- Where the policy approves a request that brings a fresh id and a status other than pending, that
  -- status is stored and replied as automatic, and no decision is recorded.
  pub handle_create_given_status :
      (env env' : Env) (req : ApprovalRequest) (s : Store) (session : Session)
      → session_by req.session_id s ≡ some session
      → (evaluate to_lower env.now session req.tool_name req.tool_input).auto_approve ≡ true
      → (or_text req.status "pending" == "pending") ≡ false
      → any (λ r. r.id == or_text req.id ("apr_" +++ env.new_id 0)) s.approvals ≡ false
      → (stored : ApprovalRequest) × ((handle_create_approval to_lower env env' req s).1
          ≡ automatic stored none)
        × (stored.status ≡ or_text req.status "pending")
        × (get_approval stored.id (handle_create_approval to_lower env env' req s).0 ≡ some stored)
        × ((handle_create_approval to_lower env env' req s).0.decisions ≡ s.decisions)
  unfolding handle_create_approval
  handle_create_given_status env env' req s session found auto given fresh =
      let eval = evaluate to_lower env.now session req.tool_name req.tool_input in
      let asked : ApprovalRequest = record req {
        risk_level = eval.risk_level;
        reason = eval.reason;
      } in
      let (t, filled, made, there, same, status) = create_ok env asked s session found fresh in
      let refused =
        decide_settled env' filled.id (policy_decision eval.reason) t filled there
          (ap (λ x. x == "pending") status ∙ given) in
      let runs : handle_create_approval to_lower env env' req s ≡ (t, automatic filled none) =
        rw (found, handle_create_approval) (rw (auto, made, refused) (rw there)) in
      (
        filled,
        ap (λ (x : Store × Reply). x.1) runs,
        status,
        ap (λ (x : Store × Reply). get_approval filled.id x.0) runs ∙ there,
        ap (λ (x : Store × Reply). x.0.decisions) runs ∙ same,
      )
