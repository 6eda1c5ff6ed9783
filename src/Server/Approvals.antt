-- ===== src/Server/Approvals.antt =====
-- The approval handlers of cmd/saturnus-server/main.go. Decoding the request and encoding the
-- reply are left out, and so is the Lark message about a request that waits.
pub mod Laws
use saturnus.Base.{
  ℕ, ◌+◌, String, Bool, true, false, Option, none, some, ◌==◌, if◌then◌else◌, or_text, Result, ok,
  err, Error, not_found, already_decided,
}
use saturnus.Store.Types.{Env, Session, ApprovalRequest, ApprovalDecision, Store}
use saturnus.Store.Approvals.{session_by, get_approval, create_approval, decide_approval}
use saturnus.Policy.{Evaluation, evaluate}

pub data Reply : Type 0 where
  failed : Error → Reply
  automatic : ApprovalRequest → Option ApprovalDecision → Reply
  waiting : ApprovalRequest → String → Reply

-- the decision that the policy makes
abbrev pub policy_decision : String → ApprovalDecision
policy_decision reason = record {
  id = "";
  request_id = "";
  decision = "approved";
  decided_by = "policy";
  source = "auto";
  reason = reason;
  created_at = 0;
}

abbrev found_or : ApprovalRequest → Option ApprovalRequest → ApprovalRequest
found_or r none = r
found_or r (some x) = x

-- `DecideApproval` hands back the stored request also where it was decided already.
after_decide : ApprovalRequest → Store × Result (ApprovalRequest × ApprovalDecision) → Store × Reply
after_decide created (s, ok (req, d)) = (s, automatic req (some d))
after_decide created (s, err already_decided) =
    (s, automatic (found_or created (get_approval created.id s)) none)
after_decide created (s, err e) = (s, failed e)

after_create : Env → String → Store × Result ApprovalRequest → Store × Reply
unfolding after_decide
after_create env reason (s, ok created) =
    after_decide created (decide_approval env created.id (policy_decision reason) s)
after_create env reason (s, err e) = (s, failed e)

wait_reply : String → Store × Result ApprovalRequest → Store × Reply
wait_reply reason (s, ok created) = (s, waiting created reason)
wait_reply reason (s, err e) = (s, failed e)

module _ (to_lower : String → String) where
  -- `env` serves the evaluation and CreateApproval, `env'` DecideApproval.
  unfoldable pub handle_create_approval : Env → Env → ApprovalRequest → Store → Store × Reply
  unfolding after_create wait_reply
  handle_create_approval env env' req s = elim (session_by req.session_id s) [
    | none ↦ (s, failed not_found)
    | some session ↦
        let eval = evaluate to_lower env.now session req.tool_name req.tool_input in
        let rated = record req { risk_level = eval.risk_level } in
        if eval.auto_approve
        then after_create env' eval.reason
            (create_approval env (record rated { reason = eval.reason }) s)
        else wait_reply eval.reason (create_approval env (record rated { status = "pending" }) s)
  ]

-- `decideApproval`, the reviewer's decision from the web page
unfoldable pub handle_decide_approval :
    Env → String → ApprovalDecision → Store → Store × Result (ApprovalRequest × ApprovalDecision)
handle_decide_approval env request_id d s =
    decide_approval env request_id
      (record d { decided_by = or_text d.decided_by "web"; source = or_text d.source "web" }) s
