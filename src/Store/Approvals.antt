-- ===== src/Store/Approvals.antt =====
-- Approval requests and their decisions, internal/store/store.go: CreateApproval, ListApprovals,
-- DecideApproval, GetApproval, and the audit row that each change writes.
pub mod Laws
pub mod History
use saturnus.Base.{
  ℕ, ◌+◌, ◌*◌, String, ◌+++◌, Bool, true, false, ◌&&◌, ◌||◌, not, Option, none, some, List, [], ◌∷◌,
  ◌++◌, ◌==◌, if◌then◌else◌, or_text, or_number, Result, ok, err, Error, not_found, already_decided,
  invalid_decision, constraint, commit, check, find_row, select_rows, update_rows, any, or_fail,
  ◌>>=◌, ◌>>◌,
}
use saturnus.Store.Types.{Time, Env, Session, ApprovalRequest, ApprovalDecision, AuditLog, Store}

unfoldable pub audit : Env → String → String → String → Store → Store
audit env actor action target s = record s { audit_logs = s.audit_logs ++ entry ∷ [] }
  where
    entry : AuditLog
    entry = record { actor = actor; action = action; target = target; created_at = env.now }

abbrev pub minute : Time
minute = 60 * 1000000000

abbrev pub session_by : String → Store → Option Session
session_by id s = find_row (λ r. r.id == id) s.sessions

unfoldable pub get_approval : String → Store → Option ApprovalRequest
get_approval id s = find_row (λ r. r.id == id) s.approvals

-- the defaults that `CreateApproval` fills in
fill_approval : Env → ApprovalRequest → ApprovalRequest
fill_approval env req = record req {
  id = or_text req.id ("apr_" +++ env.new_id 0);
  status = or_text req.status "pending";
  created_at = created;
  expires_at = or_number req.expires_at (created + 10 * minute);
  tool_input = or_text req.tool_input "{}";
}
  where
    created : Time
    created = or_number req.created_at env.now

-- INSERT INTO approvals: the id is the primary key
insert_approval : ApprovalRequest → Store → Result Store
insert_approval req s =
    if any (λ r. r.id == req.id) s.approvals
    then err constraint
    else ok (record s { approvals = s.approvals ++ req ∷ [] })

unfoldable pub create_approval : Env → ApprovalRequest → Store → Store × Result ApprovalRequest
unfolding fill_approval insert_approval audit
create_approval env req s = commit s do
  _ ← or_fail (session_by req.session_id s) not_found
  let filled = fill_approval env req
  t ← insert_approval filled s
  ok (audit env ("agent:" +++ filled.session_id) "approval.create" filled.id t, filled)

-- The order, newest first by the stored text of `created_at`, is left out.
unfoldable pub list_approvals : String → Store → List ApprovalRequest
list_approvals status s =
    if status == "" then s.approvals else select_rows (λ r. r.status == status) s.approvals

-- The UNIQUE constraint on request_id is left out, so this accepts more than the database does.
insert_decision : ApprovalDecision → Store → Result Store
insert_decision d s =
    if any (λ r. r.id == d.id) s.decisions
    then err constraint
    else ok (record s { decisions = s.decisions ++ d ∷ [] })

set_decision : String → String → String → Store → Store
set_decision id status reason s = record s {
  approvals =
      update_rows (λ r. r.id == id) (λ r. record r { status = status; reason = reason })
        s.approvals;
}

unfoldable pub fill_decision : Env → String → ApprovalDecision → ApprovalDecision
fill_decision env request_id d = record d {
  id = or_text d.id ("dec_" +++ env.new_id 0);
  request_id = request_id;
  created_at = or_number d.created_at env.now;
}

-- what `DecideApproval` does inside its transaction
decide_tx :
    Env → String → ApprovalDecision → Store → Result (Store × (ApprovalRequest × ApprovalDecision))
unfolding fill_decision set_decision insert_decision audit
decide_tx env request_id d s = do
  req ← or_fail (find_row (λ r. r.id == request_id) s.approvals) not_found
  check (req.status == "pending") already_decided
  check (d.decision == "approved" || d.decision == "denied") invalid_decision
  let decided = fill_decision env request_id d
  let after = record req { status = d.decision; reason = d.reason }
  t ← insert_decision decided (set_decision request_id after.status after.reason s)
  ok (audit env d.decided_by ("approval." +++ d.decision) request_id t, (after, decided))

unfoldable pub decide_approval :
    Env → String → ApprovalDecision → Store → Store × Result (ApprovalRequest × ApprovalDecision)
unfolding decide_tx
decide_approval env request_id d s = commit s (decide_tx env request_id d s)
