-- ===== src/Examples/Approvals.antt =====
-- Approvals on concrete rows.
use saturnus.Base.{◌∷◌, [], ◌≡◌, ◌⊎◌, refl, true, ok, err, already_decided, some, none, ◌≤◌}
use saturnus.Store.Types.{ApprovalRequest, ApprovalDecision, Store, empty_store}
use saturnus.Store.Approvals.{
  decide_approval, create_approval, get_approval, session_by, fill_decision,
}
use saturnus.Store.Approvals.Laws.{decide_once}
use saturnus.Store.Approvals.History.{
  start, next, creates, elsewhere, decides, IsSettled, Reach-IsSettled,
}
use saturnus.Policy.{is_read, risk, evaluate, has_secret_pattern}
use saturnus.Server.Approvals.{handle_create_approval, automatic}
use saturnus.Server.Approvals.Laws.{handle_create_decides_low_risk, handle_create_given_status}
use saturnus.Examples.Rows.{monday, tuesday, same_text, session, asked, approve, small}

abbrev deny : ApprovalDecision
deny = record approve { decision = "denied"; decided_by = "bob" }

abbrev approved : ApprovalRequest
approved = record asked { status = "approved"; reason = "fine" }

abbrev decided : Store
decided = (decide_approval monday "apr1" approve small).0

decided_now :
    decide_approval monday "apr1" approve small
    ≡ (decided, ok (approved, fill_decision monday "apr1" approve))
unfolding decide_approval fill_decision get_approval
decided_now = refl

decide_once_example : decide_approval tuesday "apr1" deny decided ≡ (decided, err already_decided)
decide_once_example =
    decide_once monday tuesday "apr1" approve deny small decided approved
      (fill_decision monday "apr1" approve) decided_now

abbrev created : Store
created = (create_approval monday asked (record empty_store { sessions = session ∷ [] })).0

Reach-IsSettled_example : IsSettled (decide_approval tuesday "apr1" deny created).0
Reach-IsSettled_example = Reach-IsSettled (decide_approval tuesday "apr1" deny created).0 (
    next
      (next
        (next start
          (elsewhere empty_store (record empty_store { sessions = session ∷ [] }) refl refl))
        (creates monday asked (record empty_store { sessions = session ∷ [] })))
      (decides tuesday "apr1" deny created))

abbrev plain : ApprovalRequest
plain = record asked { id = "apr2"; status = "" }

abbrev given : ApprovalRequest
given = record asked { id = "apr3"; status = "denied" }

handle_create_decides_low_risk_example :
    ((handle_create_approval same_text monday tuesday plain small).0.decisions ≡ small.decisions)
    ⊎ ((s : _) × (session_by plain.session_id small ≡ some s)
        × (s.auto_pass ≡ true)
        × ((s.auto_pass_until ≡ 0) ⊎ (100 ≤ s.auto_pass_until))
        × (risk same_text plain.tool_name plain.tool_input ≡ "low"))
handle_create_decides_low_risk_example =
    handle_create_decides_low_risk same_text monday tuesday plain small

auto_pass : (evaluate same_text 100 session "read" "main.go").auto_approve ≡ true
unfolding evaluate risk is_read has_secret_pattern
auto_pass = refl

handle_create_given_status_example :
    (stored : ApprovalRequest) × ((handle_create_approval same_text monday tuesday given small).1
      ≡ automatic stored none)
    × (stored.status ≡ "denied")
    × (get_approval stored.id (handle_create_approval same_text monday tuesday given small).0
        ≡ some stored)
    × ((handle_create_approval same_text monday tuesday given small).0.decisions ≡ small.decisions)
handle_create_given_status_example =
    handle_create_given_status same_text monday tuesday given small session refl auto_pass refl refl
