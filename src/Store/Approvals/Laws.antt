-- ===== src/Store/Approvals/Laws.antt =====
-- An approval is decided at most once, by one of the two decisions.
use saturnus.Base.{
  eq_refl, String, ◌+++◌, ◌≡◌, refl, ap, ◌∙◌, ◌≢◌, ◌⊎◌, inl, inr, true, false, ◌||◌, some, List, [],
  ◌∷◌, ◌++◌, ◌==◌, arith, eq_iff, eq_excludes, any, ◌++◌, [], ◌∷◌, or_text, ok, or-cases,
  Option-cases, ok, err, already_decided, find_row, update_rows, any, find-update, find_row_holds,
  ne→eq_false,
}
use saturnus.Store.Types.{Env, ApprovalRequest, ApprovalDecision, Session, Store}
use saturnus.Store.Approvals.{
  create_approval, get_approval, decide_approval, session_by, fill_approval, fill_decision,
  set_decision, audit,
}

-- What a successful decision needs, and the store that it leaves.
record Decided (env : Env) (id : String) (d : ApprovalDecision) (s t : Store)
    (req : ApprovalRequest) (dec : ApprovalDecision) : Type 0 where
  pub old : ApprovalRequest
  pub found : get_approval id s ≡ some old
  pub was_pending : old.status ≡ "pending"
  pub valid : (d.decision == "approved" || d.decision == "denied") ≡ true
  pub req_eq : req ≡ record old { status = d.decision; reason = d.reason }
  pub dec_eq : dec ≡ fill_decision env id d
  pub fresh : any (λ r. r.id == dec.id) s.decisions ≡ false
  pub store_eq :
      t
      ≡ audit env d.decided_by
          (("approval." +++ d.decision))
          id
          (record (set_decision id d.decision d.reason s) { decisions = s.decisions ++ dec ∷ [] })

decide_inversion :
    (env : Env) (id : String) (d : ApprovalDecision) (s t : Store) (req : ApprovalRequest)
    (dec : ApprovalDecision)
    → decide_approval env id d s ≡ (t, ok (req, dec))
    → Decided env id d s t req dec
unfolding decide_approval get_approval
decide_inversion env id d s t req dec h =
    elim (Option-cases (find_row (λ r. r.id == id) s.approvals)) [
      | inl e ↦ absurd (ground (arith, e))
      | inr (old, e) ↦ record {
        old = old;
        found = e;
        was_pending = ground (arith, e, eq_iff old.status "pending");
        valid = ground (arith, e);
        req_eq = ground (arith, e);
        dec_eq = ground (arith, e);
        fresh = ground (arith, e);
        store_eq = ground (arith, e);
      }
    ]

-- After a decision the request shows it.
get-set_decision :
    (id status reason : String) (s : Store) (old : ApprovalRequest)
    → get_approval id s ≡ some old
    → get_approval id (set_decision id status reason s)
      ≡ some (record old { status = status; reason = reason })
unfolding get_approval set_decision
get-set_decision id status reason s old e = ground (
  arith,
  find-update (λ r. r.id == id) (λ r. record r { status = status; reason = reason })
      (λ r. r.id == id) s.approvals (λ a. refl),
  find_row_holds (λ r. r.id == id) s.approvals old e,
  e,
)

get-set_decision_ne :
    (id j status reason : String) (s : Store)
    → id ≢ j
    → get_approval j (set_decision id status reason s) ≡ get_approval j s
unfolding get_approval set_decision
get-set_decision_ne id j status reason s h = go s.approvals
  where
    go :
        (rows : List ApprovalRequest)
        → find_row
            (λ r. r.id == j)
            (update_rows
              (λ r. r.id == id)
              (λ r. record r { status = status; reason = reason })
              rows)
          ≡ find_row (λ r. r.id == j) rows
    go [] = refl
    go (r ∷ rows) =
        ground (arith, go rows, eq_iff r.id id, eq_iff r.id j, ne→eq_false id j h, eq_iff id j)

decision_ne_pending :
    (d : String) → (d == "approved" || d == "denied") ≡ true → (d == "pending") ≡ false
decision_ne_pending d h = elim (or-cases _ _ h) [
  | inl e ↦ eq_excludes d "approved" "pending" e refl
  | inr e ↦ eq_excludes d "denied" "pending" e refl
]

-- A decision that succeeds is the only one: from the store that it leaves, any other decision of the
-- same request, by anyone, is refused as already decided and changes nothing.
pub decide_once :
    (env env' : Env) (id : String) (d d' : ApprovalDecision) (s t : Store) (req : ApprovalRequest)
    (dec : ApprovalDecision)
    → decide_approval env id d s ≡ (t, ok (req, dec))
    → decide_approval env' id d' t ≡ (t, err already_decided)
unfolding decide_approval audit get_approval
decide_once env env' id d d' s t req dec h =
    let inv = decide_inversion env id d s t req dec h in
    let e = get-set_decision id d.decision d.reason s inv.old inv.found in
    let found : find_row (λ r. r.id == id) t.approvals
        ≡ some (record inv.old { status = d.decision; reason = d.reason }) =
      ap (λ (u : Store). find_row (λ r. r.id == id) u.approvals) inv.store_eq ∙ e in
    rw found (rw (decision_ne_pending d.decision inv.valid))

-- A decision that succeeds is one of the two decisions, of a request that was pending. It records
-- itself for that request, sets the request's status and reason to its own, and leaves every other
-- request and the rows of earlier decisions as they were.
pub decide_effect :
    (env : Env) (id : String) (d : ApprovalDecision) (s t : Store) (req : ApprovalRequest)
    (dec : ApprovalDecision)
    → decide_approval env id d s ≡ (t, ok (req, dec))
    → ((d.decision ≡ "approved") ⊎ (d.decision ≡ "denied"))
      × ((old : ApprovalRequest) × (get_approval id s ≡ some old)
          × (old.status ≡ "pending")
          × (get_approval id t ≡ some (record old { status = d.decision; reason = d.reason })))
      × (t.decisions ≡ s.decisions ++ dec ∷ [])
      × (dec.request_id ≡ id)
      × (dec.decision ≡ d.decision)
      × ((j : String) → id ≢ j → get_approval j t ≡ get_approval j s)
unfolding audit set_decision fill_decision get_approval
decide_effect env id d s t req dec h =
    let inv = decide_inversion env id d s t req dec h in
    (
      named inv.valid,
      (
        inv.old,
        inv.found,
        inv.was_pending,
        ap (λ (u : Store). get_approval id u) inv.store_eq
            ∙ get-set_decision id d.decision d.reason s inv.old inv.found,
      ),
      ap (λ (u : Store). u.decisions) inv.store_eq,
      ap (λ (x : ApprovalDecision). x.request_id) inv.dec_eq,
      ap (λ (x : ApprovalDecision). x.decision) inv.dec_eq,
      λ j n.
          ap (λ (u : Store). get_approval j u) inv.store_eq
          ∙ get-set_decision_ne id j d.decision d.reason s n,
    )
  where
    named :
        (d.decision == "approved" || d.decision == "denied") ≡ true
        → (d.decision ≡ "approved") ⊎ (d.decision ≡ "denied")
    named v = elim (or-cases _ _ v) [
      | inl e ↦ inl ((eq_iff _ _).0 e)
      | inr e ↦ inr ((eq_iff _ _).0 e)
    ]

find-new :
    (k : String) (rows : List ApprovalRequest) (r : ApprovalRequest)
    → any (λ a. a.id == k) rows ≡ false
    → (r.id == k) ≡ true
    → find_row (λ a. a.id == k) (rows ++ r ∷ []) ≡ some r
find-new k [] r h e = rw e
find-new k (x ∷ rows) r h e = ground (arith, find-new k rows r)

-- A request for a known session under a fresh id is stored with the defaults filled in.
pub create_ok :
    (env : Env) (req : ApprovalRequest) (s : Store) (session : Session)
    → session_by req.session_id s ≡ some session
    → any (λ r. r.id == or_text req.id ("apr_" +++ env.new_id 0)) s.approvals ≡ false
    → (t : Store) × (filled : ApprovalRequest) × (create_approval env req s ≡ (t, ok filled))
      × (get_approval filled.id t ≡ some filled)
      × (t.decisions ≡ s.decisions)
      × (filled.status ≡ or_text req.status "pending")
unfolding create_approval get_approval
create_ok env req s session e fresh =
    let filled = fill_approval env req in
    (
      audit env ("agent:" +++ filled.session_id) "approval.create" filled.id
          (record s { approvals = s.approvals ++ filled ∷ [] }),
      filled,
      rw (e, fresh),
      find-new filled.id s.approvals filled fresh (eq_refl filled.id),
      refl,
      refl,
    )

-- A pending request takes a valid decision under a fresh id.
pub decide_ok :
    (env : Env) (id : String) (d : ApprovalDecision) (s : Store) (old : ApprovalRequest)
    → get_approval id s ≡ some old
    → old.status ≡ "pending"
    → (d.decision == "approved" || d.decision == "denied") ≡ true
    → any (λ x. x.id == or_text d.id ("dec_" +++ env.new_id 0)) s.decisions ≡ false
    → (t : Store) × (decide_approval env id d s
        ≡ (t, ok (record old { status = d.decision; reason = d.reason }, fill_decision env id d)))
unfolding decide_approval get_approval
decide_ok env id d s old e p v fresh = (
  audit env d.decided_by ("approval." +++ d.decision) id
      (record (set_decision id d.decision d.reason s) {
        decisions = s.decisions ++ fill_decision env id d ∷ [];
      }),
  rw (e, p, v, fresh),
)

-- A request that is not pending takes no decision.
pub decide_settled :
    (env : Env) (id : String) (d : ApprovalDecision) (s : Store) (old : ApprovalRequest)
    → get_approval id s ≡ some old
    → (old.status == "pending") ≡ false
    → decide_approval env id d s ≡ (s, err already_decided)
unfolding decide_approval get_approval
decide_settled env id d s old e p = rw (e, p)
