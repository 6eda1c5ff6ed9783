-- ===== src/Store/Approvals/History.antt =====
-- Every history of CreateApproval and DecideApproval calls: the decisions on record and the
-- requests agree.
use saturnus.Base.{
  String, ◌≡◌, refl, ap, subst, ◌∙◌, sym, ◌≢◌, ◌⊎◌, inl, inr, Bool, none, some, List, [], ◌∷◌, ◌++◌,
  ◌==◌, arith, ok, find_row, All, All-append, All-map, Keyed, Keyed-append, commit-cases,
  text_clash, ne→eq_false,
}
use mathlib.Core.Option.{some_inj}
use saturnus.Store.Types.{Env, ApprovalRequest, ApprovalDecision, Store, empty_store}
use saturnus.Store.Approvals.{
  get_approval, create_approval, decide_approval, decide_tx, fill_approval,
}
use saturnus.Store.Approvals.Laws.{decide_effect}

-- One call, by an agent, a reviewer or the policy, that may fail, or any change of the tables
-- other than requests and decisions.
pub data Step : Store → Store → Type 0 where
  creates : (env : Env) (req : ApprovalRequest) (s : Store) → Step s (create_approval env req s).0
  decides :
      (env : Env) (id : String) (d : ApprovalDecision) (s : Store)
      → Step s (decide_approval env id d s).0
  -- the rest of the server: agents, sessions, events, reviews
  elsewhere : (s t : Store) → t.approvals ≡ s.approvals → t.decisions ≡ s.decisions → Step s t

pub data Reach : Store → Type 0 where
  start : Reach empty_store
  next : {s t : Store} → Reach s → Step s t → Reach t

-- The request of a decision shows the decision, which is one of the two.
pub record Shown (s : Store) (d : ApprovalDecision) : Type 0 where
  pub request : ApprovalRequest
  pub stored : get_approval d.request_id s ≡ some request
  pub agrees : request.status ≡ d.decision
  pub named : (d.decision ≡ "approved") ⊎ (d.decision ≡ "denied")

pub record IsSettled (s : Store) : Type 0 where
  pub shown : All (Shown s) s.decisions
  pub single : Keyed (λ d. d.request_id) s.decisions

-- A row that is found is still found when rows are added behind it.
find-append :
    (p : ApprovalRequest → Bool) (rows : List ApprovalRequest) (r a : ApprovalRequest)
    → find_row p rows ≡ some a
    → find_row p (rows ++ r ∷ []) ≡ some a
find-append p [] r a h = absurd (cc)
find-append p (x ∷ rows) r a h = ground (arith, find-append p rows r a)

created-cases :
    (env : Env) (req : ApprovalRequest) (s : Store)
    → ((create_approval env req s).0 ≡ s)
      ⊎ (((create_approval env req s).0.decisions ≡ s.decisions)
          × ((create_approval env req s).0.approvals ≡ s.approvals ++ fill_approval env req ∷ []))
unfolding create_approval
created-cases env req s = ground arith

decided-cases :
    (env : Env) (id : String) (d : ApprovalDecision) (s : Store)
    → ((decide_approval env id d s).0 ≡ s)
      ⊎ ((req : ApprovalRequest) × (dec : ApprovalDecision) × (decide_approval env id d s
            ≡ ((decide_approval env id d s).0, ok (req, dec))))
unfolding decide_approval
decided-cases env id d s = elim (commit-cases s (decide_tx env id d s)) [
  | inl e ↦ inl e
  | inr (a, e) ↦ inr (a.0, a.1, e)
]

ne_of_decided :
    (s : Store) (id : String) (old : ApprovalRequest)
    → get_approval id s ≡ some old
    → old.status ≡ "pending"
    → (d : ApprovalDecision) → Shown s d
    → d.request_id ≢ id
ne_of_decided s id old e p d h q =
    let same : h.request ≡ old = some_inj.0 (sym h.stored ∙ ap (λ i. get_approval i s) q ∙ e) in
    let pending : d.decision ≡ "pending" = sym h.agrees ∙ ap (λ r. r.status) same ∙ p in
    elim h.named [
      | inl a ↦ text_clash d.decision "approved" "pending" a pending refl
      | inr a ↦ text_clash d.decision "denied" "pending" a pending refl
    ]

same-Shown :
    (s t : Store) (d : ApprovalDecision)
    → get_approval d.request_id t ≡ get_approval d.request_id s
    → Shown s d
    → Shown t d
same-Shown s t d e h = record {
  request = h.request;
  stored = e ∙ h.stored;
  agrees = h.agrees;
  named = h.named;
}

-- A new request hides no row.
Shown-create :
    (s t : Store) (r : ApprovalRequest)
    → t.approvals ≡ s.approvals ++ r ∷ []
    → (d : ApprovalDecision) → Shown s d
    → Shown t d
unfolding get_approval
Shown-create s t r e d h = record {
  request = h.request;
  stored =
      ap (find_row (λ a. a.id == d.request_id)) e
      ∙ find-append (λ a. a.id == d.request_id) s.approvals r h.request h.stored;
  agrees = h.agrees;
  named = h.named;
}

create-IsSettled :
    (env : Env) (req : ApprovalRequest) (s : Store)
    → IsSettled s
    → IsSettled (create_approval env req s).0
create-IsSettled env req s v = elim (created-cases env req s) [
  | inl e ↦ subst IsSettled (sym e) v
  | inr (same, more) ↦ record {
    shown = subst (All (Shown (create_approval env req s).0)) (sym same) (
        All-map (Shown s) (Shown (create_approval env req s).0) s.decisions
          (Shown-create s (create_approval env req s).0 (fill_approval env req) more) v.shown);
    single = subst (Keyed (λ d. d.request_id)) (sym same) v.single;
  }
]

find-none :
    (P : ApprovalDecision → Type 0) (id : String) (ds : List ApprovalDecision)
    → ((d : ApprovalDecision) → P d → d.request_id ≢ id)
    → All P ds
    → find_row (λ d. d.request_id == id) ds ≡ none
find-none P id [] h all = refl
find-none P id (d ∷ ds) h all =
    rw (ne→eq_false d.request_id id (h d all.0)) (find-none P id ds h all.1)

decide-IsSettled :
    (env : Env) (id : String) (d : ApprovalDecision) (s : Store)
    → IsSettled s
    → IsSettled (decide_approval env id d s).0
decide-IsSettled env id d s v = elim (decided-cases env id d s) [
  | inl e ↦ subst IsSettled (sym e) v
  | inr (req, dec, e) ↦
      let t = (decide_approval env id d s).0 in
      let (named, (old, found, pending, now), added, for_id, says, others) =
        decide_effect env id d s t req dec e in
      let apart = ne_of_decided s id old found pending in
      let mine : Shown t dec = record {
        request = record old { status = d.decision; reason = d.reason };
        stored = ap (λ i. get_approval i t) for_id ∙ now;
        agrees = sym says;
        named = subst (λ x. (x ≡ "approved") ⊎ (x ≡ "denied")) (sym says) named;
      } in
      record {
        shown = subst (All (Shown t)) (sym added) (
            All-append (Shown t) s.decisions dec
              (All-map (Shown s) (Shown t) s.decisions
                (λ x h. same-Shown s t x (others x.request_id (λ q. apart x h (sym q))) h) v.shown)
              mine);
        single = subst (Keyed (λ x. x.request_id)) (sym added) (
            Keyed-append (λ x. x.request_id) s.decisions dec v.single
              (find-none (Shown s) dec.request_id s.decisions (λ x h q. apart x h (q ∙ for_id))
                v.shown));
      }
]

same-IsSettled :
    (s t : Store)
    → t.approvals ≡ s.approvals
    → t.decisions ≡ s.decisions
    → IsSettled s
    → IsSettled t
unfolding get_approval
same-IsSettled s t e f v = record {
  shown = subst (All (Shown t)) (sym f) (
      All-map (Shown s) (Shown t) s.decisions
        (λ x h. same-Shown s t x (ap (find_row (λ a. a.id == x.request_id)) e) h) v.shown);
  single = subst (Keyed (λ d. d.request_id)) (sym f) v.single;
}

-- After any history of creations and decisions, failed ones included, each decision on record is
-- "approved" or "denied" and is what its request shows, and no request has two decisions.
pub Reach-IsSettled : (s : Store) → Reach s → IsSettled s
Reach-IsSettled s start = record { shown = tt; single = tt }
Reach-IsSettled t (next r (creates env req s)) = create-IsSettled env req s (Reach-IsSettled s r)
Reach-IsSettled t (next r (decides env id d s)) = decide-IsSettled env id d s (Reach-IsSettled s r)
Reach-IsSettled t (next r (elsewhere s _ e f)) = same-IsSettled s t e f (Reach-IsSettled s r)
