-- ===== src/Store/Contexts/Laws.antt =====
-- A reset takes a quiet review to a fresh pending run with a new context.
use mathlib.Core.Option.{none}
use saturnus.Base.{
  err, Error, count_rows, String, ◌+++◌, ◌≡◌, refl, ap, ◌∙◌, ◌⊎◌, inl, inr, false, not, ◌||◌, some,
  List, [], ◌∷◌, ◌++◌, ◌==◌, arith, eq_iff, eq_refl, if◌then◌else◌, eqb, ok, find_row, update_rows,
  touch, any, Bool-cases, Option-cases, find-update, find_row_holds, find-update_other, or-cases,
  not_found, context_busy, context_archived, ◌&&◌, ◌≢◌,
}
use mathlib.Core.Option
use saturnus.Store.Types.{Env, ReviewRequest, ReviewContext, Store}
use saturnus.Store.Reviews.{get_review, set_review}
use saturnus.Store.Approvals.{audit}
use saturnus.Store.Contexts.{
  active_work, reset_review, reset_review_context, review_context_id, upsert_context, new_context,
  context_of,
}

find_context :
    (k : String) (rows : List ReviewContext) (c : ReviewContext)
    → c.review_id ≡ k
    → find_row
        (λ x. x.review_id == k)
        (if any (λ x. x.review_id == k) rows
          then update_rows (λ x. x.review_id == k) (λ x. c) rows
          else rows ++ c ∷ [])
      ≡ some c
find_context k [] c e = rw (e, eq_refl k)
find_context k (x ∷ rows) c e = ground (arith, find_context k rows c e, eq_iff c.review_id k, e)

-- why a reset is refused
abbrev pub Refuses : String → Store → Type 0
Refuses id s =
    (get_review id s ≡ none)
    ⊎ ((old : ReviewRequest) × (get_review id s ≡ some old)
        × ((old.status ≡ "pending")
            ⊎ (old.status ≡ "reviewing")
            ⊎ (old.status ≡ "archived")
            ⊎ (count_rows
                  (λ r. r.review_id == id && (r.status == "pending" || r.status == "running"))
                  s.reactions
                ≢ 0)
            ⊎ (count_rows (λ r. r.review_id == id && r.status == "running") s.runs ≢ 0)))

-- What a reset that succeeds finds and leaves.
pub record Reset (env : Env) (id : String) (s t : Store) (req : ReviewRequest) (context : String)
    : Type 0 where
  pub old : ReviewRequest
  pub was : get_review id s ≡ some old
  pub not_pending : (old.status == "pending") ≡ false
  pub not_reviewing : (old.status == "reviewing") ≡ false
  pub not_archived : (old.status == "archived") ≡ false
  pub quiet_reactions :
      count_rows
        (λ r. r.review_id == id && (r.status == "pending" || r.status == "running"))
        s.reactions
      ≡ 0
  pub quiet_runs : count_rows (λ r. r.review_id == id && r.status == "running") s.runs ≡ 0
  pub returned : req ≡ record old {
    session_id = "";
    status = "pending";
    result_text = "";
    error = "";
    verdict = "";
    summary = "";
    completed_at = 0;
    comments_posted_at = 0;
    retry_reason = "review context reset";
    updated_at = env.now;
  }
  pub now : get_review id t ≡ some req
  pub rotated : review_context_id id t ≡ context
  pub named : context ≡ "ctx_" +++ env.new_id 0
  pub rows :
      t.reviews
      ≡ update_rows
          (λ r. r.id == id)
          (λ r. record r {
            session_id = "";
            status = "pending";
            result_text = "";
            error = "";
            verdict = "";
            summary = "";
            completed_at = 0;
            comments_posted_at = 0;
            retry_reason = "review context reset";
            updated_at = env.now;
          })
          s.reviews
  pub others_kept : (j : String) → (id == j) ≡ false → get_review j t ≡ get_review j s
  pub runs_kept : t.runs ≡ s.runs
  pub findings_kept : t.findings ≡ s.findings
  pub reactions_kept : t.reactions ≡ s.reactions

context-upsert :
    (c : ReviewContext) (s : Store)
    → review_context_id c.review_id (upsert_context c s) ≡ c.context_id
unfolding review_context_id upsert_context
context-upsert c s = elim (Bool-cases (any (λ x. x.review_id == c.review_id) s.contexts)) [
  | inl e ↦ rw e (ap context_of (rw e at (find_context c.review_id s.contexts c refl)))
  | inr e ↦ rw e (ap context_of (rw e at (find_context c.review_id s.contexts c refl)))
]

upsert-keeps :
    (c : ReviewContext) (s : Store)
    → ((upsert_context c s).reviews ≡ s.reviews)
      × ((upsert_context c s).runs ≡ s.runs)
      × ((upsert_context c s).findings ≡ s.findings)
      × ((upsert_context c s).reactions ≡ s.reactions)
unfolding upsert_context
upsert-keeps c s = ground arith

get-reset :
    (env : Env) (id : String) (s t : Store) (old : ReviewRequest)
    → t.reviews ≡ s.reviews
    → get_review id s ≡ some old
    → get_review id (set_review id (reset_review env) t) ≡ some (reset_review env old)
unfolding get_review set_review
get-reset env id s t old same e =
    find-update (λ r. r.id == id) (reset_review env) (λ r. r.id == id) t.reviews (λ a. refl)
    ∙ ap
        (λ (rows : List ReviewRequest).
          Option.map (touch (λ r. r.id == id) (reset_review env)) (find_row (λ r. r.id == id) rows))
        same
    ∙ rw e (rw (find_row_holds (λ r. r.id == id) s.reviews old e))

get-other :
    (env : Env) (id j : String) (s t : Store)
    → t.reviews ≡ s.reviews
    → (id == j) ≡ false
    → get_review j (set_review id (reset_review env) t) ≡ get_review j s
unfolding get_review set_review
get-other env id j s t same apart =
    find-update_other (λ r. r.id) id j (λ r. r.id == id) (reset_review env) t.reviews (λ a e. e)
      (λ a. refl) apart
    ∙ ap (find_row (λ r. r.id == j)) same

module _ (id : String) (s : Store) (old : ReviewRequest) (was : get_review id s ≡ some old) where
  Refuses-open : not (old.status == "pending" || old.status == "reviewing") ≡ false → Refuses id s
  Refuses-open a = inr (
    old,
    was,
    elim (or-cases (old.status == "pending") (old.status == "reviewing") (ground (arith, a))) [
      | inl p ↦ inl ((eq_iff old.status "pending").0 p)
      | inr p ↦ inr (inl ((eq_iff old.status "reviewing").0 p))
    ],
  )

  Refuses-archived : not (old.status == "archived") ≡ false → Refuses id s
  Refuses-archived b =
      inr (old, was, inr (inr (inl ((eq_iff old.status "archived").0 (ground (arith, b))))))

  Refuses-active : eqb (active_work id s) 0 ≡ false → Refuses id s
  Refuses-active d =
      let reactions =
        count_rows (λ r. r.review_id == id && (r.status == "pending" || r.status == "running"))
          s.reactions in
      inr (
        old,
        was,
        inr (
            inr (
              inr (elim (Bool-cases (eqb reactions 0)) [
                | inl x ↦ inr (λ z. ground (arith, d, x, z))
                | inr x ↦ inl (λ z. ground (arith, x, z))
              ]))),
      )

-- A reset answers an error and changes nothing, where the review is unknown, pending, reviewing or
-- archived or has a pending or running reaction or a running run. In any other case it succeeds: the
-- review is pending, with its session, result, verdict, summary and the times of completion and of
-- comments cleared, its context is the one answered, new by its random id, and every other review
-- reads as before, as do runs, findings and reactions.
pub fresh_context :
    (env : Env) (id actor : String) (s : Store)
    → ((e : Error) × (reset_review_context env id actor s ≡ (s, err e)) × Refuses id s)
      ⊎ ((req : ReviewRequest) × (context : String) × ((reset_review_context env id actor s).1
            ≡ ok (req, context))
          × Reset env id s (reset_review_context env id actor s).0 req context)
unfolding reset_review_context get_review set_review audit review_context_id
fresh_context env id actor s =
    let c = new_context env id actor in
    elim (Option-cases (get_review id s)) [
      | inl e ↦ inl (not_found, rw e, inl e)
      | inr (old, e) ↦
          elim (Bool-cases (not (old.status == "pending" || old.status == "reviewing"))) [
            | inr a ↦ inl (context_busy, rw (e, a), Refuses-open id s old e a)
            | inl a ↦ elim (Bool-cases (not (old.status == "archived"))) [
              | inr b ↦ inl (context_archived, rw (e, a, b), Refuses-archived id s old e b)
              | inl b ↦ elim (Bool-cases (eqb (active_work id s) 0)) [
                | inr d ↦ inl (context_busy, rw (e, a, b, d), Refuses-active id s old e d)
                | inl d ↦ inr (
                  reset_review env old,
                  "ctx_" +++ env.new_id 0,
                  rw (e, a, b, d),
                  rw (e, a, b, d)
                      (record {
                        old = old;
                        was = e;
                        not_pending = ground (arith, a);
                        not_reviewing = ground (arith, a);
                        not_archived = ground (arith, b);
                        quiet_reactions = ground (arith, d);
                        quiet_runs = ground (arith, d);
                        returned = refl;
                        now = get-reset env id s (upsert_context c s) old (upsert-keeps c s).0 e;
                        rotated = context-upsert c s;
                        named = refl;
                        rows =
                            ap (update_rows (λ r. r.id == id) (reset_review env))
                              (upsert-keeps c s).0;
                        others_kept =
                            λ j n. get-other env id j s (upsert_context c s) (upsert-keeps c s).0 n;
                        runs_kept = (upsert-keeps c s).1;
                        findings_kept = (upsert-keeps c s).2;
                        reactions_kept = (upsert-keeps c s).3;
                      }),
                )
              ]
            ]
          ]
    ]
