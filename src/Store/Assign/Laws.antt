-- ===== src/Store/Assign/Laws.antt =====
-- A review has one owner at a time: claims exclude one another, and only the owner hands back.
use saturnus.Base.{
  String, ◌≡◌, refl, ap, sym, ◌∙◌, ◌≢◌, ◌⊎◌, inl, inr, Bool, false, ◌&&◌, some, ◌==◌, arith, eq_iff,
  if◌then◌else◌, ok, err, not_pending, find_row, update_rows, count_rows, Bool-cases, Option-cases,
  count-update_none, find-update, find_row_holds, count_by_key, count-find_none, subst, Keyed,
  and_left, and_right,
}
use mathlib.Core.Option.{some_inj}
use saturnus.Store.Types.{Env, ReviewRequest, Store}
use saturnus.Store.Reviews.{get_review}
use saturnus.Store.Runs.{owns_review}
use saturnus.Store.Assign.{
  claims_review, claim_review, release_review, assign_review, requeue_review,
}

-- Once claimed, a review is not to be claimed again.
claimed_once :
    (env : Env) (id w : String) (s : Store)
    → count_rows (claims_review id) (update_rows (claims_review id) (claim_review env w) s.reviews)
      ≡ 0
claimed_once env id w s =
    count-update_none (claims_review id) (claim_review env w) (claims_review id) s.reviews
      (λ r h. ground (arith)) (λ r h. h)

abbrev pub claimed_store : Env → String → String → Store → Store
claimed_store env id w s = record s {
  reviews = update_rows (claims_review id) (claim_review env w) s.reviews;
}

pub assign_inversion :
    (env : Env) (id w : String) (s t : Store) (r : ReviewRequest)
    → assign_review env id w s ≡ (t, ok r)
    → (count_rows (claims_review id) s.reviews ≢ 0)
      × (t ≡ claimed_store env id w s)
      × (get_review id (claimed_store env id w s) ≡ some r)
unfolding assign_review
assign_inversion env id w s t r h = elim (Option-cases (get_review id (claimed_store env id w s))) [
  | inl e ↦ absurd (ground (arith, e))
  | inr (a, e) ↦ (ground (arith, e), ground (arith, e), ground (arith, e))
]

-- Where the ids of reviews are unique, a claim that succeeds found the review pending. It stores
-- and returns that review, now reviewing, bound to the worker, with the verdict and summary of
-- earlier rounds cleared.
pub assign_effect :
    (env : Env) (id w : String) (s t : Store) (r : ReviewRequest)
    → Keyed (λ x. x.id) s.reviews
    → assign_review env id w s ≡ (t, ok r)
    → (old : ReviewRequest) × (get_review id s ≡ some old)
      × (old.status ≡ "pending")
      × (r ≡ claim_review env w old)
      × (get_review id t ≡ some r)
unfolding get_review
assign_effect env id w s t r k h =
    let (hit, made, now) = assign_inversion env id w s t r h in
    elim (Option-cases (find_row (λ x. x.id == id) s.reviews)) [
      | inl e ↦
          absurd (hit (count-find_none (λ x. x.status == "pending") (λ x. x.id == id) s.reviews e))
      | inr (old, e) ↦
          let one = count_by_key (λ x. x.id) id (λ x. x.status == "pending") s.reviews old k e in
          let found = find_row_holds (λ x. x.id == id) s.reviews old e in
          elim (Bool-cases (old.status == "pending")) [
            | inr no' ↦ absurd (hit (one ∙ ap (λ b. if b then 1 else 0) no'))
            | inl pending ↦
                let moved : find_row (λ x. x.id == id) (claimed_store env id w s).reviews
                    ≡ some (claim_review env w old) =
                  find-update (claims_review id) (claim_review env w) (λ x. x.id == id) s.reviews
                    (λ a. refl)
                  ∙ rw e (rw (found, pending)) in
                (
                  old,
                  e,
                  (eq_iff _ _).0 pending,
                  some_inj.0 (sym now ∙ moved),
                  ap (λ (u : Store). find_row (λ x. x.id == id) u.reviews) made ∙ now,
                )
          ]
    ]

-- Whoever claims a review is the only one: from the store that a claim leaves, any other claim
-- of the review, by any worker, is refused as not pending and changes nothing.
pub assign_exclusive :
    (env env' : Env) (id w w' : String) (s t : Store) (r : ReviewRequest)
    → assign_review env id w s ≡ (t, ok r)
    → assign_review env' id w' t ≡ (t, err not_pending)
assign_exclusive env env' id w w' s t r h =
    let (_, made, now) = assign_inversion env id w s t r h in
    subst (λ (u : Store). assign_review env' id w' u ≡ (u, err not_pending)) (sym made)
      (unfold assign_review in rw (claimed_once env id w s, now))

-- Where the ids of reviews are unique, a stored review is handed back exactly when it is reviewing
-- and the worker owns it; it is then pending with no worker, updated now and else as it was, and in
-- any other case the answer is that it is not pending and the store is as it was.
pub requeue_iff :
    (env : Env) (id w : String) (s : Store) (old : ReviewRequest)
    → Keyed (λ x. x.id) s.reviews
    → get_review id s ≡ some old
    → ((old.status ≡ "reviewing")
        × (old.worker_id ≡ w)
        × ((requeue_review env id w s).1 ≡ ok tt)
        × (get_review id (requeue_review env id w s).0
            ≡ some (record old { status = "pending"; worker_id = ""; updated_at = env.now })))
      ⊎ (((old.status ≢ "reviewing") ⊎ (old.worker_id ≢ w))
          × (requeue_review env id w s ≡ (s, err not_pending)))
unfolding requeue_review get_review
requeue_iff env id w s old k e =
    let p : ReviewRequest → Bool = λ x. x.status == "reviewing" && x.worker_id == w in
    let one = count_by_key (λ x. x.id) id p s.reviews old k e in
    let found = find_row_holds (λ x. x.id == id) s.reviews old e in
    elim (Bool-cases (p old)) [
      | inl mine ↦ inl (
        (eq_iff _ _).0 (and_left _ _ mine),
        (eq_iff _ _).0 (and_right (old.status == "reviewing") _ mine),
        rw (one, mine),
        rw (one, mine)
            (find-update (owns_review id w) (release_review env) (λ x. x.id == id) s.reviews
                (λ a. refl)
              ∙ rw e (rw (found, mine))),
      )
      | inr other ↦ inr (elsewhere other, rw (one, other))
    ]
  where
    elsewhere :
        (old.status == "reviewing" && old.worker_id == w) ≡ false
        → (old.status ≢ "reviewing") ⊎ (old.worker_id ≢ w)
    elsewhere h = elim (Bool-cases (old.status == "reviewing")) [
      | inl a ↦ inr (λ q. ground (arith, a, eq_iff old.worker_id w))
      | inr a ↦ inl (λ q. ground (arith, a, eq_iff old.status "reviewing"))
    ]
