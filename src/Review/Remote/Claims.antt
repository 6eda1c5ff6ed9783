-- ===== src/Review/Remote/Claims.antt =====
-- What the start of a run on a worker does to a review that waits.
use saturnus.Base.{
  String, true, ◌==◌, ◌≡◌, ◌⊎◌, refl, sym, ap, ◌∙◌, inl, inr, some, Bool-cases, Result-cases,
  Result, Error, ok, err, arith, Keyed, eqb, count_rows, update_rows, find_row, find_row_holds,
  find-update, count_by_key, update_none, eq_iff,
}
use saturnus.Store.Types.{Env, ReviewRequest, ReviewRun, Store}
use saturnus.Store.Reviews.{get_review}
use saturnus.Store.Runs.{create_review_run, owns_review}
use saturnus.Store.Assign.{
  assign_review, requeue_review, claims_review, claim_review, release_review,
}
use saturnus.Store.Assign.Laws.{claimed_store}
use saturnus.Review.Remote.{
  JobPayload, Outside, Config, start_remote, prepare, claimed, started, remote_run,
}
use saturnus.Review.Remote.Start.{create_error}

-- the review waits for a worker
abbrev pub Waits : String → Store → Type 0
Waits id s = (r : ReviewRequest) × (get_review id s ≡ some r) × (r.status ≡ "pending")

-- the worker has the review
abbrev pub Holds : String → String → Store → Type 0
Holds id w s =
    (r : ReviewRequest) × (get_review id s ≡ some r) × (r.status ≡ "reviewing") × (r.worker_id ≡ w)

Holds-same : (id w : String) (s t : Store) → t.reviews ≡ s.reviews → Holds id w s → Holds id w t
unfolding get_review
Holds-same id w s t e (r, h, k, l) = (r, ap (find_row (λ r. r.id == id)) e ∙ h, k, l)

-- What a worker holds waits after the rows that it owns are released.
pub release-Waits :
    (env : Env) (id w : String) (s t : Store)
    → Holds id w s
    → t.reviews ≡ update_rows (owns_review id w) (release_review env) s.reviews
    → Waits id t
unfolding get_review
release-Waits env id w s t (r, got, busy, mine) e =
    let found = find_row_holds (λ x. x.id == id) s.reviews r got in
    let owned : owns_review id w r ≡ true =
      ground (arith, found, eq_iff r.status "reviewing", eq_iff r.worker_id w, busy, mine) in
    (
      release_review env r,
      ap (find_row (λ x. x.id == id)) e
          ∙ find-update (owns_review id w) (release_review env) (λ x. x.id == id) s.reviews
              (λ a. refl)
          ∙ rw got (rw owned refl),
      refl,
    )

requeue-rows :
    (env : Env) (id w : String) (s : Store)
    → (requeue_review env id w s).0.reviews
      ≡ update_rows (owns_review id w) (release_review env) s.reviews
unfolding requeue_review
requeue-rows env id w s = elim (Bool-cases (eqb (count_rows (owns_review id w) s.reviews) 0)) [
  | inl e ↦
      rw e (sym (update_none (owns_review id w) (release_review env) s.reviews (ground (arith, e))))
  | inr e ↦ rw e refl
]

assign_pending :
    (env : Env) (id w : String) (s : Store) (old : ReviewRequest)
    → Keyed (λ r. r.id) s.reviews
    → get_review id s ≡ some old
    → old.status ≡ "pending"
    → (assign_review env id w s ≡ (claimed_store env id w s, ok (claim_review env w old)))
      × Holds id w (claimed_store env id w s)
unfolding assign_review get_review
assign_pending env id w s old k e pending =
    let one = count_by_key (λ x. x.id) id (λ x. x.status == "pending") s.reviews old k e in
    let found = find_row_holds (λ x. x.id == id) s.reviews old e in
    let moved : find_row (λ x. x.id == id) (claimed_store env id w s).reviews
        ≡ some (claim_review env w old) =
      find-update (claims_review id) (claim_review env w) (λ x. x.id == id) s.reviews (λ a. refl)
      ∙ rw e (rw (found, pending)) in
    (rw (one, pending, moved), (claim_review env w old, moved, refl, refl))

create-reviews :
    (env : Env) (run : ReviewRun) (s : Store) → (create_review_run env run s).0.reviews ≡ s.reviews
unfolding create_review_run
create-reviews env run s = ground arith

module _ (out : Outside) (cfg : Config) where
  -- a start that fails leaves the review waiting; one that succeeds leaves it with the worker
  abbrev pub Started : String → String → Store × Result JobPayload → Type 0
  Started id w r =
      ((e : Error) × (r.1 ≡ err e) × Waits id r.0)
      ⊎ ((payload : JobPayload) × (r.1 ≡ ok payload) × Holds id w r.0)

  started-Started :
      (env : Env) (id w : String) (payload : JobPayload) (r : ReviewRequest) (s : Store)
      → Holds id w s
      → Started id w
          (started out cfg env id w payload (create_review_run env (remote_run out cfg r w) s))
  unfolding started
  started-Started env id w payload r s h =
      let run = remote_run out cfg r w in
      let result = create_review_run env run s in
      elim (Result-cases result.1) [
        | inl (x, e) ↦
            let is : result ≡ (result.0, ok x) = ap (λ y. (result.0, y)) e in
            rw is (inr (_, refl, Holds-same id w s result.0 (create-reviews env run s) h))
        | inr (x, e) ↦
            let is : result ≡ (s, err x) =
              ap (λ y. (result.0, y)) e ∙ ap (λ y. (y, err x)) (create_error env run s x e) in
            rw is (
              inl (
                x,
                refl,
                release-Waits env id w s (requeue_review env id w s).0 h (requeue-rows env id w s),
              ))
      ]

  pub start_remote-Started :
      (env : Env) (req : ReviewRequest) (w : String) (s : Store)
      → Keyed (λ r. r.id) s.reviews
      → get_review req.id s ≡ some req
      → req.status ≡ "pending"
      → Started req.id w (start_remote out cfg env req w s)
  unfolding start_remote claimed
  start_remote-Started env req w s k e pending = elim (Result-cases (prepare out cfg req.id w s)) [
    | inr (x, f) ↦ rw (f, start_remote) (inl (x, refl, (req, e, pending)))
    | inl (payload, f) ↦
        let (is, held) = assign_pending env req.id w s req k e pending in
        rw (f, start_remote)
          (rw is (
            started-Started env req.id w payload (claim_review env w req)
              (claimed_store env req.id w s) held))
  ]
