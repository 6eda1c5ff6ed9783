-- ===== src/Store/Runs/Laws.antt =====
-- A run and its review end together, only at the hand of the owner; a new run is the newest.
use saturnus.Base.{
  eq_false→ne, ◌≢◌, last_row, String, ◌≤◌, ◌<◌, ◌≡◌, refl, ap, sym, ◌∙◌, ◌≢◌, ◌⊎◌, inl, inr, Bool,
  true, false, ◌&&◌, Option, some, ◌==◌, [], ◌∷◌, ◌++◌, subst, arith, eq_iff, eq_refl, eqb, ok,
  find_row, count_rows, Bool-cases, count_by_key, Keyed, and_left, and_right, All, max_row,
  max_row-le, last_row-append, any, All-map, update_one, last_row,
}
use saturnus.Store.Types.{Env, ReviewRequest, ReviewRun, Store}
use saturnus.Store.Reviews.{get_review}
use saturnus.Store.Runs.{
  owns_review, owns_run, finish_review, finish_run, complete_review_run, create_review_run,
  fill_run, latest_run,
}

-- What a new run needs, and what it is.
pub create_run_inversion :
    (env : Env) (run : ReviewRun) (s t : Store) (r : ReviewRun)
    → create_review_run env run s ≡ (t, ok r)
    → (fill_run env run s ≡ r)
      × (any (λ x. x.id == r.id) s.runs ≡ false)
      × (record s { runs = s.runs ++ r ∷ [] } ≡ t)
unfolding create_review_run
create_run_inversion env run s t r h = (ground arith, ground arith, ground arith)

-- A new run is stored behind the runs that were there, under a sequence number above those of all
-- earlier runs of its review, and is the review's latest run.
pub create_run_newest :
    (env : Env) (run : ReviewRun) (s t : Store) (r : ReviewRun)
    → create_review_run env run s ≡ (t, ok r)
    → (t.runs ≡ s.runs ++ r ∷ [])
      × (r.review_id ≡ run.review_id)
      × All (λ x. (x.review_id == run.review_id) ≡ true → x.seq < r.seq) s.runs
      × (latest_run run.review_id t ≡ some r)
unfolding latest_run fill_run
create_run_newest env run s t r h =
    let filled = fill_run env run s in
    let (is, _, made) = create_run_inversion env run s t r h in
    let stored : t.runs ≡ s.runs ++ filled ∷ [] =
      sym (ap (λ (u : Store). u.runs) made) ∙ ap (λ x. s.runs ++ x ∷ []) (sym is) in
    let mine : ReviewRun → Bool = λ x. x.review_id == run.review_id in
    subst
      (λ x.
        (t.runs ≡ s.runs ++ x ∷ [])
        × (x.review_id ≡ run.review_id)
        × All (λ y. (y.review_id == run.review_id) ≡ true → y.seq < x.seq) s.runs
        × (last_row (λ y. y.seq) mine t.runs ≡ some x))
      is
      (
        stored,
        refl,
        All-map (λ y. mine y ≡ true → y.seq ≤ max_row (λ x. x.seq) mine s.runs)
            (λ y. mine y ≡ true → y.seq < filled.seq) s.runs (λ y k e. omega (arith, k e))
            (max_row-le (λ y. y.seq) mine s.runs _ (omega arith)),
        ap (last_row (λ y. y.seq) mine) stored
            ∙ last_row-append (λ y. y.seq) mine s.runs filled (eq_refl run.review_id) (omega arith),
      )

unfoldable pub get_run : String → Store → Option ReviewRun
get_run id s = find_row (λ r. r.id == id) s.runs

-- Where the ids of reviews are unique, a completion of a stored review that is not reviewing, or
-- by a worker that does not own it, answers false and changes nothing.
pub complete_stale :
    (env : Env) (req : ReviewRequest) (run_id : String) (s : Store) (old : ReviewRequest)
    → Keyed (λ x. x.id) s.reviews
    → get_review req.id s ≡ some old
    → ((old.status ≢ "reviewing") ⊎ (old.worker_id ≢ req.worker_id))
    → complete_review_run env req run_id s ≡ (s, false)
unfolding complete_review_run get_review
complete_stale env req run_id s old k e other =
    let p : ReviewRequest → Bool = λ x. x.status == "reviewing" && x.worker_id == req.worker_id in
    let one = count_by_key (λ x. x.id) req.id p s.reviews old k e in
    let miss : p old ≡ false =
      ground (arith, eq_iff old.status "reviewing", eq_iff old.worker_id req.worker_id) in
    rw (one, miss)

-- What a completion that is applied finds and leaves.
pub record Completed (env : Env) (req : ReviewRequest) (run_id : String) (s t : Store)
    : Type 0 where
  pub review : ReviewRequest
  pub was : get_review req.id s ≡ some review
  pub reviewing : review.status ≡ "reviewing"
  pub owned : review.worker_id ≡ req.worker_id
  pub now :
      get_review req.id t
      ≡ some (record review {
        status = req.status;
        head_commit = req.head_commit;
        pr_head_commit = req.pr_head_commit;
        session_id = req.session_id;
        retry_reason = req.retry_reason;
        result_text = req.result_text;
        error = req.error;
        completed_at = req.completed_at;
        updated_at = env.now;
      })
  pub run_too :
      (run_id ≡ "")
      ⊎ ((run : ReviewRun) × (get_run run_id s ≡ some run)
          × (run.review_id ≡ req.id)
          × (run.status ≡ "running")
          × (run.worker_id ≡ req.worker_id)
          × (get_run run_id t
              ≡ some (record run {
                status = req.status;
                head_commit = req.head_commit;
                session_id = req.session_id;
                result_text = req.result_text;
                error = req.error;
                verdict = req.verdict;
                summary = req.summary;
                completed_at = req.completed_at;
                updated_at = env.now;
              })))

-- Where the ids of reviews and of runs are unique, a completion answers false and changes nothing,
-- where no review of the id is reviewing with the worker or, if a run is named, none of the id is
-- running for that review with the worker; or it answers true: then the review was reviewing and owned by the worker and takes the status,
-- commits, session, retry reason, texts and time of the outcome, and the run, if one is named, was
-- a running run of that review and worker and takes its status, commit, session, texts, verdict,
-- summary and time. All other columns of both rows stay.
pub complete_atomic :
    (env : Env) (req : ReviewRequest) (run_id : String) (s : Store)
    → Keyed (λ x. x.id) s.reviews
    → Keyed (λ x. x.id) s.runs
    → ((complete_review_run env req run_id s ≡ (s, false))
        × ((count_rows
                (λ r. r.id == req.id && (r.status == "reviewing" && r.worker_id == req.worker_id))
                s.reviews
              ≢ 1)
            ⊎ ((run_id ≢ "")
                × (count_rows
                      (λ r.
                        r.id == run_id
                        && (r.review_id == req.id
                            && (r.status == "running" && r.worker_id == req.worker_id)))
                      s.runs
                    ≢ 1))))
      ⊎ (((complete_review_run env req run_id s).1 ≡ true)
          × Completed env req run_id s (complete_review_run env req run_id s).0)
unfolding complete_review_run get_review get_run finish_review finish_run
complete_atomic env req run_id s k l =
    elim (Bool-cases (eqb (count_rows (owns_review req.id req.worker_id) s.reviews) 1)) [
      | inr e ↦ inl (rw e, inl (λ z. ground (arith, e, z)))
      | inl e ↦
          let (r, was, held, now) =
            update_one (λ x. x.id) req.id
              (λ x. x.status == "reviewing" && x.worker_id == req.worker_id) (finish_review env req)
              s.reviews k (λ a. refl) (ground arith) in
          let reviewing = (eq_iff r.status "reviewing").0 (and_left _ _ held) in
          let owned =
            (eq_iff r.worker_id req.worker_id).0 (and_right (r.status == "reviewing") _ held) in
          elim (Bool-cases (run_id == "")) [
            | inl none' ↦ inr (
              rw (e, none'),
              rw (e, none')
                  (record {
                    review = r;
                    was = was;
                    reviewing = reviewing;
                    owned = owned;
                    now = now;
                    run_too = inl ((eq_iff _ _).0 none');
                  }),
            )
            | inr some' ↦
                elim (Bool-cases
                  (eqb (count_rows (owns_run run_id req.id req.worker_id) s.runs) 1)) [
                    | inr f ↦ inl (
                      rw (e, some', f),
                      inr (eq_false→ne run_id "" some', λ z. ground (arith, f, z)),
                    )
                    | inl f ↦
                        let (x, was', held', now') =
                          update_one (λ y. y.id) run_id
                            (λ y.
                              y.review_id == req.id
                              && (y.status == "running" && y.worker_id == req.worker_id))
                            (finish_run env req) s.runs l (λ a. refl) (ground arith) in
                        let rest = and_right (x.review_id == req.id) _ held' in
                        inr (
                          rw (e, some', f),
                          rw (e, some', f)
                              (record {
                                review = r;
                                was = was;
                                reviewing = reviewing;
                                owned = owned;
                                now = now;
                                run_too = inr (
                                  x,
                                  was',
                                  (eq_iff _ _).0 (and_left _ _ held'),
                                  (eq_iff _ _).0 (and_left _ _ rest),
                                  (eq_iff _ _).0 (and_right (x.status == "running") _ rest),
                                  now',
                                );
                              }),
                        )
                  ]
          ]
    ]
