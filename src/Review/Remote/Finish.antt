-- ===== src/Review/Remote/Finish.antt =====
-- The ends of a run: completion, hand-back and restart leave no running run behind.
use saturnus.Base.{
  ◌≤◌, String, ◌≡◌, refl, ap, ◌∙◌, inl, inr, Bool, true, false, ◌&&◌, none, some, ◌==◌, arith,
  eq_refl, Keyed-update, All, All-update, All-map, All-find, count_rows, update_rows, Bool-cases,
  Option-cases, subst, last-count, and_left, and_right, eqb, update_one,
}
use saturnus.Store.Types.{Env, ReviewRequest, ReviewRun, Store}
use saturnus.Store.Runs.{
  is_running, current_run, update_review_run, replace_run, owns_review, owns_run,
  complete_review_run, finish_review, finish_run,
}
use saturnus.Store.Assign.{requeue_review, release_review}
use saturnus.Review.Remote.{Outside, Config, requeue_for_orphan, run_id_of}
use saturnus.Review.Remote.Running.{count-update-le, count-update_covered, only_row, All-last}
use saturnus.Review.Remote.Invariant.{busy, busy_of, Consistent, settle-Consistent}

busy_le_one : (id : String) (s : Store) → busy id s ≤ 1
unfolding busy busy_of
busy_le_one id s = ground arith

and_false : (b : Bool) → (b && false) ≡ false
and_false b = ground arith

-- The current run is the only running one.
current-only :
    (id : String) (s : Store) (run : ReviewRun)
    → Consistent s
    → current_run id s ≡ some run
    → All (λ r. is_running id r ≡ true → r ≡ run) s.runs
unfolding current_run
current-only id s run c e =
    only_row (λ r. r.seq) (is_running id) s.runs run (omega (arith, c.one_run id, busy_le_one id s))
      e

current-none :
    (id : String) (s : Store) → current_run id s ≡ none → count_rows (is_running id) s.runs ≡ 0
unfolding current_run
current-none id s e = last-count (λ r. r.seq) (is_running id) s.runs e

abbrev failed_run : String → Env → ReviewRun → ReviewRun
failed_run reason env run = record run { status = "failed"; error = reason; completed_at = env.now }

-- One review changes, and an update that takes all its running runs out of running goes with it.
pub settle_both :
    (id : String) (p : ReviewRequest → Bool) (g : ReviewRequest → ReviewRequest)
    (q : ReviewRun → Bool) (f : ReviewRun → ReviewRun) (s : Store)
    → ((r : ReviewRequest) → p r ≡ true → (r.id == id) ≡ true)
    → ((r : ReviewRequest) → (g r).id ≡ r.id)
    → ((r : ReviewRun) → (f r).id ≡ r.id)
    → ((r : ReviewRun) → ((f r).status == "running") ≡ false)
    → All (λ r. is_running id r ≡ true → q r ≡ true) s.runs
    → Consistent s
    → Consistent (record s { reviews = update_rows p g s.reviews; runs = update_rows q f s.runs })
settle_both id p g q f s only keep keep' ends covers c =
    settle-Consistent id p g (update_rows q f s.runs) s only keep c
      (Keyed-update (λ r. r.id) q f s.runs keep' c.run_ids)
      (All-update (λ r. (r.id == "") ≡ false) q f s.runs (λ r _ h. ap (λ i. i == "") (keep' r) ∙ h)
        c.run_named)
      (λ j.
        count-update-le (is_running j) q f s.runs
          (λ r h. absurd (cc (ends r, and_right ((f r).review_id == j) _ h))))
      (count-update_covered (is_running id) q f s.runs covers
        (λ r. ap (λ b. (f r).review_id == id && b) (ends r) ∙ and_false ((f r).review_id == id)))

-- A run that owns a completion is the current one, where one is current.
owned-current :
    (id w : String) (s : Store) (run : ReviewRun)
    → Consistent s
    → current_run id s ≡ some run
    → count_rows (owns_run run.id id w) s.runs ≡ 1
    → owns_run run.id id w run ≡ true
owned-current id w s run c n one =
    let (a, found, held, _) =
      update_one (λ r. r.id) run.id
        (λ r. r.review_id == id && (r.status == "running" && r.worker_id == w)) (λ r. r) s.runs
        c.run_ids (λ r. refl) (omega (arith, one)) in
    let mine = and_left (a.review_id == id) _ held in
    let live = and_left (a.status == "running") _ (and_right (a.review_id == id) _ held) in
    let is : a ≡ run =
      All-find (λ r. is_running id r ≡ true → r ≡ run) (λ r. r.id == run.id) s.runs a
        (current-only id s run c n) found (cc (mine, live)) in
    let held' : (run.review_id == id && (run.status == "running" && run.worker_id == w)) ≡ true =
      subst
        (λ (r : ReviewRun).
          (r.review_id == id && (r.status == "running" && r.worker_id == w)) ≡ true)
        is held in
    rw (eq_refl run.id) held'

-- A completion with an outcome that is not running ends the current run with its review.
pub complete-Consistent :
    (env : Env) (req : ReviewRequest) (s : Store)
    → (req.status == "running") ≡ false
    → Consistent s
    → Consistent (complete_review_run env req (run_id_of (current_run req.id s)) s).0
unfolding complete_review_run finish_review finish_run run_id_of
complete-Consistent env req s over c =
    elim (Bool-cases (eqb (count_rows (owns_review req.id req.worker_id) s.reviews) 1)) [
      | inr e ↦ rw e c
      | inl e ↦ elim (Option-cases (current_run req.id s)) [
        | inl n ↦
            rw (e, n)
              (settle-Consistent req.id (owns_review req.id req.worker_id) (finish_review env req)
                s.runs s (λ r h. and_left _ _ h) (λ r. refl) c c.run_ids c.run_named
                (λ j. omega arith) (current-none req.id s n))
        | inr (run, n) ↦
            let named =
              All-last (λ r. (r.id == "") ≡ false) (λ r. r.seq) (is_running req.id) s.runs run
                c.run_named (unfold current_run in n) in
            elim (Bool-cases (eqb (count_rows (owns_run run.id req.id req.worker_id) s.runs) 1)) [
              | inr f ↦ rw (e, n, named, f) c
              | inl f ↦
                  rw (e, n, named, f)
                    (settle_both req.id (owns_review req.id req.worker_id) (finish_review env req)
                      (owns_run run.id req.id req.worker_id) (finish_run env req) s
                      (λ r h. and_left _ _ h) (λ r. refl) (λ r. refl) (λ r. over)
                      (All-map (λ r. is_running req.id r ≡ true → r ≡ run)
                        (λ r.
                          is_running req.id r ≡ true
                          → owns_run run.id req.id req.worker_id r ≡ true)
                        s.runs
                        (λ r h k.
                          ap (owns_run run.id req.id req.worker_id) (h k)
                          ∙ owned-current req.id req.worker_id s run c n (ground (arith, f)))
                        (current-only req.id s run c n))
                      c)
            ]
      ]
    ]

module _ (out : Outside) (cfg : Config) where
  -- Handing a review back, with the failure of its running run, keeps reviews and runs consistent.
  pub requeue_for_orphan-Consistent :
      (env : Env) (id w reason : String) (s : Store)
      → Consistent s
      → Consistent (requeue_for_orphan out cfg env id w reason s).0
  unfolding requeue_for_orphan requeue_review current_run update_review_run replace_run
  requeue_for_orphan-Consistent env id w reason s c =
      elim (Bool-cases (eqb (count_rows (owns_review id w) s.reviews) 0)) [
        | inl e ↦ rw e c
        | inr e ↦ elim (Option-cases (current_run id s)) [
          | inl n ↦
              rw (e, n)
                (settle-Consistent id (owns_review id w) (release_review env) s.runs s
                  (λ r h. and_left _ _ h) (λ r. refl) c c.run_ids c.run_named (λ j. omega arith)
                  (current-none id s n))
          | inr (run, n) ↦
              rw (e, n)
                (settle_both id (owns_review id w) (release_review env) (λ r. r.id == run.id)
                  (replace_run env (failed_run reason env run)) s (λ r h. and_left _ _ h)
                  (λ r. refl) (λ r. refl) (λ r. refl)
                  (All-map (λ r. is_running id r ≡ true → r ≡ run)
                    (λ r. is_running id r ≡ true → (r.id == run.id) ≡ true) s.runs
                    (λ r h k. ap (λ x. x.id == run.id) (h k) ∙ eq_refl run.id)
                    (current-only id s run c n))
                  c)
        ]
      ]
