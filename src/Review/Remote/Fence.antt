-- ===== src/Review/Remote/Fence.antt =====
-- The fence of a completion: which run and which worker it names.
use saturnus.Base.{
  stale_completion, ap, false, Option-cases, eqb, count_rows, String, Bool, true, not, ◌==◌, ◌≡◌,
  ◌≢◌, ◌⊎◌, inl, inr, refl, Option, none, some, Bool-cases, eq_iff, err, disabled, stale_result,
  ◌&&◌, ne→eq_false, and_left, and_right,
}
use saturnus.Store.Types.{Env, ReviewRequest, ReviewRun, Store}
use saturnus.Store.Runs.{current_run, complete_review_run, owns_review, owns_run}
use saturnus.Store.Reviews.{get_review}
use saturnus.Review.Remote.{
  Outside, Config, complete_remote_run, fenced, finished, outcome, run_id_of,
}

module _ (out : Outside) (cfg : Config) where
  open_fence : (w : String) (run : Option ReviewRun) → fenced out cfg "" w run ≡ true
  unfolding fenced
  open_fence w none = refl
  open_fence w (some run) = refl

  all_or_nothing :
      (env : Env) (req : ReviewRequest) (run : String) (s : Store)
      → ((complete_review_run env req run s).1 ≡ true)
        ⊎ (complete_review_run env req run s ≡ (s, false))
  unfolding complete_review_run
  all_or_nothing env req run s =
      elim (Bool-cases (not (eqb (count_rows (owns_review req.id req.worker_id) s.reviews) 1))) [
        | inl e ↦ inr (rw e refl)
        | inr e ↦ elim (Bool-cases (run == "")) [
          | inl f ↦ inl (rw (e, f) refl)
          | inr f ↦
              elim (Bool-cases
                (not (eqb (count_rows (owns_run run req.id req.worker_id) s.runs) 1))) [
                  | inl g ↦ inr (rw (e, f, g) refl)
                  | inr g ↦ inl (rw (e, f, g) refl)
                ]
        ]
      ]

  finished-answers :
      (env : Env) (req : ReviewRequest) (id w v : String) (s : Store) (r : Store × Bool)
      → (r.1 ≡ true) ⊎ (r ≡ (s, false))
      → (finished out cfg env req id w r ≡ finished out cfg env req id v r)
        ⊎ ((finished out cfg env req id w r ≡ (s, err (stale_completion id w)))
            × (finished out cfg env req id v r ≡ (s, err (stale_completion id v))))
  unfolding finished
  finished-answers env req id w v s (t, true) h = inl refl
  finished-answers env req id w v s (t, false) (inl h) = absurd (cc h)
  finished-answers env req id w v s (t, false) (inr h) =
      let same : t ≡ s = ap (λ r. r.0) h in
      inr (
        ap (λ u. (u, err (stale_completion id w))) same,
        ap (λ u. (u, err (stale_completion id v))) same,
      )

  -- A completion that names no run does not look at the worker who sends it, whoever owns the
  -- review: any two workers get the same store and the same answer, or each is told, the store
  -- unchanged, that the review is no longer its own.
  pub complete_unfenced :
      (env : Env) (id w v : String) (succeeded : Bool) (head session result error : String)
      (s : Store)
      → complete_remote_run out cfg env id "" w succeeded head session result error s
          ≡ complete_remote_run out cfg env id "" v succeeded head session result error s
        ⊎ ((complete_remote_run out cfg env id "" w succeeded head session result error s
              ≡ (s, err (stale_completion id w)))
            × (complete_remote_run out cfg env id "" v succeeded head session result error s
                ≡ (s, err (stale_completion id v))))
  unfolding complete_remote_run
  complete_unfenced env id w v succeeded head session result error s =
      let fence_w = open_fence w (current_run id s) in
      elim (Bool-cases (not cfg.enabled)) [
        | inl e ↦ inl (rw e refl)
        | inr e ↦ elim (Option-cases (get_review id s)) [
          | inl n ↦ inl (rw (e, fence_w, n) refl)
          | inr (old, n) ↦
              let req = outcome out cfg env old succeeded head session result error s in
              let answers =
                finished-answers env req id w v s
                  (complete_review_run env req (run_id_of (current_run id s)) s)
                  (all_or_nothing env req (run_id_of (current_run id s)) s) in
              rw (e, fence_w, n) answers
        ]
      ]

  closed_fence :
      (run w : String) (o : Option ReviewRun)
      → run ≢ ""
      → fenced out cfg run w o ≡ true
      → (r : ReviewRun) × (o ≡ some r) × (r.id ≡ run) × (r.worker_id ≡ w)
  unfolding fenced
  closed_fence run w none named h = absurd (named ((eq_iff run "").0 h))
  closed_fence run w (some r) named h =
      let both : (r.id == run && r.worker_id == w) ≡ true = cc (h, ne→eq_false run "" named) in
      (
        r,
        refl,
        (eq_iff r.id run).0 (and_left (r.id == run) (r.worker_id == w) both),
        (eq_iff r.worker_id w).0 (and_right (r.id == run) (r.worker_id == w) both),
      )

  -- A completion that names a run is refused with the store unchanged where reviews are disabled
  -- or the result is stale, and in any other case the named run is the review's current one and
  -- its worker is the sender.
  pub complete_fenced :
      (env : Env) (id run w : String) (succeeded : Bool) (head session result error : String)
      (s : Store)
      → run ≢ ""
      → (complete_remote_run out cfg env id run w succeeded head session result error s
          ≡ (s, err disabled))
        ⊎ (complete_remote_run out cfg env id run w succeeded head session result error s
            ≡ (s, err stale_result))
        ⊎ ((c : ReviewRun) × (current_run id s ≡ some c) × (c.id ≡ run) × (c.worker_id ≡ w))
  unfolding complete_remote_run
  complete_fenced env id run w succeeded head session result error s named =
      elim (Bool-cases (not cfg.enabled)) [
        | inl e ↦ inl (rw e refl)
        | inr e ↦ elim (Bool-cases (fenced out cfg run w (current_run id s))) [
          | inl f ↦ inr (inr (closed_fence run w (current_run id s) named f))
          | inr f ↦ inr (inl (rw (e, f) refl))
        ]
      ]
