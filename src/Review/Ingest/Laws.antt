-- ===== src/Review/Ingest/Laws.antt =====
-- Which submissions of a result are stored.
use saturnus.Base.{
  String, true, false, ◌&&◌, ◌||◌, ◌==◌, Option, none, some, List, ◌≡◌, refl, ◌⊎◌, inl, inr, ok,
  err, Error, Result-cases, Bool-cases, Option-cases, eq_iff, and_left, and_right,
}
use saturnus.Store.Types.{Env, ReviewRequest, ReviewRun, Store}
use saturnus.Store.Reviews.{get_review}
use saturnus.Store.Runs.{latest_run, save_review_result, save_result_tx}
use saturnus.Review.Types.{Config}
use saturnus.Review.Ingest.{
  Words, Finding, Submission, fits_run, fits_review, submission, ingest_run_result,
}

module _ (words : Words) where
  fits_run-latest :
      (run_id : String) (latest : Option ReviewRun)
      → (run_id == "") ≡ false
      → fits_run words run_id latest ≡ ok tt
      → (run : ReviewRun) × (latest ≡ some run)
        × (run.id ≡ run_id)
        × (run.verdict ≡ "")
        × ((run.status == "running" || run.status == "succeeded") ≡ true)
  unfolding fits_run
  fits_run-latest run_id none n h = absurd (cc (rw n at h))
  fits_run-latest run_id (some run) n h =
      elim (Bool-cases
        (run.id == run_id && (run.status == "running" || run.status == "succeeded"))) [
          | inr e ↦ absurd (cc (rw (n, e) at h))
          | inl e ↦ elim (Bool-cases (run.verdict == "")) [
            | inr f ↦ absurd (cc (rw (n, e, f) at h))
            | inl f ↦
                (run, refl, (eq_iff _ _).0 (and_left _ _ e), (eq_iff _ _).0 f, and_right _ _ e)
          ]
        ]

  fits_review-running :
      (req : ReviewRequest)
      → fits_review words req ≡ ok tt
      → (req.status ≡ "reviewing") ⊎ ((req.status ≡ "succeeded") × (req.verdict ≡ ""))
  unfolding fits_review
  fits_review-running req h = elim (Bool-cases (req.status == "reviewing")) [
    | inl e ↦ inl ((eq_iff _ _).0 e)
    | inr e ↦ elim (Bool-cases (req.status == "succeeded")) [
      | inr f ↦ absurd (cc (rw (e, f) at h))
      | inl f ↦ elim (Bool-cases (req.verdict == "")) [
        | inr g ↦ absurd (cc (rw (e, f, g) at h))
        | inl g ↦ inr ((eq_iff _ _).0 f, (eq_iff _ _).0 g)
      ]
    ]
  ]

  submission-fits :
      (cfg : Config) (review_id run_id verdict summary : String) (findings : List Finding)
      (s : Store) (r : Submission)
      → submission words cfg review_id run_id verdict summary findings s ≡ ok r
      → (req : ReviewRequest) × (get_review review_id s ≡ some req)
        × (fits_run words run_id (latest_run review_id s) ≡ ok tt)
        × (fits_review words req ≡ ok tt)
  unfolding submission
  submission-fits cfg review_id run_id verdict summary findings s r h =
      elim (Bool-cases cfg.enabled) [
        | inr a ↦ absurd (cc (rw (submission, a) at h))
        | inl a ↦ elim (Bool-cases (review_id == "")) [
          | inl b ↦ absurd (cc (rw (submission, a, b) at h))
          | inr b ↦ elim (Option-cases (get_review review_id s)) [
            | inl c ↦ absurd (cc (rw (submission, a, b, c) at h))
            | inr (req, c) ↦ elim (Result-cases (fits_run words run_id (latest_run review_id s))) [
              | inr (e, d) ↦ absurd (cc (rw (submission, a, b, c, d) at h))
              | inl (u, d) ↦ elim (Result-cases (fits_review words req)) [
                | inr (e, g) ↦ absurd (cc (rw (submission, a, b, c, d, g) at h))
                | inl (v, g) ↦ (req, c, d, g)
              ]
            ]
          ]
        ]
      ]

  -- A submission that names a run either answers an error and leaves the store as it is, or is for
  -- the latest run of the review, which is running or succeeded and has no result yet, while the
  -- review is being reviewed or succeeded without a result.
  pub ingest_fenced :
      (cfg : Config) (env : Env) (review_id run_id verdict summary : String)
      (findings : List Finding) (s : Store)
      → (run_id == "") ≡ false
      → let (t, r) = ingest_run_result words cfg env review_id run_id verdict summary findings s in
        ((e : Error) × (r ≡ err e) × (t ≡ s))
        ⊎ ((run : ReviewRun) × (req : ReviewRequest) × (r ≡ ok tt)
            × (latest_run review_id s ≡ some run)
            × (run.id ≡ run_id)
            × (run.verdict ≡ "")
            × ((run.status == "running" || run.status == "succeeded") ≡ true)
            × (get_review review_id s ≡ some req)
            × ((req.status ≡ "reviewing") ⊎ ((req.status ≡ "succeeded") × (req.verdict ≡ ""))))
  unfolding ingest_run_result save_review_result
  ingest_fenced cfg env review_id run_id verdict summary findings s n =
      elim (Result-cases (submission words cfg review_id run_id verdict summary findings s)) [
        | inr (e, h) ↦ rw (ingest_run_result, h) (inl (e, refl, refl))
        | inl (r, h) ↦
            elim (Result-cases
              (save_result_tx env review_id r.run_id r.verdict r.summary r.findings s)) [
                | inr (e, f) ↦
                    rw (ingest_run_result, h, save_review_result, f) (inl (e, refl, refl))
                | inl (saved, f) ↦
                    let (req, got, run_fits, review_fits) =
                      submission-fits cfg review_id run_id verdict summary findings s r h in
                    let (run, latest, named, unset, live) =
                      fits_run-latest run_id (latest_run review_id s) n run_fits in
                    rw (ingest_run_result, h, save_review_result, f)
                      (inr (
                        run,
                        req,
                        refl,
                        latest,
                        named,
                        unset,
                        live,
                        got,
                        fits_review-running req review_fits,
                      ))
              ]
      ]
