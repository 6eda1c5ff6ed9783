-- ===== src/Review/Remote/Keeps.antt =====
-- What new reviews, results, resets, restarts and completions leave consistent.
use saturnus.Base.{
  eqb, ◌≤◌, String, ◌≡◌, refl, sym, inl, inr, Bool, true, false, ◌&&◌, ◌||◌, not, List, [], ◌∷◌,
  ◌++◌, map, ◌==◌, arith, eq_iff, if◌then◌else◌, Keyed-append, All, update_rows, find_row,
  find_row_holds, select_rows, Bool-cases, Option-cases, subst, Result-cases, ok, any,
  any-find_none,
}
use saturnus.Store.Types.{Env, ReviewRequest, ReviewRun, ReviewFinding, Store}
use saturnus.Store.Reviews.{
  get_review, create_review, set_comments_posted, set_review_result, set_review, fill_review,
}
use saturnus.Store.Runs.{
  is_running, current_run, complete_review_run, save_review_result, save_result_tx, record_verdict,
  takes_result, fail_interrupted_reviews, interrupt, interrupt_all,
}
use saturnus.Store.Findings.{save_findings_tx}
use saturnus.Store.Findings.Laws.{save_findings_tx-Extends}
use saturnus.Store.Contexts.{reset_review_context, reset_review}
use saturnus.Store.Contexts.Laws.{fresh_context}
use saturnus.Review.Remote.{
  Outside, Config, complete_remote_run, completion_result, submitted, outcome, finished, publish,
  fenced, run_id_of,
}
use saturnus.Review.Remote.Invariant.{
  busy, busy_of, Consistent, same-Consistent, settle-Consistent, runs-Consistent,
  reviews-Consistent,
}
use saturnus.Review.Remote.Finish.{complete-Consistent, settle_both}

-- Posting comments records their ids on findings, and leaves reviews and runs alone.
pub record Posts (out : Outside) : Type 0 where
  pub reviews_kept :
      (req : ReviewRequest) (s : Store) → (out.post_comments req s).0.reviews ≡ s.reviews
  pub runs_kept : (req : ReviewRequest) (s : Store) → (out.post_comments req s).0.runs ≡ s.runs

interrupt_all-Consistent :
    (env : Env) (ids : List String) (s : Store)
    → Consistent s
    → Consistent (interrupt_all env ids s)
unfolding interrupt_all interrupt
interrupt_all-Consistent env [] s c = c
interrupt_all-Consistent env (id ∷ ids) s c =
    interrupt_all-Consistent env ids (interrupt env id s) (
      settle_both id (λ r. r.id == id) _ (is_running id) _ s (λ r h. h) (λ r. refl) (λ r. refl)
        (λ r. refl) (all_of s.runs) c)
  where
    all_of :
        (rows : List ReviewRun) → All (λ r. is_running id r ≡ true → is_running id r ≡ true) rows
    all_of [] = tt
    all_of (r ∷ rows) = (λ h. h, all_of rows)

pub restart-Consistent :
    (env : Env) (s : Store) → Consistent s → Consistent (fail_interrupted_reviews env s).0
unfolding fail_interrupted_reviews
restart-Consistent env s c =
    interrupt_all-Consistent env
      (map (λ r. r.id) (select_rows (λ r. r.status == "reviewing") s.reviews)) s c

pub reset-Consistent :
    (env : Env) (id actor : String) (s : Store)
    → Consistent s
    → Consistent (reset_review_context env id actor s).0
reset-Consistent env id actor s c = elim (fresh_context env id actor s) [
  | inl (_, e, _) ↦ subst (λ r. Consistent r.0) (sym e) c
  | inr (req, context, _, r) ↦
      same-Consistent
        (record s { reviews = update_rows (λ x. x.id == id) (reset_review env) s.reviews }) _ r.rows
        r.runs_kept
        (settle-Consistent id (λ x. x.id == id) (reset_review env) s.runs s (λ x h. h) (λ x. refl) c
          c.run_ids c.run_named (λ j. omega arith) (omega (arith, r.quiet_runs)))
]

verdict-Consistent :
    (env : Env) (id run verdict summary : String) (s t : Store)
    → Consistent s
    → record_verdict env id run verdict summary s ≡ ok t
    → Consistent t
unfolding record_verdict
verdict-Consistent env id run verdict summary s t c h = elim (Bool-cases (run == "")) [
  | inl e ↦ subst Consistent (ground (arith, e)) c
  | inr e ↦ subst Consistent (ground (arith, e)) (
      runs-Consistent (takes_result id run s)
        (λ r. record r { verdict = verdict; summary = summary; updated_at = env.now }) s (λ r. refl)
        (λ j r k. k) c)
]

pub result-Consistent :
    (env : Env) (id run verdict summary : String) (fs : List ReviewFinding) (s : Store)
    → Consistent s
    → Consistent (save_review_result env id run verdict summary fs s).0
unfolding save_review_result save_result_tx set_review_result set_review
result-Consistent env id run verdict summary fs s c =
    elim (Result-cases (record_verdict env id run verdict summary s)) [
      | inr (x, e) ↦ rw e c
      | inl (t, e) ↦
          let u = set_review_result env id verdict summary t in
          elim (Result-cases (save_findings_tx env id run fs u)) [
            | inr (x, f) ↦ rw (e, f) c
            | inl (v, f) ↦
                let ext = save_findings_tx-Extends env id run fs u v f in
                rw (e, f)
                  (same-Consistent u v ext.same_reviews ext.same_runs (
                    reviews-Consistent (λ r. r.id == id)
                      (λ r. record r { verdict = verdict; summary = summary; updated_at = env.now })
                      t (λ r. refl) (λ r. refl)
                      (verdict-Consistent env id run verdict summary s t c e)))
          ]
    ]

busy-append :
    (j : String) (rows : List ReviewRequest) (r : ReviewRequest)
    → busy_of (find_row (λ x. x.id == j) rows)
      ≤ busy_of (find_row (λ x. x.id == j) (rows ++ r ∷ []))
unfolding busy_of
busy-append j [] r = omega arith
busy-append j (x ∷ rows) r = ground (arith, busy-append j rows r)

pub create-Consistent :
    (env : Env) (req : ReviewRequest) (s : Store)
    → Consistent s
    → Consistent (create_review env req s).0
unfolding create_review busy get_review
create-Consistent env req s c = elim (Bool-cases (any (λ t. t.id == req.thread_id) s.threads)) [
  | inr e ↦ rw e c
  | inl e ↦
      let filled = fill_review env req in
      elim (Bool-cases (any (λ r. r.id == filled.id) s.reviews)) [
        | inl f ↦ rw (e, f) c
        | inr f ↦
            rw (e, f)
              (record {
                review_ids =
                    Keyed-append (λ r. r.id) s.reviews filled c.review_ids
                      (any-find_none (λ r. r.id == filled.id) s.reviews f);
                run_ids = c.run_ids;
                run_named = c.run_named;
                one_run = λ j. omega (arith, c.one_run j, busy-append j s.reviews filled);
              })
      ]
]

module _ (out : Outside) (cfg : Config) (posts : Posts out) where
  settles :
      (id status : String) (result error : String) (s : Store)
      → (status == "running") ≡ false
      → ((completion_result out cfg id status result error s).0 == "running") ≡ false
  unfolding completion_result
  settles id status result error s h =
      elim (Bool-cases (not (status == "succeeded") || cfg.result_api_url == "")) [
        | inl e ↦ rw e h
        | inr e ↦ elim (Bool-cases (submitted out cfg (current_run id s))) [
          | inl f ↦ rw (e, f) h
          | inr f ↦ rw (e, f) refl
        ]
      ]

  ends :
      (id : String) (succeeded : Bool) (result error : String) (s : Store)
      → ((completion_result out cfg id
            (if succeeded then "succeeded" else "failed")
            result
            error
            s).0
          == "running")
        ≡ false
  ends id true result error s = settles id "succeeded" result error s refl
  ends id false result error s = settles id "failed" result error s refl

  publish-Consistent :
      (env : Env) (req : ReviewRequest) (s : Store)
      → Consistent s
      → Consistent (publish out cfg env req s)
  unfolding publish set_comments_posted set_review
  publish-Consistent env req s c =
      let (t, posted) = out.post_comments req s in
      let d = same-Consistent s t (posts.reviews_kept req s) (posts.runs_kept req s) c in
      elim (Bool-cases (
        req.status == "succeeded"
        && (cfg.post_inline_comments
            && (not (req.verdict == "") && eqb req.comments_posted_at 0)))) [
              | inr e ↦ rw e c
              | inl e ↦ elim (Bool-cases posted) [
                | inr f ↦ rw (e, f) d
                | inl f ↦
                    rw (e, f)
                      (reviews-Consistent (λ r. r.id == req.id)
                        (λ r. record r { comments_posted_at = env.now; updated_at = env.now }) t
                        (λ r. refl) (λ r. refl) d)
              ]
            ]

  finished-Consistent :
      (env : Env) (req : ReviewRequest) (id w : String) (r : Store × Bool)
      → Consistent r.0
      → Consistent (finished out cfg env req id w r).0
  unfolding finished
  finished-Consistent env req id w (s, true) c = publish-Consistent env req s c
  finished-Consistent env req id w (s, false) c = c

  -- Where the posting of comments leaves reviews and runs alone, a completion by a worker keeps
  -- reviews and runs consistent, accepted or not.
  pub complete_remote_run-Consistent :
      (env : Env) (id run w : String) (succeeded : Bool) (head session result error : String)
      (s : Store)
      → Consistent s
      → Consistent
          (complete_remote_run out cfg env id run w succeeded head session result error s).0
  unfolding complete_remote_run outcome get_review
  complete_remote_run-Consistent env id run w succeeded head session result error s c =
      elim (Bool-cases (not cfg.enabled)) [
        | inl e ↦ rw e c
        | inr e ↦ elim (Bool-cases (not (fenced out cfg run w (current_run id s)))) [
          | inl f ↦ rw (e, f) c
          | inr f ↦ elim (Option-cases (get_review id s)) [
            | inl n ↦ rw (e, f, n, complete_remote_run) c
            | inr (old, n) ↦
                let req = outcome out cfg env old succeeded head session result error s in
                let same : old.id ≡ id =
                  (eq_iff _ _).0 (find_row_holds (λ r. r.id == id) s.reviews old n) in
                rw (e, f, n, complete_remote_run)
                  (finished-Consistent env req id w
                    (complete_review_run env req (run_id_of (current_run id s)) s)
                    (subst
                      (λ i.
                        Consistent (complete_review_run env req (run_id_of (current_run i s)) s).0)
                      same
                      (complete-Consistent env req s (ends old.id succeeded result error s) c)))
          ]
        ]
      ]
