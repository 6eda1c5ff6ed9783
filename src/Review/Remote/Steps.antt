-- ===== src/Review/Remote/Steps.antt =====
-- Every history of the remote operations, of new reviews, of results, resets and restarts.
use saturnus.Review.Remote.Keeps.{
  Posts, restart-Consistent, reset-Consistent, result-Consistent, create-Consistent,
  complete_remote_run-Consistent,
}
use saturnus.Base.{String, ◌≡◌, refl, Bool, List, ◌==◌, arith}
use saturnus.Store.Types.{Env, ReviewRequest, ReviewFinding, Store, empty_store}
use saturnus.Store.Reviews.{get_review, create_review, update_review_progress, set_review}
use saturnus.Store.Runs.{save_review_result, fail_interrupted_reviews}
use saturnus.Store.Contexts.{reset_review_context}
use saturnus.Review.Remote.{
  Outside, Config, start_remote, requeue_for_orphan, complete_remote_run, update_remote_progress,
}
use saturnus.Review.Remote.Invariant.{
  busy, busy_of, Consistent, same-Consistent, reviews-Consistent,
}
use saturnus.Review.Remote.Start.{start_remote-Consistent}
use saturnus.Review.Remote.Finish.{requeue_for_orphan-Consistent}

module _ (out : Outside) (cfg : Config) (posts : Posts out) where
  -- One operation, by the scheduler, a worker, the review tool or an operator, that may fail, or
  -- any change of the tables other than reviews and runs.
  pub data Step : Store → Store → Type 0 where
    creates : (env : Env) (req : ReviewRequest) (s : Store) → Step s (create_review env req s).0
    starts :
        (env : Env) (req : ReviewRequest) (w : String) (s : Store)
        → Step s (start_remote out cfg env req w s).0
    progresses :
        (env : Env) (id text : String) (s : Store)
        → Step s (update_remote_progress out cfg env id text s)
    submits :
        (env : Env) (id run verdict summary : String) (fs : List ReviewFinding) (s : Store)
        → Step s (save_review_result env id run verdict summary fs s).0
    completes :
        (env : Env) (id run w : String) (succeeded : Bool) (head session result error : String)
        (s : Store)
        → Step s (complete_remote_run out cfg env id run w succeeded head session result error s).0
    requeues :
        (env : Env) (id w reason : String) (s : Store)
        → Step s (requeue_for_orphan out cfg env id w reason s).0
    resets :
        (env : Env) (id actor : String) (s : Store) → Step s (reset_review_context env id actor s).0
    restarts : (env : Env) (s : Store) → Step s (fail_interrupted_reviews env s).0
    -- the rest of the server: threads, workers, sessions, approvals, reactions, findings
    elsewhere : (s t : Store) → t.reviews ≡ s.reviews → t.runs ≡ s.runs → Step s t

  pub data Reach : Store → Type 0 where
    start : Reach empty_store
    next : {s t : Store} → Reach s → Step s t → Reach t

  Step-Consistent : {s t : Store} → Step s t → Consistent s → Consistent t
  unfolding update_remote_progress update_review_progress set_review
  Step-Consistent (creates env req s) c = create-Consistent env req s c
  Step-Consistent (starts env req w s) c = start_remote-Consistent out cfg env req w s c
  Step-Consistent (progresses env id text s) c =
      reviews-Consistent (λ r. r.id == id)
        (λ r. record r { result_text = text; updated_at = env.now }) s (λ r. refl) (λ r. refl) c
  Step-Consistent (submits env id run verdict summary fs s) c =
      result-Consistent env id run verdict summary fs s c
  Step-Consistent (completes env id run w succeeded head session result error s) c =
      complete_remote_run-Consistent out cfg posts env id run w succeeded head session result error
        s c
  Step-Consistent (requeues env id w reason s) c =
      requeue_for_orphan-Consistent out cfg env id w reason s c
  Step-Consistent (resets env id actor s) c = reset-Consistent env id actor s c
  Step-Consistent (restarts env s) c = restart-Consistent env s c
  Step-Consistent (elsewhere s t e f) c = same-Consistent s t e f c

  -- Where the posting of comments leaves reviews and runs alone: after any history of creations,
  -- remote starts, progress, results, completions, hand-backs, resets and restarts, failed ones
  -- and changes of other tables included, the ids of reviews and of runs are unique and no run's
  -- id is empty, and a review has at most one running run, and none unless it is reviewing.
  pub Reach-Consistent : (s : Store) → Reach s → Consistent s
  unfolding busy busy_of get_review
  Reach-Consistent s start = record {
    review_ids = tt;
    run_ids = tt;
    run_named = tt;
    one_run = λ j. omega arith;
  }
  Reach-Consistent s (next r st) = Step-Consistent st (Reach-Consistent _ r)
