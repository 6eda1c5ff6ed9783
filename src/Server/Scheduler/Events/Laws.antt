-- ===== src/Server/Scheduler/Events/Laws.antt =====
-- What a worker's frames leave alone.
use saturnus.Base.{
  String, Bool, true, false, not, ◌&&◌, Option, none, some, List, [], ◌∷◌, ◌==◌, ◌≡◌, refl, ap, ◌∙◌,
  inl, inr, arith, Result, ok, err, member, count_rows, update_rows, find_row, find-update, eqb,
  Bool-cases, Option-cases,
}
use saturnus.Store.Types.{Time, Env, ReviewRequest, Store}
use saturnus.Store.Reviews.{get_review}
use saturnus.Store.Runs.{owns_review, current_run, update_review_run}
use saturnus.Store.Assign.{
  requeue_review, release_review, list_reviewing, list_running_reactions,
  update_reaction_outcome_by_worker,
}
use saturnus.Store.Sessions.{heartbeat}
use saturnus.Store.Workers.{GitHubJson, update_worker_github}
use saturnus.Review.Remote.{Outside, Config, requeue_for_orphan}
use saturnus.Review.Remote.Reactions.{complete_remote_reaction}
use saturnus.Server.Scheduler.{Host, Scheduler, backoff_worker}
use saturnus.Server.Scheduler.Dispatch.{reconcile_worker, requeue_lost}
use saturnus.Server.Scheduler.Dispatch.Clears.{requeue-reviews, reactions-reviews}
use saturnus.Server.Scheduler.Events.{
  Frame, CompletePayload, hello, heartbeats, progress, started_frame, complete_frame, cancel_ack,
  error_frame, unknown, on_event, after_completion,
}

-- a chunk of output, or the completion of a review's run
abbrev pub reports_run : Frame → Bool
reports_run (progress (some text)) = true
reports_run (complete_frame (some p)) = p.reaction_id == ""
reports_run _ = false

module _ (host : Host) (out : Outside) (cfg : Config) (json : GitHubJson) where
  orphan-reactions :
      (env : Env) (id w reason : String) (s : Store)
      → (requeue_for_orphan out cfg env id w reason s).0.reactions ≡ s.reactions
  unfolding requeue_for_orphan requeue_review update_review_run
  orphan-reactions env id w reason s =
      elim (Bool-cases (eqb (count_rows (owns_review id w) s.reviews) 0)) [
        | inl e ↦ rw e refl
        | inr e ↦
            let t = record s {
              reviews = update_rows (owns_review id w) (release_review env) s.reviews;
            } in
            elim (Option-cases (current_run id t)) [
              | inl f ↦ rw (e, f) refl
              | inr (run, f) ↦ rw (e, f) refl
            ]
      ]

  -- An error frame, busy included, changes no reaction: one that was claimed for the worker that
  -- sends it stays with the worker, as running.
  pub error-keeps_reactions :
      (env : Env) (w review_id code : String) (sc : Scheduler)
      → (on_event host out cfg json env w review_id (error_frame code) sc).0.store.reactions
        ≡ sc.store.reactions
  unfolding on_event backoff_worker
  error-keeps_reactions env w review_id code sc = elim (Bool-cases (code == "busy")) [
    | inr e ↦ rw e refl
    | inl e ↦ rw e (orphan-reactions env review_id w "worker at capacity" sc.store)
  ]

  abbrev Kept : String → ReviewRequest → Store → Type 0
  Kept id r s = get_review id s ≡ some r

  same-Kept :
      (id : String) (r : ReviewRequest) (s t : Store)
      → t.reviews ≡ s.reviews
      → Kept id r s
      → Kept id r t
  unfolding get_review
  same-Kept id r s t e k = ap (find_row (λ x. x.id == id)) e ∙ k

  module _ (id w : String) (r : ReviewRequest) (theirs : (r.worker_id == w) ≡ false) where
    not_owned : (j : String) → owns_review j w r ≡ false
    not_owned j = ground (arith, theirs)

    orphan-Kept :
        (env : Env) (j reason : String) (s : Store)
        → Kept id r s
        → Kept id r (requeue_for_orphan out cfg env j w reason s).0
    unfolding get_review
    orphan-Kept env j reason s k =
        ap (find_row (λ x. x.id == id)) (requeue-reviews host out cfg env j w reason s)
        ∙ find-update (owns_review j w) (release_review env) (λ x. x.id == id) s.reviews (λ x. refl)
        ∙ rw (k, not_owned j) refl

    lost-Kept :
        (env : Env) (in_flight : List String) (rs : List ReviewRequest) (s : Store)
        → Kept id r s
        → Kept id r (requeue_lost host out cfg env w in_flight rs s)
    unfolding requeue_lost
    lost-Kept env in_flight [] s k = k
    lost-Kept env in_flight (x ∷ rs) s k =
        let reason : String = "worker no longer running job after reconnect" in
        elim (Bool-cases (x.worker_id == w && not (member x.id in_flight))) [
          | inl e ↦
              rw (e, requeue_lost) (lost-Kept env in_flight rs _ (orphan-Kept env x.id reason s k))
          | inr e ↦ rw (e, requeue_lost) (lost-Kept env in_flight rs s k)
        ]

    reconcile-Kept :
        (env : Env) (in_flight : List String) (s : Store)
        → Kept id r s
        → Kept id r (reconcile_worker host out cfg env w in_flight s)
    unfolding reconcile_worker
    reconcile-Kept env in_flight s k =
        let t = requeue_lost host out cfg env w in_flight (list_reviewing s) s in
        same-Kept id r t _
          (reactions-reviews host out cfg env w in_flight (list_running_reactions t) t)
          (lost-Kept env in_flight (list_reviewing s) s k)

    heartbeat-reviews : (env : Env) (s : Store) → (heartbeat env w s).0.reviews ≡ s.reviews
    unfolding heartbeat
    heartbeat-reviews env s = elim (Bool-cases (eqb (count_rows (λ a. a.id == w) s.agents) 0)) [
      | inl e ↦ rw e refl
      | inr e ↦ rw e refl
    ]

    github-reviews :
        (info : Option (String × Time)) (s : Store)
        → (update_worker_github json w info s).0.reviews ≡ s.reviews
    unfolding update_worker_github
    github-reviews none s = refl
    github-reviews (some (info, at)) s = ground arith

    reaction-reviews :
        (env : Env) (j : String) (succeeded : Bool) (session result text : String) (s : Store)
        → (complete_remote_reaction out cfg env j w succeeded session result text s).0.reviews
          ≡ s.reviews
    unfolding complete_remote_reaction update_reaction_outcome_by_worker
    reaction-reviews env j succeeded session result text s = ground arith

    after-store :
        (review_id : String) (sc : Scheduler) (done : Store × Result (Unit {0}))
        → (after_completion host out cfg json w review_id sc done).0.store ≡ done.0
    unfolding after_completion
    after-store review_id sc (s, ok u) = refl
    after-store review_id sc (s, err e) = refl

    completion-Kept :
        (env : Env) (review_id : String) (p : CompletePayload) (sc : Scheduler)
        → (p.reaction_id == "") ≡ false
        → Kept id r sc.store
        → Kept id r
            (on_event host out cfg json env w review_id (complete_frame (some p)) sc).0.store
    unfolding on_event
    completion-Kept env review_id p sc e k =
        let done =
          complete_remote_reaction out cfg env p.reaction_id w p.succeeded p.session_id
            p.result_text p.error sc.store in
        let keeps =
          reaction-reviews env p.reaction_id p.succeeded p.session_id p.result_text p.error
            sc.store in
        rw (e, after-store review_id sc done) (same-Kept id r sc.store done.0 keeps k)

    busy-Kept :
        (env : Env) (review_id code : String) (sc : Scheduler)
        → Kept id r sc.store
        → Kept id r (on_event host out cfg json env w review_id (error_frame code) sc).0.store
    unfolding on_event backoff_worker
    busy-Kept env review_id code sc k = elim (Bool-cases (code == "busy")) [
      | inr e ↦ rw e k
      | inl e ↦ rw e (orphan-Kept env review_id "worker at capacity" sc.store k)
    ]

    beat-Kept :
        (env : Env) (review_id : String) (p : Option (Option (String × Time))) (sc : Scheduler)
        → Kept id r sc.store
        → Kept id r (on_event host out cfg json env w review_id (heartbeats p) sc).0.store
    unfolding on_event
    beat-Kept env review_id none sc k = same-Kept id r _ _ (heartbeat-reviews env sc.store) k
    beat-Kept env review_id (some none) sc k = same-Kept id r _ _ (heartbeat-reviews env sc.store) k
    beat-Kept env review_id (some (some info)) sc k =
        let t = (heartbeat env w sc.store).0 in
        same-Kept id r _ _ (github-reviews (some info) t ∙ heartbeat-reviews env sc.store) k

    event-Kept :
        (env : Env) (review_id : String) (frame : Frame) (sc : Scheduler)
        → reports_run frame ≡ false
        → Kept id r sc.store
        → Kept id r (on_event host out cfg json env w review_id frame sc).0.store
    unfolding on_event
    event-Kept env review_id (hello none) sc f k = k
    event-Kept env review_id (hello (some in_flight)) sc f k =
        reconcile-Kept env in_flight sc.store k
    event-Kept env review_id (heartbeats p) sc f k = beat-Kept env review_id p sc k
    event-Kept env review_id (progress none) sc f k = k
    event-Kept env review_id (progress (some text)) sc f k = absurd (cc f)
    event-Kept env review_id (started_frame none) sc f k = k
    event-Kept env review_id (started_frame (some p)) sc f k = k
    event-Kept env review_id (complete_frame none) sc f k = k
    event-Kept env review_id (complete_frame (some p)) sc f k =
        completion-Kept env review_id p sc f k
    event-Kept env review_id cancel_ack sc f k = k
    event-Kept env review_id (error_frame code) sc f k = busy-Kept env review_id code sc k
    event-Kept env review_id unknown sc f k = k

  -- A frame of one worker leaves the review of another as it is, whatever review it names, unless it
  -- is a chunk of output or the completion of a review's run.
  pub event_isolated :
      (env : Env) (id w review_id : String) (r : ReviewRequest) (frame : Frame) (sc : Scheduler)
      → (r.worker_id == w) ≡ false
      → reports_run frame ≡ false
      → get_review id sc.store ≡ some r
      → get_review id (on_event host out cfg json env w review_id frame sc).0.store ≡ some r
  event_isolated env id w review_id r frame sc theirs f k =
      event-Kept id w r theirs env review_id frame sc f k
