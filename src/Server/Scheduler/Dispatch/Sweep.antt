-- ===== src/Server/Scheduler/Dispatch/Sweep.antt =====
-- What the scheduler does to reviews and runs.
use saturnus.Base.{
  String, Bool, true, false, not, ◌&&◌, ◌==◌, List, [], ◌∷◌, inl, inr, Bool-cases, Option-cases,
  Result, ok, err, member, arith,
}
use saturnus.Store.Types.{Time, Env, ReviewRequest, ReviewReaction, Store}
use saturnus.Store.Reviews.{get_review}
use saturnus.Store.Assign.{requeue_reaction, list_reviewing, list_running_reactions}
use saturnus.Review.Remote.{Outside, Config, JobPayload, start_remote}
use saturnus.Review.Remote.Invariant.{Consistent, same-Consistent}
use saturnus.Review.Remote.Start.{start_remote-Consistent}
use saturnus.Review.Remote.Finish.{requeue_for_orphan-Consistent}
use saturnus.Server.Scheduler.{Host, Scheduler, backoff_worker, pick_review_worker}
use saturnus.Server.Scheduler.Dispatch.{
  dispatch_review, dispatch_picked, send_claim, dispatch_local, reconcile_worker, requeue_lost,
  requeue_lost_reactions,
}

module _ (host : Host) (out : Outside) (cfg : Config) where
  send-Consistent :
      (env : Env) (req : ReviewRequest) (w : String) (sc : Scheduler)
      (r : Store × Result JobPayload)
      → Consistent r.0
      → Consistent (send_claim host out cfg env req w sc r).store
  unfolding send_claim backoff_worker
  send-Consistent env req w sc (s, err e) c = c
  send-Consistent env req w sc (s, ok payload) c = elim (Bool-cases (host.send w payload)) [
    | inl e ↦ rw e c
    | inr e ↦ rw e (requeue_for_orphan-Consistent out cfg env req.id w "claim send failed" s c)
  ]

  picked-Consistent :
      (env : Env) (req : ReviewRequest) (p : String × Bool) (sc : Scheduler)
      → Consistent sc.store
      → Consistent (dispatch_picked host out cfg env req p sc).store
  unfolding dispatch_picked dispatch_local
  picked-Consistent env req (w, true) sc c = elim (Bool-cases (w == "")) [
    | inl e ↦ rw e c
    | inr e ↦ rw e (
        send-Consistent env req w sc (start_remote out cfg env req w sc.store)
          (start_remote-Consistent out cfg env req w sc.store c))
  ]
  picked-Consistent env req (w, false) sc c = elim (Bool-cases (w == "")) [
    | inl e ↦ elim (Bool-cases (host.local_available req.repo)) [
      | inl f ↦ rw (e, f) c
      | inr f ↦ rw (e, f) c
    ]
    | inr e ↦ rw e (
        send-Consistent env req w sc (start_remote out cfg env req w sc.store)
          (start_remote-Consistent out cfg env req w sc.store c))
  ]

  -- The dispatch of a review keeps reviews and runs consistent, whatever worker is chosen and
  -- whether or not the claim reaches it.
  pub dispatch_review-Consistent :
      (window : Time) (env : Env) (id : String) (sc : Scheduler)
      → Consistent sc.store
      → Consistent (dispatch_review host out cfg window env id sc).store
  unfolding dispatch_review
  dispatch_review-Consistent window env id sc c = elim (Option-cases (get_review id sc.store)) [
    | inl e ↦ rw (e, dispatch_review) c
    | inr (req, e) ↦ elim (Bool-cases (req.status == "pending")) [
      | inl f ↦
          rw (e, f, dispatch_review)
            (picked-Consistent env req (pick_review_worker host window env.now req sc) sc c)
      | inr f ↦ rw (e, f, dispatch_review) c
    ]
  ]

  lost-Consistent :
      (env : Env) (w : String) (in_flight : List String) (rs : List ReviewRequest) (s : Store)
      → Consistent s
      → Consistent (requeue_lost host out cfg env w in_flight rs s)
  unfolding requeue_lost
  lost-Consistent env w in_flight [] s c = c
  lost-Consistent env w in_flight (r ∷ rs) s c =
      elim (Bool-cases (r.worker_id == w && not (member r.id in_flight))) [
        | inl e ↦ rw e (
            lost-Consistent env w in_flight rs _ (
              requeue_for_orphan-Consistent out cfg env r.id w
                "worker no longer running job after reconnect" s c))
        | inr e ↦ rw e (lost-Consistent env w in_flight rs s c)
      ]

  requeue_reaction-Consistent :
      (env : Env) (id w : String) (s : Store)
      → Consistent s
      → Consistent (requeue_reaction env id w s).0
  unfolding requeue_reaction
  requeue_reaction-Consistent env id w s c =
      same-Consistent s (requeue_reaction env id w s).0 (ground arith) (ground arith) c

  reactions-Consistent :
      (env : Env) (w : String) (in_flight : List String) (rs : List ReviewReaction) (s : Store)
      → Consistent s
      → Consistent (requeue_lost_reactions host out cfg env w in_flight rs s)
  unfolding requeue_lost_reactions requeue_reaction
  reactions-Consistent env w in_flight [] s c = c
  reactions-Consistent env w in_flight (r ∷ rs) s c =
      elim (Bool-cases (r.worker_id == w && not (member r.review_id in_flight))) [
        | inl e ↦
            rw e (
              reactions-Consistent env w in_flight rs _
                (requeue_reaction-Consistent env r.id w s c))
        | inr e ↦ rw e (reactions-Consistent env w in_flight rs s c)
      ]

  -- The sweep after a worker's reconnect keeps reviews and runs consistent.
  pub reconcile_worker-Consistent :
      (env : Env) (w : String) (in_flight : List String) (s : Store)
      → Consistent s
      → Consistent (reconcile_worker host out cfg env w in_flight s)
  unfolding reconcile_worker
  reconcile_worker-Consistent env w in_flight s c =
      let t = requeue_lost host out cfg env w in_flight (list_reviewing s) s in
      reactions-Consistent env w in_flight (list_running_reactions t) t
        (lost-Consistent env w in_flight (list_reviewing s) s c)
