-- ===== src/Server/Scheduler/Dispatch.antt =====
-- `dispatchReview` and `reconcileWorker` of cmd/saturnus-server/scheduler.go. The jobs that a
-- hand-back announces to the queue, and log lines, are left out.
pub mod Sweep
pub mod Clears
pub mod Claims
use saturnus.Base.{
  ℕ, String, Bool, true, false, not, ◌&&◌, Option, none, some, List, [], ◌∷◌, ◌++◌, ◌==◌,
  if◌then◌else◌, member, Result, ok, err,
}
use saturnus.Store.Types.{Time, Env, ReviewRequest, ReviewReaction, Store}
use saturnus.Store.Reviews.{get_review}
use saturnus.Store.Assign.{list_reviewing, list_running_reactions, requeue_reaction}
use saturnus.Review.Remote.{Outside, Config, JobPayload, start_remote, requeue_for_orphan}
use saturnus.Server.Hub.{add_in_flight, clear_in_flight}
use saturnus.Server.Scheduler.{Host, Scheduler, backoff_worker, pick_review_worker}

module _ (host : Host) (out : Outside) (cfg : Config) where
  -- no worker was chosen: wait, or run on the server where it has the checkout
  dispatch_local : ReviewRequest → Bool → Scheduler → Scheduler
  dispatch_local req true sc = sc
  dispatch_local req false sc =
      if host.local_available req.repo
      then record sc { local_queue = sc.local_queue ++ req.id ∷ [] }
      else sc

  -- a claim that is not written to the socket is taken back
  claim_failed : Env → ReviewRequest → String → Scheduler → Scheduler
  claim_failed env req w sc =
      let back = backoff_worker env.now w sc in
      record back {
        hub = clear_in_flight w req.id back.hub;
        store = (requeue_for_orphan out cfg env req.id w "claim send failed" back.store).0;
      }

  -- after `StartRemote`
  send_claim : Env → ReviewRequest → String → Scheduler → Store × Result JobPayload → Scheduler
  unfolding claim_failed
  send_claim env req w sc (s, err e) = record sc { store = s }
  send_claim env req w sc (s, ok payload) =
      let sent = record sc { store = s; hub = add_in_flight w req.id sc.hub } in
      if host.send w payload then sent else claim_failed env req w sent

  dispatch_picked : Env → ReviewRequest → String × Bool → Scheduler → Scheduler
  unfolding dispatch_local send_claim
  dispatch_picked env req (w, wait) sc =
      if w == ""
      then dispatch_local req wait sc
      else send_claim env req w sc (start_remote out cfg env req w sc.store)

  unfoldable pub dispatch_review : Time → Env → String → Scheduler → Scheduler
  unfolding dispatch_picked
  dispatch_review window env id sc = elim (get_review id sc.store) [
    | none ↦ sc
    | some req ↦
        if req.status == "pending"
        then dispatch_picked env req (pick_review_worker host window env.now req sc) sc
        else sc
  ]

  unfoldable pub requeue_lost : Env → String → List String → List ReviewRequest → Store → Store
  requeue_lost env w in_flight [] s = s
  requeue_lost env w in_flight (r ∷ rs) s =
      let reason : String = "worker no longer running job after reconnect" in
      let lost = r.worker_id == w && not (member r.id in_flight) in
      requeue_lost env w in_flight rs
        (if lost then (requeue_for_orphan out cfg env r.id w reason s).0 else s)

  unfoldable pub requeue_lost_reactions :
      Env → String → List String → List ReviewReaction → Store → Store
  requeue_lost_reactions env w in_flight [] s = s
  requeue_lost_reactions env w in_flight (r ∷ rs) s =
      let lost = r.worker_id == w && not (member r.review_id in_flight) in
      requeue_lost_reactions env w in_flight rs
        (if lost then (requeue_reaction env r.id w s).0 else s)

  unfoldable pub reconcile_worker : Env → String → List String → Store → Store
  unfolding requeue_lost requeue_lost_reactions
  reconcile_worker env w in_flight s =
      let t = requeue_lost env w in_flight (list_reviewing s) s in
      requeue_lost_reactions env w in_flight (list_running_reactions t) t
