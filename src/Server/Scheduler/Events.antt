-- ===== src/Server/Scheduler/Events.antt =====
-- cmd/saturnus-server/scheduler.go: what the scheduler does with a worker's connection and frames,
-- the dispatch of reactions, and the sweep. The queue of announced jobs, whose loss the sweep
-- makes good, and log lines are left out; each event and each job runs as one step.
pub mod Laws
use saturnus.Base.{
  ℕ, suc, String, Bool, true, false, not, ◌&&◌, ◌||◌, Option, none, some, List, [], ◌∷◌, ◌++◌, ◌==◌,
  map, any, if◌then◌else◌, Result, ok, err, failure, not_found, or_fail, ◌>>=◌, ◌>>◌,
}
use saturnus.Store.Types.{Time, Env, Agent, ReviewRequest, ReviewReaction, ReviewRun, Store}
use saturnus.Store.Reviews.{get_review, list_reviews}
use saturnus.Store.Reactions.{list_pending_reactions}
use saturnus.Store.Runs.{current_run}
use saturnus.Store.Assign.{get_reaction, list_reviewing, list_running_reactions}
use saturnus.Store.Sessions.{heartbeat}
use saturnus.Store.Workers.{GitHubJson, get_worker, update_worker_github}
use saturnus.Review.Remote.{
  Outside, Config, JobPayload, requeue_for_orphan, complete_remote_run, update_remote_progress,
}
use saturnus.Review.Remote.Reactions.{
  start_remote_reaction, complete_remote_reaction, requeue_orphan_reaction,
}
use saturnus.Server.Hub.{assign, set_in_flight, add_in_flight, clear_in_flight}
use saturnus.Server.Scheduler.{
  Host, Scheduler, Capabilities, backoff_worker, worker_backing_off, worker_healthy,
  worker_has_capacity, list_online_workers,
}
use saturnus.Server.Scheduler.Dispatch.{dispatch_review, reconcile_worker}

-- internal/workerproto/protocol.go
pub record StartedPayload : Type 0 where
  pub run_id : String
  pub reaction_id : String

pub record CompletePayload : Type 0 where
  pub run_id : String
  pub succeeded : Bool
  pub head_commit : String
  pub session_id : String
  pub reaction_id : String
  pub result_text : String
  pub error : String

-- A worker's frame by its type, with the payload, or none where it cannot be decoded. A heartbeat
-- carries the account's information and when it was checked; an error its code, empty where the
-- payload cannot be decoded.
pub data Frame : Type 0 where
  hello : Option (List String) → Frame
  heartbeats : Option (Option (String × Time)) → Frame
  progress : Option String → Frame
  started_frame : Option StartedPayload → Frame
  complete_frame : Option CompletePayload → Frame
  cancel_ack : Frame
  error_frame : String → Frame
  unknown : Frame

-- delete(s.backoffs, workerID)
unfoldable pub on_connect : Env → String → Scheduler → Scheduler
on_connect env worker_id sc = record sc {
  backoffs = assign worker_id (record { delay = 0; until = 0 }) sc.backoffs;
  store = (heartbeat env worker_id sc.store).0;
}

-- whether the server still has the job with the worker
run_valid : String → Bool → Option ReviewRun → Bool
run_valid run_id owned none = owned && run_id == ""
run_valid run_id owned (some run) = owned && (run_id == "" || run_id == run.id)

reaction_valid : String → String → ReviewReaction → Bool
reaction_valid worker_id review_id reac =
    reac.review_id == review_id && (reac.status == "running" && reac.worker_id == worker_id)

-- What the report of a start finds, which is only logged.
unfoldable pub record_started : String → String → StartedPayload → Store → Result Bool
unfolding run_valid reaction_valid
record_started worker_id review_id p s = do
  req ← or_fail (get_review review_id s) not_found
  let owned = req.status == "reviewing" && req.worker_id == worker_id
  let reaction = or_fail (get_reaction p.reaction_id s) not_found
  if p.reaction_id == ""
      then ok (run_valid p.run_id owned (current_run review_id s))
      else (reaction >>= λ reac. ok (reaction_valid worker_id review_id reac))

module _ (host : Host) (out : Outside) (cfg : Config) (json : GitHubJson) where
  abbrev pub of_store : Scheduler → Store → Scheduler
  of_store sc s = record sc { store = s }

  beat : Env → String → Option (Option (String × Time)) → Store → Store
  beat env worker_id (some (some info)) s =
      (update_worker_github json worker_id (some info) (heartbeat env worker_id s).0).0
  beat env worker_id _ s = (heartbeat env worker_id s).0

  completed : Env → String → String → CompletePayload → Store → Store × Result (Unit {0})
  completed env worker_id review_id p s =
      if p.reaction_id == ""
      then complete_remote_run out cfg env review_id p.run_id worker_id p.succeeded p.head_commit
          p.session_id p.result_text p.error s
      else complete_remote_reaction out cfg env p.reaction_id worker_id p.succeeded p.session_id
          p.result_text p.error s

  -- a completion that is accepted takes the review off the worker's list
  after_completion :
      String → String → Scheduler → Store × Result (Unit {0}) → Scheduler × Result (Unit {0})
  after_completion worker_id review_id sc (s, ok _) =
      (record sc { store = s; hub = clear_in_flight worker_id review_id sc.hub }, ok tt)
  after_completion worker_id review_id sc (s, err e) = (of_store sc s, ok tt)

  cleared : String → String → Scheduler → Scheduler
  cleared worker_id review_id sc = record sc { hub = clear_in_flight worker_id review_id sc.hub }

  -- A worker that is busy is backed off, and the review that it was claimed for handed back.
  refused_claim : Env → String → String → Scheduler → Scheduler
  refused_claim env worker_id review_id sc =
      let back = backoff_worker env.now worker_id sc in
      of_store back
        (requeue_for_orphan out cfg env review_id worker_id "worker at capacity" back.store).0

  unfoldable pub on_event :
      Env → String → String → Frame → Scheduler → Scheduler × Result (Unit {0})
  unfolding beat completed after_completion cleared refused_claim
  on_event env worker_id review_id (hello (some in_flight)) sc = (
    record sc {
      hub = set_in_flight worker_id in_flight sc.hub;
      store = reconcile_worker host out cfg env worker_id in_flight sc.store;
    },
    ok tt,
  )
  on_event env worker_id review_id (hello none) sc = (sc, ok tt)
  on_event env worker_id review_id (heartbeats p) sc =
      (of_store sc (beat env worker_id p sc.store), ok tt)
  on_event env worker_id review_id (progress none) sc = (sc, ok tt)
  on_event env worker_id review_id (progress (some text)) sc = (
    if review_id == ""
        then sc
        else of_store sc (update_remote_progress out cfg env review_id text sc.store),
    ok tt,
  )
  on_event env worker_id review_id (started_frame none) sc = (sc, err (failure "payload"))
  on_event env worker_id review_id (started_frame (some p)) sc =
      (sc, record_started worker_id review_id p sc.store >>= λ valid. ok tt)
  on_event env worker_id review_id (complete_frame none) sc = (sc, ok tt)
  on_event env worker_id review_id (complete_frame (some p)) sc =
      after_completion worker_id review_id sc (completed env worker_id review_id p sc.store)
  on_event env worker_id review_id cancel_ack sc = (cleared worker_id review_id sc, ok tt)
  on_event env worker_id review_id (error_frame code) sc =
      let off = cleared worker_id review_id sc in
      (if code == "busy" then refused_claim env worker_id review_id off else off, ok tt)
  on_event env worker_id review_id unknown sc = (sc, ok tt)

  -- the worker that ran the review, where it is healthy, not backed off and has room for it
  reaction_worker : Time → Time → ReviewRequest → Scheduler → Bool
  reaction_worker window now req sc =
      let able = elim (get_worker req.worker_id sc.store) as (λ o. Bool) [
        | none ↦ false
        | some agent ↦ elim (host.capabilities agent.capabilities) [
          | none ↦ false
          | some caps ↦ worker_has_capacity host req.worker_id caps req sc.store sc.hub
        ]
      ] in
      worker_healthy window now req.worker_id sc.hub
      && (not (worker_backing_off now req.worker_id sc) && able)

  -- after `StartRemoteReaction`; a claim that is not written to the socket is taken back
  send_reaction :
      Env → ReviewReaction → ReviewRequest → Scheduler → Store × Result JobPayload → Scheduler
  send_reaction env reac req sc (s, err e) = of_store sc s
  send_reaction env reac req sc (s, ok payload) =
      let w = req.worker_id in
      let sent = record sc { store = s; hub = add_in_flight w req.id sc.hub } in
      let back = backoff_worker env.now w sent in
      if host.send w payload then sent else record back {
        hub = clear_in_flight w req.id back.hub;
        store = (requeue_orphan_reaction out cfg env reac.id w back.store).0;
      }

  dispatch_reaction_for : Time → Env → ReviewReaction → ReviewRequest → Scheduler → Scheduler
  unfolding reaction_worker send_reaction
  dispatch_reaction_for window env reac req sc =
      let start = start_remote_reaction out cfg env reac req req.worker_id sc.store in
      let remote =
        if reaction_worker window env.now req sc then send_reaction env reac req sc start else sc in
      let local =
        if host.local_available req.repo
        then record sc { local_queue = sc.local_queue ++ reac.id ∷ [] }
        else sc in
      if req.worker_id == "" then local else remote

  unfoldable pub dispatch_reaction : Time → Env → String → Scheduler → Scheduler
  unfolding dispatch_reaction_for
  dispatch_reaction window env id sc = elim (get_reaction id sc.store) [
    | none ↦ sc
    | some reac ↦
        let found = elim (get_review reac.review_id sc.store) as (λ o. Scheduler) [
          | none ↦ sc
          | some req ↦ dispatch_reaction_for window env reac req sc
        ] in
        if reac.status == "pending" then found else sc
  ]

  orphans : Time → Env → List ReviewRequest → Scheduler → Scheduler
  orphans window env [] sc = sc
  orphans window env (r ∷ rs) sc =
      let lost = not (r.worker_id == "" || worker_healthy window env.now r.worker_id sc.hub) in
      let back = (requeue_for_orphan out cfg env r.id r.worker_id "worker offline" sc.store).0 in
      orphans window env rs (if lost then of_store sc back else sc)

  orphan_reactions : Time → Env → List ReviewReaction → Scheduler → Scheduler
  orphan_reactions window env [] sc = sc
  orphan_reactions window env (r ∷ rs) sc =
      let lost = not (r.worker_id == "" || worker_healthy window env.now r.worker_id sc.hub) in
      let back = (requeue_orphan_reaction out cfg env r.id r.worker_id sc.store).0 in
      orphan_reactions window env rs (if lost then of_store sc back else sc)

  -- Each job runs with its own clock and random ids.
  each_job :
      (ℕ → Env) → (Env → String → Scheduler → Scheduler) → List String → Scheduler → Scheduler
  each_job envs job [] sc = sc
  each_job envs job (id ∷ ids) sc = each_job (λ n. envs (suc n)) job ids (job (envs 0) id sc)

  unfoldable pub reconcile : Time → Env → (ℕ → Env) → (ℕ → Env) → Scheduler → Scheduler
  unfolding orphans orphan_reactions each_job
  reconcile window env for_reviews for_reactions sc =
      let freed = orphans window env (list_reviewing sc.store) sc in
      let swept = orphan_reactions window env (list_running_reactions freed.store) freed in
      let given =
        each_job for_reviews (dispatch_review host out cfg window)
          (map (λ r. r.id) (list_reviews "pending" false swept.store)) swept in
      each_job for_reactions (dispatch_reaction window)
        (map (λ r. r.id) (list_pending_reactions given.store)) given

  serves_repo : Time → Time → String → Scheduler → Agent → Bool
  serves_repo window now repo sc w = elim (host.capabilities w.capabilities) [
    | none ↦ false
    | some caps ↦ elim (caps.repos repo) [
      | none ↦ false
      | some dir ↦ worker_healthy window now w.id sc.hub
    ]
  ]

  unfoldable pub repo_available : Time → Time → String → Scheduler → Bool
  unfolding serves_repo
  repo_available window now repo sc =
      host.local_available repo
      || any (serves_repo window now repo sc) (list_online_workers window now sc.store)
