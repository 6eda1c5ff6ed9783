-- ===== src/Server/Scheduler.antt =====
-- The scheduler of cmd/saturnus-server/scheduler.go: the choice of a worker for a review, its
-- capacity under the collision policy of internal/repopolicy/policy.go, the backoff of a worker,
-- the dispatch of a review, and the sweep after a reconnect. Log lines are left out.
pub mod Dispatch
pub mod Events
pub mod Choose
pub mod Pick
pub mod Capacity
use Prim.Native.String.{compare}
use text.Mathlib.Text.{is_lt}
use saturnus.Base.{
  ℕ, ◌+◌, ◌*◌, min, String, Bool, true, false, not, ◌&&◌, ◌||◌, Option, none, some, List, [], ◌∷◌,
  map, ◌==◌, if◌then◌else◌, eqb, ltb, leb, length, member, any, select_rows, find_row, Result, ok,
  err,
}
use saturnus.Store.Types.{Time, Env, Agent, ReviewRequest, ReviewReaction, Store}
use saturnus.Store.Reviews.{get_review}
use saturnus.Store.Runs.{last_run_worker_id}
use saturnus.Store.Assign.{list_reviewing, list_running_reactions, requeue_reaction}
use saturnus.Store.Contexts.{review_context_id}
use saturnus.Review.Remote.{Outside, Config, JobPayload, start_remote, requeue_for_orphan}
use saturnus.Server.Hub.{Hub, is_online, add_in_flight, clear_in_flight, assign}

-- the fields of `WorkerCapabilities` that are read here
pub record Capabilities : Type 0 where
  pub repos : String → Option String
  pub context_reset : Bool
  pub max_concurrent : ℕ
  pub collision_policy : String

pub data CollisionPolicy : Type 0 where
  mutex worktree : CollisionPolicy

pub record Backoff : Type 0 where
  pub delay : Time
  pub until : Time

-- JSON, strings.TrimSpace, strings.EqualFold, filepath.Clean, whether the server
-- has a checkout, and whether a frame is written to a worker's socket
pub record Host : Type 0 where
  pub capabilities : String → Option Capabilities
  pub trim : String → String
  pub equal_fold : String → String → Bool
  pub clean : String → String
  pub local_available : String → Bool
  pub send : String → JobPayload → Bool

pub record Scheduler : Type 0 where
  pub store : Store
  pub hub : Hub
  pub backoffs : String → Backoff
  pub local_queue : List String

pub record Candidate : Type 0 where
  pub id : String
  pub load : ℕ

abbrev pub second : Time
second = 1000000000

-- twice the delay, from one second to thirty
unfoldable pub next_delay : Time → Time
next_delay delay =
    let started = if eqb (delay * 2) 0 then second else delay * 2 in
    if ltb (30 * second) started then 30 * second else started

unfoldable pub backoff_worker : Time → String → Scheduler → Scheduler
backoff_worker now id sc =
    let delay = next_delay (sc.backoffs id).delay in
    record sc { backoffs = assign id (record { delay = delay; until = now + delay }) sc.backoffs }

unfoldable pub worker_backing_off : Time → String → Scheduler → Bool
worker_backing_off now id sc = ltb now (sc.backoffs id).until

unfoldable pub worker_healthy : Time → Time → String → Hub → Bool
worker_healthy window now id h =
    is_online id h && (not (eqb (h.online id) 0) && ltb now (h.online id + window))

-- The order, by the time of the last heartbeat, is left out: the choice below does not read it.
-- The source compares the times as texts, which below a second may order otherwise than the times.
unfoldable pub list_online_workers : Time → Time → Store → List Agent
list_online_workers window now s =
    select_rows (λ a. a.role == "review-worker" && leb now (a.last_seen + window)) s.agents

-- the first of `cands` in the order by load, then id
abbrev pub ahead : Candidate → Candidate → Bool
ahead a b = if eqb a.load b.load then is_lt (compare a.id b.id) else ltb a.load b.load

unfoldable pub least : Candidate → List Candidate → Candidate
least c [] = c
least c (d ∷ ds) = if ahead d c then least d ds else least c ds

-- the previous worker where it is among the candidates, else the least loaded
unfoldable pub choose : String → List Candidate → Bool → String × Bool
choose affinity [] has_remote = ("", has_remote)
choose affinity (c ∷ cs) has_remote =
    let best = (least c cs).id in
    if not (affinity == "") && any (λ d. d.id == affinity) (c ∷ cs)
    then (affinity, true)
    else (best, true)

module _ (host : Host) where
  unfoldable pub parse_policy : String → Option CollisionPolicy
  parse_policy raw =
      let p = host.trim raw in
      if p == "" || p == "mutex"
      then some mutex
      else if p == "worktree"
      then some worktree
      else none

  -- the checkout of another repo of the worker that is the same directory
  same_checkout : Option String → String → Bool
  same_checkout none dir = false
  same_checkout (some other) dir = not (other == "") && host.clean other == host.clean dir

  unfoldable pub no_conflict :
      CollisionPolicy → Capabilities → ReviewRequest → String → Store → List String → Bool
  unfolding same_checkout
  no_conflict policy caps req dir s [] = true
  no_conflict policy caps req dir s (id ∷ ids) =
      let rest = no_conflict policy caps req dir s ids in
      if id == req.id then false else elim policy [
        | worktree ↦ rest
        | mutex ↦ elim (get_review id s) [
          | none ↦ false
          | some busy ↦
              if host.equal_fold busy.repo req.repo
              then false
              else if same_checkout (caps.repos busy.repo) dir
              then false
              else rest
        ]
      ]

  unfoldable pub worker_has_capacity : String → Capabilities → ReviewRequest → Store → Hub → Bool
  worker_has_capacity worker_id caps req s h = elim (caps.repos req.repo) [
    | none ↦ false
    | some dir ↦ elim (parse_policy caps.collision_policy) [
      | none ↦ false
      | some policy ↦
          let ids = h.in_flight worker_id in
          if leb (if eqb caps.max_concurrent 0 then 1 else caps.max_concurrent) (length ids)
          then false
          else no_conflict policy caps req dir s ids
    ]
  ]

  -- the worker is healthy and serves the repo, and the context where the review has one
  serves_with : String → ReviewRequest → Option Capabilities → Bool
  serves_with context_id req none = false
  serves_with context_id req (some caps) = elim (caps.repos req.repo) [
    | none ↦ false
    | some dir ↦ context_id == "" || caps.context_reset
  ]

  unfoldable pub serves : Time → Time → String → ReviewRequest → Hub → Agent → Bool
  unfolding serves_with
  serves window now context_id req h w =
      worker_healthy window now w.id h
      && serves_with context_id req (host.capabilities w.capabilities)

  free_with : Agent → ReviewRequest → Store → Hub → Option Capabilities → Bool
  free_with w req s h none = false
  free_with w req s h (some caps) = worker_has_capacity w.id caps req s h

  unfoldable pub free : Time → ReviewRequest → Scheduler → Agent → Bool
  unfolding free_with
  free now req sc w =
      not (worker_backing_off now w.id sc)
      && free_with w req sc.store sc.hub (host.capabilities w.capabilities)

  unfoldable pub eligible : Time → Time → ReviewRequest → Scheduler → List Agent
  eligible window now req sc =
      select_rows (serves window now (review_context_id req.id sc.store) req sc.hub)
        (list_online_workers window now sc.store)

  unfoldable pub candidates : Time → Time → ReviewRequest → Scheduler → List Candidate
  candidates window now req sc =
      map (λ w. record { id = w.id; load = length (sc.hub.in_flight w.id) })
        (select_rows (free now req sc) (eligible window now req sc))

  unfoldable pub pick_review_worker : Time → Time → ReviewRequest → Scheduler → String × Bool
  pick_review_worker window now req sc =
      choose (last_run_worker_id req.id sc.store) (candidates window now req sc)
        (any (λ w. true) (eligible window now req sc))
