-- ===== src/Server/Scheduler/Pick.antt =====
-- Which worker is chosen for a review.
use mathlib.Core.List.{Memᴰ}
use saturnus.Server.Hub.{Hub, is_online}
use saturnus.Server.Scheduler.Choose.{from_members, All-select, All-of_map, choose-cases}
use saturnus.Server.Scheduler.Capacity.{Apart, worker_has_capacity_room}
use saturnus.Base.{
  ltb, ℕ, ◌+◌, ◌<◌, some, leb, eqb, and_left, ltb→lt, Option-cases, ◌≤◌, String, Bool, true, not,
  ◌&&◌, ◌==◌, ◌≡◌, ◌≢◌, ◌⊎◌, inl, inr, refl, any, All, All-map, select_rows, arith, eq_iff,
  and_right, length, or-cases,
}
use saturnus.Store.Types.{Time, Agent, ReviewRequest}
use saturnus.Store.Runs.{last_run_worker_id}
use saturnus.Store.Contexts.{review_context_id}
use saturnus.Server.Scheduler.{
  Host, Scheduler, Candidate, Capabilities, CollisionPolicy, parse_policy, worker_healthy,
  worker_backing_off, serves_with, free_with, candidates, eligible, serves, free,
  list_online_workers, pick_review_worker,
}

ltb→le : (now until : Time) → not (ltb now until) ≡ true → until ≤ now
ltb→le now until h = ground (arith, h)

leb→le : (n m : Time) → leb n m ≡ true → n ≤ m
leb→le n m h = ground (arith, h)

-- what makes a worker a candidate for a review
pub record IsFit (host : Host) (window now : Time) (req : ReviewRequest) (sc : Scheduler)
    (c : Candidate) : Type 0 where
  pub worker : Agent
  pub known : Memᴰ worker sc.store.agents
  pub same_id : worker.id ≡ c.id
  pub same_load : c.load ≡ length (sc.hub.in_flight c.id)
  pub reviews : worker.role ≡ "review-worker"
  pub seen : now ≤ worker.last_seen + window
  pub connection : ℕ
  pub connected : sc.hub.conns c.id ≡ some connection
  pub was_heard : sc.hub.online c.id ≢ 0
  pub heard : now < sc.hub.online c.id + window
  pub not_held : (sc.backoffs c.id).until ≤ now
  pub caps : Capabilities
  pub stated : host.capabilities worker.capabilities ≡ some caps
  pub resets : (review_context_id req.id sc.store ≡ "") ⊎ (caps.context_reset ≡ true)
  pub dir : String
  pub served : caps.repos req.repo ≡ some dir
  pub policy : CollisionPolicy
  pub chosen : parse_policy host caps.collision_policy ≡ some policy
  pub room :
      (length (sc.hub.in_flight c.id) < caps.max_concurrent)
      ⊎ ((caps.max_concurrent ≡ 0) × (length (sc.hub.in_flight c.id) ≡ 0))
  pub apart : All (Apart host policy caps req dir sc.store) (sc.hub.in_flight c.id)

healthy_parts :
    (window now : Time) (id : String) (h : Hub)
    → worker_healthy window now id h ≡ true
    → ((connection : ℕ) × (h.conns id ≡ some connection))
      × (h.online id ≢ 0)
      × (now < h.online id + window)
unfolding worker_healthy is_online
healthy_parts window now id h k = elim (Option-cases (h.conns id)) [
  | inl e ↦ absurd (cc (k, e))
  | inr (connection, e) ↦
      let rest = and_right (is_online id h) _ k in
      let once = and_left (not (eqb (h.online id) 0)) _ rest in
      (
        (connection, e),
        (λ z. ground (arith, once, z)),
        ltb→lt now (h.online id + window) (and_right (not (eqb (h.online id) 0)) _ rest),
      )
]

module _ (host : Host) (window now : Time) (req : ReviewRequest) (sc : Scheduler) where
  -- whether a worker of the store is a review worker that was seen of late
  abbrev is_seen : Agent → Bool
  is_seen a = a.role == "review-worker" && leb now (a.last_seen + window)

  serving_context :
      (caps : Capabilities) (context : String)
      → serves_with host context req (some caps) ≡ true
      → (context ≡ "") ⊎ (caps.context_reset ≡ true)
  unfolding serves_with
  serving_context caps context h = elim (Option-cases (caps.repos req.repo)) [
    | inl e ↦ absurd (cc (h, e))
    | inr (dir, e) ↦ elim (or-cases (context == "") caps.context_reset (cc (h, e))) [
      | inl f ↦ inl ((eq_iff context "").0 f)
      | inr f ↦ inr f
    ]
  ]

  fit :
      (a : Agent)
      → Memᴰ a sc.store.agents
      → is_seen a ≡ true
      → serves host window now (review_context_id req.id sc.store) req sc.hub a ≡ true
      → free host now req sc a ≡ true
      → IsFit host window now req sc (record { id = a.id; load = length (sc.hub.in_flight a.id) })
  unfolding serves free free_with worker_backing_off
  fit a m seen serving idle = elim (Option-cases (host.capabilities a.capabilities)) [
    | inl e ↦ absurd (
        cc (
          and_right (not (worker_backing_off now a.id sc))
              (free_with host a req sc.store sc.hub (host.capabilities a.capabilities)) idle,
          e,
        ))
    | inr (caps, e) ↦
        let ((connection, conn), once, late) =
          healthy_parts window now a.id sc.hub (and_left _ _ serving) in
        let (dir, policy, served, chosen, room, apart) =
          worker_has_capacity_room host a.id caps req sc.store sc.hub (
            cc (
              and_right (not (worker_backing_off now a.id sc))
                  (free_with host a req sc.store sc.hub (host.capabilities a.capabilities)) idle,
              e,
            )) in
        record {
          worker = a;
          known = m;
          same_id = refl;
          same_load = refl;
          reviews = (eq_iff a.role "review-worker").0 (and_left _ _ seen);
          seen = leb→le now (a.last_seen + window) (and_right (a.role == "review-worker") _ seen);
          connection = connection;
          connected = conn;
          was_heard = once;
          heard = late;
          not_held = ltb→le now (sc.backoffs a.id).until (and_left _ _ idle);
          caps = caps;
          stated = e;
          resets = serving_context caps (review_context_id req.id sc.store) (
              cc (
                and_right (worker_healthy window now a.id sc.hub)
                    (serves_with host (review_context_id req.id sc.store) req
                      (host.capabilities a.capabilities))
                    serving,
                e,
              ));
          dir = dir;
          served = served;
          policy = policy;
          chosen = chosen;
          room = room;
          apart = apart;
        }
  ]

  candidates-IsFit : All (IsFit host window now req sc) (candidates host window now req sc)
  unfolding candidates eligible list_online_workers
  candidates-IsFit =
      let agents = sc.store.agents in
      let here : Agent → Type 0 = λ a. Memᴰ a agents in
      let serving = serves host window now (review_context_id req.id sc.store) req sc.hub in
      let idle = free host now req sc in
      let online = select_rows is_seen agents in
      let seen = All-select here is_seen agents (from_members here agents (λ a m. m)) in
      let served = All-select (λ a. here a × (is_seen a ≡ true)) serving online seen in
      let left =
        All-select (λ a. (here a × (is_seen a ≡ true)) × (serving a ≡ true)) idle
          (select_rows serving online) served in
      All-of_map (IsFit host window now req sc)
        (λ w. record { id = w.id; load = length (sc.hub.in_flight w.id) })
        (select_rows idle (select_rows serving online))
        (All-map (λ a. ((here a × (is_seen a ≡ true)) × (serving a ≡ true)) × (idle a ≡ true))
          (λ a.
            IsFit host window now req sc
              (record { id = a.id; load = length (sc.hub.in_flight a.id) }))
          (select_rows idle (select_rows serving online)) (λ a h. fit a h.0.0.0 h.0.0.1 h.0.1 h.1)
          left)

  -- A worker that is picked is a review worker of the store that was seen within the window, is
  -- connected and was heard from within the window, is not held off, serves the review's repo,
  -- resets contexts where the review has one, and has room for the review: fewer reviews in flight
  -- than it runs at once, or none where it gives no number, and none that is in conflict. It is the
  -- worker of the review's last run, or no candidate has fewer reviews in flight.
  pub pick_review_worker-IsFit :
      (pick_review_worker host window now req sc).0 ≢ ""
      → (c : Candidate) × IsFit host window now req sc c
        × (c.id ≡ (pick_review_worker host window now req sc).0)
        × ((c.id ≡ last_run_worker_id req.id sc.store)
            ⊎ All (λ d. c.load ≤ d.load) (candidates host window now req sc))
  unfolding pick_review_worker
  pick_review_worker-IsFit h =
      choose-cases (IsFit host window now req sc) (last_run_worker_id req.id sc.store)
        (candidates host window now req sc) (any (λ w. true) (eligible host window now req sc))
        candidates-IsFit h
