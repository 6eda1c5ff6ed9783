-- ===== src/Examples/Scheduler.antt =====
-- The scheduler on concrete rows: one connected worker, one review that waits.
use saturnus.Base.{
  sym, ◌+◌, ◌*◌, ◌≤◌, ◌<◌, String, true, false, ◌==◌, none, some, [], ◌∷◌, ◌≡◌, ◌≢◌, ◌⊎◌, ◌↔◌, inl,
  refl, subst, if◌then◌else◌, length, All, eq_false→ne,
}
use saturnus.Store.Types.{Time, Store, ReviewRequest}
use saturnus.Store.Reviews.{get_review}
use saturnus.Store.Runs.{last_run_worker_id}
use saturnus.Server.Hub.{Hub, is_online}
use saturnus.Store.Contexts.{review_context_id}
use saturnus.Server.Scheduler.{
  choose, eligible, list_online_workers, serves, worker_healthy, free, no_conflict, least, Host,
  Scheduler, Capabilities, Candidate, CollisionPolicy, second, backoff_worker, worker_backing_off,
  worker_has_capacity, parse_policy, pick_review_worker, candidates,
}
use saturnus.Server.Scheduler.Capacity.{
  Apart, IsBounded, worker_has_capacity_room, backoff_worker-IsBounded,
}
use saturnus.Server.Scheduler.Pick.{IsFit, pick_review_worker-IsFit}
use saturnus.Server.Scheduler.Dispatch.{dispatch_review, reconcile_worker}
use saturnus.Server.Scheduler.Dispatch.Clears.{is_lost, reconcile_worker_clears}
use saturnus.Server.Scheduler.Dispatch.Claims.{Dispatched, dispatch_review-settles}
use saturnus.Examples.Rows.{monday, tuesday, waiting_review, small, config, outside}

abbrev pub abilities : Capabilities
abilities = record {
  repos = λ repo. if repo == "org/app" then some "/app" else none;
  context_reset = true;
  max_concurrent = 2;
  collision_policy = "mutex";
}

abbrev pub host : Host
host = record {
  capabilities = λ raw. some abilities;
  trim = λ s. s;
  equal_fold = λ s t. s == t;
  clean = λ s. s;
  local_available = λ repo. false;
  send = λ w payload. false;
}

abbrev pub hub : Hub
hub = record {
  conns = λ w. if w == "w1" then some 1 else none;
  in_flight = λ w. [];
  online = λ w. 90;
  closed = false;
}

abbrev pub ready : Scheduler
ready = record {
  store = small;
  hub = hub;
  backoffs = λ w. record { delay = 0; until = 0 };
  local_queue = [];
}

dispatch_review-settles_example :
    Dispatched host outside config monday waiting_review "rev1"
      (pick_review_worker host 500 100 waiting_review ready).0
      ready
      (dispatch_review host outside config 500 monday "rev1" ready)
unfolding get_review
dispatch_review-settles_example =
    dispatch_review-settles host outside config 500 monday "rev1" waiting_review ready (tt, tt) refl
      refl

-- another review is in flight, of a repo with its own checkout
abbrev other_review : ReviewRequest
other_review = record waiting_review {
  id = "rev2";
  repo = "org/lib";
  status = "reviewing";
  worker_id = "w1";
}

abbrev shared : Store
shared = record small { reviews = waiting_review ∷ other_review ∷ [] }

abbrev working : Hub
working = record hub { in_flight = λ w. "rev2" ∷ [] }

has_room : worker_has_capacity host "w1" abilities waiting_review shared working ≡ true
unfolding worker_has_capacity parse_policy no_conflict get_review
has_room = refl

worker_has_capacity_room_example :
    (dir : String) × (policy : CollisionPolicy) × (abilities.repos waiting_review.repo ≡ some dir)
    × (parse_policy host abilities.collision_policy ≡ some policy)
    × ((length (working.in_flight "w1") < abilities.max_concurrent)
        ⊎ ((abilities.max_concurrent ≡ 0) × (length (working.in_flight "w1") ≡ 0)))
    × All (Apart host policy abilities waiting_review dir shared) (working.in_flight "w1")
worker_has_capacity_room_example =
    worker_has_capacity_room host "w1" abilities waiting_review shared working has_room

backoff_worker-IsBounded_example :
    let t = backoff_worker 100 "w1" ready in
    IsBounded t
    × (second ≤ (t.backoffs "w1").delay)
    × (((t.backoffs "w1").delay ≡ 30 * second) ⊎ (0 ≤ (t.backoffs "w1").delay))
    × ((later : Time)
        → (worker_backing_off later "w1" t ≡ true) ↔ (later < 100 + (t.backoffs "w1").delay))
backoff_worker-IsBounded_example = backoff_worker-IsBounded 100 "w1" ready (λ w. inl refl)

picked : (pick_review_worker host 500 100 waiting_review ready).0 ≡ "w1"
unfolding pick_review_worker choose candidates eligible list_online_workers serves worker_healthy
    is_online review_context_id free worker_backing_off worker_has_capacity parse_policy no_conflict
    last_run_worker_id least
picked = refl

picked_some : (pick_review_worker host 500 100 waiting_review ready).0 ≢ ""
picked_some = subst (λ w. w ≢ "") (sym picked) (eq_false→ne "w1" "" refl)

pick_review_worker-IsFit_example :
    (c : Candidate) × IsFit host 500 100 waiting_review ready c
    × (c.id ≡ (pick_review_worker host 500 100 waiting_review ready).0)
    × ((c.id ≡ last_run_worker_id "rev1" small)
        ⊎ All (λ d. c.load ≤ d.load) (candidates host 500 100 waiting_review ready))
pick_review_worker-IsFit_example =
    pick_review_worker-IsFit host 500 100 waiting_review ready picked_some

reconcile_worker_clears_example :
    All
      (λ r. is_lost "w1" ("rev1" ∷ []) r ≡ false)
      (reconcile_worker host outside config tuesday "w1" ("rev1" ∷ []) shared).reviews
reconcile_worker_clears_example =
    reconcile_worker_clears host outside config tuesday "w1" ("rev1" ∷ []) shared
