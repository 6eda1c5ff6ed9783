-- ===== src/Server/Scheduler/Capacity.antt =====
-- What a worker with capacity has room for, and how long a worker is backed off.
use saturnus.Base.{
  lt→ltb, ltb→lt, eq_refl, ℕ, ◌+◌, ◌*◌, ◌≤◌, ◌<◌, String, true, false, ◌==◌, some, List, [], ◌∷◌,
  ◌≡◌, ◌⊎◌, ◌↔◌, inl, inr, Bool-cases, Option-cases, if◌then◌else◌, eqb, leb, length, All, arith,
}
use saturnus.Store.Types.{Time, ReviewRequest, Store}
use saturnus.Store.Reviews.{get_review}
use saturnus.Server.Hub.{Hub}
use saturnus.Server.Scheduler.{
  Host, Scheduler, Capabilities, CollisionPolicy, mutex, worktree, second, next_delay,
  backoff_worker, worker_backing_off, no_conflict, same_checkout, parse_policy, worker_has_capacity,
}

room :
    (most n : ℕ)
    → leb (if eqb most 0 then 1 else most) n ≡ false
    → (n < most) ⊎ ((most ≡ 0) × (n ≡ 0))
room most n h = ground arith

module _ (host : Host) where
  -- A dispatched review leaves room for another: it is a different one and, where checkouts are
  -- shared, a known review of another repo in another directory.
  pub Apart : CollisionPolicy → Capabilities → ReviewRequest → String → Store → String → Type 0
  Apart worktree caps req dir s id = (id == req.id) ≡ false
  Apart mutex caps req dir s id =
      ((id == req.id) ≡ false)
      × ((busy : ReviewRequest) × (get_review id s ≡ some busy)
          × (host.equal_fold busy.repo req.repo ≡ false)
          × (same_checkout host (caps.repos busy.repo) dir ≡ false))

  no_conflict-Apart :
      (policy : CollisionPolicy) (caps : Capabilities) (req : ReviewRequest) (dir : String)
      (s : Store) (ids : List String)
      → no_conflict host policy caps req dir s ids ≡ true
      → All (Apart policy caps req dir s) ids
  unfolding no_conflict Apart
  no_conflict-Apart policy caps req dir s [] h = tt
  no_conflict-Apart worktree caps req dir s (id ∷ ids) h = elim (Bool-cases (id == req.id)) [
    | inl e ↦ absurd (cc (h, e))
    | inr e ↦ (e, no_conflict-Apart worktree caps req dir s ids (cc (h, e)))
  ]
  no_conflict-Apart mutex caps req dir s (id ∷ ids) h = elim (Bool-cases (id == req.id)) [
    | inl e ↦ absurd (cc (h, e))
    | inr e ↦ elim (Option-cases (get_review id s)) [
      | inl n ↦ absurd (cc (h, e, n))
      | inr (busy, n) ↦ elim (Bool-cases (host.equal_fold busy.repo req.repo)) [
        | inl f ↦ absurd (cc (h, e, n, f))
        | inr f ↦ elim (Bool-cases (same_checkout host (caps.repos busy.repo) dir)) [
          | inl g ↦ absurd (cc (h, e, n, f, g))
          | inr g ↦ (
            (e, (busy, n, f, g)),
            no_conflict-Apart mutex caps req dir s ids (cc (h, e, n, f, g)),
          )
        ]
      ]
    ]
  ]

  -- A worker with capacity for a review serves its repo under a valid policy, has fewer reviews in
  -- flight than it runs at once (one, where it says none), none of them this one, and, where it
  -- does not use worktrees, only known reviews of other repos in other checkouts.
  pub worker_has_capacity_room :
      (w : String) (caps : Capabilities) (req : ReviewRequest) (s : Store) (h : Hub)
      → worker_has_capacity host w caps req s h ≡ true
      → (dir : String) × (policy : CollisionPolicy) × (caps.repos req.repo ≡ some dir)
        × (parse_policy host caps.collision_policy ≡ some policy)
        × ((length (h.in_flight w) < caps.max_concurrent)
            ⊎ ((caps.max_concurrent ≡ 0) × (length (h.in_flight w) ≡ 0)))
        × All (Apart policy caps req dir s) (h.in_flight w)
  unfolding worker_has_capacity
  worker_has_capacity_room w caps req s h k = elim (Option-cases (caps.repos req.repo)) [
    | inl e ↦ absurd (cc (k, e))
    | inr (dir, e) ↦ elim (Option-cases (parse_policy host caps.collision_policy)) [
      | inl f ↦ absurd (cc (k, e, f))
      | inr (policy, f) ↦
          elim (Bool-cases (
            leb (if eqb caps.max_concurrent 0 then 1 else caps.max_concurrent)
              (length (h.in_flight w)))) [
                | inl g ↦ absurd (cc (k, e, f, g))
                | inr g ↦ (
                  dir,
                  policy,
                  e,
                  f,
                  room caps.max_concurrent (length (h.in_flight w)) g,
                  no_conflict-Apart policy caps req dir s (h.in_flight w) (cc (k, e, f, g)),
                )
              ]
    ]
  ]

-- every worker's delay is unset or from one second to thirty
abbrev pub IsBounded : Scheduler → Type 0
IsBounded sc =
    (id : String)
    → ((sc.backoffs id).delay ≡ 0)
      ⊎ ((second ≤ (sc.backoffs id).delay) × ((sc.backoffs id).delay ≤ 30 * second))

next_delay_bounds :
    (d : Time)
    → (d ≡ 0) ⊎ ((second ≤ d) × (d ≤ 30 * second))
    → (second ≤ next_delay d)
      × (next_delay d ≤ 30 * second)
      × ((next_delay d ≡ 30 * second) ⊎ (d * 2 ≤ next_delay d))
unfolding next_delay
next_delay_bounds d h = ground arith

-- Where the delays are bounded, a backoff leaves the worker's delay between one second and thirty and at least doubled up to
-- there, holds the worker off until the delay is over, and keeps the delays of all workers bounded.
pub backoff_worker-IsBounded :
    (now : Time) (id : String) (sc : Scheduler)
    → IsBounded sc
    → let t = backoff_worker now id sc in
      IsBounded t
      × (second ≤ (t.backoffs id).delay)
      × (((t.backoffs id).delay ≡ 30 * second)
          ⊎ ((sc.backoffs id).delay * 2 ≤ (t.backoffs id).delay))
      × ((later : Time)
          → (worker_backing_off later id t ≡ true) ↔ (later < now + (t.backoffs id).delay))
unfolding backoff_worker worker_backing_off
backoff_worker-IsBounded now id sc b =
    let (low, high, twice) = next_delay_bounds (sc.backoffs id).delay (b id) in
    (
      (λ j. elim (Bool-cases (id == j)) [ inl e ↦ rw e (inr (low, high)) | inr e ↦ rw e (b j) ]),
      rw (eq_refl id) low,
      rw (eq_refl id) twice,
      (λ later. rw (eq_refl id) (ltb→lt later _, lt→ltb later _)),
    )
