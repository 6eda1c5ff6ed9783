-- ===== src/Server/Scheduler/Dispatch/Claims.antt =====
-- Where the dispatch of a review leaves it: waiting, or with a worker that was sent the job.
use saturnus.Base.{
  not, Error, select_rows, [], ◌∷◌, String, Bool, true, false, ◌==◌, ◌≡◌, ◌≢◌, ◌⊎◌, refl, sym, inl,
  inr, some, List, Bool-cases, Result, ok, err, member, arith, subst, Keyed, find_row_holds, eq_iff,
  eq_refl, eq_false→ne,
}
use saturnus.Store.Types.{Time, Env, ReviewRequest, Store}
use saturnus.Store.Reviews.{get_review}
use saturnus.Review.Remote.{JobPayload, Outside, Config, start_remote, requeue_for_orphan}
use saturnus.Review.Remote.Claims.{Waits, Holds, Started, release-Waits, start_remote-Started}
use saturnus.Server.Hub.{Hub, add_in_flight, clear_in_flight}
use saturnus.Server.Scheduler.{Host, Scheduler, backoff_worker, pick_review_worker}
use saturnus.Server.Scheduler.Dispatch.{
  dispatch_review, dispatch_picked, send_claim, claim_failed, dispatch_local,
}
use saturnus.Server.Scheduler.Dispatch.Clears.{requeue-reviews}

member-filtered :
    (id : String) (ids : List String) → member id (select_rows (λ j. not (j == id)) ids) ≡ false
member-filtered id [] = refl
member-filtered id (j ∷ ids) = ground (arith, member-filtered id ids)

add-member : (w id : String) (h : Hub) → member id ((add_in_flight w id h).in_flight w) ≡ true
unfolding add_in_flight
add-member w id h = elim (Bool-cases (member id (h.in_flight w))) [
  | inl e ↦ rw (eq_refl w, e) e
  | inr e ↦ rw (eq_refl w, e, eq_refl id) refl
]

clear-member : (w id : String) (h : Hub) → member id ((clear_in_flight w id h).in_flight w) ≡ false
unfolding clear_in_flight
clear-member w id h = rw (eq_refl w) (member-filtered id (h.in_flight w))

module _ (host : Host) (out : Outside) (cfg : Config) where
  -- What the start of a run on the worker answers, and what is left then.
  abbrev pub Settled : String → String → Result JobPayload → Scheduler → Type 0
  Settled id w answer t =
      ((e : Error) × (answer ≡ err e) × Waits id t.store)
      ⊎ ((payload : JobPayload) × (answer ≡ ok payload)
          × (((host.send w payload ≡ false)
                × Waits id t.store
                × (member id (t.hub.in_flight w) ≡ false))
              ⊎ ((host.send w payload ≡ true)
                  × Holds id w t.store
                  × (member id (t.hub.in_flight w) ≡ true))))

  sent-Settled :
      (env : Env) (req : ReviewRequest) (w : String) (sc : Scheduler)
      (r : Store × Result JobPayload)
      → Started out cfg req.id w r
      → Settled req.id w r.1 (send_claim host out cfg env req w sc r)
  unfolding send_claim backoff_worker claim_failed
  sent-Settled env req w sc (s, err e) (inl (x, same, waits)) = inl (x, same, waits)
  sent-Settled env req w sc (s, err e) (inr (x, same, held)) = absurd (cc same)
  sent-Settled env req w sc (s, ok payload) (inl (x, same, waits)) = absurd (cc same)
  sent-Settled env req w sc (s, ok payload) (inr (x, same, held)) =
      elim (Bool-cases (host.send w payload)) [
        | inl e ↦ rw e (inr (payload, refl, inr (e, held, add-member w req.id sc.hub)))
        | inr e ↦ rw e (
            inr (
              payload,
              refl,
              inl (
                e,
                release-Waits env req.id w s
                    (requeue_for_orphan out cfg env req.id w "claim send failed" s).0 held
                    (requeue-reviews host out cfg env req.id w "claim send failed" s),
                clear-member w req.id (add_in_flight w req.id sc.hub),
              ),
            ))
      ]

  local-store :
      (req : ReviewRequest) (wait : Bool) (sc : Scheduler)
      → (dispatch_local host out cfg req wait sc).store ≡ sc.store
  unfolding dispatch_local
  local-store req true sc = refl
  local-store req false sc = elim (Bool-cases (host.local_available req.repo)) [
    | inl e ↦ rw e refl
    | inr e ↦ rw e refl
  ]

  -- What the dispatch of a pending review to the worker that is picked leaves.
  abbrev pub Dispatched : Env → ReviewRequest → String → String → Scheduler → Scheduler → Type 0
  Dispatched env req id w sc t =
      ((w ≡ "") × Waits id t.store)
      ⊎ ((w ≢ "") × Settled id w (start_remote out cfg env req w sc.store).1 t)

  picked-Dispatched :
      (env : Env) (req : ReviewRequest) (w : String) (wait : Bool) (sc : Scheduler)
      → Keyed (λ r. r.id) sc.store.reviews
      → get_review req.id sc.store ≡ some req
      → req.status ≡ "pending"
      → Dispatched env req req.id w sc (dispatch_picked host out cfg env req (w, wait) sc)
  unfolding dispatch_picked
  picked-Dispatched env req w wait sc k e pending = elim (Bool-cases (w == "")) [
    | inl f ↦ rw f (
        inl (
          (eq_iff w "").0 f,
          subst (Waits req.id) (sym (local-store req wait sc)) (req, e, pending),
        ))
    | inr f ↦ rw f (
        inr (
          eq_false→ne w "" f,
          sent-Settled env req w sc (start_remote out cfg env req w sc.store)
              (start_remote-Started out cfg env req w sc.store k e pending),
        ))
  ]

  settles :
      (window : Time) (env : Env) (req : ReviewRequest) (sc : Scheduler)
      → Keyed (λ r. r.id) sc.store.reviews
      → get_review req.id sc.store ≡ some req
      → req.status ≡ "pending"
      → Dispatched env req req.id
          (pick_review_worker host window env.now req sc).0
          sc
          (dispatch_review host out cfg window env req.id sc)
  unfolding dispatch_review
  settles window env req sc k e pending =
      let p = pick_review_worker host window env.now req sc in
      let waiting : (req.status == "pending") ≡ true = (eq_iff req.status "pending").1 pending in
      rw (e, waiting, dispatch_review) (picked-Dispatched env req p.0 p.1 sc k e pending)

  -- Where the ids of reviews are unique, the dispatch of a pending review leaves it pending, where
  -- no worker is picked or its run is not started; where the run is started and the job is not
  -- written to the worker's socket it is pending again and not in flight with the worker; and where
  -- the job is written it is reviewing, the worker's, and in flight with it.
  pub dispatch_review-settles :
      (window : Time) (env : Env) (id : String) (old : ReviewRequest) (sc : Scheduler)
      → Keyed (λ r. r.id) sc.store.reviews
      → get_review id sc.store ≡ some old
      → old.status ≡ "pending"
      → Dispatched env old id
          (pick_review_worker host window env.now old sc).0
          sc
          (dispatch_review host out cfg window env id sc)
  unfolding get_review
  dispatch_review-settles window env id old sc k e pending =
      let same : old.id ≡ id =
        (eq_iff old.id id).0 (find_row_holds (λ r. r.id == id) sc.store.reviews old e) in
      subst
        (λ i.
          Dispatched env old i (pick_review_worker host window env.now old sc).0 sc
            (dispatch_review host out cfg window env i sc))
        same
        (settles window env old sc k (subst (λ i. get_review i sc.store ≡ some old) (sym same) e)
          pending)
