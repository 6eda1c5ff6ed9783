-- ===== src/ReviewWorker/Jobs.antt =====
-- Every history of a worker's jobs.
use saturnus.Base.{
  max, eq_iff, and_left, and_right, ◌&&◌, ◌⊎◌, sym, ℕ, suc, ◌+◌, ◌≤◌, String, Bool, true, ◌==◌, ◌≡◌,
  refl, ap, ◌∙◌, inl, inr, Option, some, List, [], ◌∷◌, ◌++◌, arith, ltb, length, count_rows,
  find_row, update_rows, delete_rows, Keyed, Keyed-append, Keyed-update, count_by_key, Bool-cases,
  Option-cases, All,
}
use saturnus.Review.Types.{JobPayload}
use saturnus.ReviewWorker.{
  job_of, Info, RunningJob, Worker, new_worker, dispatch_job, finish_job, cancel_job, update_github,
  job_load, ignored, busy, repeated, job_of,
}

pub data Step : Worker → Worker → Type 0 where
  dispatches : (p : JobPayload) (w : Worker) → Step w (dispatch_job p w).0
  -- a job that is running ends
  finishes :
      (id : String) (j : RunningJob) (w : Worker)
      → find_row (λ j. j.review_id == id) w.in_flight ≡ some j
      → Step w (finish_job id w)
  cancels : (id : String) (w : Worker) → Step w (cancel_job id w).0
  probes : (info : Info) (w : Worker) → Step w (update_github info w)

pub data Reach (most : ℕ) : Worker → Type 0 where
  start : (github : Option Info) → Reach most (new_worker most github)
  next : {w v : Worker} → Reach most w → Step w v → Reach most v

record Sound (w : Worker) : Type 0 where
  slots : w.sem ≡ length w.in_flight
  bounded : w.sem ≤ w.max_concurrent
  keyed : Keyed (λ j. j.review_id) w.in_flight

length-append : (xs : List RunningJob) (x : RunningJob) → length (xs ++ x ∷ []) ≡ suc (length xs)
length-append [] x = refl
length-append (y ∷ ys) x = ap (λ n. suc n) (length-append ys x)

length-update :
    (p : RunningJob → Bool) (f : RunningJob → RunningJob) (xs : List RunningJob)
    → length (update_rows p f xs) ≡ length xs
length-update p f [] = refl
length-update p f (x ∷ xs) = ap (λ n. suc n) (length-update p f xs)

length-delete :
    (p : RunningJob → Bool) (xs : List RunningJob)
    → length (delete_rows p xs) + count_rows p xs ≡ length xs
length-delete p [] = omega arith
length-delete p (x ∷ xs) = ground (arith, length-delete p xs)

count-true :
    (p : RunningJob → Bool) (xs : List RunningJob)
    → count_rows (λ x. p x && true) xs ≡ count_rows p xs
count-true p [] = refl
count-true p (x ∷ xs) = ground (arith, count-true p xs)

All-delete :
    (P : RunningJob → Type 0) (p : RunningJob → Bool) (xs : List RunningJob)
    → All P xs
    → All P (delete_rows p xs)
All-delete P p [] all = tt
All-delete P p (x ∷ xs) all = elim (Bool-cases (p x)) [
  | inl e ↦ rw e (All-delete P p xs all.1)
  | inr e ↦ rw e (all.0, All-delete P p xs all.1)
]

Keyed-delete :
    (p : RunningJob → Bool) (xs : List RunningJob)
    → Keyed (λ j. j.review_id) xs
    → Keyed (λ j. j.review_id) (delete_rows p xs)
Keyed-delete p [] u = tt
Keyed-delete p (x ∷ xs) u = elim (Bool-cases (p x)) [
  | inl e ↦ rw e (Keyed-delete p xs u.1)
  | inr e ↦ rw e (All-delete _ p xs u.0, Keyed-delete p xs u.1)
]

dispatch-Sound : (p : JobPayload) (w : Worker) → Sound w → Sound (dispatch_job p w).0
unfolding dispatch_job
dispatch-Sound p w s =
    elim (Option-cases (find_row (λ j. j.review_id == p.review_id) w.in_flight)) [
      | inr (j, e) ↦ rw (dispatch_job, e) s
      | inl e ↦ elim (Bool-cases (ltb w.sem w.max_concurrent)) [
        | inr f ↦ rw (dispatch_job, e, f) s
        | inl f ↦
            rw (dispatch_job, e, f)
              (record {
                slots = omega (arith, s.slots, length-append w.in_flight (job_of p));
                bounded = ground (arith, f);
                keyed = Keyed-append (λ j. j.review_id) w.in_flight (job_of p) s.keyed e;
              })
      ]
    ]

finish-Sound :
    (id : String) (j : RunningJob) (w : Worker)
    → find_row (λ j. j.review_id == id) w.in_flight ≡ some j
    → Sound w
    → Sound (finish_job id w)
unfolding finish_job
finish-Sound id j w e s =
    let one = count_by_key (λ j. j.review_id) id (λ j. true) w.in_flight j s.keyed e in
    record {
      slots = omega (
        arith,
        s.slots,
        one,
        count-true (λ j. j.review_id == id) w.in_flight,
        length-delete (λ j. j.review_id == id) w.in_flight,
      );
      bounded = ground (arith, s.bounded);
      keyed = Keyed-delete (λ j. j.review_id == id) w.in_flight s.keyed;
    }

cancel-Sound : (id : String) (w : Worker) → Sound w → Sound (cancel_job id w).0
unfolding cancel_job
cancel-Sound id w s = elim (Option-cases (find_row (λ j. j.review_id == id) w.in_flight)) [
  | inl e ↦ rw (cancel_job, e) s
  | inr (j, e) ↦
      let stop : RunningJob → RunningJob = λ j. record j { cancelled = true } in
      rw (cancel_job, e)
        (record {
          slots = s.slots ∙ sym (length-update (λ j. j.review_id == id) stop w.in_flight);
          bounded = s.bounded;
          keyed =
              Keyed-update (λ j. j.review_id) (λ j. j.review_id == id) stop w.in_flight (λ j. refl)
                s.keyed;
        })
]

Step-Sound : {w v : Worker} → Step w v → Sound w → Sound v
unfolding update_github
Step-Sound (dispatches p w) s = dispatch-Sound p w s
Step-Sound (finishes id j w e) s = finish-Sound id j w e s
Step-Sound (cancels id w) s = cancel-Sound id w s
Step-Sound (probes info w) s = record { slots = s.slots; bounded = s.bounded; keyed = s.keyed }

Step-most : {w v : Worker} → Step w v → v.max_concurrent ≡ w.max_concurrent
unfolding dispatch_job finish_job cancel_job update_github
Step-most (dispatches p w) =
    elim (Option-cases (find_row (λ j. j.review_id == p.review_id) w.in_flight)) [
      | inr (j, e) ↦ rw (dispatch_job, e) refl
      | inl e ↦ elim (Bool-cases (ltb w.sem w.max_concurrent)) [
        | inr f ↦ rw (dispatch_job, e, f) refl
        | inl f ↦ rw (dispatch_job, e, f) refl
      ]
    ]
Step-most (finishes id j w e) = refl
Step-most (cancels id w) = elim (Option-cases (find_row (λ j. j.review_id == id) w.in_flight)) [
  | inl e ↦ rw (cancel_job, e) refl
  | inr (j, e) ↦ rw (cancel_job, e) refl
]
Step-most (probes info w) = refl

Reach-Sound : {most : ℕ} {w : Worker} → Reach most w → Sound w
unfolding new_worker
Reach-Sound (start github) = record { slots = refl; bounded = omega arith; keyed = tt }
Reach-Sound (next r st) = Step-Sound st (Reach-Sound r)

Reach-most : {most : ℕ} {w : Worker} → Reach most w → w.max_concurrent ≡ max 1 most
unfolding new_worker
Reach-most {most} (start github) = ground arith
Reach-most (next r st) = Step-most st ∙ Reach-most r

-- In every history of claims, cancellations, probes and ends of jobs, a worker runs at most as many
-- jobs as it is configured for, one where that is 0, never two for one review, and exactly the
-- slots of its jobs are taken.
pub jobs_bounded :
    (most : ℕ) (w : Worker)
    → Reach most w
    → (job_load w ≤ max 1 most) × Keyed (λ j. j.review_id) w.in_flight × (w.sem ≡ job_load w)
unfolding job_load
jobs_bounded most w r =
    let s = Reach-Sound r in (omega (arith, s.slots, s.bounded, Reach-most r), s.keyed, s.slots)

-- A claim for a review that has a job starts nothing and leaves the jobs as they are; it is ignored
-- where it repeats the job's own claim, and refused as busy otherwise.
pub repeated_claim :
    (p : JobPayload) (w : Worker) (j : RunningJob)
    → find_row (λ j. j.review_id == p.review_id) w.in_flight ≡ some j
    → ((dispatch_job p w ≡ (w, ignored)) × (j.run_id ≡ p.run_id) × (j.reaction_id ≡ p.reaction_id))
      ⊎ (dispatch_job p w ≡ (w, busy "another job for this review is still running"))
unfolding dispatch_job repeated
repeated_claim p w j e =
    elim (Bool-cases (j.run_id == p.run_id && j.reaction_id == p.reaction_id)) [
      | inl f ↦ inl (
        rw (dispatch_job, e, f) refl,
        (eq_iff j.run_id p.run_id).0 (and_left _ _ f),
        (eq_iff j.reaction_id p.reaction_id).0 (and_right _ _ f),
      )
      | inr f ↦ inr (rw (dispatch_job, e, f) refl)
    ]
