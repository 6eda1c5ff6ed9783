-- ===== src/Examples/Reviews.antt =====
-- Claims, runs, findings and resets on concrete rows.
use saturnus.Base.{
  Error, count_rows, ◌==◌, ◌&&◌, eq_false→ne, String, ◌≡◌, ◌≢◌, ◌⊎◌, refl, true, false, ok, err,
  not_pending, some, ◌∷◌, [], Keyed,
}
use saturnus.Store.Types.{ReviewRequest, ReviewRun, Store}
use saturnus.Store.Reviews.{get_review}
use saturnus.Store.Runs.{create_review_run, complete_review_run, fill_run}
use saturnus.Store.Runs.Laws.{Completed, complete_atomic}
use saturnus.Store.Findings.{save_findings}
use saturnus.Store.Findings.Laws.{Extends, save_findings_keeps}
use saturnus.Store.Assign.{assign_review, requeue_review, claim_review}
use saturnus.Store.Assign.Laws.{assign_exclusive, requeue_iff}
use saturnus.Store.Contexts.{reset_review_context}
use saturnus.Store.Contexts.Laws.{Refuses, Reset, fresh_context}
use saturnus.Examples.Rows.{monday, tuesday, waiting_review, new_run, strange_finding, small}

abbrev assigned : ReviewRequest
assigned = claim_review monday "w1" waiting_review

abbrev busy_store : Store
busy_store = (assign_review monday "rev1" "w1" small).0

assigned_now : assign_review monday "rev1" "w1" small ≡ (busy_store, ok assigned)
unfolding assign_review get_review
assigned_now = refl

assign_exclusive_example :
    assign_review tuesday "rev1" "w2" busy_store ≡ (busy_store, err not_pending)
assign_exclusive_example =
    assign_exclusive monday tuesday "rev1" "w1" "w2" small busy_store assigned assigned_now

got : get_review "rev1" busy_store ≡ some assigned
unfolding assign_review get_review
got = refl

reviews_apart : Keyed (λ x. x.id) busy_store.reviews
unfolding assign_review
reviews_apart = (tt, tt)

runs_apart : Keyed (λ x. x.id) busy_store.runs
unfolding assign_review
runs_apart = tt

requeue_iff_example :
    ((assigned.status ≡ "reviewing")
      × (assigned.worker_id ≡ "w1")
      × ((requeue_review tuesday "rev1" "w1" busy_store).1 ≡ ok tt)
      × (get_review "rev1" (requeue_review tuesday "rev1" "w1" busy_store).0
          ≡ some
              (record assigned { status = "pending"; worker_id = ""; updated_at = tuesday.now })))
    ⊎ (((assigned.status ≢ "reviewing") ⊎ (assigned.worker_id ≢ "w1"))
        × (requeue_review tuesday "rev1" "w1" busy_store ≡ (busy_store, err not_pending)))
requeue_iff_example = requeue_iff tuesday "rev1" "w1" busy_store assigned reviews_apart got

abbrev running : Store
running = (create_review_run monday new_run small).0

created_now : create_review_run monday new_run small ≡ (running, ok (fill_run monday new_run small))
unfolding create_review_run
created_now = refl

abbrev stranger : ReviewRequest
stranger = record assigned { worker_id = "w2" }

other : assigned.worker_id ≢ stranger.worker_id
other = eq_false→ne "w1" "w2" refl

abbrev done : ReviewRequest
done = record assigned { status = "succeeded"; completed_at = 150 }

abbrev held_run : ReviewRun
held_run = record new_run { id = "run1"; seq = 1 }

abbrev held_store : Store
held_store = record small { reviews = assigned ∷ []; runs = held_run ∷ [] }

complete_atomic_example :
    ((complete_review_run tuesday done "run1" held_store ≡ (held_store, false))
      × ((count_rows
              (λ r. r.id == "rev1" && (r.status == "reviewing" && r.worker_id == "w1"))
              held_store.reviews
            ≢ 1)
          ⊎ ((held_run.id ≢ "")
              × (count_rows
                    (λ r.
                      r.id == "run1"
                      && (r.review_id == "rev1" && (r.status == "running" && r.worker_id == "w1")))
                    held_store.runs
                  ≢ 1))))
    ⊎ (((complete_review_run tuesday done "run1" held_store).1 ≡ true)
        × Completed tuesday done "run1" held_store
            (complete_review_run tuesday done "run1" held_store).0)
complete_atomic_example = complete_atomic tuesday done "run1" held_store ((tt, tt)) ((tt, tt))

save_findings_keeps_example :
    ((save_findings monday "rev1" "" (strange_finding ∷ []) small).0 ≡ small)
    ⊎ (((save_findings monday "rev1" "" (strange_finding ∷ []) small).1 ≡ ok tt)
        × Extends "rev1" small (save_findings monday "rev1" "" (strange_finding ∷ []) small).0)
save_findings_keeps_example = save_findings_keeps monday "rev1" "" (strange_finding ∷ []) small

abbrev failed_store : Store
failed_store = record small { reviews = record waiting_review { status = "failed" } ∷ [] }

fresh_context_example :
    ((e : Error) × (reset_review_context tuesday "rev1" "ann" failed_store ≡ (failed_store, err e))
      × Refuses "rev1" failed_store)
    ⊎ ((req : ReviewRequest) × (context : String) × ((reset_review_context tuesday "rev1" "ann"
            failed_store).1
          ≡ ok (req, context))
        × Reset tuesday "rev1" failed_store
            (reset_review_context tuesday "rev1" "ann" failed_store).0
            req
            context)
fresh_context_example = fresh_context tuesday "rev1" "ann" failed_store
