-- ===== src/Examples/Remote.antt =====
-- A review dispatched to a worker and completed, on concrete rows.
use saturnus.Base.{
  stale_completion, ◌==◌, ◌||◌, ok, Error, Result, ◌≡◌, ◌⊎◌, refl, true, false, err, disabled,
  stale_result, some, [], ◌∷◌,
}
use saturnus.Store.Types.{ReviewRequest, ReviewRun, Store, empty_store}
use saturnus.Store.Reviews.{create_review, get_review}
use saturnus.Store.Runs.{current_run}
use saturnus.Review.Remote.{start_remote, complete_remote_run}
use saturnus.Review.Remote.Invariant.{Consistent}
use saturnus.Review.Remote.Keeps.{Posts}
use saturnus.Review.Remote.Steps.{
  start, next, creates, elsewhere, starts, completes, Reach-Consistent,
}
use saturnus.Review.Remote.Fence.{complete_unfenced, complete_fenced}
use saturnus.Review.Ingest.{Words, ingest_run_result}
use saturnus.Review.Ingest.Laws.{ingest_fenced}
use saturnus.Store.Runs.{latest_run}
use saturnus.Examples.Rows.{
  same_text, thread, monday, tuesday, waiting_review, small, config, outside,
}

posts : Posts outside
posts = record { reviews_kept = λ req s. refl; runs_kept = λ req s. refl }

abbrev dispatched : Store
dispatched = (start_remote outside config monday waiting_review "w1" small).0

abbrev requested : Store
requested = (create_review monday waiting_review (record empty_store { threads = thread ∷ [] })).0

abbrev begun : Store
begun = (start_remote outside config monday waiting_review "w1" requested).0

abbrev ended : Store
ended = (complete_remote_run outside config tuesday "rev1" "" "w1" true "c1" "ses" "out" "" begun).0

Reach-Consistent_example : Consistent ended
Reach-Consistent_example = Reach-Consistent outside config posts ended (
    next
      (next
        (next
          (next start
            (elsewhere empty_store (record empty_store { threads = thread ∷ [] }) refl refl))
          (creates monday waiting_review (record empty_store { threads = thread ∷ [] })))
        (starts monday waiting_review "w1" requested))
      (completes tuesday "rev1" "" "w1" true "c1" "ses" "out" "" begun))

complete_unfenced_example :
    complete_remote_run outside config tuesday "rev1" "" "w1" false "" "" "" "boom" dispatched
      ≡ complete_remote_run outside config tuesday "rev1" "" "w2" false "" "" "" "boom" dispatched
    ⊎ ((complete_remote_run outside config tuesday "rev1" "" "w1" false "" "" "" "boom" dispatched
          ≡ (dispatched, err (stale_completion "rev1" "w1")))
        × (complete_remote_run outside config tuesday "rev1" "" "w2" false "" "" "" "boom"
              dispatched
            ≡ (dispatched, err (stale_completion "rev1" "w2"))))
complete_unfenced_example =
    complete_unfenced outside config tuesday "rev1" "w1" "w2" false "" "" "" "boom" dispatched

complete_fenced_example :
    (complete_remote_run outside config tuesday "rev1" "run_mon" "w2" true "c1" "ses" "out" ""
        dispatched
      ≡ (dispatched, err disabled))
    ⊎ (complete_remote_run outside config tuesday "rev1" "run_mon" "w2" true "c1" "ses" "out" ""
          dispatched
        ≡ (dispatched, err stale_result))
    ⊎ ((c : ReviewRun) × (current_run "rev1" dispatched ≡ some c)
        × (c.id ≡ "run_mon")
        × (c.worker_id ≡ "w2"))
complete_fenced_example =
    complete_fenced outside config tuesday "rev1" "run_mon" "w2" true "c1" "ses" "out" "" dispatched
      (λ e. cc)

abbrev words : Words
words = record { trim_space = same_text; to_lower = same_text; to_upper = same_text }

-- the store after a result is answered for the run
abbrev answered : Store × Result (Unit {0})
answered = ingest_run_result words config monday "rev1" "run_mon" "lgtm" "fine" [] dispatched

ingest_fenced_example :
    ((e : Error) × (answered.1 ≡ err e) × (answered.0 ≡ dispatched))
    ⊎ ((run : ReviewRun) × (req : ReviewRequest) × (answered.1 ≡ ok tt)
        × (latest_run "rev1" dispatched ≡ some run)
        × (run.id ≡ "run_mon")
        × (run.verdict ≡ "")
        × ((run.status == "running" || run.status == "succeeded") ≡ true)
        × (get_review "rev1" dispatched ≡ some req)
        × ((req.status ≡ "reviewing") ⊎ ((req.status ≡ "succeeded") × (req.verdict ≡ ""))))
ingest_fenced_example =
    ingest_fenced words config monday "rev1" "run_mon" "lgtm" "fine" [] dispatched refl
