-- ===== src/Store/Runs.antt =====
-- The runs of a review, internal/store/store.go and review_result.go: a run is appended for each
-- execution, and its row and the review's are finished in one transaction.
use saturnus.Base.{
  ℕ, suc, String, ◌+++◌, Bool, true, false, not, ◌&&◌, ◌||◌, Option, none, some, List, [], ◌∷◌,
  ◌++◌, map, ◌==◌, if◌then◌else◌, or_text, or_number, eqb, Result, ok, err, Error, not_found,
  not_pending, constraint, commit, check, find_row, select_rows, update_rows, count_rows, max_row,
  last_row, any, or_fail, ◌>>=◌, ◌>>◌,
}
use saturnus.Store.Types.{Time, Env, ReviewRequest, ReviewRun, ReviewFinding, Store}
use saturnus.Store.Reviews.{get_review, set_review, set_review_result}
use saturnus.Store.Findings.{save_findings_tx}
pub mod Laws

-- the row that `CreateReviewRun` inserts
unfoldable pub fill_run : Env → ReviewRun → Store → ReviewRun
fill_run env run s = record run {
  id = or_text run.id ("run_" +++ env.new_id 0);
  started_at = started;
  updated_at = or_number run.updated_at started;
  seq = suc (max_row (λ r. r.seq) (λ r. r.review_id == run.review_id) s.runs);
}
  where
    started : Time
    started = or_number run.started_at env.now

-- INSERT INTO review_runs: the id is the primary key, and the review must be there
insert_run : ReviewRun → Store → Result Store
insert_run run s =
    if any (λ r. r.id == run.id) s.runs || not (any (λ r. r.id == run.review_id) s.reviews)
    then err constraint
    else ok (record s { runs = s.runs ++ run ∷ [] })

unfoldable pub create_review_run : Env → ReviewRun → Store → Store × Result ReviewRun
unfolding fill_run insert_run
create_review_run env run s =
    commit s do let filled = fill_run env run s; t ← insert_run filled s; ok (t, filled)

-- the columns that `UpdateReviewRun` writes
unfoldable pub replace_run : Env → ReviewRun → ReviewRun → ReviewRun
replace_run env run r = record r {
  status = run.status;
  head_commit = run.head_commit;
  retry_reason = run.retry_reason;
  session_id = run.session_id;
  worker_id = run.worker_id;
  result_text = run.result_text;
  error = run.error;
  verdict = run.verdict;
  summary = run.summary;
  completed_at = run.completed_at;
  updated_at = env.now;
}

unfoldable pub update_review_run : Env → ReviewRun → Store → Store
unfolding replace_run
update_review_run env run s = record s {
  runs = update_rows (λ r. r.id == run.id) (replace_run env run) s.runs;
}

abbrev pub is_running : String → ReviewRun → Bool
is_running review_id r = r.review_id == review_id && r.status == "running"

unfoldable pub current_run : String → Store → Option ReviewRun
current_run review_id s = last_row (λ r. r.seq) (is_running review_id) s.runs

unfoldable pub latest_run : String → Store → Option ReviewRun
latest_run review_id s = last_row (λ r. r.seq) (λ r. r.review_id == review_id) s.runs

verdict_of : Option ReviewRun → String
verdict_of none = ""
verdict_of (some r) = r.verdict

unfoldable pub latest_review_verdict : String → Store → String
unfolding verdict_of
latest_review_verdict review_id s =
    verdict_of
      (last_row (λ r. r.seq) (λ r. r.review_id == review_id && not (r.verdict == "")) s.runs)

worker_of : Option ReviewRun → String
worker_of none = ""
worker_of (some r) = r.worker_id

-- internal/store/workers.go
unfoldable pub last_run_worker_id : String → Store → String
unfolding worker_of
last_run_worker_id review_id s =
    worker_of
      (last_row (λ r. r.seq) (λ r. r.review_id == review_id && not (r.worker_id == "")) s.runs)

-- the run that a result may be recorded on: the newest of its review, and not failed
abbrev pub takes_result : String → String → Store → ReviewRun → Bool
takes_result review_id run_id s r =
    r.id == run_id
    && (r.review_id == review_id
        && ((r.status == "running" || r.status == "succeeded")
            && eqb r.seq (max_row (λ x. x.seq) (λ x. x.review_id == review_id) s.runs)))

unfoldable pub record_verdict : Env → String → String → String → String → Store → Result Store
record_verdict env review_id run_id verdict summary s =
    if run_id == ""
    then ok s
    else if eqb (count_rows (takes_result review_id run_id s) s.runs) 1
    then ok (record s {
      runs =
          update_rows (takes_result review_id run_id s)
            (λ r. record r { verdict = verdict; summary = summary; updated_at = env.now }) s.runs;
    })
    else err not_pending

-- what `SaveReviewResult` does inside its transaction
unfoldable pub save_result_tx :
    Env → String → String → String → String → List ReviewFinding → Store → Result (Store × Unit {0})
unfolding record_verdict
save_result_tx env review_id run_id verdict summary findings s = do
  t ← record_verdict env review_id run_id verdict summary s
  u ←
      save_findings_tx env review_id run_id findings
        (set_review_result env review_id verdict summary t)
  ok (u, tt)

unfoldable pub save_review_result :
    Env → String → String → String → String → List ReviewFinding → Store → Store × Result (Unit {0})
unfolding save_result_tx
save_review_result env review_id run_id verdict summary findings s =
    commit s (save_result_tx env review_id run_id verdict summary findings s)

-- the review that a worker's completion may finish, and its run
abbrev pub owns_review : String → String → ReviewRequest → Bool
owns_review id worker_id r = r.id == id && (r.status == "reviewing" && r.worker_id == worker_id)

abbrev pub owns_run : String → String → String → ReviewRun → Bool
owns_run run_id review_id worker_id r =
    r.id == run_id
    && (r.review_id == review_id && (r.status == "running" && r.worker_id == worker_id))

unfoldable pub finish_review : Env → ReviewRequest → ReviewRequest → ReviewRequest
finish_review env req r = record r {
  status = req.status;
  head_commit = req.head_commit;
  pr_head_commit = req.pr_head_commit;
  session_id = req.session_id;
  retry_reason = req.retry_reason;
  result_text = req.result_text;
  error = req.error;
  completed_at = req.completed_at;
  updated_at = env.now;
}

unfoldable pub finish_run : Env → ReviewRequest → ReviewRun → ReviewRun
finish_run env req r = record r {
  status = req.status;
  head_commit = req.head_commit;
  session_id = req.session_id;
  result_text = req.result_text;
  error = req.error;
  verdict = req.verdict;
  summary = req.summary;
  completed_at = req.completed_at;
  updated_at = env.now;
}

-- Where an update affects other than one row, the transaction is rolled back and the answer false.
unfoldable pub complete_review_run : Env → ReviewRequest → String → Store → Store × Bool
unfolding finish_review finish_run
complete_review_run env req run_id s =
    let mine = owns_review req.id req.worker_id in
    let run = owns_run run_id req.id req.worker_id in
    let t = record s { reviews = update_rows mine (finish_review env req) s.reviews } in
    if not (eqb (count_rows mine s.reviews) 1)
    then (s, false)
    else if run_id == ""
    then (t, true)
    else if not (eqb (count_rows run s.runs) 1)
    then (s, false)
    else (record t { runs = update_rows run (finish_run env req) s.runs }, true)

-- Each review that was reviewing at a restart fails, with its running runs.
unfoldable pub interrupt : Env → String → Store → Store
interrupt env id s = record s {
  reviews =
      update_rows (λ r. r.id == id)
        (λ r. record r {
          status = "failed";
          error = "interrupted by server restart";
          updated_at = env.now;
          completed_at = env.now;
        })
        s.reviews;
  runs =
      update_rows (is_running id)
        (λ r. record r {
          status = "failed";
          error = "interrupted by server restart";
          completed_at = env.now;
          updated_at = env.now;
        })
        s.runs;
}

unfoldable pub interrupt_all : Env → List String → Store → Store
interrupt_all env [] s = s
interrupt_all env (id ∷ ids) s = interrupt_all env ids (interrupt env id s)

unfoldable pub fail_interrupted_reviews : Env → Store → Store × List String
unfolding interrupt interrupt_all
fail_interrupted_reviews env s =
    let ids = map (λ r. r.id) (select_rows (λ r. r.status == "reviewing") s.reviews) in
    (interrupt_all env ids s, ids)
