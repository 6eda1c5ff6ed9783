-- ===== src/ReviewWorker.antt =====
-- The jobs of a remote worker, internal/reviewworker/worker.go: accepting, refusing, cancelling and
-- ending them. Every access holds the worker's mutex, so each is one step. The tool that runs a
-- job, the lock on its checkout and log lines are left out.
pub mod Jobs
use saturnus.Base.{
  ℕ, suc, ◌-◌, String, Bool, true, ◌&&◌, Option, none, some, List, [], ◌∷◌, ◌++◌, ◌==◌, map, eqb,
  ltb, length, if◌then◌else◌, find_row, update_rows, delete_rows,
}
use saturnus.Store.Types.{Time}
use saturnus.Review.Types.{JobPayload}

-- internal/ghinfo/info.go
pub record Info : Type 0 where
  pub version : String
  pub host : String
  pub checked_at : Time
  pub auth_status : String
  pub expiry_status : String
  pub token_expires_at : Option Time
  pub refreshable : Bool
  pub refresh_token_expires_at : Option Time
  pub expiry_source : String

pub record RunningJob : Type 0 where
  pub review_id : String
  pub run_id : String
  pub reaction_id : String
  pub cancelled : Bool

-- `sem` counts the slots taken of the semaphore's `max_concurrent`.
pub record Worker : Type 0 where
  pub max_concurrent : ℕ
  pub sem : ℕ
  pub in_flight : List RunningJob
  pub github : Option Info

-- what a claim leads to: the job starts, or nothing, or an error frame of code `busy`
pub data ClaimReply : Type 0 where
  starts : ClaimReply
  ignored : ClaimReply
  busy : String → ClaimReply

-- a worker with the default of one job at a time
unfoldable pub new_worker : ℕ → Option Info → Worker
new_worker max_concurrent github = record {
  max_concurrent = if eqb max_concurrent 0 then 1 else max_concurrent;
  sem = 0;
  in_flight = [];
  github = github;
}

abbrev pub job_of : JobPayload → RunningJob
job_of p = record {
  review_id = p.review_id;
  run_id = p.run_id;
  reaction_id = p.reaction_id;
  cancelled = Bool.false;
}

-- a claim for a review that has a job: the same one again, or another
unfoldable pub repeated : JobPayload → RunningJob → ClaimReply
repeated p running =
    if running.run_id == p.run_id && running.reaction_id == p.reaction_id
    then ignored
    else busy "another job for this review is still running"

unfoldable pub dispatch_job : JobPayload → Worker → Worker × ClaimReply
dispatch_job p w = elim (find_row (λ j. j.review_id == p.review_id) w.in_flight) [
  | some running ↦ (w, repeated p running)
  | none ↦
      if ltb w.sem w.max_concurrent
      then (record w { sem = suc w.sem; in_flight = w.in_flight ++ job_of p ∷ [] }, starts)
      else (w, busy "worker at capacity")
]

-- the deferred end of a job's goroutine
unfoldable pub finish_job : String → Worker → Worker
finish_job review_id w = record w {
  sem = w.sem - 1;
  in_flight = delete_rows (λ j. j.review_id == review_id) w.in_flight;
}

-- The context of the job is cancelled; the job itself ends later. Whether it is acknowledged.
unfoldable pub cancel_job : String → Worker → Worker × Bool
cancel_job review_id w = elim (find_row (λ j. j.review_id == review_id) w.in_flight) [
  | none ↦ (w, Bool.false)
  | some running ↦ (
    record w {
      in_flight =
          update_rows (λ j. j.review_id == review_id) (λ j. record j { cancelled = true })
            w.in_flight;
    },
    true,
  )
]

unfoldable pub in_flight_list : Worker → List String
in_flight_list w = map (λ j. j.review_id) w.in_flight

-- the job_load that a heartbeat reports
unfoldable pub job_load : Worker → ℕ
job_load w = length w.in_flight

-- what a failed probe keeps of the known expiry
unfoldable pub keep_expiry : Info → Option Info → Info
keep_expiry info none = info
keep_expiry info (some old) =
    if info.expiry_status == "check_failed"
    then record info {
      token_expires_at = old.token_expires_at;
      refreshable = old.refreshable;
      refresh_token_expires_at = old.refresh_token_expires_at;
      expiry_source = old.expiry_source;
    }
    else info

unfoldable pub update_github : Info → Worker → Worker
update_github info w = record w { github = some (keep_expiry info w.github) }
