-- ===== src/Examples/Events.antt =====
-- A worker's frames and jobs on concrete rows.
use saturnus.Base.{◌≡◌, ◌≤◌, none, some, [], ◌∷◌, refl, max, Keyed}
use saturnus.Store.Types.{ReviewRequest}
use saturnus.Store.Reviews.{get_review}
use saturnus.Store.Workers.{GitHubJson}
use saturnus.Review.Types.{JobPayload}
use saturnus.Server.Scheduler.{Scheduler}
use saturnus.Server.Scheduler.Events.{on_event, error_frame}
use saturnus.Server.Scheduler.Events.Laws.{event_isolated, error-keeps_reactions}
use saturnus.ReviewWorker.{Worker, new_worker, dispatch_job, cancel_job, job_load}
use saturnus.ReviewWorker.Jobs.{start, next, dispatches, cancels, jobs_bounded}
use saturnus.Examples.Rows.{monday, waiting_review, small, config, outside}
use saturnus.Examples.Scheduler.{host, ready}

abbrev json : GitHubJson
json = record { checked_at = λ raw. some none; with_github = λ info raw. raw }

-- a review that another worker runs
abbrev theirs : ReviewRequest
theirs = record waiting_review { status = "reviewing"; worker_id = "w2" }

abbrev sched : Scheduler
sched = record ready { store = record small { reviews = theirs ∷ [] } }

event_isolated_example :
    get_review "rev1"
      (on_event host outside config json monday "w1" "rev1" (error_frame "busy") sched).0.store
    ≡ some theirs
unfolding get_review
event_isolated_example =
    event_isolated host outside config json monday "rev1" "w1" "rev1" theirs (error_frame "busy")
      sched refl refl refl

error-keeps_reactions_example :
    (on_event host outside config json monday "w1" "rev1"
      (error_frame "busy")
      sched).0.store.reactions
    ≡ sched.store.reactions
error-keeps_reactions_example =
    error-keeps_reactions host outside config json monday "w1" "rev1" "busy" sched

abbrev job : JobPayload
job = record {
  kind = "review";
  review_id = "rev1";
  reaction_id = "";
  run_id = "run1";
  repo = "org/app";
  pr_number = 12;
  pr_url = "";
  title = "";
  base_branch = "main";
  head_commit = "c1";
  retry_reason = "";
  session_id = "";
  context_id = "";
  prior_findings = "";
  command_template = "";
  guide = "";
  result_api_url = "";
  result_token = "";
  instruction = "";
  tool = "opencode";
  timeout = 60;
}

abbrev busy_worker : Worker
busy_worker = (cancel_job "rev1" (dispatch_job job (new_worker 0 none)).0).0

jobs_bounded_example :
    (job_load busy_worker ≤ max 1 0)
    × Keyed (λ j. j.review_id) busy_worker.in_flight
    × (busy_worker.sem ≡ job_load busy_worker)
jobs_bounded_example = jobs_bounded 0 busy_worker (
    next (next (start none) (dispatches job (new_worker 0 none)))
      (cancels "rev1" (dispatch_job job (new_worker 0 none)).0))
