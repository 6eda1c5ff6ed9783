-- ===== src/Review/Remote.antt =====
-- internal/review/remote.go, result.go and context.go: runs that a remote worker executes. Every
-- operation holds the review's lock (`syncLocks`) from its first read of the store to its last
-- write, so each is one step. Log lines and Lark messages are left out.
pub mod Steps
pub mod Keeps
pub mod Fence
pub mod Running
pub mod Start
pub mod Finish
pub mod Invariant
pub mod Claims
pub mod Reactions
pub use saturnus.Store.Workers.{get_worker}
pub use saturnus.Review.Types.{Config, JobPayload, Outside}
use saturnus.Base.{
  ℕ, String, ◌+++◌, Bool, true, false, not, ◌&&◌, ◌||◌, Option, none, some, ◌==◌, if◌then◌else◌,
  or_text, eqb, Result, ok, err, Error, not_found, not_pending, stale_result, stale_completion,
  disabled, empty_worker, failure, find_row, or_fail, check, contains, ◌>>=◌, ◌>>◌,
}
use saturnus.Store.Types.{Time, Env, Agent, ReviewRequest, ReviewRun, Store}
use saturnus.Store.Reviews.{get_review, set_comments_posted, update_review_progress}
use saturnus.Store.Runs.{create_review_run, update_review_run, current_run, complete_review_run}
use saturnus.Store.Assign.{assign_review, requeue_review}
use saturnus.Store.Contexts.{review_context_id}

unfoldable pub run_id_of : Option ReviewRun → String
run_id_of none = ""
run_id_of (some r) = r.id

module _ (out : Outside) (cfg : Config) where
  abbrev supports : Option Bool → Result (Unit {0})
  supports none = err (failure "capabilities")
  supports (some b) = check b (failure "worker does not support context reset")

  unfoldable pub require_context_worker : String → String → Store → Result (Unit {0})
  require_context_worker context_id worker_id s =
      let rest = or_fail (get_worker worker_id s) not_found >>= λ a.
      supports (out.context_reset a.capabilities) in
      if context_id == "" then ok tt else rest

  unfoldable pub result_callback_url : String → String → String
  result_callback_url review_id run_id =
      if cfg.result_api_url == "" then "" else out.callback_url cfg.result_api_url review_id run_id

  guide_for : Option String → Result String
  guide_for none = ok ""
  guide_for (some path) =
      let text = or_fail (out.read_guide path) (failure "read guide") in
      if path == "" then ok "" else text

  unfoldable pub job_payload : ReviewRequest → Store → Result JobPayload
  unfolding run_id_of guide_for
  job_payload req s = do
    guide ← guide_for (cfg.guides req.repo)
    prior ← out.prior_findings req s
    ok (record {
      kind = "review";
      review_id = req.id;
      reaction_id = "";
      run_id = "";
      repo = req.repo;
      pr_number = req.pr_number;
      pr_url = req.pr_url;
      title = req.title;
      base_branch = req.base_branch;
      head_commit = req.head_commit;
      retry_reason = req.retry_reason;
      session_id = req.session_id;
      context_id = review_context_id req.id s;
      prior_findings = prior;
      command_template = cfg.command_template;
      guide = guide;
      result_api_url = result_callback_url req.id (run_id_of (current_run req.id s));
      result_token = cfg.result_token;
      instruction = "";
      tool = or_text cfg.tool "opencode";
      timeout = cfg.timeout;
    })

  -- the run that a remote start records
  abbrev pub remote_run : ReviewRequest → String → ReviewRun
  remote_run req worker_id = record {
    id = "";
    review_id = req.id;
    seq = 0;
    status = "running";
    head_commit = "";
    retry_reason = req.retry_reason;
    session_id = "";
    worker_id = worker_id;
    result_text = "";
    error = "";
    tool = cfg.tool;
    verdict = "";
    summary = "";
    started_at = 0;
    completed_at = 0;
    updated_at = 0;
  }

  -- after the claim: a run that cannot be created hands the review back
  started :
      Env → String → String → JobPayload → Store × Result ReviewRun → Store × Result JobPayload
  started env id worker_id payload (s, ok run) =
      (s, ok (record payload { run_id = run.id; result_api_url = result_callback_url id run.id }))
  started env id worker_id payload (s, err e) = ((requeue_review env id worker_id s).0, err e)

  claimed :
      Env → String → String → JobPayload → Store × Result ReviewRequest → Store × Result JobPayload
  unfolding started
  claimed env id worker_id payload (s, ok assigned) =
      started env id worker_id payload (create_review_run env (remote_run assigned worker_id) s)
  claimed env id worker_id payload (s, err e) = (s, err e)

  -- what is checked before the claim
  prepare : String → String → Store → Result JobPayload
  prepare id worker_id s = do
    check (not (worker_id == "")) empty_worker
    req ← or_fail (get_review id s) not_found
    require_context_worker (review_context_id req.id s) worker_id s
    job_payload req s

  unfoldable pub start_remote : Env → ReviewRequest → String → Store → Store × Result JobPayload
  unfolding prepare claimed
  start_remote env req worker_id s = elim (prepare req.id worker_id s) [
    | err e ↦ (s, err e)
    | ok payload ↦ claimed env req.id worker_id payload (assign_review env req.id worker_id s)
  ]

  -- internal/review/result.go: a run that was asked for a structured result must have given one
  missing_result : String → String
  missing_result output =
      let reason : String =
        "missing structured review result: tool exited successfully but this run did not submit a verdict, summary and findings" in
      if contains output "auto-rejecting" || contains output "The user rejected permission"
      then reason
        +++ "; tool permission was rejected; check the execution host's OpenCode permissions"
      else if contains output "read-only file system"
          || contains output "Permission denied"
          || contains output "permission denied"
      then reason
        +++ "; filesystem access failed; check checkout and cache permissions on the execution host"
      else reason

  submitted : Option ReviewRun → Bool
  submitted none = false
  submitted (some run) = not (run.verdict == "") && not (run.summary == "")

  unfoldable pub completion_result : String → String → String → String → Store → String × String
  unfolding missing_result submitted
  completion_result review_id status output error s =
      if not (status == "succeeded") || cfg.result_api_url == ""
      then (status, error)
      else if submitted (current_run review_id s)
      then (status, error)
      else ("failed", missing_result output)

  -- the row that `CompleteRemoteRun` hands to the store; its worker is the one that the store has
  outcome : Env → ReviewRequest → Bool → String → String → String → String → Store → ReviewRequest
  outcome env req succeeded head session result error s =
      let (status, text) =
        completion_result req.id (if succeeded then "succeeded" else "failed") result error s in
      record req {
        status = status;
        result_text = result;
        error = text;
        head_commit = or_text head req.head_commit;
        pr_head_commit = or_text head req.head_commit;
        session_id = or_text session req.session_id;
        retry_reason = "";
        completed_at = env.now;
      }

  -- PR comments, where the run succeeded with a verdict and none were posted yet
  publish : Env → ReviewRequest → Store → Store
  publish env req s =
      let (t, posted) = out.post_comments req s in
      if req.status == "succeeded"
        && (cfg.post_inline_comments && (not (req.verdict == "") && eqb req.comments_posted_at 0))
      then (if posted then set_comments_posted env req.id env.now t else t)
      else s

  fenced : String → String → Option ReviewRun → Bool
  fenced run_id worker_id none = run_id == ""
  fenced run_id worker_id (some run) =
      run_id == "" || (run.id == run_id && run.worker_id == worker_id)

  finished : Env → ReviewRequest → String → String → Store × Bool → Store × Result (Unit {0})
  unfolding publish
  finished env req review_id worker_id (s, true) = (publish env req s, ok tt)
  finished env req review_id worker_id (s, false) = (s, err (stale_completion review_id worker_id))

  unfoldable pub complete_remote_run :
      Env
      → String
      → String
      → String
      → Bool
      → String
      → String
      → String
      → String
      → Store
      → Store × Result (Unit {0})
  unfolding fenced outcome finished run_id_of
  complete_remote_run env review_id run_id worker_id succeeded head session result error s =
      if not cfg.enabled
      then (s, err disabled)
      else if not (fenced run_id worker_id (current_run review_id s))
      then (s, err stale_result)
      else elim (get_review review_id s) [
        | none ↦ (s, err not_found)
        | some old ↦
            let req = outcome env old succeeded head session result error s in
            finished env req review_id worker_id
              (complete_review_run env req (run_id_of (current_run review_id s)) s)
      ]

  -- the in-flight run of a review that is handed back fails
  fail_run : Env → String → Option ReviewRun → Store → Store
  fail_run env reason none s = s
  fail_run env reason (some run) s =
      update_review_run env
        (record run { status = "failed"; error = reason; completed_at = env.now }) s

  requeued : Env → String → String → Store × Result (Unit {0}) → Store × Result (Unit {0})
  unfolding fail_run
  requeued env id reason (s, ok _) = (fail_run env reason (current_run id s) s, ok tt)
  requeued env id reason (s, err e) = (s, err e)

  unfoldable pub requeue_for_orphan :
      Env → String → String → String → Store → Store × Result (Unit {0})
  unfolding requeued
  requeue_for_orphan env id worker_id reason s =
      requeued env id reason (requeue_review env id worker_id s)

  unfoldable pub update_remote_progress : Env → String → String → Store → Store
  update_remote_progress = update_review_progress
