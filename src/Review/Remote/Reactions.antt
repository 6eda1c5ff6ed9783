-- ===== src/Review/Remote/Reactions.antt =====
-- internal/review/remote.go: reactions that a remote worker executes. Log lines and Lark messages
-- are left out, and so are the announcements to the scheduler's queue.
use saturnus.Base.{
  String, Bool, true, false, not, none, some, ◌==◌, if◌then◌else◌, or_text, Result, ok, err,
  not_found, stale_completion, disabled, empty_worker, check, ◌>>◌,
}
use saturnus.Store.Types.{Env, ReviewRequest, ReviewReaction, Store}
use saturnus.Store.Assign.{
  get_reaction, assign_reaction, requeue_reaction, update_reaction_outcome_by_worker,
}
use saturnus.Store.Contexts.{review_context_id}
use saturnus.Review.Remote.{Outside, Config, JobPayload, require_context_worker}

module _ (out : Outside) (cfg : Config) where
  -- the job of a reaction that was claimed
  unfoldable pub reaction_payload : ReviewRequest → String → ReviewReaction → JobPayload
  reaction_payload req context_id assigned = record {
    kind = "reaction";
    review_id = req.id;
    reaction_id = assigned.id;
    run_id = "";
    repo = req.repo;
    pr_number = req.pr_number;
    pr_url = req.pr_url;
    title = "";
    base_branch = "";
    head_commit = "";
    retry_reason = "";
    session_id = or_text assigned.session_id req.session_id;
    context_id = context_id;
    prior_findings = "";
    command_template = "";
    guide = "";
    result_api_url = "";
    result_token = "";
    instruction = assigned.instruction;
    tool = cfg.tool;
    timeout = cfg.timeout;
  }

  reaction_claimed :
      ReviewRequest → String → Store × Result ReviewReaction → Store × Result JobPayload
  reaction_claimed req context_id (s, ok assigned) =
      (s, ok (reaction_payload req context_id assigned))
  reaction_claimed req context_id (s, err e) = (s, err e)

  -- what is checked before the claim
  abbrev pub may_claim : String → String → Store → Result (Unit {0})
  may_claim context_id worker_id s =
      check (not (worker_id == "")) empty_worker
      >> require_context_worker out cfg context_id worker_id s

  unfoldable pub start_remote_reaction :
      Env → ReviewReaction → ReviewRequest → String → Store → Store × Result JobPayload
  unfolding reaction_claimed
  start_remote_reaction env reac req worker_id s =
      let context_id = review_context_id req.id s in
      elim (may_claim context_id worker_id s) [
        | err e ↦ (s, err e)
        | ok _ ↦ reaction_claimed req context_id (assign_reaction env reac.id worker_id s)
      ]

  applied : String → String → Store × Bool → Store × Result (Unit {0})
  applied reaction_id worker_id (s, true) = (s, ok tt)
  applied reaction_id worker_id (s, false) = (s, err (stale_completion reaction_id worker_id))

  unfoldable pub complete_remote_reaction :
      Env → String → String → Bool → String → String → String → Store → Store × Result (Unit {0})
  unfolding applied
  complete_remote_reaction env reaction_id worker_id succeeded session_id result error s =
      if not cfg.enabled then (s, err disabled) else elim (get_reaction reaction_id s) [
        | none ↦ (s, err not_found)
        | some reac ↦ applied reaction_id worker_id (
            update_reaction_outcome_by_worker env reaction_id worker_id
              (if succeeded then "succeeded" else "failed") (or_text session_id reac.session_id)
              result error env.now s)
      ]

  unfoldable pub requeue_orphan_reaction : Env → String → String → Store → Store × Result (Unit {0})
  requeue_orphan_reaction env reaction_id worker_id s = requeue_reaction env reaction_id worker_id s
