-- ===== src/Pulls/Service.antt =====
-- The service of pull requests, internal/prs/service.go: what it shows of a request, a refresh from
-- GitHub and the pausing of its monitoring. What GitHub answers is a parameter, a reference is the
-- id of a row, and the lock on a request makes each operation on it one step.
pub mod Laws
use saturnus.Base.{
  String, Bool, true, false, not, ◌&&◌, ◌||◌, Option, none, some, List, [], ◌∷◌, ◌==◌, or_text,
  or_number, if◌then◌else◌, Result, ok, err, failure, not_found, check, or_fail, ◌>>=◌, ◌>>◌,
}
use saturnus.Store.Types.{Env, Store}
use saturnus.Tasks.Types.{Tables}
use saturnus.Pulls.Types.{PullRequest, PrCheck, PullTables}
use saturnus.Pulls.Policy.{Host, Policy, evaluate_checks, valid_repo}
use saturnus.Pulls.Table.{
  Text, get_pull_request, list_pull_requests, save_pull_request_snapshot, pull_request_checks,
  pull_request_task_ids, pull_request_review_id,
}

-- `repos` are the whitelisted ones, in lower case.
pub record Service : Type 0 where
  pub enabled : Bool
  pub policy : Policy
  pub repos : String → Bool

pub record Detail : Type 0 where
  pub pr : PullRequest
  pub checks : List PrCheck
  pub review_id : String
  pub task_ids : List String
  pub checks_stale : Bool

-- the tables that the service reads
pub record Db : Type 0 where
  pub pulls : PullTables
  pub tasks : Tables
  pub store : Store

-- what GitHub answers: metadata, which are empty where they could not be read, the checks, and the
-- text of an error
pub record Fetched : Type 0 where
  pub metadata : PullRequest
  pub checks : List PrCheck
  pub failed : Option String

unfoldable pub is_stale : PullRequest → Bool
is_stale pr =
    not (pr.sync_error == "")
    || (pr.checked_head_sha == ""
        || (not (pr.checked_head_sha == pr.head_sha) || not (pr.checked_merge_sha == pr.merge_sha)))

module _ (host : Host) (text : Text) (service : Service) where
  unfoldable pub allowed : String → Result (Unit {0})
  allowed repo =
      check service.enabled (failure "PR monitor is disabled")
      >> check (valid_repo host repo && service.repos (host.to_lower repo))
          (failure "repo is not in the PR whitelist")

  -- The stored checks are evaluated again; the state of checks that are out of date is unknown.
  unfoldable pub detail_of : PullRequest → Db → Detail
  detail_of pr db =
      let (marked, state, counts) =
        evaluate_checks host service.policy pr.repo (pull_request_checks pr.id db.pulls) in
      record {
        pr = record pr { ci_state = if is_stale pr then "UNKNOWN" else state; counts = counts };
        checks = marked;
        review_id = pull_request_review_id text pr.repo pr.number db.store;
        task_ids = pull_request_task_ids text pr.repo pr.number db.tasks;
        checks_stale = is_stale pr;
      }

  unfoldable pub snapshot : PullRequest → Db → Result Detail
  snapshot pr db = allowed pr.repo >> ok (detail_of pr db)

  unfoldable pub get_detail : String → Db → Result Detail
  get_detail id db = or_fail (get_pull_request id db.pulls) not_found >>= λ pr. snapshot pr db

  list_loop : Db → List PullRequest → Result (List PullRequest)
  list_loop db [] = ok []
  list_loop db (pr ∷ prs) =
      let rest = list_loop db prs in
      let shown = snapshot pr db >>= λ d. rest >>= λ ds. ok (d.pr ∷ ds) in
      if service.repos pr.repo then shown else rest

  unfoldable pub list_details : Bool → Db → Result (List PullRequest)
  unfolding list_loop
  list_details all db =
      check service.enabled (failure "PR monitor is disabled")
      >> list_loop db (list_pull_requests all db.pulls)

  -- Metadata that were read replace the row's, but for its identity, the last good observation of
  -- its checks and the choice to monitor it.
  unfoldable pub observed : Env → PullRequest → Fetched → PullRequest
  observed env pr f =
      if f.metadata.head_sha == ""
      then record pr { sync_attempted_at = env.now }
      else record f.metadata {
        id = pr.id;
        synced_at = pr.synced_at;
        checked_head_sha = pr.checked_head_sha;
        checked_merge_sha = pr.checked_merge_sha;
        monitoring = pr.monitoring;
        sync_attempted_at = env.now;
        created_at = or_number f.metadata.created_at pr.created_at;
        updated_at = or_number f.metadata.updated_at pr.updated_at;
        url = or_text f.metadata.url pr.url;
      }

  -- the row and the checks to save; evaluating the checks also marks them
  unfoldable pub judged : Env → PullRequest → Fetched → PullRequest × List PrCheck
  judged env pr f = elim f.failed [
    | some e ↦ (record pr { ci_state = "UNKNOWN"; sync_error = e }, f.checks)
    | none ↦
        let (marked, state, counts) = evaluate_checks host service.policy pr.repo f.checks in
        (
          record pr {
            ci_state = state;
            counts = counts;
            checked_head_sha = pr.head_sha;
            checked_merge_sha = pr.merge_sha;
            synced_at = env.now;
            sync_error = "";
          },
          marked,
        )
  ]

  abbrev pub succeeded : Option String → Bool
  succeeded none = true
  succeeded (some e) = false

  -- the row that a reference names, of a repo that is served
  abbrev pub resolve : String → Db → Result PullRequest
  resolve id db =
      or_fail (get_pull_request id db.pulls) not_found >>= λ pr. allowed pr.repo >> ok pr

  abbrev pub saved : PullRequest → List PrCheck → Bool → Db → Db × Result Detail
  saved pr checks replace db =
      let (pulls, done) = save_pull_request_snapshot text pr checks replace db.pulls in
      let t = record db { pulls = pulls } in (t, done >> snapshot pr t)

  -- The error of a fetch that failed is answered beside the detail.
  unfoldable pub refresh : Env → Fetched → String → Db → Db × Result Detail
  refresh env f id db = elim (resolve id db) [
    | err e ↦ (db, err e)
    | ok pr ↦
        let (new, checks) = judged env (observed env pr f) f in
        saved new checks (succeeded f.failed) db
  ]

  unfoldable pub set_monitoring : String → Bool → Db → Db × Result Detail
  set_monitoring id enabled db = elim (resolve id db) [
    | err e ↦ (db, err e)
    | ok pr ↦ saved (record pr { monitoring = enabled }) [] false db
  ]
