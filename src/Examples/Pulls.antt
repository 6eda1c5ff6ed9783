-- ===== src/Examples/Pulls.antt =====
-- Pull requests, their checks and the bypass policy on concrete rows.
use saturnus.Base.{
  ◌+◌, String, true, false, ◌==◌, ◌||◌, none, some, List, [], ◌∷◌, ◌≡◌, ◌≢◌, ◌⊎◌, refl, ok, err,
  Error, map, length, member, All, if◌then◌else◌,
}
use saturnus.Pulls.Types.{PullRequest, PrCheck, PullTables}
use saturnus.Pulls.Policy.{
  rule, valid_repo, count_check, normalize, validate, evaluate_loop, Host, Policy, names_for, mark,
  state_of, evaluate_checks, load_policy,
}
use saturnus.Pulls.Policy.Laws.{tally, clean, green-clean}
use saturnus.Pulls.Policy.Shown.{expected, shown_state, evaluate-tally}
use saturnus.Pulls.Policy.Loading.{Valid, Loaded, load_policy-Loaded}
use saturnus.Pulls.Table.{
  Text, get_pull_request, new_pull, save_pull_request_snapshot, replace_checks, pull_request_checks,
}
use saturnus.Pulls.Snapshot.{save_snapshot-reads}
use saturnus.Pulls.Service.{
  Service, Detail, judged, observed, Db, Fetched, is_stale, allowed, detail_of, snapshot,
  get_detail, refresh,
}
use saturnus.Pulls.Service.Laws.{green_is_current, failed_refresh_keeps}
use saturnus.Store.Types.{empty_store}
use saturnus.Tasks.Types.{empty_tables}
use saturnus.Examples.Rows.{monday, tuesday, same_text}

abbrev host : Host
host = record {
  to_lower = same_text;
  trim_space = same_text;
  repo_pattern = λ s. s == "org/app";
  split_slash = λ s. "org" ∷ "app" ∷ [];
}

abbrev file : List String × List (String × List String)
file = ("flaky" ∷ [], ("org/app", "lint" ∷ []) ∷ [])

abbrev policy : Policy
policy = record {
  global = "flaky" ∷ [];
  repos = λ j. if "org/app" == j then some ("lint" ∷ []) else none;
}

abbrev check_of : String → String → PrCheck
check_of name bucket = record {
  key = name;
  source = "actions";
  external_id = 1;
  app = "ci";
  workflow = "";
  workflow_id = 0;
  workflow_run_id = 0;
  run_attempt = 1;
  event = "";
  name = name;
  head_sha = "c1";
  status = "completed";
  conclusion = "";
  bucket = bucket;
  url = "";
  description = "";
  started_at = 0;
  completed_at = 0;
  updated_at = 0;
  bypassed = false;
  bypass_rule = "";
}

-- one that passes and one that fails but is bypassed
abbrev checks : List PrCheck
checks = check_of "build" "pass" ∷ check_of "flaky" "fail" ∷ []

-- as the policy lets them be shown
abbrev shown : List PrCheck
shown = map (expected host policy "org/app") checks

evaluate-tally_example :
    (evaluate_checks host policy "org/app" checks
      ≡ (shown, shown_state (length checks) (tally shown), tally shown))
    × ((tally shown).pass
          + (tally shown).fail
          + (tally shown).pending
          + (tally shown).cancel
          + (tally shown).skip
          + (tally shown).unknown
          + (tally shown).bypass
        ≡ length checks)
evaluate-tally_example = evaluate-tally host policy "org/app" checks

green-clean_example :
    All
      (λ c.
        (clean c ≡ true)
        × (c.bypassed
            ≡ (member c.name (names_for host policy "org/app") || member c.name policy.global)))
      (evaluate_checks host policy "org/app" checks).0
unfolding evaluate_checks evaluate_loop count_check mark rule state_of
green-clean_example = green-clean host policy "org/app" checks refl

load_policy-Loaded_example :
    (policy.global ≡ file.0) × Valid host [] file.0 × All (Loaded host policy.repos) file.1
unfolding load_policy validate normalize valid_repo
load_policy-Loaded_example = load_policy-Loaded host file.0 file.1 policy refl

abbrev text : Text
text = record { to_lower = same_text; nocase = λ a b. a == b; pull_url = λ repo number. repo }

abbrev pull : PullRequest
pull = new_pull text monday "org/app" 12

abbrev other : PullRequest
other = record (new_pull text monday "org/app" 13) { id = "pr_other" }

abbrev pulls : PullTables
pulls = record { pull_requests = pull ∷ other ∷ []; pr_checks = [] }

save_snapshot-reads_example :
    ((e : Error) × ((save_pull_request_snapshot text pull checks true pulls).1 ≡ err e)
      × ((save_pull_request_snapshot text pull checks true pulls).0 ≡ pulls))
    ⊎ (((save_pull_request_snapshot text pull checks true pulls).1 ≡ ok tt)
        × (get_pull_request pull.id (save_pull_request_snapshot text pull checks true pulls).0
            ≡ some pull)
        × (pull_request_checks pull.id (save_pull_request_snapshot text pull checks true pulls).0
            ≡ checks)
        × (get_pull_request "pr_other" (save_pull_request_snapshot text pull checks true pulls).0
            ≡ get_pull_request "pr_other" pulls)
        × (pull_request_checks "pr_other" (save_pull_request_snapshot text pull checks true pulls).0
            ≡ pull_request_checks "pr_other" pulls))
save_snapshot-reads_example =
    save_snapshot-reads text pull checks true pulls "pr_other" ((refl, tt), (tt, tt)) refl

abbrev served : Service
served = record { enabled = true; policy = policy; repos = λ r. r == "org/app" }

-- one that was read without an error for the head that it has
abbrev current : PullRequest
current = record pull { head_sha = "c1"; checked_head_sha = "c1" }

abbrev db : Db
db = record {
  pulls = record {
    pull_requests = current ∷ [];
    pr_checks = map (λ c. record { pr_id = current.id; check = c }) checks;
  };
  tasks = empty_tables;
  store = empty_store;
}

green_is_current_example :
    (current.sync_error ≡ "")
    × (current.checked_head_sha ≢ "")
    × (current.checked_head_sha ≡ current.head_sha)
    × (current.checked_merge_sha ≡ current.merge_sha)
    × ((detail_of host text served current db).checks_stale ≡ false)
    × All (λ c. clean c ≡ true) (detail_of host text served current db).checks
unfolding get_pull_request get_detail snapshot allowed valid_repo detail_of is_stale evaluate_checks
    evaluate_loop count_check mark rule state_of pull_request_checks
green_is_current_example =
    green_is_current host text served current.id current db (detail_of host text served current db)
      refl refl refl

-- GitHub cannot be reached.
abbrev lost : Fetched
lost = record { metadata = record pull { head_sha = "" }; checks = []; failed = some "timeout" }

-- what is shown after it
abbrev missed : Detail
missed =
    detail_of host text served
      (record current {
        ci_state = "UNKNOWN";
        sync_error = "timeout";
        sync_attempted_at = tuesday.now;
      })
      (refresh host text served tuesday lost current.id db).0

failed_refresh_keeps_example :
    ((refresh host text served tuesday lost current.id db).0.pulls.pr_checks ≡ db.pulls.pr_checks)
    × ((refresh host text served tuesday lost current.id db).1 ≡ ok missed
        → (missed.pr.ci_state ≡ "UNKNOWN")
          × (missed.checks_stale ≡ true)
          × (missed.pr.sync_error ≡ "timeout")
          × (missed.pr.checked_head_sha ≡ current.checked_head_sha)
          × (missed.pr.checked_merge_sha ≡ current.checked_merge_sha)
          × (missed.pr.synced_at ≡ current.synced_at))
unfolding get_pull_request
failed_refresh_keeps_example =
    failed_refresh_keeps host text served tuesday lost current.id db current "timeout" missed refl
      refl refl

-- The premise on what is shown is met.
missed_is_shown : (refresh host text served tuesday lost current.id db).1 ≡ ok missed
unfolding refresh get_pull_request allowed valid_repo judged observed save_pull_request_snapshot
    snapshot replace_checks
missed_is_shown = refl
