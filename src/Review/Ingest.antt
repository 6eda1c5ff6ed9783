-- ===== src/Review/Ingest.antt =====
-- The structured result of a review that its tool submits: IngestRunResult of
-- internal/review/service.go. It holds the review's lock and is one step. The text functions of Go
-- are parameters.
pub mod Laws
use saturnus.Base.{
  ℕ, String, Bool, true, false, not, ◌&&◌, ◌||◌, Option, none, some, List, [], ◌∷◌, ◌==◌, map,
  member, if◌then◌else◌, Result, ok, err, failure, not_found, stale_result, disabled, check,
  or_fail, ◌>>=◌, ◌>>◌,
}
use saturnus.Store.Types.{Env, ReviewRequest, ReviewRun, ReviewFinding, Store}
use saturnus.Store.Reviews.{get_review}
use saturnus.Store.Runs.{latest_run, save_review_result}
use saturnus.Store.Findings.{list_findings}
use saturnus.Review.Types.{Config}

pub record Words : Type 0 where
  pub trim_space : String → String
  pub to_lower : String → String
  pub to_upper : String → String

pub record Finding : Type 0 where
  pub id : String
  pub status : String
  pub severity : String
  pub path : String
  pub line : ℕ
  pub title : String
  pub message : String
  pub suggestion : String

abbrev pub is_verdict : String → Bool
is_verdict v = v == "lgtm" || (v == "request_change" || v == "nit_comments")

abbrev pub is_severity : String → Bool
is_severity v = v == "P0" || (v == "P1" || v == "P2")

abbrev pub is_finding_status : String → Bool
is_finding_status v = v == "open" || (v == "addressed" || v == "commented")

abbrev pub store_finding : Finding → ReviewFinding
store_finding f = record {
  id = f.id;
  review_id = "";
  run_id = "";
  severity = f.severity;
  path = f.path;
  line = f.line;
  title = f.title;
  message = f.message;
  suggestion = f.suggestion;
  status = f.status;
  github_comment_id = "";
  created_at = 0;
}

-- what a submission comes to: the run that it is for, the verdict, the summary and the findings
pub record Submission : Type 0 where
  pub run_id : String
  pub verdict : String
  pub summary : String
  pub findings : List ReviewFinding

module _ (words : Words) where
  -- One finding as it is kept: an update of one with an id, or a new one.
  unfoldable pub checked_finding : List String → Finding → Result Finding
  checked_finding existing finding =
      let f = record finding {
        id = words.trim_space finding.id;
        status = words.to_lower (words.trim_space finding.status);
      } in
      let new = record f { severity = words.to_upper (words.trim_space f.severity) } in
      let status_ok =
        check (f.status == "" || is_finding_status f.status) (failure "invalid status") in
      let update =
        check (member f.id existing) (failure "unknown finding id") >> status_ok >> ok f in
      let create =
        check (is_severity new.severity) (failure "invalid severity")
        >> check (not (words.trim_space f.path == "")) (failure "empty path")
        >> check (not (words.trim_space f.message == "")) (failure "empty message")
        >> status_ok
        >> ok new in
      if f.id == "" then create else update

  unfoldable pub checked_findings : List String → List Finding → Result (List Finding)
  checked_findings existing [] = ok []
  checked_findings existing (f ∷ fs) =
      let rest = checked_findings existing fs in
      checked_finding existing f >>= λ g. rest >>= λ gs. ok (g ∷ gs)

  -- Whether a callback that names a run is for the latest one, which has no result yet.
  unfoldable pub fits_run : String → Option ReviewRun → Result (Unit {0})
  fits_run run_id none = if run_id == "" then ok tt else err stale_result
  fits_run run_id (some run) =
      let named =
        check (run.id == run_id && (run.status == "running" || run.status == "succeeded"))
          stale_result
        >> check (run.verdict == "") (failure "run already has a structured result") in
      if run_id == "" then ok tt else named

  unfoldable pub fits_review : ReviewRequest → Result (Unit {0})
  fits_review req =
      if req.status == "reviewing"
      then ok tt
      else if req.status == "succeeded"
      then check (req.verdict == "") (failure "review already has a structured result")
      else err (failure "review is not running")

  abbrev pub latest_id : String → Option ReviewRun → String
  latest_id run_id none = run_id
  latest_id run_id (some run) = run.id

  unfoldable pub submission :
      Config → String → String → String → String → List Finding → Store → Result Submission
  submission cfg review_id run_id verdict summary findings s = do
    check cfg.enabled disabled
    check (not (review_id == "")) (failure "empty review id")
    req ← or_fail (get_review review_id s) not_found
    fits_run run_id (latest_run review_id s)
    fits_review req
    let kept_verdict = words.to_lower (words.trim_space verdict)
    check (is_verdict kept_verdict) (failure "invalid verdict")
    let kept_summary = words.trim_space summary
    check (not (kept_summary == "")) (failure "summary is required")
    kept ← checked_findings (map (λ f. f.id) (list_findings review_id s)) findings
    ok (record {
      run_id = latest_id run_id (latest_run review_id s);
      verdict = kept_verdict;
      summary = kept_summary;
      findings = map store_finding kept;
    })

  unfoldable pub ingest_run_result :
      Config
      → Env
      → String
      → String
      → String
      → String
      → List Finding
      → Store
      → Store × Result (Unit {0})
  ingest_run_result cfg env review_id run_id verdict summary findings s =
      elim (submission cfg review_id run_id verdict summary findings s) [
        | err e ↦ (s, err e)
        | ok r ↦ save_review_result env review_id r.run_id r.verdict r.summary r.findings s
      ]
