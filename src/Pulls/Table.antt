-- ===== src/Pulls/Table.antt =====
-- The tables of pull requests and of their checks, internal/store/pull_requests.go. A row's JSON
-- is the request itself, whose columns repeat it. `COLLATE NOCASE`, `strings.ToLower` and the text
-- of the URL are parameters; the context, which only cancels, is left out.
use saturnus.Base.{
  ℕ, String, ◌+++◌, Bool, true, false, not, ◌&&◌, ◌||◌, Option, none, some, List, [], ◌∷◌, ◌++◌,
  ◌==◌, map, eqb, ltb, if◌then◌else◌, any, Result, ok, err, failure, constraint, not_found,
  distinct_rows, commit, check, or_fail, insert_row, find_row, select_rows, count_rows, update_rows,
  delete_rows, last_row, ◌>>=◌, ◌>>◌,
}
use saturnus.Store.Types.{Env, Store}
use saturnus.Tasks.Types.{Tables}
use saturnus.Tasks.Rows.{unarchived}
use saturnus.Pulls.Types.{PullRequest, PrCheck, CheckRow, PullRequestRef, PullTables, no_counts}

pub record Text : Type 0 where
  pub to_lower : String → String
  -- the comparison of the column `repo`
  pub nocase : String → String → Bool
  -- fmt.Sprintf("https://github.com/%s/pull/%d", repo, number)
  pub pull_url : String → ℕ → String

unfoldable pub get_pull_request : String → PullTables → Option PullRequest
get_pull_request id s = find_row (λ r. r.id == id) s.pull_requests

module _ (text : Text) where
  abbrev pub numbered : String → ℕ → PullRequest → Bool
  numbered repo number r = text.nocase r.repo repo && eqb r.number number

  unfoldable pub get_pull_request_by_number : String → ℕ → PullTables → Option PullRequest
  get_pull_request_by_number repo number s = find_row (numbered repo number) s.pull_requests

  abbrev pub new_pull : Env → String → ℕ → PullRequest
  new_pull env repo number = record {
    id = "pr_" +++ env.new_id 0;
    repo = text.to_lower repo;
    number = number;
    url = text.pull_url repo number;
    title = "";
    author = "";
    state = "UNKNOWN";
    draft = false;
    base_branch = "";
    head_branch = "";
    head_repo = "";
    head_sha = "";
    merge_sha = "";
    checked_head_sha = "";
    checked_merge_sha = "";
    ci_state = "UNKNOWN";
    monitoring = true;
    counts = no_counts;
    sync_attempted_at = 0;
    synced_at = 0;
    sync_error = "";
    created_at = env.now;
    updated_at = env.now;
  }

  -- INSERT … ON CONFLICT(repo, number) DO NOTHING
  unfoldable pub insert_pull : PullRequest → List PullRequest → Result (List PullRequest)
  insert_pull pr rows =
      if any (numbered pr.repo pr.number) rows
      then ok rows
      else insert_row (λ r. r.id == pr.id) pr rows

  -- A number that is not positive is refused; a Go `int` below 0 is not modelled.
  unfoldable pub track_pull_request :
      Env → String → ℕ → PullTables → PullTables × Result PullRequest
  track_pull_request env repo number s = commit s do
    check (ltb 0 number) (failure "invalid PR number")
    rows ← insert_pull (new_pull env repo number) s.pull_requests
    let t = record s { pull_requests = rows }
    pr ← or_fail (get_pull_request_by_number repo number t) not_found
    ok (t, pr)

-- The order, by the stored text of `updated_at` and then by id, is left out.
unfoldable pub list_pull_requests : Bool → PullTables → List PullRequest
list_pull_requests all s =
    select_rows (λ r. all || (r.state == "OPEN" || r.state == "UNKNOWN")) s.pull_requests

-- INSERT INTO pr_checks, one after the other
unfoldable pub insert_checks : String → List PrCheck → List CheckRow → Result (List CheckRow)
insert_checks id [] rows = ok rows
insert_checks id (c ∷ cs) rows =
    let row : CheckRow = record { pr_id = id; check = c } in
    let later = insert_checks id cs (rows ++ row ∷ []) in
    if any (λ r. r.pr_id == id && r.check.key == c.key) rows then err constraint else later

-- the row that a snapshot replaces
abbrev pub same_pull : (String → String → Bool) → PullRequest → PullRequest → Bool
same_pull nocase pr r = r.id == pr.id && (nocase r.repo pr.repo && eqb r.number pr.number)

unfoldable pub replace_checks :
    Bool → String → List PrCheck → List CheckRow → Result (List CheckRow)
replace_checks replace id checks rows =
    if replace then insert_checks id checks (delete_rows (λ r. r.pr_id == id) rows) else ok rows

-- The columns `repo` and `number` keep their values, which the JSON repeats up to case.
unfoldable pub save_pull_request_snapshot :
    Text → PullRequest → List PrCheck → Bool → PullTables → PullTables × Result (Unit {0})
save_pull_request_snapshot text pr checks replace s = commit s do
  check (eqb (count_rows (same_pull text.nocase pr) s.pull_requests) 1) not_found
  rows ← replace_checks replace pr.id checks s.pr_checks
  ok (
    record {
      pull_requests = update_rows (same_pull text.nocase pr) (λ r. pr) s.pull_requests;
      pr_checks = rows;
    },
    tt,
  )

-- The order, by the check's key, is left out.
unfoldable pub pull_request_checks : String → PullTables → List PrCheck
pull_request_checks id s = map (λ r. r.check) (select_rows (λ r. r.pr_id == id) s.pr_checks)

abbrev pub seed : String → ℕ → PullRequestRef
seed repo number = record { repo = repo; number = number }

abbrev pub same_ref : PullRequestRef → PullRequestRef → Bool
same_ref a b = a.repo == b.repo && eqb a.number b.number

-- The order of UNION, which also drops duplicates, is left out.
unfoldable pub pull_request_seeds : Store → Tables → List PullRequestRef
pull_request_seeds s t = distinct_rows same_ref (from_reviews ++ from_tasks)
  where
    from_reviews : List PullRequestRef
    from_reviews =
        map (λ r. seed r.repo r.pr_number)
          (select_rows (λ r. not (r.status == "archived") && ltb 0 r.pr_number) s.reviews)

    from_tasks : List PullRequestRef
    from_tasks =
        map (λ p. seed p.repo p.pr_number)
          (select_rows
            (λ p. any (λ k. k.id == p.task_id && unarchived k) t.tasks && ltb 0 p.pr_number) t.prs)

-- The order, by id, is left out.
unfoldable pub pull_request_task_ids : Text → String → ℕ → Tables → List String
pull_request_task_ids text repo number t =
    distinct_rows (λ a b. a == b)
      (map (λ p. p.task_id)
        (select_rows (λ p. text.nocase p.repo repo && eqb p.pr_number number) t.prs))

unfoldable pub pull_request_review_id : Text → String → ℕ → Store → String
pull_request_review_id text repo number s =
    elim (last_row (λ r. r.created_at) (λ r. text.nocase r.repo repo && eqb r.pr_number number)
      s.reviews) [ none ↦ "" | some r ↦ r.id ]
