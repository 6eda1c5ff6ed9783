-- ===== src/Tasks/Prs.antt =====
-- The linked pull requests of a task: AddTaskPR, GetTaskPR, ListTaskPRs, UpdateTaskPR and
-- RemoveTaskPR of internal/store/store.go, and TaskPRsForRefresh of refresh.go.
use saturnus.Base.{
  check, String, ◌+++◌, Bool, ◌&&◌, Option, List, ◌==◌, or_text, or_number, eqb, if◌then◌else◌, any,
  Result, ok, not_found, commit, or_fail, affected, insert_row, find_row, select_rows, count_rows,
  update_rows, delete_rows, ◌>>=◌, ◌>>◌,
}
use saturnus.Store.Types.{Env}
use saturnus.Tasks.Types.{TaskPr, Tables}
use saturnus.Tasks.Rows.{accepts}

-- the unique index of task_prs
abbrev pub same_pr : TaskPr → TaskPr → Bool
same_pr pr p = p.task_id == pr.task_id && (p.repo == pr.repo && eqb p.pr_number pr.pr_number)

unfoldable pub fill_pr : Env → TaskPr → TaskPr
fill_pr env pr = record pr {
  id = or_text pr.id ("tpr_" +++ env.new_id 0);
  review_status = or_text pr.review_status "none";
  created_at = or_number pr.created_at env.now;
  updated_at = env.now;
}

-- ON CONFLICT(task_id, repo, pr_number) DO UPDATE: an empty Lark task and an unset time of
-- synchronization leave the stored ones.
abbrev pub merge_pr : TaskPr → TaskPr → TaskPr
merge_pr new p = record new {
  id = p.id;
  task_id = p.task_id;
  repo = p.repo;
  pr_number = p.pr_number;
  fs_task_id = or_text new.fs_task_id p.fs_task_id;
  fs_task_url = or_text new.fs_task_url p.fs_task_url;
  synced_at = or_number new.synced_at p.synced_at;
  created_at = p.created_at;
}

-- whether the task of the id is there and accepts changes
abbrev pub accepting : Bool → String → Tables → Bool
accepting active_only task_id s = any (λ t. t.id == task_id && accepts active_only t) s.tasks

unfoldable pub get_task_pr : String → Tables → Option TaskPr
get_task_pr id s = find_row (λ p. p.id == id) s.prs

unfoldable pub upsert_pr : TaskPr → List TaskPr → Result (List TaskPr)
upsert_pr pr prs =
    if any (same_pr pr) prs
    then ok (update_rows (same_pr pr) (merge_pr pr) prs)
    else insert_row (λ p. p.id == pr.id) pr prs

-- INSERT … SELECT … FROM tasks, which writes nothing where the task does not accept changes
unfoldable pub write_pr : TaskPr → Bool → Tables → Tables × Result (Unit {0})
write_pr pr active_only s = commit s do
  check (accepting active_only pr.task_id s) not_found
  prs ← upsert_pr pr s.prs
  ok (record s { prs = prs }, tt)

-- The row is read again by the unique key, then by its id.
unfoldable pub read_back : TaskPr → Tables → Result TaskPr
read_back pr s = do
  stored ← or_fail (find_row (same_pr pr) s.prs) not_found
  or_fail (get_task_pr stored.id s) not_found

unfoldable pub add_task_pr : Env → TaskPr → Bool → Tables → Tables × Result TaskPr
add_task_pr env pr active_only s =
    let filled = fill_pr env pr in
    let (t, written) = write_pr filled active_only s in (t, written >> read_back filled t)

-- The order, oldest first by the stored text of `created_at`, is left out.
unfoldable pub list_task_prs : String → Tables → List TaskPr
list_task_prs task_id s = select_rows (λ p. p.task_id == task_id) s.prs

unfoldable pub task_prs_for_refresh : String → Tables → List TaskPr
task_prs_for_refresh task_id s = select_rows (λ p. p.task_id == task_id) s.prs

-- UPDATE task_prs SET … WHERE id = ? AND EXISTS (the task, accepting changes)
unfoldable pub update_task_pr : Env → TaskPr → Bool → Tables → Tables × Result TaskPr
update_task_pr env pr active_only s = commit s do
  let new = record pr { updated_at = env.now }
  affected (count_rows (λ p. p.id == pr.id && accepting active_only p.task_id s) s.prs)
  let prs =
      update_rows (λ p. p.id == pr.id && accepting active_only p.task_id s)
        (λ p. record new {
          id = p.id;
          task_id = p.task_id;
          repo = p.repo;
          pr_number = p.pr_number;
          created_at = p.created_at;
        })
        s.prs
  ok (record s { prs = prs }, new)

unfoldable pub remove_task_pr : String → Tables → Tables
remove_task_pr id s = record s { prs = delete_rows (λ p. p.id == id) s.prs }
