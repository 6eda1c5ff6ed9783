-- ===== src/Tasks/Rows.antt =====
-- The table of tasks: CreateTask, GetTask, ListTasks, UpdateTask and CloseTask of
-- internal/store/store.go, SaveTaskRefresh, PatchTask and ListTasksForRefresh of refresh.go, and
-- BindTaskIssue of task_sessions.go.
use saturnus.Base.{
  ℕ, String, ◌+++◌, Bool, not, ◌&&◌, ◌||◌, Option, none, some, List, [], ◌∷◌, ◌++◌, ◌==◌, or_text,
  or_number, eqb, if◌then◌else◌, Result, ok, not_found, commit, or_fail, affected, insert_row,
  find_row, select_rows, count_rows, update_rows, ◌>>=◌, ◌>>◌,
}
use saturnus.Store.Types.{Env, AuditLog}
use saturnus.Tasks.Types.{Task, Tables}

unfoldable pub audit_task : Env → String → String → Tables → Tables
audit_task env action target s = record s { audit_logs = s.audit_logs ++ entry ∷ [] }
  where
    entry : AuditLog
    entry = record { actor = "system"; action = action; target = target; created_at = env.now }

unfoldable pub get_task : String → Tables → Option Task
get_task id s = find_row (λ t. t.id == id) s.tasks

unfoldable pub fill_task : Env → Task → Task
fill_task env task = record task {
  id = or_text task.id ("tsk_" +++ env.new_id 0);
  status = or_text task.status "open";
  created_at = or_number task.created_at env.now;
  updated_at = or_number task.created_at env.now;
}

-- The refresh columns are not inserted and start empty.
unfoldable pub create_task : Env → Task → Tables → Tables × Result Task
create_task env task s = commit s do
  let filled = fill_task env task
  let row = record filled { refresh_attempted_at = 0; refreshed_at = 0; refresh_error = "" }
  tasks ← insert_row (λ t. t.id == row.id) row s.tasks
  ok (audit_task env "task.create" row.id (record s { tasks = tasks }), filled)

abbrev pub archived : Task → Bool
archived t = t.status == "archived"

abbrev pub unarchived : Task → Bool
unarchived t = not (archived t)

-- status != 'archived' AND (? = 0 OR status IN ('open', 'in_progress'))
abbrev pub accepts : Bool → Task → Bool
accepts active_only t =
    unarchived t && (not active_only || (t.status == "open" || t.status == "in_progress"))

-- The order, newest first by the stored text of `created_at`, is left out.
unfoldable pub list_tasks : String → Bool → Tables → List Task
list_tasks status include_archived s = select_rows wanted s.tasks
  where
    wanted : Task → Bool
    wanted t =
        (status == "" || t.status == status)
        && (include_archived || status == "archived" || unarchived t)

-- The order, oldest first by the stored text of `created_at`, is left out.
unfoldable pub list_tasks_for_refresh : Bool → Tables → List Task
list_tasks_for_refresh active_only s = select_rows (accepts active_only) s.tasks

-- UPDATE tasks SET f WHERE id = ? AND p
abbrev pub set_task : String → (Task → Bool) → (Task → Task) → Tables → Tables
set_task id p f s = record s { tasks = update_rows (λ t. t.id == id && p t) f s.tasks }

-- the rows that the update affects
abbrev pub hits : String → (Task → Bool) → Tables → ℕ
hits id p s = count_rows (λ t. t.id == id && p t) s.tasks

-- Every column but the id, the time of creation and those of the refresh. A missing id is no error.
unfoldable pub update_task : Env → Task → Tables → Tables × Task
update_task env task s =
    let new = record task { updated_at = env.now } in
    (
      audit_task env "task.update" task.id (
          set_task task.id (λ t. Bool.true)
            (λ t. record new {
              id = t.id;
              created_at = t.created_at;
              refresh_attempted_at = t.refresh_attempted_at;
              refreshed_at = t.refreshed_at;
              refresh_error = t.refresh_error;
            })
            s),
      new,
    )

abbrev pub close_row : Env → Task → Task
close_row env t = record t { status = "archived"; archived_at = env.now; updated_at = env.now }

-- The audit row is written only where the task was not archived yet.
unfoldable pub close_task : Env → String → Tables → Tables × Result Task
close_task env id s =
    let written = set_task id unarchived (close_row env) s in
    let t =
      if eqb (hits id unarchived s) 0 then written else audit_task env "task.update" id written in
    (t, or_fail (get_task id t) not_found)

-- An update that answers `ErrNotFound` where it affects no row, and else the row.
abbrev pub change_task :
    String → (Task → Bool) → (Task → Task) → (Tables → Tables) → Tables → Tables × Result Task
change_task id p f after s = commit s do
  affected (hits id p s)
  let t = after (set_task id p f s)
  row ← or_fail (get_task id t) not_found
  ok (t, row)

unfoldable pub save_task_refresh : Env → Task → Bool → Tables → Tables × Result Task
save_task_refresh env task active_only =
    change_task task.id (accepts active_only)
      (λ t. record t {
        issue_title = task.issue_title;
        issue_state = task.issue_state;
        issue_url = task.issue_url;
        refresh_attempted_at = task.refresh_attempted_at;
        refreshed_at = or_number task.refreshed_at t.refreshed_at;
        refresh_error = task.refresh_error;
        updated_at = env.now;
      })
      (λ s. s)

-- COALESCE(?, old)
abbrev pub coalesce {ℓ} : {A : Type ℓ} → Option A → A → A
coalesce none d = d
coalesce (some a) d = a

unfoldable pub patch_task :
    Env → String → Option String → Option String → Option String → Tables → Tables × Result Task
patch_task env id title status description =
    change_task id (λ t. Bool.true)
      (λ t. record t {
        title = coalesce title t.title;
        status = coalesce status t.status;
        description = coalesce description t.description;
        updated_at = env.now;
      })
      (audit_task env "task.update" id)

unfoldable pub bind_task_issue :
    Env → String → String → ℕ → String → String → String → Tables → Tables × Result Task
bind_task_issue env id repo number url title state =
    change_task id unarchived
      (λ t. record t {
        issue_repo = repo;
        issue_number = number;
        issue_url = url;
        issue_title = title;
        issue_state = state;
        updated_at = env.now;
      })
      (λ s. s)
