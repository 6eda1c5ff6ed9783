-- ===== src/Tasks/Links.antt =====
-- References and tool sessions of a task: AddTaskRef, ListTaskRefs and RemoveTaskRef of
-- internal/store/task_refs.go, AddTaskSession, ListTaskSessions and RemoveTaskSession of
-- task_sessions.go. `strings.ToLower` and `strings.TrimSpace` are parameters.
use saturnus.Base.{
  String, ◌+++◌, Bool, not, ◌&&◌, ◌||◌, List, ◌==◌, any, Result, ok, failure, not_found, commit,
  check, affected, insert_row, select_rows, count_rows, delete_rows, ◌>>=◌, ◌>>◌,
}
use saturnus.Store.Types.{Env}
use saturnus.Tasks.Types.{TaskRef, TaskSession, Tables}
use saturnus.Tasks.Rows.{unarchived}

-- SELECT 1 FROM tasks WHERE id = ? AND status != 'archived'
abbrev pub is_open : String → Tables → Bool
is_open id s = any (λ t. t.id == id && unarchived t) s.tasks

abbrev pub clash_ref : TaskRef → TaskRef → Bool
clash_ref ref r = r.id == ref.id || (r.task_id == ref.task_id && r.url == ref.url)

unfoldable pub add_task_ref : Env → TaskRef → Tables → Tables × Result TaskRef
add_task_ref env ref s = commit s do
  let new = record ref { id = "trf_" +++ env.new_id 0; created_at = env.now }
  check (is_open new.task_id s) not_found
  refs ← insert_row (clash_ref new) new s.refs
  ok (record s { refs = refs }, new)

-- The order, by the stored text of `created_at` and then by id, is left out.
unfoldable pub list_task_refs : String → Tables → List TaskRef
list_task_refs task_id s = select_rows (λ r. r.task_id == task_id) s.refs

-- DELETE … WHERE id = ? AND task_id = ? AND EXISTS (the task, not archived)
abbrev pub drops_ref : String → String → Tables → TaskRef → Bool
drops_ref task_id id s r = r.id == id && (r.task_id == task_id && is_open task_id s)

unfoldable pub remove_task_ref : String → String → Tables → Tables × Result (Unit {0})
remove_task_ref task_id id s = commit s do
  affected (count_rows (drops_ref task_id id s) s.refs)
  ok (record s { refs = delete_rows (drops_ref task_id id s) s.refs }, tt)

abbrev pub clash_session : TaskSession → TaskSession → Bool
clash_session link l =
    l.id == link.id
    || (l.task_id == link.task_id && (l.tool == link.tool && l.session_id == link.session_id))

unfoldable pub add_task_session :
    (String → String) → (String → String) → Env → TaskSession → Tables → Tables × Result TaskSession
add_task_session to_lower trim_space env link s = commit s do
  let tool = to_lower (trim_space link.tool)
  let session_id = trim_space link.session_id
  check (not (tool == "" || session_id == "")) (failure "tool and session_id are required")
  let new = record link {
    tool = tool;
    session_id = session_id;
    id = "tss_" +++ env.new_id 0;
    created_at = env.now;
  }
  check (is_open new.task_id s) not_found
  sessions ← insert_row (clash_session new) new s.sessions
  ok (record s { sessions = sessions }, new)

-- The order, oldest first by the stored text of `created_at`, is left out.
unfoldable pub list_task_sessions : String → Tables → List TaskSession
list_task_sessions task_id s = select_rows (λ l. l.task_id == task_id) s.sessions

abbrev pub drops_session : String → String → Tables → TaskSession → Bool
drops_session task_id id s l = l.id == id && (l.task_id == task_id && is_open task_id s)

unfoldable pub remove_task_session : String → String → Tables → Tables × Result (Unit {0})
remove_task_session task_id id s = commit s do
  affected (count_rows (drops_session task_id id s) s.sessions)
  ok (record s { sessions = delete_rows (drops_session task_id id s) s.sessions }, tt)
