-- ===== src/Tasks/Lark.antt =====
-- The Lark task of a task, internal/store/task_lark.go: the reservation before the remote task is
-- made, the remote task's id, the group and the outcome of a synchronization.
use saturnus.Base.{
  String, Bool, ◌&&◌, ◌||◌, Option, [], ◌∷◌, ◌++◌, ◌==◌, if◌then◌else◌, any, Result, ok, constraint,
  commit, check, affected, find_row, count_rows, update_rows, delete_rows, ◌>>◌,
}
use saturnus.Store.Types.{Env}
use saturnus.Tasks.Types.{TaskLarkLink, Tables}

unfoldable pub get_task_lark_link : String → Tables → Option TaskLarkLink
get_task_lark_link id s = find_row (λ l. l.task_id == id) s.links

abbrev pub reservation : Env → String → String → TaskLarkLink
reservation env id request = record {
  task_id = id;
  guid = "";
  url = "";
  group_id = "";
  request_json = request;
  started_at = env.now;
  last_error = "";
  synced_at = 0;
}

-- ON CONFLICT(task_id) DO NOTHING; the task is a foreign key, which a database in a file enforces.
unfoldable pub reserve_task_lark_creation :
    Env → String → String → Tables → Tables × Result (Unit {0})
reserve_task_lark_creation env id request s =
    if any (λ l. l.task_id == id) s.links
    then (s, ok tt)
    else commit s do
      check (any (λ t. t.id == id) s.tasks) constraint
      ok (record s { links = s.links ++ reservation env id request ∷ [] }, tt)

-- task_id = ? AND (guid = '' OR guid = ?)
abbrev pub takes_guid : String → String → TaskLarkLink → Bool
takes_guid id guid l = l.task_id == id && (l.guid == "" || l.guid == guid)

unfoldable pub set_task_lark_remote : String → String → String → Tables → Tables × Result (Unit {0})
set_task_lark_remote id guid url s = commit s do
  affected (count_rows (takes_guid id guid) s.links)
  let links =
      update_rows (takes_guid id guid) (λ l. record l { guid = guid; url = url; last_error = "" })
        s.links
  ok (record s { links = links }, tt)

abbrev pub set_link : String → (TaskLarkLink → TaskLarkLink) → Tables → Tables
set_link id f s = record s { links = update_rows (λ l. l.task_id == id) f s.links }

unfoldable pub set_task_lark_group : String → String → Tables → Tables
set_task_lark_group id group = set_link id (λ l. record l { group_id = group })

unfoldable pub set_task_lark_sync : Env → String → String → Bool → Tables → Tables
set_task_lark_sync env id error success =
    set_link id
      (λ l. record l { last_error = error; synced_at = if success then env.now else l.synced_at })

-- a reservation without a remote task
abbrev pub unused : String → TaskLarkLink → Bool
unused id l = l.task_id == id && l.guid == ""

unfoldable pub reset_task_lark_creation : String → Tables → Tables × Result (Unit {0})
reset_task_lark_creation id s = commit s do
  affected (count_rows (unused id) s.links)
  ok (record s { links = delete_rows (unused id) s.links }, tt)
