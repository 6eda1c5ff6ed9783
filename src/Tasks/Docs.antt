-- ===== src/Tasks/Docs.antt =====
-- The documents of a task: AddTaskDoc, ListTaskDocs and RemoveTaskDoc of internal/store/store.go.
use saturnus.Base.{
  String, ◌+++◌, Bool, ◌&&◌, List, ◌==◌, or_text, or_number, if◌then◌else◌, any, Result, ok,
  not_found, commit, or_fail, insert_row, select_rows, update_rows, delete_rows, ◌>>=◌,
}
use saturnus.Store.Types.{Env}
use saturnus.Tasks.Types.{TaskDoc, Tables}
use saturnus.Tasks.Rows.{get_task}

-- the unique index of task_docs
abbrev pub same_doc : TaskDoc → TaskDoc → Bool
same_doc doc d = d.task_id == doc.task_id && (d.repo == doc.repo && d.path == doc.path)

unfoldable pub fill_doc : Env → TaskDoc → TaskDoc
fill_doc env doc = record doc {
  id = or_text doc.id ("tdc_" +++ env.new_id 0);
  created_at = or_number doc.created_at env.now;
}

-- On conflict only the title is written, and what is returned is still the new row.
unfoldable pub add_task_doc : Env → TaskDoc → Tables → Tables × Result TaskDoc
add_task_doc env doc s = commit s do
  _ ← or_fail (get_task doc.task_id s) not_found
  let filled = fill_doc env doc
  docs ←
      if any (same_doc filled) s.docs
      then ok (update_rows (same_doc filled) (λ d. record d { title = filled.title }) s.docs)
      else insert_row (λ d. d.id == filled.id) filled s.docs
  ok (record s { docs = docs }, filled)

-- The order, oldest first by the stored text of `created_at`, is left out.
unfoldable pub list_task_docs : String → Tables → List TaskDoc
list_task_docs task_id s = select_rows (λ d. d.task_id == task_id) s.docs

unfoldable pub remove_task_doc : String → Tables → Tables
remove_task_doc id s = record s { docs = delete_rows (λ d. d.id == id) s.docs }
