-- ===== src/Examples/Tasks.antt =====
-- The task tables on concrete rows.
use saturnus.Base.{
  ◌≢◌, List, String, true, false, ◌==◌, none, some, [], ◌∷◌, ◌≡◌, ◌⊎◌, refl, ok, err, constraint,
  not_found, find_row,
}
use saturnus.Tasks.Types.{Task, TaskPr, TaskRef, TaskSession, Tables, empty_tables}
use saturnus.Tasks.Rows.{get_task, save_task_refresh, bind_task_issue, close_task}
use saturnus.Tasks.Prs.{add_task_pr, update_task_pr, get_task_pr, same_pr}
use saturnus.Tasks.Links.{add_task_ref, remove_task_ref, add_task_session, remove_task_session}
use saturnus.Tasks.Refinement.{Call, run, spec, replay, creates, closes, patches, binds}
use saturnus.Tasks.Refinement.Proof.{tables_refine_map}
use saturnus.Tasks.Archived.{archived_task_frozen}
use saturnus.Tasks.Upsert.{add_task_pr-upserts, merged, filled, updated, grown}
use saturnus.Examples.Rows.{monday, tuesday, same_text}

abbrev task : Task
task = record {
  refresh_attempted_at = 0;
  refreshed_at = 0;
  refresh_error = "";
  id = "tsk1";
  title = "Cache";
  status = "open";
  issue_repo = "org/app";
  issue_number = 7;
  issue_title = "";
  issue_state = "OPEN";
  issue_url = "";
  description = "";
  archived_at = 0;
  created_at = 50;
  updated_at = 50;
}

abbrev pr : TaskPr
pr = record {
  sync_attempted_at = 0;
  sync_error = "";
  id = "tpr1";
  task_id = "tsk1";
  repo = "org/app";
  pr_number = 12;
  pr_url = "";
  pr_title = "Add cache";
  pr_state = "OPEN";
  base_branch = "main";
  review_id = "";
  review_status = "none";
  fs_task_id = "fs1";
  fs_task_url = "";
  synced_at = 60;
  created_at = 60;
  updated_at = 60;
}

abbrev again : TaskPr
again = record pr { id = ""; pr_state = "MERGED"; fs_task_id = ""; synced_at = 0 }

abbrev tracked : Tables
tracked = record empty_tables { tasks = task ∷ []; prs = pr ∷ [] }

abbrev gone : Task
gone = record task { status = "archived"; archived_at = 90 }

abbrev frozen : Tables
frozen = record tracked { tasks = gone ∷ [] }

abbrev ref : TaskRef
ref = record { id = ""; task_id = ""; url = "u"; title = "t"; created_at = 0 }

abbrev link : TaskSession
link = record {
  id = "";
  task_id = "";
  tool = "opencode";
  session_id = "ses";
  purpose = "";
  note = "";
  created_at = 0;
}

-- a task is made, made again, renamed, closed, and bound too late
abbrev calls : List Call
calls =
    creates monday task
    ∷ creates tuesday task
    ∷ patches monday "tsk1" (some "Faster cache") none none
    ∷ closes tuesday "tsk1"
    ∷ binds tuesday "tsk1" "org/app" 8 "" "" ""
    ∷ []

tables_refine_map_example :
    ((replay run calls empty_tables).1 ≡ (replay spec calls (λ i. none)).1)
    × ((i : String)
        → get_task i (replay run calls empty_tables).0 ≡ (replay spec calls (λ i. none)).0 i)
tables_refine_map_example = tables_refine_map calls

archived_task_frozen_example :
    (add_task_pr tuesday (record pr { task_id = "tsk1" }) false frozen ≡ (frozen, err not_found))
    × ((update_task_pr tuesday pr false frozen ≡ (frozen, err not_found))
        ⊎ ((stored : TaskPr) × (get_task_pr "tpr1" frozen ≡ some stored)
            × (stored.task_id ≢ "tsk1")))
    × (save_task_refresh tuesday (record task { id = "tsk1" }) false frozen
        ≡ (frozen, err not_found))
    × (bind_task_issue tuesday "tsk1" "org/app" 7 "" "" "OPEN" frozen ≡ (frozen, err not_found))
    × (add_task_ref tuesday (record ref { task_id = "tsk1" }) frozen ≡ (frozen, err not_found))
    × (remove_task_ref "tsk1" "trf1" frozen ≡ (frozen, err not_found))
    × (add_task_session same_text same_text tuesday (record link { task_id = "tsk1" }) frozen
        ≡ (frozen, err not_found))
    × (remove_task_session "tsk1" "trf1" frozen ≡ (frozen, err not_found))
    × (close_task tuesday "tsk1" frozen ≡ (frozen, ok gone))
unfolding get_task
archived_task_frozen_example =
    archived_task_frozen tuesday same_text same_text frozen "tsk1" gone pr task ref link "trf1"
      false (tt, tt) (tt, tt) refl refl

add_task_pr-upserts_example :
    ((old : TaskPr) × (find_row (same_pr again) tracked.prs ≡ some old)
      × (add_task_pr tuesday again true tracked
          ≡ (updated tuesday again true tracked, ok (merged tuesday again true tracked old))))
    ⊎ ((find_row (same_pr again) tracked.prs ≡ none)
        × ((add_task_pr tuesday again true tracked
              ≡ (grown tuesday again true tracked, ok (filled tuesday again true tracked)))
            ⊎ ((p : TaskPr) × (find_row
                    (λ p. p.id == (filled tuesday again true tracked).id)
                    tracked.prs
                  ≡ some p)
                × (add_task_pr tuesday again true tracked ≡ (tracked, err constraint)))))
add_task_pr-upserts_example = add_task_pr-upserts tuesday again true tracked (tt, tt) refl
