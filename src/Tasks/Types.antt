-- ===== src/Tasks/Types.antt =====
-- The rows of the task tables, and the tables. Tasks are never deleted, so the cascades of the
-- foreign keys never run; a time is 0 where the column is NULL.
use saturnus.Base.{ℕ, String, List, []}
use saturnus.Store.Types.{Time, AuditLog}

pub record Task : Type 0 where
  pub refresh_attempted_at : Time
  pub refreshed_at : Time
  pub refresh_error : String
  pub id : String
  pub title : String
  pub status : String
  pub issue_repo : String
  pub issue_number : ℕ
  pub issue_title : String
  pub issue_state : String
  pub issue_url : String
  pub description : String
  pub archived_at : Time
  pub created_at : Time
  pub updated_at : Time

pub record TaskDoc : Type 0 where
  pub id : String
  pub task_id : String
  pub repo : String
  pub path : String
  pub title : String
  pub created_at : Time

pub record TaskPr : Type 0 where
  pub sync_attempted_at : Time
  pub sync_error : String
  pub id : String
  pub task_id : String
  pub repo : String
  pub pr_number : ℕ
  pub pr_url : String
  pub pr_title : String
  pub pr_state : String
  pub base_branch : String
  pub review_id : String
  pub review_status : String
  pub fs_task_id : String
  pub fs_task_url : String
  pub synced_at : Time
  pub created_at : Time
  pub updated_at : Time

pub record TaskRef : Type 0 where
  pub id : String
  pub task_id : String
  pub url : String
  pub title : String
  pub created_at : Time

pub record TaskSession : Type 0 where
  pub id : String
  pub task_id : String
  pub tool : String
  pub session_id : String
  pub purpose : String
  pub note : String
  pub created_at : Time

-- `started_at` and `synced_at` are texts in the source, of times or empty.
pub record TaskLarkLink : Type 0 where
  pub task_id : String
  pub guid : String
  pub url : String
  pub group_id : String
  pub request_json : String
  pub started_at : Time
  pub last_error : String
  pub synced_at : Time

pub record Tables : Type 0 where
  pub tasks : List Task
  pub docs : List TaskDoc
  pub prs : List TaskPr
  pub refs : List TaskRef
  pub sessions : List TaskSession
  pub links : List TaskLarkLink
  pub audit_logs : List AuditLog

abbrev pub empty_tables : Tables
empty_tables = record {
  tasks = [];
  docs = [];
  prs = [];
  refs = [];
  sessions = [];
  links = [];
  audit_logs = [];
}
