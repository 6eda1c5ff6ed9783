-- ===== src/Store/Types.antt =====
-- The rows of the tables: the structs of internal/store/store.go, and the database as a record.
-- A `time.Time` is a number of nanoseconds whose 0 is the zero time (NULL in a column); text in
-- JSON is kept as it stands.
use saturnus.Base.{ℕ, String, Bool, List, []}

abbrev pub Time : Type 0
Time = ℕ

-- What a call reads from outside: the clock, and the random texts of `newID` in the order of use.
pub record Env : Type 0 where
  pub now : Time
  pub new_id : ℕ → String

pub record Agent : Type 0 where
  pub id : String
  pub name : String
  pub type : String
  pub host : String
  pub version : String
  pub role : String
  pub capabilities : String
  pub worker_token : String
  pub last_seen : Time
  pub created_at : Time

pub record Session : Type 0 where
  pub id : String
  pub agent_id : String
  pub cwd : String
  pub repo : String
  pub branch : String
  pub model : String
  pub status : String
  pub auto_pass : Bool
  pub auto_pass_until : Time
  pub auto_pass_scope : String
  pub created_at : Time
  pub updated_at : Time
  pub last_heartbeat_at : Time

pub record Event : Type 0 where
  pub id : String
  pub session_id : String
  pub turn_id : String
  pub type : String
  pub payload : String
  pub created_at : Time

pub record ApprovalRequest : Type 0 where
  pub id : String
  pub session_id : String
  pub tool_name : String
  pub tool_input : String
  pub risk_level : String
  pub status : String
  pub reason : String
  pub created_at : Time
  pub expires_at : Time

pub record ApprovalDecision : Type 0 where
  pub id : String
  pub request_id : String
  pub decision : String
  pub decided_by : String
  pub source : String
  pub reason : String
  pub created_at : Time

-- The payload, the JSON of the value that was written, and the row's random id are left out.
pub record AuditLog : Type 0 where
  pub actor : String
  pub action : String
  pub target : String
  pub created_at : Time

pub record ReviewRun : Type 0 where
  pub id : String
  pub review_id : String
  pub seq : ℕ
  pub status : String
  pub head_commit : String
  pub retry_reason : String
  pub session_id : String
  pub worker_id : String
  pub result_text : String
  pub error : String
  pub tool : String
  pub verdict : String
  pub summary : String
  pub started_at : Time
  pub completed_at : Time
  pub updated_at : Time

pub record ReviewRequest : Type 0 where
  pub id : String
  pub thread_id : String
  pub status : String
  pub pr_url : String
  pub repo : String
  pub pr_number : ℕ
  pub title : String
  pub base_branch : String
  pub requester_open_id : String
  pub requester_name : String
  pub chat_id : String
  pub message_id : String
  pub tool : String
  pub worker_id : String
  pub task_id : String
  pub task_url : String
  pub session_id : String
  pub head_commit : String
  pub pr_head_commit : String
  pub retry_reason : String
  pub result_text : String
  pub error : String
  pub verdict : String
  pub summary : String
  pub comments_posted_at : Time
  pub created_at : Time
  pub updated_at : Time
  pub completed_at : Time
  pub archived_at : Time
  pub refreshed_at : Time
  pub task_synced_at : Time

pub record ReviewReaction : Type 0 where
  pub id : String
  pub review_id : String
  pub instruction : String
  pub status : String
  pub chat_id : String
  pub message_id : String
  pub sender_open_id : String
  pub sender_name : String
  pub session_id : String
  pub worker_id : String
  pub result_text : String
  pub error : String
  pub created_at : Time
  pub updated_at : Time
  pub completed_at : Time

pub record ReviewFinding : Type 0 where
  pub id : String
  pub review_id : String
  pub run_id : String
  pub severity : String
  pub path : String
  pub line : ℕ
  pub title : String
  pub message : String
  pub suggestion : String
  pub status : String
  pub github_comment_id : String
  pub created_at : Time

pub record ReviewContext : Type 0 where
  pub review_id : String
  pub context_id : String
  pub reset_by : String
  pub reset_at : Time

pub record ReviewThread : Type 0 where
  pub id : String
  pub chat_id : String
  pub root_message_id : String
  pub topic : String
  pub participants : List String
  pub last_message_at : Time
  pub created_at : Time

-- one row of review_thread_links
pub record ThreadLink : Type 0 where
  pub review_id : String
  pub thread_id : String
  pub linked_at : Time

pub record ReviewComment : Type 0 where
  pub id : String
  pub review_id : String
  pub key : String
  pub github_review_id : ℕ
  pub user : String
  pub state : String
  pub body : String
  pub submitted_at : Time
  pub synced_at : Time

pub record ChatMode : Type 0 where
  pub chat_id : String
  pub mode : String
  pub updated_at : Time

pub record ReviewRequesterNotification : Type 0 where
  pub id : String
  pub review_id : String
  pub run_id : String
  pub requester_open_id : String
  pub message : String
  pub status : String
  pub error : String
  pub created_at : Time

-- one row of worker_token_alerts
pub record TokenAlert : Type 0 where
  pub worker_id : String
  pub alert_key : String
  pub sent_at : Time

-- The tables that the modelled operations read and write.
pub record Store : Type 0 where
  pub agents : List Agent
  pub sessions : List Session
  pub events : List Event
  pub approvals : List ApprovalRequest
  pub decisions : List ApprovalDecision
  pub audit_logs : List AuditLog
  pub threads : List ReviewThread
  pub thread_links : List ThreadLink
  pub reviews : List ReviewRequest
  pub runs : List ReviewRun
  pub reactions : List ReviewReaction
  pub findings : List ReviewFinding
  pub contexts : List ReviewContext
  pub comments : List ReviewComment
  pub chat_modes : List ChatMode
  pub notifications : List ReviewRequesterNotification
  pub token_alerts : List TokenAlert

abbrev pub empty_store : Store
empty_store = record {
  agents = [];
  sessions = [];
  events = [];
  approvals = [];
  decisions = [];
  audit_logs = [];
  threads = [];
  thread_links = [];
  reviews = [];
  runs = [];
  reactions = [];
  findings = [];
  contexts = [];
  comments = [];
  chat_modes = [];
  notifications = [];
  token_alerts = [];
}
