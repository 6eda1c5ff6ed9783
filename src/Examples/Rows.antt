-- ===== src/Examples/Rows.antt =====
-- Rows that the tests share.
use saturnus.Base.{String, true, none, some, [], ◌∷◌, ok}
use saturnus.Store.Types.{
  ReviewThread, Env, Agent, Session, ApprovalRequest, ApprovalDecision, ReviewRun, ReviewRequest,
  ReviewFinding, Store, empty_store,
}
use saturnus.Review.Remote.{Config, Outside}

abbrev pub monday : Env
monday = record { now = 100; new_id = λ k. "mon" }

abbrev pub tuesday : Env
tuesday = record { now = 200; new_id = λ k. "tue" }

abbrev pub same_text : String → String
same_text s = s

abbrev pub session : Session
session = record {
  id = "s1";
  agent_id = "a1";
  cwd = "/repo";
  repo = "org/app";
  branch = "main";
  model = "";
  status = "online";
  auto_pass = true;
  auto_pass_until = 500;
  auto_pass_scope = "low";
  created_at = 1;
  updated_at = 1;
  last_heartbeat_at = 1;
}

abbrev pub worker : Agent
worker = record {
  id = "w1";
  name = "w1";
  type = "worker";
  host = "h";
  version = "";
  role = "review-worker";
  capabilities = "";
  worker_token = "";
  last_seen = 1;
  created_at = 1;
}

abbrev pub asked : ApprovalRequest
asked = record {
  id = "apr1";
  session_id = "s1";
  tool_name = "read";
  tool_input = "main.go";
  risk_level = "low";
  status = "pending";
  reason = "";
  created_at = 50;
  expires_at = 900;
}

abbrev pub approve : ApprovalDecision
approve = record {
  id = "";
  request_id = "";
  decision = "approved";
  decided_by = "ann";
  source = "web";
  reason = "fine";
  created_at = 0;
}

abbrev pub waiting_review : ReviewRequest
waiting_review = record {
  id = "rev1";
  thread_id = "th1";
  status = "pending";
  pr_url = "";
  repo = "org/app";
  pr_number = 7;
  title = "";
  base_branch = "main";
  requester_open_id = "";
  requester_name = "";
  chat_id = "";
  message_id = "";
  tool = "opencode";
  worker_id = "";
  task_id = "";
  task_url = "";
  session_id = "";
  head_commit = "";
  pr_head_commit = "";
  retry_reason = "";
  result_text = "";
  error = "";
  verdict = "";
  summary = "";
  comments_posted_at = 0;
  created_at = 1;
  updated_at = 1;
  completed_at = 0;
  archived_at = 0;
  refreshed_at = 0;
  task_synced_at = 0;
}

abbrev pub new_run : ReviewRun
new_run = record {
  id = "";
  review_id = "rev1";
  seq = 0;
  status = "running";
  head_commit = "";
  retry_reason = "";
  session_id = "";
  worker_id = "w1";
  result_text = "";
  error = "";
  tool = "";
  verdict = "";
  summary = "";
  started_at = 0;
  completed_at = 0;
  updated_at = 0;
}

abbrev pub strange_finding : ReviewFinding
strange_finding = record {
  id = "f9";
  review_id = "";
  run_id = "";
  severity = "P1";
  path = "main.go";
  line = 3;
  title = "t";
  message = "m";
  suggestion = "";
  status = "";
  github_comment_id = "";
  created_at = 0;
}

abbrev pub thread : ReviewThread
thread = record {
  id = "th1";
  chat_id = "oc1";
  root_message_id = "om1";
  topic = "review";
  participants = [];
  last_message_at = 0;
  created_at = 0;
}

-- a session, a worker, a request that waits and a review that waits
abbrev pub small : Store
small = record empty_store {
  agents = worker ∷ [];
  sessions = session ∷ [];
  approvals = asked ∷ [];
  threads = thread ∷ [];
  reviews = waiting_review ∷ [];
}

abbrev pub config : Config
config = record {
  enabled = true;
  tool = "opencode";
  command_template = "";
  timeout = 60;
  guides = λ repo. none;
  result_api_url = "";
  result_token = "";
  post_inline_comments = true;
}

abbrev pub outside : Outside
outside = record {
  context_reset = λ raw. some true;
  read_guide = λ path. none;
  prior_findings = λ req s. ok "";
  callback_url = λ base review run. base;
  post_comments = λ req s. (s, true);
}
