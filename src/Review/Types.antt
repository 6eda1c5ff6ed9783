-- ===== src/Review/Types.antt =====
-- The data of remote runs: internal/review/service.go and internal/workerproto/protocol.go, and what
-- the operations take from outside.
use saturnus.Base.{ℕ, String, Bool, Option, Result}
use saturnus.Store.Types.{ReviewRequest, Store}

-- the fields of `review.Config` that these operations read
pub record Config : Type 0 where
  pub enabled : Bool
  pub tool : String
  pub command_template : String
  pub timeout : ℕ
  pub guides : String → Option String
  pub result_api_url : String
  pub result_token : String
  pub post_inline_comments : Bool

-- internal/workerproto/protocol.go
pub record JobPayload : Type 0 where
  pub kind : String
  pub review_id : String
  pub reaction_id : String
  pub run_id : String
  pub repo : String
  pub pr_number : ℕ
  pub pr_url : String
  pub title : String
  pub base_branch : String
  pub head_commit : String
  pub retry_reason : String
  pub session_id : String
  pub context_id : String
  pub prior_findings : String
  pub command_template : String
  pub guide : String
  pub result_api_url : String
  pub result_token : String
  pub instruction : String
  pub tool : String
  pub timeout : ℕ

-- What lies outside: the decoding of a worker's capabilities (whether it supports a context
-- reset), guide files, the text of prior findings with the discussion fetched from GitHub, the
-- callback's address with its query, and the posting of inline comments, which says whether it
-- succeeded and records the comments' ids on the findings.
pub record Outside : Type 0 where
  pub context_reset : String → Option Bool
  pub read_guide : String → Option String
  pub prior_findings : ReviewRequest → Store → Result String
  pub callback_url : String → String → String → String
  pub post_comments : ReviewRequest → Store → Store × Bool
