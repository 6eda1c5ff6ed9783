-- ===== src/Pulls/Types.antt =====
-- The rows of internal/store/pull_requests.go.
use saturnus.Base.{ℕ, String, Bool, List, []}
use saturnus.Store.Types.{Time}

pub record PrCheckCounts : Type 0 where
  pub pass : ℕ
  pub fail : ℕ
  pub pending : ℕ
  pub cancel : ℕ
  pub skip : ℕ
  pub unknown : ℕ
  pub bypass : ℕ

abbrev pub no_counts : PrCheckCounts
no_counts = record {
  pass = 0;
  fail = 0;
  pending = 0;
  cancel = 0;
  skip = 0;
  unknown = 0;
  bypass = 0;
}

pub record PullRequest : Type 0 where
  pub id : String
  pub repo : String
  pub number : ℕ
  pub url : String
  pub title : String
  pub author : String
  pub state : String
  pub draft : Bool
  pub base_branch : String
  pub head_branch : String
  pub head_repo : String
  pub head_sha : String
  pub merge_sha : String
  pub checked_head_sha : String
  pub checked_merge_sha : String
  pub ci_state : String
  pub monitoring : Bool
  pub counts : PrCheckCounts
  pub sync_attempted_at : Time
  pub synced_at : Time
  pub sync_error : String
  pub created_at : Time
  pub updated_at : Time

pub record PrCheck : Type 0 where
  pub key : String
  pub source : String
  pub external_id : ℕ
  pub app : String
  pub workflow : String
  pub workflow_id : ℕ
  pub workflow_run_id : ℕ
  pub run_attempt : ℕ
  pub event : String
  pub name : String
  pub head_sha : String
  pub status : String
  pub conclusion : String
  pub bucket : String
  pub url : String
  pub description : String
  pub started_at : Time
  pub completed_at : Time
  pub updated_at : Time
  pub bypassed : Bool
  pub bypass_rule : String

-- one row of pr_checks, whose primary key is the request and the check's key
pub record CheckRow : Type 0 where
  pub pr_id : String
  pub check : PrCheck

pub record PullRequestRef : Type 0 where
  pub repo : String
  pub number : ℕ

pub record PullTables : Type 0 where
  pub pull_requests : List PullRequest
  pub pr_checks : List CheckRow

abbrev pub empty_pulls : PullTables
empty_pulls = record { pull_requests = []; pr_checks = [] }
