-- ===== src/Store/Sync.antt =====
-- What synchronization writes to reviews, internal/store/refresh.go: SaveReviewSync, SetReviewTask,
-- SetReviewRequester and SetReviewRequesterName.
pub mod Laws
use saturnus.Base.{String, Bool, not, ◌&&◌, ◌==◌, eqb, count_rows, update_rows}
use saturnus.Store.Types.{Env, ReviewRequest, Store}
use saturnus.Store.Reviews.{set_review}

-- id = ? AND status = ? AND updated_at = ?
abbrev pub as_read : ReviewRequest → ReviewRequest → Bool
as_read before r =
    r.id == before.id && (r.status == before.status && eqb r.updated_at before.updated_at)

abbrev pub synced : Env → ReviewRequest → ReviewRequest → ReviewRequest
synced env new r = record r {
  status = new.status;
  archived_at = new.archived_at;
  pr_head_commit = new.pr_head_commit;
  title = new.title;
  base_branch = new.base_branch;
  refreshed_at = new.refreshed_at;
  task_synced_at = new.task_synced_at;
  updated_at = env.now;
}

-- Whether the review was still as it had been read.
unfoldable pub save_review_sync : Env → ReviewRequest → ReviewRequest → Store → Store × Bool
save_review_sync env before after s = (
  record s { reviews = update_rows (as_read before) (synced env after) s.reviews },
  eqb (count_rows (as_read before) s.reviews) 1,
)

unfoldable pub set_review_task : Env → String → String → String → Store → Store
set_review_task env id task_id task_url =
    set_review id (λ r. record r { task_id = task_id; task_url = task_url; updated_at = env.now })

unfoldable pub set_review_requester : Env → String → String → String → Store → Store
set_review_requester env id open_id name s = record s {
  reviews =
      update_rows (λ r. r.id == id && not (r.status == "archived"))
        (λ r. record r { requester_open_id = open_id; requester_name = name; updated_at = env.now })
        s.reviews;
}

unfoldable pub set_review_requester_name : Env → String → String → String → Store → Store
set_review_requester_name env id open_id name s = record s {
  reviews =
      update_rows (λ r. r.id == id && r.requester_open_id == open_id)
        (λ r. record r { requester_name = name; updated_at = env.now }) s.reviews;
}
