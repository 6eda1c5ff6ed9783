-- ===== src/Store/Sync/Laws.antt =====
-- Two writers that have read the same review.
use saturnus.Base.{
  false, ◌≡◌, ◌≢◌, refl, arith, count_rows, update_rows, update_none, count-update_none,
}
use saturnus.Store.Types.{Env, ReviewRequest, Store}
use saturnus.Store.Sync.{as_read, synced, save_review_sync}

-- Where the clock has moved on since a review was read: once a synchronization has written from
-- what it read, another that read the same writes nothing and is told so.
pub save_review_sync-once :
    (env later : Env) (before first second : ReviewRequest) (s : Store)
    → env.now ≢ before.updated_at
    → let t = (save_review_sync env before first s).0 in
      save_review_sync later before second t ≡ (t, false)
unfolding save_review_sync
save_review_sync-once env later before first second s moved =
    let written = update_rows (as_read before) (synced env first) s.reviews in
    let none : count_rows (as_read before) written ≡ 0 =
      count-update_none (as_read before) (synced env first) (as_read before) s.reviews
        (λ r e. ground (arith, moved)) (λ r e. e) in
    rw (none, update_none (as_read before) (synced later second) written none) refl
