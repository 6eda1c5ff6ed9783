-- ===== src/Store/Comments.antt =====
-- The comments of a review that are synchronized from GitHub, internal/store/store.go, and the
-- notifications of its requester, review_notification.go.
use saturnus.Base.{
  ℕ, suc, String, ◌+++◌, Bool, ◌&&◌, ◌||◌, List, [], ◌∷◌, ◌++◌, ◌==◌, map, or_text, or_number,
  if◌then◌else◌, any, Result, ok, constraint, commit, check, insert_row, select_rows, update_rows,
  ◌>>=◌, ◌>>◌,
}
use saturnus.Store.Types.{Env, ReviewComment, ReviewRequesterNotification, Store}

-- the two unique indexes of review_comments
abbrev pub same_comment : ReviewComment → ReviewComment → Bool
same_comment c d = d.id == c.id || (d.review_id == c.review_id && d.key == c.key)

abbrev pub fill_comment : Env → ℕ → String → ReviewComment → ReviewComment
fill_comment env drawn review_id c = record c {
  id = or_text c.id ("rc_" +++ env.new_id drawn);
  review_id = review_id;
  synced_at = or_number c.synced_at env.now;
}

-- INSERT OR IGNORE, one after the other; `drawn` counts the random ids and `inserted` the rows.
unfoldable pub save_loop :
    Env → String → ℕ → ℕ → List ReviewComment → List ReviewComment → List ReviewComment × ℕ
save_loop env review_id drawn inserted [] rows = (rows, inserted)
save_loop env review_id drawn inserted (c ∷ cs) rows =
    let row = fill_comment env drawn review_id c in
    let next = if c.id == "" then suc drawn else drawn in
    let ignored = save_loop env review_id next inserted cs rows in
    let added = save_loop env review_id next (suc inserted) cs (rows ++ row ∷ []) in
    if any (same_comment row) rows then ignored else added

-- The review is a foreign key, on which IGNORE has no effect.
unfoldable pub save_review_comments : Env → String → List ReviewComment → Store → Store × Result ℕ
save_review_comments env review_id [] s = (s, ok 0)
save_review_comments env review_id (c ∷ cs) s = commit s do
  check (any (λ r. r.id == review_id) s.reviews) constraint
  let saved = save_loop env review_id 0 0 (c ∷ cs) s.comments
  ok (record s { comments = saved.0 }, saved.1)

unfoldable pub list_review_comments : String → Store → List ReviewComment
list_review_comments review_id s = select_rows (λ c. c.review_id == review_id) s.comments

-- A map of the keys in the source; here with repetitions, of which there are none.
unfoldable pub review_comment_keys : String → Store → List String
review_comment_keys review_id s = map (λ c. c.key) (list_review_comments review_id s)

-- The review and, where it is named, the run are foreign keys. The id has no prefix.
unfoldable pub create_requester_notification :
    Env → ReviewRequesterNotification → Store → Store × Result ReviewRequesterNotification
create_requester_notification env n s = commit s do
  let new = record n { id = env.new_id 0; created_at = env.now; status = "pending" }
  check (any (λ r. r.id == new.review_id) s.reviews) constraint
  check (new.run_id == "" || any (λ r. r.id == new.run_id) s.runs) constraint
  let row = record new { error = "" }
  notifications ← insert_row (λ m. m.id == row.id) row s.notifications
  ok (record s { notifications = notifications }, new)

unfoldable pub finish_requester_notification : String → String → String → Store → Store
finish_requester_notification id status error s = record s {
  notifications =
      update_rows (λ m. m.id == id) (λ m. record m { status = status; error = error })
        s.notifications;
}

-- The order, by the stored text of `created_at` and then by id, is left out.
unfoldable pub list_requester_notifications : String → Store → List ReviewRequesterNotification
list_requester_notifications review_id s =
    select_rows (λ m. m.review_id == review_id) s.notifications
