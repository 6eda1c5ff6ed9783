-- ===== src/Store/Reviews.antt =====
-- The review requests of internal/store/store.go: creating, reading and updating rows. A failure
-- of the database itself is not modelled; `UPDATE` of a missing id affects no row and is no error.
use saturnus.Base.{
  String, ◌+++◌, Bool, not, ◌&&◌, ◌||◌, Option, List, [], ◌∷◌, ◌++◌, ◌==◌, if◌then◌else◌, or_text,
  or_number, Result, ok, err, not_found, constraint, commit, check, find_row, select_rows,
  update_rows, any, ◌>>=◌, ◌>>◌,
}
use saturnus.Store.Types.{Time, Env, ReviewRequest, Store}
use saturnus.Store.Approvals.{audit}

unfoldable pub get_review : String → Store → Option ReviewRequest
get_review id s = find_row (λ r. r.id == id) s.reviews

pub fill_review : Env → ReviewRequest → ReviewRequest
fill_review env req = record req {
  id = or_text req.id ("rvw_" +++ env.new_id 0);
  status = or_text req.status "pending";
  created_at = or_number req.created_at env.now;
  updated_at = or_number req.created_at env.now;
}

-- INSERT INTO review_requests: the id is the primary key
insert_review : ReviewRequest → Store → Result Store
insert_review req s =
    if any (λ r. r.id == req.id) s.reviews
    then err constraint
    else ok (record s { reviews = s.reviews ++ req ∷ [] })

unfoldable pub create_review : Env → ReviewRequest → Store → Store × Result ReviewRequest
unfolding fill_review insert_review audit
create_review env req s = commit s do
  check (any (λ t. t.id == req.thread_id) s.threads) not_found
  let filled = fill_review env req
  t ← insert_review filled s
  ok (audit env ("requester:" +++ filled.requester_open_id) "review.create" filled.id t, filled)

-- The order, newest first by the stored text of `created_at`, is left out.
unfoldable pub list_reviews : String → Bool → Store → List ReviewRequest
list_reviews status include_archived s = select_rows wanted s.reviews
  where
    wanted : ReviewRequest → Bool
    wanted r =
        (status == "" || r.status == status)
        && (include_archived || status == "archived" || not (r.status == "archived"))

-- UPDATE review_requests SET f WHERE id
unfoldable pub set_review : String → (ReviewRequest → ReviewRequest) → Store → Store
set_review id f s = record s { reviews = update_rows (λ r. r.id == id) f s.reviews }

-- every column but the id, the thread and the time of creation
unfoldable pub update_review : Env → ReviewRequest → Store → Store × ReviewRequest
unfolding set_review audit
update_review env req s =
    let new = record req { updated_at = env.now } in
    (
      audit env "system" "review.update" req.id (
          set_review req.id
            (λ r. record new { id = r.id; thread_id = r.thread_id; created_at = r.created_at }) s),
      new,
    )

unfoldable pub set_review_result : Env → String → String → String → Store → Store
unfolding set_review
set_review_result env id verdict summary =
    set_review id (λ r. record r { verdict = verdict; summary = summary; updated_at = env.now })

unfoldable pub set_comments_posted : Env → String → Time → Store → Store
unfolding set_review
set_comments_posted env id t =
    set_review id (λ r. record r { comments_posted_at = t; updated_at = env.now })

unfoldable pub update_review_progress : Env → String → String → Store → Store
unfolding set_review
update_review_progress env id text =
    set_review id (λ r. record r { result_text = text; updated_at = env.now })

unfoldable pub update_review_outcome :
    Env → String → String → String → String → Time → Store → Store
unfolding set_review
update_review_outcome env id status text error completed = set_review id (λ r. record r {
  status = status;
  result_text = text;
  error = error;
  completed_at = completed;
  updated_at = env.now;
})
