-- ===== src/Store/Contexts.antt =====
-- The tool-session contexts of internal/store/review_context.go.
pub mod Laws
use saturnus.Base.{
  ℕ, ◌+◌, String, ◌+++◌, Bool, true, false, not, ◌&&◌, ◌||◌, Option, none, some, List, [], ◌∷◌,
  ◌++◌, ◌==◌, if◌then◌else◌, eqb, Result, ok, err, Error, not_found, not_pending, context_busy,
  context_archived, commit, check, find_row, update_rows, count_rows, any, or_fail, ◌>>=◌, ◌>>◌,
}
use saturnus.Store.Types.{Time, Env, ReviewRequest, ReviewContext, Store}
use saturnus.Store.Approvals.{audit}
use saturnus.Store.Reviews.{get_review, set_review}
use saturnus.Store.Runs.{is_running}

context_of : Option ReviewContext → String
context_of none = ""
context_of (some c) = c.context_id

unfoldable pub review_context_id : String → Store → String
unfolding context_of
review_context_id review_id s = context_of (find_row (λ c. c.review_id == review_id) s.contexts)

-- INSERT … ON CONFLICT(review_id) DO UPDATE
upsert_context : ReviewContext → Store → Store
upsert_context c s =
    if any (λ x. x.review_id == c.review_id) s.contexts
    then record s { contexts = update_rows (λ x. x.review_id == c.review_id) (λ x. c) s.contexts }
    else record s { contexts = s.contexts ++ c ∷ [] }

-- the review's pending and running reactions, and its running runs
abbrev pub active_work : String → Store → ℕ
active_work review_id s =
    count_rows (λ r. r.review_id == review_id && (r.status == "pending" || r.status == "running"))
      s.reactions
    + count_rows (is_running review_id) s.runs

abbrev pub reset_review : Env → ReviewRequest → ReviewRequest
reset_review env r = record r {
  session_id = "";
  status = "pending";
  result_text = "";
  error = "";
  verdict = "";
  summary = "";
  completed_at = 0;
  comments_posted_at = 0;
  retry_reason = "review context reset";
  updated_at = env.now;
}

abbrev new_context : Env → String → String → ReviewContext
new_context env review_id actor = record {
  review_id = review_id;
  context_id = "ctx_" +++ env.new_id 0;
  reset_by = actor;
  reset_at = env.now;
}

-- what `ResetReviewContext` does inside its transaction
reset_tx : Env → String → String → Store → Result (Store × (ReviewRequest × String))
unfolding upsert_context set_review audit
reset_tx env review_id actor s = do
  req ← or_fail (get_review review_id s) not_found
  check (not (req.status == "pending" || req.status == "reviewing")) context_busy
  check (not (req.status == "archived")) context_archived
  check (eqb (active_work review_id s) 0) context_busy
  ok (
    audit env actor "review.context_reset" review_id (
        set_review review_id (reset_review env)
          (upsert_context (new_context env review_id actor) s)),
    (reset_review env req, (new_context env review_id actor).context_id),
  )

unfoldable pub reset_review_context :
    Env → String → String → Store → Store × Result (ReviewRequest × String)
unfolding reset_tx
reset_review_context env review_id actor s = commit s (reset_tx env review_id actor s)

unfoldable pub set_review_session : Env → String → String → Store → Store × Result (Unit {0})
set_review_session env review_id session_id s =
    let p : ReviewRequest → Bool = λ r. r.id == review_id && r.status == "reviewing" in
    if eqb (count_rows p s.reviews) 0 then (s, err not_pending) else (
      record s {
        reviews =
            update_rows p (λ r. record r { session_id = session_id; updated_at = env.now })
              s.reviews;
      },
      ok tt,
    )
