-- ===== src/Store/Assign.antt =====
-- The conditional transitions of internal/store/workers.go: a pending review or reaction is
-- claimed for a worker, handed back, or finished by the worker that owns it.
pub mod Laws
pub mod Reactions
use saturnus.Base.{
  ℕ, String, Bool, true, false, ◌&&◌, Option, none, some, List, ◌==◌, if◌then◌else◌, eqb, Result,
  ok, err, Error, not_found, not_pending, find_row, select_rows, update_rows, count_rows, or_fail,
}
use saturnus.Store.Types.{Time, Env, ReviewRequest, ReviewReaction, Store}
use saturnus.Store.Reviews.{get_review, list_reviews}
use saturnus.Store.Runs.{owns_review}

-- why a claim that changed no row failed
abbrev missing_or {ℓ} : {A : Type ℓ} → Option A → Error
missing_or none = not_found
missing_or (some _) = not_pending

abbrev pub claims_review : String → ReviewRequest → Bool
claims_review id r = r.id == id && r.status == "pending"

abbrev pub claim_review : Env → String → ReviewRequest → ReviewRequest
claim_review env worker_id r = record r {
  status = "reviewing";
  worker_id = worker_id;
  verdict = "";
  summary = "";
  updated_at = env.now;
}

unfoldable pub assign_review : Env → String → String → Store → Store × Result ReviewRequest
assign_review env review_id worker_id s =
    let t = record s {
      reviews = update_rows (claims_review review_id) (claim_review env worker_id) s.reviews;
    } in
    if eqb (count_rows (claims_review review_id) s.reviews) 0
    then (s, err (missing_or (get_review review_id s)))
    else (t, or_fail (get_review review_id t) not_found)

abbrev pub release_review : Env → ReviewRequest → ReviewRequest
release_review env r = record r { status = "pending"; worker_id = ""; updated_at = env.now }

unfoldable pub requeue_review : Env → String → String → Store → Store × Result (Unit {0})
requeue_review env review_id worker_id s =
    if eqb (count_rows (owns_review review_id worker_id) s.reviews) 0
    then (s, err not_pending)
    else (
      record s {
        reviews = update_rows (owns_review review_id worker_id) (release_review env) s.reviews;
      },
      ok tt,
    )

unfoldable pub list_reviewing : Store → List ReviewRequest
list_reviewing = list_reviews "reviewing" false

-- Reports whether the one row was still owned.
unfoldable pub update_review_outcome_by_worker :
    Env → String → String → String → String → String → String → String → Time → Store → Store × Bool
update_review_outcome_by_worker env review_id worker_id status head_commit session_id result_text
      error_text completed_at s =
    (
      record s { reviews = update_rows (owns_review review_id worker_id) finish s.reviews },
      eqb (count_rows (owns_review review_id worker_id) s.reviews) 1,
    )
  where
    finish : ReviewRequest → ReviewRequest
    finish r = record r {
      status = status;
      head_commit = head_commit;
      pr_head_commit = head_commit;
      session_id = session_id;
      retry_reason = "";
      result_text = result_text;
      error = error_text;
      completed_at = completed_at;
      updated_at = env.now;
    }

unfoldable pub get_reaction : String → Store → Option ReviewReaction
get_reaction id s = find_row (λ r. r.id == id) s.reactions

abbrev pub claims_reaction : String → ReviewReaction → Bool
claims_reaction id r = r.id == id && r.status == "pending"

abbrev pub owns_reaction : String → String → ReviewReaction → Bool
owns_reaction id worker_id r = r.id == id && (r.status == "running" && r.worker_id == worker_id)

unfoldable pub assign_reaction : Env → String → String → Store → Store × Result ReviewReaction
assign_reaction env reaction_id worker_id s =
    let t = record s {
      reactions =
          update_rows (claims_reaction reaction_id)
            (λ r. record r { status = "running"; worker_id = worker_id; updated_at = env.now })
            s.reactions;
    } in
    if eqb (count_rows (claims_reaction reaction_id) s.reactions) 0
    then (s, err (missing_or (get_reaction reaction_id s)))
    else (t, or_fail (get_reaction reaction_id t) not_found)

unfoldable pub update_reaction_outcome_by_worker :
    Env → String → String → String → String → String → String → Time → Store → Store × Bool
update_reaction_outcome_by_worker env reaction_id worker_id status session_id result_text error_text
      completed_at s =
    (
      record s { reactions = update_rows (owns_reaction reaction_id worker_id) finish s.reactions },
      eqb (count_rows (owns_reaction reaction_id worker_id) s.reactions) 1,
    )
  where
    finish : ReviewReaction → ReviewReaction
    finish r = record r {
      status = status;
      session_id = session_id;
      result_text = result_text;
      error = error_text;
      completed_at = completed_at;
      updated_at = env.now;
    }

unfoldable pub requeue_reaction : Env → String → String → Store → Store × Result (Unit {0})
requeue_reaction env reaction_id worker_id s =
    if eqb (count_rows (owns_reaction reaction_id worker_id) s.reactions) 0
    then (s, err not_pending)
    else (
      record s {
        reactions =
            update_rows (owns_reaction reaction_id worker_id)
              (λ r. record r { status = "pending"; worker_id = ""; updated_at = env.now })
              s.reactions;
      },
      ok tt,
    )

-- The order, oldest first by the stored text of `created_at`, is left out.
unfoldable pub list_running_reactions : Store → List ReviewReaction
list_running_reactions s = select_rows (λ r. r.status == "running") s.reactions
