-- ===== src/Store/Threads.antt =====
-- Review threads and lookups of reviews by thread or pull request, internal/store/store.go.
use saturnus.Base.{
  ℕ, String, ◌+++◌, Bool, not, ◌&&◌, ◌||◌, Option, none, some, List, [], ◌∷◌, ◌++◌, ◌==◌, or_text,
  eqb, if◌then◌else◌, any, member, Result, ok, constraint, commit, check, insert_row, find_row,
  select_rows, update_rows, last_row, ◌>>=◌, ◌>>◌,
}
use saturnus.Store.Types.{
  Env, ReviewThread, ThreadLink, ReviewRequest, ReviewRun, ReviewReaction, Store,
}

-- the loop of mergeParticipants, after those seen
unfoldable pub merge_loop : List String → List String → List String
merge_loop seen [] = []
merge_loop seen (p ∷ ps) =
    let skipped = merge_loop seen ps in
    let kept = merge_loop (p ∷ seen) ps in if p == "" || member p seen then skipped else p ∷ kept

unfoldable pub merge_participants : List String → List String → List String
merge_participants existing extra = merge_loop [] (existing ++ extra)

abbrev pub rooted : String → String → ReviewThread → Bool
rooted chat_id root t = t.chat_id == chat_id && t.root_message_id == root

abbrev pub new_thread : Env → String → String → String → List String → ReviewThread
new_thread env chat_id root topic participants = record {
  id = "thr_" +++ env.new_id 0;
  chat_id = chat_id;
  root_message_id = root;
  topic = topic;
  participants = merge_participants [] participants;
  last_message_at = env.now;
  created_at = env.now;
}

-- The thread that is answered keeps its old topic, though a new one is stored. (chat_id,
-- root_message_id) is a unique index, which the search before the insert has already tried.
unfoldable pub get_or_create_review_thread :
    Env → String → String → String → List String → Store → Store × Result ReviewThread
get_or_create_review_thread env chat_id root topic participants s =
    elim (find_row (rooted chat_id root) s.threads) [
      | some thread ↦
          let merged = merge_participants thread.participants participants in
          (
            record s {
              threads =
                  update_rows (λ t. t.id == thread.id)
                    (λ t. record t {
                      topic = or_text topic thread.topic;
                      participants = merged;
                      last_message_at = env.now;
                    })
                    s.threads;
            },
            ok (record thread { participants = merged; last_message_at = env.now }),
          )
      | none ↦ commit s do
        let thread = new_thread env chat_id root topic participants
        threads ← insert_row (λ t. t.id == thread.id) thread s.threads
        ok (record s { threads = threads }, thread)
    ]

unfoldable pub get_thread : String → Store → Option ReviewThread
get_thread id s = find_row (λ t. t.id == id) s.threads

abbrev pub linked : String → String → ThreadLink → Bool
linked review_id thread_id l = l.review_id == review_id && l.thread_id == thread_id

-- The review and the thread are foreign keys.
unfoldable pub link_review_thread : Env → String → String → Store → Store × Result (Unit {0})
link_review_thread env review_id thread_id s =
    if review_id == "" || thread_id == ""
    then (s, ok tt)
    else commit s do
      let link : ThreadLink = record {
        review_id = review_id;
        thread_id = thread_id;
        linked_at = env.now;
      }
      check (any (λ r. r.id == review_id) s.reviews && any (λ t. t.id == thread_id) s.threads)
          constraint
      ok (
        record s {
          thread_links =
              if any (linked review_id thread_id) s.thread_links
              then update_rows (linked review_id thread_id) (λ l. record l { linked_at = env.now })
                  s.thread_links
              else s.thread_links ++ link ∷ [];
        },
        tt,
      )

-- The order, by the stored text of `last_message_at`, is left out.
unfoldable pub list_review_threads : String → Store → List ReviewThread
list_review_threads review_id s =
    select_rows (λ t. any (linked review_id t.id) s.thread_links) s.threads

unfoldable pub get_review_by_pr : String → ℕ → Store → Option ReviewRequest
get_review_by_pr repo pr_number s =
    last_row (λ r. r.created_at) (λ r. r.repo == repo && eqb r.pr_number pr_number) s.reviews

unfoldable pub get_latest_review_by_thread : String → String → Store → Option ReviewRequest
get_latest_review_by_thread chat_id root s =
    last_row (λ r. r.created_at)
      (λ r.
        any (λ t. t.id == r.thread_id && rooted chat_id root t) s.threads
        && not (r.status == "archived"))
      s.reviews

-- The order of the runs, by `seq`, is that of their insertion.
unfoldable pub list_runs : String → Store → List ReviewRun
list_runs review_id s = select_rows (λ r. r.review_id == review_id) s.runs

-- The order, by the stored text of `created_at`, is left out.
unfoldable pub list_reactions : String → Store → List ReviewReaction
list_reactions review_id s = select_rows (λ r. r.review_id == review_id) s.reactions
