-- ===== src/Store/Reactions.antt =====
-- The reviewer's reactions of internal/store/store.go.
use saturnus.Base.{
  String, ◌+++◌, List, [], ◌∷◌, ◌++◌, map, ◌==◌, if◌then◌else◌, or_text, or_number, any, Result, ok,
  err, not_found, constraint, commit, check, select_rows, update_rows, ◌>>=◌, ◌>>◌,
}
use saturnus.Store.Types.{Env, ReviewReaction, Store}

pub fill_reaction : Env → ReviewReaction → ReviewReaction
fill_reaction env reac = record reac {
  id = or_text reac.id ("rxn_" +++ env.new_id 0);
  status = or_text reac.status "pending";
  created_at = or_number reac.created_at env.now;
  updated_at = or_number reac.created_at env.now;
}

-- INSERT INTO review_reactions: the id is the primary key
insert_reaction : ReviewReaction → Store → Result Store
insert_reaction reac s =
    if any (λ r. r.id == reac.id) s.reactions
    then err constraint
    else ok (record s { reactions = s.reactions ++ reac ∷ [] })

unfoldable pub create_reaction : Env → ReviewReaction → Store → Store × Result ReviewReaction
unfolding fill_reaction insert_reaction
create_reaction env reac s = commit s do
  check (any (λ r. r.id == reac.review_id) s.reviews) not_found
  let filled = fill_reaction env reac
  t ← insert_reaction filled s
  ok (t, filled)

-- every column but the id, the review and the time of creation
unfoldable pub update_reaction : Env → ReviewReaction → Store → Store × ReviewReaction
update_reaction env reac s =
    let new = record reac { updated_at = env.now } in
    (
      record s {
        reactions =
            update_rows (λ r. r.id == reac.id)
              (λ r. record new { id = r.id; review_id = r.review_id; created_at = r.created_at })
              s.reactions;
      },
      new,
    )

unfoldable pub fail_interrupted_reactions : Env → Store → Store × List String
fail_interrupted_reactions env s = (
  record s {
    reactions =
        update_rows (λ r. r.status == "running")
          (λ r. record r {
            status = "failed";
            error = "interrupted by server restart";
            updated_at = env.now;
            completed_at = env.now;
          })
          s.reactions;
  },
  map (λ r. r.id) (select_rows (λ r. r.status == "running") s.reactions),
)

unfoldable pub list_pending_reactions : Store → List ReviewReaction
list_pending_reactions s = select_rows (λ r. r.status == "pending") s.reactions
