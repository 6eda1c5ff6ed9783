-- ===== src/Examples/Reactions.antt =====
-- A reaction that is claimed and finished, on concrete rows.
use saturnus.Base.{count_rows, ◌==◌, ◌&&◌, ◌≡◌, refl, false, ok, err, not_pending, [], ◌∷◌}
use saturnus.Store.Types.{ReviewReaction, Store}
use saturnus.Store.Assign.{assign_reaction, get_reaction, update_reaction_outcome_by_worker}
use saturnus.Store.Assign.Reactions.{assign_reaction_exclusive, reaction_outcome_once}
use saturnus.Examples.Rows.{monday, tuesday, small}

abbrev waiting : ReviewReaction
waiting = record {
  id = "rxn1";
  review_id = "rev1";
  instruction = "explain";
  status = "pending";
  chat_id = "";
  message_id = "";
  sender_open_id = "";
  sender_name = "";
  session_id = "";
  worker_id = "";
  result_text = "";
  error = "";
  created_at = 5;
  updated_at = 5;
  completed_at = 0;
}

abbrev asked_store : Store
asked_store = record small { reactions = waiting ∷ [] }

abbrev taken : ReviewReaction
taken = record waiting { status = "running"; worker_id = "w1"; updated_at = 100 }

abbrev taken_store : Store
taken_store = (assign_reaction monday "rxn1" "w1" asked_store).0

taken_now : assign_reaction monday "rxn1" "w1" asked_store ≡ (taken_store, ok taken)
unfolding assign_reaction get_reaction
taken_now = refl

assign_reaction_exclusive_example :
    assign_reaction tuesday "rxn1" "w2" taken_store ≡ (taken_store, err not_pending)
assign_reaction_exclusive_example =
    assign_reaction_exclusive monday tuesday "rxn1" "w1" "w2" asked_store taken_store taken
      taken_now

abbrev told_store : Store
told_store =
    (update_reaction_outcome_by_worker monday "rxn1" "w1" "succeeded" "ses" "done" "" 150
      taken_store).0

reaction_outcome_once_example :
    (count_rows
        (λ r. r.id == "rxn1" && (r.status == "running" && r.worker_id == "w1"))
        told_store.reactions
      ≡ 0)
    × (update_reaction_outcome_by_worker tuesday "rxn1" "w1" "failed" "" "" "late" 210 told_store
        ≡ (told_store, false))
reaction_outcome_once_example =
    reaction_outcome_once monday tuesday "rxn1" "w1" "succeeded" "ses" "done" "" "failed" "" ""
      "late" 150 210 taken_store refl
