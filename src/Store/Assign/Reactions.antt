-- ===== src/Store/Assign/Reactions.antt =====
-- A reaction has one worker at a time.
use saturnus.Base.{
  ap, inl, inr, ℕ, String, ◌≡◌, sym, false, ◌==◌, some, arith, ok, err, not_pending, update_rows,
  count_rows, Option-cases, count-update_none, subst, ◌&&◌, update_none,
}
use saturnus.Store.Types.{Env, ReviewReaction, Store}
use saturnus.Store.Assign.{
  assign_reaction, claims_reaction, owns_reaction, get_reaction, update_reaction_outcome_by_worker,
}

abbrev claim_reaction : Env → String → ReviewReaction → ReviewReaction
claim_reaction env w r = record r { status = "running"; worker_id = w; updated_at = env.now }

abbrev given : Env → String → String → Store → Store
given env id w s = record s {
  reactions = update_rows (claims_reaction id) (claim_reaction env w) s.reactions;
}

given_inversion :
    (env : Env) (id w : String) (s t : Store) (r : ReviewReaction)
    → assign_reaction env id w s ≡ (t, ok r)
    → (t ≡ given env id w s) × (get_reaction id (given env id w s) ≡ some r)
unfolding assign_reaction
given_inversion env id w s t r h = elim (Option-cases (get_reaction id (given env id w s))) [
  | inl e ↦ absurd (ground (arith, e))
  | inr (a, e) ↦ (ground (arith, e), ground (arith, e))
]

given_once :
    (env : Env) (id w : String) (s : Store)
    → count_rows (claims_reaction id) (given env id w s).reactions ≡ 0
given_once env id w s =
    count-update_none (claims_reaction id) (claim_reaction env w) (claims_reaction id) s.reactions
      (λ r h. ground arith) (λ r h. h)

-- Whoever claims a reaction is the only one: from the store that a claim leaves, any other claim
-- of the reaction, by any worker, is refused as not pending and changes nothing.
pub assign_reaction_exclusive :
    (env env' : Env) (id w w' : String) (s t : Store) (r : ReviewReaction)
    → assign_reaction env id w s ≡ (t, ok r)
    → assign_reaction env' id w' t ≡ (t, err not_pending)
assign_reaction_exclusive env env' id w w' s t r h =
    let (made, now) = given_inversion env id w s t r h in
    subst (λ (u : Store). assign_reaction env' id w' u ≡ (u, err not_pending)) (sym made)
      (unfold assign_reaction in rw (given_once env id w s, now))

-- After a worker's outcome that is not running, no reaction of that id is running with it, and a
-- second outcome from it is not applied: it is answered false and changes nothing.
pub reaction_outcome_once :
    (env env' : Env) (id w status session result error status' session' result' error' : String)
    (at at' : ℕ) (s : Store)
    → (status == "running") ≡ false
    → let t = (update_reaction_outcome_by_worker env id w status session result error at s).0 in
      (count_rows (λ r. r.id == id && (r.status == "running" && r.worker_id == w)) t.reactions ≡ 0)
      × (update_reaction_outcome_by_worker env' id w status' session' result' error' at' t
          ≡ (t, false))
unfolding update_reaction_outcome_by_worker
reaction_outcome_once env env' id w status session result error status' session' result' error' at
      at' s h =
    let none_left =
      count-update_none (owns_reaction id w) _ (owns_reaction id w) s.reactions
        (λ r k. ground (arith, h)) (λ r k. k) in
    (
      none_left,
      rw none_left (
          ap (λ rs. (record s { reactions = rs }, false))
            (update_none (owns_reaction id w) _ _ none_left)),
    )
