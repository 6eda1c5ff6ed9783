-- ===== src/Server/Scheduler/Dispatch/Clears.antt =====
-- What is left with a worker after the sweep that follows its reconnect.
use saturnus.Base.{
  String, Bool, true, false, not, ◌&&◌, ◌==◌, List, [], ◌∷◌, ◌≡◌, refl, sym, ap, ◌∙◌, inl, inr,
  Bool-cases, Option-cases, if◌then◌else◌, member, arith, subst, any, All, All-map, update_rows,
  update_none, select_rows, count_rows, eqb, and_left, eq_refl, eq_sym, eq_excludes,
}
use saturnus.Store.Types.{Env, ReviewRequest, ReviewReaction, Store}
use saturnus.Store.Reviews.{list_reviews}
use saturnus.Store.Runs.{owns_review, current_run, update_review_run}
use saturnus.Store.Assign.{
  requeue_review, requeue_reaction, release_review, list_reviewing, list_running_reactions,
}
use saturnus.Review.Remote.{Outside, Config, requeue_for_orphan}
use saturnus.Server.Scheduler.{Host}
use saturnus.Server.Scheduler.Dispatch.{reconcile_worker, requeue_lost, requeue_lost_reactions}

All-touch {ℓ} :
    {A : Type ℓ} (P Q : A → Type 0) (p : A → Bool) (f : A → A) (xs : List A)
    → ((a : A) → p a ≡ true → P a → Q (f a))
    → ((a : A) → p a ≡ false → P a → Q a)
    → All P xs
    → All Q (update_rows p f xs)
All-touch P Q p f [] h k all = tt
All-touch P Q p f (x ∷ xs) h k all = elim (Bool-cases (p x)) [
  | inl e ↦ (rw e (h x e all.0), All-touch P Q p f xs h k all.1)
  | inr e ↦ (rw e (k x e all.0), All-touch P Q p f xs h k all.1)
]

any-select_more :
    (q p : ReviewRequest → Bool) (x : ReviewRequest) (xs : List ReviewRequest)
    → any q (select_rows p xs) ≡ true
    → any q (select_rows p (x ∷ xs)) ≡ true
any-select_more q p x xs h = ground (arith, h)

selects_own :
    (l p : ReviewRequest → Bool) (q : ReviewRequest → ReviewRequest → Bool)
    (xs : List ReviewRequest)
    → ((r : ReviewRequest) → l r ≡ true → p r ≡ true)
    → ((r : ReviewRequest) → l r ≡ true → q r r ≡ true)
    → All (λ r. l r ≡ true → any (q r) (select_rows p xs) ≡ true) xs
selects_own l p q [] h k = tt
selects_own l p q (x ∷ xs) h k = (
  (λ e. rw (h x e) (cc (k x e))),
  All-map (λ r. l r ≡ true → any (q r) (select_rows p xs) ≡ true)
      (λ r. l r ≡ true → any (q r) (select_rows p (x ∷ xs)) ≡ true) xs
      (λ r f e. any-select_more (q r) p x xs (f e)) (selects_own l p q xs h k),
)

-- The review is with the worker, who does not report it.
abbrev pub is_lost : String → List String → ReviewRequest → Bool
is_lost w in_flight r = r.status == "reviewing" && (r.worker_id == w && not (member r.id in_flight))

-- a snapshot of the review that the loop hands back
abbrev goes : String → List String → ReviewRequest → ReviewRequest → Bool
goes w in_flight r x = x.id == r.id && (x.worker_id == w && not (member x.id in_flight))

module _ (host : Host) (out : Outside) (cfg : Config) where
  pub requeue-reviews :
      (env : Env) (id w reason : String) (s : Store)
      → (requeue_for_orphan out cfg env id w reason s).0.reviews
        ≡ update_rows (owns_review id w) (release_review env) s.reviews
  unfolding requeue_for_orphan requeue_review update_review_run
  requeue-reviews env id w reason s =
      elim (Bool-cases (eqb (count_rows (owns_review id w) s.reviews) 0)) [
        | inl e ↦ rw e (
            sym (update_none (owns_review id w) (release_review env) s.reviews (ground (arith, e))))
        | inr e ↦
            let t = record s {
              reviews = update_rows (owns_review id w) (release_review env) s.reviews;
            } in
            elim (Option-cases (current_run id t)) [
              | inl f ↦ rw (e, f) refl
              | inr (run, f) ↦ rw (e, f) refl
            ]
      ]

  abbrev Covered : String → List String → List ReviewRequest → List ReviewRequest → Type 0
  Covered w in_flight rs rows =
      All (λ r. is_lost w in_flight r ≡ true → any (goes w in_flight r) rs ≡ true) rows

  handed_back :
      (env : Env) (w : String) (in_flight : List String) (x : ReviewRequest)
      (rs rows : List ReviewRequest)
      → Covered w in_flight (x ∷ rs) rows
      → Covered w in_flight rs (update_rows (owns_review x.id w) (release_review env) rows)
  handed_back env w in_flight x rs rows h =
      All-touch (λ r. is_lost w in_flight r ≡ true → any (goes w in_flight r) (x ∷ rs) ≡ true)
        (λ r. is_lost w in_flight r ≡ true → any (goes w in_flight r) rs ≡ true)
        (owns_review x.id w) (release_review env) rows (λ r e f k. absurd (cc k))
        (λ r e f k. ground (arith, f k, eq_sym x.id r.id, e, k)) h

  kept :
      (w : String) (in_flight : List String) (x : ReviewRequest) (rs rows : List ReviewRequest)
      → (x.worker_id == w && not (member x.id in_flight)) ≡ false
      → Covered w in_flight (x ∷ rs) rows
      → Covered w in_flight rs rows
  kept w in_flight x rs rows e h =
      All-map (λ r. is_lost w in_flight r ≡ true → any (goes w in_flight r) (x ∷ rs) ≡ true)
        (λ r. is_lost w in_flight r ≡ true → any (goes w in_flight r) rs ≡ true) rows
        (λ r f k. ground (arith, f k, e)) h

  lost-cleared :
      (env : Env) (w : String) (in_flight : List String) (rs : List ReviewRequest) (s : Store)
      → Covered w in_flight rs s.reviews
      → All
          (λ r. is_lost w in_flight r ≡ false)
          (requeue_lost host out cfg env w in_flight rs s).reviews
  unfolding requeue_lost
  lost-cleared env w in_flight [] s h =
      All-map (λ r. is_lost w in_flight r ≡ true → any (goes w in_flight r) [] ≡ true)
        (λ r. is_lost w in_flight r ≡ false) s.reviews
        (λ r f. elim (Bool-cases (is_lost w in_flight r)) [ inl e ↦ absurd (cc (f e)) | inr e ↦ e ])
        h
  lost-cleared env w in_flight (x ∷ rs) s h =
      let reason : String = "worker no longer running job after reconnect" in
      let t = (requeue_for_orphan out cfg env x.id w reason s).0 in
      let cleared = λ (u : Store). All (λ r. is_lost w in_flight r ≡ false) u.reviews in
      elim (Bool-cases (x.worker_id == w && not (member x.id in_flight))) [
        | inl e ↦
            subst cleared
              (sym (ap (λ b. requeue_lost host out cfg env w in_flight rs (if b then t else s)) e))
              (lost-cleared env w in_flight rs t (
                subst (Covered w in_flight rs) (sym (requeue-reviews env x.id w reason s))
                  (handed_back env w in_flight x rs s.reviews h)))
        | inr e ↦
            subst cleared
              (sym (ap (λ b. requeue_lost host out cfg env w in_flight rs (if b then t else s)) e))
              (lost-cleared env w in_flight rs s (kept w in_flight x rs s.reviews e h))
      ]

  reaction-reviews :
      (env : Env) (id w : String) (s : Store) → (requeue_reaction env id w s).0.reviews ≡ s.reviews
  unfolding requeue_reaction
  reaction-reviews env id w s = ground arith

  pub reactions-reviews :
      (env : Env) (w : String) (in_flight : List String) (rs : List ReviewReaction) (s : Store)
      → (requeue_lost_reactions host out cfg env w in_flight rs s).reviews ≡ s.reviews
  unfolding requeue_lost_reactions
  reactions-reviews env w in_flight [] s = refl
  reactions-reviews env w in_flight (r ∷ rs) s =
      elim (Bool-cases (r.worker_id == w && not (member r.review_id in_flight))) [
        | inl e ↦
            rw (e, requeue_lost_reactions)
              (reactions-reviews env w in_flight rs (requeue_reaction env r.id w s).0
                ∙ reaction-reviews env r.id w s)
        | inr e ↦ rw (e, requeue_lost_reactions) (reactions-reviews env w in_flight rs s)
      ]

  listed :
      (w : String) (in_flight : List String) (s : Store)
      → Covered w in_flight (list_reviewing s) s.reviews
  unfolding list_reviewing list_reviews
  listed w in_flight s =
      selects_own (is_lost w in_flight) _ (goes w in_flight) s.reviews
        (λ r h.
          let e =
            and_left (r.status == "reviewing") (r.worker_id == w && not (member r.id in_flight))
              h in
          ground (arith, e, eq_excludes r.status "reviewing" "archived" e refl))
        (λ r h. ground (arith, h, eq_refl r.id))

  -- After the sweep that follows a worker's hello, no review is with the worker, as reviewing,
  -- that the worker did not report.
  pub reconcile_worker_clears :
      (env : Env) (w : String) (in_flight : List String) (s : Store)
      → All
          (λ r. is_lost w in_flight r ≡ false)
          (reconcile_worker host out cfg env w in_flight s).reviews
  unfolding reconcile_worker
  reconcile_worker_clears env w in_flight s =
      let t = requeue_lost host out cfg env w in_flight (list_reviewing s) s in
      subst (All (λ r. is_lost w in_flight r ≡ false))
        (sym (reactions-reviews env w in_flight (list_running_reactions t) t))
        (lost-cleared env w in_flight (list_reviewing s) s (listed w in_flight s))
