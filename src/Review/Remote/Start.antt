-- ===== src/Review/Remote/Start.antt =====
-- A remote start: the claim makes room for one run, and the run is the only one running.
use saturnus.Base.{
  Error, eqb, ℕ, ◌≤◌, String, ◌+++◌, ◌≡◌, refl, ap, sym, ◌∙◌, inl, inr, Bool, false, Option, none,
  some, [], ◌∷◌, ◌++◌, ◌==◌, arith, eq_iff, if◌then◌else◌, Keyed-update, Keyed-append, All-append,
  count_rows, update_rows, touch, find_row, Bool-cases, eq_excludes, and_left, and_right,
  ne→eq_false, any-find_none, find-update, subst, Result-cases, ok, err, find_row_holds, or_text,
}
use mathlib.Core.Option
use Prim.Native.String.{len}
use text.Mathlib.TextPositions.{len-append}
use saturnus.Store.Types.{Env, ReviewRequest, ReviewRun, Store}
use saturnus.Store.Reviews.{get_review}
use saturnus.Store.Runs.{is_running, create_review_run, owns_review, fill_run}
use saturnus.Store.Runs.Laws.{create_run_inversion}
use saturnus.Store.Assign.{
  assign_review, requeue_review, claims_review, claim_review, release_review,
}
use saturnus.Store.Assign.Laws.{assign_inversion, assign_effect}
use saturnus.Review.Remote.{
  JobPayload, Outside, Config, start_remote, prepare, claimed, started, remote_run,
}
use saturnus.Review.Remote.Running.{count-append}
use saturnus.Review.Remote.Invariant.{busy, busy_of, busy-same, Consistent, settle-Consistent}

busy-claim :
    (env : Env) (id w : String) (o : Option ReviewRequest)
    → busy_of o ≤ busy_of (Option.map (touch (claims_review id) (claim_review env w)) o)
unfolding busy_of
busy-claim env id w none = omega arith
busy-claim env id w (some r) = elim (Bool-cases (claims_review id r)) [
  | inl e ↦
      rw (e, eq_excludes r.status "pending" "reviewing" (and_right (r.id == id) _ e) refl)
        (omega arith)
  | inr e ↦ rw e (omega arith)
]

claim-Consistent :
    (env : Env) (id w : String) (s : Store)
    → Consistent s
    → Consistent
        (record s { reviews = update_rows (claims_review id) (claim_review env w) s.reviews })
unfolding busy get_review
claim-Consistent env id w s c = record {
  review_ids =
      Keyed-update (λ r. r.id) (claims_review id) (claim_review env w) s.reviews (λ a. refl)
        c.review_ids;
  run_ids = c.run_ids;
  run_named = c.run_named;
  one_run = λ j. omega (
    arith,
    c.one_run j,
    busy-claim env id w (find_row (λ r. r.id == j) s.reviews),
    ap busy_of (
        find-update (claims_review id) (claim_review env w) (λ r. r.id == j) s.reviews (λ a. refl)),
  );
}

-- What a claim leaves for the run to come.
record Claimed (id w : String) (s t : Store) (r : ReviewRequest) : Type 0 where
  pub consistent : Consistent t
  pub idle : count_rows (is_running id) t.runs ≡ 0
  pub active : busy id t ≡ 1
  pub same_id : r.id ≡ id

assign-Claimed :
    (env : Env) (id w : String) (s t : Store) (r : ReviewRequest)
    → Consistent s
    → assign_review env id w s ≡ (t, ok r)
    → Claimed id w s t r
unfolding busy busy_of get_review
assign-Claimed env id w s t r c h =
    let (_, made, _) = assign_inversion env id w s t r h in
    let (old, was, pending, is, now) = assign_effect env id w s t r c.review_ids h in
    let before : busy id s ≡ 0 =
      ap busy_of was ∙ ap (λ x. if x == "reviewing" then 1 else 0) pending in
    record {
      consistent = subst Consistent (sym made) (claim-Consistent env id w s c);
      idle =
          ap (λ (u : Store). count_rows (is_running id) u.runs) made
          ∙ omega (arith, c.one_run id, before);
      active = ap busy_of now ∙ ap (λ x. busy_of (some x)) is;
      same_id = (eq_iff _ _).0 (find_row_holds (λ x. x.id == id) t.reviews r now);
    }

named : (x : String) → (("run_" +++ x) == "") ≡ false
named x = ne→eq_false ("run_" +++ x) "" λ e. absurd (omega (arith, ap len e, len-append "run_" x))

named_or : (run_id x : String) → (or_text run_id ("run_" +++ x) == "") ≡ false
named_or run_id x = elim (Bool-cases (run_id == "")) [ inl e ↦ rw e (named x) | inr e ↦ rw e e ]

review_of_fill :
    (env : Env) (run : ReviewRun) (s : Store) → (fill_run env run s).review_id ≡ run.review_id
unfolding fill_run
review_of_fill env run s = refl

if_eq : {b c : Bool} → b ≡ c → ◌≡◌ {A = ℕ} (if b then 1 else 0) (if c then 1 else 0)
if_eq e = ap (λ b. if b then 1 else 0) e

-- A running run is added to an idle review that is reviewing.
create-Consistent :
    (env : Env) (run : ReviewRun) (s t : Store) (r : ReviewRun)
    → Consistent s
    → count_rows (is_running run.review_id) s.runs ≡ 0
    → busy run.review_id s ≡ 1
    → create_review_run env run s ≡ (t, ok r)
    → Consistent t
create-Consistent env run s t r c idle active h =
    let (is, fresh, made) = create_run_inversion env run s t r h in
    subst Consistent made (record {
      review_ids = c.review_ids;
      run_ids =
          Keyed-append (λ x. x.id) s.runs r c.run_ids
            (any-find_none (λ x. x.id == r.id) s.runs fresh);
      run_named =
          All-append (λ x. (x.id == "") ≡ false) s.runs r c.run_named
            (subst (λ (x : ReviewRun). (x.id == "") ≡ false) is
              (unfold fill_run in named_or run.id (env.new_id 0)));
      one_run = λ j. elim (Bool-cases (is_running j r)) [
        | inr e ↦ omega (
          arith,
          c.one_run j,
          count-append (is_running j) s.runs r,
          if_eq e,
          busy-same j s (record s { runs = s.runs ++ r ∷ [] }) refl,
        )
        | inl e ↦
            let at : run.review_id ≡ j =
              sym (review_of_fill env run s)
              ∙ ap (λ (x : ReviewRun). x.review_id) is
              ∙ (eq_iff _ _).0 (and_left _ _ e) in
            omega (
              arith,
              count-append (is_running j) s.runs r,
              if_eq e,
              subst (λ i. count_rows (is_running i) s.runs ≡ 0) at idle,
              subst (λ i. busy i s ≡ 1) at active,
              busy-same j s (record s { runs = s.runs ++ r ∷ [] }) refl,
            )
      ];
    })

-- Handing back a review with no running run.
requeue-Consistent :
    (env : Env) (id w : String) (s : Store)
    → Consistent s
    → count_rows (is_running id) s.runs ≡ 0
    → Consistent (requeue_review env id w s).0
unfolding requeue_review
requeue-Consistent env id w s c idle =
    elim (Bool-cases (eqb (count_rows (owns_review id w) s.reviews) 0)) [
      | inl e ↦ rw e c
      | inr e ↦ rw e (
          settle-Consistent id (owns_review id w) (release_review env) s.runs s
            (λ r h. and_left _ _ h) (λ r. refl) c c.run_ids c.run_named (λ j. omega arith) idle)
    ]

assign-Consistent :
    (env : Env) (id w : String) (s : Store) → Consistent s → Consistent (assign_review env id w s).0
unfolding assign_review
assign-Consistent env id w s c =
    elim (Bool-cases (eqb (count_rows (claims_review id) s.reviews) 0)) [
      | inl e ↦ rw e c
      | inr e ↦ rw e (claim-Consistent env id w s c)
    ]

pub create_error :
    (env : Env) (run : ReviewRun) (s : Store) (e : Error)
    → (create_review_run env run s).1 ≡ err e
    → (create_review_run env run s).0 ≡ s
unfolding create_review_run
create_error env run s e h = ground arith

module _ (out : Outside) (cfg : Config) where
  started-Consistent :
      (env : Env) (id w : String) (payload : JobPayload) (r : ReviewRequest) (s : Store)
      → r.id ≡ id
      → Consistent s
      → count_rows (is_running id) s.runs ≡ 0
      → busy id s ≡ 1
      → Consistent
          (started out cfg env id w payload (create_review_run env (remote_run out cfg r w) s)).0
  unfolding started
  started-Consistent env id w payload r s same c idle active =
      let run = remote_run out cfg r w in
      let result = create_review_run env run s in
      elim (Result-cases result.1) [
        | inl (x, e) ↦
            let h : result ≡ (result.0, ok x) = ap (λ y. (result.0, y)) e in
            rw h (
              create-Consistent env run s result.0 x c
                (ap (λ i. count_rows (is_running i) s.runs) same ∙ idle)
                (ap (λ i. busy i s) same ∙ active) h)
        | inr (x, e) ↦
            let h : result ≡ (s, err x) =
              ap (λ y. (result.0, y)) e ∙ ap (λ y. (y, err x)) (create_error env run s x e) in
            rw h (requeue-Consistent env id w s c idle)
      ]

  -- A remote start keeps reviews and runs consistent, whether it succeeds or fails at any point.
  pub start_remote-Consistent :
      (env : Env) (req : ReviewRequest) (w : String) (s : Store)
      → Consistent s
      → Consistent (start_remote out cfg env req w s).0
  unfolding start_remote claimed
  start_remote-Consistent env req w s c = elim (Result-cases (prepare out cfg req.id w s)) [
    | inr (x, e) ↦ rw (e, start_remote) c
    | inl (payload, e) ↦
        let result = assign_review env req.id w s in
        elim (Result-cases result.1) [
          | inr (x, f) ↦
              let h : result ≡ (result.0, err x) = ap (λ y. (result.0, y)) f in
              rw (e, start_remote) (rw h (assign-Consistent env req.id w s c))
          | inl (r, f) ↦
              let h : result ≡ (result.0, ok r) = ap (λ y. (result.0, y)) f in
              let k = assign-Claimed env req.id w s result.0 r c h in
              rw (e, start_remote)
                (rw h (
                  started-Consistent env req.id w payload r result.0 k.same_id k.consistent k.idle
                    k.active))
        ]
  ]
