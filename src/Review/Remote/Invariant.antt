-- ===== src/Review/Remote/Invariant.antt =====
-- The tables of reviews and runs agree: at most one run of a review is running, and only while the
-- review is reviewing.
use saturnus.Base.{
  ℕ, ◌≤◌, String, ◌≡◌, refl, ap, sym, ◌∙◌, Bool, true, false, Option, none, some, List, ◌==◌, arith,
  eq_iff, if◌then◌else◌, Keyed, Keyed-update, inl, inr, All, All-update, count_rows, update_rows,
  touch, find_row, Bool-cases, find-update, find-update_other, subst,
}
use mathlib.Core.Option
use saturnus.Store.Types.{ReviewRequest, ReviewRun, Store}
use saturnus.Store.Reviews.{get_review}
use saturnus.Review.Remote.Running.{count-update-le}
use saturnus.Store.Runs.{is_running}

-- 1 while the review is reviewing, else 0
unfoldable pub busy_of : Option ReviewRequest → ℕ
busy_of none = 0
busy_of (some r) = if r.status == "reviewing" then 1 else 0

unfoldable pub busy : String → Store → ℕ
unfolding busy_of
busy id s = busy_of (get_review id s)

pub record Consistent (s : Store) : Type 0 where
  pub review_ids : Keyed (λ r. r.id) s.reviews
  pub run_ids : Keyed (λ r. r.id) s.runs
  pub run_named : All (λ r. (r.id == "") ≡ false) s.runs
  pub one_run : (id : String) → count_rows (is_running id) s.runs ≤ busy id s

pub busy-same : (id : String) (s t : Store) → t.reviews ≡ s.reviews → busy id t ≡ busy id s
unfolding busy get_review
busy-same id s t e = ap (λ (rows : List ReviewRequest). busy_of (find_row (λ r. r.id == id) rows)) e

-- Only the review `id` changes, and it has no running run afterwards.
pub settle-Consistent :
    (id : String) (p : ReviewRequest → Bool) (f : ReviewRequest → ReviewRequest)
    (runs : List ReviewRun) (s : Store)
    → ((r : ReviewRequest) → p r ≡ true → (r.id == id) ≡ true)
    → ((r : ReviewRequest) → (f r).id ≡ r.id)
    → Consistent s
    → Keyed (λ r. r.id) runs
    → All (λ r. (r.id == "") ≡ false) runs
    → ((j : String) → count_rows (is_running j) runs ≤ count_rows (is_running j) s.runs)
    → count_rows (is_running id) runs ≡ 0
    → Consistent (record s { reviews = update_rows p f s.reviews; runs = runs })
unfolding busy get_review
settle-Consistent id p f runs s only keep c keyed named fewer none' = record {
  review_ids = Keyed-update (λ r. r.id) p f s.reviews keep c.review_ids;
  run_ids = keyed;
  run_named = named;
  one_run = λ j. elim (Bool-cases (id == j)) [
    | inl e ↦
        let idle : count_rows (is_running j) runs ≡ 0 =
          subst (λ i. count_rows (is_running i) runs ≡ 0) ((eq_iff id j).0 e) none' in
        omega (arith, idle)
    | inr n ↦ omega (
      arith,
      fewer j,
      c.one_run j,
      ap busy_of (find-update_other (λ r. r.id) id j p f s.reviews only keep n),
    )
  ];
}

-- An update of the runs alone that sets none running, and keeps ids and names.
pub runs-Consistent :
    (p : ReviewRun → Bool) (f : ReviewRun → ReviewRun) (s : Store)
    → ((r : ReviewRun) → (f r).id ≡ r.id)
    → ((j : String) (r : ReviewRun) → is_running j (f r) ≡ true → is_running j r ≡ true)
    → Consistent s
    → Consistent (record s { runs = update_rows p f s.runs })
runs-Consistent p f s keep fewer c = record {
  review_ids = c.review_ids;
  run_ids = Keyed-update (λ r. r.id) p f s.runs keep c.run_ids;
  run_named =
      All-update (λ r. (r.id == "") ≡ false) p f s.runs (λ r _ h. ap (λ i. i == "") (keep r) ∙ h)
        c.run_named;
  one_run = λ j. omega (
    arith,
    count-update-le (is_running j) p f s.runs (fewer j),
    c.one_run j,
    busy-same j s (record s { runs = update_rows p f s.runs }) refl,
  );
}

-- An update of the reviews alone that leaves the ids and which of them are reviewing.
pub reviews-Consistent :
    (p : ReviewRequest → Bool) (f : ReviewRequest → ReviewRequest) (s : Store)
    → ((r : ReviewRequest) → (f r).id ≡ r.id)
    → ((r : ReviewRequest) → (f r).status ≡ r.status)
    → Consistent s
    → Consistent (record s { reviews = update_rows p f s.reviews })
unfolding busy busy_of get_review
reviews-Consistent p f s keep same c = record {
  review_ids = Keyed-update (λ r. r.id) p f s.reviews keep c.review_ids;
  run_ids = c.run_ids;
  run_named = c.run_named;
  one_run = λ j. omega (
    arith,
    c.one_run j,
    ap busy_of (find-update p f (λ r. r.id == j) s.reviews (λ r. ap (λ i. i == j) (keep r)))
        ∙ still (find_row (λ r. r.id == j) s.reviews),
  );
}
  where
    still : (o : Option ReviewRequest) → busy_of (Option.map (touch p f) o) ≡ busy_of o
    still none = refl
    still (some r) = elim (Bool-cases (p r)) [
      | inl e ↦ rw e (ap (λ x. if x == "reviewing" then 1 else 0) (same r))
      | inr e ↦ rw e refl
    ]

-- The invariant reads the reviews and the runs alone.
pub same-Consistent :
    (s t : Store) → t.reviews ≡ s.reviews → t.runs ≡ s.runs → Consistent s → Consistent t
same-Consistent s t e f c = record {
  review_ids = subst (Keyed (λ r. r.id)) (sym e) c.review_ids;
  run_ids = subst (Keyed (λ r. r.id)) (sym f) c.run_ids;
  run_named = subst (All (λ r. (r.id == "") ≡ false)) (sym f) c.run_named;
  one_run = λ j. omega (arith, c.one_run j, ap (count_rows (is_running j)) f, busy-same j s t e);
}
