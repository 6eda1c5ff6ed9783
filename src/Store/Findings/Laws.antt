-- ===== src/Store/Findings/Laws.antt =====
-- Saving findings adds to a review's findings or merges into them: none is discarded, and other
-- reviews' findings are not touched.
use saturnus.Base.{
  ℕ, suc, String, ◌≡◌, refl, ap, sym, ◌∙◌, ◌≢◌, ◌⊎◌, inl, inr, false, none, List, [], ◌∷◌, ◌++◌,
  map, append-nil, append_assoc, ◌==◌, arith, eq_iff, ne→eq_false, Result-cases, ok, err,
  foreign_finding, find_row, select_rows, update_rows, Bool-cases, Option-cases, ◌>>=◌, subst,
}
use saturnus.Store.Types.{Env, ReviewFinding, Store}
use saturnus.Store.Findings.{
  is_finding, save_finding, save_findings_from, save_findings_tx, save_findings, list_findings,
  insert_finding, update_finding, replace_finding, new_finding, merge_finding, run_exists,
}

abbrev finding_ids : Store → List String
finding_ids s = map (λ f. f.id) s.findings

-- The findings of `t` are those of `s`, merged in place, and some new ones of the review behind.
pub record Extends (review_id : String) (s t : Store) : Type 0 where
  pub new_ids : List String
  pub kept : finding_ids t ≡ finding_ids s ++ new_ids
  pub others : (j : String) → (review_id == j) ≡ false → list_findings j t ≡ list_findings j s
  pub same_reviews : t.reviews ≡ s.reviews
  pub same_runs : t.runs ≡ s.runs

Extends-refl : (review_id : String) (s : Store) → Extends review_id s s
Extends-refl review_id s = record {
  new_ids = [];
  kept = sym (append-nil _);
  others = λ j h. refl;
  same_reviews = refl;
  same_runs = refl;
}

Extends-trans :
    (review_id : String) (s t u : Store)
    → Extends review_id s t
    → Extends review_id t u
    → Extends review_id s u
Extends-trans review_id s t u a b = record {
  new_ids = a.new_ids ++ b.new_ids;
  kept =
      b.kept ∙ ap (λ l. l ++ b.new_ids) a.kept ∙ append_assoc (finding_ids s) a.new_ids b.new_ids;
  others = λ j h. b.others j h ∙ a.others j h;
  same_reviews = b.same_reviews ∙ a.same_reviews;
  same_runs = b.same_runs ∙ a.same_runs;
}

select-append :
    (j : String) (rows : List ReviewFinding) (f : ReviewFinding)
    → (f.review_id == j) ≡ false
    → select_rows (λ r. r.review_id == j) (rows ++ f ∷ [])
      ≡ select_rows (λ r. r.review_id == j) rows
select-append j [] f h = rw h
select-append j (x ∷ rows) f h = ground (arith, select-append j rows f h)

ids-append :
    (rows : List ReviewFinding) (f : ReviewFinding)
    → map (λ r. r.id) (rows ++ f ∷ []) ≡ map (λ r. r.id) rows ++ f.id ∷ []
ids-append [] f = refl
ids-append (x ∷ rows) f = ap (λ l. x.id ∷ l) (ids-append rows f)

insert-Extends :
    (review_id : String) (f : ReviewFinding) (s t : Store)
    → f.review_id ≡ review_id
    → insert_finding f s ≡ ok t
    → Extends review_id s t
unfolding insert_finding list_findings
insert-Extends review_id f s t e h =
    let is : record s { findings = s.findings ++ f ∷ [] } ≡ t = ground arith in
    subst (Extends review_id s) is (record {
      new_ids = f.id ∷ [];
      kept = ids-append s.findings f;
      others = λ j n. select-append j s.findings f (ap (λ i. i == j) e ∙ n);
      same_reviews = refl;
      same_runs = refl;
    })

replace-Extends :
    (review_id id : String) (merged : ReviewFinding) (s : Store)
    → Extends review_id s (replace_finding review_id id merged s)
unfolding replace_finding list_findings
replace-Extends review_id id merged s = record {
  new_ids = [];
  kept = ids s.findings ∙ sym (append-nil _);
  others = λ j n. untouched j n s.findings;
  same_reviews = refl;
  same_runs = refl;
}
  where
    put : ReviewFinding → ReviewFinding
    put r = record merged {
      id = r.id;
      review_id = r.review_id;
      github_comment_id = r.github_comment_id;
      created_at = r.created_at;
    }

    ids :
        (rows : List ReviewFinding)
        → map (λ r. r.id) (update_rows (is_finding id review_id) put rows) ≡ map (λ r. r.id) rows
    ids [] = refl
    ids (x ∷ rows) = ground (arith, ids rows)

    untouched :
        (j : String)
        → (review_id == j) ≡ false
        → (rows : List ReviewFinding)
        → select_rows (λ r. r.review_id == j) (update_rows (is_finding id review_id) put rows)
          ≡ select_rows (λ r. r.review_id == j) rows
    untouched j n [] = refl
    untouched j n (x ∷ rows) = ground (
      arith,
      untouched j n rows,
      eq_iff x.review_id review_id,
      eq_iff x.review_id j,
      eq_iff review_id j,
    )

update-Extends :
    (review_id run_id : String) (f : ReviewFinding) (s t : Store)
    → update_finding review_id run_id f s ≡ ok t
    → Extends review_id s t
unfolding update_finding
update-Extends review_id run_id f s t h =
    elim (Option-cases (find_row (is_finding f.id review_id) s.findings)) [
      | inl e ↦ absurd (ground (arith, e))
      | inr (old, e) ↦ elim (Bool-cases (run_exists run_id s)) [
        | inl b ↦
            subst (Extends review_id s) (ground (arith, e, b))
              (replace-Extends review_id f.id (merge_finding run_id f old) s)
        | inr b ↦ absurd (ground (arith, e, b))
      ]
    ]

save_finding-Extends :
    (env : Env) (n : ℕ) (review_id run_id : String) (f : ReviewFinding) (s t : Store)
    → save_finding env n review_id run_id f s ≡ ok t
    → Extends review_id s t
unfolding save_finding
save_finding-Extends env n review_id run_id f s t h = elim (Bool-cases (f.id == "")) [
  | inl e ↦
      insert-Extends review_id (new_finding env n review_id run_id f) s t
        (unfold new_finding in refl) (rw (e, save_finding) at h)
  | inr e ↦ update-Extends review_id run_id f s t (rw (e, save_finding) at h)
]

save_findings_from-Extends :
    (env : Env) (n : ℕ) (review_id run_id : String) (fs : List ReviewFinding) (s t : Store)
    → save_findings_from env n review_id run_id fs s ≡ ok t
    → Extends review_id s t
unfolding save_findings_from
save_findings_from-Extends env n review_id run_id [] s t h =
    subst (Extends review_id s) (ground (arith, h)) (Extends-refl review_id s)
save_findings_from-Extends env n review_id run_id (f ∷ fs) s t h =
    elim (Result-cases (save_finding env n review_id run_id f s)) [
      | inl (u, e) ↦
          Extends-trans review_id s u t (save_finding-Extends env n review_id run_id f s u e)
            (save_findings_from-Extends env (suc n) review_id run_id fs u t (rw (e, ◌>>=◌) at h))
      | inr (x, e) ↦ absurd (ground (arith, e))
    ]

pub save_findings_tx-Extends :
    (env : Env) (review_id run_id : String) (fs : List ReviewFinding) (s t : Store)
    → save_findings_tx env review_id run_id fs s ≡ ok t
    → Extends review_id s t
unfolding save_findings_tx
save_findings_tx-Extends env review_id run_id fs s t h =
    save_findings_from-Extends env 0 review_id run_id fs s t h

-- Saving findings either changes nothing, or keeps every stored finding under its id and in its
-- place, adds the new ones behind, and leaves the findings of every other review, the reviews and
-- the runs as they were.
pub save_findings_keeps :
    (env : Env) (review_id run_id : String) (fs : List ReviewFinding) (s : Store)
    → ((save_findings env review_id run_id fs s).0 ≡ s)
      ⊎ (((save_findings env review_id run_id fs s).1 ≡ ok tt)
          × Extends review_id s (save_findings env review_id run_id fs s).0)
unfolding save_findings
save_findings_keeps env review_id run_id fs s =
    elim (Result-cases (save_findings_tx env review_id run_id fs s)) [
      | inl (t, e) ↦ inr (rw e, rw e (save_findings_tx-Extends env review_id run_id fs s t e))
      | inr (x, e) ↦ inl (rw e)
    ]

-- A finding that names an id which the review does not have is refused with that id, and nothing
-- of the whole submission that begins with it is saved.
pub save_findings_foreign :
    (env : Env) (review_id run_id : String) (f : ReviewFinding) (fs : List ReviewFinding)
    (s : Store)
    → f.id ≢ ""
    → find_row (is_finding f.id review_id) s.findings ≡ none
    → save_findings env review_id run_id (f ∷ fs) s ≡ (s, err (foreign_finding f.id))
unfolding save_findings save_findings_tx save_findings_from save_finding update_finding
save_findings_foreign env review_id run_id f fs s h e = rw (ne→eq_false f.id "" h, e)
