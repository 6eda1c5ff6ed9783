-- ===== src/Pulls/Snapshot.antt =====
-- Saving a snapshot of a pull request with its checks, and reading it back.
use saturnus.Base.{
  subst, update_rows, Keyed, All, find_row, ok_inj, String, Bool, true, false, ◌&&◌, some, List, [],
  ◌∷◌, ◌++◌, ◌==◌, ◌≡◌, refl, sym, ap, ◌∙◌, ◌⊎◌, inl, inr, arith, map, append-nil, append_assoc,
  any, eqb, if◌then◌else◌, ok, err, Error, not_found, Bool-cases, Result-cases, select_rows,
  delete_rows, count_rows, eq_refl, eq_iff,
}
use saturnus.Pulls.Types.{PullRequest, PrCheck, CheckRow, PullTables}
use saturnus.Pulls.Table.{
  Text, get_pull_request, same_pull, insert_checks, replace_checks, save_pull_request_snapshot,
  pull_request_checks,
}

abbrev of : String → CheckRow → Bool
of id r = r.pr_id == id

select-append :
    (p : CheckRow → Bool) (xs ys : List CheckRow)
    → select_rows p (xs ++ ys) ≡ select_rows p xs ++ select_rows p ys
select-append p [] ys = refl
select-append p (x ∷ xs) ys = elim (Bool-cases (p x)) [
  | inl e ↦ rw e (ap (λ zs. x ∷ zs) (select-append p xs ys))
  | inr e ↦ rw e (select-append p xs ys)
]

select-delete :
    (id : String) (xs : List CheckRow) → select_rows (of id) (delete_rows (of id) xs) ≡ []
select-delete id [] = refl
select-delete id (x ∷ xs) = elim (Bool-cases (of id x)) [
  | inl e ↦ rw e (select-delete id xs)
  | inr e ↦ rw (e, e) (select-delete id xs)
]

select-delete_other :
    (id j : String) (xs : List CheckRow)
    → (id == j) ≡ false
    → select_rows (of j) (delete_rows (of id) xs) ≡ select_rows (of j) xs
select-delete_other id j [] n = refl
select-delete_other id j (x ∷ xs) n =
    ground (arith, select-delete_other id j xs n, eq_iff x.pr_id id, eq_iff x.pr_id j, eq_iff id j)

map-append :
    (xs ys : List CheckRow)
    → map (λ r. r.check) (xs ++ ys) ≡ map (λ r. r.check) xs ++ map (λ r. r.check) ys
map-append [] ys = refl
map-append (x ∷ xs) ys = ap (λ zs. x.check ∷ zs) (map-append xs ys)

insert-select :
    (id : String) (cs : List PrCheck) (rows done : List CheckRow)
    → insert_checks id cs rows ≡ ok done
    → map (λ r. r.check) (select_rows (of id) done)
      ≡ map (λ r. r.check) (select_rows (of id) rows) ++ cs
unfolding insert_checks
insert-select id [] rows done h = rw (sym (ok_inj h)) (sym (append-nil _))
insert-select id (c ∷ cs) rows done h =
    elim (Bool-cases (any (λ r. r.pr_id == id && r.check.key == c.key) rows)) [
      | inl e ↦ absurd (cc (h, e))
      | inr e ↦
          let row : CheckRow = record { pr_id = id; check = c } in
          insert-select id cs (rows ++ row ∷ []) done (rw e at h)
          ∙ rw (select-append (of id) rows (row ∷ []), eq_refl id)
              (rw (map-append (select_rows (of id) rows) (row ∷ []))
                (append_assoc (map (λ r. r.check) (select_rows (of id) rows)) (c ∷ []) cs))
    ]

insert-select_other :
    (id j : String) (cs : List PrCheck) (rows done : List CheckRow)
    → (id == j) ≡ false
    → insert_checks id cs rows ≡ ok done
    → select_rows (of j) done ≡ select_rows (of j) rows
unfolding insert_checks
insert-select_other id j [] rows done n h = rw (sym (ok_inj h)) refl
insert-select_other id j (c ∷ cs) rows done n h =
    elim (Bool-cases (any (λ r. r.pr_id == id && r.check.key == c.key) rows)) [
      | inl e ↦ absurd (cc (h, e))
      | inr e ↦
          let row : CheckRow = record { pr_id = id; check = c } in
          insert-select_other id j cs (rows ++ row ∷ []) done n (rw e at h)
          ∙ rw (select-append (of j) rows (row ∷ []), n) (append-nil (select_rows (of j) rows))
    ]

module _ (nocase : String → String → Bool) (pr : PullRequest) where
  not_same : (r : PullRequest) → (r.id == pr.id) ≡ false → same_pull nocase pr r ≡ false
  not_same r e = rw e refl

  none_same :
      (rows : List PullRequest)
      → All (λ y. (y.id == pr.id) ≡ false) rows
      → count_rows (same_pull nocase pr) rows ≡ 0
  none_same [] all = refl
  none_same (x ∷ xs) all = rw (not_same x all.0) (none_same xs all.1)

  replaced :
      (rows : List PullRequest)
      → Keyed (λ r. r.id) rows
      → count_rows (same_pull nocase pr) rows ≡ 1
      → find_row (λ r. r.id == pr.id) (update_rows (same_pull nocase pr) (λ r. pr) rows) ≡ some pr
  replaced [] u h = absurd (omega arith)
  replaced (x ∷ xs) u h = elim (Bool-cases (same_pull nocase pr x)) [
    | inl e ↦ rw (e, eq_refl pr.id) refl
    | inr e ↦ elim (Bool-cases (x.id == pr.id)) [
      | inr k ↦ rw (e, k) (replaced xs u.1 (rw e at h))
      | inl k ↦ absurd (omega (arith, rw e at h, none_same xs (below k)))
    ]
  ]
    where
      below : (x.id == pr.id) ≡ true → All (λ y. (y.id == pr.id) ≡ false) xs
      below k = subst (λ i. All (λ y. (y.id == i) ≡ false) xs) ((eq_iff x.id pr.id).0 k) u.0

  kept :
      (j : String) (rows : List PullRequest)
      → (pr.id == j) ≡ false
      → find_row (λ r. r.id == j) (update_rows (same_pull nocase pr) (λ r. pr) rows)
        ≡ find_row (λ r. r.id == j) rows
  kept j [] n = refl
  kept j (x ∷ xs) n = ground (arith, kept j xs n, eq_iff x.id pr.id, eq_iff x.id j, eq_iff pr.id j)

replace-reads :
    (replace : Bool) (id other : String) (checks : List PrCheck) (rows done : List CheckRow)
    → (id == other) ≡ false
    → replace_checks replace id checks rows ≡ ok done
    → (map (λ r. r.check) (select_rows (of id) done)
        ≡ (if replace then checks else map (λ r. r.check) (select_rows (of id) rows)))
      × (select_rows (of other) done ≡ select_rows (of other) rows)
unfolding replace_checks
replace-reads true id other checks rows done n h = (
  insert-select id checks (delete_rows (of id) rows) done h ∙ rw (select-delete id rows) refl,
  insert-select_other id other checks (delete_rows (of id) rows) done n h
      ∙ select-delete_other id other rows n,
)
replace-reads false id other checks rows done n h = rw (sym (ok_inj h)) (refl, refl)

-- Where the ids of pull requests are unique: saving a snapshot fails and leaves the tables as they
-- are, or succeeds; then the request reads back as it was saved, its checks are the given ones, or
-- those from before where they are not to be replaced, and any other request keeps its row and its
-- checks.
pub save_snapshot-reads :
    (text : Text) (pr : PullRequest) (checks : List PrCheck) (replace : Bool) (s : PullTables)
    (other : String)
    → Keyed (λ r. r.id) s.pull_requests
    → (pr.id == other) ≡ false
    → let (t, r) = save_pull_request_snapshot text pr checks replace s in
      ((e : Error) × (r ≡ err e) × (t ≡ s))
      ⊎ ((r ≡ ok tt)
          × (get_pull_request pr.id t ≡ some pr)
          × (pull_request_checks pr.id t
              ≡ (if replace then checks else pull_request_checks pr.id s))
          × (get_pull_request other t ≡ get_pull_request other s)
          × (pull_request_checks other t ≡ pull_request_checks other s))
unfolding save_pull_request_snapshot get_pull_request pull_request_checks
save_snapshot-reads text pr checks replace s other u n =
    elim (Bool-cases (eqb (count_rows (same_pull text.nocase pr) s.pull_requests) 1)) [
      | inr e ↦ rw e (inl (not_found, refl, refl))
      | inl e ↦ elim (Result-cases (replace_checks replace pr.id checks s.pr_checks)) [
        | inr (why, f) ↦ rw (e, f) (inl (why, refl, refl))
        | inl (done, f) ↦
            let (own, rest) = replace-reads replace pr.id other checks s.pr_checks done n f in
            rw (e, f)
              (inr (
                refl,
                replaced text.nocase pr s.pull_requests u (ground (arith, e)),
                own,
                kept text.nocase pr other s.pull_requests n,
                ap (map (λ r. r.check)) rest,
              ))
      ]
    ]
