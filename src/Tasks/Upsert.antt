-- ===== src/Tasks/Upsert.antt =====
-- Adding a pull request to a task again.
use saturnus.Base.{
  if◌then◌else◌, ◌+++◌, ℕ, ◌⊎◌, inl, inr, Bool, true, none, some, [], ◌∷◌, ◌++◌, ◌==◌, ◌≡◌, refl,
  arith, eqb, ok, err, constraint, Option-cases, Keyed, find_row, find_row_holds, find-update,
  find-own_key, find_some-any, find_none-any, find-append_none, update_rows, eq_refl,
}
use saturnus.Store.Types.{Env}
use saturnus.Tasks.Types.{TaskPr, Tables}
use saturnus.Tasks.Prs.{
  same_pr, fill_pr, merge_pr, accepting, upsert_pr, write_pr, read_back, add_task_pr, get_task_pr,
}

same-merge : (pr p x : TaskPr) → same_pr x (merge_pr pr p) ≡ same_pr x p
same-merge pr p x = refl

eqb_refl : (n : ℕ) → eqb n n ≡ true
eqb_refl n = ground arith

module _ (env : Env) (pr : TaskPr) (active_only : Bool) (s : Tables) where
  -- the row that is given, with its defaults
  abbrev pub filled : TaskPr
  filled = record pr {
    id = if pr.id == "" then "tpr_" +++ env.new_id 0 else pr.id;
    review_status = if pr.review_status == "" then "none" else pr.review_status;
    created_at = if eqb pr.created_at 0 then env.now else pr.created_at;
    updated_at = env.now;
  }

  -- the row that is left where the task has the pull request as `old`
  abbrev pub merged : TaskPr → TaskPr
  merged old = record {
    id = old.id;
    task_id = old.task_id;
    repo = old.repo;
    pr_number = old.pr_number;
    created_at = old.created_at;
    fs_task_id = if pr.fs_task_id == "" then old.fs_task_id else pr.fs_task_id;
    fs_task_url = if pr.fs_task_url == "" then old.fs_task_url else pr.fs_task_url;
    synced_at = if eqb pr.synced_at 0 then old.synced_at else pr.synced_at;
    updated_at = env.now;
    pr_url = pr.pr_url;
    pr_title = pr.pr_title;
    pr_state = pr.pr_state;
    base_branch = pr.base_branch;
    review_id = pr.review_id;
    review_status = if pr.review_status == "" then "none" else pr.review_status;
    sync_attempted_at = pr.sync_attempted_at;
    sync_error = pr.sync_error;
  }

  abbrev pub updated : Tables
  updated = record s { prs = update_rows (same_pr pr) merged s.prs }

  abbrev pub grown : Tables
  grown = record s { prs = s.prs ++ filled ∷ [] }

  add_existing :
      (old : TaskPr)
      → Keyed (λ p. p.id) s.prs
      → accepting active_only pr.task_id s ≡ true
      → find_row (same_pr pr) s.prs ≡ some old
      → add_task_pr env pr active_only s ≡ (updated, ok (merged old))
  unfolding add_task_pr write_pr read_back upsert_pr fill_pr get_task_pr
  add_existing old u a e =
      let hit = find_row_holds (same_pr pr) s.prs old e in
      let by_key = find-update (same_pr pr) merged (same_pr pr) s.prs (λ p. refl) in
      let by_id = find-update (same_pr pr) merged (λ p. p.id == old.id) s.prs (λ p. refl) in
      let own = find-own_key (λ p. p.id) (same_pr pr) s.prs old u e in
      rw (a, find_some-any (same_pr pr) s.prs old e, by_key, e, hit, by_id, own, hit) refl

  add_new :
      accepting active_only pr.task_id s ≡ true
      → find_row (same_pr pr) s.prs ≡ none
      → find_row (λ p. p.id == filled.id) s.prs ≡ none
      → add_task_pr env pr active_only s ≡ (grown, ok filled)
  unfolding add_task_pr write_pr read_back upsert_pr fill_pr get_task_pr
  add_new a e fresh =
      let by_key = find-append_none (same_pr pr) s.prs filled e in
      let by_id = find-append_none (λ p. p.id == filled.id) s.prs filled fresh in
      rw
        (
          a,
          find_none-any (same_pr pr) s.prs e,
          find_none-any (λ p. p.id == filled.id) s.prs fresh,
          by_key,
          eq_refl pr.task_id,
          eq_refl pr.repo,
          eqb_refl pr.pr_number,
          by_id,
          eq_refl filled.id,
        )
        refl

  add_clash :
      (p : TaskPr)
      → accepting active_only pr.task_id s ≡ true
      → find_row (same_pr pr) s.prs ≡ none
      → find_row (λ p. p.id == filled.id) s.prs ≡ some p
      → add_task_pr env pr active_only s ≡ (s, err constraint)
  unfolding add_task_pr write_pr upsert_pr fill_pr
  add_clash p a e clash =
      rw
        (
          a,
          find_none-any (same_pr pr) s.prs e,
          find_some-any (λ p. p.id == filled.id) s.prs p clash,
        )
        refl

  -- Where the ids of the linked pull requests are unique and the task accepts changes: a pull
  -- request that the task has already, by repo and number, is updated in place and answered, and
  -- keeps its id, its time of creation and, where the new values are empty, its Lark task and its
  -- time of synchronization; any other is appended with its defaults and answered, unless another
  -- row has its id, which is an error that leaves the tables as they are.
  pub add_task_pr-upserts :
      Keyed (λ p. p.id) s.prs
      → accepting active_only pr.task_id s ≡ true
      → ((old : TaskPr) × (find_row (same_pr pr) s.prs ≡ some old)
          × (add_task_pr env pr active_only s ≡ (updated, ok (merged old))))
        ⊎ ((find_row (same_pr pr) s.prs ≡ none)
            × ((add_task_pr env pr active_only s ≡ (grown, ok filled))
                ⊎ ((p : TaskPr) × (find_row (λ p. p.id == filled.id) s.prs ≡ some p)
                    × (add_task_pr env pr active_only s ≡ (s, err constraint)))))
  add_task_pr-upserts u a = elim (Option-cases (find_row (same_pr pr) s.prs)) [
    | inr (old, e) ↦ inl (old, e, add_existing old u a e)
    | inl e ↦ inr (
      e,
      elim (Option-cases (find_row (λ p. p.id == filled.id) s.prs)) [
        | inl fresh ↦ inl (add_new a e fresh)
        | inr (p, clash) ↦ inr (p, clash, add_clash p a e clash)
      ],
    )
  ]
