-- ===== src/Pulls/Track.antt =====
-- Tracking a pull request twice.
use saturnus.Base.{
  ℕ, String, true, none, some, List, [], ◌∷◌, ◌++◌, ◌==◌, ◌≡◌, refl, sym, ◌∙◌, ◌⊎◌, inl, inr, arith,
  any, ltb, ok, err, constraint, Bool-cases, Option-cases, find_row, find_none-any, find_some-any,
  find-append_none,
}
use saturnus.Store.Types.{Env}
use saturnus.Pulls.Types.{PullRequest, PullTables}
use saturnus.Pulls.Table.{
  Text, numbered, new_pull, insert_pull, track_pull_request, get_pull_request_by_number,
}

module _ (text : Text) (same : (a r : String) → text.nocase a (text.to_lower r) ≡ text.nocase a r)
    (whole : (a : String) → text.nocase a a ≡ true) where
  lowered :
      (repo : String) (n : ℕ) (rows : List PullRequest)
      → find_row (numbered text (text.to_lower repo) n) rows ≡ find_row (numbered text repo n) rows
  lowered repo n [] = refl
  lowered repo n (x ∷ xs) = rw (same x.repo repo, lowered repo n xs) refl

  is_new :
      (env : Env) (repo : String) (n : ℕ) → numbered text repo n (new_pull text env repo n) ≡ true
  is_new env repo n =
      let fits = sym (same (text.to_lower repo) repo) ∙ whole (text.to_lower repo) in
      ground (arith, fits)

  -- Where the comparison of repos is reflexive and ignores the lowering of one: tracking a pull
  -- request that has a row, in any case, answers the row as it stands and changes nothing; tracking
  -- a new one appends its row and answers it, unless its random id is taken, which is an error that
  -- changes nothing.
  pub track-keeps :
      (env : Env) (repo : String) (number : ℕ) (s : PullTables)
      → ltb 0 number ≡ true
      → ((pr : PullRequest) × (get_pull_request_by_number text repo number s ≡ some pr)
          × (track_pull_request text env repo number s ≡ (s, ok pr)))
        ⊎ ((get_pull_request_by_number text repo number s ≡ none)
            × ((track_pull_request text env repo number s ≡ (
              record s { pull_requests = s.pull_requests ++ new_pull text env repo number ∷ [] },
              ok (new_pull text env repo number),
            ))
                ⊎ (track_pull_request text env repo number s ≡ (s, err constraint))))
  unfolding track_pull_request insert_pull get_pull_request_by_number
  track-keeps env repo number s p =
      let new = new_pull text env repo number in
      elim (Option-cases (find_row (numbered text repo number) s.pull_requests)) [
        | inr (pr, e) ↦ inl (
          pr,
          e,
          rw
              (
                p,
                find_some-any (numbered text new.repo number) s.pull_requests pr
                    (lowered repo number s.pull_requests ∙ e),
                e,
              )
              refl,
        )
        | inl e ↦
            let gap =
              find_none-any (numbered text new.repo number) s.pull_requests
                (lowered repo number s.pull_requests ∙ e) in
            inr (
              e,
              elim (Bool-cases (any (λ r. r.id == new.id) s.pull_requests)) [
                | inl k ↦ inr (rw (p, gap, k) refl)
                | inr k ↦ inl (
                    rw
                      (
                        p,
                        gap,
                        k,
                        find-append_none (numbered text repo number) s.pull_requests new e,
                        is_new env repo number,
                      )
                      refl)
              ],
            )
      ]
