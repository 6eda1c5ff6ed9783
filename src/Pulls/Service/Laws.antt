-- ===== src/Pulls/Service/Laws.antt =====
-- What a detail of a pull request that reads green rests on, and what a failed refresh keeps.
use saturnus.Base.{
  All-map, List, String, true, false, ◌==◌, some, ◌≡◌, ◌≢◌, refl, sym, subst, inl, inr, ok, ok_inj,
  Bool-cases, Result-cases, eq_iff, All, eqb, count_rows,
}
use saturnus.Store.Types.{Env}
use saturnus.Pulls.Types.{PullRequest, PrCheck}
use saturnus.Pulls.Policy.{Host}
use saturnus.Pulls.Policy.Laws.{clean, is_green, green-clean}
use saturnus.Pulls.Table.{
  Text, get_pull_request, pull_request_checks, save_pull_request_snapshot, same_pull,
  replace_checks,
}
use saturnus.Pulls.Service.{
  Service, Detail, Db, Fetched, is_stale, allowed, detail_of, snapshot, get_detail, observed,
  judged, saved, refresh,
}

fresh_lem :
    (pr : PullRequest)
    → is_stale pr ≡ false
    → (pr.sync_error ≡ "")
      × (pr.checked_head_sha ≢ "")
      × (pr.checked_head_sha ≡ pr.head_sha)
      × (pr.checked_merge_sha ≡ pr.merge_sha)
unfolding is_stale
fresh_lem pr h = elim (Bool-cases (pr.sync_error == "")) [
  | inr e ↦ absurd (cc (h, e))
  | inl a ↦ elim (Bool-cases (pr.checked_head_sha == "")) [
    | inl e ↦ absurd (cc (h, a, e))
    | inr b ↦ elim (Bool-cases (pr.checked_head_sha == pr.head_sha)) [
      | inr e ↦ absurd (cc (h, a, b, e))
      | inl c ↦ elim (Bool-cases (pr.checked_merge_sha == pr.merge_sha)) [
        | inr e ↦ absurd (cc (h, a, b, c, e))
        | inl d ↦ (
          (eq_iff _ _).0 a,
          (λ x. absurd (cc (b, (eq_iff pr.checked_head_sha "").1 x))),
          (eq_iff _ _).0 c,
          (eq_iff _ _).0 d,
        )
      ]
    ]
  ]
]

module _ (host : Host) (text : Text) (service : Service) where
  detail-green :
      (pr : PullRequest) (db : Db)
      → is_green (detail_of host text service pr db).pr.ci_state ≡ true
      → (is_stale pr ≡ false) × All (λ c. clean c ≡ true) (detail_of host text service pr db).checks
  unfolding detail_of
  detail-green pr db h = elim (Bool-cases (is_stale pr)) [
    | inl e ↦ absurd (cc (rw e at h))
    | inr e ↦ (
      e,
      All-map _ _ (detail_of host text service pr db).checks (λ c p. p.0)
          (green-clean host service.policy pr.repo (pull_request_checks pr.id db.pulls)
            (rw e at h)),
    )
  ]

  snapshot-detail :
      (pr : PullRequest) (db : Db) (d : Detail)
      → snapshot host text service pr db ≡ ok d
      → detail_of host text service pr db ≡ d
  unfolding snapshot
  snapshot-detail pr db d h = elim (Result-cases (allowed host text service pr.repo)) [
    | inl (u, e) ↦ ok_inj (rw e at h)
    | inr (why, e) ↦ absurd (cc (h, e))
  ]

  -- Where the detail of a pull request reads PASS, SKIP or BYPASS, its last synchronization had no
  -- error, its checks were read for the head and the merge commit that it has now, and each of
  -- them passed, was skipped or is bypassed.
  pub green_is_current :
      (id : String) (pr : PullRequest) (db : Db) (d : Detail)
      → get_pull_request id db.pulls ≡ some pr
      → get_detail host text service id db ≡ ok d
      → is_green d.pr.ci_state ≡ true
      → (pr.sync_error ≡ "")
        × (pr.checked_head_sha ≢ "")
        × (pr.checked_head_sha ≡ pr.head_sha)
        × (pr.checked_merge_sha ≡ pr.merge_sha)
        × (d.checks_stale ≡ false)
        × All (λ c. clean c ≡ true) d.checks
  unfolding get_detail detail_of
  green_is_current id pr db d found h green =
      let shape = snapshot-detail pr db d (rw found at h) in
      let (fresh, all) =
        detail-green pr db (subst (λ x. is_green x.pr.ci_state ≡ true) (sym shape) green) in
      let (a, b, c, m) = fresh_lem pr fresh in
      (a, b, c, m, rw (sym shape) fresh, subst (λ x. All (λ c. clean c ≡ true) x.checks) shape all)

  -- A row that is saved without its checks.
  saved-keeps :
      (pr : PullRequest) (checks : List PrCheck) (db : Db)
      → let (t, r) = saved host text service pr checks false db in
        (t.pulls.pr_checks ≡ db.pulls.pr_checks)
        × ((d : Detail) → r ≡ ok d → detail_of host text service pr t ≡ d)
  unfolding save_pull_request_snapshot replace_checks
  saved-keeps pr checks db =
      elim (Bool-cases (eqb (count_rows (same_pull text.nocase pr) db.pulls.pull_requests) 1)) [
        | inr e ↦ rw e (refl, λ d h. absurd (cc h))
        | inl e ↦ rw e (refl, λ d h. snapshot-detail pr _ d h)
      ]

  stale-detail :
      (pr : PullRequest) (db : Db)
      → (pr.sync_error == "") ≡ false
      → let d = detail_of host text service pr db in
        (d.pr.ci_state ≡ "UNKNOWN") × (d.checks_stale ≡ true)
  unfolding detail_of is_stale
  stale-detail pr db e = rw e (refl, refl)

  observed-keeps :
      (env : Env) (pr : PullRequest) (f : Fetched)
      → let new = observed host text service env pr f in
        (new.checked_head_sha ≡ pr.checked_head_sha)
        × (new.checked_merge_sha ≡ pr.checked_merge_sha)
        × (new.synced_at ≡ pr.synced_at)
  unfolding observed
  observed-keeps env pr f = elim (Bool-cases (f.metadata.head_sha == "")) [
    | inl e ↦ rw e (refl, refl, refl)
    | inr e ↦ rw e (refl, refl, refl)
  ]

  -- A refresh whose fetch fails with a text leaves the stored checks of all pull requests as they
  -- are, and what it shows, where it shows anything, is unknown and out of date, with the error and
  -- with the last good observation as it was.
  pub failed_refresh_keeps :
      (env : Env) (f : Fetched) (id : String) (db : Db) (pr : PullRequest) (e : String) (d : Detail)
      → f.failed ≡ some e
      → (e == "") ≡ false
      → get_pull_request id db.pulls ≡ some pr
      → let (t, r) = refresh host text service env f id db in
        (t.pulls.pr_checks ≡ db.pulls.pr_checks)
        × (r ≡ ok d
            → (d.pr.ci_state ≡ "UNKNOWN")
              × (d.checks_stale ≡ true)
              × (d.pr.sync_error ≡ e)
              × (d.pr.checked_head_sha ≡ pr.checked_head_sha)
              × (d.pr.checked_merge_sha ≡ pr.checked_merge_sha)
              × (d.pr.synced_at ≡ pr.synced_at))
  unfolding refresh judged detail_of
  failed_refresh_keeps env f id db pr e d fails named found =
      elim (Result-cases (allowed host text service pr.repo)) [
        | inr (why, a) ↦ rw (refresh, found, a) (refl, λ h. absurd (cc h))
        | inl (u, a) ↦
            let seen = observed host text service env pr f in
            let new = record seen { ci_state = "UNKNOWN"; sync_error = e } in
            let (rows, shown) = saved-keeps new f.checks db in
            let (c, m, at) = observed-keeps env pr f in
            rw (refresh, found, a, judged, fails)
              (
                rows,
                (λ h.
                    let shape = shown d h in
                    let (state, stale) =
                      stale-detail new (saved host text service new f.checks false db).0 named in
                    rw (sym shape) (state, stale, refl, c, m, at)),
              )
      ]
