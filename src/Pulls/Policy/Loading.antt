-- ===== src/Pulls/Policy/Loading.antt =====
-- What a policy that loads promises.
use saturnus.Base.{
  inl, inr, subst, eq_refl, String, true, false, not, ◌||◌, Option, none, some, List, [], ◌∷◌, ◌==◌,
  ◌≡◌, refl, sym, ap, ◌∙◌, arith, member, ok, ok_inj, Bool-cases, Option-cases, Result-cases, All,
  eq_iff,
}
use saturnus.Pulls.Policy.{Host, Policy, validate, valid_repo, set_repo, normalize, load_policy}

module _ (host : Host) where
  -- a list of names of which none is empty, padded or repeated, nor one of those seen
  pub Valid : List String → List String → Type 0
  Valid seen [] = Unit
  Valid seen (name ∷ names) =
      ((host.trim_space name == "") ≡ false)
      × ((name == host.trim_space name) ≡ true)
      × (member name seen ≡ false)
      × Valid (name ∷ seen) names

  validate-Valid : (seen names : List String) → validate host seen names ≡ ok tt → Valid seen names
  unfolding validate Valid
  validate-Valid seen [] h = tt
  validate-Valid seen (name ∷ names) h =
      elim (Bool-cases (not (host.trim_space name == "" || not (name == host.trim_space name)))) [
        | inr e ↦ absurd (cc (h, e))
        | inl e ↦ elim (Bool-cases (not (member name seen))) [
          | inr f ↦ absurd (cc (h, e, f))
          | inl f ↦ (
            ground (arith, e),
            ground (arith, e),
            ground (arith, f),
            validate-Valid (name ∷ seen) names (rw (e, f) at h),
          )
        ]
      ]

  -- What the file says of one repo, in the policy.
  pub Loaded : (String → Option (List String)) → String × List String → Type 0
  Loaded repos (repo, names) =
      (valid_repo host repo ≡ true) × Valid [] names × (repos (host.to_lower repo) ≡ some names)

  set_repo-keeps :
      (key : String) (names : List String) (done : String → Option (List String)) (k : String)
      (ns : List String)
      → done key ≡ none
      → done k ≡ some ns
      → set_repo host key names done k ≡ some ns
  set_repo-keeps key names done k ns fresh e = elim (Bool-cases (key == k)) [
    | inl h ↦ absurd (cc (fresh, e, ap done ((eq_iff key k).0 h)))
    | inr h ↦ rw h e
  ]

  normalize-Loaded :
      (rest : List (String × List String)) (done out : String → Option (List String))
      → normalize host rest done ≡ ok out
      → All (Loaded out) rest
        × ((k : String) (ns : List String) → done k ≡ some ns → out k ≡ some ns)
  unfolding normalize Loaded
  normalize-Loaded [] done out h = (tt, (λ k ns e. ap (λ f. f k) (sym (ok_inj h)) ∙ e))
  normalize-Loaded ((repo, names) ∷ rest) done out h =
      let key = host.to_lower repo in
      elim (Bool-cases (valid_repo host repo)) [
        | inr e ↦ absurd (cc (h, e))
        | inl e ↦ elim (Result-cases (validate host [] names)) [
          | inr (why, f) ↦ absurd (cc (h, e, f))
          | inl (u, f) ↦ elim (Option-cases (done key)) [
            | inr (old, g) ↦ absurd (cc (h, e, f, g))
            | inl g ↦
                let (all, keep) =
                  normalize-Loaded rest (set_repo host key names done) out (rw (e, f, g) at h) in
                (
                  ((e, validate-Valid [] names f, keep key names (rw (eq_refl key) refl)), all),
                  (λ k ns d. keep k ns (set_repo-keeps key names done k ns g d)),
                )
          ]
        ]
      ]

  -- A policy that loads has what the file says, and only in good form: the global names, and for
  -- each repo of the file, whose form is valid, its names under its lower case, none of the lists
  -- with an empty, padded or repeated name.
  pub load_policy-Loaded :
      (global : List String) (repos : List (String × List String)) (p : Policy)
      → load_policy host (global, repos) ≡ ok p
      → (p.global ≡ global) × Valid [] global × All (Loaded p.repos) repos
  unfolding load_policy
  load_policy-Loaded global repos p h = elim (Result-cases (validate host [] global)) [
    | inr (why, e) ↦ absurd (cc (h, e))
    | inl (u, e) ↦ elim (Result-cases (normalize host repos (λ j. none))) [
      | inr (why, f) ↦ absurd (cc (h, e, f))
      | inl (out, f) ↦
          let loaded : record { global = global; repos = out } ≡ p = ok_inj (rw (e, f) at h) in
          (
            ap (λ q. q.global) (sym loaded),
            validate-Valid [] global e,
            subst (λ q. All (Loaded q.repos) repos) loaded
                (normalize-Loaded repos (λ j. none) out f).0,
          )
    ]
  ]
