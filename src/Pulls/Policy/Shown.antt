-- ===== src/Pulls/Policy/Shown.antt =====
-- How checks are shown: the policy's fields, the state and the counts, said without the loop.
use saturnus.Base.{
  ℕ, ◌+◌, ◌+++◌, ◌≡◌, refl, ◌∙◌, ap, String, ◌||◌, List, [], ◌∷◌, eqb, ltb, length, map, member,
  length-map, Option, none, some, if◌then◌else◌,
}
use saturnus.Pulls.Types.{PrCheck, PrCheckCounts}
use saturnus.Pulls.Policy.{Host, Policy, rule, mark, state_of, evaluate_checks}
use saturnus.Pulls.Policy.Laws.{tally, tally_total, evaluate-shape, rule_lem}

-- the names that the policy lists for a repo
abbrev pub listed : Option (List String) → List String
listed none = []
listed (some names) = names

-- the first name whose count is positive
abbrev pub first_positive : List (String × ℕ) → String → String
first_positive [] d = d
first_positive ((name, n) ∷ rest) d = if ltb 0 n then name else first_positive rest d

-- the state of so many checks, by the order in which the counts matter
abbrev pub shown_state : ℕ → PrCheckCounts → String
shown_state total n =
    if eqb total 0
    then "NO_CHECKS"
    else first_positive
        (("FAIL", n.fail)
          ∷ ("UNKNOWN", n.unknown)
          ∷ ("PENDING", n.pending)
          ∷ ("CANCEL", n.cancel)
          ∷ ("PASS", n.pass)
          ∷ ("SKIP", n.skip)
          ∷ [])
        "BYPASS"

module _ (host : Host) (p : Policy) (repo : String) where
  -- A check as it is shown: bypassed exactly if its name is listed for the repo or globally, by the
  -- rule of the repo first, and with every other field as it was.
  abbrev pub expected : PrCheck → PrCheck
  expected c = record {
    key = c.key;
    source = c.source;
    external_id = c.external_id;
    app = c.app;
    workflow = c.workflow;
    workflow_id = c.workflow_id;
    workflow_run_id = c.workflow_run_id;
    run_attempt = c.run_attempt;
    event = c.event;
    name = c.name;
    head_sha = c.head_sha;
    status = c.status;
    conclusion = c.conclusion;
    bucket = c.bucket;
    url = c.url;
    description = c.description;
    started_at = c.started_at;
    completed_at = c.completed_at;
    updated_at = c.updated_at;
    bypassed = member c.name (listed (p.repos (host.to_lower repo))) || member c.name p.global;
    bypass_rule =
        if member c.name (listed (p.repos (host.to_lower repo)))
        then "repo:" +++ host.to_lower repo
        else if member c.name p.global
        then "global"
        else "";
  }

  same_names :
      (o : Option (List String))
      → (elim o as (λ x. List String) [ some names ↦ names | none ↦ [] ]) ≡ listed o
  same_names none = refl
  same_names (some names) = refl

  mark-expected : (c : PrCheck) → mark host p repo c ≡ expected c
  unfolding mark rule
  mark-expected c =
      let names = same_names (p.repos (host.to_lower repo)) in
      let bypassed =
        rule_lem host p repo c.name
        ∙ ap (λ names. member c.name names || member c.name p.global) names in
      let ruled =
        ap
          (λ names.
            if member c.name names
            then "repo:" +++ host.to_lower repo
            else if member c.name p.global
            then "global"
            else "")
          names in
      λ i. record c { bypassed = bypassed i; bypass_rule = ruled i }

  map-expected : (cs : List PrCheck) → map (mark host p repo) cs ≡ map expected cs
  map-expected [] = refl
  map-expected (c ∷ cs) = rw (mark-expected c, map-expected cs) refl

  -- Each check is shown with the policy's two fields, set by the lists that name it, and its other
  -- fields as they were; the counts are those of the checks so shown, by bucket where they are not
  -- bypassed; the state is NO_CHECKS for none, else that of the first positive count in the order
  -- FAIL, UNKNOWN, PENDING, CANCEL, PASS, SKIP, else BYPASS; and the counts add up to the number of
  -- checks.
  pub evaluate-tally :
      (checks : List PrCheck)
      → let shown = map expected checks in
        let n = tally shown in
        (evaluate_checks host p repo checks ≡ (shown, shown_state (length checks) n, n))
        × (n.pass + n.fail + n.pending + n.cancel + n.skip + n.unknown + n.bypass ≡ length checks)
  unfolding state_of
  evaluate-tally checks = (
    evaluate-shape host p repo checks
        ∙ ap (λ shown. (shown, shown_state (length checks) (tally shown), tally shown))
            (map-expected checks),
    tally_total (map expected checks) ∙ length-map expected checks,
  )
