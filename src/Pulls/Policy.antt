-- ===== src/Pulls/Policy.antt =====
-- The bypass policy of internal/prs/policy.go: which checks it bypasses, and the state and counts
-- that are left. The decoding of its JSON file, the regular expression of repos and the text
-- functions of Go are parameters.
pub mod Laws
pub mod Shown
pub mod Loading
use saturnus.Base.{
  ℕ, suc, String, ◌+++◌, Bool, true, not, ◌&&◌, ◌||◌, Option, none, some, List, [], ◌∷◌, ◌==◌, ltb,
  eqb, length, if◌then◌else◌, any, member, Result, ok, err, failure, check, ◌>>=◌, ◌>>◌,
}
use saturnus.Pulls.Types.{PrCheck, PrCheckCounts, no_counts}

pub record Host : Type 0 where
  pub to_lower : String → String
  pub trim_space : String → String
  -- whether the text has the form `owner/name` of the pattern
  pub repo_pattern : String → Bool
  -- strings.Split(s, "/")
  pub split_slash : String → List String

pub record Policy : Type 0 where
  pub global : List String
  pub repos : String → Option (List String)

module _ (host : Host) where
  abbrev pub names_for : Policy → String → List String
  names_for p repo = elim (p.repos (host.to_lower repo)) [ some names ↦ names | none ↦ [] ]

  unfoldable pub rule : Policy → String → String → String
  rule p repo name =
      if member name (names_for p repo)
      then "repo:" +++ host.to_lower repo
      else if member name p.global
      then "global"
      else ""

  -- the policy's fields of a check
  unfoldable pub mark : Policy → String → PrCheck → PrCheck
  mark p repo c =
      let by = rule p repo c.name in record c { bypass_rule = by; bypassed = not (by == "") }

abbrev pub add_bucket : String → PrCheckCounts → PrCheckCounts
add_bucket bucket n =
    if bucket == "pass"
    then record n { pass = suc n.pass }
    else if bucket == "fail"
    then record n { fail = suc n.fail }
    else if bucket == "pending"
    then record n { pending = suc n.pending }
    else if bucket == "cancel"
    then record n { cancel = suc n.cancel }
    else if bucket == "skip"
    then record n { skip = suc n.skip }
    else record n { unknown = suc n.unknown }

-- one turn of the loop on a check that is marked
unfoldable pub count_check : PrCheck → PrCheckCounts → PrCheckCounts
count_check c n = if c.bypassed then record n { bypass = suc n.bypass } else add_bucket c.bucket n

unfoldable pub state_of : ℕ → PrCheckCounts → String
state_of total n =
    if eqb total 0
    then "NO_CHECKS"
    else if ltb 0 n.fail
    then "FAIL"
    else if ltb 0 n.unknown
    then "UNKNOWN"
    else if ltb 0 n.pending
    then "PENDING"
    else if ltb 0 n.cancel
    then "CANCEL"
    else if ltb 0 n.pass
    then "PASS"
    else if ltb 0 n.skip
    then "SKIP"
    else "BYPASS"

module _ (host : Host) where
  unfoldable pub evaluate_loop :
      Policy → String → List PrCheck → PrCheckCounts → List PrCheck × PrCheckCounts
  evaluate_loop p repo [] n = ([], n)
  evaluate_loop p repo (c ∷ cs) n =
      let marked = mark host p repo c in
      let (rest, m) = evaluate_loop p repo cs (count_check marked n) in (marked ∷ rest, m)

  -- The checks with the policy's fields, the state, and the counts.
  unfoldable pub evaluate_checks :
      Policy → String → List PrCheck → List PrCheck × String × PrCheckCounts
  evaluate_checks p repo checks =
      let (marked, n) = evaluate_loop p repo checks no_counts in
      (marked, state_of (length checks) n, n)

  unfoldable pub valid_repo : String → Bool
  valid_repo repo =
      host.repo_pattern repo
      && not (any (λ part. part == "." || part == "..") (host.split_slash repo))

  -- the names of one list, after those seen
  unfoldable pub validate : List String → List String → Result (Unit {0})
  validate seen [] = ok tt
  validate seen (name ∷ names) =
      let rest = validate (name ∷ seen) names in
      check (not (host.trim_space name == "" || not (name == host.trim_space name)))
        (failure "check names must be non-empty without surrounding whitespace")
      >> check (not (member name seen)) (failure "duplicate check name")
      >> rest

  abbrev pub set_repo :
      String → List String → (String → Option (List String)) → String → Option (List String)
  set_repo key names repos j = if key == j then some names else repos j

  -- the loop over the repos of the file, in the order in which Go's map yields them
  unfoldable pub normalize :
      List (String × List String)
      → (String → Option (List String))
      → Result (String → Option (List String))
  normalize [] done = ok done
  normalize ((repo, names) ∷ rest) done =
      let key = host.to_lower repo in
      let later = normalize rest (set_repo key names done) in
      check (valid_repo repo) (failure "invalid bypass repo")
      >> validate [] names
      >> (elim (done key) [ some _ ↦ err (failure "duplicate bypass repo") | none ↦ later ])

  -- `LoadPolicy` on what the decoder reads from a file: the global names and the repos
  unfoldable pub load_policy : List String × List (String × List String) → Result Policy
  load_policy (global, repos) = do
    validate [] global
    normalized ← normalize repos (λ j. none)
    ok (record { global = global; repos = normalized })
