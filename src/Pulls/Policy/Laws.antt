-- ===== src/Pulls/Policy/Laws.antt =====
-- What the counts and the state of a set of checks say of the checks.
use text.Mathlib.TextPositions.{len-append}
use Prim.Native.String.{len}
use saturnus.Base.{
  ne→eq_false, count_zero-All, All-map, All-both, member, length-map, eq_one, ℕ, ◌+◌, ◌+++◌, ◌≤◌,
  ◌≡◌, refl, ap, inl, inr, String, Bool, true, false, not, ◌&&◌, ◌||◌, List, [], ◌∷◌, ◌==◌, eqb,
  ltb, length, map, count_rows, All, arith, Bool-cases,
}
use saturnus.Pulls.Types.{PrCheck, PrCheckCounts, no_counts}
use saturnus.Pulls.Policy.{
  names_for, Host, Policy, rule, mark, count_check, state_of, evaluate_loop, evaluate_checks,
}

-- whether a check counts, and for the bucket
abbrev pub effective : String → PrCheck → Bool
effective bucket c = not c.bypassed && c.bucket == bucket

abbrev pub known : PrCheck → Bool
known c =
    c.bucket == "pass"
    || (c.bucket == "fail"
        || (c.bucket == "pending" || (c.bucket == "cancel" || c.bucket == "skip")))

-- The counts by selection: an independent description of the loop.
abbrev pub tally : List PrCheck → PrCheckCounts
tally cs = record {
  pass = count_rows (effective "pass") cs;
  fail = count_rows (effective "fail") cs;
  pending = count_rows (effective "pending") cs;
  cancel = count_rows (effective "cancel") cs;
  skip = count_rows (effective "skip") cs;
  unknown = count_rows (λ c. not c.bypassed && not (known c)) cs;
  bypass = count_rows (λ c. c.bypassed) cs;
}

abbrev plus : PrCheckCounts → PrCheckCounts → PrCheckCounts
plus n m = record {
  pass = n.pass + m.pass;
  fail = n.fail + m.fail;
  pending = n.pending + m.pending;
  cancel = n.cancel + m.cancel;
  skip = n.skip + m.skip;
  unknown = n.unknown + m.unknown;
  bypass = n.bypass + m.bypass;
}

same_counts :
    (a b : PrCheckCounts)
    → a.pass ≡ b.pass
    → a.fail ≡ b.fail
    → a.pending ≡ b.pending
    → a.cancel ≡ b.cancel
    → a.skip ≡ b.skip
    → a.unknown ≡ b.unknown
    → a.bypass ≡ b.bypass
    → a ≡ b
same_counts a b p q r s t u v = λ i. record {
  pass = p i;
  fail = q i;
  pending = r i;
  cancel = s i;
  skip = t i;
  unknown = u i;
  bypass = v i;
}

count_step :
    (c : PrCheck) (n : PrCheckCounts) (cs : List PrCheck)
    → plus (count_check c n) (tally cs) ≡ plus n (tally (c ∷ cs))
unfolding count_check
count_step c n cs =
    same_counts _ _ (ground (arith)) (ground (arith, eq_one c.bucket "pass" "fail" refl))
      (ground (arith, eq_one c.bucket "pass" "pending" refl, eq_one c.bucket "fail" "pending" refl))
      (ground (
        arith,
        eq_one c.bucket "pass" "cancel" refl,
        eq_one c.bucket "fail" "cancel" refl,
        eq_one c.bucket "pending" "cancel" refl,
      ))
      (ground (
        arith,
        eq_one c.bucket "pass" "skip" refl,
        eq_one c.bucket "fail" "skip" refl,
        eq_one c.bucket "pending" "skip" refl,
        eq_one c.bucket "cancel" "skip" refl,
      ))
      (ground arith) (ground arith)

plus_zero : (n : PrCheckCounts) → plus no_counts n ≡ n
plus_zero n =
    same_counts _ _ (omega arith) (omega arith) (omega arith) (omega arith) (omega arith)
      (omega arith) (omega arith)

loop_lem :
    (host : Host) (p : Policy) (repo : String) (cs : List PrCheck) (n : PrCheckCounts)
    → evaluate_loop host p repo cs n
      ≡ (map (mark host p repo) cs, plus n (tally (map (mark host p repo) cs)))
unfolding evaluate_loop
loop_lem host p repo [] n =
    ap (λ m. ([], m))
      (same_counts _ _ (omega arith) (omega arith) (omega arith) (omega arith) (omega arith)
        (omega arith) (omega arith))
loop_lem host p repo (c ∷ cs) n =
    let marked = mark host p repo c in
    let rest = map (mark host p repo) cs in
    rw (loop_lem host p repo cs (count_check marked n))
      (ap (λ m. (marked ∷ rest, m)) (count_step marked n rest))

pub tally_total :
    (cs : List PrCheck)
    → let n = tally cs in
      n.pass + n.fail + n.pending + n.cancel + n.skip + n.unknown + n.bypass ≡ length cs
tally_total [] = omega arith
tally_total (c ∷ cs) = ground (
  arith,
  tally_total cs,
  eq_one c.bucket "pass" "fail" refl,
  eq_one c.bucket "pass" "pending" refl,
  eq_one c.bucket "pass" "cancel" refl,
  eq_one c.bucket "pass" "skip" refl,
  eq_one c.bucket "fail" "pending" refl,
  eq_one c.bucket "fail" "cancel" refl,
  eq_one c.bucket "fail" "skip" refl,
  eq_one c.bucket "pending" "cancel" refl,
  eq_one c.bucket "pending" "skip" refl,
  eq_one c.bucket "cancel" "skip" refl,
)

-- The loop marks every check and counts the marked ones.
pub evaluate-shape :
    (host : Host) (p : Policy) (repo : String) (checks : List PrCheck)
    → let marked = map (mark host p repo) checks in
      evaluate_checks host p repo checks
      ≡ (marked, state_of (length checks) (tally marked), tally marked)
unfolding evaluate_checks
evaluate-shape host p repo checks =
    let marked = map (mark host p repo) checks in
    rw (loop_lem host p repo checks no_counts)
      (ap (λ m. (marked, state_of (length checks) m, m)) (plus_zero (tally marked)))

-- a check that does not stand in the way
abbrev pub clean : PrCheck → Bool
clean c = c.bypassed || (c.bucket == "pass" || c.bucket == "skip")

dirty_count :
    (cs : List PrCheck)
    → let n = tally cs in
      count_rows (λ c. not (clean c)) cs ≤ n.fail + n.pending + n.cancel + n.unknown
dirty_count [] = omega arith
dirty_count (c ∷ cs) = ground (arith, dirty_count cs)

-- the states that let a pull request through
abbrev pub is_green : String → Bool
is_green s = s == "PASS" || (s == "SKIP" || s == "BYPASS")

green_counts :
    (total : ℕ) (n : PrCheckCounts)
    → is_green (state_of total n) ≡ true
    → n.fail + n.pending + n.cancel + n.unknown ≡ 0
unfolding state_of
green_counts total n h = elim (Bool-cases (eqb total 0)) [
  | inl e ↦ absurd (cc (h, e))
  | inr e ↦ elim (Bool-cases (ltb 0 n.fail)) [
    | inl f ↦ absurd (cc (h, e, f))
    | inr f ↦ elim (Bool-cases (ltb 0 n.unknown)) [
      | inl g ↦ absurd (cc (h, e, f, g))
      | inr g ↦ elim (Bool-cases (ltb 0 n.pending)) [
        | inl i ↦ absurd (cc (h, e, f, g, i))
        | inr i ↦ elim (Bool-cases (ltb 0 n.cancel)) [
          | inl j ↦ absurd (cc (h, e, f, g, i, j))
          | inr j ↦ ground (arith, f, g, i, j)
        ]
      ]
    ]
  ]
]

prefixed : (t : String) → ("repo:" +++ t == "") ≡ false
prefixed t = ne→eq_false ("repo:" +++ t) "" (λ e. omega (arith, len-append "repo:" t, ap len e))

module _ (host : Host) (p : Policy) (repo : String) where
  pub rule_lem :
      (name : String)
      → not (rule host p repo name == "")
        ≡ (member name (names_for host p repo) || member name p.global)
  unfolding rule
  rule_lem name = elim (Bool-cases (member name (names_for host p repo))) [
    | inl e ↦ rw (e, prefixed (host.to_lower repo)) refl
    | inr e ↦
        rw e (elim (Bool-cases (member name p.global)) [ inl f ↦ rw f refl | inr f ↦ rw f refl ])
  ]

  marked_names :
      (checks : List PrCheck)
      → All
          (λ c. c.bypassed ≡ (member c.name (names_for host p repo) || member c.name p.global))
          (map (mark host p repo) checks)
  unfolding mark
  marked_names [] = tt
  marked_names (c ∷ cs) = (rule_lem c.name, marked_names cs)

  all_clean :
      (cs : List PrCheck)
      → is_green (state_of (length cs) (tally cs)) ≡ true
      → All (λ c. clean c ≡ true) cs
  all_clean cs h =
      All-map _ _ cs (λ c e. ground (arith, e))
        (count_zero-All (λ c. not (clean c)) cs
          (ground (arith, dirty_count cs, green_counts (length cs) (tally cs) h)))

  -- Where the state of the checks is PASS, SKIP or BYPASS, each check is bypassed or its bucket is
  -- pass or skip, and a check is bypassed exactly if the policy names it for the repo or globally.
  pub green-clean :
      (checks : List PrCheck)
      → is_green (evaluate_checks host p repo checks).1 ≡ true
      → All
          (λ c.
            (clean c ≡ true)
            × (c.bypassed ≡ (member c.name (names_for host p repo) || member c.name p.global)))
          (evaluate_checks host p repo checks).0
  green-clean checks h =
      let marked = map (mark host p repo) checks in
      let shape = evaluate-shape host p repo checks in
      let total = length-map (mark host p repo) checks in
      rw shape
        (All-both _ _ marked (all_clean marked (rw total (rw shape at h))) (marked_names checks))
