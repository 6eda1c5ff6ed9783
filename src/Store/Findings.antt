-- ===== src/Store/Findings.antt =====
-- The findings of a review, internal/store/store.go: SaveFindings merges what a run submits into
-- the findings of earlier rounds.
pub mod Laws
use saturnus.Base.{
  ℕ, suc, String, ◌+++◌, Bool, true, false, not, ◌&&◌, ◌||◌, Option, none, some, List, [], ◌∷◌,
  ◌++◌, ◌==◌, if◌then◌else◌, or_text, or_number, Result, ok, err, Error, constraint,
  foreign_finding, commit, check, find_row, select_rows, update_rows, any, or_fail, ◌>>=◌, ◌>>◌,
}
use saturnus.Store.Types.{Time, Env, ReviewFinding, Store}

abbrev pub is_finding : String → String → ReviewFinding → Bool
is_finding id review_id r = r.id == id && r.review_id == review_id

-- a run that a finding names must be there (NULL, the empty text, names none)
abbrev pub run_exists : String → Store → Bool
run_exists run_id s = run_id == "" || any (λ r. r.id == run_id) s.runs

-- the stored finding with the fields that the submitted one sets
unfoldable pub merge_finding : String → ReviewFinding → ReviewFinding → ReviewFinding
merge_finding run_id f existing = record existing {
  run_id = run_id;
  severity = or_text f.severity existing.severity;
  path = or_text f.path existing.path;
  line = or_number f.line existing.line;
  title = or_text f.title existing.title;
  message = or_text f.message existing.message;
  suggestion = or_text f.suggestion existing.suggestion;
  status = or_text f.status existing.status;
}

-- UPDATE review_findings, of the columns that the statement names
replace_finding : String → String → ReviewFinding → Store → Store
replace_finding review_id id merged s = record s {
  findings =
      update_rows (is_finding id review_id)
        (λ r. record merged {
          id = r.id;
          review_id = r.review_id;
          github_comment_id = r.github_comment_id;
          created_at = r.created_at;
        })
        s.findings;
}

update_finding : String → String → ReviewFinding → Store → Result Store
unfolding replace_finding
update_finding review_id run_id f s = do
  existing ← or_fail (find_row (is_finding f.id review_id) s.findings) (foreign_finding f.id)
  check (run_exists run_id s) constraint
  ok (replace_finding review_id f.id (merge_finding run_id f existing) s)

-- a finding without an id, as it is inserted; `n` counts the ids drawn
unfoldable pub new_finding : Env → ℕ → String → String → ReviewFinding → ReviewFinding
new_finding env n review_id run_id f = record f {
  id = "fnd_" +++ env.new_id n;
  review_id = review_id;
  run_id = run_id;
  status = or_text f.status "open";
  github_comment_id = "";
  created_at = or_number f.created_at env.now;
}

insert_finding : ReviewFinding → Store → Result Store
insert_finding f s =
    if any (λ r. r.id == f.id) s.findings
      || not (any (λ r. r.id == f.review_id) s.reviews)
      || not (run_exists f.run_id s)
    then err constraint
    else ok (record s { findings = s.findings ++ f ∷ [] })

save_finding : Env → ℕ → String → String → ReviewFinding → Store → Result Store
unfolding update_finding replace_finding new_finding insert_finding
save_finding env n review_id run_id f s =
    if f.id == ""
    then insert_finding (new_finding env n review_id run_id f) s
    else update_finding review_id run_id f s

-- the loop of `saveFindingsTx`
save_findings_from : Env → ℕ → String → String → List ReviewFinding → Store → Result Store
save_findings_from env n review_id run_id [] s = ok s
save_findings_from env n review_id run_id (f ∷ fs) s =
    save_finding env n review_id run_id f s >>= λ t.
    save_findings_from env (suc n) review_id run_id fs t

unfoldable pub save_findings_tx : Env → String → String → List ReviewFinding → Store → Result Store
unfolding save_findings_from save_finding
save_findings_tx env = save_findings_from env 0

with_unit : Result Store → Result (Store × Unit {0})
with_unit r = r >>= λ t. ok (t, tt)

unfoldable pub save_findings :
    Env → String → String → List ReviewFinding → Store → Store × Result (Unit {0})
unfolding with_unit
save_findings env review_id run_id fs s =
    commit s (with_unit (save_findings_tx env review_id run_id fs s))

unfoldable pub set_finding_comment_id : String → String → Store → Store
set_finding_comment_id id comment_id s = record s {
  findings =
      update_rows (λ r. r.id == id) (λ r. record r { github_comment_id = comment_id }) s.findings;
}

unfoldable pub update_finding_status : String → String → Store → Store
update_finding_status id status s = record s {
  findings = update_rows (λ r. r.id == id) (λ r. record r { status = status }) s.findings;
}

-- in the order of insertion
unfoldable pub list_findings : String → Store → List ReviewFinding
list_findings review_id s = select_rows (λ r. r.review_id == review_id) s.findings
