-- ===== src/Review/Paging.antt =====
-- Findings in pages of five, internal/review/findings.go: the page of a reply, the counts of the
-- summary, and the shortening of texts. The formatting of the reply is left out.
pub mod Laws
use Prim.Native.String.{len, slice}
use text.Mathlib.Text.{is_char_boundary}
use saturnus.Base.{
  ℕ, zero, suc, ◌+◌, ◌-◌, ◌*◌, ◌/◌, max, min, String, ◌+++◌, Bool, not, ◌&&◌, ◌||◌, List, [], ◌∷◌,
  ◌==◌, eqb, ltb, leb, length, or_text, if◌then◌else◌, Result, ok, err, failure, count_rows,
}
use saturnus.Store.Types.{ReviewFinding, ReviewRun}

abbrev pub page_size : ℕ
page_size = 5

module _ {ℓ} {A : Type ℓ} where
  abbrev pub take : ℕ → List A → List A
  take zero xs = []
  take (suc n) [] = []
  take (suc n) (x ∷ xs) = x ∷ take n xs

  abbrev pub drop : ℕ → List A → List A
  drop zero xs = xs
  drop (suc n) [] = []
  drop (suc n) (x ∷ xs) = drop n xs

  -- xs[first:last]
  abbrev pub section_of : ℕ → ℕ → List A → List A
  section_of first last xs = take (last - first) (drop first xs)

unfoldable pub pages_of : ℕ → ℕ
pages_of n = max 1 ((n + page_size - 1) / page_size)

-- The page's findings and the number of pages; a page that is not there is an error.
unfoldable pub finding_page : List ReviewFinding → ℕ → Result (List ReviewFinding × ℕ)
finding_page findings page =
    let pages = pages_of (length findings) in
    let start = (page - 1) * page_size in
    if ltb page 1 || ltb pages page
    then err (failure "finding page out of range")
    else ok (section_of start (min (start + page_size) (length findings)) findings, pages)

abbrev pub status_of : ReviewFinding → String
status_of f = or_text f.status "open"

-- the numbers of the summary
pub record Summary : Type 0 where
  pub total : ℕ
  pub p0 : ℕ
  pub p1 : ℕ
  pub p2 : ℕ
  pub open_count : ℕ
  pub addressed : ℕ
  pub commented : ℕ
  pub resolved : ℕ

unfoldable pub finding_summary : List ReviewFinding → Summary
finding_summary findings = record {
  total = length findings;
  p0 = count_rows (λ f. f.severity == "P0") findings;
  p1 = count_rows (λ f. f.severity == "P1") findings;
  p2 = count_rows (λ f. f.severity == "P2") findings;
  open_count = count_rows (λ f. status_of f == "open") findings;
  addressed = count_rows (λ f. status_of f == "addressed") findings;
  commented = count_rows (λ f. status_of f == "commented") findings;
  resolved = count_rows (λ f. status_of f == "resolved") findings;
}

-- the loop of `FindingText`: back from `n` to the start of a rune
unfoldable pub cut : String → ℕ → ℕ
cut s zero = 0
cut s (suc n) = let earlier = cut s n in if is_char_boundary s (suc n) then suc n else earlier

unfoldable pub finding_text : String → ℕ → String
finding_text s limit = if leb (len s) limit then s else slice s 0 (cut s limit) +++ "…"

-- The run's number, by its text, or the shortened id, or a dash.
unfoldable pub finding_run : (ℕ → String) → ReviewFinding → List ReviewRun → String
finding_run numbered f [] = if f.run_id == "" then "-" else finding_text f.run_id 100
finding_run numbered f (run ∷ runs) =
    let rest = finding_run numbered f runs in
    if not (f.run_id == "") && (run.id == f.run_id && ltb 0 run.seq) then numbered run.seq else rest
