-- ===== src/Review/Paging/Laws.antt =====
-- The pages of findings make up the findings, and a shortened text is as long as it may be.
use Prim.Native.String.{len, slice}
use text.Mathlib.Text.{is_char_boundary}
use text.Mathlib.TextPositions.{len-append, boundary-zero}
use saturnus.Base.{
  ℕ, zero, suc, ◌+◌, ◌-◌, ◌*◌, ◌≤◌, ◌<◌, min, String, ◌+++◌, true, false, ◌||◌, List, [], ◌∷◌, ◌++◌,
  ◌≡◌, ◌⊎◌, refl, ap, ◌∙◌, sym, inl, inr, arith, length, leb, ltb, Result, ok, err, Bool-cases, eqb,
  subst,
}
use saturnus.Store.Types.{ReviewFinding}
use saturnus.Review.Paging.{
  page_size, take, drop, section_of, pages_of, finding_page, cut, finding_text,
}

module _ {ℓ} {A : Type ℓ} where
  take_same : (n m : ℕ) (xs : List A) → n ≡ m → take n xs ≡ take m xs
  take_same n m xs e = ap (λ k. take k xs) e

  take_nil : (n : ℕ) → take {A = A} n [] ≡ []
  take_nil zero = refl
  take_nil (suc n) = refl

  take-drop : (a b : ℕ) (xs : List A) → take a xs ++ take b (drop a xs) ≡ take (a + b) xs
  take-drop zero b xs = take_same b (0 + b) xs (omega arith)
  take-drop (suc a) b [] = take_nil b ∙ sym (take_nil (suc a + b))
  take-drop (suc a) b (x ∷ xs) =
      ap (λ ys. x ∷ ys) (take-drop a b xs)
      ∙ take_same (suc (a + b)) (suc a + b) (x ∷ xs) (omega arith)

  length-drop : (a : ℕ) (xs : List A) → length (drop a xs) ≡ length xs - a
  length-drop zero xs = omega arith
  length-drop (suc a) [] = omega arith
  length-drop (suc a) (x ∷ xs) = omega (arith, length-drop a xs)

  take-min : (b : ℕ) (xs : List A) → take (min b (length xs)) xs ≡ take b xs
  take-min zero xs = take_same (min 0 (length xs)) 0 xs (omega arith)
  take-min (suc b) [] = take_nil (min (suc b) 0)
  take-min (suc b) (x ∷ xs) =
      take_same (min (suc b) (suc (length xs))) (suc (min b (length xs))) (x ∷ xs) (omega arith)
      ∙ ap (λ ys. x ∷ ys) (take-min b xs)

  take_all : (n : ℕ) (xs : List A) → length xs ≤ n → take n xs ≡ xs
  take_all zero [] h = refl
  take_all zero (x ∷ xs) h = absurd (omega arith)
  take_all (suc n) [] h = refl
  take_all (suc n) (x ∷ xs) h = ap (λ ys. x ∷ ys) (take_all n xs (omega arith))

  length-take : (n : ℕ) (xs : List A) → length (take n xs) ≤ n
  length-take zero xs = omega arith
  length-take (suc n) [] = omega arith
  length-take (suc n) (x ∷ xs) = omega (arith, length-take n xs)

  section-take :
      (a b : ℕ) (xs : List A) → section_of a (min (a + b) (length xs)) xs ≡ take b (drop a xs)
  section-take a b xs =
      ap (λ n. take n (drop a xs)) (omega (arith, length-drop a xs)) ∙ take-min b (drop a xs)

-- what a reply shows
abbrev pub items : Result (List ReviewFinding × ℕ) → List ReviewFinding
items (ok (shown, pages)) = shown
items (err e) = []

-- the first `n` pages, one after the other
abbrev pub first_pages : ℕ → List ReviewFinding → List ReviewFinding
first_pages zero findings = []
first_pages (suc n) findings = first_pages n findings ++ items (finding_page findings (suc n))

page_items :
    (findings : List ReviewFinding) (n : ℕ)
    → suc n ≤ pages_of (length findings)
    → items (finding_page findings (suc n)) ≡ take page_size (drop (n * page_size) findings)
unfolding finding_page
page_items findings n h =
    let inside : (ltb (suc n) 1 || ltb (pages_of (length findings)) (suc n)) ≡ false =
      ground arith in
    rw inside (
      ap (λ m. section_of m (min (m + page_size) (length findings)) findings) (omega arith)
      ∙ section-take (n * page_size) page_size findings)

first_pages-take :
    (findings : List ReviewFinding) (n : ℕ)
    → n ≤ pages_of (length findings)
    → first_pages n findings ≡ take (n * page_size) findings
first_pages-take findings zero h = take_same 0 (0 * page_size) findings (omega arith)
first_pages-take findings (suc n) h =
    rw (first_pages-take findings n (omega arith), page_items findings n h)
      (take-drop (n * page_size) page_size findings
        ∙ take_same (n * page_size + page_size) (suc n * page_size) findings (omega arith))

enough_pages : (n : ℕ) → n ≤ pages_of n * page_size
unfolding pages_of
enough_pages n = omega arith

-- The pages of the findings, one after the other, are the findings.
pub pages-join :
    (findings : List ReviewFinding) → first_pages (pages_of (length findings)) findings ≡ findings
pages-join findings =
    first_pages-take findings (pages_of (length findings)) (omega arith)
    ∙ take_all _ findings (enough_pages (length findings))

-- A page shows at most five findings.
pub page_bounded :
    (findings : List ReviewFinding) (page : ℕ) → length (items (finding_page findings page)) ≤ 5
unfolding finding_page
page_bounded findings page =
    let pages = pages_of (length findings) in
    let start = (page - 1) * page_size in
    let last = min (start + page_size) (length findings) in
    elim (Bool-cases (ltb page 1 || ltb pages page)) [
      | inl e ↦ rw e (omega arith)
      | inr e ↦ rw e (omega (arith, length-take (last - start) (drop start findings)))
    ]

module _ (s : String) where
  -- a cut at `c` of at most `n` bytes
  abbrev Cut : ℕ → ℕ → Type 0
  Cut n c =
      (c ≤ n)
      × (is_char_boundary s c ≡ true)
      × ((m : ℕ) → c < m → m ≤ n → is_char_boundary s m ≡ false)

  cut_here : (n : ℕ) → is_char_boundary s (suc n) ≡ true → cut s (suc n) ≡ suc n
  unfolding cut
  cut_here n e = rw e refl

  cut_earlier : (n : ℕ) → is_char_boundary s (suc n) ≡ false → cut s (suc n) ≡ cut s n
  unfolding cut
  cut_earlier n e = rw e refl

  cut_zero : cut s 0 ≡ 0
  unfolding cut
  cut_zero = refl

  beyond : (n : ℕ) → is_char_boundary s (suc n) ≡ false → Cut n (cut s n) → Cut (suc n) (cut s n)
  beyond n e (low, here, rest) = (
    omega arith,
    here,
    (λ m h k. elim (Bool-cases (eqb m (suc n))) [
      | inl f ↦ ap (is_char_boundary s) (ground (arith, f)) ∙ e
      | inr f ↦ rest m h (ground (arith, f))
    ]),
  )

  cut-Cut : (n : ℕ) → Cut n (cut s n)
  cut-Cut zero =
      subst (Cut 0) (sym cut_zero) (omega arith, boundary-zero s, (λ m h k. absurd (omega arith)))
  cut-Cut (suc n) = elim (Bool-cases (is_char_boundary s (suc n))) [
    | inl e ↦
        subst (Cut (suc n)) (sym (cut_here n e)) (omega arith, e, (λ m h k. absurd (omega arith)))
    | inr e ↦ subst (Cut (suc n)) (sym (cut_earlier n e)) (beyond n e (cut-Cut n))
  ]

  -- A text within the limit is left alone. A longer one keeps the bytes up to a place where a
  -- character begins, the last such place within the limit, and has an ellipsis of three bytes after
  -- them, so that it has at most three bytes more than the limit.
  pub finding_text-fits :
      (limit : ℕ)
      → ((len s ≤ limit) × (finding_text s limit ≡ s))
        ⊎ ((finding_text s limit ≡ slice s 0 (cut s limit) +++ "…")
            × (len (slice s 0 (cut s limit)) ≡ cut s limit)
            × ((m : ℕ) → cut s limit < m → m ≤ limit → is_char_boundary s m ≡ false)
            × (len (finding_text s limit) ≤ limit + 3))
  unfolding finding_text
  finding_text-fits limit =
      let (low, here, rest) = cut-Cut limit in
      let bytes : len (slice s 0 (cut s limit)) ≡ cut s limit = ground (arith, here) in
      elim (Bool-cases (leb (len s) limit)) [
        | inl e ↦ inl (ground (arith, e), rw e refl)
        | inr e ↦ inr (
          rw e refl,
          bytes,
          rest,
          rw e (omega (arith, low, len-append (slice s 0 (cut s limit)) "…", bytes)),
        )
      ]
