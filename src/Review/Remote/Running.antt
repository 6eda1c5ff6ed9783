-- ===== src/Review/Remote/Running.antt =====
-- Counting the running runs of a review under the updates of the runs table.
use saturnus.Base.{
  ℕ, ◌≤◌, ◌+◌, ◌≡◌, refl, inl, inr, Bool, true, false, some, List, [], ◌∷◌, ◌++◌, arith,
  if◌then◌else◌, count_rows, update_rows, last_row, All, Bool-cases, Option-cases, ltb, last-count,
}
use mathlib.Core.Option.{some_inj}
use mathlib.Core.Path.{subst}

module _ {ℓ} {A : Type ℓ} where
  pub count-append :
      (p : A → Bool) (xs : List A) (a : A)
      → count_rows p (xs ++ a ∷ []) ≡ count_rows p xs + (if p a then 1 else 0)
  count-append p [] a = ground arith
  count-append p (x ∷ xs) a = ground (arith, count-append p xs a)

  -- An update after which a row meets the condition only if it did before adds none.
  pub count-update-le :
      (p q : A → Bool) (f : A → A) (xs : List A)
      → ((a : A) → p (f a) ≡ true → p a ≡ true)
      → count_rows p (update_rows q f xs) ≤ count_rows p xs
  count-update-le p q f [] h = omega arith
  count-update-le p q f (x ∷ xs) h = ground (arith, h x, count-update-le p q f xs h)

  -- An update that takes every row of the condition out of it leaves none.
  pub count-update_covered :
      (p q : A → Bool) (f : A → A) (xs : List A)
      → All (λ a. p a ≡ true → q a ≡ true) xs
      → ((a : A) → p (f a) ≡ false)
      → count_rows p (update_rows q f xs) ≡ 0
  count-update_covered p q f [] all h = refl
  count-update_covered p q f (x ∷ xs) all h = elim (Bool-cases (q x)) [
    | inl e ↦ rw (e, h x) (count-update_covered p q f xs all.1 h)
    | inr e ↦ elim (Bool-cases (p x)) [
      | inl b ↦ absurd (ground (arith, e, all.0 b))
      | inr b ↦ rw (e, b) (count-update_covered p q f xs all.1 h)
    ]
  ]

  none_meets :
      (p : A → Bool) (a : A) (xs : List A) → count_rows p xs ≡ 0 → All (λ x. p x ≡ true → x ≡ a) xs
  none_meets p a [] h = tt
  none_meets p a (x ∷ xs) h = (λ e. absurd (ground (arith, e)), none_meets p a xs (ground arith))

  -- Where at most one row meets the condition, the last such row is the only one.
  pub only_row :
      (m : A → ℕ) (p : A → Bool) (xs : List A) (a : A)
      → count_rows p xs ≤ 1
      → last_row m p xs ≡ some a
      → All (λ x. p x ≡ true → x ≡ a) xs
  only_row m p [] a h e = tt
  only_row m p (x ∷ xs) a h e = elim (Bool-cases (p x)) [
    | inr b ↦ (λ c. absurd (ground (arith, b, c)), only_row m p xs a (rw b at h) (rw b at e))
    | inl b ↦ elim (Option-cases (last_row m p xs)) [
      | inl n ↦ (λ _. ground (arith, n, b), none_meets p a xs (last-count m p xs n))
      | inr (y, n) ↦ absurd (ground (arith, last_count_pos xs y n, b))
    ]
  ]
    where
      last_count_pos : (ys : List A) (y : A) → last_row m p ys ≡ some y → 1 ≤ count_rows p ys
      last_count_pos [] y h = absurd (cc)
      last_count_pos (z ∷ ys) y h = elim (Bool-cases (p z)) [
        | inl c ↦ rw c (omega arith)
        | inr c ↦ rw c (last_count_pos ys y (rw c at h))
      ]

  pub All-last {κ} :
      (P : A → Type κ) (m : A → ℕ) (p : A → Bool) (xs : List A) (a : A)
      → All P xs
      → last_row m p xs ≡ some a
      → P a
  All-last P m p [] a all h = absurd (cc)
  All-last P m p (x ∷ xs) a all h = elim (Bool-cases (p x)) [
    | inr b ↦ All-last P m p xs a all.1 (rw b at h)
    | inl b ↦ elim (Option-cases (last_row m p xs)) [
      | inl n ↦ subst P (some_inj.0 (rw (b, n) at h)) all.0
      | inr (y, n) ↦ later y n b (All-last P m p xs y all.1 n) all.0
    ]
  ]
    where
      later : (y : A) → last_row m p xs ≡ some y → p x ≡ true → P y → P x → P a
      later y n b at_y at_x = elim (Bool-cases (ltb (m x) (m y))) [
        | inl l ↦ subst P (some_inj.0 (rw (b, n, l) at h)) at_y
        | inr l ↦ subst P (some_inj.0 (rw (b, n, l) at h)) at_x
      ]
