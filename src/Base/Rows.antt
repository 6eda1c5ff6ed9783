-- ===== src/Base/Rows.antt =====
-- SQL tables as lists of rows in the order of insertion: the statements that the store runs, and
-- the laws that its proofs use.
use Prim.Native.Nat.{◌≤◌, ◌<◌, ◌+◌, ℕ, suc}
use Prim.Native.String.{String}
use mathlib.Core.Path.{◌≡◌, refl, ap, subst}
use mathlib.Core.Bool.{Bool, true, false, not, ◌&&◌}
use mathlib.Core.Logic.{◌⊎◌, inl, inr}
use mathlib.Core.Option
use mathlib.Core.Option.{Option, none, some, some_inj}
use mathlib.Core.List.{List, [], ◌∷◌, ◌++◌}
use native.Mathlib.Omega.{arith}
use text.Mathlib.Text.{◌==◌}
use saturnus.Base.Tests.{Option-cases, if◌then◌else◌, ltb, Bool-cases}
use saturnus.Base.Lists.{any, All}

module _ {ℓ} {A : Type ℓ} where
  -- SELECT … WHERE p LIMIT 1
  abbrev pub find_row : (A → Bool) → List A → Option A
  find_row p [] = none
  find_row p (x ∷ xs) = if p x then some x else find_row p xs

  -- SELECT … WHERE p
  abbrev pub select_rows : (A → Bool) → List A → List A
  select_rows p [] = []
  select_rows p (x ∷ xs) = let rest = select_rows p xs in if p x then x ∷ rest else rest

  -- SELECT COUNT(*) … WHERE p, and the rows affected by an UPDATE with that condition
  abbrev pub count_rows : (A → Bool) → List A → ℕ
  count_rows p [] = 0
  count_rows p (x ∷ xs) = let rest = count_rows p xs in if p x then suc rest else rest

  -- DELETE … WHERE p
  abbrev pub delete_rows : (A → Bool) → List A → List A
  delete_rows p = select_rows (λ x. not (p x))

  -- SELECT DISTINCT: of the rows that compare the same, the first
  abbrev pub distinct_rows : (A → A → Bool) → List A → List A
  distinct_rows same [] = []
  distinct_rows same (x ∷ xs) = x ∷ delete_rows (same x) (distinct_rows same xs)

  -- one row under UPDATE … SET f WHERE p
  abbrev pub touch : (A → Bool) → (A → A) → A → A
  touch p f x = if p x then f x else x

  -- UPDATE … SET f WHERE p
  abbrev pub update_rows : (A → Bool) → (A → A) → List A → List A
  update_rows p f [] = []
  update_rows p f (x ∷ xs) = touch p f x ∷ update_rows p f xs

  -- of two rows the one that ORDER BY m DESC puts first
  abbrev pub later_of : (A → ℕ) → A → Option A → Option A
  later_of m x none = some x
  later_of m x (some y) = if ltb (m x) (m y) then some y else some x

  -- SELECT … WHERE p ORDER BY m DESC LIMIT 1
  abbrev pub last_row : (A → ℕ) → (A → Bool) → List A → Option A
  last_row m p [] = none
  last_row m p (x ∷ xs) = let rest = last_row m p xs in if p x then later_of m x rest else rest

  -- SELECT MAX(m) … WHERE p, with 0 for NULL
  abbrev pub max_row : (A → ℕ) → (A → Bool) → List A → ℕ
  max_row m p [] = 0
  max_row m p (x ∷ xs) =
      let rest = max_row m p xs in if p x then (if ltb rest (m x) then m x else rest) else rest

  -- The key is a primary key: no two rows share it.
  abbrev pub Keyed : (A → String) → List A → Type ℓ
  Keyed key [] = Unit
  Keyed key (x ∷ xs) = All (λ y. (key y == key x) ≡ false) xs × Keyed key xs

module _ {ℓ} {A : Type ℓ} where
  -- The row that is found meets the condition.
  pub find_row_holds : (p : A → Bool) (xs : List A) (a : A) → find_row p xs ≡ some a → p a ≡ true
  find_row_holds p [] a h = cc
  find_row_holds p (x ∷ xs) a h = elim (Bool-cases (p x)) [
    | inl e ↦ ground (arith, e)
    | inr e ↦ find_row_holds p xs a (rw e at h)
  ]

  pub All-find {κ} :
      (P : A → Type κ) (p : A → Bool) (xs : List A) (a : A)
      → All P xs
      → find_row p xs ≡ some a
      → P a
  All-find P p [] a all h = absurd (cc)
  All-find P p (x ∷ xs) a all h = elim (Bool-cases (p x)) [
    | inl e ↦ subst P (some_inj.0 (rw e at h)) all.0
    | inr e ↦ All-find P p xs a all.1 (rw e at h)
  ]

  pub All-update {κ} :
      (P : A → Type κ) (p : A → Bool) (f : A → A) (xs : List A)
      → ((a : A) → p a ≡ true → P a → P (f a))
      → All P xs
      → All P (update_rows p f xs)
  All-update P p f [] keep all = tt
  All-update P p f (x ∷ xs) keep all = elim (Bool-cases (p x)) [
    | inl e ↦ (rw e (keep x e all.0), All-update P p f xs keep all.1)
    | inr e ↦ (rw e all.0, All-update P p f xs keep all.1)
  ]

  pub All-append {κ} :
      (P : A → Type κ) (xs : List A) (a : A) → All P xs → P a → All P (xs ++ a ∷ [])
  All-append P [] a all h = (h, tt)
  All-append P (x ∷ xs) a all h = (all.0, All-append P xs a all.1 h)

  pub All-map {κ ι} :
      (P : A → Type κ) (Q : A → Type ι) (xs : List A) → ((a : A) → P a → Q a) → All P xs → All Q xs
  All-map P Q [] h all = tt
  All-map P Q (x ∷ xs) h all = (h x all.0, All-map P Q xs h all.1)

  -- Each selected row was there, and meets the condition.
  pub All-select : (p : A → Bool) (xs : List A) → All (λ a. p a ≡ true) (select_rows p xs)
  All-select p [] = tt
  All-select p (x ∷ xs) = elim (Bool-cases (p x)) [
    | inl e ↦ rw e (e, All-select p xs)
    | inr e ↦ rw e (All-select p xs)
  ]

  -- An UPDATE that affects no row changes nothing.
  pub update_none :
      (p : A → Bool) (f : A → A) (xs : List A) → count_rows p xs ≡ 0 → update_rows p f xs ≡ xs
  update_none p f [] h = refl
  update_none p f (x ∷ xs) h = elim (Bool-cases (p x)) [
    | inl e ↦ absurd (omega (arith, rw e at h))
    | inr e ↦ rw e (ap (λ ys. x ∷ ys) (update_none p f xs (rw e at h)))
  ]

  -- After the update no row meets `q`, if none that was left alone does and no changed one does.
  pub count-update_none :
      (p : A → Bool) (f : A → A) (q : A → Bool) (xs : List A)
      → ((a : A) → p a ≡ true → q (f a) ≡ false)
      → ((a : A) → p a ≡ false → q a ≡ false)
      → count_rows q (update_rows p f xs) ≡ 0
  count-update_none p f q [] h k = refl
  count-update_none p f q (x ∷ xs) h k = elim (Bool-cases (p x)) [
    | inl e ↦ rw (e, h x e) (count-update_none p f q xs h k)
    | inr e ↦ rw (e, k x e) (count-update_none p f q xs h k)
  ]

  -- A search by what the update leaves alone finds the row that it found, updated.
  pub find-update :
      (p : A → Bool) (f : A → A) (k : A → Bool) (xs : List A)
      → ((a : A) → k (f a) ≡ k a)
      → find_row k (update_rows p f xs) ≡ Option.map (touch p f) (find_row k xs)
  find-update p f k [] h = refl
  find-update p f k (x ∷ xs) h = ground (arith, h x, find-update p f k xs h)

  pub any-find_none : (p : A → Bool) (xs : List A) → any p xs ≡ false → find_row p xs ≡ none
  any-find_none p [] h = refl
  any-find_none p (x ∷ xs) h = ground (arith, any-find_none p xs)

  pub count_zero-any : (p : A → Bool) (xs : List A) → count_rows p xs ≡ 0 → any p xs ≡ false
  count_zero-any p [] h = refl
  count_zero-any p (x ∷ xs) h = ground (arith, count_zero-any p xs)

  pub find_none-any : (p : A → Bool) (xs : List A) → find_row p xs ≡ none → any p xs ≡ false
  find_none-any p [] h = refl
  find_none-any p (x ∷ xs) h = ground (arith, find_none-any p xs)

  pub find_some-any :
      (p : A → Bool) (xs : List A) (a : A) → find_row p xs ≡ some a → any p xs ≡ true
  find_some-any p [] a h = absurd (cc)
  find_some-any p (x ∷ xs) a h = ground (arith, find_some-any p xs a)

  pub find-append_some :
      (p : A → Bool) (xs : List A) (a b : A)
      → find_row p xs ≡ some b
      → find_row p (xs ++ a ∷ []) ≡ some b
  find-append_some p [] a b h = absurd (cc)
  find-append_some p (x ∷ xs) a b h = ground (arith, find-append_some p xs a b)

  pub find-append_none :
      (p : A → Bool) (xs : List A) (a : A)
      → find_row p xs ≡ none
      → find_row p (xs ++ a ∷ []) ≡ (if p a then some a else none)
  find-append_none p [] a h = refl
  find-append_none p (x ∷ xs) a h = ground (arith, find-append_none p xs a)

  -- A condition that no row meets is met by no row that is found.
  pub count_zero-find :
      (p k : A → Bool) (xs : List A) (a : A)
      → count_rows (λ x. k x && p x) xs ≡ 0
      → find_row k xs ≡ some a
      → p a ≡ false
  count_zero-find p k [] a h e = absurd (cc)
  count_zero-find p k (x ∷ xs) a h e = ground (arith, count_zero-find p k xs a)

  pub count-find_none :
      (p k : A → Bool) (xs : List A) → find_row k xs ≡ none → count_rows (λ x. k x && p x) xs ≡ 0
  count-find_none p k [] h = refl
  count-find_none p k (x ∷ xs) h = ground (arith, count-find_none p k xs)

  -- A condition that some row meets has a row to show.
  pub count-find :
      (p : A → Bool) (xs : List A)
      → (count_rows p xs ≡ 0) ⊎ ((a : A) × (find_row p xs ≡ some a) × (p a ≡ true))
  count-find p [] = inl refl
  count-find p (x ∷ xs) = elim (Bool-cases (p x)) [
    | inl e ↦ inr (x, rw e, e)
    | inr e ↦ rw e (count-find p xs)
  ]

  -- Taking one row out of a list, for counts and for predicates.
  pub count-split :
      (p : A → Bool) (xs ys : List A) (a : A)
      → count_rows p (xs ++ a ∷ ys) ≡ count_rows p (xs ++ ys) + (if p a then 1 else 0)
  count-split p [] ys a = ground arith
  count-split p (x ∷ xs) ys a = ground (arith, count-split p xs ys a)

  pub All-split {κ} :
      (P : A → Type κ) (xs ys : List A) (a : A) → All P (xs ++ a ∷ ys) → P a × All P (xs ++ ys)
  All-split P [] ys a all = all
  All-split P (x ∷ xs) ys a all = let (h, rest) = All-split P xs ys a all.1 in (h, (all.0, rest))

  pub All-insert {κ} :
      (P : A → Type κ) (xs ys : List A) (a : A) → P a → All P (xs ++ ys) → All P (xs ++ a ∷ ys)
  All-insert P [] ys a h all = (h, all)
  All-insert P (x ∷ xs) ys a h all = (all.0, All-insert P xs ys a h all.1)

  pub count_zero-All :
      (p : A → Bool) (xs : List A) → count_rows p xs ≡ 0 → All (λ x. p x ≡ false) xs
  count_zero-All p [] h = tt
  count_zero-All p (x ∷ xs) h = elim (Bool-cases (p x)) [
    | inl e ↦ absurd (omega (arith, rw e at h))
    | inr e ↦ (e, count_zero-All p xs (rw e at h))
  ]

  pub count-le :
      (p q : A → Bool) (xs : List A)
      → All (λ x. p x ≡ true → q x ≡ true) xs
      → count_rows p xs ≤ count_rows q xs
  count-le p q [] h = omega arith
  count-le p q (x ∷ xs) h = elim (Bool-cases (p x)) [
    | inl e ↦ rw (e, h.0 e) (omega (arith, count-le p q xs h.1))
    | inr e ↦ rw e (ground (arith, count-le p q xs h.1))
  ]

  pub count_false : (p : A → Bool) (xs : List A) → ((x : A) → p x ≡ false) → count_rows p xs ≡ 0
  count_false p [] h = refl
  count_false p (x ∷ xs) h = rw (h x) (count_false p xs h)

  pub All-both {κ ι} :
      (P : A → Type κ) (Q : A → Type ι) (xs : List A)
      → All P xs
      → All Q xs
      → All (λ x. P x × Q x) xs
  All-both P Q [] h k = tt
  All-both P Q (x ∷ xs) h k = ((h.0, k.0), All-both P Q xs h.1 k.1)

  pub count-and : (p q : A → Bool) (xs : List A) → count_rows (λ x. p x && q x) xs ≤ count_rows p xs
  count-and p q [] = omega arith
  count-and p q (x ∷ xs) = ground (arith, count-and p q xs)

module _ {ℓ} {A : Type ℓ} (m : A → ℕ) (p : A → Bool) where
  -- Every row of the selection is within the greatest measure.
  pub max_row-le : (xs : List A) (n : ℕ) → max_row m p xs ≤ n → All (λ x. p x ≡ true → m x ≤ n) xs
  max_row-le [] n h = tt
  max_row-le (x ∷ xs) n h = (λ e. ground (arith, e), max_row-le xs n (ground arith))

  -- A row that is appended with a greater measure is the last.
  pub last_row-append :
      (xs : List A) (a : A)
      → p a ≡ true
      → max_row m p xs < m a
      → last_row m p (xs ++ a ∷ []) ≡ some a
  last_row-append [] a e h = rw e
  last_row-append (x ∷ xs) a e h = ground (arith, last_row-append xs a e (ground arith))

  pub last_row_holds : (xs : List A) (a : A) → last_row m p xs ≡ some a → p a ≡ true
  last_row_holds [] a h = cc
  last_row_holds (x ∷ xs) a h = elim (Option-cases (last_row m p xs)) [
    | inl e ↦ ground (arith, e)
    | inr (y, e) ↦ ground (arith, e, last_row_holds xs y e)
  ]

  -- Nothing is last exactly when nothing is selected.
  pub last-count : (xs : List A) → last_row m p xs ≡ none → count_rows p xs ≡ 0
  last-count [] h = refl
  last-count (x ∷ xs) h = ground (arith, last-count xs)
