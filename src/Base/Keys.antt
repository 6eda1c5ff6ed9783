-- ===== src/Base/Keys.antt =====
-- Tables with a primary key: what an update by key finds, changes and leaves alone.
use Prim.Native.String.{String}
use mathlib.Core.Path.{◌≡◌, refl, sym, ap, ◌∙◌}
use mathlib.Core.Bool.{Bool, true, false, ◌&&◌}
use mathlib.Core.Logic.{◌≢◌, inl, inr}
use mathlib.Core.Option.{none, some, some_inj}
use mathlib.Core.List.{List, [], ◌∷◌, ◌++◌}
use native.Mathlib.Omega.{arith}
use text.Mathlib.Text.{◌==◌}
use text.Mathlib.TextEquality.{eq_iff}
use text.Mathlib.TextPositions.{eq_refl}
use saturnus.Base.Tests.{Option-cases, if◌then◌else◌, Bool-cases, eq_sym}
use saturnus.Base.Rows.{
  find_row, count_rows, update_rows, touch, Keyed, All-append, All-find, count-find_none,
  find-update, find_row_holds,
}
use saturnus.Base.Lists.{All}

module _ {ℓ} {A : Type ℓ} (key : A → String) where
  -- Below a row with the key no other has it.
  count_none :
      (k : String) (p : A → Bool) (x : A) (xs : List A)
      → All (λ y. (key y == key x) ≡ false) xs
      → (key x == k) ≡ true
      → count_rows (λ y. key y == k && p y) xs ≡ 0
  count_none k p x [] h e = refl
  count_none k p x (y ∷ ys) h e = ground (
    arith,
    count_none k p x ys h.1 e,
    eq_iff (key x) k,
    eq_iff (key y) k,
    eq_iff (key y) (key x),
    h.0,
  )

  -- At most one row has a given primary key.
  pub count_by_key :
      (k : String) (p : A → Bool) (xs : List A) (a : A)
      → Keyed key xs
      → find_row (λ x. key x == k) xs ≡ some a
      → count_rows (λ x. key x == k && p x) xs ≡ (if p a then 1 else 0)
  count_by_key k p [] a u h = absurd (cc)
  count_by_key k p (x ∷ xs) a u h = elim (Bool-cases (key x == k)) [
    | inl e ↦ ground (arith, count_none k p x xs u.0 e)
    | inr e ↦ rw e (count_by_key k p xs a u.1 (rw e at h))
  ]

  -- A row that a search finds is the one with its key.
  pub find-own_key :
      (p : A → Bool) (xs : List A) (a : A)
      → Keyed key xs
      → find_row p xs ≡ some a
      → find_row (λ x. key x == key a) xs ≡ some a
  find-own_key p [] a u h = absurd (cc)
  find-own_key p (x ∷ xs) a u h = elim (Bool-cases (p x)) [
    | inl e ↦ let same = some_inj.0 (rw e at h) in rw (sym same, eq_refl (key x)) refl
    | inr e ↦
        let rest : find_row p xs ≡ some a = rw e at h in
        rw (eq_sym (key x) (key a), All-find _ p xs a u.0 rest) (find-own_key p xs a u.1 rest)
  ]

  pub Keyed-update :
      (p : A → Bool) (f : A → A) (xs : List A)
      → ((a : A) → key (f a) ≡ key a)
      → Keyed key xs
      → Keyed key (update_rows p f xs)
  Keyed-update p f [] h u = tt
  Keyed-update p f (x ∷ xs) h u = (apart xs u.0, Keyed-update p f xs h u.1)
    where
      same : (a : A) → key (touch p f a) ≡ key a
      same a = ground (arith, h a)

      apart :
          (ys : List A)
          → All (λ y. (key y == key x) ≡ false) ys
          → All (λ y. (key y == key (touch p f x)) ≡ false) (update_rows p f ys)
      apart [] all = tt
      apart (y ∷ ys) all = (rw (same y, same x) all.0, apart ys all.1)

  pub Keyed-append :
      (xs : List A) (a : A)
      → Keyed key xs
      → find_row (λ x. key x == key a) xs ≡ none
      → Keyed key (xs ++ a ∷ [])
  Keyed-append [] a u h = (tt, tt)
  Keyed-append (x ∷ xs) a u h = elim (Bool-cases (key x == key a)) [
    | inl e ↦ absurd (ground (arith, e))
    | inr e ↦ (
      All-append (λ y. (key y == key x) ≡ false) xs a u.0 (eq_sym (key a) (key x) ∙ e),
      Keyed-append xs a u.1 (rw e at h),
    )
  ]

  -- An update by primary key and condition that affects a row affects the one with the key.
  pub update_one :
      (k : String) (p : A → Bool) (f : A → A) (xs : List A)
      → Keyed key xs
      → ((a : A) → key (f a) ≡ key a)
      → count_rows (λ x. key x == k && p x) xs ≢ 0
      → (a : A) × (find_row (λ x. key x == k) xs ≡ some a)
        × (p a ≡ true)
        × (find_row (λ x. key x == k) (update_rows (λ x. key x == k && p x) f xs) ≡ some (f a))
  update_one k p f xs u keep hit = elim (Option-cases (find_row (λ x. key x == k) xs)) [
    | inl e ↦ absurd (hit (count-find_none p (λ x. key x == k) xs e))
    | inr (a, e) ↦ elim (Bool-cases (p a)) [
      | inr out ↦ absurd (hit (count_by_key k p xs a u e ∙ ap (λ b. if b then 1 else 0) out))
      | inl inside ↦ (
        a,
        e,
        inside,
        find-update (λ x. key x == k && p x) f (λ x. key x == k) xs (λ x. ap (λ i. i == k) (keep x))
            ∙ rw e (rw (find_row_holds (λ x. key x == k) xs a e, inside)),
      )
    ]
  ]

  -- An update of rows with one key leaves the row of another key alone.
  pub find-update_other :
      (k j : String) (p : A → Bool) (f : A → A) (xs : List A)
      → ((a : A) → p a ≡ true → (key a == k) ≡ true)
      → ((a : A) → key (f a) ≡ key a)
      → (k == j) ≡ false
      → find_row (λ x. key x == j) (update_rows p f xs) ≡ find_row (λ x. key x == j) xs
  find-update_other k j p f [] h keep n = refl
  find-update_other k j p f (x ∷ xs) h keep n = ground (
    arith,
    h x,
    keep x,
    eq_iff (key x) k,
    eq_iff (key x) j,
    eq_iff k j,
    find-update_other k j p f xs h keep n,
  )
