-- ===== src/Base/Results.antt =====
-- What an operation returns: a value, or one of the errors that the source names or formats.
use mathlib.Core.Path.{◌≡◌, refl, ap}
use mathlib.Core.Logic.{◌⊎◌, inl, inr}
use mathlib.Core.Option.{Option, none, some}
use Prim.Native.String.{String}
use mathlib.Core.Bool.{Bool, true, false, not}
use mathlib.Core.List.{List, [], ◌∷◌, ◌++◌}
use Prim.Native.Nat.{ℕ}
use saturnus.Base.Tests.{eqb, if◌then◌else◌}
use saturnus.Base.Lists.{any}

pub data Error : Type 0 where
  not_found not_pending already_decided invalid_decision context_busy context_archived : Error
  stale_result constraint disabled not_connected unauthorized empty_worker : Error
  foreign_finding : String → Error
  -- the review or reaction, and the worker who sent the completion
  stale_completion : String → String → Error
  failure : String → Error

pub data Result {ℓ} (A : Type ℓ) : Type ℓ where
  ok : A → Result A
  err : Error → Result A

pub Result-cases {ℓ} :
    {A : Type ℓ} (r : Result A) → ((a : A) × (r ≡ ok a)) ⊎ ((e : Error) × (r ≡ err e))
Result-cases (ok a) = inl (a, refl)
Result-cases (err e) = inr (e, refl)

abbrev value_or {ℓ} : {A : Type ℓ} → A → Result A → A
value_or d (ok a) = a
value_or d (err e) = d

pub ok_inj {ℓ} : {A : Type ℓ} {a b : A} → ok a ≡ ok b → a ≡ b
ok_inj {a} h = ap (value_or a) h

-- An outcome with the state after it. A transaction that fails is rolled back: `commit` keeps the
-- state that it began with.
abbrev pub commit {ℓ κ} : {S : Type ℓ} {A : Type κ} → S → Result (S × A) → S × Result A
commit s (ok (t, a)) = (t, ok a)
commit s (err e) = (s, err e)

infixl 5 ◌>>=◌
abbrev pub ◌>>=◌ {ℓ κ} : {A : Type ℓ} {B : Type κ} → Result A → (A → Result B) → Result B
ok a >>= f = f a
err e >>= f = err e

abbrev pub or_fail {ℓ} : {A : Type ℓ} → Option A → Error → Result A
or_fail none e = err e
or_fail (some a) e = ok a

abbrev pub check : Bool → Error → Result (Unit {0})
check true e = ok tt
check false e = err e

infixl 5 ◌>>◌
abbrev pub ◌>>◌ {ℓ} : {B : Type ℓ} → Result (Unit {0}) → Result B → Result B
m >> k = m >>= λ _. k

-- INSERT, under a primary key or a unique index that `clash` compares with
abbrev pub insert_row {ℓ} : {A : Type ℓ} → (A → Bool) → A → List A → Result (List A)
insert_row clash a xs = if any clash xs then err constraint else ok (xs ++ a ∷ [])

-- no row affected by a statement is `ErrNotFound`
abbrev pub affected : ℕ → Result (Unit {0})
affected n = check (not (eqb n 0)) not_found

-- A transaction leaves the state alone or succeeds.
pub commit-cases {ℓ κ} :
    {S : Type ℓ} {A : Type κ} (s : S) (r : Result (S × A))
    → ((commit s r).0 ≡ s) ⊎ ((a : A) × (commit s r ≡ ((commit s r).0, ok a)))
commit-cases s (ok (t, a)) = inr (a, refl)
commit-cases s (err e) = inl refl
