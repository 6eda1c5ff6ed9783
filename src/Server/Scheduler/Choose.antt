-- ===== src/Server/Scheduler/Choose.antt =====
-- The choice among the candidates: the worker of the last run, or the least loaded.
use mathlib.Core.List.{Memᴰ}
use saturnus.Base.{
  ◌≤◌, String, Bool, true, false, not, ◌&&◌, ◌==◌, List, [], ◌∷◌, map, ◌≡◌, ◌≢◌, ◌⊎◌, inl, inr,
  refl, sym, Bool-cases, any, All, select_rows, arith, eq_iff, and_right, or-cases, subst,
}
use saturnus.Store.Types.{Agent}
use saturnus.Server.Scheduler.{Candidate, ahead, least, choose}

pub from_members {ℓ} :
    {A : Type ℓ} (P : A → Type 0) (rows : List A) → ((a : A) → Memᴰ a rows → P a) → All P rows
from_members P [] f = tt
from_members P (a ∷ rows) f = (f a (Memᴰ.head refl), from_members P rows (λ b m. f b (Memᴰ.tail m)))

pub All-select :
    (P : Agent → Type 0) (p : Agent → Bool) (rows : List Agent)
    → All P rows
    → All (λ a. P a × (p a ≡ true)) (select_rows p rows)
All-select P p [] h = tt
All-select P p (a ∷ rows) h = elim (Bool-cases (p a)) [
  | inl e ↦ rw e ((h.0, e), All-select P p rows h.1)
  | inr e ↦ rw e (All-select P p rows h.1)
]

pub All-of_map :
    (P : Candidate → Type 0) (f : Agent → Candidate) (rows : List Agent)
    → All (λ a. P (f a)) rows
    → All P (map f rows)
All-of_map P f [] h = tt
All-of_map P f (a ∷ rows) h = (h.0, All-of_map P f rows h.1)

All-least :
    (P : Candidate → Type 0) (c : Candidate) (cs : List Candidate) → All P (c ∷ cs) → P (least c cs)
unfolding least
All-least P c [] h = h.0
All-least P c (d ∷ ds) h = elim (Bool-cases (ahead d c)) [
  | inl e ↦ rw e (All-least P d ds h.1)
  | inr e ↦ rw e (All-least P c ds (h.0, h.1.1))
]

ahead-load : (c d : Candidate) → ahead d c ≡ true → d.load ≤ c.load
ahead-load c d h = ground arith

behind-load : (c d : Candidate) → ahead d c ≡ false → c.load ≤ d.load
behind-load c d h = ground arith

least-load : (c : Candidate) (cs : List Candidate) → All (λ d. (least c cs).load ≤ d.load) (c ∷ cs)
unfolding least
least-load c [] = (omega arith, tt)
least-load c (d ∷ ds) = elim (Bool-cases (ahead d c)) [
  | inl e ↦
      let rest = least-load d ds in
      let step : least c (d ∷ ds) ≡ least d ds = rw e refl in
      subst (λ x. All (λ y. x.load ≤ y.load) (c ∷ d ∷ ds)) (sym step)
        (omega (arith, rest.0, ahead-load c d e), rest)
  | inr e ↦
      let rest = least-load c ds in
      let step : least c (d ∷ ds) ≡ least c ds = rw e refl in
      subst (λ x. All (λ y. x.load ≤ y.load) (c ∷ d ∷ ds)) (sym step)
        (rest.0, (omega (arith, rest.0, behind-load c d e), rest.1))
]

find_in :
    (P : Candidate → Type 0) (id : String) (cs : List Candidate)
    → All P cs
    → any (λ d. d.id == id) cs ≡ true
    → (c : Candidate) × P c × (c.id ≡ id)
find_in P id [] h k = absurd (cc k)
find_in P id (c ∷ cs) h k = elim (or-cases (c.id == id) (any (λ d. d.id == id) cs) k) [
  | inl e ↦ (c, h.0, (eq_iff c.id id).0 e)
  | inr e ↦ find_in P id cs h.1 e
]

pub choose-cases :
    (P : Candidate → Type 0) (affinity : String) (cs : List Candidate) (b : Bool)
    → All P cs
    → (choose affinity cs b).0 ≢ ""
    → (c : Candidate) × P c
      × (c.id ≡ (choose affinity cs b).0)
      × ((c.id ≡ affinity) ⊎ All (λ d. c.load ≤ d.load) cs)
unfolding choose
choose-cases P affinity [] b h n = absurd (n refl)
choose-cases P affinity (c ∷ cs) b h n =
    elim (Bool-cases (not (affinity == "") && any (λ d. d.id == affinity) (c ∷ cs))) [
      | inl e ↦
          let (d, holds, same) =
            find_in P affinity (c ∷ cs) h
              (and_right (not (affinity == "")) (any (λ d. d.id == affinity) (c ∷ cs)) e) in
          rw e (d, holds, same, inl same)
      | inr e ↦ rw e (least c cs, All-least P c cs h, refl, inr (least-load c cs))
    ]
