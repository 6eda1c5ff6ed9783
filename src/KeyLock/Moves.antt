-- ===== src/KeyLock/Moves.antt =====
-- Every step of a call keeps the invariant between the entries and the calls.
use saturnus.Base.{
  count_zero-All, All-both, subst, ℕ, suc, ◌+◌, ◌-◌, subst, ap, String, ◌≡◌, refl, Bool, true,
  false, inl, inr, none, some, List, ◌∷◌, ◌++◌, eqb, if◌then◌else◌, arith, eq_refl, Option-cases,
  Bool-cases, count_rows, count-split, count-and, All, All-split, All-insert, All-map, eq_iff,
}
use saturnus.KeyLock.{set_entry, set_key, Map, find_or_make, add_ref, enter, set_gate, release_ref}
use saturnus.KeyLock.Calls.{
  holding, leaving, taken, Stage, Call, has_token, at, Step, Reach, enters, takes, gives_up,
  returns, puts_back, leaves, start, next,
}
use saturnus.KeyLock.Invariant.{uses, carries, Inv}

-- A call that goes from one stage to another.
module _ (m : Map) (xs ys : List Call) (c : Call) (inv : Inv m (xs ++ c ∷ ys)) (to : Stage) where
  open inv use {tokens, counted, unborn, current, used, owned}

  abbrev after : List Call
  after = xs ++ at to c ∷ ys

  moved-uses : (a : ℕ) → count_rows (uses a) after ≡ count_rows (uses a) (xs ++ c ∷ ys)
  moved-uses a = ground (arith, count-split (uses a) xs ys c, count-split (uses a) xs ys (at to c))

  moved-current : All (λ d. m.entries d.key ≡ some d.addr) after
  moved-current = let (h, rest) = All-split _ xs ys c current in All-insert _ xs ys (at to c) h rest

  stage_move : has_token c.stage ≡ has_token to → Inv m after
  stage_move e = record {
    tokens = λ a lt. ground (
      arith,
      e,
      tokens a lt,
      count-split (carries a) xs ys c,
      count-split (carries a) xs ys (at to c),
    );
    counted = λ a. rw (moved-uses a) (counted a);
    unborn = unborn;
    current = moved-current;
    used = used;
    owned = owned;
  }

  gate_move :
      (b : Bool)
      → (m.heap c.addr).gate ≡ (if b then false else true)
      → has_token c.stage ≡ b
      → has_token to ≡ (if b then false else true)
      → Inv (set_gate b c.addr m) after
  unfolding set_gate
  gate_move b g h t = record {
    tokens = λ a lt. ground (
      arith,
      g,
      h,
      t,
      tokens a lt,
      count-split (carries a) xs ys c,
      count-split (carries a) xs ys (at to c),
    );
    counted = λ a. ground (arith, moved-uses a, counted a, counted c.addr);
    unborn = λ a le. ground (arith, unborn a le, unborn c.addr);
    current = moved-current;
    used = λ k a e. ground (arith, used k a e, used k c.addr);
    owned = owned;
  }
  -- The last step of a call takes its reference away, and the entry with the last one.

module _ (m : Map) (xs ys : List Call) (c : Call) (inv : Inv m (xs ++ c ∷ ys)) where
  open inv use {tokens, counted, unborn, current, used, owned}

  own : m.entries c.key ≡ some c.addr
  own = (All-split _ xs ys c current).0

  rest : All (λ d. m.entries d.key ≡ some d.addr) (xs ++ ys)
  rest = (All-split _ xs ys c current).1

  left :
      (a : ℕ) → count_rows (uses a) (xs ++ ys) + (if eqb c.addr a then 1 else 0) ≡ (m.heap a).refs
  left a = ground (arith, counted a, count-split (uses a) xs ys c)

  others_current :
      (d : Call)
      → (m.entries d.key ≡ some d.addr) × (uses c.addr d ≡ false)
      → set_key c.key none m.entries d.key ≡ some d.addr
  others_current d (h, n) = ground (arith, own, eq_iff d.key c.key)

  leave_move : has_token c.stage ≡ false → Inv (release_ref c.key c.addr m) (xs ++ ys)
  unfolding release_ref
  leave_move e = record {
    tokens = λ a lt. ground (arith, e, tokens a lt, count-split (carries a) xs ys c);
    counted = λ a. ground (arith, left a);
    unborn = λ a le. ground (arith, unborn a le);
    current = elim (Bool-cases (eqb ((m.heap c.addr).refs - 1) 0)) [
      | inr k ↦ rw k rest
      | inl k ↦ rw k (
          All-map _ (λ d. set_key c.key none m.entries d.key ≡ some d.addr) (xs ++ ys)
            others_current
            (All-both _ _ (xs ++ ys) rest
              (count_zero-All (uses c.addr) (xs ++ ys) (ground (arith, left c.addr)))))
    ];
    used = λ k a h.
        ground (arith, used k a, used c.key c.addr own, eq_iff k c.key, owned k c.key c.addr, own);
    owned = λ i j a h l. ground (arith, owned i j a);
  }

-- A call that enters, by the entry of its key or by a new one.
module _ (m : Map) (cs : List Call) (inv : Inv m cs) (k : String) where
  open inv use {tokens, counted, unborn, current, used, owned}

  abbrev Entered : Map × ℕ → Type 0
  Entered (t, a) = Inv (add_ref a t) (record { key = k; addr = a; stage = Stage.waiting } ∷ cs)

  abbrev made : Map
  made = record {
    next = suc m.next;
    heap = set_entry m.next (record { gate = true; refs = 0 }) m.heap;
    entries = set_key k (some m.next) m.entries;
  }

  found_move : (a : ℕ) → m.entries k ≡ some a → Entered (m, a)
  found_move a e = record {
    tokens = λ b lt. ground (arith, tokens b lt);
    counted = λ b. ground (arith, counted b, counted a);
    unborn = λ b le. ground (arith, unborn b le, used k a e);
    current = (e, current);
    used = λ j b h. ground (arith, used j b h, used k a e);
    owned = owned;
  }

  -- No call uses an entry that is not yet made, nor waits for a key without an entry.
  none_yet : count_rows (uses m.next) cs ≡ 0
  none_yet = ground (arith, counted m.next, unborn m.next)

  keeps_current :
      (d : Call)
      → m.entries k ≡ none
      → m.entries d.key ≡ some d.addr
      → set_key k (some m.next) m.entries d.key ≡ some d.addr
  keeps_current d e h = ground (arith, e, eq_iff d.key k)

  made_move : m.entries k ≡ none → Entered (made, m.next)
  made_move e = record {
    tokens = λ b lt.
        ground (arith, tokens b, none_yet, count-and (uses m.next) (λ c. has_token c.stage) cs);
    counted = λ b. ground (arith, counted b, none_yet);
    unborn = λ b le. ground (arith, unborn b);
    current = (ground (arith, eq_refl k), All-map _ _ cs (λ d. keeps_current d e) current);
    used = λ j b h. ground (arith, used j b);
    owned = λ i j b h l. ground (arith, owned i j b, used i b, used j b, eq_iff i k, eq_iff j k);
  }

  finds : (a : ℕ) → m.entries k ≡ some a → (m, a) ≡ find_or_make k m
  finds a e = rw (find_or_make, e) refl

  makes : m.entries k ≡ none → (made, m.next) ≡ find_or_make k m
  makes e = rw (find_or_make, e) refl

  enter_move :
      Inv (enter k m).0 (record { key = k; addr = (enter k m).1; stage = Stage.waiting } ∷ cs)
  unfolding enter
  enter_move = elim (Option-cases (m.entries k)) [
    | inr (a, e) ↦ subst Entered (finds a e) (found_move a e)
    | inl e ↦ subst Entered (makes e) (made_move e)
  ]

pub Step-Inv : {m m' : Map} {cs cs' : List Call} → Step m cs m' cs' → Inv m cs → Inv m' cs'
Step-Inv (enters k m cs) inv = enter_move m cs inv k
Step-Inv (takes m xs ys c w g) inv = gate_move m xs ys c inv taken false g (ap has_token w) refl
Step-Inv (gives_up m xs ys c w) inv = stage_move m xs ys c inv leaving (ap has_token w)
Step-Inv (returns m xs ys c w) inv = stage_move m xs ys c inv holding (ap has_token w)
Step-Inv (puts_back m xs ys c h g) inv = gate_move m xs ys c inv leaving true g h refl
Step-Inv (leaves m xs ys c w) inv = leave_move m xs ys c inv (ap has_token w)

pub Reach-Inv : {m : Map} {cs : List Call} → Reach m cs → Inv m cs
Reach-Inv start = record {
  tokens = λ a lt. absurd (omega arith);
  counted = λ a. refl;
  unborn = λ a le. refl;
  current = tt;
  used = λ k a h. absurd (cc);
  owned = λ i j a h. absurd (cc);
}
Reach-Inv (next r st) = Step-Inv st (Reach-Inv r)
