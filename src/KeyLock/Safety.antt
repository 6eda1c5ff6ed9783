-- ===== src/KeyLock/Safety.antt =====
-- What the locks promise their callers, in every order of the calls' steps.
use saturnus.Base.{
  count_false, ℕ, String, ◌≤◌, ◌≡◌, ◌↔◌, refl, ap, Bool, true, false, inl, inr, none, some, List,
  ◌∷◌, ◌++◌, ◌==◌, ◌&&◌, arith, Option-cases, count_rows, count-le, count-split, All, All-map,
  All-split, and_left, eq_iff,
}
use saturnus.KeyLock.{Map, set_gate}
use saturnus.KeyLock.Calls.{
  Call, has_token, at, Step, Reach, takes, puts_back, waiting, taken, leaving,
}
use saturnus.KeyLock.Invariant.{uses, carries, Inv}
use saturnus.KeyLock.Moves.{Reach-Inv}

-- whether a call is for the key and has its lock
abbrev pub holds : String → Call → Bool
holds k c = c.key == k && has_token c.stage

module _ (m : Map) (cs : List Call) (inv : Inv m cs) (k : String) where
  -- The calls for one key use the one entry of the key.
  same_entry : (a : ℕ) → m.entries k ≡ some a → All (λ c. (c.key == k) ≡ true → uses a c ≡ true) cs
  same_entry a e = All-map _ _ cs (λ c h l. ground (arith, h, e, (eq_iff c.key k).0 l)) inv.current

  no_entry : m.entries k ≡ none → All (λ c. (c.key == k) ≡ true → false ≡ true) cs
  no_entry e =
      All-map _ _ cs (λ c h l. absurd (cc (h, e, ap m.entries ((eq_iff c.key k).0 l)))) inv.current

  holds-carries :
      (a : ℕ) → m.entries k ≡ some a → count_rows (holds k) cs ≤ count_rows (carries a) cs
  holds-carries a e =
      count-le (holds k) (carries a) cs
        (All-map _ _ cs (λ c h l. ground (arith, h (and_left _ _ l), l)) (same_entry a e))

  holds-none : m.entries k ≡ none → count_rows (holds k) cs ≤ count_rows (λ c. false) cs
  holds-none e =
      count-le (holds k) (λ c. false) cs (All-map _ _ cs (λ c h l. h (and_left _ _ l)) (no_entry e))

  calls-le :
      (a : ℕ) → m.entries k ≡ some a → count_rows (uses a) cs ≤ count_rows (λ c. c.key == k) cs
  calls-le a e =
      count-le (uses a) (λ c. c.key == k) cs
        (All-map _ _ cs (λ c h l. (eq_iff c.key k).1 (inv.owned c.key k a (ground (arith, h, l)) e))
          inv.current)

  carries-holds :
      (a : ℕ) → m.entries k ≡ some a → count_rows (carries a) cs ≤ count_rows (holds k) cs
  carries-holds a e = count-le (carries a) (holds k) cs (
      All-map _ _ cs
        (λ c h l.
          ground (arith, (eq_iff c.key k).1 (inv.owned c.key k a (ground (arith, h, l)) e), l))
        inv.current)

  calls-none : m.entries k ≡ none → count_rows (λ c. c.key == k) cs ≡ 0
  calls-none e = ground (
    arith,
    count-le (λ c. c.key == k) (λ c. false) cs (no_entry e),
    count_false (λ (c : Call). false) cs (λ c. refl),
  )

-- In every history of calls of `Lock`, at most one call for a key has its lock.
pub mutual_exclusion :
    (m : Map) (cs : List Call) (k : String)
    → Reach m cs
    → count_rows (λ c. c.key == k && has_token c.stage) cs ≤ 1
mutual_exclusion m cs k r =
    let inv = Reach-Inv r in
    elim (Option-cases (m.entries k)) [
      | inl e ↦
          ground (arith, holds-none m cs inv k e, count_false (λ (c : Call). false) cs (λ c. refl))
      | inr (a, e) ↦ ground (arith, holds-carries m cs inv k a e, inv.tokens a (inv.used k a e).0)
    ]

-- In every history of calls of `Lock`, the map has an entry of a key exactly while some call for
-- the key is in progress, so that it is empty once all have ended.
pub idle_entries_removed :
    (m : Map) (cs : List Call) (k : String)
    → Reach m cs
    → (m.entries k ≡ none) ↔ (count_rows (λ c. c.key == k) cs ≡ 0)
idle_entries_removed m cs k r =
    let inv = Reach-Inv r in
    (
      calls-none m cs inv k,
      (λ z. elim (Option-cases (m.entries k)) [
        | inl e ↦ e
        | inr (a, e) ↦
            absurd (ground (arith, calls-le m cs inv k a e, inv.used k a e, inv.counted a))
      ]),
    )

-- In every history of calls of `Lock`, a call that waits for a key can go on as soon as no call has
-- its lock, and one that has a lock can always give it back: sending to the gate never waits.
pub no_lost_wakeup :
    (m : Map) (xs ys : List Call) (c : Call)
    → Reach m (xs ++ c ∷ ys)
    → (c.stage ≡ waiting
        → count_rows (λ d. d.key == c.key && has_token d.stage) (xs ++ c ∷ ys) ≡ 0
        → Step m (xs ++ c ∷ ys) (set_gate false c.addr m) (xs ++ at taken c ∷ ys))
      × (has_token c.stage ≡ true
          → Step m (xs ++ c ∷ ys) (set_gate true c.addr m) (xs ++ at leaving c ∷ ys))
no_lost_wakeup m xs ys c r =
    let inv = Reach-Inv r in
    let own = (All-split _ xs ys c inv.current).0 in
    let token = inv.tokens c.addr (inv.used c.key c.addr own).0 in
    (
      (λ w z. takes m xs ys c w (ground (arith, z, token, carries-holds m _ inv c.key c.addr own))),
      (λ h. puts_back m xs ys c h (ground (arith, h, token, count-split (carries c.addr) xs ys c))),
    )
