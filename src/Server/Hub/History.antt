-- ===== src/Server/Hub/History.antt =====
-- Every history of the hub: its sets of reviews in flight, and its connections.
use saturnus.Base.{
  if◌then◌else◌, sym, subst, eq_refl, ℕ, String, Bool, false, not, none, List, [], ◌∷◌, ◌==◌, ◌≡◌,
  refl, inl, inr, Bool-cases, eqb, member, select_rows, arith,
}
use saturnus.Store.Types.{Time}
use saturnus.Server.Hub.{
  Hub, assign, insert, named_ids, connect, disconnect, is_current, is_online, heard_from,
  set_in_flight, add_in_flight, clear_in_flight,
}

abbrev pub IsOnce : List String → Type 0
IsOnce [] = Unit
IsOnce (id ∷ ids) = (member id ids ≡ false) × IsOnce ids

insert-IsOnce : (id : String) (ids : List String) → IsOnce ids → IsOnce (insert id ids)
insert-IsOnce id ids h = elim (Bool-cases (member id ids)) [ inl e ↦ rw e h | inr e ↦ rw e (e, h) ]

named-IsOnce : (ids : List String) → IsOnce (named_ids ids)
unfolding named_ids
named-IsOnce [] = tt
named-IsOnce (id ∷ ids) = elim (Bool-cases (id == "")) [
  | inl e ↦ rw e (named-IsOnce ids)
  | inr e ↦ rw e (insert-IsOnce id (named_ids ids) (named-IsOnce ids))
]

member-select :
    (p : String → Bool) (id : String) (ids : List String)
    → member id ids ≡ false
    → member id (select_rows p ids) ≡ false
member-select p id [] h = refl
member-select p id (j ∷ ids) h = ground (arith, h, member-select p id ids)

select-IsOnce : (p : String → Bool) (ids : List String) → IsOnce ids → IsOnce (select_rows p ids)
select-IsOnce p [] h = tt
select-IsOnce p (j ∷ ids) h = elim (Bool-cases (p j)) [
  | inl e ↦ rw e (member-select p j ids h.0, select-IsOnce p ids h.1)
  | inr e ↦ rw e (select-IsOnce p ids h.1)
]

-- one call of the hub
pub data Step : Hub → Hub → Type 0 where
  connects : (now : Time) (w : String) (c : ℕ) (h : Hub) → Step h (connect now w c h)
  disconnects : (w : String) (c : ℕ) (h : Hub) → Step h (disconnect w c h)
  hears : (now : Time) (w : String) (h : Hub) → Step h (heard_from now w h)
  reports : (w : String) (ids : List String) (h : Hub) → Step h (set_in_flight w ids h)
  adds : (w id : String) (h : Hub) → Step h (add_in_flight w id h)
  clears : (w id : String) (h : Hub) → Step h (clear_in_flight w id h)

abbrev pub new_hub : Hub
new_hub = record { conns = λ w. none; in_flight = λ w. []; online = λ w. 0; closed = false }

pub data Reach : Hub → Type 0 where
  start : Reach new_hub
  next : {h k : Hub} → Reach h → Step h k → Reach k

assign-IsOnce :
    (w : String) (ids : List String) (m : String → List String)
    → IsOnce ids
    → ((j : String) → IsOnce (m j))
    → (j : String) → IsOnce (assign w ids m j)
assign-IsOnce w ids m h k j = elim (Bool-cases (w == j)) [ inl e ↦ rw e h | inr e ↦ rw e (k j) ]

connect-in_flight :
    (now : Time) (w : String) (c : ℕ) (h : Hub) → (connect now w c h).in_flight ≡ h.in_flight
unfolding connect
connect-in_flight now w c h = elim (Bool-cases h.closed) [ inl e ↦ rw e refl | inr e ↦ rw e refl ]

disconnect-in_flight : (w : String) (c : ℕ) (h : Hub) → (disconnect w c h).in_flight ≡ h.in_flight
unfolding disconnect
disconnect-in_flight w c h = elim (Bool-cases (is_current c (h.conns w))) [
  | inl e ↦ rw e refl
  | inr e ↦ rw e refl
]

-- On an open hub, a worker that connects is online until the connection that it made ends: the end
-- of an earlier one, which it replaced, leaves it online and the time it was last heard from as it
-- is, and the end of its own takes it offline and forgets that time.
pub connection_end :
    (now : Time) (w : String) (new old : ℕ) (h : Hub)
    → h.closed ≡ false
    → let t = disconnect w old (connect now w new h) in
      (is_online w t ≡ not (eqb new old)) × (t.online w ≡ (if eqb new old then 0 else now))
unfolding connect disconnect is_online is_current
connection_end now w new old h up = elim (Bool-cases (eqb new old)) [
  | inl e ↦ (
    rw (up, eq_refl w, e) (ground (arith, eq_refl w)),
    rw (up, eq_refl w, e) (ground (arith, eq_refl w)),
  )
  | inr e ↦ (
    rw (up, eq_refl w, e) (ground (arith, eq_refl w)),
    rw (up, eq_refl w, e) (ground (arith, eq_refl w)),
  )
]

-- After any history of connections, frames, reports, dispatches and completions, the list that
-- stands for a worker's set of reviews in flight names none twice.
pub Reach-IsOnce : (h : Hub) → Reach h → (w : String) → IsOnce (h.in_flight w)
unfolding connect disconnect heard_from set_in_flight add_in_flight clear_in_flight
Reach-IsOnce h start w = tt
Reach-IsOnce k (next r (connects now v c h)) w =
    subst (λ m. IsOnce (m w)) (sym (connect-in_flight now v c h)) (Reach-IsOnce h r w)
Reach-IsOnce k (next r (disconnects v c h)) w =
    subst (λ m. IsOnce (m w)) (sym (disconnect-in_flight v c h)) (Reach-IsOnce h r w)
Reach-IsOnce k (next r (hears now v h)) w = Reach-IsOnce h r w
Reach-IsOnce k (next r (reports v ids h)) w =
    assign-IsOnce v (named_ids ids) h.in_flight (named-IsOnce ids) (Reach-IsOnce h r) w
Reach-IsOnce k (next r (adds v id h)) w =
    assign-IsOnce v (insert id (h.in_flight v)) h.in_flight
      (insert-IsOnce id (h.in_flight v) (Reach-IsOnce h r v)) (Reach-IsOnce h r) w
Reach-IsOnce k (next r (clears v id h)) w =
    assign-IsOnce v (select_rows (λ j. not (j == id)) (h.in_flight v)) h.in_flight
      (select-IsOnce (λ j. not (j == id)) (h.in_flight v) (Reach-IsOnce h r v)) (Reach-IsOnce h r) w
