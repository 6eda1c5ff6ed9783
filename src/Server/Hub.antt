-- ===== src/Server/Hub.antt =====
-- The bookkeeping of internal/worker/hub.go: who is connected, when a worker was last heard from,
-- and the reviews dispatched to it. A connection is a number; the sockets are left out.
pub mod History
use saturnus.Base.{
  ℕ, String, Bool, true, false, not, Option, none, some, List, [], ◌∷◌, ◌==◌, eqb, if◌then◌else◌,
  member, select_rows,
}
use saturnus.Store.Types.{Time}

pub record Hub : Type 0 where
  pub conns : String → Option ℕ
  pub in_flight : String → List String
  pub online : String → Time
  pub closed : Bool

-- a Go map after `m[k] = v`
abbrev pub assign {ℓ} : {A : Type ℓ} → String → A → (String → A) → String → A
assign k v m j = if k == j then v else m j

-- what `ServeWS` registers for an authenticated worker
unfoldable pub connect : Time → String → ℕ → Hub → Hub
connect now worker_id conn h = if h.closed then h else record h {
  conns = assign worker_id (some conn) h.conns;
  online = assign worker_id now h.online;
}

is_current : ℕ → Option ℕ → Bool
is_current conn none = false
is_current conn (some c) = eqb c conn

-- the end of a connection's `readLoop`
unfoldable pub disconnect : String → ℕ → Hub → Hub
unfolding is_current
disconnect worker_id conn h =
    if is_current conn (h.conns worker_id)
    then record h { conns = assign worker_id none h.conns; online = assign worker_id 0 h.online }
    else h

unfoldable pub heard_from : Time → String → Hub → Hub
heard_from now worker_id h = record h { online = assign worker_id now h.online }

unfoldable pub is_online : String → Hub → Bool
is_online worker_id h = elim (h.conns worker_id) [ none ↦ false | some c ↦ true ]

-- Go's map[string]bool, a set, as the list of its keys: what is there is not added again
abbrev insert : String → List String → List String
insert id ids = if member id ids then ids else id ∷ ids

named_ids : List String → List String
named_ids [] = []
named_ids (id ∷ ids) = if id == "" then named_ids ids else insert id (named_ids ids)

unfoldable pub set_in_flight : String → List String → Hub → Hub
unfolding named_ids
set_in_flight worker_id ids h = record h {
  in_flight = assign worker_id (named_ids ids) h.in_flight;
}

unfoldable pub add_in_flight : String → String → Hub → Hub
add_in_flight worker_id id h = record h {
  in_flight = assign worker_id (insert id (h.in_flight worker_id)) h.in_flight;
}

unfoldable pub clear_in_flight : String → String → Hub → Hub
clear_in_flight worker_id id h = record h {
  in_flight =
      assign worker_id (select_rows (λ j. not (j == id)) (h.in_flight worker_id)) h.in_flight;
}
