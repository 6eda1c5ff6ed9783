-- ===== src/KeyLock.antt =====
-- The keyed locks of internal/keylock/keylock.go: the map, its entries, and a call of `Lock` as the
-- steps between which other calls run. An entry is a pointer, so the entries stand in a heap by
-- address, and a call keeps the address of the entry that it found.
pub mod Calls
pub mod Invariant
pub mod Moves
pub mod Safety
use saturnus.Base.{
  ℕ, suc, ◌-◌, String, Bool, true, false, ◌==◌, Option, none, some, eqb, if◌then◌else◌,
}

-- whether the gate's buffer of one holds the token, and how many calls use the entry
pub record Entry : Type 0 where
  pub gate : Bool
  pub refs : ℕ

pub record Map : Type 0 where
  pub next : ℕ
  pub heap : ℕ → Entry
  pub entries : String → Option ℕ

abbrev pub empty_map : Map
empty_map = record { next = 0; heap = λ a. record { gate = false; refs = 0 }; entries = λ k. none }

abbrev pub set_entry : ℕ → Entry → (ℕ → Entry) → ℕ → Entry
set_entry a e heap b = if eqb b a then e else heap b

abbrev pub set_key : String → Option ℕ → (String → Option ℕ) → String → Option ℕ
set_key k v entries j = if j == k then v else entries j

-- the entry of the key, made with its token where there is none
abbrev pub find_or_make : String → Map → Map × ℕ
find_or_make k m = elim (m.entries k) [
  | some a ↦ (m, a)
  | none ↦ (
    record {
      next = suc m.next;
      heap = set_entry m.next (record { gate = true; refs = 0 }) m.heap;
      entries = set_key k (some m.next) m.entries;
    },
    m.next,
  )
]

-- e.refs++
abbrev pub add_ref : ℕ → Map → Map
add_ref a m = record m {
  heap = set_entry a (record { gate = (m.heap a).gate; refs = suc (m.heap a).refs }) m.heap;
}

-- What `Lock` does under the mutex, and the entry that it goes on with.
unfoldable pub enter : String → Map → Map × ℕ
enter k m = let (made, a) = find_or_make k m in (add_ref a made, a)

-- receiving from the gate, and sending to it
unfoldable pub set_gate : Bool → ℕ → Map → Map
set_gate b a m = record m {
  heap = set_entry a (record { gate = b; refs = (m.heap a).refs }) m.heap;
}

-- What `releaseRef` does under the mutex.
unfoldable pub release_ref : String → ℕ → Map → Map
release_ref k a m =
    let left = (m.heap a).refs - 1 in
    record m {
      heap = set_entry a (record { gate = (m.heap a).gate; refs = left }) m.heap;
      entries = if eqb left 0 then set_key k none m.entries else m.entries;
    }
