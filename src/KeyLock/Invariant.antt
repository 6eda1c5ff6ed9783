-- ===== src/KeyLock/Invariant.antt =====
-- What holds between the entries and the calls in progress.
use saturnus.Base.{
  ℕ, ◌+◌, ◌≤◌, ◌<◌, ◌≡◌, Bool, some, List, ◌&&◌, eqb, if◌then◌else◌, count_rows, All, String,
}
use saturnus.KeyLock.{Map}
use saturnus.KeyLock.Calls.{Call, has_token}

abbrev pub uses : ℕ → Call → Bool
uses a c = eqb c.addr a

abbrev pub carries : ℕ → Call → Bool
carries a c = uses a c && has_token c.stage

pub record Inv (m : Map) (cs : List Call) : Type 0 where
  -- the token of an entry stands in its gate or with one call
  pub tokens :
      (a : ℕ) → a < m.next → (if (m.heap a).gate then 1 else 0) + count_rows (carries a) cs ≡ 1
  -- the entry counts the calls that use it
  pub counted : (a : ℕ) → (m.heap a).refs ≡ count_rows (uses a) cs
  pub unborn : (a : ℕ) → m.next ≤ a → (m.heap a).refs ≡ 0
  -- a call's entry is still its key's
  pub current : All (λ c. m.entries c.key ≡ some c.addr) cs
  -- an entry in the map has been made and is in use
  pub used : (k : String) (a : ℕ) → m.entries k ≡ some a → (a < m.next) × (0 < (m.heap a).refs)
  -- and it is of one key
  pub owned : (k j : String) (a : ℕ) → m.entries k ≡ some a → m.entries j ≡ some a → k ≡ j
