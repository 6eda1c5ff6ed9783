-- ===== src/KeyLock/Calls.antt =====
-- The calls of `Map.Lock` in progress and the steps that they take, in any order.
use saturnus.Base.{ℕ, String, Bool, true, false, ◌≡◌, List, [], ◌∷◌, ◌++◌}
use saturnus.KeyLock.{Map, empty_map, enter, set_gate, release_ref}

-- Where a call stands: at the `select`; with the token, before `ctx.Err` is asked again; returned
-- to its caller, who holds the lock; before `releaseRef`.
pub data Stage : Type 0 where
  waiting taken holding leaving : Stage

pub record Call : Type 0 where
  pub key : String
  pub addr : ℕ
  pub stage : Stage

abbrev pub has_token : Stage → Bool
has_token taken = true
has_token holding = true
has_token _ = false

abbrev pub at : Stage → Call → Call
at stage c = record c { stage = stage }

-- A step of one call, among the others. A call whose context is done before it enters changes
-- nothing and has no step. Receiving waits for the token, and sending for room in the buffer.
pub data Step : Map → List Call → Map → List Call → Type 0 where
  enters :
      (k : String) (m : Map) (cs : List Call)
      → Step m cs (enter k m).0 (record { key = k; addr = (enter k m).1; stage = waiting } ∷ cs)
  takes :
      (m : Map) (xs ys : List Call) (c : Call)
      → c.stage ≡ waiting
      → (m.heap c.addr).gate ≡ true
      → Step m (xs ++ c ∷ ys) (set_gate false c.addr m) (xs ++ at taken c ∷ ys)
  gives_up :
      (m : Map) (xs ys : List Call) (c : Call)
      → c.stage ≡ waiting
      → Step m (xs ++ c ∷ ys) m (xs ++ at leaving c ∷ ys)
  returns :
      (m : Map) (xs ys : List Call) (c : Call)
      → c.stage ≡ taken
      → Step m (xs ++ c ∷ ys) m (xs ++ at holding c ∷ ys)
  puts_back :
      (m : Map) (xs ys : List Call) (c : Call)
      → has_token c.stage ≡ true
      → (m.heap c.addr).gate ≡ false
      → Step m (xs ++ c ∷ ys) (set_gate true c.addr m) (xs ++ at leaving c ∷ ys)
  leaves :
      (m : Map) (xs ys : List Call) (c : Call)
      → c.stage ≡ leaving
      → Step m (xs ++ c ∷ ys) (release_ref c.key c.addr m) (xs ++ ys)

pub data Reach : Map → List Call → Type 0 where
  start : Reach empty_map []
  next : {m m' : Map} {cs cs' : List Call} → Reach m cs → Step m cs m' cs' → Reach m' cs'
