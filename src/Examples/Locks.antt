-- ===== src/Examples/Locks.antt =====
-- A run of the keyed locks: one call holds a key, a second waits for it, the first gives it back.
use saturnus.Base.{Bool, ◌≤◌, ◌≡◌, ◌↔◌, refl, true, none, [], ◌∷◌, ◌==◌, ◌&&◌, count_rows}
use saturnus.KeyLock.{Map, empty_map, enter, set_gate}
use saturnus.KeyLock.Calls.{
  Call, has_token, at, Step, Reach, start, next, enters, takes, returns, puts_back, waiting, taken,
  holding, leaving,
}
use saturnus.KeyLock.Safety.{mutual_exclusion, idle_entries_removed, no_lost_wakeup}

abbrev call : Call
call = record { key = "task"; addr = 0; stage = waiting }

abbrev entered : Map
entered = (enter "task" empty_map).0

abbrev locked : Map
locked = set_gate Bool.false 0 entered

abbrev contended : Map
contended = (enter "task" locked).0

held : Reach locked (at holding call ∷ [])
unfolding enter set_gate
held =
    next (next (next start (enters "task" empty_map [])) (takes entered [] [] call refl refl))
      (returns locked [] [] (at taken call) refl)

contention : Reach contended (call ∷ at holding call ∷ [])
unfolding enter set_gate
contention = next held (enters "task" locked (at holding call ∷ []))

released : Reach (set_gate true 0 contended) (call ∷ at leaving call ∷ [])
unfolding enter set_gate
released = next contention (puts_back contended (call ∷ []) [] (at holding call) refl refl)

mutual_exclusion_example :
    count_rows (λ c. c.key == "task" && has_token c.stage) (call ∷ at holding call ∷ []) ≤ 1
mutual_exclusion_example =
    mutual_exclusion contended (call ∷ at holding call ∷ []) "task" contention

idle_entries_removed_example :
    (contended.entries "task" ≡ none)
    ↔ (count_rows (λ c. c.key == "task") (call ∷ at holding call ∷ []) ≡ 0)
idle_entries_removed_example =
    idle_entries_removed contended (call ∷ at holding call ∷ []) "task" contention

no_lost_wakeup_example :
    (call.stage ≡ waiting
      → count_rows (λ d. d.key == "task" && has_token d.stage) (call ∷ at leaving call ∷ []) ≡ 0
      → Step
          (set_gate true 0 contended)
          (call ∷ at leaving call ∷ [])
          (set_gate Bool.false 0 (set_gate true 0 contended))
          (at taken call ∷ at leaving call ∷ []))
    × (has_token call.stage ≡ true
        → Step
            (set_gate true 0 contended)
            (call ∷ at leaving call ∷ [])
            (set_gate true 0 (set_gate true 0 contended))
            (at leaving call ∷ at leaving call ∷ []))
no_lost_wakeup_example =
    no_lost_wakeup (set_gate true 0 contended) [] (at leaving call ∷ []) call released
