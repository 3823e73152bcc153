-- ===== src/Tests/Locking.antt =====
-- Two calls for one lock, each of which waits once (services/providers/matter.py).
use staykey_ha_plugin.Prelude.{ℕ, ◌+◌, ◌≤◌, refl, Bool, true, false, [], ◌∷◌}
use staykey_ha_plugin.Python.Coroutine.{Resumed, suspended, ended}
use staykey_ha_plugin.Python.Dict.{lookup, insert}
use staykey_ha_plugin.Python.Exec.{ok}
use staykey_ha_plugin.Providers.Matter.Locked.{
  queued, inside, Locks, get_entity_lock, set_locked, look, acquire, here, there, Reach, start,
  arrive, next,
}
use staykey_ha_plugin.Providers.Matter.Locked.Exclusive.{inside_count, Reach-exclusive}

-- A coroutine is whether it still waits.
abbrev go_on : Bool → ℕ → Resumed Bool ℕ × ℕ
go_on true n = (suspended false, n)
go_on false n = (ended (ok n), n + 1)

abbrev no_locks : Locks ℕ
no_locks = record { entity_locks = []; next_lock = 0; locked = λ k. false; state = 0 }

abbrev front_lock : Locks ℕ
front_lock = record no_locks { entity_locks = ("lock.front", 0) ∷ []; next_lock = 1 }

-- The second call finds the lock that the first one made, which holds it.
abbrev one_at_work :
    Reach go_on
      (inside "lock.front" 0 true ∷ queued "lock.front" 0 true ∷ [])
      (set_locked 0 true front_lock)
unfolding get_entity_lock lookup insert
one_at_work =
    let both_called = arrive "lock.front" true (arrive "lock.front" true (start 0)) in
    let first_looked = next both_called (here _ (look "lock.front" true front_lock 0 refl)) in
    let both_looked =
      next first_looked
        (there (queued "lock.front" 0 true) (here [] (look "lock.front" true front_lock 0 refl))) in
    next both_looked (here _ (acquire "lock.front" 0 true refl))

Reach-exclusive_example :
    inside_count {T = Bool} {A = ℕ} "lock.front"
      (inside "lock.front" 0 true ∷ queued "lock.front" 0 true ∷ [])
    ≤ 1
Reach-exclusive_example = Reach-exclusive go_on "lock.front" one_at_work
