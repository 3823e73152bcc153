-- ===== src/Providers/Matter/Locked.antt =====
-- services/providers/matter.py: the lock that `set_code` and `clear_code` take for an entity, an
-- `asyncio.Lock` in a dictionary that forgets a lock once no call refers to it. The locks are numbers.
pub mod Held
pub mod Exclusive
use staykey_ha_plugin.Prelude.{
  ℕ, suc, String, ◌≡◌, Bool, true, false, Option, none, some, List, [], ◌∷◌, map, eqb, All,
  if◌then◌else◌,
}
use staykey_ha_plugin.Python.Coroutine.{Resumed, suspended, ended}
use staykey_ha_plugin.Python.Dict.{Dict, lookup, insert, erase}
use staykey_ha_plugin.Python.Exec.{Result}

-- A call for an entity: before it looks for the lock, before it holds the lock, while it holds it, and
-- after. Its coroutine is the one of `_set_code_locked` or `_clear_code_locked`.
pub data Operation (T A : Type 0) : Type 0 where
  called : String → T → Operation T A
  queued inside : String → ℕ → T → Operation T A
  left : Result A → Operation T A

-- `_ENTITY_LOCKS`, the number of the next lock, which locks are locked, and the state that the calls
-- share with the rest of Home Assistant.
pub record Locks (S : Type 0) : Type 0 where
  pub entity_locks : Dict ℕ
  pub next_lock : ℕ
  pub locked : ℕ → Bool
  pub state : S

module _ {S : Type 0} where
  -- `_get_entity_lock`
  unfoldable pub get_entity_lock : String → Locks S → ℕ × Locks S
  get_entity_lock entity_id w = elim (lookup entity_id w.entity_locks) [
    | some lock ↦ (lock, w)
    | none ↦ (
      w.next_lock,
      record w {
        entity_locks = insert entity_id w.next_lock w.entity_locks;
        next_lock = suc w.next_lock;
      },
    )
  ]

  -- `lock.acquire()` and `lock.release()`
  abbrev pub set_locked : ℕ → Bool → Locks S → Locks S
  set_locked lock b w = record w { locked = λ k. if eqb k lock then b else w.locked k }

abbrev pub refers_to : {T A : Type 0} → ℕ → Operation T A → Bool
refers_to k (queued e lock t) = eqb k lock
refers_to k (inside e lock t) = eqb k lock
refers_to k _ = false

module _ {T S A : Type 0} (resume : T → S → Resumed T A × S) where
  -- `async with _get_entity_lock(entity_id)`, one turn at a time.
  pub data Turn (w : Locks S) : Operation T A → Operation T A → Locks S → Type 0 where
    look :
        (e : String) (t : T) (w' : Locks S) (lock : ℕ)
        → get_entity_lock e w ≡ (lock, w')
        → Turn w (called e t) (queued e lock t) w'
    acquire :
        (e : String) (lock : ℕ) (t : T)
        → w.locked lock ≡ false
        → Turn w (queued e lock t) (inside e lock t) (set_locked lock true w)
    pause :
        (e : String) (lock : ℕ) (t t' : T) (s : S)
        → resume t w.state ≡ (suspended t', s)
        → Turn w (inside e lock t) (inside e lock t') (record w { state = s })
    release :
        (e : String) (lock : ℕ) (t : T) (r : Result A) (s : S)
        → resume t w.state ≡ (ended r, s)
        → Turn w (inside e lock t) (left r) (set_locked lock false (record w { state = s }))

  -- Some call takes a turn.
  pub data Step (w : Locks S) : List (Operation T A) → List (Operation T A) → Locks S → Type 0 where
    here :
        {o o' : Operation T A} {w' : Locks S} (os : List (Operation T A))
        → Turn w o o' w'
        → Step w (o ∷ os) (o' ∷ os) w'
    there :
        {os os' : List (Operation T A)} {w' : Locks S} (o : Operation T A)
        → Step w os os' w'
        → Step w (o ∷ os) (o ∷ os') w'

  -- What calls may come to, from no locks on: new calls, turns, locks that are forgotten since no call
  -- refers to them, and changes of the state by the rest of Home Assistant.
  pub data Reach : List (Operation T A) → Locks S → Type 0 where
    start :
        (s : S)
        → Reach [] (record { entity_locks = []; next_lock = 0; locked = λ k. false; state = s })
    arrive :
        {os : List (Operation T A)} {w : Locks S} (e : String) (t : T)
        → Reach os w
        → Reach (called e t ∷ os) w
    next :
        {os os' : List (Operation T A)} {w w' : Locks S}
        → Reach os w
        → Step w os os' w'
        → Reach os' w'
    forget :
        {os : List (Operation T A)} {w : Locks S} (e : String) (lock : ℕ)
        → Reach os w
        → lookup e w.entity_locks ≡ some lock
        → All (λ (o : Operation T A). refers_to lock o ≡ false) os
        → Reach os (record w { entity_locks = erase e w.entity_locks })
    meanwhile :
        {os : List (Operation T A)} {w : Locks S} (s : S)
        → Reach os w
        → Reach os (record w { state = s })
