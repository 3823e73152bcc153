-- ===== src/Commands/Batch/Concurrent.antt =====
-- handlers/batch.py: the commands of a batch as tasks that take turns, `asyncio.gather` over `run_one`
-- under a semaphore. A command is a coroutine, a value of any type: `command_handler` makes it, and
-- `resume` runs it up to its next `await` or its end.
pub mod Blocked
pub mod Ending
pub mod InOrder
pub mod Limit
pub mod Results
use staykey_ha_plugin.Prelude.{ℕ, suc, String, ◌≡◌, Option, none, some, List, [], ◌∷◌, map}
use staykey_ha_plugin.Python.Exec.{Result, ok, err, other_error}
use staykey_ha_plugin.Python.Coroutine.{Resumed, suspended, ended}
use staykey_ha_plugin.Python.Value.{Value, obj, Fields}
use staykey_ha_plugin.Commands.Batch.{Item, item_of, entry_of}

-- A call of `run_one`: before the semaphore, within it, or returned; or it was given what has no
-- method `get`, and raised.
pub data Task (T : Type 0) : Type 0 where
  waiting : Item → Task T
  running : Item → T → Task T
  returned : Fields → Task T
  raised : Task T

abbrev pub task_of : {T : Type 0} → Value → Task T
task_of (obj cmd) = waiting (item_of cmd)
task_of _ = raised

-- `results`, once every task has returned. An exception of one task ends the `gather`.
unfoldable pub gather : {T : Type 0} → List (Task T) → Option (Result (List Fields))
gather [] = some (ok [])
gather (returned r ∷ ts) = elim (gather ts) [
  | some (ok rs) ↦ some (ok (r ∷ rs))
  | some (err e) ↦ some (err e)
  | none ↦ none
]
gather (raised ∷ ts) = some (err (other_error "no attribute 'get'"))
gather (_ ∷ ts) = elim (gather ts) [ some (err e) ↦ some (err e) | _ ↦ none ]

module _ {T S : Type 0} (command_handler : String → Value → T)
    (resume : T → S → Resumed T Value × S) where
  -- What a task may do next, to the semaphore and the state.
  pub data Turn : Task T → ℕ → S → Task T → ℕ → S → Type 0 where
    acquire :
        (i : Item) (free : ℕ) (s : S)
        → Turn (waiting i) (suc free) s (running i (command_handler i.action i.params)) free s
    pause :
        (i : Item) (t t' : T) (free : ℕ) (s s' : S)
        → resume t s ≡ (suspended t', s')
        → Turn (running i t) free s (running i t') free s'
    release :
        (i : Item) (t : T) (r : Result Value) (free : ℕ) (s s' : S)
        → resume t s ≡ (ended r, s')
        → Turn (running i t) free s (returned (entry_of i r)) (suc free) s'

  -- Some task takes a turn. The tasks stand in the order of the commands; the number is the
  -- semaphore's `_value`, and the state is what the commands share with the rest of Home Assistant.
  pub data Step : List (Task T) → ℕ → S → List (Task T) → ℕ → S → Type 0 where
    here :
        {t t' : Task T} {free free' : ℕ} {s s' : S} (ts : List (Task T))
        → Turn t free s t' free' s'
        → Step (t ∷ ts) free s (t' ∷ ts) free' s'
    there :
        {ts ts' : List (Task T)} {free free' : ℕ} {s s' : S} (t : Task T)
        → Step ts free s ts' free' s'
        → Step (t ∷ ts) free s (t ∷ ts') free' s'

  -- The runs of a batch of commands with `max_concurrency` slots. The rest of Home Assistant may
  -- change the state between two turns.
  pub data Reach (slots : ℕ) (cmds : List Value) : List (Task T) → ℕ → S → Type 0 where
    start : (s : S) → Reach slots cmds (map task_of cmds) slots s
    next :
        {ts ts' : List (Task T)} {free free' : ℕ} {s s' : S}
        → Reach slots cmds ts free s
        → Step ts free s ts' free' s'
        → Reach slots cmds ts' free' s'
    meanwhile :
        {ts : List (Task T)} {free : ℕ} {s : S} (s' : S)
        → Reach slots cmds ts free s
        → Reach slots cmds ts free s'
