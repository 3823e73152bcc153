-- ===== src/Tests/Batches.antt =====
-- A batch of two commands, each of which waits once and then counts itself (handlers/batch.py).
use staykey_ha_plugin.Prelude.{
  ℕ, suc, none, ◌+◌, ◌≤◌, ◌⊎◌, ◌≡◌, refl, true, false, Bool, some, List, [], ◌∷◌, map, arith,
  String,
}
use staykey_ha_plugin.Python.Exec.{Result, ok}
use staykey_ha_plugin.Python.Int.{pos}
use staykey_ha_plugin.Python.Coroutine.{Resumed, suspended, ended}
use staykey_ha_plugin.Python.Value.{Value, int, str, obj, Fields, end, field, get}
use staykey_ha_plugin.Commands.Batch.{max_concurrency, Run, item_of, entry_of, run_items}
use staykey_ha_plugin.Commands.Batch.Concurrent.{
  waiting, running, returned, task_of, gather, acquire, pause, release, here, there, Reach, start,
  next,
}
use staykey_ha_plugin.Commands.Batch.Concurrent.InOrder.{
  Ends, at_once, later, Steps, run_items-Steps,
}
use staykey_ha_plugin.Commands.Batch.Concurrent.Limit.{running_count, GoesOn, Reach-slots}
use staykey_ha_plugin.Commands.Batch.Concurrent.Ending.{turns, all_left, Reach-ends}
use staykey_ha_plugin.Commands.Batch.Concurrent.Blocked.{Reach-blocked}
use staykey_ha_plugin.Commands.Batch.Concurrent.Results.{AreResults, Reach-AreResults}

-- A coroutine is whether it still waits; it answers how many ended before it.
abbrev begin_count : String → Value → Bool
begin_count action params = true

abbrev go_on : Bool → ℕ → Resumed Bool Value × ℕ
go_on true n = (suspended false, n)
go_on false n = (ended (ok (int (pos n))), n + 1)

abbrev command : String → Fields
command action = field "action" (str action) end

abbrev both : List Value
both = obj (command "lock") ∷ obj (command "unlock") ∷ []

abbrev outcome : String → ℕ → Fields
outcome action n = entry_of (item_of (command action)) (ok (int (pos n)))

abbrev answer : String → ℕ → Fields
answer action n =
    field "id" (str action)
      (field "action" (str action) (field "status" (str "ok") (field "data" (int (pos n)) end)))

-- The second command begins first and ends last.
abbrev both_began :
    Reach begin_count go_on 2 both
      (running (item_of (command "lock")) true ∷ running (item_of (command "unlock")) true ∷ [])
      0
      7
both_began =
    next (next (start 7) (there (waiting (item_of (command "lock"))) (here [] (acquire _ 1 7))))
      (here (running (item_of (command "unlock")) true ∷ []) (acquire _ 0 7))

abbrev both_ended :
    Reach begin_count go_on 2 both
      (returned (outcome "lock" 7) ∷ returned (outcome "unlock" 8) ∷ [])
      2
      9
both_ended =
    next
      (next
        (next (next both_began (there _ (here [] (pause _ true false 0 7 7 refl))))
          (here _ (pause _ true false 0 7 7 refl)))
        (here _ (release _ false (ok (int (pos 7))) 0 7 8 refl)))
      (there _ (here [] (release _ false (ok (int (pos 8))) 1 8 9 refl)))

Reach-AreResults_example :
    AreResults begin_count go_on both (answer "lock" 7 ∷ answer "unlock" 8 ∷ [])
unfolding gather item_of get
Reach-AreResults_example = Reach-AreResults begin_count go_on both_ended refl

Reach-slots_example :
    running_count
        (running (item_of (command "lock")) true ∷ running (item_of (command "unlock")) true ∷ [])
      + 0
    ≡ 2
Reach-slots_example = Reach-slots begin_count go_on both_began

abbrev waits_left : Bool → ℕ
waits_left true = 1
waits_left false = 0

go_on-waits_left :
    (t t' : Bool) (n n' : ℕ) → go_on t n ≡ (suspended t', n') → suc (waits_left t') ≤ waits_left t
go_on-waits_left true true n n' e = cc
go_on-waits_left true false n n' e = omega arith
go_on-waits_left false t' n n' e = cc

Reach-ends_example :
    (turns begin_count go_on both_began
        + all_left begin_count go_on waits_left (
            running (item_of (command "lock")) true
            ∷ running (item_of (command "unlock")) true
            ∷ [])
      ≤ all_left begin_count go_on waits_left (map task_of both))
    × (((r : Result (List Fields)) × (gather (
              running (item_of (command "lock")) true
              ∷ running (item_of (command "unlock")) true
              ∷ [])
            ≡ some r))
        ⊎ GoesOn begin_count go_on
            (running (item_of (command "lock")) true
              ∷ running (item_of (command "unlock")) true
              ∷ [])
            0
            7)
Reach-ends_example =
    Reach-ends begin_count go_on waits_left go_on-waits_left both_began (omega arith)

abbrev no_slots : Fields
no_slots = field "max_concurrency" (int (pos 0)) end

both-blocked : Reach begin_count go_on 0 both (map task_of both) 0 7
both-blocked = start 7

Reach-blocked_example :
    (gather {T = Bool} (map task_of both) ≡ none)
    × (map {A = Value} (task_of {T = Bool}) both ≡ map task_of both)
unfolding get max_concurrency
Reach-blocked_example =
    Reach-blocked begin_count go_on no_slots refl refl (λ e. cc)
      ((command "lock", refl), ((command "unlock", refl), tt)) both-blocked

abbrev count_both : String → Value → Run ℕ Value
count_both action params n = (some (ok (int (pos n))), n + 1)

count_both-Ends :
    (action : String) (params : Value) (n : ℕ) (r : Result Value) (n' : ℕ)
    → count_both action params n ≡ (some r, n')
    → Ends begin_count go_on (begin_count action params) n r n'
count_both-Ends action params n r n' e =
    later true false n n r n' refl (at_once false n r n' (ground (arith, e)))

run_items-Steps_example :
    Steps begin_count go_on
      (map task_of both)
      2
      7
      (map returned (outcome "lock" 7 ∷ outcome "unlock" 8 ∷ []))
      2
      9
unfolding run_items
run_items-Steps_example =
    run_items-Steps begin_count go_on count_both count_both-Ends both 1 7
      (outcome "lock" 7 ∷ outcome "unlock" 8 ∷ []) 9 refl
