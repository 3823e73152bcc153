-- ===== src/Commands/Batch.antt =====
-- handlers/batch.py. The commands of a batch run one after the other here, in the order of the list;
-- Concurrent has them take turns.
pub mod Counts
pub mod Concurrent
use staykey_ha_plugin.Prelude.{
  ℕ, suc, String, Bool, true, false, Option, none, some, List, [], ◌∷◌, ◌==◌, length, map, eqb,
  if◌then◌else◌,
}
use staykey_ha_plugin.Python.Exec.{
  Exception, value_error, type_error, other_error, exception_text, Exec, Result, ok, err, pure,
  raise, ◌>>=◌,
}
use staykey_ha_plugin.Python.Int.{ℤ, pos, negsuc, le_ℕ}
use staykey_ha_plugin.Python.Value.{
  Value, null, bool, int, str, arr, obj, Fields, end, field, items, of_items, get, put, truthy,
  is_str,
}

-- A call that may also wait for ever, which is none.
abbrev pub Run : Type 0 → Type 0 → Type 0
Run S A = S → Option (Result A) × S

abbrev pub returned : {S A : Type 0} → Result A × S → Option (Result A) × S
returned (r, s) = (some r, s)

abbrev min_int : ℤ → ℕ → ℤ
min_int i n = if le_ℕ i n then i else pos n

-- `min(params.get("max_concurrency", 5), 10)`, for a number that is an integer
unfoldable pub max_concurrency : Option Value → Result ℤ
max_concurrency none = ok (pos 5)
max_concurrency (some (int i)) = ok (min_int i 10)
max_concurrency (some (bool b)) = ok (if b then pos 1 else pos 0)
max_concurrency (some _) = err (type_error "not a number")

-- What one command of the batch is.
pub record Item : Type 0 where
  pub action : String
  pub params : Value
  pub id : Value

unfoldable pub item_of : Fields → Item
item_of cmd =
    let action : String = elim (get "action" cmd) [ some (str s) ↦ s | _ ↦ "" ] in
    record {
      action = action;
      params = elim (get "params" cmd) [ none ↦ obj end | some v ↦ v ];
      id = elim (get "id" cmd) [ none ↦ str action | some v ↦ v ];
    }

-- The two dictionaries that `run_one` returns.
abbrev pub entry_of : Item → Result Value → Fields
entry_of i (ok result) =
    field "id" i.id
      (field "action" (str i.action) (field "status" (str "ok") (field "data" result end)))
entry_of i (err e) = field "id" i.id (
    field "action" (str i.action) (
      field "status" (str "error") (
        field "error"
          (obj (field "code" (str "command_failed") (field "message" (str (exception_text e)) end)))
          end)))

-- `sum(1 for r in results if r["status"] == status)`
unfoldable pub count_status : String → List Fields → ℕ
count_status status [] = 0
count_status status (r ∷ rs) =
    let n = count_status status rs in if is_str (get "status" r) status then suc n else n

abbrev pub summary : List Fields → Value
summary results = obj (
    field "results" (arr (of_items (map obj results))) (
      field "total" (int (pos (length results))) (
        field "succeeded" (int (pos (count_status "ok" results)))
          (field "failed" (int (pos (count_status "error" results))) end))))

abbrev pub prepend :
    {S : Type 0} → Fields → Option (Result (List Fields)) × S → Option (Result (List Fields)) × S
prepend entry (some (ok entries), s) = (some (ok (entry ∷ entries)), s)
prepend entry (some (err e), s) = (some (err e), s)
prepend entry (none, s) = (none, s)

abbrev pub then_rest :
    {S : Type 0}
    → Item
    → Option (Result Value)
    → (S → Option (Result (List Fields)) × S)
    → S
    → Option (Result (List Fields)) × S
then_rest i none rest s = (none, s)
then_rest i (some r) rest s = prepend (entry_of i r) (rest s)

abbrev pub summed : {S : Type 0} → Option (Result (List Fields)) × S → Option (Result Value) × S
summed (none, s) = (none, s)
summed (some (err e), s) = (some (err e), s)
summed (some (ok entries), s) = (some (ok (summary entries)), s)

-- the commands, where they are a list; other values that are not empty raise in the loop
abbrev pub commands_of : Option Value → List Value
commands_of (some (arr cmds)) = items cmds
commands_of (some v) = if truthy v then null ∷ [] else []
commands_of none = []

-- `asyncio.gather` over `run_one` under a semaphore of 0: what is no object raises before the
-- semaphore, and every other command waits for ever.
unfoldable pub run_blocked : List Value → Option (Result (List Fields))
run_blocked [] = some (ok [])
run_blocked (obj cmd ∷ cmds) = elim (run_blocked cmds) [ some (err e) ↦ some (err e) | _ ↦ none ]
run_blocked (_ ∷ cmds) = some (err (other_error "no attribute 'get'"))

abbrev pub given_params : Value → Fields
given_params (obj d) = d
given_params _ = end

module _ {S : Type 0} (command_handler : String → Value → Run S Value) where
  -- `asyncio.gather` over `run_one`; what is no object has no method `get`.
  unfoldable pub run_items : List Value → S → Option (Result (List Fields)) × S
  unfolding item_of
  run_items [] s = (some (ok []), s)
  run_items (obj cmd ∷ cmds) s =
      let i = item_of cmd in
      let (r, s') = command_handler i.action i.params s in then_rest i r (run_items cmds) s'
  run_items (_ ∷ cmds) s = (some (err (other_error "no attribute 'get'")), s)

  -- `asyncio.Semaphore(n)` raises below 0, and lets no command through at 0.
  unfoldable pub run_with : ℤ → List Value → Run S Value
  unfolding run_blocked
  run_with (negsuc n) cmds s = (some (err (value_error "Semaphore initial value must be >= 0")), s)
  run_with (pos n) cmds s = summed (if eqb n 0 then (run_blocked cmds, s) else run_items cmds s)

  abbrev pub run_if_any : List Value → Fields → Run S Value
  run_if_any [] params s =
      (some (err (value_error "commands list is required and must not be empty")), s)
  run_if_any (c ∷ cs) params s = elim (max_concurrency (get "max_concurrency" params)) [
    | err e ↦ (some (err e), s)
    | ok n ↦ run_with n (c ∷ cs) s
  ]

  -- The parameters of a batch are an object.
  unfoldable pub handle_batch : Value → Run S Value
  unfolding truthy
  handle_batch params =
      run_if_any (commands_of (get "commands" (given_params params))) (given_params params)
