-- ===== src/Providers/Matter.antt =====
-- services/providers/matter.py. What is written to the log is left out.
pub mod Errors
pub mod Reports
pub mod Codes
pub mod Locked
pub mod Outcomes
use staykey_ha_plugin.Prelude.{String, Bool, true, false, Option, none, some, ltb, if◌then◌else◌}
use staykey_ha_plugin.Python.Exec.{Result, ok, err, Exception}
use staykey_ha_plugin.Python.Int.{ℤ, pos}
use staykey_ha_plugin.Python.Value.{
  Value, null, bool, int, str, obj, Fields, end, field, get, truthy,
}
use staykey_ha_plugin.Providers.{Services}

-- `_extract_entity_response`
unfoldable pub entity_response : Value → String → Option Fields
entity_response (obj response) entity_id = elim (get entity_id response) [
  | some (obj d) ↦ some d
  | _ ↦ some response
]
entity_response _ entity_id = none

-- `d.get(key)`, where a null is as good as none
unfoldable pub given : String → Fields → Option Value
given key d = elim (get key d) [ none ↦ none | some null ↦ none | some v ↦ some v ]

-- `d.get(key)` as a value of another object
abbrev pub or_null : String → Fields → Value
or_null key d = elim (get key d) [ none ↦ null | some v ↦ v ]

-- `bool(d.get(key))`
unfoldable pub truthy_at : String → Fields → Bool
unfolding truthy
truthy_at key d = elim (get key d) [ none ↦ false | some v ↦ truthy v ]

-- `bool(existing and existing.get("credential_exists"))`
abbrev pub has_credential : Option Fields → Bool
has_credential none = false
has_credential (some status) = truthy_at "credential_exists" status

abbrev pub slot_data : String → ℤ → Fields
slot_data entity_id slot =
    field "entity_id" (str entity_id)
      (field "credential_type" (str "pin") (field "credential_index" (int slot) end))

-- a candidate of `_extract_max_slots`; `True` counts as 1
abbrev positive : Option Value → Option ℤ
positive (some (int (pos n))) = if ltb 0 n then some (pos n) else none
positive (some (bool true)) = some (pos 1)
positive _ = none

unfoldable pub max_slots_in : Fields → Option ℤ
max_slots_in info = elim (positive (get "max_pin_users" info)) [
  | some n ↦ some n
  | none ↦ positive (get "max_users" info)
]

module _ {S : Type 0} (call : Services S) where
  -- An error is `PreflightUnavailable`, with its original exception.
  unfoldable pub credential_status : String → ℤ → S → Result (Option Fields) × S
  credential_status entity_id slot s =
      let (r, s') = call "matter.get_lock_credential_status" (slot_data entity_id slot) s in
      elim r [ err e ↦ (err e, s') | ok response ↦ (ok (entity_response response entity_id), s') ]

  unfoldable pub lock_info : String → S → Option Fields × S
  lock_info entity_id s =
      let (r, s') = call "matter.get_lock_info" (field "entity_id" (str entity_id) end) s in
      elim r [ err e ↦ (none, s') | ok response ↦ (entity_response response entity_id, s') ]
