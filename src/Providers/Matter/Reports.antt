-- ===== src/Providers/Matter/Reports.antt =====
-- services/providers/matter.py: the payloads and the results of setting, clearing and reading the
-- codes, without the calls.
use staykey_ha_plugin.Prelude.{
  ℕ, String, Bool, true, false, ◌&&◌, Option, none, some, List, [], ◌∷◌, if◌then◌else◌,
}
use staykey_ha_plugin.Python.Exec.{Exception, exception_text, Result, ok, err, ◌<>◌}
use staykey_ha_plugin.Python.Int.{ℤ, pos}
use staykey_ha_plugin.Python.Value.{
  Value, null, int, str, arr, Fields, end, field, items, get, put, is_str,
}
use staykey_ha_plugin.Providers.{ProviderResult, SlotInfo, CapabilityInfo}
use staykey_ha_plugin.Providers.Matter.{given, or_null, truthy_at, has_credential, max_slots_in}
use staykey_ha_plugin.Providers.Matter.Errors.{
  is_home_assistant_error, matter_status_of, clear_error,
}

abbrev pub result : ℤ → String → Bool → Option String → Fields → ProviderResult
result slot method verified error extra = record {
  slot = slot;
  method = method;
  verified = verified;
  attempts = 1;
  error = error;
  extra = extra;
}

abbrev operation_of : Option Fields → String
operation_of existing = if has_credential existing then "modify" else "add"

abbrev pub operation_fields : Option Fields → Fields
operation_fields existing = field "operation" (str (operation_of existing)) end

abbrev put_some : String → Option Value → Fields → Fields
put_some key none d = d
put_some key (some v) d = put key v d

abbrev user_index_of : Option Fields → Option Value
user_index_of none = none
user_index_of (some existing) = given "user_index" existing

-- the data of the one `set_lock_credential` call
unfoldable pub request_payload : String → ℤ → String → Option Fields → Fields
request_payload entity_id slot code existing =
    let base = field "entity_id" (str entity_id) (
      field "credential_type" (str "pin")
        (field "credential_data" (str code) (field "credential_index" (int slot) end))) in
    if has_credential existing
    then put_some "user_index" (user_index_of existing) base
    else put "user_type" (str "unrestricted_user") base

-- `per_entity and per_entity.get("credential_index") is not None`, with the object
unfoldable pub confirmed_by : Option Fields → Option Fields
confirmed_by none = none
confirmed_by (some response) = elim (given "credential_index" response) [
  | none ↦ none
  | some _ ↦ some response
]

abbrev pub put_text : String → Option String → Fields → Fields
put_text key none d = d
put_text key (some s) d = put key (str s) d

abbrev pub preflight_failed : ℤ → Exception → ProviderResult
preflight_failed slot e =
    result slot "matter_set_credential" false
      (some ("set_lock_credential: preflight_unavailable: " <> exception_text e))
      (field "operation" (str "preflight") (field "preflight_error" (str (exception_text e)) end))

abbrev pub indices : Option Fields → Fields → Fields
indices existing response = field "operation" (str (operation_of existing)) (
    field "credential_index" (or_null "credential_index" response) (
      field "user_index" (or_null "user_index" response)
        (field "next_credential_index" (or_null "next_credential_index" response) end)))

abbrev pub status_or_none : Result (Option Fields) → Option Fields
status_or_none (ok status) = status
status_or_none (err e) = none

abbrev pub user_of : Option Fields → Value
user_of none = null
user_of (some status) = or_null "user_index" status

abbrev pub already_empty : ℤ → ProviderResult
already_empty slot = result slot "matter_clear_already_empty" true none end

abbrev pub user_data : String → Value → Fields
user_data entity_id user_index =
    field "entity_id" (str entity_id) (field "user_index" user_index end)

abbrev pub user_not_cleared : ℤ → Value → Exception → ProviderResult
user_not_cleared slot user_index e =
    if is_home_assistant_error e
    then result slot "matter_clear_user" false (some (clear_error (matter_status_of e) e))
        (put_text "matter_status" (matter_status_of e) (field "user_index" user_index end))
    else result slot "matter_clear_user" false (some ("clear_lock_user: " <> exception_text e))
        (field "user_index" user_index end)

abbrev pub clear_preflight_failed : ℤ → Exception → ProviderResult
clear_preflight_failed slot e =
    result slot "matter_clear_user" false
      (some ("clear_lock_user: preflight_unavailable: " <> exception_text e))
      (field "preflight_error" (str (exception_text e)) end)

-- the row of a slot: none where its state is unknown or the answer names no object
abbrev pub row : ℕ → Result (Option Fields) → Option SlotInfo
row slot (err e) = none
row slot (ok none) = none
row slot (ok (some status)) =
    some (record { slot = pos slot; occupied = truthy_at "credential_exists" status; code = none })

-- `"pin" in (… or [])`, for a list
unfoldable pub names_pin : List Value → Bool
names_pin [] = false
names_pin (v ∷ vs) = let rest = names_pin vs in if is_str (some v) "pin" then true else rest

abbrev pin_among : Option Value → Bool
pin_among (some (arr vs)) = names_pin (items vs)
pin_among _ = false

-- An empty object counts as no information.
abbrev pub capabilities_in : Option Fields → CapabilityInfo
capabilities_in none = record { supports_access_codes = false; max_slots = none; extra = end }
capabilities_in (some end) = record { supports_access_codes = false; max_slots = none; extra = end }
capabilities_in (some info) = record {
  supports_access_codes =
      truthy_at "supports_user_management" info
      && pin_among (get "supported_credential_types" info);
  max_slots = max_slots_in info;
  extra = info;
}
