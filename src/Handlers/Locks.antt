-- ===== src/Handlers/Locks.antt =====
-- handlers/lock.py: the access codes. A handler is given the device map, and chooses a provider by
-- `select`.
pub mod Cleared
use staykey_ha_plugin.Prelude.{
  ℕ, String, Bool, true, false, Option, none, some, List, [], ◌∷◌, map, ◌==◌, if◌then◌else◌,
}
use staykey_ha_plugin.Python.Exec.{Result, ok, err, Exec, pure, raise, ◌>>=◌, ◌>>◌}
use staykey_ha_plugin.Python.Int.{ℤ, pos}
use staykey_ha_plugin.Python.Value.{
  Value, bool, int, str, arr, obj, Fields, end, field, get, put, of_items, truthy,
}
use staykey_ha_plugin.DeviceMap.{DeviceMap}
use staykey_ha_plugin.Providers.{ProviderResult, SlotInfo, LockProvider}
use staykey_ha_plugin.Handlers.Params.{
  resolve_entity_id, resolve_slot, resolve_slot_and_code, int_value,
}

-- an exception, or a result, as a call that does nothing
abbrev pub lift : {S A : Type 0} → Result A → Exec S A
lift r s = (r, s)

abbrev put_text : String → Option String → Fields → Fields
put_text key none d = d
put_text key (some s) d = if s == "" then d else put key (str s) d

abbrev put_extra : Fields → Fields → Fields
put_extra end d = d
put_extra extra d = put "extra" (obj extra) d

-- a field of `extra` that is handed on unless it is empty
abbrev promote : String → Fields → Fields → Fields
promote key extra d = elim (get key extra) [
  | none ↦ d
  | some v ↦ if truthy v then put key v d else d
]

unfoldable pub provider_result_to_dict : ProviderResult → Fields
unfolding truthy
provider_result_to_dict result =
    let out = field "slot" (int result.slot) (
      field "method" (str result.method) (
        field "verified" (bool result.verified)
          (field "attempts" (int (pos result.attempts)) end))) in
    promote "reason" result.extra (
      promote "matter_status" result.extra
        (put_extra result.extra (put_text "error" result.error out)))

-- `result.error is None`
abbrev pub is_none : Option String → Bool
is_none none = true
is_none (some _) = false

unfoldable pub cleared_dict : ProviderResult → Fields
unfolding provider_result_to_dict
cleared_dict result = put "cleared" (bool (is_none result.error)) (provider_result_to_dict result)

abbrev put_code : Option String → Fields → Fields
put_code none d = d
put_code (some code) d = put "code" (str code) d

unfoldable pub slot_info_to_dict : SlotInfo → Fields
slot_info_to_dict info =
    put_code info.code (field "slot" (int info.slot) (field "occupied" (bool info.occupied) end))

-- `int(params.get("max_slots", 30))`
unfoldable pub max_slots_in : Fields → Result ℤ
max_slots_in params = elim (get "max_slots" params) [ none ↦ ok (pos 30) | some v ↦ int_value v ]

module _ {S : Type 0} (select : String → Result (LockProvider S)) (device_map : DeviceMap) where
  unfoldable pub handle_set_access_code : (Value → String) → Fields → Exec S Fields
  handle_set_access_code show_other params = do
    entity_id ← lift (resolve_entity_id device_map params)
    slot_and_code ← lift (resolve_slot_and_code show_other params)
    provider ← lift (select entity_id)
    result ← provider.set_code entity_id slot_and_code.0 slot_and_code.1
    pure (provider_result_to_dict result)

  unfoldable pub handle_clear_access_code : Fields → Exec S Fields
  handle_clear_access_code params = do
    entity_id ← lift (resolve_entity_id device_map params)
    slot ← lift (resolve_slot params)
    provider ← lift (select entity_id)
    result ← provider.clear_code entity_id slot
    pure (cleared_dict result)

  unfoldable pub handle_read_codes : Fields → Exec S Fields
  handle_read_codes params = do
    entity_id ← lift (resolve_entity_id device_map params)
    max_slots ← lift (max_slots_in params)
    provider ← lift (select entity_id)
    slots ← provider.read_codes entity_id max_slots
    pure (field "slots" (arr (of_items (map (λ i. obj (slot_info_to_dict i)) slots))) end)
