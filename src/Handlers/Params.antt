-- ===== src/Handlers/Params.antt =====
-- handlers/lock.py: how the parameters of a command are read. `show_other` is what `str` makes of a
-- fraction, a list or an object.
use staykey_ha_plugin.Prelude.{
  ℕ, zero, suc, ◌/◌, ◌^◌, ◌+◌, String, true, false, Option, none, some, ◌==◌, if◌then◌else◌,
}
use staykey_ha_plugin.Python.Decimal.{str_of, int_of}
use staykey_ha_plugin.Python.Exec.{Result, ok, err, value_error, type_error, ◌<>◌}
use staykey_ha_plugin.Python.Int.{ℤ, pos, negsuc}
use staykey_ha_plugin.Python.Value.{Value, null, bool, int, float, str, Fields, get, truthy}
use staykey_ha_plugin.DeviceMap.{DeviceMap, get_entity_id}

-- `params.get("device_id", "")`. Device IDs are texts; what is no text is read as "" here, where the
-- source looks it up as it is, in vain, and names it in the error.
abbrev pub device_id_in : Fields → String
device_id_in params = elim (get "device_id" params) [ some (str s) ↦ s | _ ↦ "" ]

abbrev pub unknown_device : String → Result String
unknown_device device_id = err (value_error ("Unknown device_id: " <> device_id))

abbrev entity_or_error : String → Option String → Result String
entity_or_error device_id none = unknown_device device_id
entity_or_error device_id (some e) = if e == "" then unknown_device device_id else ok e

-- `_resolve_entity_id`, and the same lines of `handle_lock` and `handle_unlock`
unfoldable pub resolve_entity_id : DeviceMap → Fields → Result String
resolve_entity_id device_map params = elim (get_entity_id (device_id_in params) device_map) [
  | err e ↦ err e
  | ok found ↦ entity_or_error (device_id_in params) found
]

-- `params.get(first) or params.get(second)`
unfoldable pub first_of : String → String → Fields → Option Value
unfolding truthy
first_of first second params = elim (get first params) [
  | none ↦ get second params
  | some v ↦ if truthy v then some v else get second params
]

abbrev of_quotient : ℕ → ℤ
of_quotient zero = pos zero
of_quotient (suc n) = negsuc n

-- `int(v)`: a fraction loses what follows the point
unfoldable pub int_value : Value → Result ℤ
int_value (int i) = ok i
int_value (bool b) = ok (if b then pos 1 else pos 0)
int_value (float (pos m) e) = ok (pos (m / 2 ^ e))
int_value (float (negsuc m) e) = ok (of_quotient ((m + 1) / 2 ^ e))
int_value (str s) = elim (int_of s) [
  | none ↦ err (value_error ("invalid literal for int() with base 10: '" <> s <> "'"))
  | some i ↦ ok i
]
int_value _ =
    err (type_error "int() argument must be a string, a bytes-like object or a real number")

abbrev slot_missing : Result ℤ
slot_missing = err (value_error "slot/code_slot is required")

abbrev int_or_missing : Option Value → Result ℤ
int_or_missing none = slot_missing
int_or_missing (some null) = slot_missing
int_or_missing (some v) = int_value v

unfoldable pub resolve_slot : Fields → Result ℤ
unfolding int_value first_of
resolve_slot params = int_or_missing (first_of "slot" "code_slot" params)

module _ (show_other : Value → String) where
  -- `str(v)`
  unfoldable pub str_value : Value → String
  str_value null = "None"
  str_value (bool true) = "True"
  str_value (bool false) = "False"
  str_value (int i) = str_of i
  str_value (str s) = s
  str_value v = show_other v

  abbrev with_slot : String → Result ℤ → Result (ℤ × String)
  with_slot code (err e) = err e
  with_slot code (ok slot) = ok (slot, code)

  abbrev code_missing : Result (ℤ × String)
  code_missing = err (value_error "code/access_code is required")

  unfoldable pub resolve_slot_and_code : Fields → Result (ℤ × String)
  unfolding truthy first_of str_value resolve_slot
  resolve_slot_and_code params = elim (first_of "code" "access_code" params) [
    | none ↦ code_missing
    | some code ↦
        if truthy code then with_slot (str_value code) (resolve_slot params) else code_missing
  ]
