-- ===== src/Handlers/Reports.antt =====
-- handlers/state.py, handlers/capability.py and handlers/diagnostics.py: what is reported of a device.
-- An attribute's value that is handed on as it is holds JSON data.
use Prim.Native.Char.{code}
use staykey_ha_plugin.Prelude.{
  String, Bool, true, false, ◌&&◌, Option, none, some, ◌==◌, eqb, if◌then◌else◌,
}
use staykey_ha_plugin.Python.Exec.{Exception, unsupported_protocol, Result, ok, err, Exec, ◌>>=◌}
use staykey_ha_plugin.Python.Int.{ℤ, pos}
use staykey_ha_plugin.Python.Object.{
  Object, Pairs, no_pairs, pair, make_serializable, serializable_pairs,
}
use staykey_ha_plugin.Python.Value.{Value, null, bool, int, str, obj, Fields, end, field, get, put}
use staykey_ha_plugin.StateFilter.{before_dot}
use staykey_ha_plugin.DeviceMap.{DeviceMap}
use staykey_ha_plugin.Providers.{CapabilityInfo, LockProvider}
use staykey_ha_plugin.Handlers.Params.{device_id_in, resolve_entity_id}
use staykey_ha_plugin.Handlers.Locks.{lift}

-- A state of Home Assistant, with the `isoformat` of its times.
pub record HassState : Type 0 where
  pub state : String
  pub attributes : Pairs
  pub last_changed : Option String
  pub last_updated : Option String

abbrev text_or_null : Option String → Value
text_or_null none = null
text_or_null (some s) = str s

unfoldable pub state_report : Option HassState → Fields
unfolding serializable_pairs
state_report none = field "state" (str "unavailable") (field "attributes" (obj end) end)
state_report (some s) = field "state" (str s.state) (
    field "attributes" (obj (serializable_pairs s.attributes end)) (
      field "last_changed" (text_or_null s.last_changed)
        (field "last_updated" (text_or_null s.last_updated) end)))

-- `attrs[key]`, if it is there
unfoldable pub attribute_of : String → Pairs → Option Object
attribute_of key no_pairs = none
attribute_of key (pair k o ps) = if k == key then some o else attribute_of key ps

abbrev put_attribute : String → Pairs → Fields → Fields
put_attribute key attributes d = elim (attribute_of key attributes) [
  | none ↦ d
  | some o ↦ put key (make_serializable o) d
]

-- `entity_id.split(".")[0]`
abbrev first_part : String → String
first_part entity_id = elim (before_dot entity_id) [ none ↦ entity_id | some domain ↦ domain ]

-- `s.startswith(prefix)`
unfoldable pub has_prefix : String → String → Bool
has_prefix String.[] s = true
has_prefix (String.◌∷◌ c p) String.[] = false
has_prefix (String.◌∷◌ c p) (String.◌∷◌ d s) = eqb (code c) (code d) && has_prefix p s

-- what the state adds to the capabilities
abbrev put_current : String → Option HassState → Fields → Fields
put_current entity_id none d = d
put_current entity_id (some s) d = put_attribute "device_class" s.attributes (
    put_attribute "supported_features" s.attributes
      (put "current_state" (str s.state) (put "domain" (str (first_part entity_id)) d)))

abbrev put_max_slots : Option ℤ → Fields → Fields
put_max_slots none d = d
put_max_slots (some n) d = put "max_slots" (int n) d

abbrev put_extra : String → Fields → Fields → Fields
put_extra name end d = d
put_extra name extra d = put name (obj extra) d

-- what a provider adds to the capabilities
unfoldable pub put_capabilities : String → CapabilityInfo → Fields → Fields
put_capabilities name caps d = put_extra name caps.extra (
    put_max_slots caps.max_slots
      (put "supports_access_codes" (bool caps.supports_access_codes) (put "protocol" (str name) d)))

-- `if node_info:`
abbrev put_node : Option Fields → Fields → Fields
put_node none d = d
put_node (some end) d = d
put_node (some info) d = put "zwave" (obj info) d

abbrev pub is_unsupported : Exception → Bool
is_unsupported (unsupported_protocol s) = true
is_unsupported _ = false

abbrev value_or : Value → String → Fields → Value
value_or default key d = elim (get key d) [ none ↦ default | some v ↦ v ]

-- what the statistics of a node add to the diagnostics, where they are an object that is not empty
abbrev put_statistics : Option Value → Fields → Fields
put_statistics (some (obj (field k v stats))) d =
    let of = field k v stats in
    let zero_or = value_or (int (pos 0)) in
    put "last_seen" (value_or null "last_seen" of) (
      put "commands_dropped_rx" (zero_or "commands_dropped_rx" of) (
        put "commands_dropped_tx" (zero_or "commands_dropped_tx" of) (
          put "commands_rx" (zero_or "commands_rx" of)
            (put "commands_tx" (zero_or "commands_tx" of) d))))
put_statistics _ d = d

abbrev put_status : Option Fields → Fields → Fields
put_status none d = d
put_status (some end) d = d
put_status (some info) d =
    put_statistics (get "statistics" info)
      (put "zwave_status" (value_or (str "unknown") "status" info) d)

abbrev put_health : Option HassState → Fields → Fields
put_health none d = d
put_health (some s) d = put "last_updated" (text_or_null s.last_updated) (
    put "last_changed" (text_or_null s.last_changed)
      (put_attribute "battery_level" s.attributes (put "state" (str s.state) d)))

-- `read` is the state of an entity at one moment, `node_info` is `get_node_info`, and `select` chooses
-- the provider of a lock.
module _ {S : Type 0} (read : String → S → Option HassState)
    (node_info : String → S → Option Fields) (select : String → Result (LockProvider S))
    (device_map : DeviceMap) where
  abbrev report : (Option HassState → Fields) → String → Exec S Fields
  report f entity_id s = (ok (f (read entity_id s)), s)

  unfoldable pub handle_get_state : Fields → Exec S Fields
  unfolding state_report
  handle_get_state params = do
    entity_id ← lift (resolve_entity_id device_map params)
    report state_report entity_id

  -- the best that is known without a provider
  abbrev fallback : String → Fields → Exec S Fields
  fallback entity_id capabilities s = (ok (put_node (node_info entity_id s) capabilities), s)

  -- the capabilities of a lock
  unfoldable pub lock_capabilities : String → Fields → Exec S Fields
  unfolding put_capabilities
  lock_capabilities entity_id capabilities s = elim (select entity_id) [
    | err e ↦ if is_unsupported e then fallback entity_id capabilities s else (err e, s)
    | ok provider ↦
        let (r, s') = provider.get_capabilities entity_id s in
        elim r [
          | err e ↦ if is_unsupported e then fallback entity_id capabilities s' else (err e, s')
          | ok caps ↦ (ok (put_capabilities provider.name caps capabilities), s')
        ]
  ]

  unfoldable pub capabilities_of : String → String → Exec S Fields
  unfolding lock_capabilities
  capabilities_of device_id entity_id s =
      let capabilities =
        put_current entity_id (read entity_id s)
          (field "device_id" (str device_id) (field "entity_id" (str entity_id) end)) in
      if has_prefix "lock." entity_id
      then lock_capabilities entity_id capabilities s
      else fallback entity_id capabilities s

  unfoldable pub handle_get_capabilities : Fields → Exec S Fields
  unfolding capabilities_of
  handle_get_capabilities params = do
    entity_id ← lift (resolve_entity_id device_map params)
    capabilities_of (device_id_in params) entity_id

  abbrev diagnostics_of : String → String → Exec S Fields
  diagnostics_of device_id entity_id s = (
    ok (
        put_status (node_info entity_id s)
          (put_health (read entity_id s) (field "device_id" (str device_id) end))),
    s,
  )

  unfoldable pub handle_get_diagnostics : Fields → Exec S Fields
  handle_get_diagnostics params = do
    entity_id ← lift (resolve_entity_id device_map params)
    diagnostics_of (device_id_in params) entity_id
