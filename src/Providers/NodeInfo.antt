-- ===== src/Providers/NodeInfo.antt =====
-- services/providers/zwave.py: the description of a Z-Wave node, `get_node_info` with
-- `_get_zwave_device` and `_sensor_value`, from the registries and states of Home Assistant, which are
-- an argument.
use Prim.Native.Char.{code}
use staykey_ha_plugin.Prelude.{
  ℕ, ◌/◌, ◌%◌, ◌^◌, ◌+◌, ◌-◌, String, Bool, not, ◌&&◌, ◌||◌, Option, none, some, List, [], ◌∷◌,
  ◌==◌, eqb, if◌then◌else◌,
}
use staykey_ha_plugin.Python.Decimal.{int_of}
use staykey_ha_plugin.Python.Exec.{Result, ok, err, value_error, ◌<>◌}
use staykey_ha_plugin.Python.Int.{ℤ, pos, negsuc}
use staykey_ha_plugin.Python.Value.{Value, null, int, float, str, obj, Fields, end, field, put}

-- A device of the device registry.
pub record NodeDevice : Type 0 where
  pub manufacturer : Option String
  pub model : Option String
  pub sw_version : Option String
  pub identifiers : List (List String)

-- An entity of the device, with the state that it has.
pub record NodeEntity : Type 0 where
  pub platform : String
  pub unique_id : Option String
  pub state : Option String

-- What the registries tell of an entity: its device, if both are there, and the device's entities.
pub record Node : Type 0 where
  pub device : NodeDevice
  pub entities : List NodeEntity

abbrev pub zwave_domain : String
zwave_domain = "zwave_js"

-- The characters up to the next '-', and those after it if there is one.
unfoldable pub before_dash : String → String
before_dash String.[] = ""
before_dash (String.◌∷◌ c s) =
    let rest = before_dash s in if eqb (code c) 45 then "" else String.◌∷◌ c rest

unfoldable pub after_dash : String → Option String
after_dash String.[] = none
after_dash (String.◌∷◌ c s) = let rest = after_dash s in if eqb (code c) 45 then some s else rest

-- `int(parts[1]) if len(parts) >= 2 else None`, and none where `int` raises
unfoldable pub node_id_of : String → Option ℤ
unfolding before_dash after_dash
node_id_of identifier = elim (after_dash identifier) [
  | none ↦ none
  | some rest ↦ int_of (before_dash rest)
]

-- The loop over `device.identifiers`: an identifier that is no pair raises.
unfoldable pub zwave_identifier : List (List String) → Result (Option String)
zwave_identifier [] = ok none
zwave_identifier ((domain ∷ identifier ∷ []) ∷ idents) =
    let rest = zwave_identifier idents in
    if domain == zwave_domain then ok (some identifier) else rest
zwave_identifier (_ ∷ idents) = err (value_error "cannot unpack the identifier")

-- `_get_zwave_device`: the node's ID, where the device is Z-Wave's
unfoldable pub get_zwave_device : Option Node → Result (Option (Node × Option ℤ))
unfolding zwave_identifier node_id_of
get_zwave_device none = ok none
get_zwave_device (some node) = elim (zwave_identifier node.device.identifiers) [
  | err e ↦ err e
  | ok none ↦ ok none
  | ok (some identifier) ↦ ok (some (node, node_id_of identifier))
]

-- `int(number)` of the fraction m / 2^e, where it is whole
unfoldable pub whole_of : ℤ → ℕ → Option ℤ
whole_of (pos m) e = if eqb (m % 2 ^ e) 0 then some (pos (m / 2 ^ e)) else none
whole_of (negsuc m) e =
    if eqb ((m + 1) % 2 ^ e) 0 then some (negsuc ((m + 1) / 2 ^ e - 1)) else none

-- `_sensor_value`; `parse_float` is what `float` makes of a text, if it is a finite number
unfoldable pub sensor_value : (String → Option (ℤ × ℕ)) → String → Value
unfolding whole_of
sensor_value parse_float raw = elim (parse_float raw) [
  | none ↦ str raw
  | some (m, e) ↦ elim (whole_of m e) [ some i ↦ int i | none ↦ float m e ]
]

-- `s.endswith(suffix)`
unfoldable pub ends_with : String → String → Bool
ends_with suffix String.[] = suffix == ""
ends_with suffix (String.◌∷◌ c s) = String.◌∷◌ c s == suffix || ends_with suffix s

abbrev pub statistics_keys : List String
statistics_keys =
    "commands_tx" ∷ "commands_rx" ∷ "commands_dropped_tx" ∷ "commands_dropped_rx" ∷ "last_seen" ∷ []

-- the first key that a unique ID ends with
unfoldable pub statistic_of : String → List String → Option String
unfolding ends_with
statistic_of unique_id [] = none
statistic_of unique_id (key ∷ keys) =
    let rest = statistic_of unique_id keys in
    if ends_with (".statistics_" <> key) unique_id then some key else rest

abbrev text_or_null : Option String → Value
text_or_null none = null
text_or_null (some s) = str s

abbrev int_or_null : Option ℤ → Value
int_or_null none = null
int_or_null (some i) = int i

-- A state that tells something.
abbrev known_state : Option String → Option String
known_state none = none
known_state (some s) = if s == "unknown" || s == "unavailable" then none else some s

abbrev own_unique_id : NodeEntity → Option String
own_unique_id e = elim e.unique_id [
  | none ↦ none
  | some u ↦ if e.platform == zwave_domain && not (u == "") then some u else none
]

module _ (parse_float : String → Option (ℤ × ℕ)) where
  -- what one entity adds to the description and to the statistics
  unfoldable pub add_entity : NodeEntity → Fields × Fields → Fields × Fields
  unfolding sensor_value statistic_of
  add_entity e (info, statistics) = elim (own_unique_id e) [
    | none ↦ (info, statistics)
    | some unique_id ↦ elim (known_state e.state) [
      | none ↦ (info, statistics)
      | some state ↦
          if ends_with ".node_status" unique_id
          then (put "status" (str state) info, statistics)
          else elim (statistic_of unique_id statistics_keys) [
            | none ↦ (info, statistics)
            | some key ↦ (info, put key (sensor_value parse_float state) statistics)
          ]
    ]
  ]

  unfoldable pub add_entities : List NodeEntity → Fields × Fields → Fields × Fields
  unfolding add_entity
  add_entities [] both = both
  add_entities (e ∷ es) both = add_entities es (add_entity e both)

  abbrev with_statistics : Fields × Fields → Fields
  with_statistics (info, end) = info
  with_statistics (info, statistics) = put "statistics" (obj statistics) info

  abbrev basic_info : NodeDevice → Option ℤ → Fields
  basic_info device node_id = field "node_id" (int_or_null node_id) (
      field "manufacturer" (text_or_null device.manufacturer) (
        field "model" (text_or_null device.model)
          (field "firmware" (text_or_null device.sw_version) end)))

  -- `get_node_info`: an exception counts as no details
  unfoldable pub get_node_info : Option Node → Option Fields
  unfolding get_zwave_device add_entities
  get_node_info registered = elim (get_zwave_device registered) [
    | err e ↦ none
    | ok none ↦ none
    | ok (some (node, node_id)) ↦
        some (with_statistics (add_entities node.entities (basic_info node.device node_id, end)))
  ]
