-- ===== src/Handlers/Discovery.antt =====
-- handlers/device_discovery.py, and `_handle_list_entities` of services/ha_bridge.py. The registries
-- and the states of Home Assistant are arguments.
pub mod Capabilities
pub mod Rows
pub mod Reported
pub mod Listing
use staykey_ha_plugin.Prelude.{
  ℕ, String, Bool, true, false, not, ◌&&◌, ◌||◌, Option, none, some, List, [], ◌∷◌, map, ◌==◌,
  if◌then◌else◌,
}
use staykey_ha_plugin.Python.Dict.{Dict, lookup, insert}
use staykey_ha_plugin.Python.Exec.{Result, ok, err, type_error}
use staykey_ha_plugin.Python.Value.{
  Value, null, bool, str, arr, obj, Items, nil, cons, Fields, end, field, get, put, items, of_items,
  is_str,
}
use staykey_ha_plugin.Handlers.Discovery.Capabilities.{extract_capabilities, infer_protocol}

-- An entry of the entity registry.
pub record RegistryEntry : Type 0 where
  pub entity_id : String
  pub domain : String
  pub disabled : Bool
  pub name : Option String
  pub original_name : Option String
  pub unique_id : String
  pub device_id : Option String

-- An entry of the device registry.
pub record DeviceEntry : Type 0 where
  pub name_by_user : Option String
  pub name : Option String
  pub manufacturer : Option String
  pub model : Option String
  pub area_id : Option String
  pub identifiers : List (List String)

abbrev pub supported_domains : List String
supported_domains = "lock" ∷ "climate" ∷ "light" ∷ "cover" ∷ "sensor" ∷ "switch" ∷ []

-- the elements of `set(v)`, repeated ones included; an element that has no hash raises
abbrev hashable : Value → Bool
hashable (arr _) = false
hashable (obj _) = false
hashable _ = true

unfoldable pub all_hashable : List Value → Bool
all_hashable [] = true
all_hashable (v ∷ vs) = hashable v && all_hashable vs

unfoldable pub keys_of : Fields → List Value
keys_of end = []
keys_of (field k v d) = str k ∷ keys_of d

unfoldable pub letters_of : String → List Value
letters_of String.[] = []
letters_of (String.◌∷◌ c s) = str (String.◌∷◌ c String.[]) ∷ letters_of s

-- `set(params.get("domains", []))`
unfoldable pub domains_in : Fields → Result (List Value)
unfolding all_hashable keys_of letters_of
domains_in params = elim (get "domains" params) [
  | none ↦ ok []
  | some (arr vs) ↦
      if all_hashable (items vs) then ok (items vs) else err (type_error "unhashable type")
  | some (obj d) ↦ ok (keys_of d)
  | some (str s) ↦ ok (letters_of s)
  | some _ ↦ err (type_error "object is not iterable")
]

unfoldable pub is_among : String → List Value → Bool
is_among domain [] = false
is_among domain (v ∷ vs) = is_str (some v) domain || is_among domain vs

-- `entry.domain in filter_domains`, where an empty set stands for the domains that are supported
unfoldable pub is_wanted : List Value → RegistryEntry → Bool
unfolding is_among
is_wanted [] entry = is_among entry.domain (map str supported_domains)
is_wanted (v ∷ vs) entry = is_among entry.domain (v ∷ vs)

-- `first or …`, for a text that may be missing
abbrev pub or_text : Option String → String → String
or_text none t = t
or_text (some s) t = if s == "" then t else s

abbrev pub text_or_null : Option String → Value
text_or_null none = null
text_or_null (some s) = str s

abbrev pub basic_info : RegistryEntry → Fields
basic_info entry = field "external_id" (str entry.entity_id) (
    field "name" (str (or_text entry.name (or_text entry.original_name entry.entity_id)))
      (field "type" (str entry.domain) (field "unique_id" (str entry.unique_id) end)))

abbrev pub put_protocol : Option String → Fields → Fields
put_protocol none info = info
put_protocol (some p) info = put "protocol" (str p) info

abbrev full_name : RegistryEntry → DeviceEntry → String
full_name entry device = or_text entry.name (
    or_text entry.original_name (or_text device.name_by_user (or_text device.name entry.entity_id)))

-- what the device adds to a row
abbrev pub put_device : RegistryEntry → Option DeviceEntry → Fields → Fields
put_device entry none info = info
put_device entry (some device) info = put_protocol (infer_protocol device.identifiers) (
    put "area_id" (text_or_null device.area_id) (
      put "model" (text_or_null device.model) (
        put "manufacturer" (text_or_null device.manufacturer)
          (put "name" (str (full_name entry device)) info))))

-- `entity_info.get("protocol")`
abbrev pub protocol_of : Fields → Option String
protocol_of info = elim (get "protocol" info) [ some (str p) ↦ some p | _ ↦ none ]

abbrev pub texts : List String → Value
texts ss = arr (of_items (map str ss))

-- what the state adds to a row: its attributes are none where there is no state
abbrev pub put_capabilities : RegistryEntry → Option Fields → Fields → Fields
put_capabilities entry none info = info
put_capabilities entry (some end) info = info
put_capabilities entry (some attributes) info =
    put "capabilities" (texts (extract_capabilities entry.domain attributes (protocol_of info)))
      info

-- `entry.device_id`, where it is not empty
abbrev pub device_of : RegistryEntry → Option String
device_of entry = elim entry.device_id [
  | none ↦ none
  | some id ↦ if id == "" then none else some id
]

abbrev pub Cache : Type 0
Cache = Dict (Option DeviceEntry)

-- the device, from the cache if it has been looked up before
unfoldable pub cached : (String → Option DeviceEntry) → String → Cache → Option DeviceEntry × Cache
cached device_reg id cache = elim (lookup id cache) [
  | some device ↦ (device, cache)
  | none ↦ (device_reg id, insert id (device_reg id) cache)
]

module _ (device_reg : String → Option DeviceEntry) (states : String → Option Fields) where
  abbrev pub finish : RegistryEntry → Option DeviceEntry → Fields
  finish entry device =
      put_capabilities entry (states entry.entity_id) (put_device entry device (basic_info entry))

  -- one pass of the loop over an entry that is wanted
  unfoldable pub row : RegistryEntry → Cache → Fields × Cache
  unfolding cached
  row entry cache = elim (device_of entry) [
    | none ↦ (finish entry none, cache)
    | some id ↦ let (device, cache') = cached device_reg id cache in (finish entry device, cache')
  ]

  unfoldable pub discover : List Value → List RegistryEntry → Cache → List Fields
  unfolding row is_wanted
  discover domains [] cache = []
  discover domains (entry ∷ entries) cache =
      let skipped = discover domains entries cache in
      let (info, cache') = row entry cache in
      let next = discover domains entries cache' in
      if is_wanted domains entry && not entry.disabled then info ∷ next else skipped

  unfoldable pub handle_discover_devices : List RegistryEntry → Fields → Result Fields
  unfolding discover
  handle_discover_devices entries params = elim (domains_in params) [
    | err e ↦ err e
    | ok domains ↦ ok (field "devices" (arr (of_items (map obj (discover domains entries [])))) end)
  ]

-- `d.get(key, default)`
abbrev pub value_at : Value → String → Fields → Value
value_at default key d = elim (get key d) [ none ↦ default | some v ↦ v ]

unfoldable pub listed_entity : Fields → Fields
listed_entity d = field "entity_id" (value_at (str "") "external_id" d) (
    field "friendly_name" (value_at (str "") "name" d) (
      field "type" (value_at (str "") "type" d) (
        field "manufacturer" (value_at null "manufacturer" d) (
          field "model" (value_at null "model" d) (
            field "integration" (value_at null "protocol" d)
              (field "attributes" (value_at (arr nil) "capabilities" d) end))))))

abbrev pub listed : Value → Value
listed (obj d) = obj (listed_entity d)
listed v = v

abbrev pub devices_in : Fields → List Value
devices_in result = elim (get "devices" result) [ some (arr vs) ↦ items vs | _ ↦ [] ]

-- `_handle_list_entities`
unfoldable pub handle_list_entities :
    (String → Option DeviceEntry)
    → (String → Option Fields)
    → List RegistryEntry
    → Fields
    → Result Value
unfolding listed_entity
handle_list_entities device_reg states entries params =
    elim (handle_discover_devices device_reg states entries params) [
      | err e ↦ err e
      | ok result ↦ ok (arr (of_items (map listed (devices_in result))))
    ]
