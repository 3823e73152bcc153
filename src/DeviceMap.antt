-- ===== src/DeviceMap.antt =====
-- device_map.py: which Staykey device stands for which Home Assistant entity. The write-only index
-- over `device_identifiers`, which no method reads, is left out.
pub mod Reverse
pub mod Sync
pub mod Loaded
use staykey_ha_plugin.Prelude.{String, Bool, Option, none, some, List, [], ◌∷◌, ◌==◌, if◌then◌else◌}
use staykey_ha_plugin.Python.Dict.{Dict, lookup, contains, insert, erase, keys}
use staykey_ha_plugin.Python.Exec.{
  key_error, Exec, Result, ok, err, pure, raise, modify, ◌>>=◌, ◌>>◌,
}

-- A field of a JSON object that should hold a text.
pub data Field : Type 0 where
  absent null : Field
  text : String → Field

-- `v or ""`: the text, if it is there and not empty
abbrev pub or_empty : Field → String
or_empty (text s) = s
or_empty _ = ""

-- A device as the gateway describes it: the fields that the map reads. `unique_id` stands under
-- `platform_identifiers`, which are an object or absent.
pub record Device : Type 0 where
  pub device_id : Option String
  pub external_id : Field
  pub unique_id : Field

pub record DeviceMap : Type 0 where
  pub forward : Dict Device
  pub reverse : Dict String
  pub unique_ids : Dict String

unfoldable pub new : DeviceMap
new = record { forward = []; reverse = []; unique_ids = [] }

unfoldable pub tracked_entities : DeviceMap → List String
tracked_entities m = keys m.reverse

unfoldable pub tracked_device_ids : DeviceMap → List String
tracked_device_ids m = keys m.forward

-- `d[k] = v` under `if k:`
abbrev pub insert_truthy : String → String → Dict String → Dict String
insert_truthy k v d = if k == "" then d else insert k v d

-- `d.pop(k, None)` under `if k:`
abbrev pub erase_truthy : String → Dict String → Dict String
erase_truthy k d = if k == "" then d else erase k d

-- `_add_device` once `device["device_id"]` is read
unfoldable pub add_known : String → Device → DeviceMap → DeviceMap
add_known device_id device m = record {
  forward = insert device_id device m.forward;
  reverse = insert_truthy (or_empty device.external_id) device_id m.reverse;
  unique_ids = insert_truthy (or_empty device.unique_id) device_id m.unique_ids;
}

-- `device["device_id"]`
unfoldable pub id_of : Device → Exec DeviceMap String
id_of device = elim device.device_id [ none ↦ raise (key_error "device_id") | some d ↦ pure d ]

unfoldable pub add_device : Device → Exec DeviceMap (Unit {0})
unfolding add_known id_of
add_device device = do device_id ← id_of device; modify (add_known device_id device)

unfoldable pub remove_found : String → Option Device → DeviceMap → DeviceMap
remove_found device_id none m = m
remove_found device_id (some info) m = record {
  forward = erase device_id m.forward;
  reverse = erase_truthy (or_empty info.external_id) m.reverse;
  unique_ids = erase_truthy (or_empty info.unique_id) m.unique_ids;
}

unfoldable pub remove_device : String → DeviceMap → DeviceMap
unfolding remove_found
remove_device device_id m = remove_found device_id (lookup device_id m.forward) m

-- the loop of `load_sync`
unfoldable pub add_devices : List Device → Exec DeviceMap (Unit {0})
add_devices [] = pure tt
add_devices (device ∷ devices) = do add_device device; add_devices devices

unfoldable pub load_sync : List Device → Exec DeviceMap (Unit {0})
unfolding new add_devices
load_sync devices m = add_devices devices new

-- `device` and `device_id` are `none` where the message has none, or an empty one.
unfoldable pub apply_update : String → Option Device → Option String → Exec DeviceMap (Unit {0})
unfolding add_device remove_device
apply_update action device device_id =
    if action == "add"
    then elim device [ none ↦ pure tt | some d ↦ add_device d ]
    else if action == "remove"
    then elim device_id [ none ↦ pure tt | some i ↦ modify (remove_device i) ]
    else if action == "update"
    then elim device [
      | none ↦ pure tt
      | some d ↦ do i ← id_of d; modify (remove_device i); add_device d
    ]
    else pure tt

-- `info["external_id"]`; a null comes back as none
abbrev external_id_of : Field → Result (Option String)
external_id_of absent = err (key_error "external_id")
external_id_of null = ok none
external_id_of (text s) = ok (some s)

unfoldable pub get_entity_id : String → DeviceMap → Result (Option String)
get_entity_id device_id m = elim (lookup device_id m.forward) [
  | none ↦ ok none
  | some info ↦ external_id_of info.external_id
]

unfoldable pub get_device_id : String → DeviceMap → Option String
get_device_id entity_id m = lookup entity_id m.reverse

unfoldable pub get_device_info : String → DeviceMap → Option Device
get_device_info device_id m = lookup device_id m.forward

unfoldable pub get_device_by_unique_id : String → DeviceMap → Option String
get_device_by_unique_id unique_id m = lookup unique_id m.unique_ids

unfoldable pub update_entity_id : String → String → String → DeviceMap → DeviceMap
update_entity_id device_id old_entity_id new_entity_id m = elim (lookup device_id m.forward) [
  | none ↦ m
  | some info ↦ record m {
    forward = insert device_id (record info { external_id = text new_entity_id }) m.forward;
    reverse = insert new_entity_id device_id (erase old_entity_id m.reverse);
  }
]

unfoldable pub is_tracked : String → DeviceMap → Bool
unfolding contains
is_tracked entity_id m = contains entity_id m.reverse
