-- ===== src/Handlers/Discovery/Listing.antt =====
-- Which entities `_handle_list_entities` lists (services/ha_bridge.py).
use staykey_ha_plugin.Prelude.{
  String, ◌≡◌, refl, ap, ap₂, ◌∙◌, Option, none, some, List, [], ◌∷◌, map,
}
use staykey_ha_plugin.Python.Exec.{ok}
use staykey_ha_plugin.Python.Value.{Value, str, arr, obj, Fields, get, items, of_items}
use staykey_ha_plugin.Handlers.Discovery.{
  RegistryEntry, DeviceEntry, device_of, domains_in, handle_list_entities, listed_entity, listed,
  value_at, basic_info, put_device,
}
use staykey_ha_plugin.Handlers.Discovery.Rows.{
  selected, device_for, describe, handle_discover_devices-describe, IsBasic, get-put_device,
  get-put_capabilities,
}

items-of_items : (vs : List Value) → items (of_items vs) ≡ vs
items-of_items [] = refl
items-of_items (v ∷ vs) = ap (λ ws. v ∷ ws) (items-of_items vs)

-- The entity ID and the type of a row of the list.
abbrev pub entity_and_type : Value → Option Value × Option Value
entity_and_type (obj d) = (get "entity_id" d, get "type" d)
entity_and_type _ = (none, none)

value_at-eq :
    (default : Value) (k : String) (d : Fields) (v : Value)
    → get k d ≡ some v
    → value_at default k d ≡ v
value_at-eq default k d v found = rw (found, value_at)

listed-values :
    (d : Fields)
    → entity_and_type (listed (obj d))
      ≡ (some (value_at (str "") "external_id" d), some (value_at (str "") "type" d))
unfolding listed_entity get
listed-values d = refl

entity_and_type-listed :
    (d : Fields) (a b : Value)
    → get "external_id" d ≡ some a
    → get "type" d ≡ some b
    → entity_and_type (listed (obj d)) ≡ (some a, some b)
entity_and_type-listed d a b ha hb =
    listed-values d
    ∙ ap₂ (λ (x y : Value). (some x, some y)) (value_at-eq (str "") "external_id" d a ha)
        (value_at-eq (str "") "type" d b hb)

module _ (device_reg : String → Option DeviceEntry) (states : String → Option Fields) where
  get-describe :
      (k : String)
      → IsBasic k
      → (e : RegistryEntry) → get k (describe device_reg states e) ≡ get k (basic_info e)
  get-describe k basic e =
      let device = device_for device_reg (device_of e) in
      get-put_capabilities k basic e (states e.entity_id) (put_device e device (basic_info e))
      ∙ get-put_device k basic e device (basic_info e)

  basic_key :
      (k : String)
      → IsBasic k
      → (v : Value) (e : RegistryEntry) → get k (basic_info e) ≡ some v
      → get k (describe device_reg states e) ≡ some v
  basic_key k basic v e is = get-describe k basic e ∙ is

  abbrev external : IsBasic "external_id"
  external = record {
    not_name = refl;
    not_manufacturer = refl;
    not_model = refl;
    not_area = refl;
    not_protocol = refl;
    not_capabilities = refl;
  }

  abbrev typed : IsBasic "type"
  typed = record {
    not_name = refl;
    not_manufacturer = refl;
    not_model = refl;
    not_area = refl;
    not_protocol = refl;
    not_capabilities = refl;
  }

  entity_and_type-describe :
      (e : RegistryEntry)
      → entity_and_type (listed (obj (describe device_reg states e)))
        ≡ (some (str e.entity_id), some (str e.domain))
  unfolding get
  entity_and_type-describe e =
      entity_and_type-listed (describe device_reg states e) (str e.entity_id) (str e.domain)
        (basic_key "external_id" external (str e.entity_id) e refl)
        (basic_key "type" typed (str e.domain) e refl)

  rows_of :
      (es : List RegistryEntry)
      → map entity_and_type (map listed (map obj (map (describe device_reg states) es)))
        ≡ map (λ e. (some (str e.entity_id), some (str e.domain))) es
  rows_of [] = refl
  rows_of (e ∷ es) = ap₂ ◌∷◌ (entity_and_type-describe e) (rows_of es)

  -- The list has a row for each entity that is enabled and of a wanted domain, in their order, with
  -- the ID and the domain of the entity.
  handle_list_entities-selected :
      (es : List RegistryEntry) (params : Fields) (domains : List Value)
      → domains_in params ≡ ok domains
      → (rows : List Value) × (handle_list_entities device_reg states es params
          ≡ ok (arr (of_items rows)))
        × (map entity_and_type rows
            ≡ map (λ e. (some (str e.entity_id), some (str e.domain))) (selected domains es))
  unfolding handle_list_entities get
  handle_list_entities-selected es params domains asked =
      let devices = map obj (map (describe device_reg states) (selected domains es)) in
      let found = handle_discover_devices-describe device_reg states es params domains asked in
      (
        map listed devices,
        rw (found, handle_list_entities, items-of_items devices),
        rows_of (selected domains es),
      )
