-- ===== src/Handlers/Discovery/Rows.antt =====
-- Which entities handlers/device_discovery.py reports, and how.
use staykey_ha_plugin.Prelude.{
  String, ◌≡◌, refl, ap, ap₂, ◌∙◌, ◌⊎◌, inl, inr, false, not, ◌&&◌, Option, none, some, List, [],
  ◌∷◌, map, ◌==◌, eq_iff, arith, Bool-cases, Option-cases, if◌then◌else◌,
}
use staykey_ha_plugin.Python.Dict.{lookup, lookup-insert, lookup-empty}
use staykey_ha_plugin.Python.Exec.{ok}
use staykey_ha_plugin.Python.Value.{
  Value, str, arr, obj, Fields, field, end, get, put, of_items, get-put,
}
use staykey_ha_plugin.Handlers.Discovery.Capabilities.{infer_protocol}
use staykey_ha_plugin.Handlers.Discovery.{
  RegistryEntry, DeviceEntry, Cache, is_wanted, device_of, domains_in, finish, cached, row,
  discover, handle_discover_devices, put_protocol, put_device, put_capabilities,
}

-- The entries that are reported: those of a wanted domain that are enabled.
abbrev pub selected : List Value → List RegistryEntry → List RegistryEntry
selected domains [] = []
selected domains (e ∷ es) =
    let rest = selected domains es in
    if is_wanted domains e && not e.disabled then e ∷ rest else rest

module _ (device_reg : String → Option DeviceEntry) where
  -- A device in the cache is the registry's.
  abbrev IsFaithful : Cache → Type 0
  IsFaithful cache =
      (id : String) → (lookup id cache ≡ none) ⊎ (lookup id cache ≡ some (device_reg id))

  cached-device :
      (id : String) (cache : Cache)
      → IsFaithful cache
      → (cached device_reg id cache).0 ≡ device_reg id
  unfolding cached
  cached-device id cache faithful = ground (arith, faithful id)

  cached-IsFaithful :
      (id : String) (cache : Cache) → IsFaithful cache → IsFaithful (cached device_reg id cache).1
  unfolding cached
  cached-IsFaithful id cache faithful k =
      ground (arith, faithful k, faithful id, lookup-insert id k (device_reg id) cache, eq_iff id k)

  abbrev pub device_for : Option String → Option DeviceEntry
  device_for none = none
  device_for (some id) = device_reg id

module _ (device_reg : String → Option DeviceEntry) (states : String → Option Fields) where
  -- The row of an entry, with its device looked up in the registry.
  abbrev pub describe : RegistryEntry → Fields
  describe e = finish device_reg states e (device_for device_reg (device_of e))

  row-describe :
      (e : RegistryEntry) (cache : Cache)
      → IsFaithful device_reg cache
      → ((row device_reg states e cache).0 ≡ describe e)
        × IsFaithful device_reg (row device_reg states e cache).1
  unfolding row
  row-describe e cache faithful = elim (Option-cases (device_of e)) [
    | inl none_given ↦ rw (none_given, row) (refl, faithful)
    | inr (id, given) ↦
        rw (given, row)
          (
            ap (finish device_reg states e) (cached-device device_reg id cache faithful),
            cached-IsFaithful device_reg id cache faithful,
          )
  ]

  -- The cache of devices makes no difference.
  discover-map :
      (domains : List Value) (es : List RegistryEntry) (cache : Cache)
      → IsFaithful device_reg cache
      → discover device_reg states domains es cache ≡ map describe (selected domains es)
  unfolding discover
  discover-map domains [] cache faithful = refl
  discover-map domains (e ∷ es) cache faithful =
      let (same, kept) = row-describe e cache faithful in
      elim (Bool-cases (is_wanted domains e && not e.disabled)) [
        | inl wanted ↦
            rw wanted
              (ap₂ ◌∷◌ same (discover-map domains es (row device_reg states e cache).1 kept))
        | inr skipped ↦ rw skipped (discover-map domains es cache faithful)
      ]

  -- The cache makes no difference to the devices that are found.
  pub handle_discover_devices-describe :
      (es : List RegistryEntry) (params : Fields) (domains : List Value)
      → domains_in params ≡ ok domains
      → handle_discover_devices device_reg states es params
        ≡ ok (field "devices" (arr (of_items (map obj (map describe (selected domains es))))) end)
  unfolding handle_discover_devices
  handle_discover_devices-describe es params domains asked =
      rw (asked, handle_discover_devices, discover-map domains es [] (λ id. inl (lookup-empty id)))

-- A key that neither the device nor the state sets.
pub record IsBasic (k : String) : Type 0 where
  pub not_name : ("name" == k) ≡ false
  pub not_manufacturer : ("manufacturer" == k) ≡ false
  pub not_model : ("model" == k) ≡ false
  pub not_area : ("area_id" == k) ≡ false
  pub not_protocol : ("protocol" == k) ≡ false
  pub not_capabilities : ("capabilities" == k) ≡ false

module _ (k : String) (basic : IsBasic k) where
  -- Setting another key.
  get-put_other :
      (j : String) (v : Value) (d : Fields) → (j == k) ≡ false → get k (put j v d) ≡ get k d
  get-put_other j v d other = get-put j k v d ∙ rw other

  get-put_protocol : (p : Option String) (d : Fields) → get k (put_protocol p d) ≡ get k d
  get-put_protocol none d = refl
  get-put_protocol (some p) d = get-put_other "protocol" (str p) d basic.not_protocol

  pub get-put_device :
      (e : RegistryEntry) (device : Option DeviceEntry) (d : Fields)
      → get k (put_device e device d) ≡ get k d
  get-put_device e none d = refl
  get-put_device e (some device) d =
      get-put_protocol (infer_protocol device.identifiers) _
      ∙ get-put_other "area_id" _ _ basic.not_area
      ∙ get-put_other "model" _ _ basic.not_model
      ∙ get-put_other "manufacturer" _ _ basic.not_manufacturer
      ∙ get-put_other "name" _ d basic.not_name

  pub get-put_capabilities :
      (e : RegistryEntry) (attributes : Option Fields) (d : Fields)
      → get k (put_capabilities e attributes d) ≡ get k d
  get-put_capabilities e none d = refl
  get-put_capabilities e (some end) d = refl
  get-put_capabilities e (some (field j v attributes)) d =
      get-put_other "capabilities" _ d basic.not_capabilities
