-- ===== src/Handlers/Discovery/Reported.antt =====
-- What handlers/device_discovery.py reports, spelled out.
use staykey_ha_plugin.Prelude.{
  String, Bool, true, false, ◌≡◌, refl, ap, ap₂, ◌∙◌, not, ◌&&◌, ◌||◌, Option, none, some, List, [],
  ◌∷◌, map, ◌==◌, if◌then◌else◌,
}
use staykey_ha_plugin.Python.Exec.{ok}
use staykey_ha_plugin.Python.Value.{
  Value, null, str, arr, obj, Fields, field, end, get, put, of_items,
}
use staykey_ha_plugin.Handlers.Discovery.Capabilities.{infer_protocol, extract_capabilities}
use staykey_ha_plugin.Handlers.Discovery.{
  RegistryEntry, DeviceEntry, is_among, is_wanted, domains_in, handle_discover_devices, finish,
  device_of,
}
use staykey_ha_plugin.Handlers.Discovery.Rows.{
  selected, describe, device_for, handle_discover_devices-describe,
}

-- Whether a text is one of some values.
abbrev pub among : String → List Value → Bool
among s [] = false
among s (str t ∷ vs) = let rest = among s vs in if t == s then true else rest
among s (_ ∷ vs) = among s vs

-- The domains that are reported: those that are asked for, or six where none is.
abbrev pub domains_for : List Value → List Value
domains_for [] =
    str "lock" ∷ str "climate" ∷ str "light" ∷ str "cover" ∷ str "sensor" ∷ str "switch" ∷ []
domains_for (v ∷ vs) = v ∷ vs

-- The entries of those domains that are enabled.
abbrev pub chosen : List Value → List RegistryEntry → List RegistryEntry
chosen domains [] = []
chosen domains (e ∷ es) =
    let rest = chosen domains es in
    if among e.domain (domains_for domains) then (if e.disabled then rest else e ∷ rest) else rest

-- The first of two texts that is there and not empty.
abbrev pub first_of : Option String → String → String
first_of none t = t
first_of (some s) t = if s == "" then t else s

abbrev pub or_null : Option String → Value
or_null none = null
or_null (some s) = str s

-- The capabilities of a row, where the entity has a state with attributes.
abbrev pub capabilities_last : RegistryEntry → Option String → Option Fields → Fields
capabilities_last e protocol none = end
capabilities_last e protocol (some end) = end
capabilities_last e protocol (some attributes) =
    field "capabilities"
      (arr (of_items (map str (extract_capabilities e.domain attributes protocol)))) end

-- The protocol of a row, where one is known, and the capabilities.
abbrev pub protocol_last : RegistryEntry → Option String → Option Fields → Fields
protocol_last e none attributes = capabilities_last e none attributes
protocol_last e (some p) attributes =
    field "protocol" (str p) (capabilities_last e (some p) attributes)

-- The row of an entry, for its device and the attributes of its state.
abbrev pub report : RegistryEntry → Option DeviceEntry → Option Fields → Fields
report e none attributes = field "external_id" (str e.entity_id) (
    field "name" (str (first_of e.name (first_of e.original_name e.entity_id))) (
      field "type" (str e.domain)
        (field "unique_id" (str e.unique_id) (capabilities_last e none attributes))))
report e (some device) attributes = field "external_id" (str e.entity_id) (
    field "name"
      (str (
        first_of e.name (
          first_of e.original_name
            (first_of device.name_by_user (first_of device.name e.entity_id)))))
      (field "type" (str e.domain) (
        field "unique_id" (str e.unique_id) (
          field "manufacturer" (or_null device.manufacturer) (
            field "model" (or_null device.model) (
              field "area_id" (or_null device.area_id)
                (protocol_last e (infer_protocol device.identifiers) attributes)))))))

is_among-among : (s : String) (vs : List Value) → is_among s vs ≡ among s vs
unfolding is_among
is_among-among s [] = refl
is_among-among s (str t ∷ vs) = either (t == s) (is_among-among s vs)
  where
    either : (b : Bool) {x y : Bool} → x ≡ y → (b || x) ≡ (if b then true else y)
    either true e = refl
    either false e = e
is_among-among s (null ∷ vs) = is_among-among s vs
is_among-among s (_ ∷ vs) = is_among-among s vs

is_wanted-domains_for :
    (domains : List Value) (e : RegistryEntry)
    → is_wanted domains e ≡ among e.domain (domains_for domains)
unfolding is_wanted
is_wanted-domains_for [] e = is_among-among e.domain (domains_for [])
is_wanted-domains_for (v ∷ vs) e = is_among-among e.domain (v ∷ vs)

selected-chosen :
    (domains : List Value) (es : List RegistryEntry) → selected domains es ≡ chosen domains es
selected-chosen domains [] = refl
selected-chosen domains (e ∷ es) =
    rw (is_wanted-domains_for domains e)
      (either (among e.domain (domains_for domains)) e.disabled (selected-chosen domains es))
  where
    either :
        (wanted disabled : Bool) {xs ys : List RegistryEntry}
        → xs ≡ ys
        → (if wanted && not disabled then e ∷ xs else xs)
          ≡ (if wanted then (if disabled then ys else e ∷ ys) else ys)
    either true true h = h
    either true false h = ap (λ zs. e ∷ zs) h
    either false disabled h = h

module _ (device_reg : String → Option DeviceEntry) (states : String → Option Fields) where
  finish-report :
      (e : RegistryEntry) (device : Option DeviceEntry) (attributes : Option Fields)
      → states e.entity_id ≡ attributes
      → finish device_reg states e device ≡ report e device attributes
  unfolding put get
  finish-report e none none is = rw (is, finish) refl
  finish-report e none (some end) is = rw (is, finish) refl
  finish-report e none (some (field k v attributes)) is = rw (is, finish) refl
  finish-report e (some device) attributes is =
      by_rest (infer_protocol device.identifiers) attributes refl is
    where
      by_rest :
          (p : Option String) (a : Option Fields)
          → infer_protocol device.identifiers ≡ p
          → states e.entity_id ≡ a
          → finish device_reg states e (some device) ≡ report e (some device) a
      by_rest none none ip ia = rw (ip, ia, finish, report) refl
      by_rest none (some end) ip ia = rw (ip, ia, finish, report) refl
      by_rest none (some (field k v d)) ip ia = rw (ip, ia, finish, report) refl
      by_rest (some p) none ip ia = rw (ip, ia, finish, report) refl
      by_rest (some p) (some end) ip ia = rw (ip, ia, finish, report) refl
      by_rest (some p) (some (field k v d)) ip ia = rw (ip, ia, finish, report) refl

  -- The row of an entry, for the device and the state that the registries hold.
  abbrev pub reported : RegistryEntry → Fields
  reported e = report e (device_for device_reg (device_of e)) (states e.entity_id)

  reported-all : (es : List RegistryEntry) → map (describe device_reg states) es ≡ map reported es
  reported-all [] = refl
  reported-all (e ∷ es) =
      ap₂ ◌∷◌ (finish-report e (device_for device_reg (device_of e)) (states e.entity_id) refl)
        (reported-all es)

  -- The devices that are found are those of the entries that are enabled and whose domain is asked for,
  -- or is one of the six if none is, in their order. Each has its ID, name, domain and unique ID; the
  -- manufacturer, model and area of its device, if it has one, and the protocol that `infer_protocol`
  -- finds; and what `extract_capabilities` finds, if its state has attributes. That devices come from a cache makes no difference.
  pub handle_discover_devices-reported :
      (es : List RegistryEntry) (params : Fields) (domains : List Value)
      → domains_in params ≡ ok domains
      → handle_discover_devices device_reg states es params
        ≡ ok (field "devices" (arr (of_items (map obj (map reported (chosen domains es))))) end)
  handle_discover_devices-reported es params domains asked =
      handle_discover_devices-describe device_reg states es params domains asked
      ∙ ap (λ rows. ok (field "devices" (arr (of_items (map obj rows))) end))
          (ap (map (describe device_reg states)) (selected-chosen domains es)
            ∙ reported-all (chosen domains es))
