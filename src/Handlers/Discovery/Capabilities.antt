-- ===== src/Handlers/Discovery/Capabilities.antt =====
-- lock_capability_heuristics.py, and `_extract_capabilities` and `_infer_protocol` of
-- handlers/device_discovery.py. A text is put into lower case as far as the letters of the alphabet
-- go, which are all that the words looked for consist of.
use staykey_ha_plugin.Prelude.{
  String, Bool, true, false, ◌&&◌, ◌||◌, Option, none, some, List, [], ◌∷◌, ◌==◌, if◌then◌else◌,
}
use staykey_ha_plugin.Python.Int.{is_positive, is_odd}
use staykey_ha_plugin.Python.Value.{Value, bool, int, str, arr, Fields, get, items}
use staykey_ha_plugin.Providers.Matter.Errors.{lower_codes, occurs_in, starts_with}

-- `t.lower() == word`, for a word in lower case
unfoldable pub is_word : String → String → Bool
unfolding lower_codes starts_with
is_word t word =
    starts_with (lower_codes t) (lower_codes word) && starts_with (lower_codes word) (lower_codes t)

-- `any(isinstance(t, str) and t.lower() == "pin" for t in …)`
unfoldable pub names_pin : List Value → Bool
unfolding is_word
names_pin [] = false
names_pin (str t ∷ vs) = is_word t "pin" || names_pin vs
names_pin (_ ∷ vs) = names_pin vs

abbrev pub pin_listed : Option Value → Bool
pin_listed (some (arr vs)) = names_pin (items vs)
pin_listed _ = false

-- `isinstance(value, int) and value > 0`: a Boolean is a whole number too
abbrev pub is_count : Option Value → Bool
is_count (some (int i)) = is_positive i
is_count (some (bool b)) = b
is_count _ = false

abbrev pub is_true : Option Value → Bool
is_true (some (bool b)) = b
is_true _ = false

-- `isinstance(features, int) and features & 1`
abbrev pub has_bit : Option Value → Bool
has_bit (some (int i)) = is_odd i
has_bit (some (bool b)) = b
has_bit _ = false

abbrev pub is_protocol : Option String → String → Bool
is_protocol none name = false
is_protocol (some p) name = p == name

unfoldable pub lock_supports_access_codes : Fields → Option String → Bool
unfolding names_pin
lock_supports_access_codes attributes protocol =
    if is_protocol protocol "matter"
    then if pin_listed (get "supported_credential_types" attributes)
      then true
      else if is_count (get "max_pin_users" attributes)
      then true
      else if is_count (get "max_users" attributes)
      then true
      else is_true (get "supports_user_management" attributes)
    else has_bit (get "supported_features" attributes)

-- `_extract_capabilities`
unfoldable pub extract_capabilities : String → Fields → Option String → List String
unfolding lock_supports_access_codes
extract_capabilities domain attributes protocol =
    if domain == "lock"
    then "lock"
      ∷ "unlock"
      ∷ (if lock_supports_access_codes attributes protocol then "access_codes" ∷ [] else [])
    else if domain == "climate"
    then "set_temperature" ∷ "set_hvac_mode" ∷ []
    else if domain == "light"
    then "toggle" ∷ []
    else if domain == "cover"
    then "open" ∷ "close" ∷ []
    else if domain == "switch"
    then "toggle" ∷ []
    else []

-- `word in domain.lower()`
unfoldable pub mentions : String → String → Bool
unfolding lower_codes occurs_in
mentions domain word = occurs_in (lower_codes word) (lower_codes domain)

-- The protocol that the first part of an identifier speaks of.
unfoldable pub protocol_in : String → Option String
unfolding mentions
protocol_in domain =
    if mentions domain "zwave"
    then some "zwave"
    else if mentions domain "zigbee" || mentions domain "zha"
    then some "zigbee"
    else if mentions domain "bluetooth" || mentions domain "ble"
    then some "bluetooth"
    else if mentions domain "matter"
    then some "matter"
    else none

-- `_infer_protocol`, over the identifiers of a device in the order in which they come
unfoldable pub infer_protocol : List (List String) → Option String
unfolding protocol_in
infer_protocol [] = none
infer_protocol ([] ∷ idents) = infer_protocol idents
infer_protocol ((domain ∷ _) ∷ idents) =
    let rest = infer_protocol idents in elim (protocol_in domain) [ some p ↦ some p | none ↦ rest ]
