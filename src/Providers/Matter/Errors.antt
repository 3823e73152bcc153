-- ===== src/Providers/Matter/Errors.antt =====
-- services/providers/matter.py: how a failed service call is classified and put into words.
use Prim.Native.Char.{code}
use staykey_ha_plugin.Prelude.{
  ℕ, ◌+◌, String, Bool, true, false, ◌&&◌, ◌||◌, Option, none, some, List, [], ◌∷◌, ◌==◌, eqb, leb,
  ltb, if◌then◌else◌,
}
use staykey_ha_plugin.Python.Decimal.{str_of}
use staykey_ha_plugin.Python.Exec.{Exception, home_assistant_error, exception_text, ◌<>◌}
use staykey_ha_plugin.Python.Int.{ℤ, pos, negsuc}
use staykey_ha_plugin.Python.Value.{Value, int, str, Fields, get, put, is_str}
use staykey_ha_plugin.Providers.{Services}
use staykey_ha_plugin.Providers.Matter.{lock_info, max_slots_in}

-- `s.lower()`, as far as the letters of the alphabet go
abbrev lower_code : ℕ → ℕ
lower_code c = if leb 65 c && leb c 90 then c + 32 else c

unfoldable pub lower_codes : String → List ℕ
lower_codes String.[] = []
lower_codes (String.◌∷◌ c s) = lower_code (code c) ∷ lower_codes s

unfoldable pub starts_with : List ℕ → List ℕ → Bool
starts_with [] s = true
starts_with (x ∷ xs) [] = false
starts_with (x ∷ xs) (y ∷ ys) = eqb x y && starts_with xs ys

-- `t in s`
unfoldable pub occurs_in : List ℕ → List ℕ → Bool
unfolding starts_with
occurs_in t [] = starts_with t []
occurs_in t (c ∷ s) = starts_with t (c ∷ s) || occurs_in t s

abbrev pub duplicate : String
duplicate = "duplicate"

abbrev pub is_home_assistant_error : Exception → Bool
is_home_assistant_error (home_assistant_error text status) = true
is_home_assistant_error _ = false

abbrev says_duplicate : Exception → Bool
says_duplicate e = occurs_in (lower_codes duplicate) (lower_codes (exception_text e))

unfoldable pub is_duplicate_credential_error : Exception → Bool
unfolding occurs_in lower_codes
is_duplicate_credential_error (home_assistant_error text (some status)) =
    status == duplicate || says_duplicate (home_assistant_error text (some status))
is_duplicate_credential_error e = says_duplicate e

unfoldable pub matter_status_of : Exception → Option String
matter_status_of (home_assistant_error text (some status)) =
    if status == "" then none else some status
matter_status_of _ = none

-- the text of a text or a whole number, in an f-string
abbrev text_in : Option Value → Option String
text_in (some (str s)) = some s
text_in (some (int i)) = some (str_of i)
text_in _ = none

abbrev slot_part : Option String → String
slot_part none = ""
slot_part (some s) = "slot=" <> s <> " "

abbrev or_unknown : Option String → String
or_unknown none = "unknown"
or_unknown (some s) = s

abbrev plain_error : String → Option String → Exception → String
plain_error service none e = service <> ": " <> exception_text e
plain_error service (some status) e =
    service <> ": matter_status=" <> status <> ": " <> exception_text e

abbrev range_error : Option String → Exception → String → Fields → String
range_error matter_status e max_slots extra =
    "set_lock_credential: slot_out_of_range ("
    <> slot_part (text_in (get "slot" extra))
    <> "max_slots="
    <> max_slots
    <> ", matter_status="
    <> or_unknown matter_status
    <> "): "
    <> exception_text e

-- `_format_set_error`; the extra fields `max_slots` and `slot` are whole numbers.
unfoldable pub set_error : Option String → Exception → Fields → String
set_error matter_status e extra =
    if is_str (get "reason" extra) "slot_out_of_range"
    then elim (text_in (get "max_slots" extra)) [
      | none ↦ plain_error "set_lock_credential" matter_status e
      | some max_slots ↦ range_error matter_status e max_slots extra
    ]
    else plain_error "set_lock_credential" matter_status e

-- `_format_clear_error`
unfoldable pub clear_error : Option String → Exception → String
clear_error matter_status e = plain_error "clear_lock_user" matter_status e

-- `slot > max_slots`
abbrev pub exceeds : ℤ → ℤ → Bool
exceeds (pos m) (pos n) = ltb n m
exceeds (pos m) (negsuc n) = true
exceeds (negsuc m) (pos n) = false
exceeds (negsuc m) (negsuc n) = ltb m n

-- `d.setdefault(key, v)`
abbrev put_default : String → Value → Fields → Fields
put_default key v d = elim (get key d) [ none ↦ put key v d | some _ ↦ d ]

-- what is added once the number of slots is known
unfoldable pub classified : ℤ → ℤ → Fields → Fields
classified slot max_slots extra =
    let known = put "slot" (int slot) (put "max_slots" (int max_slots) extra) in
    if exceeds slot max_slots
    then put "reason" (str "slot_out_of_range") known
    else put_default "reason" (str "lock_rejected") known

abbrev is_invalid_field : Option String → Bool
is_invalid_field none = false
is_invalid_field (some status) = status == "unknown(133)"

abbrev with_info : ℤ → Fields → Option Fields → Fields
with_info slot extra none = extra
with_info slot extra (some info) = elim (max_slots_in info) [
  | none ↦ extra
  | some max_slots ↦ classified slot max_slots extra
]

module _ {S : Type 0} (call : Services S) where
  -- `_enrich_with_capacity_context`
  unfoldable pub enrich : String → ℤ → Option String → Fields → S → Fields × S
  enrich entity_id slot matter_status extra s =
      if is_invalid_field matter_status
      then (let (info, s') = lock_info call entity_id s in (with_info slot extra info, s'))
      else (extra, s)
