-- ===== src/Providers/Slots.antt =====
-- services/providers/zwave.py: the slots of a lock as Z-Wave JS lists them, parsed, compared and
-- sorted.
use staykey_ha_plugin.Prelude.{
  zero, String, Bool, true, false, not, ◌&&◌, Option, none, some, List, [], ◌∷◌, ◌==◌, eqb, ltb,
  if◌then◌else◌,
}
use staykey_ha_plugin.Python.Decimal.{str_of, int_of}
use staykey_ha_plugin.Python.Exec.{Result, ok}
use staykey_ha_plugin.Python.Int.{ℤ, pos, negsuc, le_ℕ}
use staykey_ha_plugin.Python.Value.{Value, bool, int, str, obj, Fields, end, field, get}
use staykey_ha_plugin.Providers.{SlotInfo}

pub record SlotState : Type 0 where
  pub occupied : Bool
  pub code : Option String

abbrev is_true : Option Value → Bool
is_true (some (bool b)) = b
is_true _ = false

-- `str(code) if code else None`; a code that is no text and no whole number counts as missing.
abbrev code_of : Option Value → Option String
code_of (some (str s)) = if s == "" then none else some s
code_of (some (int (pos zero))) = none
code_of (some (int i)) = some (str_of i)
code_of _ = none

unfoldable pub parse_slot : Value → Option SlotState
parse_slot (obj raw) =
    some (record { occupied = is_true (get "in_use" raw); code = code_of (get "usercode" raw) })
parse_slot _ = none

abbrev same_int : ℤ → ℤ → Bool
same_int (pos m) (pos n) = eqb m n
same_int (negsuc m) (negsuc n) = eqb m n
same_int _ _ = false

abbrev pub Slots : Type 0
Slots = List (ℤ × SlotState)

-- `results[slot_num] = state`
unfoldable pub put_slot : ℤ → SlotState → Slots → Slots
put_slot n state [] = (n, state) ∷ []
put_slot n state ((m, old) ∷ slots) =
    let rest = put_slot n state slots in
    if same_int m n then (m, state) ∷ slots else (m, old) ∷ rest

-- `slots.get(slot)`
unfoldable pub find_slot : ℤ → Slots → Option SlotState
find_slot n [] = none
find_slot n ((m, state) ∷ slots) = if same_int m n then some state else find_slot n slots

-- one pass of the loop over `slots.items()`
abbrev put_parsed : Option ℤ → Option SlotState → Slots → Slots
put_parsed (some n) (some state) results = put_slot n state results
put_parsed _ _ results = results

unfoldable pub parse_slots : Fields → Slots → Slots
unfolding put_slot
parse_slots end results = results
parse_slots (field key raw slots) results =
    parse_slots slots (put_parsed (int_of key) (parse_slot raw) results)

-- `response.get(entity_id, response)`, where it is an object
unfoldable pub slots_in : String → Result Value → Option Fields
slots_in entity_id (ok (obj response)) = elim (get entity_id response) [
  | none ↦ some response
  | some (obj slots) ↦ some slots
  | some _ ↦ none
]
slots_in entity_id _ = none

abbrev pub same_code : Option String → Option String → Bool
same_code none none = true
same_code (some s) (some t) = s == t
same_code _ _ = false

abbrev same_bool : Bool → Bool → Bool
same_bool true b = b
same_bool false b = not b

abbrev pub same_state : SlotState → Option SlotState → Bool
same_state a none = false
same_state a (some b) = same_bool a.occupied b.occupied && same_code a.code b.code

abbrev pub le_int : ℤ → ℤ → Bool
le_int i (pos n) = le_ℕ i n
le_int (pos m) (negsuc n) = false
le_int (negsuc m) (negsuc n) = not (ltb m n)

-- `sorted(slots.items())`, by the slots' numbers, which differ
unfoldable pub place : ℤ × SlotState → Slots → Slots
place x [] = x ∷ []
place x (y ∷ ys) = let rest = place x ys in if le_int x.0 y.0 then x ∷ y ∷ ys else y ∷ rest

unfoldable pub sorted : Slots → Slots
unfolding place
sorted [] = []
sorted (x ∷ xs) = place x (sorted xs)

abbrev info_of : ℤ × SlotState → SlotInfo
info_of (n, state) = record {
  slot = n;
  occupied = state.occupied;
  code = if state.occupied then state.code else none;
}

unfoldable pub listed : ℤ → Slots → List SlotInfo
listed max_slots [] = []
listed max_slots (x ∷ xs) =
    let rest = listed max_slots xs in if le_int x.0 max_slots then info_of x ∷ rest else rest
