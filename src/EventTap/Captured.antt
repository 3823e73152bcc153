-- ===== src/EventTap/Captured.antt =====
-- Which events a tap returns (handlers/event_tap.py).
use staykey_ha_plugin.Prelude.{
  Bool, map, ◌==◌, if◌then◌else◌, ℕ, zero, suc, ◌≤◌, String, ◌≡◌, true, false, Option, none, some,
  List, [], ◌∷◌, length, ltb,
}
use staykey_ha_plugin.Python.Exec.{Result, ok, err}
use staykey_ha_plugin.Python.Int.{pos}
use staykey_ha_plugin.Python.Value.{
  Value, bool, int, str, arr, obj, Fields, end, field, get, of_items,
}
use staykey_ha_plugin.EventTap.{Number, Tap}
use staykey_ha_plugin.EventTap.Parameters.{IsFilter, AreTypes, IsLimit, IsValid}

abbrev pub take {ℓ} : {A : Type ℓ} → ℕ → List A → List A
take zero xs = []
take (suc n) [] = []
take (suc n) (x ∷ xs) = x ∷ take n xs

-- Whether an event is about the entity that is asked for, if one is, and the events that are.
abbrev pub passes : Option String → Fields → Bool
passes none event = true
passes (some entity_id) event = elim (get "data" event) [
  | some (obj d) ↦ elim (get "entity_id" d) [ some (str s) ↦ s == entity_id | _ ↦ false ]
  | _ ↦ false
]

abbrev pub passing : Option String → List Fields → List Fields
passing f [] = []
passing f (event ∷ events) =
    let rest = passing f events in if passes f event then event ∷ rest else rest

abbrev is_text : String → Option Value → Bool
is_text id v = elim v [ some (str s) ↦ s == id | _ ↦ false ]

-- The event types as the result names them.
abbrev pub types_shown : Option (List String) → Value
types_shown none = str "*"
types_shown (some names) = arr (of_items (map str names))

-- The result of a tap.
abbrev pub report : Value → Option (List String) → List Fields → Bool → Fields
report duration types events truncated = field "duration_seconds" duration (
    field "subscribed_event_types" (types_shown types) (
      field "captured" (int (pos (length events))) (
        field "truncated" (bool truncated) (field "events" (arr (of_items (map obj events))) end))))

module _ (parse_float : String → Option Number) (fired : Option (List String) → List Fields)
    (params : Fields) where
  -- What a tap returns, for what its parameters ask for.
  abbrev pub Captures : Result Tap → Result Fields → Type 0
  Captures (err e) r = (r ≡ err e) × ¬ (IsValid parse_float params)
  Captures (ok tap) r =
      (1 ≤ tap.limit)
      × (tap.limit ≤ 500)
      × IsLimit (get "max_events" params) tap.limit
      × IsFilter (get "entity_id" params) tap.entity
      × AreTypes (get "event_types" params) tap.types
      × (r
          ≡ ok (
              report tap.duration tap.types (passing tap.entity (take tap.limit (fired tap.types)))
                (ltb tap.limit (length (fired tap.types)))))
