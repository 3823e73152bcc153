-- ===== src/EventTap.antt =====
-- handlers/event_tap.py: the recording of events for a while. An event stands as the object that
-- `_serialize_event` makes of it (EventTap/Serialized).
pub mod Parameters
pub mod Captured
pub mod Serialized
use staykey_ha_plugin.Prelude.{
  ℕ, suc, zero, ◌+◌, ◌-◌, ◌*◌, ◌^◌, min, String, Bool, true, false, Option, none, some, List, [],
  ◌∷◌, ◌++◌, map, length, leb, ltb, ◌==◌, if◌then◌else◌,
}
use staykey_ha_plugin.Python.Exec.{Result, ok, err, value_error, other_error}
use staykey_ha_plugin.Python.Int.{ℤ, pos, negsuc, is_positive, le_ℕ}
use staykey_ha_plugin.Python.Value.{
  Value, null, bool, int, float, str, arr, obj, Items, nil, cons, Fields, end, field, get, is_str,
  of_items,
}

abbrev max_duration : ℕ
max_duration = 25

abbrev default_duration : ℕ
default_duration = 10

abbrev pub max_events : ℕ
max_events = 500

abbrev default_max_events : ℕ
default_max_events = 200

abbrev not_a_number : Result Value
not_a_number = err (value_error "tap_events: 'duration_seconds' must be a number")

abbrev not_positive_duration : Result Value
not_positive_duration = err (value_error "tap_events: 'duration_seconds' must be > 0")

-- What `float` makes of a text: m / 2^e, or an infinite number. A text that is no number, or "nan", is
-- no Number.
pub data Number : Type 0 where
  finite : ℤ → ℕ → Number
  infinity minus_infinity : Number

-- `float(i)` raises for an integer that is at least halfway from the greatest float to 2^1024.
abbrev pub is_huge : ℤ → Bool
is_huge (pos n) = leb (2 ^ 1024 - 2 ^ 970) n
is_huge (negsuc n) = ltb (2 ^ 1024 - 2 ^ 970) (n + 2)

-- A duration m / 2^e, cut at the longest.
unfoldable pub bounded_duration : ℤ → ℕ → Result Value
bounded_duration m e =
    if is_positive m
    then ok (if le_ℕ m (max_duration * 2 ^ e) then float m e else float (pos max_duration) 0)
    else not_positive_duration

abbrev bounded_or_error : Option Number → Result Value
bounded_or_error none = not_a_number
bounded_or_error (some (finite m e)) = bounded_duration m e
bounded_or_error (some infinity) = ok (float (pos max_duration) 0)
bounded_or_error (some minus_infinity) = not_positive_duration

-- `_coerce_duration`; `parse_float` is `float` of a text. An `OverflowError` is not caught.
unfoldable pub coerce_duration : (String → Option Number) → Option Value → Result Value
unfolding bounded_duration
coerce_duration parse_float none = ok (float (pos default_duration) 0)
coerce_duration parse_float (some null) = ok (float (pos default_duration) 0)
coerce_duration parse_float (some (int i)) =
    if is_huge i
    then err (other_error "int too large to convert to float")
    else bounded_duration i 0
coerce_duration parse_float (some (bool b)) = bounded_duration (if b then pos 1 else pos 0) 0
coerce_duration parse_float (some (float m e)) = bounded_duration m e
coerce_duration parse_float (some (str s)) = bounded_or_error (parse_float s)
coerce_duration parse_float (some _) = not_a_number

abbrev not_positive : Result ℕ
not_positive = err (value_error "tap_events: 'max_events' must be > 0")

-- `_coerce_max_events`
unfoldable pub coerce_max_events : Option Value → Result ℕ
coerce_max_events none = ok default_max_events
coerce_max_events (some null) = ok default_max_events
coerce_max_events (some (int (pos zero))) = not_positive
coerce_max_events (some (int (pos (suc n)))) = ok (min (suc n) max_events)
coerce_max_events (some (int (negsuc n))) = not_positive
coerce_max_events (some _) = err (value_error "tap_events: 'max_events' must be an integer")

abbrev entry_error : Result (List String)
entry_error = err (value_error "tap_events: 'event_types' entries must be non-empty strings")

abbrev pub prepend : String → Result (List String) → Result (List String)
prepend s (ok names) = ok (s ∷ names)
prepend s (err e) = err e

-- the loop over the entries
unfoldable pub texts_of : Items → Result (List String)
texts_of nil = ok []
texts_of (cons (str s) vs) =
    let rest = texts_of vs in if s == "" then entry_error else prepend s rest
texts_of (cons _ vs) = entry_error

abbrev pub none_if_empty : Result (List String) → Result (Option (List String))
none_if_empty (err e) = err e
none_if_empty (ok []) = ok none
none_if_empty (ok names) = ok (some names)

-- `_coerce_event_types`: none for all events
unfoldable pub coerce_event_types : Option Value → Result (Option (List String))
unfolding texts_of
coerce_event_types none = ok none
coerce_event_types (some null) = ok none
coerce_event_types (some (arr vs)) = none_if_empty (texts_of vs)
coerce_event_types (some _) =
    err (value_error "tap_events: 'event_types' must be a list of strings")

-- the filter, which is none or a text
unfoldable pub entity_filter : Option Value → Result (Option String)
entity_filter none = ok none
entity_filter (some null) = ok none
entity_filter (some (str s)) = ok (some s)
entity_filter (some _) = err (value_error "tap_events: 'entity_id' must be a string when provided")

-- `_record`, on the events captured and whether some were not
unfoldable pub record_event : ℕ → List Fields × Bool → Fields → List Fields × Bool
record_event n (captured, truncated) event =
    if leb n (length captured) then (captured, true) else (captured ++ event ∷ [], truncated)

-- the events of the window, in the order in which they fire
unfoldable pub record_events : ℕ → List Fields × Bool → List Fields → List Fields × Bool
record_events n state [] = state
record_events n state (event ∷ events) = record_events n (record_event n state event) events

abbrev pub is_about : String → Fields → Bool
is_about entity_id event = elim (get "data" event) [
  | some (obj d) ↦ is_str (get "entity_id" d) entity_id
  | _ ↦ false
]

unfoldable pub about : String → List Fields → List Fields
about entity_id [] = []
about entity_id (event ∷ events) =
    let rest = about entity_id events in if is_about entity_id event then event ∷ rest else rest

abbrev pub filtered : Option String → List Fields → List Fields
filtered none events = events
filtered (some entity_id) events = about entity_id events

abbrev pub label : Option (List String) → Value
label none = str "*"
label (some names) = arr (of_items (map str names))

abbrev pub tap_result : Value → Option (List String) → List Fields → Bool → Fields
tap_result duration types events truncated = field "duration_seconds" duration (
    field "subscribed_event_types" (label types) (
      field "captured" (int (pos (length events))) (
        field "truncated" (bool truncated) (field "events" (arr (of_items (map obj events))) end))))

-- What the parameters ask for.
pub record Tap : Type 0 where
  pub duration : Value
  pub limit : ℕ
  pub types : Option (List String)
  pub entity : Option String

abbrev tap_of :
    Result Value → Result ℕ → Result (Option (List String)) → Result (Option String) → Result Tap
tap_of (err e) _ _ _ = err e
tap_of (ok duration) (err e) _ _ = err e
tap_of (ok duration) (ok limit) (err e) _ = err e
tap_of (ok duration) (ok limit) (ok types) (err e) = err e
tap_of (ok duration) (ok limit) (ok types) (ok entity) =
    ok (record { duration = duration; limit = limit; types = types; entity = entity })

module _ (parse_float : String → Option Number) where
  unfoldable pub tap_in : Fields → Result Tap
  unfolding coerce_duration coerce_max_events coerce_event_types entity_filter
  tap_in params =
      tap_of (coerce_duration parse_float (get "duration_seconds" params))
        (coerce_max_events (get "max_events" params))
        (coerce_event_types (get "event_types" params)) (entity_filter (get "entity_id" params))

  -- `fired` is what the listeners hear in the window: all events, or those of the given types.
  abbrev run_tap : (Option (List String) → List Fields) → Tap → Fields
  run_tap fired tap =
      let (captured, truncated) = record_events tap.limit ([], false) (fired tap.types) in
      tap_result tap.duration tap.types (filtered tap.entity captured) truncated

  unfoldable pub handle_tap_events : (Option (List String) → List Fields) → Fields → Result Fields
  handle_tap_events fired params = elim (tap_in params) [
    | err e ↦ err e
    | ok tap ↦ ok (run_tap fired tap)
  ]
