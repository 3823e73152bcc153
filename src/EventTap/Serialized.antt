-- ===== src/EventTap/Serialized.antt =====
-- handlers/event_tap.py: how an event of Home Assistant is rendered, `_serialize_event` with
-- `_serialize_context`, `_origin_name` and `_isoformat`. An attribute that an event lacks is none.
use staykey_ha_plugin.Prelude.{String, Option, none, some, List, map, ◌==◌, if◌then◌else◌}
use staykey_ha_plugin.Python.Exec.{Result}
use staykey_ha_plugin.Python.Value.{Value, null, str, obj, Fields, end, field}
use staykey_ha_plugin.Python.Object.{Iso, returning, Object, tap_serializable}
use staykey_ha_plugin.EventTap.{Number, handle_tap_events}

pub record Context : Type 0 where
  pub id : Option String
  pub user_id : Option String
  pub parent_id : Option String

-- An object that is shown by its `value`, if it has one, or by its `str`.
pub record Origin : Type 0 where
  pub value : Option String
  pub shown : String

-- A time: its `isoformat` and its `str`.
pub record Time : Type 0 where
  pub isoformat : Iso
  pub shown : String

pub record BusEvent : Type 0 where
  pub event_type : Option String
  pub time_fired : Option Time
  pub origin : Option Origin
  pub context : Option Context
  pub payload : Object

abbrev text_or_null : Option String → Value
text_or_null none = null
text_or_null (some s) = str s

-- `_serialize_context`
unfoldable pub serialize_context : Option Context → Value
serialize_context none = null
serialize_context (some c) = obj (
    field "id" (text_or_null c.id)
      (field "user_id" (text_or_null c.user_id) (field "parent_id" (text_or_null c.parent_id) end)))

abbrev value_or_shown : Option String → String → String
value_or_shown none shown = shown
value_or_shown (some v) shown = if v == "" then shown else v

-- `_origin_name`
unfoldable pub origin_name : Option Origin → Value
origin_name none = null
origin_name (some o) = str (value_or_shown o.value o.shown)

abbrev iso_text : Iso → String → String
iso_text (returning s) shown = s
iso_text _ shown = shown

-- `_isoformat`
unfoldable pub isoformat : Option Time → Value
isoformat none = null
isoformat (some t) = str (iso_text t.isoformat t.shown)

-- `_serialize_event`
unfoldable pub serialize_event : BusEvent → Fields
unfolding serialize_context origin_name isoformat tap_serializable
serialize_event event = field "event_type" (text_or_null event.event_type) (
    field "time_fired" (isoformat event.time_fired) (
      field "origin" (origin_name event.origin) (
        field "context" (serialize_context event.context)
          (field "data" (tap_serializable event.payload) end))))

-- A tap of the events that the bus fires in the window.
unfoldable pub tap_bus :
    (String → Option Number) → (Option (List String) → List BusEvent) → Fields → Result Fields
unfolding serialize_event
tap_bus parse_float fired params =
    handle_tap_events parse_float (λ types. map serialize_event (fired types)) params
