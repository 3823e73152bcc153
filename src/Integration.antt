-- ===== src/Integration.antt =====
-- __init__.py and events.py: the listeners that a config entry puts on Home Assistant's event bus.
pub mod Streams
pub mod Renames
pub mod Setup
pub mod Lifecycle
use staykey_ha_plugin.Prelude.{
  ℕ, ◌*◌, ◌^◌, String, Bool, true, false, not, ◌&&◌, Option, none, some, List, [], ◌∷◌, ◌==◌,
  if◌then◌else◌,
}
use staykey_ha_plugin.Python.Exec.{Exec, ok, err, pure, modify, ◌>>=◌, ◌>>◌}
use staykey_ha_plugin.Python.Int.{le_ℕ}
use staykey_ha_plugin.Python.Value.{
  Value, null, bool, int, float, str, arr, obj, Fields, end, field, get, put, or_else,
}
use staykey_ha_plugin.DeviceMap.{is_tracked, get_device_id, update_entity_id}
use staykey_ha_plugin.StateFilter.{should_forward_state}
use staykey_ha_plugin.Gateway.Protocol.{Text}
use staykey_ha_plugin.Gateway.Client.{
  Client, Delivery, connected, send_state_update, send_health_alert, send_entity_id_changed,
  send_event,
}

-- A `State` of Home Assistant: what the listeners read. `last_changed` is the text that `_iso_utc`
-- makes of it.
pub record State : Type 0 where
  pub state : String
  pub attributes : Fields
  pub last_changed : Value
  pub context_id : Value

-- The data of a `state_changed` event. An entity ID that is missing counts as "".
pub record StateEvent : Type 0 where
  pub entity_id : String
  pub new_state : Option State
  pub old_state : Option State

-- A number that is at most 15.
unfoldable pub is_low : Value → Bool
is_low (bool b) = true
is_low (int i) = le_ℕ i 15
is_low (float m e) = le_ℕ m (15 * 2 ^ e)
is_low _ = false

-- `state_update_payload`, with the identifier that `uuid4` gives
unfoldable pub state_update_payload : String → State → Value
state_update_payload uuid new_state =
    let payload = field "state" (str new_state.state) (
      field "last_changed" new_state.last_changed
        (field "event_id" (str uuid) (field "context_id" new_state.context_id end))) in
    elim (get "battery_level" new_state.attributes) [
      | none ↦ obj payload
      | some b ↦ obj (put "battery_level" b payload)
    ]

abbrev pub battery_alert : String → Value → Value
battery_alert device_id battery =
    obj (field "device_id" (str device_id) (field "battery_level" battery end))

-- A Z-Wave event: its type, its data and the text of its time.
pub record ZwaveEvent : Type 0 where
  pub event_type : String
  pub payload : Fields
  pub time_fired : Value

abbrev value_at : String → Fields → Value
value_at key d = elim (get key d) [ none ↦ null | some v ↦ v ]

unfoldable pub device_event_payload : String → ZwaveEvent → String → Value
device_event_payload uuid event device_id = obj (
    field "event_id" (str uuid) (
      field "device_id" (str device_id) (
        field "protocol" (str "zwave") (
          field "source_event" (str event.event_type) (
            field "notification_type" (value_at "type" event.payload) (
              field "code" (value_at "event" event.payload) (
                field "label" (value_at "event_label" event.payload) (
                  field "params" (or_else (get "parameters" event.payload) (obj end)) (
                    field "data" (obj event.payload)
                      (field "timestamp" event.time_fired end))))))))))

-- An entity of a device, as the entity registry lists it.
pub record DeviceEntity : Type 0 where
  pub domain : String
  pub entity_id : String

-- the first lock of the list
unfoldable pub first_lock : List DeviceEntity → Option DeviceEntity
first_lock [] = none
first_lock (e ∷ es) = if e.domain == "lock" then some e else first_lock es

-- `lock_entities[0] if lock_entities else (ents[0] if ents else None)`
unfoldable pub chosen_entity : List DeviceEntity → Option DeviceEntity
unfolding first_lock
chosen_entity [] = none
chosen_entity (e ∷ es) = elim (first_lock (e ∷ es)) [ some lock ↦ some lock | none ↦ some e ]

-- `now` is the time at which a message is stamped if it is queued.
module _ {W : Type 0} (closed : W → Bool) (transmit : Text → W → Delivery × W) (now : ℕ) where
  unfoldable pub alert_if_low : String → Option Value → Exec (Client W) (Unit {0})
  unfolding is_low
  alert_if_low device_id none = pure tt
  alert_if_low device_id (some battery) =
      if is_low battery
      then send_health_alert closed transmit now "low_battery" (battery_alert device_id battery)
      else pure tt

  unfoldable pub forward :
      String → String → String → State → Option State → Exec (Client W) (Unit {0})
  forward uuid device_id entity_id new_state none = pure tt
  forward uuid device_id entity_id new_state (some old_state) =
      if should_forward_state entity_id new_state.state (some old_state.state)
      then send_state_update closed transmit now device_id (state_update_payload uuid new_state)
      else pure tt

  -- an event for an entity that is listed for a device
  unfoldable pub handle_tracked : String → String → StateEvent → Exec (Client W) (Unit {0})
  handle_tracked uuid device_id event c = elim event.new_state [
    | none ↦ (ok tt, c)
    | some new_state ↦
        (do
          alert_if_low device_id (get "battery_level" new_state.attributes)
          forward uuid device_id event.entity_id new_state event.old_state)
          c
  ]

  unfoldable pub handle_state_changed : String → StateEvent → Exec (Client W) (Unit {0})
  handle_state_changed uuid event c =
      if is_tracked event.entity_id c.device_map
      then elim (get_device_id event.entity_id c.device_map) [
        | none ↦ (ok tt, c)
        | some device_id ↦
            if device_id == "" then (ok tt, c) else handle_tracked uuid device_id event c
      ]
      else (ok tt, c)

  -- the `update` branch, where both entity IDs are given; one that is missing counts as ""
  unfoldable pub handle_entity_renamed : String → String → Exec (Client W) (Unit {0})
  handle_entity_renamed old_entity_id new_entity_id c =
      if not (old_entity_id == "")
        && not (new_entity_id == "")
        && is_tracked old_entity_id c.device_map
      then elim (get_device_id old_entity_id c.device_map) [
        | none ↦ (ok tt, c)
        | some device_id ↦
            if device_id == ""
            then (ok tt, c)
            else send_entity_id_changed closed transmit device_id old_entity_id new_entity_id
                (record c {
                  device_map = update_entity_id device_id old_entity_id new_entity_id c.device_map;
                })
      ]
      else (ok tt, c)

  abbrev removed_alert : String → String → Value
  removed_alert device_id entity_id =
      obj (field "device_id" (str device_id) (field "external_id" (str entity_id) end))

  -- the `remove` branch
  unfoldable pub handle_entity_removed : String → Exec (Client W) (Unit {0})
  handle_entity_removed entity_id c =
      if is_tracked entity_id c.device_map
      then elim (get_device_id entity_id c.device_map) [
        | none ↦ (ok tt, c)
        | some device_id ↦
            if device_id == ""
            then (ok tt, c)
            else send_health_alert closed transmit now "entity_removed"
                (removed_alert device_id entity_id) c
      ]
      else (ok tt, c)

  unfoldable pub handle_entity_registry_updated :
      String → String → String → Exec (Client W) (Unit {0})
  handle_entity_registry_updated action old_entity_id entity_id =
      if action == "update"
      then handle_entity_renamed old_entity_id entity_id
      else if action == "remove"
      then handle_entity_removed entity_id
      else pure tt

  unfoldable pub handle_homeassistant_started : Exec (Client W) (Unit {0})
  handle_homeassistant_started c =
      if connected closed c
      then send_health_alert closed transmit now "ha_restarted"
          (obj (field "event" (str "homeassistant_started") end)) c
      else (ok tt, c)

  -- `entities` are those of the event's device, or none where it names no device.
  unfoldable pub handle_zwave_event :
      String → List DeviceEntity → ZwaveEvent → Exec (Client W) (Unit {0})
  handle_zwave_event uuid entities event c = elim (chosen_entity entities) [
    | none ↦ (ok tt, c)
    | some chosen ↦ elim (get_device_id chosen.entity_id c.device_map) [
      | none ↦ (ok tt, c)
      | some device_id ↦
          if device_id == ""
          then (ok tt, c)
          else send_event closed transmit now "device_event"
              (device_event_payload uuid event device_id) c
    ]
  ]
