-- ===== src/Commands/Table.antt =====
-- services/ha_bridge.py: the table of handlers, each with the handler itself. What the handlers meet
-- in Home Assistant is a record of functions on its state.
pub mod Secure
use staykey_ha_plugin.Python.Exec.{Exception, Exec, Result, ok, err, other_error}
use staykey_ha_plugin.Python.Int.{ℤ}
use staykey_ha_plugin.Python.Value.{Value, obj, Fields}
use staykey_ha_plugin.Prelude.{ℕ, String, Bool, true, Option, none, some, List}
use staykey_ha_plugin.DeviceMap.{DeviceMap}
use staykey_ha_plugin.Providers.{Services, LockProvider}
use staykey_ha_plugin.Handlers.Locks.{
  handle_set_access_code, handle_clear_access_code, handle_read_codes,
}
use staykey_ha_plugin.Handlers.Devices.{
  EntityState, handle_open_cover, handle_close_cover, handle_stop_cover, handle_turn_on,
  handle_turn_off, handle_set_temperature, handle_set_hvac_mode,
}
use staykey_ha_plugin.Handlers.Discovery.{
  RegistryEntry, DeviceEntry, handle_discover_devices, handle_list_entities,
}
use staykey_ha_plugin.Handlers.Passthrough.{Details, handle_ha_service_call}
use staykey_ha_plugin.Handlers.Reports.{
  HassState, handle_get_state, handle_get_capabilities, handle_get_diagnostics,
}
use staykey_ha_plugin.Handlers.Waiting.{Watch, handle_lock, handle_unlock}
use staykey_ha_plugin.EventTap.{Number}
use staykey_ha_plugin.EventTap.Serialized.{BusEvent, tap_bus}
use staykey_ha_plugin.Commands.{Handler, Call}

-- Home Assistant: its services, as the handlers of devices call them and as the passthrough does; what
-- an entity shows from now on, and at this moment; a node's description and a lock's provider; the
-- registries; and what the event bus fires in the window of a tap.
pub record Home (S : Type 0) : Type 0 where
  pub call : Services S
  pub call_any : Bool → Bool → Services S
  pub watch : String → S → Watch × S
  pub entity_state : String → S → Option EntityState
  pub hass_state : String → S → Option HassState
  pub node_info : String → S → Option Fields
  pub select : String → Result (LockProvider S)
  pub devices : S → String → Option DeviceEntry
  pub attributes : S → String → Option Fields
  pub entries : S → List RegistryEntry
  pub fired : S → Option (List String) → List BusEvent
  pub after_window : S → S
  pub details : Exception → Details
  pub parse_float : String → Option Number
  pub show_other : Value → String

-- A result that is an object.
abbrev pub as_object : {S : Type 0} → Result Fields × S → Result Value × S
as_object (ok d, s) = (ok (obj d), s)
as_object (err e, s) = (err e, s)

module _ {S : Type 0} (h : Home S) (device_map : DeviceMap) where
  abbrev tap_events : Fields → Exec S Fields
  tap_events params s = elim (tap_bus h.parse_float (h.fired s) params) [
    | err e ↦ (err e, s)
    | ok d ↦ (ok d, h.after_window s)
  ]

  abbrev pub run_handler : Handler → Bool → Fields → Exec S Value
  run_handler Handler.handle_lock progress params s =
      as_object (handle_lock h.call h.watch device_map progress params s)
  run_handler Handler.handle_unlock progress params s =
      as_object (handle_unlock h.call h.watch device_map progress params s)
  run_handler Handler.handle_set_access_code progress params s =
      as_object (handle_set_access_code h.select device_map h.show_other params s)
  run_handler Handler.handle_clear_access_code progress params s =
      as_object (handle_clear_access_code h.select device_map params s)
  run_handler Handler.handle_read_codes progress params s =
      as_object (handle_read_codes h.select device_map params s)
  run_handler Handler.handle_get_state progress params s =
      as_object (handle_get_state h.hass_state h.node_info h.select device_map params s)
  run_handler Handler.handle_get_capabilities progress params s =
      as_object (handle_get_capabilities h.hass_state h.node_info h.select device_map params s)
  run_handler Handler.handle_get_diagnostics progress params s =
      as_object (handle_get_diagnostics h.hass_state h.node_info h.select device_map params s)
  run_handler Handler.handle_open_cover progress params s =
      as_object (handle_open_cover h.call h.watch h.entity_state device_map progress params s)
  run_handler Handler.handle_close_cover progress params s =
      as_object (handle_close_cover h.call h.watch h.entity_state device_map progress params s)
  run_handler Handler.handle_stop_cover progress params s =
      as_object (handle_stop_cover h.call h.watch h.entity_state device_map params s)
  run_handler Handler.handle_turn_on progress params s =
      as_object (handle_turn_on h.call h.watch h.entity_state device_map params s)
  run_handler Handler.handle_turn_off progress params s =
      as_object (handle_turn_off h.call h.watch h.entity_state device_map params s)
  run_handler Handler.handle_set_temperature progress params s =
      as_object (handle_set_temperature h.call h.watch h.entity_state device_map params s)
  run_handler Handler.handle_set_hvac_mode progress params s =
      as_object (handle_set_hvac_mode h.call h.watch h.entity_state device_map params s)
  run_handler Handler.handle_ha_service_call progress params s =
      as_object (handle_ha_service_call h.call_any h.details params s)
  run_handler Handler.handle_tap_events progress params s = as_object (tap_events params s)
  run_handler Handler.handle_discover_devices progress params s =
      as_object (handle_discover_devices (h.devices s) (h.attributes s) (h.entries s) params, s)
  run_handler Handler.handle_list_entities progress params s =
      (handle_list_entities (h.devices s) (h.attributes s) (h.entries s) params, s)

  -- Parameters that are no object have no method `get`.
  unfoldable pub run : Call → Exec S Value
  run c s = elim c.params [
    | obj d ↦ run_handler c.handler c.progress d s
    | _ ↦ (err (other_error "no attribute 'get'"), s)
  ]
