-- ===== src/Handlers/Reach.antt =====
-- Which devices a command can reach (handlers/lock.py, handlers/cover.py, handlers/switch.py,
-- handlers/climate.py, handlers/state.py, handlers/capability.py, handlers/diagnostics.py).
use staykey_ha_plugin.Prelude.{String, ◌≡◌, refl, Bool, none, Option, List, [], ◌∷◌, All}
use staykey_ha_plugin.Python.Dict.{lookup}
use staykey_ha_plugin.Python.Exec.{Exec, Result, ok, err, value_error, ◌<>◌}
use staykey_ha_plugin.Python.Value.{Value, Fields}
use staykey_ha_plugin.DeviceMap.{DeviceMap, get_entity_id}
use staykey_ha_plugin.Providers.{Services, LockProvider}
use staykey_ha_plugin.Handlers.Params.{device_id_in, unknown_device, resolve_entity_id}
use staykey_ha_plugin.Handlers.Locks.{
  handle_set_access_code, handle_clear_access_code, handle_read_codes,
}
use staykey_ha_plugin.Handlers.Devices.{
  EntityState, handle_open_cover, handle_close_cover, handle_stop_cover, handle_turn_on,
  handle_turn_off, handle_set_temperature, handle_set_hvac_mode,
}
use staykey_ha_plugin.Handlers.Reports.{
  HassState, handle_get_state, handle_get_capabilities, handle_get_diagnostics,
}
use staykey_ha_plugin.Handlers.Waiting.{Watch, handle_lock, handle_unlock}

unknown-get_entity_id :
    (i : String) (m : DeviceMap) → lookup i m.forward ≡ none → get_entity_id i m ≡ ok none
unfolding get_entity_id
unknown-get_entity_id i m h = rw (h, get_entity_id) refl

unknown-resolve_entity_id :
    (m : DeviceMap) (params : Fields)
    → lookup (device_id_in params) m.forward ≡ none
    → resolve_entity_id m params ≡ unknown_device (device_id_in params)
unfolding resolve_entity_id
unknown-resolve_entity_id m params h =
    rw (unknown-get_entity_id (device_id_in params) m h, resolve_entity_id) refl

-- The answer to a command for an unknown device.
abbrev pub unknown_answer : {S : Type 0} → Fields → S → Result Fields × S
unknown_answer params s = (err (value_error ("Unknown device_id: " <> device_id_in params)), s)

module _ {S : Type 0} (call : Services S) (watch : String → S → Watch × S)
    (read : String → S → Option EntityState) (select : String → Result (LockProvider S))
    (show_other : Value → String) (look : String → S → Option HassState)
    (node_info : String → S → Option Fields) (m : DeviceMap) (progress : Bool) where
  -- The handlers of commands for one device.
  abbrev pub device_handlers : List (Fields → Exec S Fields)
  device_handlers =
      handle_lock call watch m progress
      ∷ handle_unlock call watch m progress
      ∷ handle_set_access_code select m show_other
      ∷ handle_clear_access_code select m
      ∷ handle_read_codes select m
      ∷ handle_open_cover call watch read m progress
      ∷ handle_close_cover call watch read m progress
      ∷ handle_stop_cover call watch read m
      ∷ handle_turn_on call watch read m
      ∷ handle_turn_off call watch read m
      ∷ handle_set_temperature call watch read m
      ∷ handle_set_hvac_mode call watch read m
      ∷ handle_get_state look node_info select m
      ∷ handle_get_capabilities look node_info select m
      ∷ handle_get_diagnostics look node_info select m
      ∷ []

  -- A command for a device that is not in the device map fails with nothing done, be it for a lock, a
  -- cover, a switch or a thermostat, or for a report of its state, capabilities or diagnostics: it
  -- calls no service and selects no provider, whatever entity its parameters name.
  pub handle_unknown :
      (params : Fields) (s : S)
      → lookup (device_id_in params) m.forward ≡ none
      → All
          (λ (handle : Fields → Exec S Fields). handle params s ≡ unknown_answer params s)
          device_handlers
  unfolding handle_lock handle_unlock handle_set_access_code handle_clear_access_code
      handle_read_codes handle_open_cover handle_close_cover handle_stop_cover handle_turn_on
      handle_turn_off handle_set_temperature handle_set_hvac_mode handle_get_state
      handle_get_capabilities handle_get_diagnostics
  handle_unknown params s h =
      let e = unknown-resolve_entity_id m params h in
      (
        rw e refl,
        (
          rw e refl,
          (
            rw e refl,
            (
              rw e refl,
              (
                rw e refl,
                (
                  rw e refl,
                  (
                    rw e refl,
                    (
                      rw e refl,
                      (
                        rw e refl,
                        (
                          rw e refl,
                          (rw e refl, (rw e refl, (rw e refl, (rw e refl, (rw e refl, tt))))),
                        ),
                      ),
                    ),
                  ),
                ),
              ),
            ),
          ),
        ),
      )
