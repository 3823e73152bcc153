-- ===== src/Commands/Table/Secure.antt =====
-- What a command can do while support access is off, whichever handler it reaches
-- (services/ha_bridge.py and the handlers).
use staykey_ha_plugin.Prelude.{ℕ, ◌≡◌, refl, String, Bool, false}
use staykey_ha_plugin.Python.Exec.{Result, ok, err}
use staykey_ha_plugin.Python.Value.{Value, null, obj, Fields}
use staykey_ha_plugin.DeviceMap.{DeviceMap}
use staykey_ha_plugin.Providers.{LockProvider}
use staykey_ha_plugin.Handlers.Kept.{
  IsDeviceService, Kept, KeepsLock, handle_lock-Kept, handle_unlock-Kept, handle_open_cover-Kept,
  handle_close_cover-Kept, handle_stop_cover-Kept, handle_turn_on-Kept, handle_turn_off-Kept,
  handle_set_temperature-Kept, handle_set_hvac_mode-Kept, handle_set_access_code-Kept,
  handle_clear_access_code-Kept, handle_get_state-Kept, handle_get_diagnostics-Kept,
  handle_get_capabilities-Kept,
}
use staykey_ha_plugin.Commands.{Handler, Call, handle_command}
use staykey_ha_plugin.Commands.Support.{is_support_handler, handle_command-keeps}
use staykey_ha_plugin.Commands.Table.{Home, as_object, run_handler, run}

module _ {S : Type 0} (h : Home S) (m : DeviceMap) (Q : S → Type 0)
    (calls : (name : String) (d : Fields) → IsDeviceService name → Kept Q (h.call name d))
    (watches : (e : String) (s : S) → Q s → Q (h.watch e s).1)
    (selects : (e : String) (p : LockProvider S) → h.select e ≡ ok p → KeepsLock Q p) where
  as_object-keeps : (p : Result Fields × S) → Q p.1 → Q (as_object p).1
  as_object-keeps (ok d, s) q = q
  as_object-keeps (err e, s) q = q

  run_handler-keeps :
      (handler : Handler) (progress : Bool) (params : Fields) (s : S)
      → is_support_handler handler ≡ false
      → Q s
      → Q (run_handler h m handler progress params s).1
  run_handler-keeps Handler.handle_lock progress params s plain q =
      as_object-keeps _
        (handle_lock-Kept Q h.call calls h.watch h.entity_state m params watches progress s q)
  run_handler-keeps Handler.handle_unlock progress params s plain q =
      as_object-keeps _
        (handle_unlock-Kept Q h.call calls h.watch h.entity_state m params watches progress s q)
  run_handler-keeps Handler.handle_set_access_code progress params s plain q =
      as_object-keeps _ (handle_set_access_code-Kept Q h.select m params selects h.show_other s q)
  run_handler-keeps Handler.handle_clear_access_code progress params s plain q =
      as_object-keeps _ (handle_clear_access_code-Kept Q h.select m params selects s q)
  run_handler-keeps Handler.handle_read_codes progress params s plain q = cc
  run_handler-keeps Handler.handle_get_state progress params s plain q =
      as_object-keeps _
        (handle_get_state-Kept Q h.select m params selects h.hass_state h.node_info s q)
  run_handler-keeps Handler.handle_get_capabilities progress params s plain q =
      as_object-keeps _
        (handle_get_capabilities-Kept Q h.select m params selects h.hass_state h.node_info s q)
  run_handler-keeps Handler.handle_get_diagnostics progress params s plain q =
      as_object-keeps _
        (handle_get_diagnostics-Kept Q h.select m params selects h.hass_state h.node_info s q)
  run_handler-keeps Handler.handle_open_cover progress params s plain q =
      as_object-keeps _
        (handle_open_cover-Kept Q h.call calls h.watch h.entity_state m params watches progress s q)
  run_handler-keeps Handler.handle_close_cover progress params s plain q =
      as_object-keeps _ (
        handle_close_cover-Kept Q h.call calls h.watch h.entity_state m params watches progress s q)
  run_handler-keeps Handler.handle_stop_cover progress params s plain q =
      as_object-keeps _
        (handle_stop_cover-Kept Q h.call calls h.watch h.entity_state m params watches s q)
  run_handler-keeps Handler.handle_turn_on progress params s plain q =
      as_object-keeps _
        (handle_turn_on-Kept Q h.call calls h.watch h.entity_state m params watches s q)
  run_handler-keeps Handler.handle_turn_off progress params s plain q =
      as_object-keeps _
        (handle_turn_off-Kept Q h.call calls h.watch h.entity_state m params watches s q)
  run_handler-keeps Handler.handle_set_temperature progress params s plain q =
      as_object-keeps _
        (handle_set_temperature-Kept Q h.call calls h.watch h.entity_state m params watches s q)
  run_handler-keeps Handler.handle_set_hvac_mode progress params s plain q =
      as_object-keeps _
        (handle_set_hvac_mode-Kept Q h.call calls h.watch h.entity_state m params watches s q)
  run_handler-keeps Handler.handle_ha_service_call progress params s plain q = cc
  run_handler-keeps Handler.handle_tap_events progress params s plain q = cc
  run_handler-keeps Handler.handle_discover_devices progress params s plain q = cc
  run_handler-keeps Handler.handle_list_entities progress params s plain q = q

  run-keeps : (c : Call) (s : S) → is_support_handler c.handler ≡ false → Q s → Q (run h m c s).1
  unfolding run
  run-keeps c s plain q = by_params c.params refl
    where
      by_params : (v : Value) → c.params ≡ v → Q (run h m c s).1
      by_params (obj d) e = rw (e, run) (run_handler-keeps c.handler c.progress d s plain q)
      by_params null e = rw (e, run) q
      by_params _ e = rw (e, run) q

  -- With support access off, whatever command arrives: it keeps what is kept by the services that the
  -- handlers of devices call themselves, by the time that passes while they wait for an entity, and by
  -- a provider's setting, clearing and describing of codes. The listing of a lock's codes, the service
  -- calls of the passthrough and the window of a tap may break it, since no command gets to them.
  pub handle_command-secure :
      (n : ℕ) (progress : Bool) (action : String) (params : Value) (s : S)
      → Q s
      → Q (handle_command (run h m) false n progress action params s).1
  handle_command-secure = handle_command-keeps (run h m) Q run-keeps
