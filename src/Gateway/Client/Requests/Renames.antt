-- ===== src/Gateway/Client/Requests/Renames.antt =====
-- Checking for renamed entities keeps the device map right (gateway/client.py, device_map.py).
use staykey_ha_plugin.Prelude.{
  ℕ, String, ◌≡◌, ◌≢◌, refl, Bool, some, List, [], ◌∷◌, arith, eq_iff, Option-cases, inl, inr,
}
use staykey_ha_plugin.Python.Exec.{Result, ok, err, Exec, continue}
use staykey_ha_plugin.Python.Dict.{lookup}
use staykey_ha_plugin.DeviceMap.{Device, tracked_device_ids, or_empty, get_device_info}
use staykey_ha_plugin.DeviceMap.Reverse.{IsSound, update_entity_id-IsSound}
use staykey_ha_plugin.Gateway.Protocol.{Text}
use staykey_ha_plugin.Gateway.Client.{
  Client, Delivery, send, send_or_queue, send_health_alert, send_entity_id_changed,
}
use staykey_ha_plugin.Gateway.Client.Requests.{
  Entry, Drift, in_place, renamed, missing, drift_of, act_on, check_device, check_devices,
  detect_drift,
}

renamed-ne-empty :
    (entries : List Entry) (info : Device) (r : String) → drift_of entries info ≡ renamed r → r ≢ ""
unfolding drift_of
renamed-ne-empty entries info r h = ground (arith, eq_iff r "")

module _ {W : Type 0} (closed : W → Bool) (transmit : Text → W → Delivery × W) (now : ℕ)
    (entries : List Entry) where
  device_map-send :
      (m : Text) (c : Client W) → (send closed transmit m c).1.device_map ≡ c.device_map
  unfolding send
  device_map-send m c = ground arith

  device_map-send_or_queue :
      (m : Text) (c : Client W)
      → (send_or_queue closed transmit now m c).1.device_map ≡ c.device_map
  unfolding send_or_queue
  device_map-send_or_queue m c = ground arith

  act_on-IsSound :
      (d : String) (info : Device) (drift : Drift) (c : Client W)
      → lookup d c.device_map.forward ≡ some info
      → drift_of entries info ≡ drift
      → IsSound c.device_map
      → IsSound (act_on closed transmit now entries d info drift c).1.device_map
  unfolding act_on
  act_on-IsSound d info in_place c found is h = h
  act_on-IsSound d info (renamed r) c found is h =
      let moved =
        update_entity_id-IsSound d c.device_map (or_empty info.external_id) r
          (renamed-ne-empty entries info r is) (rw found refl) h in
      unfold send_entity_id_changed in rw device_map-send moved
  act_on-IsSound d info missing c found is h =
      unfold send_health_alert in rw device_map-send_or_queue h

  check_device-IsSound :
      (d : String) (c : Client W)
      → IsSound c.device_map
      → IsSound (check_device closed transmit now entries d c).1.device_map
  unfolding check_device get_device_info
  check_device-IsSound d c h = elim (Option-cases (lookup d c.device_map.forward)) [
    | inl unknown ↦ rw (unknown, check_device) h
    | inr (info, found) ↦
        rw (found, check_device) (act_on-IsSound d info (drift_of entries info) c found refl h)
  ]

  continue-IsSound :
      (r : Result (Unit {0})) (f : Exec (Client W) (Unit {0})) (c : Client W)
      → IsSound c.device_map
      → IsSound (f c).1.device_map
      → IsSound (continue r (λ _. f) c).1.device_map
  continue-IsSound (ok _) f c h k = k
  continue-IsSound (err _) f c h k = h

  check_devices-IsSound :
      (ds : List String) (c : Client W)
      → IsSound c.device_map
      → IsSound (check_devices closed transmit now entries ds c).1.device_map
  unfolding check_devices
  check_devices-IsSound [] c h = h
  check_devices-IsSound (d ∷ ds) c h =
      let (r, c') = check_device closed transmit now entries d c in
      let h' = check_device-IsSound d c h in
      continue-IsSound r (check_devices closed transmit now entries ds) c' h'
        (check_devices-IsSound ds c' h')

  -- The check for renamed entities keeps every listed entity right, whatever the registry holds and
  -- wherever a failed send ends it.
  pub detect_drift-IsSound :
      (c : Client W)
      → IsSound c.device_map
      → IsSound (detect_drift closed transmit now entries c).1.device_map
  unfolding detect_drift
  detect_drift-IsSound c h = check_devices-IsSound (tracked_device_ids c.device_map) c h
