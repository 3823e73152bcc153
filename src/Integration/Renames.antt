-- ===== src/Integration/Renames.antt =====
-- What a change of the entity registry leaves in the device map (__init__.py, device_map.py).
use staykey_ha_plugin.Prelude.{
  ℕ, String, ◌≡◌, ◌≢◌, ◌∙◌, Bool, not, ◌&&◌, some, arith, eq_iff, ◌==◌, Bool-cases, Option-cases,
  inl, inr,
}
use staykey_ha_plugin.DeviceMap.{is_tracked, get_device_id, update_entity_id, DeviceMap}
use staykey_ha_plugin.DeviceMap.Reverse.{IsSound, update_entity_id-IsSound}
use staykey_ha_plugin.Gateway.Protocol.{Text}
use staykey_ha_plugin.Gateway.Client.{
  Client, Delivery, send, send_or_queue, send_health_alert, send_entity_id_changed,
}
use staykey_ha_plugin.Integration.{
  handle_entity_renamed, handle_entity_removed, handle_entity_registry_updated,
}

-- The map after a rename that is told: the one entity's entry is moved.
renamed-IsSound :
    (m : DeviceMap) (d old to : String)
    → old ≢ ""
    → to ≢ ""
    → get_device_id old m ≡ some d
    → IsSound m
    → IsSound (update_entity_id d old to m)
unfolding get_device_id
renamed-IsSound m d old to real_old real listed h =
    update_entity_id-IsSound d m old to real (h.listed old d listed ∙ ground (arith, eq_iff old ""))
      h

module _ {W : Type 0} (closed : W → Bool) (transmit : Text → W → Delivery × W) (now : ℕ) where
  device_map-renamed :
      (m : DeviceMap) (d old to : String) (c : Client W)
      → (send_entity_id_changed closed transmit d old to (record c { device_map = m })).1.device_map
        ≡ m
  unfolding send_entity_id_changed send
  device_map-renamed m d old to c = ground arith

  handle_entity_renamed-IsSound :
      (old to : String) (c : Client W)
      → IsSound c.device_map
      → IsSound (handle_entity_renamed closed transmit now old to c).1.device_map
  unfolding handle_entity_renamed
  handle_entity_renamed-IsSound old to c h =
      elim (Bool-cases (not (old == "") && not (to == "") && is_tracked old c.device_map)) [
        | inr other ↦ rw other h
        | inl given ↦ rw given (elim (Option-cases (get_device_id old c.device_map)) [
          | inl unknown ↦ rw unknown h
          | inr (d, listed) ↦ rw listed (elim (Bool-cases (d == "")) [
            | inl no_id ↦ rw no_id h
            | inr has_id ↦
                rw (has_id, device_map-renamed)
                  (renamed-IsSound c.device_map d old to (ground (arith, eq_iff old ""))
                    (ground (arith, eq_iff to "")) listed h)
          ])
        ])
      ]

  device_map-removed :
      (e : String) (c : Client W)
      → (handle_entity_removed closed transmit now e c).1.device_map ≡ c.device_map
  unfolding handle_entity_removed send_health_alert send_or_queue send
  device_map-removed e c = ground arith

  -- A change of the entity registry keeps every listed entity right, whatever the change and whether
  -- or not the gateway can be told of it.
  pub handle_entity_registry_updated-IsSound :
      (action old to : String) (c : Client W)
      → IsSound c.device_map
      → IsSound (handle_entity_registry_updated closed transmit now action old to c).1.device_map
  unfolding handle_entity_registry_updated
  handle_entity_registry_updated-IsSound action old to c h =
      elim (Bool-cases (action == "update")) [
        | inl updates ↦ rw updates (handle_entity_renamed-IsSound old to c h)
        | inr no_update ↦ rw no_update (elim (Bool-cases (action == "remove")) [
          | inl removes ↦ rw (removes, device_map-removed) h
          | inr other ↦ rw other h
        ])
      ]
