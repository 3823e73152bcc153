-- ===== src/Handlers/Kept.antt =====
-- What the handlers of devices keep (handlers/lock.py, handlers/cover.py, handlers/switch.py,
-- handlers/climate.py, handlers/state.py, handlers/capability.py, handlers/diagnostics.py).
use staykey_ha_plugin.Prelude.{
  ◌≡◌, ◌⊎◌, refl, inl, inr, String, Bool, true, false, Option, List, [], ◌∷◌, ◌==◌, Bool-cases,
  if◌then◌else◌,
}
use staykey_ha_plugin.Python.Exec.{Exec, Result, ok, Result-cases, ◌>>=◌, ◌>>◌, ◌<>◌}
use staykey_ha_plugin.Python.Int.{ℤ}
use staykey_ha_plugin.Python.Value.{Value, Fields}
use staykey_ha_plugin.DeviceMap.{DeviceMap}
use staykey_ha_plugin.Providers.{Services, LockProvider}
use staykey_ha_plugin.Handlers.Params.{resolve_entity_id, resolve_slot, resolve_slot_and_code}
use staykey_ha_plugin.Handlers.Locks.{lift, handle_set_access_code, handle_clear_access_code}
use staykey_ha_plugin.Handlers.Devices.{
  EntityState, extract_domain, handle_open_cover, handle_close_cover, handle_stop_cover,
  handle_turn_on, handle_turn_off, handle_set_temperature, handle_set_hvac_mode, await_cover,
  hvac_mode_in,
}
use staykey_ha_plugin.Handlers.Reports.{
  HassState, handle_get_state, handle_get_capabilities, handle_get_diagnostics, lock_capabilities,
  capabilities_of, has_prefix, is_unsupported,
}
use staykey_ha_plugin.Handlers.Waiting.{Watch, handle_lock, handle_unlock, await_state}

unfoldable pub is_in : String → List String → Bool
is_in name [] = false
is_in name (s ∷ names) = if s == name then true else is_in name names

abbrev pub device_services : List String
device_services =
    "lock.lock" ∷ "lock.unlock" ∷ "cover.open_cover" ∷ "cover.close_cover" ∷ "cover.stop_cover"
    ∷ "climate.set_temperature" ∷ "climate.set_hvac_mode" ∷ []

-- A service that a handler of devices calls itself.
abbrev pub IsDeviceService : String → Type 0
IsDeviceService name =
    (is_in name device_services ≡ true)
    ⊎ (((domain : String) × (name ≡ domain <> ".turn_on"))
        ⊎ ((domain : String) × (name ≡ domain <> ".turn_off")))

module _ {S : Type 0} (Q : S → Type 0) where
  -- A call that keeps `Q`.
  abbrev pub Kept : {A : Type 0} → Exec S A → Type 0
  Kept m = (s : S) → Q s → Q (m s).1

  pub Kept-bind :
      {A B : Type 0} (m : Exec S A) (f : A → Exec S B)
      → Kept m
      → ((a : A) → Kept (f a))
      → Kept (m >>= f)
  Kept-bind m f hm hf s q = elim (Result-cases (m s).0) [
    | inl (e, failed) ↦ rw failed (hm s q)
    | inr (a, returned) ↦ rw returned (hf a (m s).1 (hm s q))
  ]

  -- What a provider keeps, apart from the reading of codes.
  pub record KeepsLock (p : LockProvider S) : Type 0 where
    pub sets :
        (entity_id : String) (slot : ℤ) (code : String) → Kept (p.set_code entity_id slot code)
    pub clears : (entity_id : String) (slot : ℤ) → Kept (p.clear_code entity_id slot)
    pub describes : (entity_id : String) → Kept (p.get_capabilities entity_id)

  -- A handler that begins with the entity of its device.
  at_entity :
      {B : Type 0} (m : DeviceMap) (params : Fields) (f : String → Exec S B)
      → ((e : String) → Kept (f e))
      → Kept (lift (resolve_entity_id m params) >>= f)
  at_entity m params f h = Kept-bind (lift (resolve_entity_id m params)) f (λ s q. q) h

  -- Calling a service and then going on.
  module _ (call : Services S)
      (calls : (name : String) (d : Fields) → IsDeviceService name → Kept (call name d)) where
    called :
        {B : Type 0} (name : String) (d : Fields) (next : Exec S B)
        → is_in name device_services ≡ true
        → Kept next
        → Kept (call name d >> next)
    called name d next h k = Kept-bind (call name d) (λ _. next) (calls name d (inl h)) (λ _. k)

    module _ (watch : String → S → Watch × S) (read : String → S → Option EntityState)
        (m : DeviceMap) (params : Fields)
        (watches : (e : String) (s : S) → Q s → Q (watch e s).1) where
      pub handle_lock-Kept : (progress : Bool) → Kept (handle_lock call watch m progress params)
      unfolding handle_lock await_state is_in
      handle_lock-Kept progress =
          at_entity m params _ (λ e. called "lock.lock" _ _ refl (watches e))

      pub handle_unlock-Kept : (progress : Bool) → Kept (handle_unlock call watch m progress params)
      unfolding handle_unlock await_state is_in
      handle_unlock-Kept progress =
          at_entity m params _ (λ e. called "lock.unlock" _ _ refl (watches e))

      pub handle_open_cover-Kept :
          (progress : Bool) → Kept (handle_open_cover call watch read m progress params)
      unfolding handle_open_cover await_cover is_in
      handle_open_cover-Kept progress =
          at_entity m params _ (λ e. called "cover.open_cover" _ _ refl (watches e))

      pub handle_close_cover-Kept :
          (progress : Bool) → Kept (handle_close_cover call watch read m progress params)
      unfolding handle_close_cover await_cover is_in
      handle_close_cover-Kept progress =
          at_entity m params _ (λ e. called "cover.close_cover" _ _ refl (watches e))

      pub handle_stop_cover-Kept : Kept (handle_stop_cover call watch read m params)
      unfolding handle_stop_cover is_in
      handle_stop_cover-Kept =
          at_entity m params _ (λ e. called "cover.stop_cover" _ _ refl (λ s q. q))

      pub handle_turn_on-Kept : Kept (handle_turn_on call watch read m params)
      unfolding handle_turn_on
      handle_turn_on-Kept = at_entity m params _ (λ e.
          Kept-bind (call (extract_domain e <> ".turn_on") _) _
            (calls _ _ (inr (inl (extract_domain e, refl)))) (λ _ s q. q))

      pub handle_turn_off-Kept : Kept (handle_turn_off call watch read m params)
      unfolding handle_turn_off
      handle_turn_off-Kept = at_entity m params _ (λ e.
          Kept-bind (call (extract_domain e <> ".turn_off") _) _
            (calls _ _ (inr (inr (extract_domain e, refl)))) (λ _ s q. q))

      pub handle_set_temperature-Kept : Kept (handle_set_temperature call watch read m params)
      unfolding handle_set_temperature is_in
      handle_set_temperature-Kept =
          at_entity m params _ (λ e. called "climate.set_temperature" _ _ refl (λ s q. q))

      pub handle_set_hvac_mode-Kept : Kept (handle_set_hvac_mode call watch read m params)
      unfolding handle_set_hvac_mode is_in
      handle_set_hvac_mode-Kept = at_entity m params _ (λ e.
          Kept-bind (lift (hvac_mode_in params)) _ (λ s q. q)
            (λ mode. called "climate.set_hvac_mode" _ _ refl (λ s q. q)))

  module _ (select : String → Result (LockProvider S)) (m : DeviceMap) (params : Fields)
      (selects : (e : String) (p : LockProvider S) → select e ≡ ok p → KeepsLock p) where
    at_provider :
        {B : Type 0} (e : String) (f : LockProvider S → Exec S B)
        → ((p : LockProvider S) → KeepsLock p → Kept (f p))
        → Kept (lift (select e) >>= f)
    at_provider e f h s q = elim (Result-cases (select e)) [
      | inl (x, failed) ↦ rw failed q
      | inr (p, found) ↦ rw found (h p (selects e p found) s q)
    ]

    pub handle_set_access_code-Kept :
        (show_other : Value → String) → Kept (handle_set_access_code select m show_other params)
    unfolding handle_set_access_code
    handle_set_access_code-Kept show_other = at_entity m params _ (λ e.
        Kept-bind (lift (resolve_slot_and_code show_other params)) _ (λ s q. q)
          (λ c.
            at_provider e _
              (λ p k. Kept-bind (p.set_code e c.0 c.1) _ (k.sets e c.0 c.1) (λ _ s q. q))))

    pub handle_clear_access_code-Kept : Kept (handle_clear_access_code select m params)
    unfolding handle_clear_access_code
    handle_clear_access_code-Kept = at_entity m params _ (λ e.
        Kept-bind (lift (resolve_slot params)) _ (λ s q. q)
          (λ slot.
            at_provider e _
              (λ p k. Kept-bind (p.clear_code e slot) _ (k.clears e slot) (λ _ s q. q))))

    module _ (read : String → S → Option HassState) (node_info : String → S → Option Fields) where
      pub handle_get_state-Kept : Kept (handle_get_state read node_info select m params)
      unfolding handle_get_state
      handle_get_state-Kept = at_entity m params _ (λ e s q. q)

      pub handle_get_diagnostics-Kept : Kept (handle_get_diagnostics read node_info select m params)
      unfolding handle_get_diagnostics
      handle_get_diagnostics-Kept = at_entity m params _ (λ e s q. q)

      lock_capabilities-Kept :
          (e : String) (d : Fields) → Kept (lock_capabilities read node_info select m e d)
      unfolding lock_capabilities
      lock_capabilities-Kept e d s q = elim (Result-cases (select e)) [
        | inl (x, failed) ↦
            rw (failed, lock_capabilities)
              (elim (Bool-cases (is_unsupported x)) [
                | inl unsupported ↦ rw unsupported q
                | inr other ↦ rw other q
              ])
        | inr (p, found) ↦
            let kept = (selects e p found).describes e s q in
            rw (found, lock_capabilities)
              (elim (Result-cases (p.get_capabilities e s).0) [
                | inl (x, failed) ↦ rw failed (elim (Bool-cases (is_unsupported x)) [
                  | inl unsupported ↦ rw unsupported kept
                  | inr other ↦ rw other kept
                ])
                | inr (caps, returned) ↦ rw returned kept
              ])
      ]

      capabilities_of-Kept :
          (device_id e : String) → Kept (capabilities_of read node_info select m device_id e)
      unfolding capabilities_of
      capabilities_of-Kept device_id e s q = elim (Bool-cases (has_prefix "lock." e)) [
        | inl lock ↦ rw (lock, capabilities_of) (lock_capabilities-Kept e _ s q)
        | inr other ↦ rw (other, capabilities_of) q
      ]

      pub handle_get_capabilities-Kept :
          Kept (handle_get_capabilities read node_info select m params)
      unfolding handle_get_capabilities
      handle_get_capabilities-Kept = at_entity m params _ (λ e. capabilities_of-Kept _ e)
