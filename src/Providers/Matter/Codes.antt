-- ===== src/Providers/Matter/Codes.antt =====
-- services/providers/matter.py: setting, clearing and reading the codes. Each call runs alone here;
-- the lock that keeps two calls for one entity apart is in Locked.
use staykey_ha_plugin.Prelude.{
  ℕ, zero, suc, ◌+◌, String, true, false, Option, none, some, List, [], ◌∷◌, if◌then◌else◌,
}
use staykey_ha_plugin.Python.Exec.{Exception, exception_text, Exec, ok, err, ◌<>◌}
use staykey_ha_plugin.Python.Int.{ℤ, pos, negsuc}
use staykey_ha_plugin.Python.Value.{Value, bool, str, Fields, end, field, put}
use staykey_ha_plugin.Providers.{Services, ProviderResult, SlotInfo, CapabilityInfo}
use staykey_ha_plugin.Providers.Matter.{
  entity_response, given, truthy_at, has_credential, slot_data, credential_status, lock_info,
}
use staykey_ha_plugin.Providers.Matter.Errors.{
  duplicate, is_home_assistant_error, is_duplicate_credential_error, matter_status_of, set_error,
  clear_error, enrich,
}
use staykey_ha_plugin.Providers.Matter.Reports.{
  result, operation_fields, request_payload, confirmed_by, put_text, preflight_failed, indices,
  status_or_none, user_of, already_empty, user_data, user_not_cleared, clear_preflight_failed, row,
  names_pin, capabilities_in,
}

module _ {S : Type 0} (call : Services S) where
  -- the end of `_set_code_locked`: the slot is read once more
  unfoldable pub confirm : String → ℤ → Option Fields → S → ProviderResult × S
  confirm entity_id slot existing s =
      let (r, s') = credential_status call entity_id slot s in
      let status = status_or_none r in
      if has_credential status
      then (
        result slot "matter_active_read" true none
            (put "user_index" (user_of status) (operation_fields existing)),
        s',
      )
      else (
        result slot "matter_set_credential" false
            (some
              "set_lock_credential returned no credential_index and active read did not confirm")
            (operation_fields existing),
        s',
      )

  -- where `set_lock_credential` raised
  unfoldable pub set_failed : String → ℤ → Option Fields → Exception → S → ProviderResult × S
  set_failed entity_id slot existing e s =
      if is_home_assistant_error e
      then (if is_duplicate_credential_error e
          then (
            result slot "matter_set_credential_duplicate" true none
                (field "status" (str duplicate) (operation_fields existing)),
            s,
          )
          else (let status = matter_status_of e in
              let (extra, s') =
                enrich call entity_id slot status
                  (put_text "matter_status" status (operation_fields existing)) s in
              (
                result slot "matter_set_credential" false (some (set_error status e extra)) extra,
                s',
              )))
      else (
        result slot "matter_set_credential" false
            (some ("set_lock_credential: " <> exception_text e)) (operation_fields existing),
        s,
      )

  -- where `set_lock_credential` returned
  unfoldable pub set_returned : String → ℤ → Option Fields → Value → S → ProviderResult × S
  set_returned entity_id slot existing response s =
      elim (confirmed_by (entity_response response entity_id)) [
        | some per_entity ↦
            (result slot "matter_set_credential" true none (indices existing per_entity), s)
        | none ↦ confirm entity_id slot existing s
      ]

  -- `_set_code_locked`, once the state of the slot is known
  unfoldable pub set_known : String → ℤ → String → Option Fields → S → ProviderResult × S
  set_known entity_id slot code existing s =
      let (r, s') =
        call "matter.set_lock_credential" (request_payload entity_id slot code existing) s in
      elim r [
        | err e ↦ set_failed entity_id slot existing e s'
        | ok response ↦ set_returned entity_id slot existing response s'
      ]

  unfoldable pub set_code : String → ℤ → String → S → ProviderResult × S
  set_code entity_id slot code s =
      let (r, s') = credential_status call entity_id slot s in
      elim r [
        | err e ↦ (preflight_failed slot e, s')
        | ok existing ↦ set_known entity_id slot code existing s'
      ]

  -- `_clear_orphan_credential`: only a `HomeAssistantError` is caught
  unfoldable pub clear_orphan : String → ℤ → Exec S ProviderResult
  clear_orphan entity_id slot s =
      let (r, s') = call "matter.clear_lock_credential" (slot_data entity_id slot) s in
      elim r [
        | ok _ ↦ (
          ok (result slot "matter_clear_credential" true none (field "orphan" (bool true) end)),
          s',
        )
        | err e ↦
            if is_home_assistant_error e
            then (
              ok (
                  result slot "matter_clear_credential" false
                    (some (clear_error (matter_status_of e) e))
                    (put_text "matter_status" (matter_status_of e)
                      (field "orphan" (bool true) end))),
              s',
            )
            else (err e, s')
      ]

  unfoldable pub clear_user : String → ℤ → Value → Exec S ProviderResult
  clear_user entity_id slot user_index s =
      let (r, s') = call "matter.clear_lock_user" (user_data entity_id user_index) s in
      elim r [
        | ok _ ↦
            (ok (result slot "matter_clear_user" true none (field "user_index" user_index end)), s')
        | err e ↦ (ok (user_not_cleared slot user_index e), s')
      ]

  -- `_clear_code_locked`, once the state of the slot is known
  unfoldable pub clear_known : String → ℤ → Option Fields → Exec S ProviderResult
  clear_known entity_id slot none s = (ok (already_empty slot), s)
  clear_known entity_id slot (some existing) s =
      if truthy_at "credential_exists" existing
      then elim (given "user_index" existing) [
        | none ↦ clear_orphan entity_id slot s
        | some user_index ↦ clear_user entity_id slot user_index s
      ]
      else (ok (already_empty slot), s)

  unfoldable pub clear_code : String → ℤ → Exec S ProviderResult
  clear_code entity_id slot s =
      let (r, s') = credential_status call entity_id slot s in
      elim r [
        | err e ↦ (ok (clear_preflight_failed slot e), s')
        | ok existing ↦ clear_known entity_id slot existing s'
      ]

  -- so many slots from a first one on
  unfoldable pub read_slots : ℕ → ℕ → String → S → List SlotInfo × S
  read_slots zero slot entity_id s = ([], s)
  read_slots (suc n) slot entity_id s =
      let (r, s') = credential_status call entity_id (pos slot) s in
      let (rest, s'') = read_slots n (slot + 1) entity_id s' in
      elim (row slot r) [ none ↦ (rest, s'') | some info ↦ (info ∷ rest, s'') ]

  unfoldable pub read_codes : String → ℤ → S → List SlotInfo × S
  read_codes entity_id (pos max_slots) s = read_slots max_slots 1 entity_id s
  read_codes entity_id (negsuc n) s = ([], s)

  unfoldable pub get_capabilities : String → S → CapabilityInfo × S
  unfolding names_pin
  get_capabilities entity_id s =
      let (info, s') = lock_info call entity_id s in (capabilities_in info, s')
