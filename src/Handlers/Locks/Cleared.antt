-- ===== src/Handlers/Locks/Cleared.antt =====
-- What clearing a code answers (handlers/lock.py).
use staykey_ha_plugin.Prelude.{
  String, ◌≡◌, refl, sym, ◌∙◌, inl, inr, false, Option, none, some, arith, ◌==◌, Option-cases,
}
use staykey_ha_plugin.Python.Exec.{Result, ok, err, pure, continue, ◌>>=◌}
use staykey_ha_plugin.Python.Int.{ℤ}
use staykey_ha_plugin.Python.Value.{bool, str, obj, Fields, end, field, get, get-put}
use staykey_ha_plugin.DeviceMap.{DeviceMap}
use staykey_ha_plugin.Providers.{Services, ProviderResult, LockProvider}
use staykey_ha_plugin.Providers.Matter.Outcomes.{IsOutcome, EndsWell}
use staykey_ha_plugin.Providers.Laws.{IsLockProvider, select_provider-IsLockProvider}
use staykey_ha_plugin.Providers.Select.{Registry, select_provider}
use staykey_ha_plugin.Handlers.Params.{resolve_entity_id, resolve_slot}
use staykey_ha_plugin.Handlers.Locks.{
  lift, put_text, put_extra, promote, provider_result_to_dict, is_none, cleared_dict,
  handle_clear_access_code,
}

-- Fields beside the one that is asked for.
get-put_text :
    (j k : String) (t : Option String) (d : Fields)
    → (k == j) ≡ false
    → get j (put_text k t d) ≡ get j d
get-put_text j k none d other = refl
get-put_text j k (some s) d other = ground (arith, get-put k j (str s) d, other)

get-put_extra :
    (j : String) (extra d : Fields) → ("extra" == j) ≡ false → get j (put_extra extra d) ≡ get j d
get-put_extra j end d other = refl
get-put_extra j (field k v extra) d other =
    ground (arith, get-put "extra" j (obj (field k v extra)) d, other)

get-promote :
    (j k : String) (extra d : Fields) → (k == j) ≡ false → get j (promote k extra d) ≡ get j d
get-promote j k extra d other = elim (Option-cases (get k extra)) [
  | inl missing ↦ rw (missing, promote) refl
  | inr (v, found) ↦ rw (found, promote) (ground (arith, get-put k j v d, other))
]

verified-provider_result_to_dict :
    (r : ProviderResult) → get "verified" (provider_result_to_dict r) ≡ some (bool r.verified)
unfolding provider_result_to_dict
verified-provider_result_to_dict r =
    get-promote "verified" "reason" r.extra _ refl
    ∙ get-promote "verified" "matter_status" r.extra _ refl
    ∙ get-put_extra "verified" r.extra _ refl
    ∙ get-put_text "verified" "error" r.error _ refl
    ∙ unfold get in refl

-- A result without contradiction is cleared exactly where it is verified.
cleared-verified :
    (slot : ℤ) (r : ProviderResult)
    → IsOutcome slot r
    → get "cleared" (cleared_dict r) ≡ get "verified" (cleared_dict r)
unfolding cleared_dict
cleared-verified slot r h =
    get-put "cleared" "cleared" (bool (is_none r.error)) (provider_result_to_dict r)
    ∙ ground (arith, h)
    ∙ sym (verified-provider_result_to_dict r)
    ∙ sym (get-put "cleared" "verified" (bool (is_none r.error)) (provider_result_to_dict r))

-- What a call that does not raise gives is cleared exactly where it is verified.
abbrev pub SaysCleared : Result Fields → Type 0
SaysCleared (ok d) = get "cleared" d ≡ get "verified" d
SaysCleared (err e) = Unit

module _ {S : Type 0} (select : String → Result (LockProvider S)) (device_map : DeviceMap) where
  SaysCleared-provider :
      (p : LockProvider S)
      → IsLockProvider p
      → (e : String) (slot : ℤ) (s : S)
      → SaysCleared ((p.clear_code e slot >>= λ r. pure (cleared_dict r)) s).0
  SaysCleared-provider p h e slot s = from_result (p.clear_code e slot s) (h.clears e slot s)
    where
      from_result :
          (t : Result ProviderResult × S)
          → EndsWell slot t.0
          → SaysCleared (continue t.0 (λ r. pure (cleared_dict r)) t.1).0
      from_result (ok r, t) outcome = cleared-verified slot r outcome
      from_result (err x, t) outcome = tt

  -- For any choice of providers that keep their promise.
  says_cleared :
      ((e : String) (p : LockProvider S) → select e ≡ ok p → IsLockProvider p)
      → (params : Fields) (s : S)
      → SaysCleared (handle_clear_access_code select device_map params s).0
  unfolding handle_clear_access_code
  says_cleared keep params s = from_entity (resolve_entity_id device_map params)
    where
      from_provider :
          (e : String) (slot : ℤ) (r : Result (LockProvider S))
          → select e ≡ r
          → SaysCleared ((lift r >>= λ p. p.clear_code e slot >>= λ r. pure (cleared_dict r)) s).0
      from_provider e slot (ok p) chosen = SaysCleared-provider p (keep e p chosen) e slot s
      from_provider e slot (err x) chosen = tt

      from_slot :
          (e : String) (r : Result ℤ)
          → SaysCleared
              ((lift r >>= λ slot.
                  lift (select e) >>= λ p. p.clear_code e slot >>= λ r. pure (cleared_dict r))
                s).0
      from_slot e (ok slot) = from_provider e slot (select e) refl
      from_slot e (err x) = tt

      from_entity :
          (r : Result String)
          → SaysCleared
              ((lift r >>= λ e. lift (resolve_slot params) >>= λ slot.
                  lift (select e) >>= λ p. p.clear_code e slot >>= λ r. pure (cleared_dict r))
                s).0
      from_entity (ok e) = from_slot e (resolve_slot params)
      from_entity (err x) = tt

-- Clearing a code, with the provider that is chosen for the lock and whatever services there are,
-- answers `cleared` exactly where it answers `verified`.
pub handle_clear_access_code-SaysCleared :
    {S : Type 0} (call : Services S) (node_info : String → Option Fields) (registry : Registry)
    (device_map : DeviceMap) (params : Fields) (s : S)
    → SaysCleared
        (handle_clear_access_code (select_provider call node_info registry) device_map params s).0
handle_clear_access_code-SaysCleared call node_info registry device_map =
    says_cleared (select_provider call node_info registry) device_map
      (select_provider-IsLockProvider call node_info registry)
