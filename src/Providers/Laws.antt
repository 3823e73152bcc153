-- ===== src/Providers/Laws.antt =====
-- What every provider promises (services/lock_provider.py), and that the two providers keep it.
use staykey_ha_plugin.Prelude.{String, Option, ◌≡◌, arith, inl, inr, Option-cases, subst}
use staykey_ha_plugin.Python.Exec.{ok}
use staykey_ha_plugin.Python.Int.{ℤ}
use staykey_ha_plugin.Python.Value.{Fields}
use staykey_ha_plugin.Providers.{Services, LockProvider}
use staykey_ha_plugin.Providers.Zwave
use staykey_ha_plugin.Providers.Zwave.Verified.{set_code-IsReport}
use staykey_ha_plugin.Providers.Matter.Outcomes.{
  IsOutcome, EndsWell, set_code-IsOutcome, clear_code-EndsWell,
}
use staykey_ha_plugin.Providers.Select.{
  Protocol, zwave_js, matter, Registry, infer_integration, provider_of, select_provider,
}

-- A provider answers for the slot that it is asked for: verified and without an error, or not verified
-- and with one.
pub record IsLockProvider {S : Type 0} (p : LockProvider S) : Type 0 where
  pub sets :
      (e : String) (slot : ℤ) (code : String) (s : S) → EndsWell slot (p.set_code e slot code s).0
  pub clears : (e : String) (slot : ℤ) (s : S) → EndsWell slot (p.clear_code e slot s).0

module _ {S : Type 0} (call : Services S) where
  zwave_sets :
      (e : String) (slot : ℤ) (code : String) (s : S)
      → IsOutcome slot (Zwave.set_code call e slot code s).0
  zwave_sets e slot code s = ground (arith, set_code-IsReport call e slot code s)

  zwave_clears : (e : String) (slot : ℤ) (s : S) → EndsWell slot (Zwave.clear_code call e slot s).0
  unfolding Zwave.clear_code
  zwave_clears e slot s = ground arith

module _ {S : Type 0} (call : Services S) (node_info : String → Option Fields) where
  provider_of-IsLockProvider : (p : Protocol) → IsLockProvider (provider_of call node_info p)
  unfolding provider_of
  provider_of-IsLockProvider zwave_js = record {
    sets = zwave_sets call;
    clears = zwave_clears call;
  }
  provider_of-IsLockProvider matter = record {
    sets = λ e slot code s. set_code-IsOutcome call e slot code s;
    clears = λ e slot s. clear_code-EndsWell call e slot s;
  }

  -- A provider that is selected for a lock keeps the promise of every provider.
  pub select_provider-IsLockProvider :
      (registry : Registry) (e : String) (p : LockProvider S)
      → select_provider call node_info registry e ≡ ok p
      → IsLockProvider p
  unfolding select_provider
  select_provider-IsLockProvider registry e p chosen =
      elim (Option-cases (infer_integration registry e)) [
        | inl unknown ↦ cc (rw (unknown, select_provider) at chosen)
        | inr (protocol, found) ↦
            let same : ok (provider_of call node_info protocol) ≡ ok p =
              rw (found, select_provider) at chosen in
            let is : provider_of call node_info protocol ≡ p = cc in
            subst IsLockProvider is (provider_of-IsLockProvider protocol)
      ]
