-- ===== src/Providers.antt =====
-- services/lock_provider.py and services/providers: the access codes on a lock. The services of Home
-- Assistant are an argument: a function from a service's name and data to a call that changes a state
-- of any type; a service without a response returns null.
pub mod Slots
pub mod NodeInfo
pub mod Zwave
pub mod Matter
pub mod Select
pub mod Laws
use staykey_ha_plugin.Prelude.{ℕ, String, Bool, Option, List}
use staykey_ha_plugin.Python.Exec.{Exec}
use staykey_ha_plugin.Python.Int.{ℤ}
use staykey_ha_plugin.Python.Value.{Value, Fields}

-- `hass.services.async_call`
abbrev pub Services : Type 0 → Type 0
Services S = String → Fields → Exec S Value

pub record ProviderResult : Type 0 where
  pub slot : ℤ
  pub method : String
  pub verified : Bool
  pub attempts : ℕ
  pub error : Option String
  pub extra : Fields

pub record SlotInfo : Type 0 where
  pub slot : ℤ
  pub occupied : Bool
  pub code : Option String

pub record CapabilityInfo : Type 0 where
  pub supports_access_codes : Bool
  pub max_slots : Option ℤ
  pub extra : Fields

-- `LockProvider`
pub record LockProvider (S : Type 0) : Type 0 where
  pub name : String
  pub set_code : String → ℤ → String → Exec S ProviderResult
  pub clear_code : String → ℤ → Exec S ProviderResult
  pub read_codes : String → ℤ → Exec S (List SlotInfo)
  pub get_capabilities : String → Exec S CapabilityInfo
