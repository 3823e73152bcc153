-- ===== src/Handlers/Passthrough/Answers.antt =====
-- What a service call that is passed through answers (handlers/passthrough.py).
use staykey_ha_plugin.Prelude.{String, ◌≡◌, ◌≢◌, Bool, true, some}
use staykey_ha_plugin.Python.Exec.{Exception, value_error, Result, ok, err, ◌<>◌}
use staykey_ha_plugin.Python.Value.{Value, str, Fields, get}
use staykey_ha_plugin.Providers.{Services}
use staykey_ha_plugin.Providers.Matter.Errors.{is_home_assistant_error}
use staykey_ha_plugin.Handlers.Passthrough.{
  Details, ServiceCall, service_data_in, handle_ha_service_call,
}

-- What a request has to have: a domain and a service, and data that are an object, or none.
pub record IsComplete (params : Fields) : Type 0 where
  pub domain : String
  pub service : String
  pub service_data : Fields
  pub has_domain : get "domain" params ≡ some (str domain)
  pub has_service : get "service" params ≡ some (str service)
  pub has_data : service_data_in (get "service_data" params) ≡ some service_data
  pub domain_filled : domain ≢ ""
  pub service_filled : service ≢ ""

-- A request that is not complete is refused with a `ValueError`; one that is complete asks for a call
-- of the service that it names, with its data.
abbrev pub IsRead : Fields → Result ServiceCall → Type 0
IsRead params (err e) = ((t : String) × (e ≡ value_error t)) × ¬ (IsComplete params)
IsRead params (ok c) =
    (p : IsComplete params) × (c.domain ≡ p.domain)
    × (c.service ≡ p.service)
    × (c.service_data ≡ p.service_data)

module _ {S : Type 0} (call : Bool → Bool → Services S) (details : Exception → Details) where
  -- What the request comes to, with what it reads as: a refusal, or the one service call.
  abbrev pub Answers : Fields → S → Result ServiceCall → Type 0
  Answers params s (err e) = handle_ha_service_call call details params s ≡ (err e, s)
  Answers params s (ok c) =
      ((handle_ha_service_call call details params s).1
        ≡ (call c.blocking c.return_response (c.domain <> "." <> c.service) c.service_data s).1)
      × ((e : Exception)
          → is_home_assistant_error e ≡ true
          → (handle_ha_service_call call details params s).0 ≢ err e)
