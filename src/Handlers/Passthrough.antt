-- ===== src/Handlers/Passthrough.antt =====
-- handlers/passthrough.py: any service call of Home Assistant, for support. `call` is
-- `hass.services.async_call` with `blocking` and `return_response`; `details` is what an exception
-- holds besides its text.
pub mod Answers
use staykey_ha_plugin.Prelude.{String, Bool, true, false, Option, none, some, ◌==◌, if◌then◌else◌}
use staykey_ha_plugin.Python.Exec.{
  Exception, value_error, exception_text, Result, ok, err, Exec, ◌<>◌,
}
use staykey_ha_plugin.Python.Value.{Value, null, bool, str, obj, Fields, end, field, get, truthy}
use staykey_ha_plugin.Providers.{Services}
use staykey_ha_plugin.Providers.Matter.Errors.{is_home_assistant_error}

-- The name of an exception's class and its translation; placeholders that are no dictionary are null.
pub record Details : Type 0 where
  pub type_name : String
  pub translation_domain : Value
  pub translation_key : Value
  pub translation_placeholders : Value

-- What a request asks for.
pub record ServiceCall : Type 0 where
  pub domain : String
  pub service : String
  pub service_data : Fields
  pub return_response : Bool
  pub blocking : Bool

-- a text that is not empty
abbrev required_text : Option Value → Option String
required_text (some (str s)) = if s == "" then none else some s
required_text _ = none

-- `params.get("service_data") or {}`, where it is an object
unfoldable pub service_data_in : Option Value → Option Fields
unfolding truthy
service_data_in none = some end
service_data_in (some (obj d)) = some d
service_data_in (some v) = if truthy v then none else some end

-- `params.get(key, True)`, as a test
unfoldable pub flag_in : String → Fields → Bool
unfolding truthy
flag_in key params = elim (get key params) [ none ↦ true | some v ↦ truthy v ]

abbrev refused : String → Result ServiceCall
refused message = err (value_error ("ha_service_call: " <> message))

unfoldable pub service_call_in : Fields → Result ServiceCall
unfolding service_data_in flag_in
service_call_in params = elim (required_text (get "domain" params)) [
  | none ↦ refused "'domain' is required"
  | some domain ↦ elim (required_text (get "service" params)) [
    | none ↦ refused "'service' is required"
    | some service ↦ elim (service_data_in (get "service_data" params)) [
      | none ↦ refused "'service_data' must be an object"
      | some service_data ↦ ok (record {
        domain = domain;
        service = service;
        service_data = service_data;
        return_response = flag_in "return_response" params;
        blocking = flag_in "blocking" params;
      })
    ]
  ]
]

abbrev error_object : (Exception → Details) → Exception → Fields
error_object details e = field "type" (str (details e).type_name) (
    field "message" (str (exception_text e)) (
      field "translation_domain" (details e).translation_domain (
        field "translation_key" (details e).translation_key
          (field "translation_placeholders" (details e).translation_placeholders end))))

abbrev pub failure : (Exception → Details) → ServiceCall → Exception → Fields
failure details c e = field "domain" (str c.domain) (
    field "service" (str c.service) (
      field "service_data" (obj c.service_data)
        (field "response" null (field "error" (obj (error_object details e)) end))))

abbrev pub success : ServiceCall → Value → Fields
success c response = field "domain" (str c.domain) (
    field "service" (str c.service)
      (field "service_data" (obj c.service_data) (field "response" response end)))

module _ {S : Type 0} (call : Bool → Bool → Services S) (details : Exception → Details) where
  abbrev answer : ServiceCall → Result Value → Result Fields
  answer c (ok response) = ok (success c (if c.return_response then response else null))
  answer c (err e) = if is_home_assistant_error e then ok (failure details c e) else err e

  unfoldable pub perform : ServiceCall → Exec S Fields
  perform c s =
      let (r, s') =
        call c.blocking c.return_response (c.domain <> "." <> c.service) c.service_data s in
      (answer c r, s')

  unfoldable pub handle_ha_service_call : Fields → Exec S Fields
  unfolding perform
  handle_ha_service_call params s = elim (service_call_in params) [
    | err e ↦ (err e, s)
    | ok c ↦ perform c s
  ]
