-- ===== src/Gateway/Client/Requests.antt =====
-- gateway/client.py: the tasks `_handle_request` and `_detect_drift`; services/registry.py.
pub mod Replies
pub mod Renames
use staykey_ha_plugin.Prelude.{
  ℕ, String, Bool, true, false, not, ◌&&◌, Option, none, some, List, [], ◌∷◌, ◌==◌, if◌then◌else◌,
}
use staykey_ha_plugin.Python.Exec.{
  Exception, Exec, Result, ok, err, pure, raise, exception_text, modify, ◌>>=◌, ◌>>◌,
}
use staykey_ha_plugin.Python.Value.{Value, null, str, obj, Fields, end, field, get}
use staykey_ha_plugin.DeviceMap.{
  Field, absent, text, Device, DeviceMap, or_empty, get_device_info, tracked_device_ids,
  update_entity_id,
}
use staykey_ha_plugin.Gateway.Protocol.{Text, response_message}
use staykey_ha_plugin.Gateway.Client.{
  Client, Delivery, send, send_health_alert, send_entity_id_changed,
}

-- `message.get(key, "")`, for a key that holds a text
abbrev pub text_at : String → Fields → String
text_at key message = elim (get key message) [ some (str s) ↦ s | _ ↦ "" ]

-- `message.get("params", {})`
abbrev pub params_of : Fields → Value
params_of message = elim (get "params" message) [ none ↦ obj end | some v ↦ v ]

abbrev pub error_reply : String → Exception → Text
error_reply request_id e =
    response_message request_id "error" none (
      some
        (obj (field "code" (str "handler_error") (field "message" (str (exception_text e)) end))))

abbrev pub ok_reply : String → Value → Text
ok_reply request_id result = response_message request_id "ok" (some result) none

-- An entry of Home Assistant's entity registry.
pub record Entry : Type 0 where
  pub entity_id : String
  pub unique_id : String

unfoldable pub resolve_entity_by_unique_id : List Entry → String → Option String
resolve_entity_by_unique_id [] unique_id = none
resolve_entity_by_unique_id (entry ∷ entries) unique_id =
    if entry.unique_id == unique_id
    then some entry.entity_id
    else resolve_entity_by_unique_id entries unique_id

-- `entity_reg.async_get(entity_id)` finds something
unfoldable pub is_registered : List Entry → String → Bool
is_registered [] entity_id = false
is_registered (entry ∷ entries) entity_id =
    if entry.entity_id == entity_id then true else is_registered entries entity_id

-- `d.get(key, default)`
abbrev value_or : Value → Field → Value
value_or default absent = default
value_or default Field.null = null
value_or default (text s) = str s

-- What `_detect_drift` does about one device.
pub data Drift : Type 0 where
  in_place : Drift
  renamed : String → Drift
  missing : Drift

-- `resolved and resolved != external_id`
abbrev drift_to : String → Option String → Drift
drift_to external_id none = missing
drift_to external_id (some r) =
    if r == "" then missing else if r == external_id then missing else renamed r

unfoldable pub drift_of : List Entry → Device → Drift
unfolding is_registered resolve_entity_by_unique_id
drift_of entries info =
    let external_id = or_empty info.external_id in
    let unique_id = or_empty info.unique_id in
    if not (external_id == "") && is_registered entries external_id
    then in_place
    else if unique_id == ""
    then missing
    else drift_to external_id (resolve_entity_by_unique_id entries unique_id)

module _ {W : Type 0} (closed : W → Bool) (transmit : Text → W → Delivery × W) where
  module _ (command_handler : String → String → Value → Exec (Client W) Value) where
    -- the `except` clause
    abbrev or_error : String → Result (Unit {0}) × Client W → Result (Unit {0}) × Client W
    or_error request_id (ok _, c) = (ok tt, c)
    or_error request_id (err e, c) = send closed transmit (error_reply request_id e) c

    unfoldable pub handle_request : Fields → Exec (Client W) (Unit {0})
    handle_request message c =
        let request_id = text_at "id" message in
        or_error request_id (
          (do
            result ← command_handler (text_at "action" message) request_id (params_of message)
            send closed transmit (ok_reply request_id result))
            c)

  -- `now` is the time at which an alert is stamped if it is queued.
  module _ (now : ℕ) (entries : List Entry) where
    abbrev not_found : String → Device → Value
    not_found device_id info = obj (
        field "device_id" (str device_id) (
          field "external_id" (value_or (str "") info.external_id)
            (field "unique_id" (value_or null info.unique_id) end)))

    -- An external ID that is null counts as "" in the message about a rename.
    unfoldable pub act_on : String → Device → Drift → Exec (Client W) (Unit {0})
    act_on device_id info in_place = pure tt
    act_on device_id info (renamed r) = do
      modify (λ c. record c {
        device_map = update_entity_id device_id (or_empty info.external_id) r c.device_map;
      })
      send_entity_id_changed closed transmit device_id (or_empty info.external_id) r
    act_on device_id info missing =
        send_health_alert closed transmit now "entity_not_found" (not_found device_id info)

    unfoldable pub check_device : String → Exec (Client W) (Unit {0})
    check_device device_id c = elim (get_device_info device_id c.device_map) [
      | none ↦ (ok tt, c)
      | some info ↦ act_on device_id info (drift_of entries info) c
    ]

    unfoldable pub check_devices : List String → Exec (Client W) (Unit {0})
    check_devices [] = pure tt
    check_devices (d ∷ ds) = do check_device d; check_devices ds

    unfoldable pub detect_drift : Exec (Client W) (Unit {0})
    detect_drift c = check_devices (tracked_device_ids c.device_map) c
