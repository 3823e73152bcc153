-- ===== src/Gateway/Protocol.antt =====
-- gateway/protocol.py: the messages, as the JSON objects that `encode` writes and `decode` reads.
-- A text on the wire stands as the object that it encodes.
use staykey_ha_plugin.Prelude.{String, Option, none, some, List, map, ◌==◌, if◌then◌else◌}
use staykey_ha_plugin.Python.Int.{ℤ}
use staykey_ha_plugin.Python.Value.{Value, null, int, str, arr, Fields, end, field, of_items, put}

-- What is sent: an encoded object.
abbrev pub Text : Type 0
Text = Fields

abbrev strs : List String → Value
strs ss = arr (of_items (map str ss))

unfoldable pub auth_message : String → Text
auth_message token = field "type" (str "auth") (field "token" (str token) end)

-- The lists are those given, or empty where none is; `instance_id` is left out where it is none or
-- empty.
unfoldable pub capabilities_message :
    String → String → ℤ → List String → List String → List String → Option String → Text
capabilities_message agent_version ha_version protocol_version features platforms tracked
      instance_id =
    let msg = field "type" (str "capabilities") (
      field "agent_version" (str agent_version) (
        field "ha_version" (str ha_version) (
          field "protocol_version" (int protocol_version) (
            field "features" (strs features) (
              field "platforms" (strs platforms)
                (field "tracked_devices" (strs tracked) end)))))) in
    elim instance_id [
      | none ↦ msg
      | some i ↦ if i == "" then msg else put "instance_id" (str i) msg
    ]

-- `data` is none or null for `None`, and `error` is none.
unfoldable pub response_message : String → String → Option Value → Option Value → Text
response_message request_id status data' error =
    let msg =
      field "type" (str "response")
        (field "id" (str request_id) (field "status" (str status) end)) in
    let with_data : Text = elim data' [
      | none ↦ msg
      | some null ↦ msg
      | some d ↦ if status == "ok" then put "data" d msg else msg
    ] in
    elim error [
      | none ↦ with_data
      | some e ↦ if status == "error" then put "error" e with_data else with_data
    ]

unfoldable pub event_push_message : String → Value → Text
event_push_message event_type payload =
    field "type" (str "event_push") (field "event_type" (str event_type) (field "data" payload end))

unfoldable pub state_update_message : String → Value → Text
state_update_message device_id payload =
    field "type" (str "state_update") (field "device_id" (str device_id) (field "data" payload end))

unfoldable pub health_alert_message : String → Value → Text
health_alert_message alert_type payload =
    field "type" (str "health_alert")
      (field "alert_type" (str alert_type) (field "data" payload end))

unfoldable pub entity_id_changed_message : String → String → String → Text
entity_id_changed_message device_id old_external_id new_external_id =
    field "type" (str "entity_id_changed") (
      field "device_id" (str device_id) (
        field "old_external_id" (str old_external_id)
          (field "new_external_id" (str new_external_id) end)))

unfoldable pub progress_message : String → String → Text
progress_message request_id current_state =
    field "type" (str "progress")
      (field "id" (str request_id) (field "state" (str current_state) end))

unfoldable pub pong_message : Text
pong_message = field "type" (str "pong") end
