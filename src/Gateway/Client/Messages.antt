-- ===== src/Gateway/Client/Messages.antt =====
-- gateway/client.py: `_handle_message` and `_listen`.
use staykey_ha_plugin.Prelude.{String, Bool, Option, none, some, List, [], ◌∷◌, map, if◌then◌else◌}
use staykey_ha_plugin.Python.Exec.{other_error, Exec, pure, raise, modify, ◌>>◌}
use staykey_ha_plugin.Python.Value.{Value, null, str, arr, obj, Fields, items, get, is_str, truthy}
use staykey_ha_plugin.DeviceMap.{Field, absent, text, Device, DeviceMap, load_sync, apply_update}
use staykey_ha_plugin.Gateway.Protocol.{Text, pong_message}
use staykey_ha_plugin.Gateway.Auth.{
  Received, invalid, value, Frame, text_frame, closed_frame, closing_frame, error_frame,
}
use staykey_ha_plugin.Gateway.Client.{
  Client, Delivery, handle_request_of, detect_drift_task, spawn, send,
}

-- A text or null as it is; what is neither counts as missing.
abbrev field_of : Option Value → Field
field_of (some (str s)) = text s
field_of (some null) = Field.null
field_of _ = absent

abbrev text_of : Option Value → Option String
text_of (some (str s)) = some s
text_of _ = none

abbrev unique_id_of : Option Value → Field
unique_id_of (some (obj p)) = field_of (get "unique_id" p)
unique_id_of _ = absent

-- What is no object raises where its ID is read, like an object without one. The gateway's IDs are
-- texts: an ID that is no text, such as a null, is read as a missing one here, where the source keeps
-- it as a key.
unfoldable pub device_of : Value → Device
device_of (obj d) = record {
  device_id = text_of (get "device_id" d);
  external_id = field_of (get "external_id" d);
  unique_id = unique_id_of (get "platform_identifiers" d);
}
device_of _ = record { device_id = none; external_id = absent; unique_id = absent }

-- What is no list raises in the loop over it, unless there is nothing to loop over.
unfoldable pub devices_of : Option Value → List Device
unfolding device_of truthy
devices_of none = []
devices_of (some (arr vs)) = map device_of (items vs)
devices_of (some null) = device_of null ∷ []
devices_of (some v) = if truthy v then device_of null ∷ [] else []

unfoldable pub device_given : Option Value → Option Device
unfolding device_of truthy
device_given none = none
device_given (some v) = if truthy v then some (device_of v) else none

unfoldable pub device_id_given : Option Value → Option String
unfolding truthy
device_id_given none = none
device_id_given (some v) = if truthy v then text_of (some v) else none

abbrev action_given : Option Value → String
action_given (some (str s)) = s
action_given _ = ""

module _ {W : Type 0} where
  -- A call of a method of the device map.
  unfoldable pub on_map : Exec DeviceMap (Unit {0}) → Exec (Client W) (Unit {0})
  on_map m c = let (r, d) = m c.device_map in (r, record c { device_map = d })

module _ {W : Type 0} (closed : W → Bool) (transmit : Text → W → Delivery × W) where
  unfoldable pub handle_object : Fields → Exec (Client W) (Unit {0})
  unfolding on_map devices_of device_given device_id_given send
  handle_object message =
      if is_str (get "type" message) "ping"
      then send closed transmit pong_message
      else if is_str (get "type" message) "request"
      then modify (spawn (handle_request_of message))
      else if is_str (get "type" message) "device_map_sync"
      then (do
        on_map (load_sync (devices_of (get "devices" message)))
        modify (spawn detect_drift_task))
      else if is_str (get "type" message) "device_map_update"
      then on_map (
          apply_update (action_given (get "action" message)) (device_given (get "device" message))
            (device_id_given (get "device_id" message)))
      else pure tt

  -- A JSON value that is no object has no method `get`.
  unfoldable pub handle_message : Received → Exec (Client W) (Unit {0})
  unfolding handle_object
  handle_message invalid = pure tt
  handle_message (value (obj message)) = handle_object message
  handle_message (value _) = raise (other_error "no attribute 'get'")

  -- `async for msg in self._ws`, over the messages that arrive until the link ends
  unfoldable pub listen : List Frame → Exec (Client W) (Unit {0})
  unfolding handle_message
  listen [] = pure tt
  listen (text_frame t ∷ frames) = do handle_message t; listen frames
  listen (closed_frame ∷ frames) = pure tt
  listen (closing_frame ∷ frames) = pure tt
  listen (error_frame ∷ frames) = pure tt
  listen (_ ∷ frames) = listen frames
