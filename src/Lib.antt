-- ===== src/Lib.antt =====
-- The Staykey integration for Home Assistant (custom_components/staykey).
--
-- A config entry runs one gateway client. The client keeps a WebSocket connection to the Staykey
-- gateway, hands the requests that arrive on it to a command handler, and pushes what happens in
-- Home Assistant. What cannot be pushed waits in a bounded queue. A device map, filled by the
-- gateway, says which Home Assistant entity stands for which Staykey device; listeners on the event
-- bus read it, and keep it up to date when entities are renamed. The command handler is a table of
-- handlers with a gate before it, and runs batches through itself. Handlers for locks call a
-- provider for the lock's protocol.
--
-- All paths below are under custom_components/staykey.
--
--   EventQueue     gateway/event_queue.py: the record `EventQueue` and its methods. A `deque` with a
--                  `maxlen` is a list that `append` trims at its front.
--   EventQueue/Interleaved   the same drain as a step relation, with calls of `enqueue` from other
--                  tasks while it waits for a send.
--   DeviceMap      device_map.py: the record `DeviceMap` with the two dictionaries and the index over
--                  unique IDs, and its methods. Dictionaries are association lists (Python/Dict).
--   Gateway.Protocol   gateway/protocol.py: the message builders. A text on the wire stands as the
--                  JSON object that it encodes (Python/Value).
--   Gateway.Auth   gateway/client.py: `_decode_object`, `_refusal`, `_classify_close`,
--                  `_authenticate`, `probe_token`.
--   Gateway.Client gateway/client.py: the record `Client` is the state of a `GatewayClient`, with
--                  `send` and the methods on top of it; below it, Messages has `_listen` and
--                  `_handle_message`, Connect has `_connect_and_auth`, `_connection_loop`
--                  and `_on_loop_done`, and Requests has `_handle_request` and `_detect_drift`.
--   StateFilter    state_filter.py.
--   ConfigFlow     config_flow.py: the user, options and reauth steps. ConfigFlow/Entries reads the
--                  entries' tokens.
--   Integration    __init__.py and events.py: the listeners on the event bus and their payloads;
--                  Integration/Setup has the setup, unloading and migration of an entry.
--   Commands       services/ha_bridge.py: `create_command_handler`; Commands/Batch is
--                  handlers/batch.py, with tasks that take turns in Commands/Batch/Concurrent, and
--                  `_handle_list_entities` stands in Handlers/Discovery.
--                  Commands/Table puts the handlers into the table of actions.
--   Providers      services/lock_provider.py and services/providers: the access codes on a lock.
--                  Providers/Zwave is zwave.py: `_set_and_verify_code`, `clear_code`, `read_codes`,
--                  over the slots that Providers/Slots parses, compares and sorts; its
--                  `get_node_info` is Providers/NodeInfo.
--                  Providers/Matter is matter.py, with Errors for how a failed call is put into
--                  words, Reports for payloads and results, Codes for `set_code`, `clear_code`,
--                  `read_codes`, `get_capabilities`, and Locked for the lock of an entity.
--                  Providers/Select is providers/__init__.py, and Providers/Laws what every provider
--                  promises.
--   Handlers       handlers/lock.py: Handlers/Params reads the parameters, Handlers/Locks has the
--                  handlers of access codes, Handlers/Waiting has `wait_for_state` of
--                  handlers/utils.py and the handlers that lock and unlock, Handlers/Devices has
--                  handlers/cover.py, handlers/switch.py and handlers/climate.py, Handlers/Reports
--                  has handlers/state.py, handlers/capability.py and handlers/diagnostics.py,
--                  Handlers/Discovery has handlers/device_discovery.py with
--                  lock_capability_heuristics.py in Handlers/Discovery/Capabilities, and
--                  Handlers/Passthrough is handlers/passthrough.py.
--   EventTap       handlers/event_tap.py: the limits of a tap, and which events it returns;
--                  EventTap/Parameters is what the parameters ask for, and
--                  EventTap/Serialized is how an event is rendered.
--   Python         dictionaries, JSON values, exceptions, integers, texts and coroutines of Python;
--                  Python/Object has `_make_serializable` of handlers/state.py and event_tap.py.
--   Tests          the results on concrete data.
--
-- A method that changes an object and may raise is a function from the state to a result and the
-- state after it (Python/Exec): what was written before a raise stays written.
--
-- The outside is an argument. A WebSocket link is a value of any type, with functions for whether it
-- is closed and for what sending a text on it does. What one pass of the connection loop meets (the
-- link or the exception of connecting, the answer to the token, the messages) is a record `Attempt`,
-- and the loop runs over a list of any length of them. The registries of Home Assistant are lists,
-- its services are functions on a state of any type, and times are counts of nanoseconds.
--
-- The one bound is that of `handle_command`, on how deep batches stand in batches; any bound above
-- the depth of the parameters is enough.
--
-- Not modelled: the cancellation of the loop's task, the logging, and the heartbeat of the WebSocket
-- library. JSON is taken as the value that a text encodes, since the text itself is the work of a
-- library. `resolve_device_by_identifiers` and `get_entity_details` of services/registry.py, which
-- nothing calls, and the index over device identifiers, which nothing reads, are left out. Device IDs
-- are taken to be texts: a message or a request with another value for one is read as if it had none.
mod Prelude
pub mod Python
pub mod EventQueue
pub mod DeviceMap
pub mod Gateway
pub mod StateFilter
pub mod Integration
pub mod Commands
pub mod ConfigFlow
pub mod Tests
pub mod Providers
pub mod Handlers
pub mod EventTap
