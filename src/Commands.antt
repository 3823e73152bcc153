-- ===== src/Commands.antt =====
-- services/ha_bridge.py and handlers/batch.py: the dispatcher of commands. The handlers that it calls
-- are an argument, a function from the handler's name and the command's parameters.
pub mod Batch
pub mod Support
pub mod Fuel
pub mod Table
use staykey_ha_plugin.Prelude.{
  ℕ, zero, suc, String, Bool, true, false, not, ◌&&◌, ◌||◌, Option, none, some, List, [], ◌∷◌, ◌==◌,
  if◌then◌else◌,
}
use staykey_ha_plugin.Python.Exec.{
  Exception, value_error, other_error, support_action_disabled, Exec, Result, ok, err, ◌<>◌,
}
use staykey_ha_plugin.Python.Value.{Value, Fields}
use staykey_ha_plugin.Commands.Batch.{Run, returned, handle_batch}

-- The values of `_ACTION_MAP`, and the two handlers that take no device map.
pub data Handler : Type 0 where
  handle_lock handle_unlock handle_set_access_code handle_clear_access_code handle_read_codes :
      Handler
  handle_get_state handle_get_capabilities handle_get_diagnostics : Handler
  handle_open_cover handle_close_cover handle_stop_cover handle_turn_on handle_turn_off : Handler
  handle_set_temperature handle_set_hvac_mode handle_ha_service_call handle_tap_events : Handler
  handle_discover_devices handle_list_entities : Handler

-- What a handler is called with: its parameters, and whether it is given `progress_fn`.
pub record Call : Type 0 where
  pub handler : Handler
  pub params : Value
  pub progress : Bool

abbrev action_table : List (String × Handler)
action_table =
    ("lock", handle_lock)
    ∷ ("unlock", handle_unlock)
    ∷ ("set_access_code", handle_set_access_code)
    ∷ ("set_lock_access_code", handle_set_access_code)
    ∷ ("clear_access_code", handle_clear_access_code)
    ∷ ("clear_lock_access_code", handle_clear_access_code)
    ∷ ("get_access_codes", handle_read_codes)
    ∷ ("get_lock_access_codes", handle_read_codes)
    ∷ ("get_state", handle_get_state)
    ∷ ("get_capabilities", handle_get_capabilities)
    ∷ ("get_diagnostics", handle_get_diagnostics)
    ∷ ("open_cover", handle_open_cover)
    ∷ ("close_cover", handle_close_cover)
    ∷ ("stop_cover", handle_stop_cover)
    ∷ ("turn_on", handle_turn_on)
    ∷ ("turn_off", handle_turn_off)
    ∷ ("set_temperature", handle_set_temperature)
    ∷ ("set_hvac_mode", handle_set_hvac_mode)
    ∷ ("ha_service_call", handle_ha_service_call)
    ∷ ("tap_events", handle_tap_events)
    ∷ []

-- `_ACTION_MAP.get(action)`
unfoldable pub find_action : String → List (String × Handler) → Option Handler
find_action action [] = none
find_action action ((name, h) ∷ table) = if name == action then some h else find_action action table

unfoldable pub is_one_of : String → List String → Bool
is_one_of action [] = false
is_one_of action (name ∷ names) = if name == action then true else is_one_of action names

abbrev pub progress_actions : List String
progress_actions = "lock" ∷ "unlock" ∷ "open_cover" ∷ "close_cover" ∷ []

abbrev pub support_actions : List String
support_actions =
    "batch" ∷ "clear_access_code" ∷ "discover_devices" ∷ "get_access_codes"
    ∷ "get_lock_access_codes" ∷ "ha_service_call" ∷ "set_access_code" ∷ "tap_events" ∷ []

-- What an action leads to: a handler, a batch, or no known command.
pub data Route : Type 0 where
  to_handler : Handler → Route
  to_batch unknown : Route

abbrev other_route : String → Route
other_route action =
    if action == "discover_devices"
    then to_handler handle_discover_devices
    else if action == "list_entities"
    then to_handler handle_list_entities
    else if action == "batch"
    then to_batch
    else unknown

unfoldable pub route : String → Route
route action = elim (find_action action action_table) [
  | some h ↦ to_handler h
  | none ↦ other_route action
]

module _ {S : Type 0} (run : Call → Exec S Value) (allow_support_actions : Bool) where
  -- `handle_command`. The first argument bounds how deep batches stand in batches; the second says
  -- whether there is a `progress_fn`, which a batch does not pass on.
  unfoldable pub handle_command : ℕ → Bool → String → Value → Run S Value
  handle_command zero progress action params s = (some (err (other_error "too deep")), s)
  handle_command (suc n) progress action params s =
      if is_one_of action support_actions && not allow_support_actions
      then (some (err (support_action_disabled action)), s)
      else elim (route action) [
        | to_handler h ↦ returned (
            run
              (record {
                handler = h;
                params = params;
                progress = progress && is_one_of action progress_actions;
              })
              s)
        | to_batch ↦ handle_batch (handle_command n false) params s
        | unknown ↦ (some (err (value_error ("Unknown action: " <> action))), s)
      ]
