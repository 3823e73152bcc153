-- ===== src/Handlers/Devices.antt =====
-- handlers/cover.py, handlers/switch.py and handlers/climate.py.
use staykey_ha_plugin.Prelude.{ℕ, ◌*◌, String, Bool, Option, none, some, if◌then◌else◌}
use staykey_ha_plugin.Python.Exec.{Result, ok, err, value_error, Exec, ◌>>=◌, ◌>>◌, ◌<>◌}
use staykey_ha_plugin.Python.Value.{
  Value, null, str, arr, nil, Fields, end, field, get, put, truthy,
}
use staykey_ha_plugin.StateFilter.{before_dot}
use staykey_ha_plugin.DeviceMap.{DeviceMap}
use staykey_ha_plugin.Providers.{Services}
use staykey_ha_plugin.Handlers.Params.{resolve_entity_id}
use staykey_ha_plugin.Handlers.Locks.{lift}
use staykey_ha_plugin.Handlers.Waiting.{Watch, second, wait_for_state}

-- A state that Home Assistant holds for an entity.
pub record EntityState : Type 0 where
  pub state : String
  pub attributes : Fields

-- `state.state if state else default`
abbrev state_or : String → Option EntityState → String
state_or default none = default
state_or default (some s) = s.state

-- `_COVER_STATE_TIMEOUT`
abbrev pub cover_state_timeout : ℕ
cover_state_timeout = 30 * second

abbrev entity_data : String → Fields
entity_data entity_id = field "entity_id" (str entity_id) end

abbrev cover_result : String → String → String → Fields
cover_result entity_id action state =
    field "entity_id" (str entity_id) (field "action" (str action) (field "state" (str state) end))

-- `_extract_domain`
unfoldable pub extract_domain : String → String
unfolding before_dot
extract_domain entity_id = elim (before_dot entity_id) [ none ↦ "light" | some domain ↦ domain ]

abbrev put_given : String → Option Value → Fields → Fields
put_given key none d = d
put_given key (some null) d = d
put_given key (some v) d = put key v d

-- `attrs.get(key, default)`
abbrev attribute : Value → String → Option EntityState → Value
attribute default key none = default
attribute default key (some s) = elim (get key s.attributes) [ none ↦ default | some v ↦ v ]

-- `_build_climate_result`
unfoldable pub build_climate_result : Option EntityState → String → String → Fields
build_climate_result state entity_id action = field "entity_id" (str entity_id) (
    field "action" (str action) (
      field "status" (str (state_or "unknown" state)) (
        field "current_temperature" (attribute null "current_temperature" state) (
          field "target_temperature" (attribute null "temperature" state) (
            field "target_temperature_high" (attribute null "target_temp_high" state) (
              field "target_temperature_low" (attribute null "target_temp_low" state)
                (field "hvac_modes" (attribute (arr nil) "hvac_modes" state) end)))))))

abbrev temperature_data : String → Fields → Fields
temperature_data entity_id params =
    put_given "target_temp_high" (get "target_temperature_high" params) (
      put_given "target_temp_low" (get "target_temperature_low" params)
        (put_given "temperature" (get "target_temperature" params) (entity_data entity_id)))

abbrev mode_missing : Result Value
mode_missing = err (value_error "hvac_mode is required")

unfoldable pub hvac_mode_in : Fields → Result Value
unfolding truthy
hvac_mode_in params = elim (get "hvac_mode" params) [
  | none ↦ mode_missing
  | some mode ↦ if truthy mode then ok mode else mode_missing
]

-- `watch` is what an entity shows after a service call, and `read` its state at one moment.
module _ {S : Type 0} (call : Services S) (watch : String → S → Watch × S)
    (read : String → S → Option EntityState) (device_map : DeviceMap) where
  unfoldable pub await_cover : Bool → String → String → String → Exec S Fields
  await_cover progress entity_id action target s =
      let (w, s') = watch entity_id s in
      (
        ok (cover_result entity_id action (wait_for_state progress target cover_state_timeout w).1),
        s',
      )

  unfoldable pub handle_open_cover : Bool → Fields → Exec S Fields
  unfolding await_cover
  handle_open_cover progress params = do
    entity_id ← lift (resolve_entity_id device_map params)
    call "cover.open_cover" (entity_data entity_id)
    await_cover progress entity_id "open_cover" "open"

  unfoldable pub handle_close_cover : Bool → Fields → Exec S Fields
  unfolding await_cover
  handle_close_cover progress params = do
    entity_id ← lift (resolve_entity_id device_map params)
    call "cover.close_cover" (entity_data entity_id)
    await_cover progress entity_id "close_cover" "closed"

  -- an answer made of the entity's state at this moment
  abbrev answer : (Option EntityState → Fields) → String → Exec S Fields
  answer f entity_id s = (ok (f (read entity_id s)), s)

  unfoldable pub handle_stop_cover : Fields → Exec S Fields
  handle_stop_cover params = do
    entity_id ← lift (resolve_entity_id device_map params)
    call "cover.stop_cover" (entity_data entity_id)
    answer (λ state. cover_result entity_id "stop_cover" (state_or "unknown" state)) entity_id

  unfoldable pub handle_turn_on : Fields → Exec S Fields
  unfolding extract_domain
  handle_turn_on params = do
    entity_id ← lift (resolve_entity_id device_map params)
    call (extract_domain entity_id <> ".turn_on") (entity_data entity_id)
    answer (λ state. field "state" (str (state_or "on" state)) end) entity_id

  unfoldable pub handle_turn_off : Fields → Exec S Fields
  unfolding extract_domain
  handle_turn_off params = do
    entity_id ← lift (resolve_entity_id device_map params)
    call (extract_domain entity_id <> ".turn_off") (entity_data entity_id)
    answer (λ state. field "state" (str (state_or "off" state)) end) entity_id

  unfoldable pub handle_set_temperature : Fields → Exec S Fields
  unfolding build_climate_result
  handle_set_temperature params = do
    entity_id ← lift (resolve_entity_id device_map params)
    call "climate.set_temperature" (temperature_data entity_id params)
    answer (λ state. build_climate_result state entity_id "set_temperature") entity_id

  unfoldable pub handle_set_hvac_mode : Fields → Exec S Fields
  unfolding build_climate_result hvac_mode_in
  handle_set_hvac_mode params = do
    entity_id ← lift (resolve_entity_id device_map params)
    mode ← lift (hvac_mode_in params)
    call "climate.set_hvac_mode" (put "hvac_mode" mode (entity_data entity_id))
    answer (λ state. put "hvac_mode" mode (build_climate_result state entity_id "set_hvac_mode"))
        entity_id
