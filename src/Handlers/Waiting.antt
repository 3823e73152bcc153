-- ===== src/Handlers/Waiting.antt =====
-- handlers/utils.py: `wait_for_state`, and `handle_lock` and `handle_unlock` of handlers/lock.py,
-- which wait for the lock. Times are counts of nanoseconds.
pub mod Pulses
use staykey_ha_plugin.Prelude.{
  ℕ, ◌+◌, ◌*◌, ◌-◌, ◌^◌, String, Bool, true, false, ◌&&◌, Option, none, some, List, [], ◌∷◌, ltb,
  leb, ◌==◌, if◌then◌else◌,
}
use staykey_ha_plugin.Python.Exec.{Result, ok, err, Exec, pure, ◌>>=◌, ◌>>◌}
use staykey_ha_plugin.Python.Value.{Value, str, Fields, end, field, get, put, truthy}
use staykey_ha_plugin.DeviceMap.{DeviceMap}
use staykey_ha_plugin.Providers.{Services}
use staykey_ha_plugin.Handlers.Params.{resolve_entity_id}
use staykey_ha_plugin.Handlers.Locks.{lift}

-- What one pass of the loop meets: the time at its test, the entity's state after the pause, if there
-- is one, and the time then.
pub record Poll : Type 0 where
  pub time : ℕ
  pub state : Option String
  pub now : ℕ

abbrev pub second : ℕ
second = 10 ^ 9

-- `PULSE_INTERVAL_S`
abbrev pub pulse_interval : ℕ
pulse_interval = 5 * second

abbrev pub state_or_unknown : Option String → String
state_or_unknown none = "unknown"
state_or_unknown (some s) = s

-- `state_obj and state_obj.state == target_state`
abbrev pub is_at : String → Option String → Bool
is_at target none = false
is_at target (some s) = s == target

-- The pulses sent, each with its time, and the result. `progress` is whether there is a `progress_fn`;
-- the list holds the passes that the loop comes to.
unfoldable pub wait_loop :
    Bool → String → ℕ → ℕ → Option String → List Poll → List (ℕ × String) × String
wait_loop progress target deadline last_pulse state [] = ([], state_or_unknown state)
wait_loop progress target deadline last_pulse state (p ∷ polls) =
    let quiet = wait_loop progress target deadline last_pulse p.state polls in
    let (pulses, result) = wait_loop progress target deadline p.now p.state polls in
    if ltb p.time deadline
    then (if is_at target p.state
        then ([], target)
        else if progress && leb pulse_interval (p.now - last_pulse)
        then ((p.now, state_or_unknown p.state) ∷ pulses, result)
        else quiet)
    else ([], state_or_unknown state)

-- What the entity shows from a start on.
pub record Watch : Type 0 where
  pub start : ℕ
  pub initial : Option String
  pub polls : List Poll

unfoldable pub wait_for_state : Bool → String → ℕ → Watch → List (ℕ × String) × String
unfolding wait_loop
wait_for_state progress target timeout w =
    if is_at target w.initial
    then ([], target)
    else wait_loop progress target (w.start + timeout) w.start w.initial w.polls

-- `_LOCK_STATE_TIMEOUT`
abbrev pub lock_state_timeout : ℕ
lock_state_timeout = 15 * second

abbrev remote : String → Fields
remote status = field "state" (str status) (field "method" (str "remote") end)

abbrev with_code : Option Value → Fields → Fields
with_code none d = d
with_code (some code) d = if truthy code then put "code" code d else d

-- `watch` is what an entity shows after the service call.
module _ {S : Type 0} (call : Services S) (watch : String → S → Watch × S)
    (device_map : DeviceMap) where
  unfoldable pub await_state : Bool → String → String → Exec S Fields
  await_state progress entity_id target s =
      let (w, s') = watch entity_id s in
      (ok (remote (wait_for_state progress target lock_state_timeout w).1), s')

  unfoldable pub handle_lock : Bool → Fields → Exec S Fields
  unfolding await_state
  handle_lock progress params = do
    entity_id ← lift (resolve_entity_id device_map params)
    call "lock.lock" (field "entity_id" (str entity_id) end)
    await_state progress entity_id "locked"

  unfoldable pub handle_unlock : Bool → Fields → Exec S Fields
  unfolding await_state truthy
  handle_unlock progress params = do
    entity_id ← lift (resolve_entity_id device_map params)
    call "lock.unlock" (with_code (get "code" params) (field "entity_id" (str entity_id) end))
    await_state progress entity_id "unlocked"
