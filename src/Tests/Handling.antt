-- ===== src/Tests/Handling.antt =====
-- Commands for the locks of Tests/Codes (handlers, services/providers/__init__.py).
use staykey_ha_plugin.Prelude.{
  ℕ, ◌+◌, ◌*◌, String, ◌≡◌, ◌↔◌, ◌⊎◌, refl, true, some, none, [], ◌∷◌, Option, All,
}
use staykey_ha_plugin.Python.Dict.{lookup}
use staykey_ha_plugin.Python.Exec.{Exec, Result}
use staykey_ha_plugin.Python.Int.{pos}
use staykey_ha_plugin.Python.Value.{Value, int, str, Fields, end, field, get}
use staykey_ha_plugin.Providers.{LockProvider}
use staykey_ha_plugin.Providers.Select.{Registry, select_provider}
use staykey_ha_plugin.Handlers.Locks.{handle_clear_access_code}
use staykey_ha_plugin.Handlers.Locks.Cleared.{SaysCleared, handle_clear_access_code-SaysCleared}
use staykey_ha_plugin.Handlers.Devices.{EntityState}
use staykey_ha_plugin.Handlers.Reach.{device_handlers, unknown_answer, handle_unknown}
use staykey_ha_plugin.Handlers.Reports.{HassState}
use staykey_ha_plugin.Handlers.Waiting.{Watch, second, wait_for_state}
use staykey_ha_plugin.Handlers.Waiting.Pulses.{Reaches, wait_for_state-Reaches}
use staykey_ha_plugin.Tests.Codes
use staykey_ha_plugin.Tests.Devices.{one_lock}

abbrev registry : Registry
registry e = some (("matter" ∷ "n1" ∷ []) ∷ [])

abbrev no_node : String → Option Fields
no_node e = none

abbrev request : Fields
request = field "device_id" (str "d1") (field "slot" (int (pos 4)) end)

abbrev select : String → Result (LockProvider ℕ)
select e = select_provider Codes.matter no_node registry e

handle_clear_access_code-SaysCleared_example :
    SaysCleared
      (handle_clear_access_code
        (select_provider Codes.matter no_node registry)
        one_lock
        request
        0).0
handle_clear_access_code-SaysCleared_example =
    handle_clear_access_code-SaysCleared Codes.matter no_node registry one_lock request 0

-- It shows "unlocked", and "locked" after 7 seconds.
abbrev turning : Watch
turning = record {
  start = 0;
  initial = some "unlocked";
  polls =
      record { time = 0; state = some "unlocked"; now = 6 * second }
      ∷ record { time = 6 * second; state = some "locked"; now = 7 * second }
      ∷ [];
}

abbrev locked : String
locked = "locked"

wait_for_state-Reaches_example :
    ((wait_for_state true locked (15 * second) turning).1 ≡ locked)
    ↔ ((turning.initial ≡ some locked) ⊎ Reaches true locked (0 + 15 * second) turning.polls)
wait_for_state-Reaches_example = wait_for_state-Reaches true locked (15 * second) turning (λ e. cc)

abbrev watch : String → ℕ → Watch × ℕ
watch e n = (turning, n)

abbrev show_nothing : Value → String
show_nothing v = ""

abbrev stranger : Fields
stranger = field "device_id" (str "d9") (field "external_id" (str "lock.front") end)

abbrev read : String → ℕ → Option EntityState
read e n = none

abbrev look : String → ℕ → Option HassState
look e n = none

abbrev no_info : String → ℕ → Option Fields
no_info e n = none

handle_unknown_example :
    All
      (λ (handle : Fields → Exec ℕ Fields). handle stranger 0 ≡ unknown_answer stranger 0)
      (device_handlers Codes.matter watch read select show_nothing look no_info one_lock true)
unfolding lookup get
handle_unknown_example =
    handle_unknown Codes.matter watch read select show_nothing look no_info one_lock true stranger 0
      refl
