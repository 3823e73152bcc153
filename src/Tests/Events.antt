-- ===== src/Tests/Events.antt =====
-- Events of Home Assistant for a map of one lock (__init__.py, state_filter.py).
use Prim.Native.String
use staykey_ha_plugin.Prelude.{String, ◌≡◌, ◌≢◌, ◌↔◌, ◌⊎◌, refl, map, true, Option, some, arith}
use staykey_ha_plugin.Python.Dict.{lookup}
use staykey_ha_plugin.Python.Exec.{ok}
use staykey_ha_plugin.Python.Int.{pos}
use staykey_ha_plugin.Python.Value.{null, int, field, end}
use staykey_ha_plugin.StateFilter.{should_forward_state}
use staykey_ha_plugin.StateFilter.Decision.{should_forward_state_iff}
use staykey_ha_plugin.EventQueue.Bounds.{enqueue_all}
use staykey_ha_plugin.DeviceMap.{get_device_id}
use staykey_ha_plugin.DeviceMap.Reverse.{IsSound}
use staykey_ha_plugin.Gateway.Client.{connected}
use staykey_ha_plugin.Integration.{
  State, StateEvent, handle_state_changed, handle_entity_registry_updated,
}
use staykey_ha_plugin.Integration.Streams.{messages, handle_state_changed-offline}
use staykey_ha_plugin.Integration.Renames.{handle_entity_registry_updated-IsSound}
use staykey_ha_plugin.Tests.Devices.{one_lock-IsExact}
use staykey_ha_plugin.Tests.Links.{never_closed, keep, idle}

abbrev kind : String
kind = "cover"

abbrev now : String
now = "opening"

abbrev previously : Option String
previously = some "closed"

should_forward_state_iff_example :
    (should_forward_state (String.◌++◌ kind (String.◌++◌ "." "garage")) now previously ≡ true)
    ↔ ((previously ≢ some "opening") × (kind ≡ "cover" → (now ≡ "open") ⊎ (now ≡ "closed")))
should_forward_state_iff_example =
    should_forward_state_iff kind "garage" now previously
      (omega arith, (omega arith, (omega arith, (omega arith, (omega arith, tt)))))

abbrev locked : State
locked = record {
  state = "locked";
  attributes = field "battery_level" (int (pos 9)) end;
  last_changed = null;
  context_id = null;
}

abbrev unlocked : State
unlocked = record { state = "unlocked"; attributes = end; last_changed = null; context_id = null }

abbrev front_locked : StateEvent
front_locked = record {
  entity_id = "lock.front";
  new_state = some locked;
  old_state = some unlocked;
}

handle_state_changed-offline_example :
    handle_state_changed never_closed keep 5 "u" front_locked idle ≡ (
      ok tt,
      record idle {
        event_queue =
            enqueue_all (map (λ m. (5, m)) (messages "u" "d1" front_locked)) idle.event_queue;
      },
    )
unfolding connected get_device_id lookup
handle_state_changed-offline_example =
    handle_state_changed-offline never_closed keep 5 "u" "d1" front_locked idle refl refl (λ e. cc)

abbrev lamp_on : StateEvent
lamp_on = record { entity_id = "light.lamp"; new_state = some locked; old_state = some unlocked }

handle_entity_registry_updated-IsSound_example :
    IsSound
      (handle_entity_registry_updated never_closed keep 5 "update" "lock.front" "lock.side"
        idle).1.device_map
handle_entity_registry_updated-IsSound_example =
    handle_entity_registry_updated-IsSound never_closed keep 5 "update" "lock.front" "lock.side"
      idle one_lock-IsExact.sound
