-- ===== src/Tests/Taps.antt =====
-- A tap of at most two events (handlers/event_tap.py).
use staykey_ha_plugin.Prelude.{String, Option, none, List, [], ◌∷◌}
use staykey_ha_plugin.Python.Int.{pos}
use staykey_ha_plugin.Python.Value.{int, str, Fields, field, end}
use staykey_ha_plugin.EventTap.{Number}

abbrev no_floats : String → Option Number
no_floats s = none

abbrev fired : Option (List String) → List Fields
fired types =
    field "event_type" (str "a") end
    ∷ field "event_type" (str "b") end
    ∷ field "event_type" (str "c") end
    ∷ []

abbrev params : Fields
params = field "max_events" (int (pos 2)) end
