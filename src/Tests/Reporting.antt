-- ===== src/Tests/Reporting.antt =====
-- Two entities, a service call and JSON data (handlers), and a queue that overflows during a send
-- (gateway/event_queue.py).
use staykey_ha_plugin.Prelude.{
  ◌++◌, ℕ, ◌+◌, String, ◌≡◌, refl, Bool, false, Option, none, some, List, [], ◌∷◌, map, arith,
}
use staykey_ha_plugin.Python.Exec.{Exception, Exec, ok, err, home_assistant_error}
use staykey_ha_plugin.Python.Int.{pos}
use staykey_ha_plugin.Python.Value.{
  Value, null, int, str, arr, obj, nil, cons, Fields, end, field, get, of_items,
}
use staykey_ha_plugin.Handlers.Discovery.{
  RegistryEntry, DeviceEntry, domains_in, handle_discover_devices,
}
use staykey_ha_plugin.Handlers.Discovery.Reported.{
  chosen, reported, handle_discover_devices-reported,
}
use staykey_ha_plugin.Handlers.Passthrough.{Details}
use staykey_ha_plugin.Handlers.Passthrough.Answers.{Answers}
use staykey_ha_plugin.EventQueue.{enqueue}
use staykey_ha_plugin.EventQueue.Interleaved.{
  Flight, Step, Run, start, next, push, begin, finish, pushing, finishing,
}
use staykey_ha_plugin.EventQueue.Interleaved.Order.{taken, messages, Run-order, overflow-loses}

abbrev lock_entry : RegistryEntry
lock_entry = record {
  entity_id = "lock.front";
  domain = "lock";
  disabled = false;
  name = none;
  original_name = some "Front door";
  unique_id = "u1";
  device_id = some "dev1";
}

abbrev fan_entry : RegistryEntry
fan_entry = record {
  entity_id = "fan.hall";
  domain = "fan";
  disabled = false;
  name = none;
  original_name = none;
  unique_id = "u2";
  device_id = none;
}

abbrev device_reg : String → Option DeviceEntry
device_reg id = some (record {
  name_by_user = none;
  name = some "Lock";
  manufacturer = some "Yale";
  model = none;
  area_id = none;
  identifiers = ("zwave_js" ∷ "1-2" ∷ []) ∷ [];
})

abbrev states : String → Option Fields
states e = some (field "supported_features" (int (pos 1)) end)

abbrev entries : List RegistryEntry
entries = lock_entry ∷ fan_entry ∷ []

handle_discover_devices-reported_example :
    handle_discover_devices device_reg states entries end
    ≡ ok (
        field "devices"
          (arr (of_items (map obj (map (reported device_reg states) (chosen [] entries)))))
          end)
unfolding domains_in get
handle_discover_devices-reported_example =
    handle_discover_devices-reported device_reg states entries end [] refl

-- {"a": [1, "b"], "c": null}
abbrev json : Value
json = obj (field "a" (arr (cons (int (pos 1)) (cons (str "b") nil))) (field "c" null end))

-- A service that fails, and counts the calls.
abbrev call : Bool → Bool → String → Fields → Exec ℕ Value
call blocking return_response name d n = (err (home_assistant_error "no such lock" none), n + 1)

abbrev details : Exception → Details
details e = record {
  type_name = "HomeAssistantError";
  translation_domain = null;
  translation_key = null;
  translation_placeholders = null;
}

abbrev request : Fields
request = field "domain" (str "lock") (field "service" (str "lock") end)

-- Two messages in a queue for two, the first being sent.
abbrev full_queue : Flight String
full_queue = record {
  queue = record { queue = (1, "a") ∷ (2, "b") ∷ []; maxlen = 2; dropped = 0 };
  sending = some "a";
  handled = [];
  pushed = "a" ∷ "b" ∷ [];
}

overflow-loses_example :
    (after : Flight String) × Step (pushing 3 "c" full_queue) after
    × (taken after.handled ≡ "a" ∷ [])
    × (messages after.queue.queue ≡ "c" ∷ [])
overflow-loses_example = overflow-loses full_queue "a" "b" "c" 1 2 3 [] refl refl refl

abbrev empty_queue : Flight String
empty_queue = record {
  queue = record { queue = []; maxlen = 2; dropped = 0 };
  sending = none;
  handled = [];
  pushed = [];
}

-- "b" comes in while "a" is being sent.
abbrev at_send : Flight String
at_send = record (pushing 5 "a" empty_queue) { sending = some "a" }

abbrev sent_run : Run 2 (finishing "a" ((6, "b") ∷ []) (pushing 6 "b" at_send))
unfolding enqueue
sent_run =
    next
      (next (next (next {s = empty_queue} start (push 5 "a")) (begin 5 5 "a" [] refl refl refl))
        (push 6 "b"))
      (finish "a" (5, "a") ((6, "b") ∷ []) refl refl)

Run-order_example :
    taken (finishing "a" ((6, "b") ∷ []) (pushing 6 "b" at_send)).handled ++ "b" ∷ []
    ≡ "a" ∷ "b" ∷ []
unfolding enqueue
Run-order_example = Run-order sent_run ((((tt, omega arith), tt), omega arith), tt)
