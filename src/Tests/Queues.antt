-- ===== src/Tests/Queues.antt =====
-- The buffer of gateway/event_queue.py with 2 places.
use staykey_ha_plugin.Prelude.{
  ℕ, ◌-◌, ◌≡◌, Bool, List, [], ◌∷◌, ◌++◌, length, drop, arith, String, ◌==◌, not,
}
use staykey_ha_plugin.EventQueue.{EventQueue, size, drain}
use staykey_ha_plugin.EventQueue.Bounds.{IsBounded, enqueue_all, queue-enqueue_all}
use staykey_ha_plugin.EventQueue.Drain.{IsDrained, drain-IsDrained}

abbrev two_places : EventQueue String
two_places = record { queue = (1, "a") ∷ []; maxlen = 2; dropped = 0 }

abbrev three_messages : List (ℕ × String)
three_messages = (2, "b") ∷ (3, "c") ∷ (4, "d") ∷ []

two_places-IsBounded : IsBounded two_places
unfolding size
two_places-IsBounded = omega arith

queue-enqueue_all_example :
    (enqueue_all three_messages two_places).queue
    ≡ drop (length (two_places.queue ++ three_messages) - 2) (two_places.queue ++ three_messages)
queue-enqueue_all_example = queue-enqueue_all three_messages two_places two_places-IsBounded

-- A sender that keeps what it sent and fails on "c".
abbrev send_all_but_c : String → List String → Bool × List String
send_all_but_c m sent = (not (m == "c"), m ∷ sent)

drain-IsDrained_example :
    IsDrained send_all_but_c 5
      (record { queue = three_messages; maxlen = 2; dropped = 1 })
      []
      (drain send_all_but_c 5 (record { queue = three_messages; maxlen = 2; dropped = 1 }) [])
drain-IsDrained_example =
    drain-IsDrained send_all_but_c 5 (record { queue = three_messages; maxlen = 2; dropped = 1 }) []
