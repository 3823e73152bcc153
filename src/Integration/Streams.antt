-- ===== src/Integration/Streams.antt =====
-- What a state change leads to (__init__.py).
use staykey_ha_plugin.Prelude.{
  ℕ, ◌*◌, ◌^◌, leb, String, ◌≡◌, ◌≢◌, refl, ap, ◌∙◌, Bool, true, false, Option, none, some, List,
  [], ◌∷◌, arith, eq_iff, if◌then◌else◌, ◌++◌, map, Option-cases, inl, inr,
}
use staykey_ha_plugin.Python.Exec.{ok}
use staykey_ha_plugin.Python.Int.{pos, negsuc}
use staykey_ha_plugin.Python.Value.{
  Value, null, bool, int, float, str, arr, obj, Fields, end, field, get, put,
}
use staykey_ha_plugin.Python.Dict.{contains}
use staykey_ha_plugin.DeviceMap.{is_tracked, get_device_id}
use staykey_ha_plugin.StateFilter.{should_forward_state}
use staykey_ha_plugin.EventQueue.Bounds.{enqueue_all}
use staykey_ha_plugin.Gateway.Protocol.{Text, health_alert_message, state_update_message}
use staykey_ha_plugin.Gateway.Client.{
  Client, Delivery, connected, send_or_queue, send_state_update, send_health_alert,
}
use staykey_ha_plugin.Integration.{
  State, StateEvent, is_low, state_update_payload, alert_if_low, forward, handle_tracked,
  handle_state_changed,
}

is_tracked-get_device_id :
    {W : Type 0} (e d : String) (c : Client W)
    → get_device_id e c.device_map ≡ some d
    → is_tracked e c.device_map ≡ true
unfolding is_tracked get_device_id contains
is_tracked-get_device_id e d c h = ground (arith, h)

-- `s` as a list of at most one message
abbrev when : Bool → Text → List Text
when b m = if b then m ∷ [] else []

-- A number of at most 15: a fraction m / 2^e is, if m is at most 15 * 2^e. True and false are 1 and 0.
abbrev pub at_most_15 : Value → Bool
at_most_15 (bool b) = true
at_most_15 (int (pos n)) = leb n 15
at_most_15 (int (negsuc n)) = true
at_most_15 (float (pos m) e) = leb m (15 * 2 ^ e)
at_most_15 (float (negsuc m) e) = true
at_most_15 _ = false

is_low-at_most_15 : (v : Value) → is_low v ≡ at_most_15 v
unfolding is_low
is_low-at_most_15 null = refl
is_low-at_most_15 (bool b) = refl
is_low-at_most_15 (int (pos n)) = refl
is_low-at_most_15 (int (negsuc n)) = refl
is_low-at_most_15 (float (pos m) e) = refl
is_low-at_most_15 (float (negsuc m) e) = refl
is_low-at_most_15 (str s) = refl
is_low-at_most_15 (arr vs) = refl
is_low-at_most_15 (obj d) = refl

-- The message about a low battery, and the one about a new state.
abbrev pub low_battery : String → Value → Text
low_battery d level = field "type" (str "health_alert") (
    field "alert_type" (str "low_battery")
      (field "data" (obj (field "device_id" (str d) (field "battery_level" level end))) end))

abbrev pub new_state_data : String → State → Fields → Fields
new_state_data uuid s rest = field "state" (str s.state) (
    field "last_changed" s.last_changed
      (field "event_id" (str uuid) (field "context_id" s.context_id rest)))

abbrev pub state_message : String → String → State → Text
state_message uuid d s = field "type" (str "state_update") (
    field "device_id" (str d) (
      field "data"
        (obj (
          new_state_data uuid s (elim (get "battery_level" s.attributes) [
            | none ↦ end
            | some level ↦ field "battery_level" level end
          ])))
        end))

state_message-is :
    (uuid d : String) (s : State)
    → state_update_message d (state_update_payload uuid s) ≡ state_message uuid d s
unfolding state_update_message state_update_payload put
state_message-is uuid d s = elim (Option-cases (get "battery_level" s.attributes)) [
  | inl missing ↦ rw (missing, state_update_payload, state_update_message) refl
  | inr (level, given) ↦ rw (given, state_update_payload, state_update_message) refl
]

abbrev alerts : String → Option Value → List Text
alerts d none = []
alerts d (some b) = when (at_most_15 b) (low_battery d b)

abbrev updates : String → String → String → State → Option State → List Text
updates uuid d entity_id new_state none = []
updates uuid d entity_id new_state (some old_state) =
    when (should_forward_state entity_id new_state.state (some old_state.state))
      (state_message uuid d new_state)

-- The messages that a state change of a device is to send: first an alert if its battery is low, then
-- the new state if it is to be forwarded.
abbrev pub messages : String → String → StateEvent → List Text
messages uuid d event = elim event.new_state [
  | none ↦ []
  | some s ↦
      alerts d (get "battery_level" s.attributes)
      ++ updates uuid d event.entity_id s event.old_state
]

module _ {W : Type 0} (closed : W → Bool) (transmit : Text → W → Delivery × W) (now : ℕ) where
  abbrev Queues : Client W → List Text → Client W
  Queues c ms = record c { event_queue = enqueue_all (map (λ m. (now, m)) ms) c.event_queue }

  alert_if_low-offline :
      (d : String) (b : Option Value) (c : Client W)
      → connected closed c ≡ false
      → alert_if_low closed transmit now d b c ≡ (ok tt, Queues c (alerts d b))
  unfolding alert_if_low send_health_alert send_or_queue health_alert_message
  alert_if_low-offline d none c off = refl
  alert_if_low-offline d (some b) c off = ground (arith, off, is_low-at_most_15 b)

  forward-offline :
      (uuid d e : String) (s : State) (o : Option State) (c : Client W)
      → connected closed c ≡ false
      → forward closed transmit now uuid d e s o c ≡ (ok tt, Queues c (updates uuid d e s o))
  unfolding forward send_state_update send_or_queue
  forward-offline uuid d e s none c off = refl
  forward-offline uuid d e s (some o) c off = ground (arith, off, state_message-is uuid d s)

  Queues-append : (c : Client W) (ms ns : List Text) → Queues (Queues c ms) ns ≡ Queues c (ms ++ ns)
  Queues-append c [] ns = refl
  Queues-append c (m ∷ ms) ns = Queues-append (Queues c (m ∷ [])) ms ns

  connected-Queues :
      (c : Client W) (ms : List Text) → connected closed (Queues c ms) ≡ connected closed c
  unfolding connected
  connected-Queues c ms = refl

  handle_tracked-offline :
      (uuid d : String) (event : StateEvent) (c : Client W)
      → connected closed c ≡ false
      → handle_tracked closed transmit now uuid d event c
        ≡ (ok tt, Queues c (messages uuid d event))
  unfolding handle_tracked
  handle_tracked-offline uuid d event c off = elim (Option-cases event.new_state) [
    | inl gone ↦ rw gone refl
    | inr (s, is) ↦ rw is (
        let b = get "battery_level" s.attributes in
        rw (alert_if_low-offline d b c off) (
          rw
            (forward-offline uuid d event.entity_id s event.old_state (Queues c (alerts d b))
              (connected-Queues c (alerts d b) ∙ off))
            (ap (λ x. (ok tt, x))
              (Queues-append c (alerts d b) (updates uuid d event.entity_id s event.old_state)))))
  ]

  -- While there is no connection, a state change of a device's entity queues exactly its messages, in
  -- their order: an alert if the battery level that came with it is at most 15, though the state may
  -- be the same or the entity new, then the state if there was one before and the filter lets it by.
  pub handle_state_changed-offline :
      (uuid d : String) (event : StateEvent) (c : Client W)
      → connected closed c ≡ false
      → get_device_id event.entity_id c.device_map ≡ some d
      → d ≢ ""
      → handle_state_changed closed transmit now uuid event c ≡ (
        ok tt,
        record c {
          event_queue = enqueue_all (map (λ m. (now, m)) (messages uuid d event)) c.event_queue;
        },
      )
  unfolding handle_state_changed
  handle_state_changed-offline uuid d event c off listed real = ground (
    arith,
    is_tracked-get_device_id event.entity_id d c listed,
    listed,
    eq_iff d "",
    handle_tracked-offline uuid d event c off,
  )
