-- ===== src/Gateway/Client.antt =====
-- gateway/client.py, `GatewayClient`: one connection to the gateway, its state and its methods. The
-- WebSocket library and the clock are not part of the program: a link is a value of any type `W`,
-- with functions that say whether it is closed, what sending a text on it does, and what closing it
-- leaves.
pub mod Connect
pub mod Messages
pub mod Requests
pub mod Keeps
pub mod Backoff
pub mod Prompts
pub mod Replay
use staykey_ha_plugin.Prelude.{
  ℕ, String, Bool, true, false, not, Option, none, some, List, [], ◌∷◌, ◌++◌, if◌then◌else◌,
}
use staykey_ha_plugin.Python.Exec.{Exception, Exec, ok, err, pure, raise, modify, ◌>>=◌, ◌>>◌}
use staykey_ha_plugin.Python.Value.{Value, Fields}
use staykey_ha_plugin.EventQueue
use staykey_ha_plugin.EventQueue.{EventQueue, max_queue_size, enqueue, drain, size}
use staykey_ha_plugin.DeviceMap
use staykey_ha_plugin.DeviceMap.{DeviceMap}
use staykey_ha_plugin.Gateway.Protocol.{
  Text, event_push_message, state_update_message, health_alert_message, entity_id_changed_message,
}
use staykey_ha_plugin.Gateway.Auth.{Outcome}

-- How `ws.send_str` ends: sent, a lost connection (`ConnectionResetError` or `ClientError`), or
-- another exception.
pub data Delivery : Type 0 where
  delivered : Delivery
  lost : Exception → Delivery
  failed : Exception → Delivery

-- The coroutines that `asyncio.create_task` starts.
pub data Task : Type 0 where
  handle_request_of : Fields → Task
  detect_drift_task : Task

-- The fields of `GatewayClient` that change, and `backoff` of `_connection_loop`. `title` and the
-- two counts are Home Assistant's side of the config entry: its title, how often a prompt for a new
-- token was asked for, and how often the open prompts were closed.
pub record Client (W : Type 0) : Type 0 where
  pub running : Bool
  pub ws : Option W
  pub auth_outcome : Option Outcome
  pub token_rejected : Bool
  pub event_queue : EventQueue Text
  pub device_map : DeviceMap
  pub backoff : ℕ
  pub tasks : List Task
  pub title : String
  pub prompts_asked : ℕ
  pub prompts_closed : ℕ

abbrev pub initial_backoff : ℕ
initial_backoff = 2

abbrev pub max_backoff : ℕ
max_backoff = 300

module _ {W : Type 0} where
  -- `GatewayClient(…)`, for an entry with this title
  unfoldable pub new_client : String → Client W
  unfolding EventQueue.new DeviceMap.new
  new_client title = record {
    running = false;
    ws = none;
    auth_outcome = none;
    token_rejected = false;
    event_queue = EventQueue.new max_queue_size;
    device_map = DeviceMap.new;
    backoff = initial_backoff;
    tasks = [];
    title = title;
    prompts_asked = 0;
    prompts_closed = 0;
  }

  unfoldable pub spawn : Task → Client W → Client W
  spawn t c = record c { tasks = c.tasks ++ t ∷ [] }

module _ {W : Type 0} (closed : W → Bool) where
  unfoldable pub connected : Client W → Bool
  connected c = elim c.ws [ none ↦ false | some w ↦ not (closed w) ]

module _ {W : Type 0} where
  -- The link that is closed, or that could not be, is given up either way.
  unfoldable pub close_ws : Client W → Client W
  close_ws c = record c { ws = none }

  -- The cancellation of the two tasks is the end of the run of `_connection_loop`.
  unfoldable pub stop : Client W → Client W
  unfolding close_ws
  stop c = close_ws (record c { running = false })

module _ {W : Type 0} (closed : W → Bool) (transmit : Text → W → Delivery × W) where
  abbrev after_transmit : Delivery × W → Exec (Client W) (Unit {0})
  after_transmit (delivered, w) c = (ok tt, record c { ws = some w })
  after_transmit (lost e, w) c = (ok tt, record c { ws = some w })
  after_transmit (failed e, w) c = (err e, record c { ws = some w })

  unfoldable pub send : Text → Exec (Client W) (Unit {0})
  send message c = elim c.ws [
    | none ↦ (ok tt, c)
    | some w ↦ if closed w then (ok tt, c) else after_transmit (transmit message w) c
  ]

  -- `now` is the time at which a queued message is stamped.
  unfoldable pub send_or_queue : ℕ → Text → Exec (Client W) (Unit {0})
  unfolding connected send
  send_or_queue now message c =
      if connected closed c
      then send message c
      else (ok tt, record c { event_queue = enqueue now message c.event_queue })

  unfoldable pub send_event : ℕ → String → Value → Exec (Client W) (Unit {0})
  unfolding send_or_queue
  send_event now event_type payload = send_or_queue now (event_push_message event_type payload)

  unfoldable pub send_state_update : ℕ → String → Value → Exec (Client W) (Unit {0})
  unfolding send_or_queue
  send_state_update now device_id payload =
      send_or_queue now (state_update_message device_id payload)

  unfoldable pub send_health_alert : ℕ → String → Value → Exec (Client W) (Unit {0})
  unfolding send_or_queue
  send_health_alert now alert_type payload =
      send_or_queue now (health_alert_message alert_type payload)

  unfoldable pub send_entity_id_changed : String → String → String → Exec (Client W) (Unit {0})
  unfolding send
  send_entity_id_changed device_id old_id new_id =
      send (entity_id_changed_message device_id old_id new_id)

  -- `self.send` as the send function of `drain`, on the link alone: whether it returned.
  abbrev succeeded : Delivery × W → Bool × Option W
  succeeded (delivered, w) = (true, some w)
  succeeded (lost e, w) = (true, some w)
  succeeded (failed e, w) = (false, some w)

  unfoldable pub send_on : Text → Option W → Bool × Option W
  send_on message none = (true, none)
  send_on message (some w) = if closed w then (true, some w) else succeeded (transmit message w)

  -- `if self._event_queue.size > 0: await self._event_queue.drain(self.send)`; nothing else touches
  -- the queue meanwhile.
  unfoldable pub drain_queue : ℕ → Client W → Client W
  unfolding send_on
  drain_queue now c = elim c.event_queue.queue [
    | [] ↦ c
    | _ ∷ _ ↦
        let (sent, q, link) = drain send_on now c.event_queue c.ws in
        record c { event_queue = q; ws = link }
  ]
