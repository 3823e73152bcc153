-- ===== src/Tests/Links.antt =====
-- A gateway client over links that hold the texts sent on them (gateway/client.py).
use staykey_ha_plugin.Prelude.{
  ◌≡◌, ◌↔◌, refl, Bool, true, false, Option, none, some, List, [], ◌∷◌, arith, String, inr,
}
use staykey_ha_plugin.Python.Exec.{Exception, other_error, Exec, ok, err}
use staykey_ha_plugin.Python.Value.{Value, null, str, obj, Fields, end, field}
use staykey_ha_plugin.EventQueue
use staykey_ha_plugin.Gateway.Protocol.{Text, pong_message}
use staykey_ha_plugin.Gateway.Auth.{
  auth_invalid, timeout, frame, close_frame, text_frame, value, authenticate, probe_token,
}
use staykey_ha_plugin.Gateway.Auth.Verdict.{BlamesToken, probe_token-invalid_iff}
use staykey_ha_plugin.Gateway.Client.{
  Client, Delivery, delivered, lost, send, drain_queue, new_client,
}
use staykey_ha_plugin.Gateway.Client.Connect.{Config, Attempt, connect_and_auth, connection_loop}
use staykey_ha_plugin.Gateway.Client.Backoff.{doubled, connection_loop-doubled}
use staykey_ha_plugin.Gateway.Client.Prompts.{IsPrompted, connection_loop-IsPrompted}
use staykey_ha_plugin.Gateway.Client.Replay.{
  push_all, transmit_all, drain_queue-push_all, drain_queue-loses,
}
use staykey_ha_plugin.Gateway.Client.Requests.{Entry, handle_request, detect_drift}
use staykey_ha_plugin.Gateway.Client.Requests.Replies.{
  asked, asked_with, reply_to, NeverFails, handle_request-replies,
}
use staykey_ha_plugin.Gateway.Client.Requests.Renames.{detect_drift-IsSound}
use staykey_ha_plugin.DeviceMap.Reverse.{IsSound}
use staykey_ha_plugin.Tests.Devices.{one_lock, one_lock-IsExact}

abbrev pub Link : Type 0
Link = List Text

abbrev pub never_closed : Link → Bool
never_closed w = false

abbrev pub keep : Text → Link → Delivery × Link
keep m w = (delivered, m ∷ w)

abbrev lose : Text → Link → Delivery × Link
lose m w = (lost (other_error "reset"), w)

abbrev entry_config : Config
entry_config = record {
  gateway_token = "t";
  agent_version = "1.0";
  ha_version = "2026.1";
  instance_id = none;
  has_entry = true;
}

abbrev pub idle : Client Link
idle = record {
  running = true;
  ws = none;
  auth_outcome = none;
  token_rejected = false;
  event_queue = record { queue = []; maxlen = 2; dropped = 0 };
  device_map = one_lock;
  backoff = 2;
  tasks = [];
  title = "Home";
  prompts_asked = 0;
  prompts_closed = 0;
}

abbrev refused_attempt : Attempt Link
refused_attempt = record {
  link = ok [];
  answer = frame (close_frame 1008 (value null));
  now = 0;
  frames = [];
}

abbrev away_attempt : Attempt Link
away_attempt = record { link = err (other_error "refused"); answer = timeout; now = 0; frames = [] }

abbrev good_attempt : Attempt Link
good_attempt = record {
  link = ok [];
  answer = frame (text_frame (value (obj (field "type" (str "auth_ok") end))));
  now = 0;
  frames = [];
}

abbrev no_exception : Option Exception
no_exception = none

probe_token-invalid_iff_example :
    (probe_token no_exception no_exception (frame (close_frame 1008 (value null))) ≡ auth_invalid)
    ↔ ((no_exception ≡ none)
        × (no_exception ≡ none)
        × BlamesToken (frame (close_frame 1008 (value null))))
probe_token-invalid_iff_example =
    probe_token-invalid_iff no_exception no_exception (frame (close_frame 1008 (value null)))

connection_loop-doubled_example :
    (connection_loop entry_config never_closed keep (away_attempt ∷ refused_attempt ∷ []) idle).0
    ≡ doubled entry_config never_closed keep 0 2
unfolding connect_and_auth authenticate
connection_loop-doubled_example =
    connection_loop-doubled entry_config never_closed keep (away_attempt ∷ refused_attempt ∷ [])
      idle refl (λ c. refl, (λ c. refl, tt))

connection_loop-IsPrompted_example :
    IsPrompted
      (connection_loop entry_config never_closed keep (refused_attempt ∷ good_attempt ∷ []) idle).1
connection_loop-IsPrompted_example =
    connection_loop-IsPrompted entry_config never_closed keep (refused_attempt ∷ good_attempt ∷ [])
      idle refl refl

-- A link that is shut, or that is open and holds what was sent on it.
abbrev Line : Type 0
Line = Option Link

abbrev shut : Line → Bool
shut none = true
shut (some w) = false

abbrev hold : Text → Line → Delivery × Line
hold m none = (lost (other_error "shut"), none)
hold m (some w) = (delivered, some (m ∷ w))

hold-stays : (m : Text) (w : Line) → shut w ≡ false → shut (hold m w).1 ≡ false
hold-stays m none h = h
hold-stays m (some w) h = h

hold-delivers : (m : Text) (w : Line) → shut w ≡ false → (hold m w).0 ≡ delivered
hold-delivers m none h = cc
hold-delivers m (some w) h = refl

-- The client still has the link that was shut.
abbrev cut_off : Client Line
cut_off = record (new_client "Staykey") { ws = some none }

abbrev alert : Text
alert = field "type" (str "event_push") end

drain_queue-push_all_example :
    let c =
      drain_queue shut hold 9
        (record (push_all shut hold ((7, alert) ∷ (8, pong_message) ∷ []) cut_off) {
          ws = some (some []);
        }) in
    (c.ws ≡ some (transmit_all shut hold (alert ∷ pong_message ∷ []) (some [])))
    × (c.event_queue.queue ≡ [])
unfolding new_client EventQueue.new
drain_queue-push_all_example =
    drain_queue-push_all shut hold (record { stays = hold-stays; delivers = hold-delivers }) 9
      ((7, alert) ∷ (8, pong_message) ∷ []) cut_off (some []) (inr (none, refl, refl)) refl refl
      (omega arith) (omega arith, (omega arith, tt))

drain_queue-loses_example :
    (drain_queue never_closed lose 9 (record idle {
      ws = some [];
      event_queue = record { queue = (7, alert) ∷ []; maxlen = 2; dropped = 0 };
    })).event_queue.queue
    ≡ []
drain_queue-loses_example =
    drain_queue-loses never_closed lose (λ m w. (other_error "reset", refl)) 9
      (record idle {
        ws = some [];
        event_queue = record { queue = (7, alert) ∷ []; maxlen = 2; dropped = 0 };
      })

-- A command handler that answers every request with its ID.
abbrev echo : String → String → Value → Exec (Client Link) Value
echo action request_id params c = (ok (str request_id), c)

keep-NeverFails : NeverFails never_closed keep echo
unfolding send
keep-NeverFails m c = ground arith

abbrev request : Fields
request = field "id" (str "7") (field "action" (str "lock") end)

handle_request-replies_example :
    let (r, c) = echo (asked "action" request) (asked "id" request) (asked_with request) idle in
    handle_request never_closed keep echo request idle
    ≡ send never_closed keep (reply_to (asked "id" request) r) c
handle_request-replies_example =
    handle_request-replies never_closed keep echo keep-NeverFails request idle

abbrev registry : List Entry
registry = record { entity_id = "lock.other"; unique_id = "z1" } ∷ []

detect_drift-IsSound_example : IsSound (detect_drift never_closed keep 3 registry idle).1.device_map
detect_drift-IsSound_example =
    detect_drift-IsSound never_closed keep 3 registry idle one_lock-IsExact.sound
