-- ===== src/Gateway/Client/Connect.antt =====
-- gateway/client.py: `_connect_and_auth`, `_token_refused`, `_token_accepted` and the passes of
-- `_connection_loop`.
use staykey_ha_plugin.Prelude.{
  ℕ, ◌+◌, ◌*◌, min, String, Bool, true, false, Option, none, some, List, [], ◌∷◌, ◌==◌,
  if◌then◌else◌,
}
use staykey_ha_plugin.Python.Exec.{Exception, Result, Exec, ok, err, pure, ◌>>=◌, ◌>>◌}
use staykey_ha_plugin.Python.Int.{pos}
use staykey_ha_plugin.Python.Value.{Value, str, get}
use staykey_ha_plugin.DeviceMap.{tracked_device_ids}
use staykey_ha_plugin.Gateway.Protocol.{Text, auth_message, capabilities_message}
use staykey_ha_plugin.Gateway.Auth.{
  Outcome, auth_ok, auth_invalid, auth_cannot_connect, AuthResult, Answer, Frame, authenticate,
}
use staykey_ha_plugin.Gateway.Client.{
  Client, Delivery, delivered, lost, failed, initial_backoff, max_backoff, close_ws, drain_queue,
}
use staykey_ha_plugin.Gateway.Client.Messages.{listen}

-- What `GatewayClient` is made with and never changes.
pub record Config : Type 0 where
  pub gateway_token : String
  pub agent_version : String
  pub ha_version : String
  pub instance_id : Option String
  -- whether there is a config entry
  pub has_entry : Bool

abbrev pub gateway_features : List String
gateway_features =
    "lock_control" ∷ "access_code_management" ∷ "zwave_code_slots" ∷ "state_streaming"
    ∷ "device_discovery" ∷ "capability_discovery" ∷ "health_monitoring" ∷ "diagnostics"
    ∷ "batch_operations" ∷ "raw_device_events" ∷ []

-- What the outside does in one pass of the loop: the link that `ws_connect` returns, or its
-- exception; the answer to the token; the time at which the queue is drained; and the messages that
-- arrive before the link ends.
pub record Attempt (W : Type 0) : Type 0 where
  pub link : Result W
  pub answer : Answer
  pub now : ℕ
  pub frames : List Frame

-- How the task of the loop ends: it is cancelled, an exception leaves it, or it returns.
pub data LoopEnd : Type 0 where
  cancelled : LoopEnd
  crashed : Exception → LoopEnd
  exited : LoopEnd

abbrev pub is_cancelled : LoopEnd → Bool
is_cancelled cancelled = true
is_cancelled _ = false

abbrev pub is_ok : Outcome → Bool
is_ok auth_ok = true
is_ok _ = false

abbrev pub is_invalid : Option Outcome → Bool
is_invalid (some auth_invalid) = true
is_invalid _ = false

-- The exception that reaches the caller of `ws.send_str`.
abbrev exception_of : Delivery → Option Exception
exception_of delivered = none
exception_of (lost e) = some e
exception_of (failed e) = some e

module _ {W : Type 0} (config : Config) where
  -- A new title is a text; the message comes from the gateway, which sends texts there.
  unfoldable pub update_title : Option Value → Client W → Client W
  update_title (some (str name)) c =
      if name == ""
      then c
      else if config.has_entry
      then (if name == c.title then c else record c { title = name })
      else c
  update_title _ c = c

  unfoldable pub token_refused : Client W → Client W
  token_refused c = if c.token_rejected then c else record c {
    token_rejected = true;
    prompts_asked = if config.has_entry then c.prompts_asked + 1 else c.prompts_asked;
  }

  unfoldable pub token_accepted : Client W → Client W
  token_accepted c =
      if c.token_rejected
      then record c {
        token_rejected = false;
        prompts_closed = if config.has_entry then c.prompts_closed + 1 else c.prompts_closed;
      }
      else c

  module _ (transmit : Text → W → Delivery × W) where
    -- `self._ws.send_str(…)` on a fresh link
    unfoldable pub send_str : Text → W → Exec (Client W) (Unit {0})
    send_str message w c =
        let (d, w') = transmit message w in
        let c' = record c { ws = some w' } in
        elim (exception_of d) [ none ↦ (ok tt, c') | some e ↦ (err e, c') ]

    abbrev capabilities : Client W → Text
    capabilities c =
        capabilities_message config.agent_version config.ha_version (pos 1) gateway_features []
          (tracked_device_ids c.device_map) config.instance_id

    -- the end of `_connect_and_auth`, once the token check gave a result over the link `w`
    unfoldable pub after_check : W → AuthResult → Exec (Client W) Bool
    unfolding update_title send_str close_ws
    after_check w result c =
        let c' = record c { auth_outcome = some result.outcome } in
        if is_ok result.outcome
        then (let titled = update_title (get "property_name" result.response) c' in
            (do send_str (capabilities titled) w; pure true) titled)
        else (ok false, close_ws c')

    unfoldable pub connect_and_auth : Attempt W → Exec (Client W) Bool
    unfolding after_check close_ws
    connect_and_auth a c =
        let fresh = record (close_ws c) { auth_outcome = none } in
        elim a.link [
          | err e ↦ (ok false, record fresh { auth_outcome = some auth_cannot_connect })
          | ok w ↦
              let (d, w') = transmit (auth_message config.gateway_token) w in
              let opened = record fresh { ws = some w' } in
              elim (authenticate (exception_of d) a.answer) [
                | err e ↦ (err e, opened)
                | ok result ↦ after_check w' result opened
              ]
        ]

  module _ (closed : W → Bool) (transmit : Text → W → Delivery × W) where
    -- the part of a pass after `_connect_and_auth`
    unfoldable pub after_connect : Attempt W → Bool → Exec (Client W) (Unit {0})
    unfolding token_refused token_accepted
    after_connect a true c =
        let accepted = token_accepted (record c { backoff = initial_backoff }) in
        listen closed transmit a.frames (drain_queue closed transmit a.now accepted)
    after_connect a false c = (ok tt, if is_invalid c.auth_outcome then token_refused c else c)

    -- the body of the `try`
    unfoldable pub connect_and_listen : Attempt W → Exec (Client W) (Unit {0})
    connect_and_listen a = do up ← connect_and_auth transmit a; after_connect a up

    -- One pass: an exception is logged, the link is closed, and the result is the pause before the
    -- next pass, or none where the client has been stopped meanwhile.
    unfoldable pub pass : Attempt W → Client W → Option ℕ × Client W
    unfolding close_ws
    pass a c =
        let (r, c') = connect_and_listen a c in
        let c'' = close_ws c' in
        if c''.running
        then (some c''.backoff, record c'' { backoff = min (c''.backoff * 2) max_backoff })
        else (none, c'')

    -- `_connection_loop` over the attempts that the outside makes possible: the pauses it sleeps.
    unfoldable pub loop : List (Attempt W) → Client W → List ℕ × Client W
    loop [] c = ([], c)
    loop (a ∷ attempts) c =
        let (pause, c') = pass a c in
        let (pauses, c'') = loop attempts c' in
        elim pause [ none ↦ ([], c') | some d ↦ (d ∷ pauses, c'') ]

    -- the local `backoff` starts anew with every run of the loop
    unfoldable pub connection_loop : List (Attempt W) → Client W → List ℕ × Client W
    connection_loop attempts c =
        let started = record c { backoff = initial_backoff } in
        if c.running then loop attempts started else ([], started)

    -- `_on_loop_done`: a loop that ends although the client runs, and that was not cancelled, is
    -- followed by a new one, over the attempts that come then.
    unfoldable pub on_loop_done : LoopEnd → List (Attempt W) → Client W → List ℕ × Client W
    unfolding connection_loop
    on_loop_done ended_by attempts c =
        if c.running
        then (if is_cancelled ended_by then ([], c) else connection_loop attempts c)
        else ([], c)

-- `start`: the loop begins as a task of its own.
unfoldable pub start : {W : Type 0} → Client W → Client W
start c = record c { running = true }
