-- ===== src/Gateway/Auth.antt =====
-- gateway/client.py, the token check: `_refusal`, `_classify_close`, `_authenticate`, `probe_token`.
pub mod Verdict
use staykey_ha_plugin.Prelude.{
  ℕ, String, Bool, true, false, Option, none, some, List, [], ◌∷◌, ◌==◌, eqb, if◌then◌else◌,
}
use staykey_ha_plugin.Python.Exec.{Exception, Result, ok, err}
use staykey_ha_plugin.Python.Value.{Value, str, obj, Fields, end, get, is_str, or_else}
use staykey_ha_plugin.Gateway.Protocol.{Text, auth_message}

pub data Outcome : Type 0 where
  auth_ok auth_invalid auth_integration_disabled auth_cannot_connect : Outcome

abbrev pub refused_close_code : ℕ
refused_close_code = 1008

abbrev pub invalid_token_message : String
invalid_token_message = "Invalid token"

abbrev pub integration_disabled_message : String
integration_disabled_message = "Integration is disabled"

-- Why a token was not accepted, for the log: one constructor for each text.
pub data Reason : Type 0 where
  nothing : Reason
  told : Value → Reason
  closed_with_code : ℕ → Reason
  refused closed no_response unreadable unexpected_frame : Reason
  unexpected_type : Option Value → Reason

pub record AuthResult : Type 0 where
  pub outcome : Outcome
  pub message : Reason
  pub response : Fields

-- What `json.loads` makes of a received text.
pub data Received : Type 0 where
  invalid : Received
  value : Value → Received

-- A message of the WebSocket library.
pub data Frame : Type 0 where
  text_frame : Received → Frame
  -- the close code, and the reason's text
  close_frame : ℕ → Received → Frame
  closed_frame closing_frame error_frame other_frame : Frame

unfoldable pub decode_object : Received → Option Fields
decode_object (value (obj d)) = some d
decode_object _ = none

abbrev pub refuse : Outcome → Reason → AuthResult
refuse o m = record { outcome = o; message = m; response = end }

-- The message is a text, or another value that `str` renders as no text tested for here.
unfoldable pub refusal : Value → AuthResult
refusal message =
    if is_str (some message) invalid_token_message
    then refuse auth_invalid (told message)
    else if is_str (some message) integration_disabled_message
    then refuse auth_integration_disabled (told message)
    else refuse auth_cannot_connect (told message)

-- `detail.get("message") or "unknown error"`
abbrev message_of : Fields → Value
message_of d = or_else (get "message" d) (str "unknown error")

unfoldable pub classify_close : ℕ → Received → AuthResult
unfolding decode_object refusal
classify_close code reason =
    if eqb code refused_close_code
    then elim (decode_object reason) [
      | none ↦ refuse auth_invalid refused
      | some detail ↦
          if is_str (get "type" detail) "auth_failed"
          then refusal (message_of detail)
          else refuse auth_cannot_connect closed
    ]
    else refuse auth_cannot_connect (closed_with_code code)

abbrev classify_object : Fields → AuthResult
classify_object response =
    if is_str (get "type" response) "auth_ok"
    then record { outcome = auth_ok; message = nothing; response = response }
    else if is_str (get "type" response) "auth_failed"
    then refusal (message_of response)
    else refuse auth_cannot_connect (unexpected_type (get "type" response))

-- How waiting for the answer ends: nothing within the limit, an exception, or a message.
pub data Answer : Type 0 where
  timeout : Answer
  raised : Exception → Answer
  frame : Frame → Answer

unfoldable pub classify_frame : Frame → AuthResult
unfolding classify_close decode_object refusal
classify_frame (text_frame t) = elim (decode_object t) [
  | none ↦ refuse auth_cannot_connect unreadable
  | some response ↦ classify_object response
]
classify_frame (close_frame code reason) = classify_close code reason
classify_frame _ = refuse auth_cannot_connect unexpected_frame

-- `sending` is the exception that sending the token raised, if it did.
unfoldable pub authenticate : Option Exception → Answer → Result AuthResult
unfolding classify_frame
authenticate (some e) answer = err e
authenticate none timeout = ok (refuse auth_cannot_connect no_response)
authenticate none (raised e) = err e
authenticate none (frame f) = ok (classify_frame f)

-- `connecting` is the exception of `ws_connect`, its timeout included. An exception while the check
-- closes its connection is suppressed.
unfoldable pub probe_token : Option Exception → Option Exception → Answer → Outcome
unfolding authenticate
probe_token (some e) sending answer = auth_cannot_connect
probe_token none sending answer = elim (authenticate sending answer) [
  | err e ↦ auth_cannot_connect
  | ok result ↦ result.outcome
]
