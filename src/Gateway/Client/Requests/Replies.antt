-- ===== src/Gateway/Client/Requests/Replies.antt =====
-- Every request gets one reply (gateway/client.py).
use staykey_ha_plugin.Prelude.{String, ◌≡◌, refl, ap, ◌∙◌, Bool, none, some}
use staykey_ha_plugin.Python.Exec.{Exception, Result, ok, err, continue, Exec}
use staykey_ha_plugin.Python.Exec.Words.{words_of, words_of-exception_text}
use staykey_ha_plugin.Python.Value.{Value, null, str, obj, Fields, end, field, get, put}
use staykey_ha_plugin.Gateway.Protocol.{Text, response_message}
use staykey_ha_plugin.Gateway.Client.{Client, Delivery, send}
use staykey_ha_plugin.Gateway.Client.Requests.{error_reply, ok_reply, or_error, handle_request}

-- The request's ID and action, which are texts, and its parameters.
abbrev pub asked : String → Fields → String
asked key message = elim (get key message) [ some (str s) ↦ s | _ ↦ "" ]

abbrev pub asked_with : Fields → Value
asked_with message = elim (get "params" message) [ none ↦ obj end | some v ↦ v ]

-- The reply to a request: "ok" with the result, if it is not null, or "error" with what was raised.
abbrev pub answer : String → String → Fields → Text
answer request_id status rest =
    field "type" (str "response") (field "id" (str request_id) (field "status" (str status) rest))

abbrev pub reply_to : String → Result Value → Text
reply_to request_id (ok null) = answer request_id "ok" end
reply_to request_id (ok result) = answer request_id "ok" (field "data" result end)
reply_to request_id (err e) = answer request_id "error" (
    field "error"
      (obj (field "code" (str "handler_error") (field "message" (str (words_of e)) end))) end)

ok_reply-reply_to :
    (request_id : String) (v : Value) → ok_reply request_id v ≡ reply_to request_id (ok v)
unfolding response_message put
ok_reply-reply_to request_id null = refl
ok_reply-reply_to request_id _ = refl

error_reply-reply_to :
    (request_id : String) (e : Exception) → error_reply request_id e ≡ reply_to request_id (err e)
unfolding response_message put
error_reply-reply_to request_id e = rw (words_of-exception_text e) refl

module _ {W : Type 0} (closed : W → Bool) (transmit : Text → W → Delivery × W)
    (command_handler : String → String → Value → Exec (Client W) Value) where
  -- Sending raises nothing but what comes from a lost connection, which `send` keeps back.
  abbrev pub NeverFails : Type 0
  NeverFails = (m : Text) (c : Client W) → (send closed transmit m c).0 ≡ ok tt

  sent-or_error :
      (request_id : String) (p : Result (Unit {0}) × Client W)
      → p.0 ≡ ok tt
      → or_error closed transmit command_handler request_id p ≡ p
  sent-or_error request_id (ok _, c) e = refl
  sent-or_error request_id (err x, c) e = cc

  replied :
      NeverFails
      → (request_id : String) (r : Result Value) (c : Client W)
      → or_error closed transmit command_handler request_id
          (continue r (λ result. send closed transmit (ok_reply request_id result)) c)
        ≡ send closed transmit (reply_to request_id r) c
  replied h request_id (ok result) c =
      sent-or_error request_id (send closed transmit (ok_reply request_id result) c)
        (h (ok_reply request_id result) c)
      ∙ ap (λ m. send closed transmit m c) (ok_reply-reply_to request_id result)
  replied h request_id (err e) c =
      ap (λ m. send closed transmit m c) (error_reply-reply_to request_id e)

  -- If sending raises nothing, handling a request runs the command handler once, with the request's
  -- action, ID and parameters, and then sends one reply with that ID: the result, or what the exception
  -- says; no exception gets out.
  pub handle_request-replies :
      NeverFails
      → (message : Fields) (c : Client W)
      → let (r, c') =
          command_handler (asked "action" message) (asked "id" message) (asked_with message) c in
        handle_request closed transmit command_handler message c
        ≡ send closed transmit (reply_to (asked "id" message) r) c'
  unfolding handle_request
  handle_request-replies h message c =
      let (r, c') =
        command_handler (asked "action" message) (asked "id" message) (asked_with message) c in
      replied h (asked "id" message) r c'
