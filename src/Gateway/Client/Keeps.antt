-- ===== src/Gateway/Client/Keeps.antt =====
-- What sending, draining and listening leave alone (gateway/client.py).
use staykey_ha_plugin.Prelude.{ℕ, ◌≡◌, refl, ◌∙◌, Bool, List, [], ◌∷◌, arith}
use staykey_ha_plugin.Python.Exec.{Result, Exec, ok, err, continue}
use staykey_ha_plugin.Python.Value.{null, obj, Fields}
use staykey_ha_plugin.Gateway.Protocol.{Text, pong_message}
use staykey_ha_plugin.Gateway.Auth.{
  Received, invalid, value, Frame, text_frame, closed_frame, closing_frame, error_frame,
}
use staykey_ha_plugin.Gateway.Client.{Client, Delivery, send, spawn, drain_queue}
use staykey_ha_plugin.Gateway.Client.Messages.{on_map, handle_object, handle_message, listen}
use staykey_ha_plugin.Gateway.Client.Connect.{Config, Attempt, connect_and_auth}

-- The loop's pause, the run of rejections and its prompts, and whether the client runs.
pub record Keeps {W : Type 0} (c d : Client W) : Type 0 where
  pub running : d.running ≡ c.running
  pub backoff : d.backoff ≡ c.backoff
  pub token_rejected : d.token_rejected ≡ c.token_rejected
  pub prompts_asked : d.prompts_asked ≡ c.prompts_asked
  pub prompts_closed : d.prompts_closed ≡ c.prompts_closed

module _ {W : Type 0} where
  pub Keeps-refl : (c : Client W) → Keeps c c
  Keeps-refl c = record {
    running = refl;
    backoff = refl;
    token_rejected = refl;
    prompts_asked = refl;
    prompts_closed = refl;
  }

  pub Keeps-trans : {c d e : Client W} → Keeps c d → Keeps d e → Keeps c e
  Keeps-trans p q = record {
    running = q.running ∙ p.running;
    backoff = q.backoff ∙ p.backoff;
    token_rejected = q.token_rejected ∙ p.token_rejected;
    prompts_asked = q.prompts_asked ∙ p.prompts_asked;
    prompts_closed = q.prompts_closed ∙ p.prompts_closed;
  }

  Keeps-continue :
      {c d : Client W} (r : Result (Unit {0})) (f : Unit {0} → Exec (Client W) (Unit {0}))
      → Keeps c d
      → Keeps d (f tt d).1
      → Keeps c (continue r f d).1
  Keeps-continue (ok _) f p q = Keeps-trans p q
  Keeps-continue (err _) f p q = p

module _ {W : Type 0} (closed : W → Bool) (transmit : Text → W → Delivery × W) where
  pub Keeps-send : (m : Text) (c : Client W) → Keeps c (send closed transmit m c).1
  unfolding send
  Keeps-send m c = ground arith

  pub Keeps-drain_queue : (now : ℕ) (c : Client W) → Keeps c (drain_queue closed transmit now c)
  unfolding drain_queue
  Keeps-drain_queue now c = ground arith

  Keeps-handle_object : (m : Fields) (c : Client W) → Keeps c (handle_object closed transmit m c).1
  unfolding handle_object on_map spawn
  Keeps-handle_object m c = ground (arith, Keeps-send pong_message c)

  pub Keeps-handle_message :
      (m : Received) (c : Client W) → Keeps c (handle_message closed transmit m c).1
  unfolding handle_message
  Keeps-handle_message invalid c = Keeps-refl c
  Keeps-handle_message (value (obj m)) c = Keeps-handle_object m c
  Keeps-handle_message (value null) c = Keeps-refl c
  Keeps-handle_message (value _) c = Keeps-refl c

  pub Keeps-listen : (fs : List Frame) (c : Client W) → Keeps c (listen closed transmit fs c).1
  unfolding listen
  Keeps-listen [] c = Keeps-refl c
  Keeps-listen (text_frame t ∷ fs) c =
      let (r, c') = handle_message closed transmit t c in
      Keeps-continue r (λ _. listen closed transmit fs) (Keeps-handle_message t c)
        (Keeps-listen fs c')
  Keeps-listen (closed_frame ∷ fs) c = Keeps-refl c
  Keeps-listen (closing_frame ∷ fs) c = Keeps-refl c
  Keeps-listen (error_frame ∷ fs) c = Keeps-refl c
  Keeps-listen (_ ∷ fs) c = Keeps-listen fs c

module _ {W : Type 0} (config : Config) (transmit : Text → W → Delivery × W) where
  pub Keeps-connect_and_auth :
      (a : Attempt W) (c : Client W) → Keeps c (connect_and_auth config transmit a c).1
  unfolding connect_and_auth
  Keeps-connect_and_auth a c = ground arith
