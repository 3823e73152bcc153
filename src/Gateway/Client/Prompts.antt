-- ===== src/Gateway/Client/Prompts.antt =====
-- The prompts for a new token: `_token_refused`, `_token_accepted` and the loop around them
-- (gateway/client.py).
use staykey_ha_plugin.Prelude.{
  ℕ, ◌+◌, ◌≡◌, refl, ◌∙◌, ◌⊎◌, Bool, true, false, List, [], ◌∷◌, arith, Option-cases, inl, inr,
  if◌then◌else◌,
}
use staykey_ha_plugin.Python.Exec.{Result, ok, err, continue}
use staykey_ha_plugin.Gateway.Protocol.{Text}
use staykey_ha_plugin.Gateway.Client.{Client, Delivery, drain_queue}
use staykey_ha_plugin.Gateway.Client.Keeps.{
  Keeps, Keeps-drain_queue, Keeps-listen, Keeps-connect_and_auth,
}
use staykey_ha_plugin.Gateway.Client.Backoff.{is_up}
use staykey_ha_plugin.Gateway.Client.Connect.{
  Config, Attempt, is_invalid, connect_and_auth, after_connect, connect_and_listen, pass, loop,
  connection_loop, token_accepted, LoopEnd, on_loop_done,
}

abbrev pub open_prompt : Bool → ℕ
open_prompt rejected = if rejected then 1 else 0

-- With a config entry: one prompt has been asked for and not closed again while the token stands
-- rejected, and none otherwise.
abbrev pub IsPrompted : {W : Type 0} → Client W → Type 0
IsPrompted c = c.prompts_asked ≡ c.prompts_closed + open_prompt c.token_rejected

module _ {W : Type 0} (config : Config) (closed : W → Bool)
    (transmit : Text → W → Delivery × W) where
  IsPrompted-Keeps : {c d : Client W} → Keeps c d → IsPrompted c → IsPrompted d
  IsPrompted-Keeps k h = ground (arith, k.token_rejected, k.prompts_asked, k.prompts_closed)

  IsPrompted-after_connect :
      (a : Attempt W) (up : Bool) (c : Client W)
      → config.has_entry ≡ true
      → IsPrompted c
      → IsPrompted (after_connect config closed transmit a up c).1
  unfolding after_connect
  IsPrompted-after_connect a true c entry h =
      let accepted = token_accepted config (record c { backoff = 2 }) in
      let drained = drain_queue closed transmit a.now accepted in
      let start : IsPrompted accepted = ground arith in
      IsPrompted-Keeps (Keeps-listen closed transmit a.frames drained)
        (IsPrompted-Keeps (Keeps-drain_queue closed transmit a.now accepted) start)
  IsPrompted-after_connect a false c entry h = ground arith

  IsPrompted-continue :
      (a : Attempt W) (r : Result Bool) (c : Client W)
      → config.has_entry ≡ true
      → IsPrompted c
      → IsPrompted (continue r (after_connect config closed transmit a) c).1
  IsPrompted-continue a (ok up) c entry h = IsPrompted-after_connect a up c entry h
  IsPrompted-continue a (err e) c entry h = h

  IsPrompted-connect_and_listen :
      (a : Attempt W) (c : Client W)
      → config.has_entry ≡ true
      → IsPrompted c
      → IsPrompted (connect_and_listen config closed transmit a c).1
  unfolding connect_and_listen
  IsPrompted-connect_and_listen a c entry h =
      let (r, d) = connect_and_auth config transmit a c in
      IsPrompted-continue a r d entry
        (IsPrompted-Keeps (Keeps-connect_and_auth config transmit a c) h)

  IsPrompted-pass :
      (a : Attempt W) (c : Client W)
      → config.has_entry ≡ true
      → IsPrompted c
      → IsPrompted (pass config closed transmit a c).1
  unfolding pass
  IsPrompted-pass a c entry h = ground (arith, IsPrompted-connect_and_listen a c entry h)

  IsPrompted-loop :
      (tries : List (Attempt W)) (c : Client W)
      → config.has_entry ≡ true
      → IsPrompted c
      → IsPrompted (loop config closed transmit tries c).1
  unfolding loop
  IsPrompted-loop [] c entry h = h
  IsPrompted-loop (a ∷ tries) c entry h =
      let h' = IsPrompted-pass a c entry h in
      elim (Option-cases (pass config closed transmit a c).0) [
        | inl over ↦ rw (over, loop) h'
        | inr (d, more) ↦
            rw (more, loop) (IsPrompted-loop tries (pass config closed transmit a c).1 entry h')
      ]

  -- For an entry: however its attempts go, at most one prompt for a new token stands open, and one
  -- does exactly while the token stands rejected.
  pub connection_loop-IsPrompted :
      (tries : List (Attempt W)) (c : Client W)
      → config.has_entry ≡ true
      → IsPrompted c
      → IsPrompted (connection_loop config closed transmit tries c).1
  unfolding connection_loop
  connection_loop-IsPrompted tries c entry h =
      ground (arith, IsPrompted-loop tries (record c { backoff = 2 }) entry h)

  -- So it stays when the loop starts anew.
  on_loop_done-IsPrompted :
      (ended_by : LoopEnd) (tries : List (Attempt W)) (c : Client W)
      → config.has_entry ≡ true
      → IsPrompted c
      → IsPrompted (on_loop_done config closed transmit ended_by tries c).1
  unfolding on_loop_done
  on_loop_done-IsPrompted ended_by tries c entry h =
      ground (arith, connection_loop-IsPrompted tries c entry h)

  token_rejected-after_connect :
      (a : Attempt W) (up : Bool) (c : Client W)
      → (after_connect config closed transmit a up c).1.token_rejected
        ≡ (if up then false else if is_invalid c.auth_outcome then true else c.token_rejected)
  unfolding after_connect
  token_rejected-after_connect a true c =
      let accepted = token_accepted config (record c { backoff = 2 }) in
      let drained = drain_queue closed transmit a.now accepted in
      let heard = Keeps-listen closed transmit a.frames drained in
      let kept = Keeps-drain_queue closed transmit a.now accepted in
      heard.token_rejected ∙ kept.token_rejected ∙ ground arith
  token_rejected-after_connect a false c = ground arith

  -- A check that raised, or whose capabilities could not be sent, rejected nothing.
  not_invalid_of_raised :
      (a : Attempt W) (c : Client W)
      → (r : Result Bool) → (connect_and_auth config transmit a c).0 ≡ r
      → (r ≡ ok true)
        ⊎ (r ≡ ok false)
        ⊎ ((is_up r ≡ false)
            × (is_invalid (connect_and_auth config transmit a c).1.auth_outcome ≡ false))
  unfolding connect_and_auth
  not_invalid_of_raised a c (ok true) e = inl refl
  not_invalid_of_raised a c (ok false) e = inr (inl refl)
  not_invalid_of_raised a c (err x) e = inr (inr (refl, ground arith))

  token_rejected-connect_and_listen :
      (a : Attempt W) (c : Client W)
      → let (r, d) = connect_and_auth config transmit a c in
        (connect_and_listen config closed transmit a c).1.token_rejected
        ≡ (if is_up r then false else if is_invalid d.auth_outcome then true else c.token_rejected)
  unfolding connect_and_listen
  token_rejected-connect_and_listen a c = ground (
    arith,
    not_invalid_of_raised a c (connect_and_auth config transmit a c).0 refl,
    token_rejected-after_connect a true (connect_and_auth config transmit a c).1,
    token_rejected-after_connect a false (connect_and_auth config transmit a c).1,
    (Keeps-connect_and_auth config transmit a c).token_rejected,
  )

  -- After one pass the token stands rejected if the gateway rejected it, does not if the pass got
  -- through to the gateway, and else stands as before.
  pass-token_rejected :
      (a : Attempt W) (c : Client W)
      → let (r, d) = connect_and_auth config transmit a c in
        (pass config closed transmit a c).1.token_rejected
        ≡ (if is_up r then false else if is_invalid d.auth_outcome then true else c.token_rejected)
  unfolding pass
  pass-token_rejected a c = ground (arith, token_rejected-connect_and_listen a c)
