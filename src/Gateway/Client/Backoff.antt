-- ===== src/Gateway/Client/Backoff.antt =====
-- How long `_connection_loop` waits between its passes (gateway/client.py).
use native.Mathlib.Nat.{pow-suc}
use staykey_ha_plugin.Prelude.{
  ℕ, zero, suc, ◌*◌, ◌^◌, ◌≤◌, min, ◌≡◌, refl, ap₂, ◌∙◌, inl, inr, Bool, true, false, some, List,
  [], ◌∷◌, arith, Bool-cases, All, length, if◌then◌else◌,
}
use staykey_ha_plugin.Python.Exec.{Result, ok, err, continue}
use staykey_ha_plugin.Gateway.Protocol.{Text}
use staykey_ha_plugin.Gateway.Client.{Client, Delivery, drain_queue}
use staykey_ha_plugin.Gateway.Client.Keeps.{Keeps-drain_queue, Keeps-listen, Keeps-connect_and_auth}
use staykey_ha_plugin.Gateway.Client.Connect.{
  Config, Attempt, connect_and_auth, after_connect, connect_and_listen, pass, loop, connection_loop,
  token_accepted,
}

-- Whether the token was accepted and the capabilities were sent.
abbrev pub is_up : Result Bool → Bool
is_up (ok b) = b
is_up (err e) = false

twice : (k d : ℕ) → d ≡ min (2 * 2 ^ k) 300 → min (d * 2) 300 ≡ min (2 * 2 ^ suc k) 300
twice k d e = rw pow-suc (omega arith)

module _ {W : Type 0} (config : Config) (closed : W → Bool)
    (transmit : Text → W → Delivery × W) where
  backoff-after_connect :
      (a : Attempt W) (up : Bool) (c : Client W)
      → ((after_connect config closed transmit a up c).1.backoff ≡ (if up then 2 else c.backoff))
        × ((after_connect config closed transmit a up c).1.running ≡ c.running)
  unfolding after_connect
  backoff-after_connect a true c =
      let accepted = token_accepted config (record c { backoff = 2 }) in
      let drained = drain_queue closed transmit a.now accepted in
      let kept = Keeps-drain_queue closed transmit a.now accepted in
      let heard = Keeps-listen closed transmit a.frames drained in
      (heard.backoff ∙ kept.backoff ∙ ground arith, heard.running ∙ kept.running ∙ ground arith)
  backoff-after_connect a false c = ground arith

  -- The pause of one pass of a running client.
  abbrev pub pause_of : Attempt W → Client W → ℕ
  pause_of a c = if is_up (connect_and_auth config transmit a c).0 then 2 else c.backoff

  backoff-continue :
      (a : Attempt W) (c : Client W) (r : Result Bool) (d : Client W)
      → d.backoff ≡ c.backoff
      → d.running ≡ c.running
      → ((continue r (after_connect config closed transmit a) d).1.backoff
          ≡ (if is_up r then 2 else c.backoff))
        × ((continue r (after_connect config closed transmit a) d).1.running ≡ c.running)
  backoff-continue a c (ok up) d b k = ground (arith, backoff-after_connect a up d)
  backoff-continue a c (err e) d b k = (b, k)

  backoff-connect_and_listen :
      (a : Attempt W) (c : Client W)
      → ((connect_and_listen config closed transmit a c).1.backoff ≡ pause_of a c)
        × ((connect_and_listen config closed transmit a c).1.running ≡ c.running)
  unfolding connect_and_listen
  backoff-connect_and_listen a c =
      let (r, d) = connect_and_auth config transmit a c in
      let kept = Keeps-connect_and_auth config transmit a c in
      backoff-continue a c r d kept.backoff kept.running

  -- One pass of a running client pauses for 2 seconds if it connected, even if it then failed, and
  -- else for the pause that was due; the pause due next is twice that, and 300 seconds at most.
  pass-pauses :
      (a : Attempt W) (c : Client W)
      → c.running ≡ true
      → ((pass config closed transmit a c).0 ≡ some (pause_of a c))
        × ((pass config closed transmit a c).1.backoff ≡ min (pause_of a c * 2) 300)
        × ((pass config closed transmit a c).1.running ≡ true)
  unfolding pass
  pass-pauses a c run = ground (arith, backoff-connect_and_listen a c)

  loop-cons :
      (a : Attempt W) (tries : List (Attempt W)) (c : Client W)
      → c.running ≡ true
      → (loop config closed transmit (a ∷ tries) c).0
        ≡ pause_of a c ∷ (loop config closed transmit tries (pass config closed transmit a c).1).0
  unfolding loop
  loop-cons a tries c run = let (pause, _, _) = pass-pauses a c run in rw (pause, loop)

  loop-bounds :
      (tries : List (Attempt W)) (c : Client W)
      → c.running ≡ true
      → 2 ≤ c.backoff
      → c.backoff ≤ 300
      → All (λ d. (2 ≤ d) × (d ≤ 300)) (loop config closed transmit tries c).0
  loop-bounds [] c run lo hi = unfold loop in tt
  loop-bounds (a ∷ tries) c run lo hi =
      let (_, next, still) = pass-pauses a c run in
      let range : (2 ≤ pause_of a c) × (pause_of a c ≤ 300) = ground arith in
      rw (loop-cons a tries c run) (
        range,
        loop-bounds tries (pass config closed transmit a c).1 still (omega (arith, next, range))
            (omega (arith, next, range)),
      )

  -- Every pause of the loop is from 2 to 300 seconds, whatever the gateway does.
  connection_loop-bounds :
      (tries : List (Attempt W)) (c : Client W)
      → All (λ d. (2 ≤ d) × (d ≤ 300)) (connection_loop config closed transmit tries c).0
  unfolding connection_loop
  connection_loop-bounds tries c = elim (Bool-cases c.running) [
    | inl run ↦ simp run (
        loop-bounds tries (record c { running = true; backoff = 2 }) refl (omega arith)
          (omega arith))
    | inr idle ↦ simp idle tt
  ]

  -- The attempt ends with no accepted token, whatever the client's state.
  abbrev pub IsDown : Attempt W → Type 0
  IsDown a = (c : Client W) → is_up (connect_and_auth config transmit a c).0 ≡ false

  -- 2, 4, 8, …, up to 300, from the k-th on, n of them
  abbrev pub doubled : ℕ → ℕ → List ℕ
  doubled k zero = []
  doubled k (suc n) = min (2 * 2 ^ k) 300 ∷ doubled (suc k) n

  loop-doubled :
      (tries : List (Attempt W)) (k : ℕ) (c : Client W)
      → c.running ≡ true
      → c.backoff ≡ min (2 * 2 ^ k) 300
      → All IsDown tries
      → (loop config closed transmit tries c).0 ≡ doubled k (length tries)
  loop-doubled [] k c run b h = unfold loop in refl
  loop-doubled (a ∷ tries) k c run b (down, h) =
      let (_, next, still) = pass-pauses a c run in
      let due : pause_of a c ≡ min (2 * 2 ^ k) 300 = ground (arith, down c) in
      rw (loop-cons a tries c run) (
        ap₂ ◌∷◌ due (
          loop-doubled tries (suc k) (pass config closed transmit a c).1 still
            (next ∙ twice k (pause_of a c) due) h))

  -- While no token is accepted, the pauses of the loop are 2, 4, 8, … seconds, and 300 once the
  -- doubling has passed that.
  pub connection_loop-doubled :
      (tries : List (Attempt W)) (c : Client W)
      → c.running ≡ true
      → All IsDown tries
      → (connection_loop config closed transmit tries c).0 ≡ doubled 0 (length tries)
  unfolding connection_loop
  connection_loop-doubled tries c run h =
      ground (arith, run, loop-doubled tries 0 (record c { backoff = 2 }) run refl h)
