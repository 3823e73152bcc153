-- ===== src/Gateway/Client/Replay.antt =====
-- What becomes of the messages that are queued while the gateway is away (gateway/client.py,
-- gateway/event_queue.py).
use staykey_ha_plugin.Prelude.{
  ℕ, suc, ◌+◌, ◌-◌, ◌≤◌, ◌≡◌, refl, ap, ◌∙◌, Bool, true, false, Option, none, some, List, [], ◌∷◌,
  ◌++◌, arith, length, drop, All, ◌⊎◌, inl, inr, Bool-cases,
}
use staykey_ha_plugin.Python.Exec.{Exception, ok}
use staykey_ha_plugin.EventQueue.{EventQueue, size, max_event_age, enqueue, drain, drain_loop}
use staykey_ha_plugin.EventQueue.Bounds.{enqueue_all, queue-enqueue_all}
use staykey_ha_plugin.EventQueue.Drain.{fresh, send_until_failure, drain-IsDrained}
use staykey_ha_plugin.Gateway.Protocol.{Text}
use staykey_ha_plugin.Gateway.Client.{
  Client, Delivery, delivered, lost, connected, send_or_queue, send_on, drain_queue,
}

abbrev pub texts : List (ℕ × Text) → List Text
texts [] = []
texts ((now, m) ∷ ms) = m ∷ texts ms

-- Every message is at most an hour old.
abbrev pub AreRecent : ℕ → List (ℕ × Text) → Type 0
AreRecent now ms = All (λ (m : ℕ × Text). now - m.0 ≤ max_event_age) ms

fresh_of_AreRecent : (now : ℕ) (ms : List (ℕ × Text)) → AreRecent now ms → fresh now ms ≡ texts ms
fresh_of_AreRecent now [] h = refl
fresh_of_AreRecent now ((t, m) ∷ ms) (p, h) = ground (arith, fresh_of_AreRecent now ms h)

texts_nil : (ms : List (ℕ × Text)) → texts ms ≡ [] → ms ≡ []
texts_nil [] e = refl
texts_nil (m ∷ ms) e = cc

length-texts : (ms : List (ℕ × Text)) → length (texts ms) ≡ length ms
length-texts [] = refl
length-texts (m ∷ ms) = ap suc (length-texts ms)

-- A send function that never raises empties the queue.
drain_loop-all :
    {S : Type 0} (send : Text → S → Bool × S)
    → ((m : Text) (s : S) → (send m s).0 ≡ true)
    → (now sent : ℕ) (ms : List (ℕ × Text)) (s : S) → (drain_loop send now sent ms s).0 ≡ []
unfolding drain_loop
drain_loop-all send h now sent [] s = refl
drain_loop-all send h now sent ((t, m) ∷ ms) s = ground (
  arith,
  h m s,
  drain_loop-all send h now sent ms s,
  drain_loop-all send h now (sent + 1) ms (send m s).1,
)

drain-all :
    {S : Type 0} (send : Text → S → Bool × S)
    → ((m : Text) (s : S) → (send m s).0 ≡ true)
    → (now : ℕ) (q : EventQueue Text) (s : S) → (drain send now q s).1.queue ≡ []
unfolding drain
drain-all send h now q s = drain_loop-all send h now 0 q.queue s

enqueue_all-fits :
    (ms : List (ℕ × Text)) (q : EventQueue Text)
    → q.queue ≡ []
    → length ms ≤ q.maxlen
    → (enqueue_all ms q).queue ≡ ms
enqueue_all-fits ms q empty fits =
    let kept = queue-enqueue_all ms q (unfold size in rw empty (omega arith)) in
    let none_over : length ms - q.maxlen ≡ 0 = omega arith in
    kept
    ∙ ap (λ xs. drop (length (xs ++ ms) - q.maxlen) (xs ++ ms)) empty
    ∙ ap (λ n. drop n ms) none_over

module _ {W : Type 0} (closed : W → Bool) (transmit : Text → W → Delivery × W) where
  -- A message is pushed at each of the given times.
  abbrev pub push_all : List (ℕ × Text) → Client W → Client W
  push_all [] c = c
  push_all ((now, m) ∷ ms) c = push_all ms (send_or_queue closed transmit now m c).1

  -- The gateway is away: there is no link, or the link is closed.
  abbrev pub IsAway : Client W → Type 0
  IsAway c = (c.ws ≡ none) ⊎ ((w : W) × (c.ws ≡ some w) × (closed w ≡ true))

  IsAway-connected : (c : Client W) → IsAway c → connected closed c ≡ false
  unfolding connected
  IsAway-connected c (inl no_link) = rw no_link refl
  IsAway-connected c (inr (w, link, shut)) = rw (link, shut) refl

  push_all-queue :
      (ms : List (ℕ × Text)) (c : Client W)
      → connected closed c ≡ false
      → push_all ms c ≡ record c { event_queue = enqueue_all ms c.event_queue }
  push_all-queue [] c away = refl
  push_all-queue ((now, m) ∷ ms) c away =
      let queued : send_or_queue closed transmit now m c
          ≡ (ok tt, record c { event_queue = enqueue now m c.event_queue }) =
        unfold send_or_queue in rw away in
      rw queued (
        push_all-queue ms (record c { event_queue = enqueue now m c.event_queue })
          (unfold connected in away))

  -- The link after the messages have gone over it one by one.
  abbrev pub transmit_all : List Text → W → W
  transmit_all [] w = w
  transmit_all (m ∷ ms) w = transmit_all ms (transmit m w).1

  -- A link that is open delivers what is sent on it, and stays open.
  pub record IsReliable : Type 0 where
    pub stays : (m : Text) (w : W) → closed w ≡ false → closed (transmit m w).1 ≡ false
    pub delivers : (m : Text) (w : W) → closed w ≡ false → (transmit m w).0 ≡ delivered

  send_until_failure_of_IsReliable :
      IsReliable
      → (ms : List Text) (w : W) → closed w ≡ false
      → send_until_failure (send_on closed transmit) ms (some w)
        ≡ (length ms, some (transmit_all ms w))
  unfolding send_on
  send_until_failure_of_IsReliable h [] w opened = refl
  send_until_failure_of_IsReliable h (m ∷ ms) w opened = ground (
    arith,
    opened,
    h.delivers m w opened,
    send_until_failure_of_IsReliable h ms (transmit m w).1 (h.stays m w opened),
  )

  -- An empty queue is not drained, which comes to the same.
  drain_queue-drain :
      (now : ℕ) (c : Client W)
      → ((drain_queue closed transmit now c).ws
          ≡ (drain (send_on closed transmit) now c.event_queue c.ws).2)
        × ((drain_queue closed transmit now c).event_queue.queue
            ≡ (drain (send_on closed transmit) now c.event_queue c.ws).1.queue)
  unfolding drain_queue drain
  drain_queue-drain now c = from_queue c.event_queue.queue refl
    where
      from_queue :
          (q : List (ℕ × Text))
          → c.event_queue.queue ≡ q
          → ((drain_queue closed transmit now c).ws
              ≡ (drain (send_on closed transmit) now c.event_queue c.ws).2)
            × ((drain_queue closed transmit now c).event_queue.queue
                ≡ (drain (send_on closed transmit) now c.event_queue c.ws).1.queue)
      from_queue [] e = ground arith
      from_queue (m ∷ ms) e = ground arith

  send_on-reliable : IsReliable → (m : Text) (s : Option W) → (send_on closed transmit m s).0 ≡ true
  unfolding send_on
  send_on-reliable h m none = refl
  send_on-reliable h m (some w) = elim (Bool-cases (closed w)) [
    | inl shut ↦ rw shut refl
    | inr opened ↦ rw (opened, send_on) (rw (h.delivers m w opened) refl)
  ]

  drain_queue_of_IsReliable :
      IsReliable
      → (now : ℕ) (c : Client W) (w : W) → c.ws ≡ some w
      → closed w ≡ false
      → AreRecent now c.event_queue.queue
      → ((drain_queue closed transmit now c).ws ≡ some (transmit_all (texts c.event_queue.queue) w))
        × ((drain_queue closed transmit now c).event_queue.queue ≡ [])
  drain_queue_of_IsReliable h now c w up opened recent =
      let q = c.event_queue in
      let (link, left) = drain_queue-drain now c in
      let d = drain-IsDrained (send_on closed transmit) now q c.ws in
      let young : fresh now q.queue ≡ texts q.queue = fresh_of_AreRecent now q.queue recent in
      let sent : send_until_failure (send_on closed transmit) (fresh now q.queue) c.ws
          ≡ (length (texts q.queue), some (transmit_all (texts q.queue) w)) =
        rw (young, up) (send_until_failure_of_IsReliable h (texts q.queue) w opened) in
      (
        link ∙ d.sender ∙ ap (λ p. p.1) sent,
        left ∙ drain-all (send_on closed transmit) (send_on-reliable h) now q c.ws,
      )

  -- A message that is pushed while the gateway is away, with no link or with one that is closed, is not
  -- lost: with an empty queue and no more messages than it holds, all are sent in order at the next
  -- drain over an open link that delivers, within an hour of the first, and none is left.
  pub drain_queue-push_all :
      IsReliable
      → (now : ℕ) (ms : List (ℕ × Text)) (c : Client W) (w : W) → IsAway c
      → closed w ≡ false
      → c.event_queue.queue ≡ []
      → length ms ≤ c.event_queue.maxlen
      → AreRecent now ms
      → let c' = drain_queue closed transmit now (record (push_all ms c) { ws = some w }) in
        (c'.ws ≡ some (transmit_all (texts ms) w)) × (c'.event_queue.queue ≡ [])
  drain_queue-push_all h now ms c w away opened empty fits recent =
      rw (push_all-queue ms c (IsAway-connected c away)) (
        let held : (enqueue_all ms c.event_queue).queue ≡ ms =
          enqueue_all-fits ms c.event_queue empty fits in
        let c' = record c { ws = some w; event_queue = enqueue_all ms c.event_queue } in
        let (link, left) = drain_queue_of_IsReliable h now c' w refl opened (rw held recent) in
        (rw held at link, left))

  send_on-true :
      ((m : Text) (w : W) → (e : Exception) × ((transmit m w).0 ≡ lost e))
      → (m : Text) (s : Option W) → (send_on closed transmit m s).0 ≡ true
  unfolding send_on
  send_on-true broken m none = refl
  send_on-true broken m (some w) = let (e, broke) = broken m w in ground arith

  -- But over a link whose every send ends in a lost connection, the drain empties the queue too,
  -- though nothing was delivered: `send` keeps the failure from it.
  pub drain_queue-loses :
      ((m : Text) (w : W) → (e : Exception) × ((transmit m w).0 ≡ lost e))
      → (now : ℕ) (c : Client W) → (drain_queue closed transmit now c).event_queue.queue ≡ []
  drain_queue-loses broken now c =
      (drain_queue-drain now c).1
      ∙ drain-all (send_on closed transmit) (send_on-true broken) now c.event_queue c.ws
