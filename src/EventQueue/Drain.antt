-- ===== src/EventQueue/Drain.antt =====
-- What `drain` sends and what it leaves (gateway/event_queue.py).
use staykey_ha_plugin.Prelude.{
  ℕ, suc, ◌+◌, ◌-◌, ◌≡◌, refl, inl, inr, Bool, List, [], ◌∷◌, Bool-cases, drop, ltb, if◌then◌else◌,
  arith,
}
use native.Mathlib.Nat.{zero-add}
use staykey_ha_plugin.EventQueue.{EventQueue, max_event_age, drain_loop, drain}

module _ {M : Type 0} where
  -- The messages that are young enough to send, oldest first.
  abbrev pub fresh : ℕ → List (ℕ × M) → List M
  fresh now [] = []
  fresh now ((timestamp, message) ∷ rest) =
      let more = fresh now rest in
      if ltb max_event_age (now - timestamp) then more else message ∷ more

module _ {M S : Type 0} (send : M → S → Bool × S) where
  -- Sending messages one by one up to the first failure: how many went out, and the sender's state.
  abbrev pub send_until_failure : List M → S → ℕ × S
  send_until_failure [] s = (0, s)
  send_until_failure (m ∷ ms) s =
      let (done, s') = send m s in
      let (n, s'') = send_until_failure ms s' in if done then (n + 1, s'') else (0, s')

  drain_loop-sent :
      (now sent : ℕ) (items : List (ℕ × M)) (s : S)
      → let (left, sent', s') = drain_loop send now sent items s in
        let (n, s'') = send_until_failure (fresh now items) s in
        (sent' ≡ sent + n) × (s' ≡ s'') × (fresh now left ≡ drop n (fresh now items))
  unfolding drain_loop
  drain_loop-sent now sent [] s = (omega arith, refl, refl)
  drain_loop-sent now sent ((timestamp, message) ∷ rest) s =
      elim (Bool-cases (ltb max_event_age (now - timestamp))) [
        | inl stale ↦ rw stale (drain_loop-sent now sent rest s)
        | inr young ↦ elim (Bool-cases (send message s).0) [
          | inl went ↦
              rw (young, went)
                (ground (arith, drain_loop-sent now (sent + 1) rest (send message s).1))
          | inr failed ↦ rw (young, failed) (ground arith)
        ]
      ]

  drain_loop-suffix :
      (now sent : ℕ) (items : List (ℕ × M)) (s : S)
      → (k : ℕ) × ((drain_loop send now sent items s).0 ≡ drop k items)
  unfolding drain_loop
  drain_loop-suffix now sent [] s = (0, refl)
  drain_loop-suffix now sent ((timestamp, message) ∷ rest) s =
      elim (Bool-cases (ltb max_event_age (now - timestamp))) [
        | inl stale ↦ let (k, e) = drain_loop-suffix now sent rest s in (suc k, rw stale e)
        | inr young ↦ elim (Bool-cases (send message s).0) [
          | inl went ↦
              let (k, e) = drain_loop-suffix now (sent + 1) rest (send message s).1 in
              (suc k, rw (young, went) e)
          | inr failed ↦ (0, rw (young, failed))
        ]
      ]

  -- What `drain` promises, for any send function: the messages not older than the limit are sent in
  -- order up to the first failure, and the result is how many went out; those unsent are still held,
  -- what is left is the end of the old queue, and the count of dropped messages is back at 0.
  pub record IsDrained (now : ℕ) (q : EventQueue M) (s : S) (r : ℕ × EventQueue M × S)
      : Type 0 where
    pub counted : r.0 ≡ (send_until_failure (fresh now q.queue) s).0
    pub sender : r.2 ≡ (send_until_failure (fresh now q.queue) s).1
    pub kept : fresh now r.1.queue ≡ drop r.0 (fresh now q.queue)
    pub suffix : (k : ℕ) × (r.1.queue ≡ drop k q.queue)
    pub reset : r.1.dropped ≡ 0
    pub bound : r.1.maxlen ≡ q.maxlen

  -- `drain` sends the messages not older than the limit, in order, up to the first failure, and
  -- returns their number; it keeps the unsent ones as the end of the old queue, and sets the count of
  -- dropped messages to 0.
  pub drain-IsDrained :
      (now : ℕ) (q : EventQueue M) (s : S) → IsDrained now q s (drain send now q s)
  unfolding drain
  drain-IsDrained now q s =
      let (n, same, kept) = drain_loop-sent now 0 q.queue s in
      record {
        counted = omega (arith, n);
        sender = same;
        kept = rw n (rw (zero-add) kept);
        suffix = drain_loop-suffix now 0 q.queue s;
        reset = refl;
        bound = refl;
      }
