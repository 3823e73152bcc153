-- ===== src/EventQueue/Interleaved.antt =====
-- gateway/event_queue.py: a drain that waits for `send_fn` while other tasks enqueue. Each `await` of
-- the drain is a point at which an `enqueue` may come in between.
pub mod Order
use staykey_ha_plugin.Prelude.{
  ℕ, suc, ◌+◌, ◌-◌, ◌≤◌, ◌<◌, ◌≡◌, refl, sym, ap, ◌∙◌, Bool, true, false, Option, none, some, List,
  [], ◌∷◌, ◌++◌, map, append_assoc, append-nil, length, length-append, arith, ltb, leb,
  if◌then◌else◌,
}
use staykey_ha_plugin.EventQueue.{EventQueue, max_event_age, enqueue}

-- The queue, the message that `send_fn` is at, the messages that the drain has taken so far, each with
-- whether it was sent, and all that was ever enqueued.
pub record Flight (M : Type 0) : Type 0 where
  pub queue : EventQueue M
  pub sending : Option M
  pub handled : List (M × Bool)
  pub pushed : List M

module _ {M : Type 0} where
  abbrev pub with_queue : Flight M → List (ℕ × M) → EventQueue M
  with_queue s left = record s.queue { queue = left }

  abbrev pub pushing : ℕ → M → Flight M → Flight M
  pushing now m s = record s { queue = enqueue now m s.queue; pushed = s.pushed ++ m ∷ [] }

  -- `popleft` after a send: it takes what is in front by then
  abbrev pub finishing : M → List (ℕ × M) → Flight M → Flight M
  finishing m left s = record s {
    queue = with_queue s left;
    sending = none;
    handled = s.handled ++ (m, true) ∷ [];
  }

  -- What may happen next. An `enqueue` comes at any time.
  pub data Step (s : Flight M) : Flight M → Type 0 where
    push : (now : ℕ) (m : M) → Step s (pushing now m s)
    expire :
        (now timestamp : ℕ) (m : M) (left : List (ℕ × M))
        → s.sending ≡ none
        → s.queue.queue ≡ (timestamp, m) ∷ left
        → ltb max_event_age (now - timestamp) ≡ true
        → Step s (record s { queue = with_queue s left; handled = s.handled ++ (m, false) ∷ [] })
    begin :
        (now timestamp : ℕ) (m : M) (left : List (ℕ × M))
        → s.sending ≡ none
        → s.queue.queue ≡ (timestamp, m) ∷ left
        → ltb max_event_age (now - timestamp) ≡ false
        → Step s (record s { sending = some m })
    finish :
        (m : M) (front : ℕ × M) (left : List (ℕ × M))
        → s.sending ≡ some m
        → s.queue.queue ≡ front ∷ left
        → Step s (finishing m left s)
    fail : (m : M) → s.sending ≡ some m → Step s (record s { sending = none })

  -- The steps of a run from an empty queue.
  pub data Run (maxlen : ℕ) : Flight M → Type 0 where
    start : Run maxlen (record {
      queue = record { queue = []; maxlen = maxlen; dropped = 0 };
      sending = none;
      handled = [];
      pushed = [];
    })
    next : {s t : Flight M} → Run maxlen s → Step s t → Run maxlen t

  -- A step that overflows no queue.
  abbrev pub Fits : {s t : Flight M} → Step s t → Type 0
  Fits {s} (push now m) = length s.queue.queue < s.queue.maxlen
  Fits _ = Unit

  abbrev pub NeverOverflows : {maxlen : ℕ} {s : Flight M} → Run maxlen s → Type 0
  NeverOverflows start = Unit
  NeverOverflows (next run step) = NeverOverflows run × Fits step
