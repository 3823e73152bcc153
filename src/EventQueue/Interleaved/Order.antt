-- ===== src/EventQueue/Interleaved/Order.antt =====
-- In which order a drain takes messages while others are enqueued (gateway/event_queue.py).
use staykey_ha_plugin.Prelude.{
  ℕ, ◌<◌, ◌≡◌, refl, sym, ap, ◌∙◌, subst, Bool, true, false, Option, none, some, List, [], ◌∷◌,
  ◌++◌, append_assoc, length, length-append, arith,
}
use staykey_ha_plugin.EventQueue.{EventQueue, trim, enqueue}
use staykey_ha_plugin.EventQueue.Bounds.{trim_short}
use staykey_ha_plugin.EventQueue.Interleaved.{
  Flight, Step, push, expire, begin, finish, fail, pushing, finishing, Fits, NeverOverflows, Run,
  start, next,
}

module _ {M : Type 0} where
  abbrev pub messages : List (ℕ × M) → List M
  messages [] = []
  messages ((_, m) ∷ xs) = m ∷ messages xs

  abbrev pub taken : List (M × Bool) → List M
  taken [] = []
  taken ((m, _) ∷ xs) = m ∷ taken xs

  messages-append : (xs ys : List (ℕ × M)) → messages (xs ++ ys) ≡ messages xs ++ messages ys
  messages-append [] ys = refl
  messages-append ((_, m) ∷ xs) ys = ap (λ zs. m ∷ zs) (messages-append xs ys)

  taken-append : (xs ys : List (M × Bool)) → taken (xs ++ ys) ≡ taken xs ++ taken ys
  taken-append [] ys = refl
  taken-append ((m, _) ∷ xs) ys = ap (λ zs. m ∷ zs) (taken-append xs ys)

  -- The message that is being sent is in front.
  abbrev IsInFront : Option M → List (ℕ × M) → Type 0
  IsInFront none xs = Unit
  IsInFront (some m) xs = (t : ℕ) × (left : List (ℕ × M)) × (xs ≡ (t, m) ∷ left)

  record IsInOrder (s : Flight M) : Type 0 where
    conserved : taken s.handled ++ messages s.queue.queue ≡ s.pushed
    front : IsInFront s.sending s.queue.queue

  IsInFront-append : (o : Option M) (xs ys : List (ℕ × M)) → IsInFront o xs → IsInFront o (xs ++ ys)
  IsInFront-append none xs ys h = tt
  IsInFront-append (some m) xs ys (t, left, e) = (t, left ++ ys, ap (λ zs. zs ++ ys) e)

  -- An `enqueue` that fits puts the message at the end.
  queue-enqueue_fits :
      (now : ℕ) (m : M) (q : EventQueue M)
      → length q.queue < q.maxlen
      → (enqueue now m q).queue ≡ q.queue ++ (now, m) ∷ []
  unfolding enqueue
  queue-enqueue_fits now m q fits =
      trim_short q.maxlen (q.queue ++ (now, m) ∷ [])
        (omega (arith, length-append q.queue ((now, m) ∷ [])))

  pushing-IsInOrder :
      (now : ℕ) (m : M) (s : Flight M)
      → length s.queue.queue < s.queue.maxlen
      → IsInOrder s
      → IsInOrder (pushing now m s)
  pushing-IsInOrder now m s fits h =
      let e = queue-enqueue_fits now m s.queue fits in
      record {
        conserved =
            ap (λ xs. taken s.handled ++ messages xs) e
            ∙ ap (λ ms. taken s.handled ++ ms) (messages-append s.queue.queue ((now, m) ∷ []))
            ∙ sym (append_assoc (taken s.handled) (messages s.queue.queue) (m ∷ []))
            ∙ ap (λ ms. ms ++ m ∷ []) h.conserved;
        front =
            subst (IsInFront s.sending) (sym e)
              (IsInFront-append s.sending s.queue.queue ((now, m) ∷ []) h.front);
      }

  -- Taking the front of the queue.
  taken_front :
      (handled : List (M × Bool)) (m : M) (sent : Bool) (t : ℕ) (xs left : List (ℕ × M))
      (pushed : List M)
      → xs ≡ (t, m) ∷ left
      → taken handled ++ messages xs ≡ pushed
      → taken (handled ++ (m, sent) ∷ []) ++ messages left ≡ pushed
  taken_front handled m sent t xs left pushed e conserved =
      ap (λ ms. ms ++ messages left) (taken-append handled ((m, sent) ∷ []))
      ∙ append_assoc (taken handled) (m ∷ []) (messages left)
      ∙ ap (λ ys. taken handled ++ messages ys) (sym e)
      ∙ conserved

  finishing-IsInOrder :
      (s : Flight M) (m : M) (front : ℕ × M) (left : List (ℕ × M))
      → s.sending ≡ some m
      → s.queue.queue ≡ front ∷ left
      → IsInOrder s
      → IsInOrder (finishing m left s)
  finishing-IsInOrder s m front left sending e h =
      let (t, rest, is) = subst (λ o. IsInFront o s.queue.queue) sending h.front in
      let same : (t, m) ∷ rest ≡ front ∷ left = sym is ∙ e in
      let taken_is : s.queue.queue ≡ (t, m) ∷ left = is ∙ ap (λ xs. (t, m) ∷ xs) (cc) in
      record {
        conserved = taken_front s.handled m true t s.queue.queue left s.pushed taken_is h.conserved;
        front = tt;
      }

  Step-IsInOrder : {s t : Flight M} (step : Step s t) → Fits step → IsInOrder s → IsInOrder t
  Step-IsInOrder {s} (push now m) fits h = pushing-IsInOrder now m s fits h
  Step-IsInOrder {s} (expire now t m left idle e old) fits h = record {
    conserved = taken_front s.handled m false t s.queue.queue left s.pushed e h.conserved;
    front = subst (λ o. IsInFront o left) (sym idle) tt;
  }
  Step-IsInOrder {s} (begin now t m left idle e young) fits h = record {
    conserved = h.conserved;
    front = (t, left, e);
  }
  Step-IsInOrder {s} (finish m front left sending e) fits h =
      finishing-IsInOrder s m front left sending e h
  Step-IsInOrder {s} (fail m sending) fits h = record { conserved = h.conserved; front = tt }

  Run-IsInOrder :
      {maxlen : ℕ} {s : Flight M} (run : Run maxlen s) → NeverOverflows run → IsInOrder s
  Run-IsInOrder start fits = record { conserved = refl; front = tt }
  Run-IsInOrder (next run step) fits = Step-IsInOrder step fits.1 (Run-IsInOrder run fits.0)

  -- While no `enqueue` overflows the queue, the messages that a drain has sent or found too old,
  -- followed by those left in the queue, are all that were ever enqueued, in their order, wherever the
  -- enqueuing comes in between and however often sending fails.
  pub Run-order :
      {maxlen : ℕ} {s : Flight M} (run : Run maxlen s)
      → NeverOverflows run
      → taken s.handled ++ messages s.queue.queue ≡ s.pushed
  Run-order run fits = (Run-IsInOrder run fits).conserved

  queue-enqueue_full :
      (now : ℕ) (x : M) (q : EventQueue M) (first : ℕ × M) (rest : List (ℕ × M))
      → q.queue ≡ first ∷ rest
      → length q.queue ≡ q.maxlen
      → (enqueue now x q).queue ≡ rest ++ (now, x) ∷ []
  unfolding enqueue trim
  queue-enqueue_full now x q first rest e full =
      let long : length (rest ++ (now, x) ∷ []) ≡ q.maxlen =
        omega (arith, ap length e, length-append rest ((now, x) ∷ [])) in
      rw e (ground (arith, long, trim_short q.maxlen (rest ++ (now, x) ∷ [])))

  -- An `enqueue` that overflows the queue during a send takes away the message that is being sent,
  -- and the drain then takes away the next one, which is neither sent nor kept.
  pub overflow-loses :
      (s : Flight M) (m m' x : M) (t t' now : ℕ) (rest : List (ℕ × M))
      → s.sending ≡ some m
      → s.queue.queue ≡ (t, m) ∷ (t', m') ∷ rest
      → length s.queue.queue ≡ s.queue.maxlen
      → (after : Flight M) × Step (pushing now x s) after
        × (taken after.handled ≡ taken s.handled ++ m ∷ [])
        × (messages after.queue.queue ≡ messages rest ++ x ∷ [])
  overflow-loses s m m' x t t' now rest sending e full =
      let left = rest ++ (now, x) ∷ [] in
      let moved = queue-enqueue_full now x s.queue (t, m) ((t', m') ∷ rest) e full in
      (
        finishing m left (pushing now x s),
        finish m (t', m') left sending moved,
        taken-append s.handled ((m, true) ∷ []),
        messages-append rest ((now, x) ∷ []),
      )
