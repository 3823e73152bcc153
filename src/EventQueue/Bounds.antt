-- ===== src/EventQueue/Bounds.antt =====
-- The queue's bound, and what a run of `enqueue` keeps and counts (gateway/event_queue.py).
use staykey_ha_plugin.Prelude.{
  ℕ, zero, suc, ◌+◌, ◌-◌, ◌≤◌, ◌≡◌, refl, ap, ◌∙◌, sym, inl, inr, min, append-nil, List, [], ◌∷◌,
  ◌++◌, length, length-append, drop, append_assoc, ltb, arith, Bool-cases,
}
use staykey_ha_plugin.EventQueue.{EventQueue, size, dropped_count, trim, enqueue}

suc-sub : (n m : ℕ) → n ≤ m → suc m - n ≡ suc (m - n)
suc-sub n m h = omega arith

sub_of_le : (n m : ℕ) → m ≤ n → m - n ≡ 0
sub_of_le n m h = omega arith

module _ {M : Type 0} where
  abbrev pub IsBounded : EventQueue M → Type 0
  IsBounded q = size q ≤ q.maxlen

  -- a `deque` keeps the last `n` items
  pub trim-eq-drop : (n : ℕ) (xs : List (ℕ × M)) → trim n xs ≡ drop (length xs - n) xs
  unfolding trim
  trim-eq-drop zero [] = refl
  trim-eq-drop (suc n) [] = rw (sub_of_le (suc n) 0 (omega arith)) refl
  trim-eq-drop n (x ∷ xs) = elim (Bool-cases (ltb n (length (x ∷ xs)))) [
    | inl full ↦ rw full (rw (trim-eq-drop n xs) (rw (suc-sub n (length xs) (ground arith)) refl))
    | inr fits ↦ rw fits (rw (sub_of_le n (suc (length xs)) (ground arith)) refl)
  ]

  pub trim_short : (n : ℕ) (xs : List (ℕ × M)) → length xs ≤ n → trim n xs ≡ xs
  unfolding trim
  trim_short n [] h = refl
  trim_short n (x ∷ xs) h = ground arith

  length-trim : (n : ℕ) (xs : List (ℕ × M)) → length (trim n xs) ≤ n
  unfolding trim
  length-trim n [] = omega arith
  length-trim n (x ∷ xs) = ground (arith, length-trim n xs)

  -- dropping as items come in is dropping once at the end
  trim-trim_append : (n : ℕ) (xs ys : List (ℕ × M)) → trim n (trim n xs ++ ys) ≡ trim n (xs ++ ys)
  unfolding trim
  trim-trim_append n [] ys = refl
  trim-trim_append n (x ∷ xs) ys = ground (arith, trim-trim_append n xs ys, length-append xs ys)

  -- `enqueue` for each message of a list, at its time
  abbrev pub enqueue_all : List (ℕ × M) → EventQueue M → EventQueue M
  enqueue_all [] q = q
  enqueue_all ((now, message) ∷ rest) q = enqueue_all rest (enqueue now message q)

  -- One `enqueue` keeps at most `maxlen` messages, whatever the queue held before.
  enqueue-IsBounded : (now : ℕ) (message : M) (q : EventQueue M) → IsBounded (enqueue now message q)
  unfolding enqueue size
  enqueue-IsBounded now message q = length-trim q.maxlen (q.queue ++ (now, message) ∷ [])

  queue-enqueue_all-trim :
      (ms : List (ℕ × M)) (q : EventQueue M)
      → IsBounded q
      → (enqueue_all ms q).queue ≡ trim q.maxlen (q.queue ++ ms)
  unfolding enqueue size
  queue-enqueue_all-trim [] q h = rw append-nil (sym (trim_short q.maxlen q.queue h))
  queue-enqueue_all-trim ((now, message) ∷ ms) q h =
      queue-enqueue_all-trim ms (enqueue now message q) (enqueue-IsBounded now message q)
      ∙ trim-trim_append q.maxlen (q.queue ++ (now, message) ∷ []) ms
      ∙ ap (trim q.maxlen) (append_assoc q.queue ((now, message) ∷ []) ms)

  -- For a bounded queue, however many messages are then enqueued: it holds the newest `maxlen` of
  -- all it held and was given, in order.
  pub queue-enqueue_all :
      (ms : List (ℕ × M)) (q : EventQueue M)
      → IsBounded q
      → (enqueue_all ms q).queue ≡ drop (length (q.queue ++ ms) - q.maxlen) (q.queue ++ ms)
  queue-enqueue_all ms q h = queue-enqueue_all-trim ms q h ∙ trim-eq-drop q.maxlen (q.queue ++ ms)

  length-trim_eq : (n : ℕ) (xs : List (ℕ × M)) → length (trim n xs) ≡ min n (length xs)
  unfolding trim
  length-trim_eq n [] = omega arith
  length-trim_eq n (x ∷ xs) = ground (arith, length-trim_eq n xs)

  counted :
      (now : ℕ) (message : M) (q : EventQueue M)
      → IsBounded q
      → dropped_count (enqueue now message q) + size (enqueue now message q)
        ≡ dropped_count q + size q + 1
  unfolding enqueue size dropped_count
  counted now message q h = ground (
    arith,
    length-trim_eq q.maxlen (q.queue ++ (now, message) ∷ []),
    length-append q.queue ((now, message) ∷ []),
  )

  -- No message goes missing uncounted: for a bounded queue, after any number of `enqueue` calls the
  -- messages held and those counted as dropped are the ones before and one more for each call.
  dropped_count-enqueue_all :
      (ms : List (ℕ × M)) (q : EventQueue M)
      → IsBounded q
      → dropped_count (enqueue_all ms q) + size (enqueue_all ms q)
        ≡ dropped_count q + size q + length ms
  dropped_count-enqueue_all [] q h = omega arith
  dropped_count-enqueue_all ((now, message) ∷ ms) q h = omega (
    arith,
    counted now message q h,
    dropped_count-enqueue_all ms (enqueue now message q) (enqueue-IsBounded now message q),
  )
