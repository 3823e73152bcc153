-- ===== src/EventQueue.antt =====
-- gateway/event_queue.py: the in-memory queue that buffers messages while the gateway is away.
-- A timestamp is the count of nanoseconds that `time.monotonic` stands for.
pub mod Bounds
pub mod Drain
pub mod Interleaved
use staykey_ha_plugin.Prelude.{
  ℕ, ◌+◌, ◌-◌, ◌*◌, ◌^◌, Bool, List, [], ◌∷◌, ◌++◌, length, ltb, leb, if◌then◌else◌,
}

abbrev pub max_queue_size : ℕ
max_queue_size = 500

abbrev second : ℕ
second = 10 ^ 9

abbrev pub max_event_age : ℕ
max_event_age = 3600 * second

pub record EventQueue (M : Type 0) : Type 0 where
  pub queue : List (ℕ × M)
  pub maxlen : ℕ
  pub dropped : ℕ

module _ {M : Type 0} where
  -- `EventQueue(max_size)`
  unfoldable pub new : ℕ → EventQueue M
  new max_size = record { queue = []; maxlen = max_size; dropped = 0 }

  unfoldable pub size : EventQueue M → ℕ
  size q = length q.queue

  unfoldable pub dropped_count : EventQueue M → ℕ
  dropped_count q = q.dropped

  -- the front items that a `deque` gives up until at most `maxlen` are left
  unfoldable pub trim : ℕ → List (ℕ × M) → List (ℕ × M)
  trim n [] = []
  trim n (x ∷ xs) = let shorter = trim n xs in if ltb n (length (x ∷ xs)) then shorter else x ∷ xs

  -- `deque.append` on a `deque(maxlen=…)`
  unfoldable pub append : ℕ → List (ℕ × M) → ℕ × M → List (ℕ × M)
  unfolding trim
  append n xs x = trim n (xs ++ x ∷ [])

  unfoldable pub enqueue : ℕ → M → EventQueue M → EventQueue M
  unfolding append
  enqueue now message q = record q {
    queue = append q.maxlen q.queue (now, message);
    dropped = if leb q.maxlen (length q.queue) then q.dropped + 1 else q.dropped;
  }

  unfoldable pub clear : EventQueue M → EventQueue M
  clear q = record q { queue = []; dropped = 0 }

-- What `drain` is given: a send function acts on the state `S` and tells whether it raised.
module _ {M S : Type 0} (send : M → S → Bool × S) where
  -- the `while` loop of `drain`: the items left, the number sent and the sender's state
  unfoldable pub drain_loop : ℕ → ℕ → List (ℕ × M) → S → List (ℕ × M) × ℕ × S
  drain_loop now sent [] s = ([], sent, s)
  drain_loop now sent ((timestamp, message) ∷ rest) s =
      let skipped = drain_loop now sent rest s in
      let (done, s') = send message s in
      let next = drain_loop now (sent + 1) rest s' in
      if ltb max_event_age (now - timestamp)
      then skipped
      else if done
      then next
      else ((timestamp, message) ∷ rest, sent, s')

  unfoldable pub drain : ℕ → EventQueue M → S → ℕ × EventQueue M × S
  unfolding drain_loop
  drain now q s =
      let (left, sent, s') = drain_loop now 0 q.queue s in
      (sent, record q { queue = left; dropped = 0 }, s')
