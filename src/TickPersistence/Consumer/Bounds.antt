-- ===== src/TickPersistence/Consumer/Bounds.antt =====
-- The queue between the two tasks holds no more messages than `max_queued_messages`.
use Prim.Native.String.{String}
use native.Mathlib.Nat.{div-add-mod', le-div_iff_mul-le}
use invest_view.Common.{
  ℕ, ◌+◌, ◌*◌, ◌/◌, ◌≤◌, ◌≡◌, some, List, [], ◌∷◌, ◌++◌, arith, max, length, length-append, All,
}
use invest_view.TickPersistence.Consumer.{Message, Decoded, QueuedMessage, TickConsumer}
use invest_view.TickPersistence.Consumer.Loop.{
  queue_max_batches, poll_batch, deserialize_all, put_batch,
}

max_one : (n : ℕ) → 1 ≤ n → max 1 n ≡ n
max_one n h = ground arith

-- A batch fits in the messages that may wait.
full_batch : (m b : ℕ) → 1 ≤ b → b ≤ m → 1 ≤ m / b
full_batch m b hb hm = ground (arith, le-div_iff_mul-le {k = b} {x = 1} {y = m})

pub queue_max_batches_lem : (m b n : ℕ) → queue_max_batches m b ≡ some n → (1 ≤ n) × (n * b ≤ m)
unfolding queue_max_batches
queue_max_batches_lem m b n h = grind (arith, div-add-mod' m b, full_batch m b, max_one (m / b))

abbrev pub messages_in {ℓ} : {A : Type ℓ} → List (List A) → ℕ
messages_in [] = 0
messages_in (q ∷ queue) = length q + messages_in queue

-- Batches of at most `b` messages, and no more of them than the queue has room for.
pub record Bounded {B V : Type 0} (b : ℕ) (c : TickConsumer B V) : Type 0 where
  pub small : All (λ q. length q ≤ b) c.queue
  pub room : length c.queue ≤ c.queue_max_batches

messages_in-le {ℓ} :
    {A : Type ℓ} (queue : List (List A)) (b : ℕ)
    → All (λ q. length q ≤ b) queue
    → messages_in queue ≤ length queue * b
messages_in-le [] b h = omega arith
messages_in-le (q ∷ queue) b h = grind (arith, messages_in-le queue b h.1)

module _ {B V : Type 0} (decode : B → Decoded V) where
  length-deserialize_all :
      (topic : String) (ms : List (Message B))
      → length (deserialize_all decode topic ms) ≤ length ms
  unfolding deserialize_all
  length-deserialize_all topic [] = omega arith
  length-deserialize_all topic (m ∷ ms) = ground (arith, length-deserialize_all topic ms)

  small-append :
      (queue : List (List (QueuedMessage B V))) (q : List (QueuedMessage B V)) (b : ℕ)
      → All (λ x. length x ≤ b) queue
      → length q ≤ b
      → All (λ x. length x ≤ b) (queue ++ q ∷ [])
  small-append [] q b h l = (l, tt)
  small-append (x ∷ queue) q b h l = (h.0, small-append queue q b h.1 l)

  put_batch-Bounded :
      (b : ℕ) (q : List (QueuedMessage B V)) (c c' : TickConsumer B V)
      → Bounded b c
      → length q ≤ b
      → put_batch q c ≡ some c'
      → Bounded b c' × (c'.queue_max_batches ≡ c.queue_max_batches)
  unfolding put_batch
  put_batch-Bounded b [] c c' v l h = ground arith
  put_batch-Bounded b (m ∷ q) c c' v l h =
      ground (arith, small-append c.queue (m ∷ q) b v.small l, length-append c.queue ((m ∷ q) ∷ []))

  -- With the queue's size from `max_queued_messages` and `batch_size`, a round of the poll loop
  -- that gets at most `batch_size` messages and finds room keeps a queue within its bounds within
  -- them, and so within `max_queued_messages` messages in all.
  pub poll_batch-Bounded :
      (max_queued_messages batch_size : ℕ) (ms : List (Message B)) (c c' : TickConsumer B V)
      → queue_max_batches max_queued_messages batch_size ≡ some c.queue_max_batches
      → length ms ≤ batch_size
      → Bounded batch_size c
      → poll_batch decode ms c ≡ some c'
      → Bounded batch_size c' × (messages_in c'.queue ≤ max_queued_messages)
  unfolding poll_batch
  poll_batch-Bounded m b ms c c' hq hl v h =
      let (b', same) =
        put_batch-Bounded b (deserialize_all decode c.topic ms) c c' v
          (omega (arith, length-deserialize_all c.topic ms)) h in
      (
        b',
        grind (
          arith,
          messages_in-le c'.queue b b'.small,
          (queue_max_batches_lem m b c.queue_max_batches hq).1,
          b'.room,
          same,
        ),
      )
