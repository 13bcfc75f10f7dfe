-- ===== src/AlertService/Consumer.antt =====
-- services/alert_service/src/alert_service/kafka/consumer.py: `AlertConsumer`, the rounds of its two
-- tasks; `PatternConsumer` of services/event_pattern_persistence is the same code. The deserializer,
-- the handler and the answers of the broker are arguments.
mod Tests
use invest_view.Common.{
  ℕ, suc, ◌+◌, ◌≤◌, ◌≡◌, Bool, true, false, not, ◌||◌, Option, none, some, List, [], ◌∷◌, ◌++◌,
  if◌then◌else◌, ltb, length, length-append, arith,
}

-- A partition and an offset.
abbrev pub Position : Type 0
Position = ℕ × ℕ

-- The error of a message: whether it is the end of the partition.
pub record Message (B : Type 0) : Type 0 where
  pub error : Option Bool
  pub value : Option B
  pub position : Position

-- What `poll` gives: nothing, an exception or a message.
pub data Polled (B : Type 0) : Type 0 where
  nothing : Polled B
  poll_raised : Polled B
  message : Message B → Polled B

-- What the deserializer gives: a dictionary, something else, or an exception.
pub data Decoded (E : Type 0) : Type 0 where
  dictionary : E → Decoded E
  not_a_dictionary : Decoded E
  decode_raised : Decoded E

pub record AlertConsumer (E : Type 0) : Type 0 where
  pub queue_maxsize : ℕ
  pub queue : List (Position × E)
  pub commits : List Position
  pub dead : Bool

module _ {E : Type 0} where
  unfoldable pub commit : Bool → Position → AlertConsumer E → AlertConsumer E
  commit accepted position s =
      if accepted
      then record s { commits = s.commits ++ position ∷ [] }
      else record s { dead = true }

  -- A tombstone is committed inside the `try`: where that raises, the handler of exceptions commits
  -- once more.
  unfoldable pub skip_tombstone : Bool → Bool → Position → AlertConsumer E → AlertConsumer E
  unfolding commit
  skip_tombstone first second position s =
      if first then commit true position s else commit second position s

  -- `self._queue.put`, none while the queue is full.
  unfoldable pub put : Position → E → AlertConsumer E → Option (AlertConsumer E)
  put position event s =
      if ltb (length s.queue) s.queue_maxsize
      then some (record s { queue = s.queue ++ (position, event) ∷ [] })
      else none

  -- A round of `_run_poll_loop`; `first` and `second` are what the broker answers to commits.
  unfoldable pub poll_round :
      {B : Type 0}
      → (B → Decoded E)
      → Bool
      → Bool
      → Polled B
      → AlertConsumer E
      → Option (AlertConsumer E)
  unfolding put skip_tombstone commit
  poll_round deserialize first second nothing s = some s
  poll_round deserialize first second poll_raised s = some s
  poll_round deserialize first second (message msg) s = elim msg.error [
    | some eof ↦ some s
    | none ↦ elim msg.value [
      | none ↦ some (skip_tombstone first second msg.position s)
      | some raw ↦ elim (deserialize raw) [
        | decode_raised ↦ some (commit first msg.position s)
        | not_a_dictionary ↦ some (commit first msg.position s)
        | dictionary event ↦ put msg.position event s
      ]
    ]
  ]

  -- A round of `_run_dispatch_loop`, if there is something in the queue: what the handler got, and the
  -- state. An exception ends the task.
  unfoldable pub dispatch_round : (E → Bool) → Bool → AlertConsumer E → Option E × AlertConsumer E
  unfolding commit
  dispatch_round on_message accepted s = elim s.queue [
    | [] ↦ (none, s)
    | (position, event) ∷ queue ↦
        let popped = record s { queue = queue } in
        if on_message event
        then (some event, commit accepted position popped)
        else (some event, record popped { dead = true })
  ]

  -- The queue keeps within its size.
  poll_round_bounded :
      {B : Type 0} (deserialize : B → Decoded E) (first second : Bool) (polled : Polled B)
      (s s' : AlertConsumer E)
      → length s.queue ≤ s.queue_maxsize
      → poll_round deserialize first second polled s ≡ some s'
      → length s'.queue ≤ s'.queue_maxsize
  unfolding poll_round
  poll_round_bounded deserialize first second nothing s s' b h = ground (arith, h)
  poll_round_bounded deserialize first second poll_raised s s' b h = ground (arith, h)
  poll_round_bounded deserialize first second (message msg) s s' b h =
      grind (arith, h, length-append)
