-- ===== src/TickPersistence/Consumer.antt =====
-- services/tick_persistence/src/tick_persistence/kafka/consumer.py: `TickConsumer`.
-- The two tasks share a queue of batches: `poll_batch` is one round of `_run_poll_loop` with what
-- `consume` returned, `dispatch` one round of `_run_dispatch_loop` with the batch that it took.
-- The Avro deserializer, the handler and the answer of `commit` are arguments. Metrics, headers
-- and the lag gauge are left out.
pub mod Loop
pub mod Positions
pub mod Commits
pub mod Bounds
mod Tests
use Prim.Native.String.{String}
use invest_view.Common.{
  ℕ, suc, ◌+◌, ◌-◌, ◌/◌, ◌≡◌, ◌↔◌, Bool, true, false, not, ◌&&◌, ◌||◌, Option, none, some, List, [],
  ◌∷◌, ◌++◌, arith, ℤ, pos, negsuc, ltb_ℤ, leb_ℤ, eqb_ℤ, eqb_ℤ_iff, ◌+ℤ◌, max_ℤ, if◌then◌else◌, Eq,
  Dict, lookup, insert, str_beq, str_beq_iff, ltb, leb, ◌==◌, max, length, map,
}
use invest_view.TickPersistence.Ledger.{ReconciliationLedger, record_batch}

pub data MessageError : Type 0 where
  partition_eof other_error : MessageError

-- `confluent_kafka.Message`, over the raw values.
pub record Message (B : Type 0) : Type 0 where
  pub topic : Option String
  pub partition : Option ℤ
  pub offset : Option ℤ
  pub error : Option MessageError
  pub value : Option B

-- What the deserializer gives: a dictionary, another value, or an exception.
pub data Decoded (V : Type 0) : Type 0 where
  dict : V → Decoded V
  non_dict : Decoded V
  failed : Decoded V

pub record TickMessage (V : Type 0) : Type 0 where
  pub tick : V
  pub from_topic : String
  pub from_partition : ℤ
  pub from_offset : ℤ

abbrev pub QueuedMessage : Type 0 → Type 0 → Type 0
QueuedMessage B V = Message B × Option (TickMessage V)

-- `msg.topic() or self._topic`
pub topic_or : String → Option String → String
topic_or default none = default
topic_or default (some s) = if str_beq s "" then default else s

abbrev or_missing : Option ℤ → ℤ
or_missing none = negsuc 0
or_missing (some n) = n

-- `_deserialize_message`: a message with an error is dropped, one that gives no tick is kept
-- with none, so that its offset is committed.
pub deserialize_message :
    {B V : Type 0} → (B → Decoded V) → String → Message B → Option (QueuedMessage B V)
unfolding topic_or
deserialize_message decode topic msg = elim msg.error [
  | some _ ↦ none
  | none ↦ elim msg.value [
    | none ↦ some (msg, none)
    | some raw ↦ elim (decode raw) [
      | failed ↦ some (msg, none)
      | non_dict ↦ some (msg, none)
      | dict v ↦ some (
        msg,
        some (record {
          tick = v;
          from_topic = topic_or topic msg.topic;
          from_partition = or_missing msg.partition;
          from_offset = or_missing msg.offset;
        }),
      )
    ]
  ]
]

-- A topic and a partition, the key of the offset tables.
abbrev pub PartitionKey : Type 0
PartitionKey = String × ℤ

pub partition_beq : PartitionKey → PartitionKey → Bool
partition_beq k j = str_beq k.0 j.0 && eqb_ℤ k.1 j.1

pub partition_beq_iff : (k j : PartitionKey) → (partition_beq k j ≡ true) ↔ (k ≡ j)
unfolding partition_beq
partition_beq_iff k j = ground (arith, str_beq_iff k.0 j.0, eqb_ℤ_iff k.1 j.1)

instance abbrev pub partition_eq : Eq PartitionKey
partition_eq = record { beq = partition_beq; beq_iff = partition_beq_iff }

abbrev pub Offsets : Type 0
Offsets = Dict PartitionKey ℤ

-- The position of a message, where it has one.
pub position : {B : Type 0} → String → Message B → Option (PartitionKey × ℤ)
unfolding topic_or
position topic msg = elim msg.partition [
  | none ↦ none
  | some p ↦ elim msg.offset [ none ↦ none | some o ↦ some ((topic_or topic msg.topic, p), o) ]
]

-- `max(offset + 1, offsets.get(key, offset + 1))`
next_offset : ℤ → Option ℤ → ℤ
next_offset o none = o +ℤ pos 1
next_offset o (some old) = max_ℤ (o +ℤ pos 1) old

-- The entry of a message's partition moves past the message; one with no position is skipped.
advance : Option (PartitionKey × ℤ) → Offsets → Offsets
unfolding next_offset
advance none offsets = offsets
advance (some (k, o)) offsets = insert k (next_offset o (lookup k offsets)) offsets

-- The loop of `_commit_batch_offsets`.
pub offsets_by_partition : {B V : Type 0} → String → List (QueuedMessage B V) → Offsets → Offsets
offsets_by_partition topic [] offsets = offsets
offsets_by_partition topic (m ∷ batch) offsets =
    offsets_by_partition topic batch (advance (position topic m.0) offsets)

-- `sorted` of the items, by the order of the keys, which is Python's on tuples.
pub insert_sorted : (PartitionKey → PartitionKey → Bool) → PartitionKey × ℤ → Offsets → Offsets
insert_sorted le e [] = e ∷ []
insert_sorted le e (x ∷ xs) = if le e.0 x.0 then e ∷ x ∷ xs else x ∷ insert_sorted le e xs

pub sort_items : (PartitionKey → PartitionKey → Bool) → Offsets → Offsets
unfolding insert_sorted
sort_items le [] = []
sort_items le (x ∷ xs) = insert_sorted le x (sort_items le xs)

pub record TickConsumer (B V : Type 0) : Type 0 where
  pub topic : String
  pub queue : List (List (QueuedMessage B V))
  pub queue_max_batches : ℕ
  pub last_successful : Offsets
  pub commits : List Offsets

-- The loop at the end of `_commit_topic_partitions`.
pub remember : Offsets → Offsets → Offsets
remember [] last = last
remember ((k, o) ∷ offsets) last = remember offsets (elim (lookup k last) [
  | none ↦ insert k o last
  | some current ↦ if ltb_ℤ current o then insert k o last else last
])

-- `_commit_topic_partitions`, given whether the broker takes the commit; `false` is the exception.
pub commit_topic_partitions :
    {B V : Type 0} → Bool → Offsets → Bool → TickConsumer B V → Bool × TickConsumer B V
unfolding remember
commit_topic_partitions accepted [] keep c = (true, c)
commit_topic_partitions accepted (e ∷ offsets) keep c =
    if accepted
    then (
      true,
      record c {
        commits = c.commits ++ (e ∷ offsets) ∷ [];
        last_successful =
            if keep then remember (e ∷ offsets) c.last_successful else c.last_successful;
      },
    )
    else (false, c)

unfoldable pub ticks_of : {B V : Type 0} → List (QueuedMessage B V) → List (TickMessage V)
ticks_of [] = []
ticks_of ((m, none) ∷ batch) = ticks_of batch
ticks_of ((m, some t) ∷ batch) = t ∷ ticks_of batch

unfoldable pub has_tick : {A : Type 0} → Option A → Bool
has_tick none = false
has_tick (some _) = true

-- What the ledger is told of a batch.
unfoldable pub ledger_rows : {B V : Type 0} → List (QueuedMessage B V) → List (Option ℤ × Bool)
unfolding has_tick
ledger_rows [] = []
ledger_rows ((m, t) ∷ batch) = (m.partition, has_tick t) ∷ ledger_rows batch
