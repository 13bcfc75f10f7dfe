-- ===== src/TickPersistence/Consumer/Tests.antt =====
-- Runs of the consumer over two messages of one partition, and its theorems there.
use invest_view.Common.{
  ℕ, ◌+◌, ◌≤◌, ◌≡◌, refl, Bool, true, false, Option, none, some, List, [], ◌∷◌, pos, leb_ℤ, lookup,
  insert, str_beq, ◌+ℤ◌, max_ℤ, length, arith,
}
use invest_view.TickPersistence.Ledger.{ReconciliationLedger}
use invest_view.TickPersistence.Consumer.{
  Message, Decoded, dict, TickMessage, QueuedMessage, deserialize_message, topic_or, PartitionKey,
  Offsets, partition_beq, partition_eq, position, next_offset, advance, offsets_by_partition,
  insert_sorted, sort_items, TickConsumer, commit_topic_partitions, ticks_of,
}
use invest_view.TickPersistence.Consumer.Loop.{
  queue_max_batches, deserialize_all, put_batch, poll_batch, commit_batch_offsets, dispatch,
}
use invest_view.TickPersistence.Consumer.Commits.{Dispatched, dispatch-Dispatched, dispatch_raised}
use invest_view.TickPersistence.Consumer.Bounds.{Bounded, messages_in, poll_batch-Bounded}

abbrev message : ℕ → Option ℕ → Message ℕ
message o v = record {
  topic = some "ticks";
  partition = some (pos 0);
  offset = some (pos o);
  error = none;
  value = v;
}

abbrev decode : ℕ → Decoded ℕ
decode v = dict v

abbrev batch : List (QueuedMessage ℕ ℕ)
batch =
    (
      message 6 (some 700),
      some (record {
        tick = 700;
        from_topic = "ticks";
        from_partition = pos 0;
        from_offset = pos 6;
      }),
    )
    ∷ (message 5 none, none)
    ∷ []

abbrev consumer : TickConsumer ℕ ℕ
consumer = record {
  topic = "ticks";
  queue = [];
  queue_max_batches = 2;
  last_successful = [];
  commits = [];
}

abbrev service : ℕ × ReconciliationLedger
service = (0, record { consumed = []; accounted = [] })

abbrev handler : ℕ × ReconciliationLedger → List (TickMessage ℕ) → Bool × (ℕ × ReconciliationLedger)
handler w ticks = (true, (w.0 + length ticks, w.1))

abbrev le : PartitionKey → PartitionKey → Bool
le k j = leb_ℤ k.1 j.1

deserialized : deserialize_all decode "ticks" (message 6 (some 700) ∷ message 5 none ∷ []) ≡ batch
unfolding deserialize_all deserialize_message topic_or str_beq
deserialized = refl

committed_offsets : offsets_by_partition "ticks" batch [] ≡ (("ticks", pos 0), pos 7) ∷ []
unfolding offsets_by_partition advance next_offset position topic_or lookup insert max_ℤ
    partition_beq str_beq ◌+ℤ◌
committed_offsets = refl

abbrev dispatched : Bool × (ℕ × ReconciliationLedger) × TickConsumer ℕ ℕ
dispatched = dispatch handler le true batch service consumer

dispatched_done : dispatched ≡ (true, dispatched.1, dispatched.2)
unfolding dispatch commit_batch_offsets offsets_by_partition advance position topic_or sort_items
    commit_topic_partitions insert insert_sorted ticks_of partition_beq str_beq
dispatched_done = refl

dispatch-Dispatched_example : Dispatched handler batch service dispatched.1 consumer dispatched.2
dispatch-Dispatched_example =
    dispatch-Dispatched handler le true batch service consumer dispatched.1 dispatched.2
      dispatched_done

abbrev refused : Bool × (ℕ × ReconciliationLedger) × TickConsumer ℕ ℕ
refused = dispatch handler le false batch service consumer

refused_done : refused ≡ (false, refused.1, refused.2)
unfolding dispatch commit_batch_offsets offsets_by_partition advance position topic_or sort_items
    commit_topic_partitions insert insert_sorted ticks_of partition_beq str_beq
refused_done = refl

dispatch_raised_example : refused.2 ≡ consumer
dispatch_raised_example =
    dispatch_raised handler le false batch service consumer refused.1 refused.2 refused_done

abbrev remembered : Offsets
remembered = (("ticks", pos 0), pos 7) ∷ []

abbrev polled : TickConsumer ℕ ℕ
polled = record consumer { queue = batch ∷ [] }

polled_round : poll_batch decode (message 6 (some 700) ∷ message 5 none ∷ []) consumer ≡ some polled
unfolding poll_batch put_batch deserialize_all deserialize_message topic_or str_beq
polled_round = refl

two_batches : queue_max_batches 4 2 ≡ some 2
unfolding queue_max_batches
two_batches = refl

consumer-Bounded : Bounded 2 consumer
consumer-Bounded = record { small = tt; room = omega arith }

poll_batch-Bounded_example : Bounded 2 polled × (messages_in polled.queue ≤ 4)
poll_batch-Bounded_example =
    poll_batch-Bounded decode 4 2 (message 6 (some 700) ∷ message 5 none ∷ []) consumer polled
      two_batches (omega arith) consumer-Bounded polled_round
