-- ===== src/TickPersistence/Consumer/Commits.antt =====
-- Delivery is at least once: what a round of the dispatch loop commits, and what it remembers.
use Prim.Native.String.{String}
use invest_view.Common.{
  ◌≡◌, ◌⊎◌, ap, inl, inr, Bool, true, false, Option, none, some, List, [], ◌∷◌, ◌++◌, arith, ℤ,
  ltb_ℤ, ◌≤ℤ◌, lookup, lookup-insert, Entry, Bool-cases,
}
use invest_view.TickPersistence.Ledger.{ReconciliationLedger, record_batch}
use invest_view.TickPersistence.Consumer.{
  QueuedMessage, PartitionKey, Offsets, partition_eq, partition_beq, partition_beq_iff, position,
  offsets_by_partition, sort_items, TickConsumer, remember, commit_topic_partitions, ticks_of,
  ledger_rows,
}
use invest_view.TickPersistence.Consumer.Loop.{Handler, handle_ticks, dispatch}
use invest_view.TickPersistence.Consumer.Positions.{
  Past, AllPast, OnePast, offsets_by_partition-AllPast, offsets_by_partition-OnePast,
  sort_items-Entry, Entry-sort_items,
}

-- What is remembered for a partition never moves back.
remember_grows :
    (offsets last : Offsets) (k : PartitionKey) (n : ℤ)
    → lookup k last ≡ some n
    → (n' : ℤ) × (lookup k (remember offsets last) ≡ some n') × (n ≤ℤ n')
unfolding remember
remember_grows [] last k n h = (n, h, omega arith)
remember_grows ((j, o) ∷ offsets) last k n h = elim (Bool-cases (partition_beq j k)) [
  | inl e ↦ elim (Bool-cases (ltb_ℤ n o)) [
    | inl lt ↦
        let (n', h', le') =
          remember_grows offsets _ k o
            (ground (arith, lookup-insert j k o last, partition_beq_iff j k)) in
        (n', h', ground arith)
    | inr ge ↦
        remember_grows offsets _ k n
          (ground (arith, lookup-insert j k o last, partition_beq_iff j k))
  ]
  | inr e ↦ remember_grows offsets _ k n (ground (arith, lookup-insert j k o last))
]

AllPast-sort :
    {B V : Type 0} (topic : String) (le : PartitionKey → PartitionKey → Bool) (d : Offsets)
    (batch : List (QueuedMessage B V))
    → AllPast topic d batch
    → AllPast topic (sort_items le d) batch
AllPast-sort topic le d [] h = tt
AllPast-sort topic le d (m ∷ batch) h =
    (one (position topic m.0) h.0, AllPast-sort topic le d batch h.1)
  where
    one : (p : Option (PartitionKey × ℤ)) → Past d p → Past (sort_items le d) p
    one none h = tt
    one (some (k, o)) (n, en, lt) = (n, sort_items-Entry le d k n en, lt)

-- A round that went through: the handler took the ticks, and one commit was added whose offsets
-- lie past every message of the batch and past no other.
pub record Dispatched {S B V : Type 0} (handler : Handler S V) (batch : List (QueuedMessage B V))
    (w w' : S × ReconciliationLedger) (c c' : TickConsumer B V) : Type 0 where
  pub offsets : Offsets
  pub after : S × ReconciliationLedger
  pub handled : handle_ticks handler (ticks_of batch) w ≡ (true, after)
  pub counted : w' ≡ (after.0, record_batch (ledger_rows batch) after.1)
  pub past : AllPast c.topic offsets batch
  pub only : (k : PartitionKey) (n : ℤ) → Entry k n offsets → OnePast c.topic k n batch
  pub committed :
      ((offsets ≡ []) × (c'.commits ≡ c.commits)) ⊎ (c'.commits ≡ c.commits ++ offsets ∷ [])
  pub same_queue : c'.queue ≡ c.queue

module _ {B V : Type 0} (c : TickConsumer B V) (accepted keep : Bool) (c' : TickConsumer B V) where
  commit_done :
      (offsets : Offsets)
      → commit_topic_partitions accepted offsets keep c ≡ (true, c')
      → (((offsets ≡ []) × (c'.commits ≡ c.commits)) ⊎ (c'.commits ≡ c.commits ++ offsets ∷ []))
        × (c'.queue ≡ c.queue)
  unfolding commit_topic_partitions
  commit_done [] e = ground arith
  commit_done (x ∷ offsets) e = ground arith

  commit_failed :
      (offsets : Offsets) → commit_topic_partitions accepted offsets keep c ≡ (false, c') → c' ≡ c
  unfolding commit_topic_partitions
  commit_failed [] e = ground arith
  commit_failed (x ∷ offsets) e = ground arith

module _ {S B V : Type 0} (handler : Handler S V) (le : PartitionKey → PartitionKey → Bool)
    (accepted : Bool) (batch : List (QueuedMessage B V)) (w : S × ReconciliationLedger)
    (c : TickConsumer B V) (w' : S × ReconciliationLedger) (c' : TickConsumer B V) where
  batch_offsets : Offsets
  batch_offsets = sort_items le (offsets_by_partition c.topic batch [])

  batch_offsets-OnePast :
      (k : PartitionKey) (n : ℤ) → Entry k n batch_offsets → OnePast c.topic k n batch
  unfolding batch_offsets
  batch_offsets-OnePast k n h =
      elim (offsets_by_partition-OnePast c.topic batch [] k n (Entry-sort_items le _ k n h)) [
        | inl none_yet ↦ absurd none_yet
        | inr one ↦ one
      ]

  -- A round of the dispatch loop that does not raise: the handler took the ticks of the batch, the
  -- ledger counted it, the queue is as it was, and the offsets committed at the end of the commits
  -- (none if there are none) are past every message of the batch that has a position, each of them
  -- one past a message of its partition.
  pub dispatch-Dispatched :
      dispatch handler le accepted batch w c ≡ (true, w', c') → Dispatched handler batch w w' c c'
  unfolding dispatch batch_offsets
  dispatch-Dispatched e = elim (Bool-cases (handle_ticks handler (ticks_of batch) w).0) [
    | inr raised ↦ absurd (ground (arith, raised, e))
    | inl took ↦ record {
      offsets = batch_offsets;
      after = (handle_ticks handler (ticks_of batch) w).1;
      handled = ap (λ b. (b, (handle_ticks handler (ticks_of batch) w).1)) took;
      counted = ground (arith, took);
      past = AllPast-sort c.topic le _ batch (offsets_by_partition-AllPast c.topic batch []);
      only = batch_offsets-OnePast;
      committed = (commit_done c accepted true c' batch_offsets (ground (arith, took))).0;
      same_queue = (commit_done c accepted true c' batch_offsets (ground (arith, took))).1;
    }
  ]

  -- A round that raises, in the handler or in the commit, commits and remembers nothing.
  pub dispatch_raised : dispatch handler le accepted batch w c ≡ (false, w', c') → c' ≡ c
  unfolding dispatch batch_offsets
  dispatch_raised e = elim (Bool-cases (handle_ticks handler (ticks_of batch) w).0) [
    | inr raised ↦ ground (arith, raised, e)
    | inl took ↦ commit_failed c accepted true c' batch_offsets (ground (arith, took))
  ]
