-- ===== src/TickPersistence/Consumer/Loop.antt =====
-- The rounds of the two tasks of `TickConsumer`, the rebalance callback and the queue's size.
-- The handler is a function of the service's state and its ledger; `false` says that it raised, after
-- which what it changed in memory stays.
use Prim.Native.String.{String}
use invest_view.Common.{
  ℕ, ◌/◌, Bool, true, false, not, ◌||◌, Option, none, some, List, [], ◌∷◌, ◌++◌, if◌then◌else◌, ltb,
  ◌==◌, max, length,
}
use invest_view.TickPersistence.Ledger.{ReconciliationLedger, record_batch}
use invest_view.TickPersistence.Consumer.{
  Message, Decoded, TickMessage, QueuedMessage, deserialize_message, PartitionKey, Offsets,
  partition_beq, offsets_by_partition, sort_items, TickConsumer, commit_topic_partitions, ticks_of,
  ledger_rows,
}

-- `_queue_max_batches`; `none` is the `ValueError`.
unfoldable pub queue_max_batches : ℕ → ℕ → Option ℕ
queue_max_batches max_queued_messages batch_size =
    if batch_size == 0
    then none
    else if ltb max_queued_messages batch_size
    then none
    else some (max 1 (max_queued_messages / batch_size))

-- What the handler does to the service's state and the ledger with a list of ticks.
abbrev pub Handler : Type 0 → Type 0 → Type 0
Handler S V = S × ReconciliationLedger → List (TickMessage V) → Bool × (S × ReconciliationLedger)

-- The `if tick_messages` of the dispatch loop.
unfoldable pub handle_ticks :
    {S V : Type 0}
    → Handler S V
    → List (TickMessage V)
    → S × ReconciliationLedger
    → Bool × (S × ReconciliationLedger)
handle_ticks handler [] w = (true, w)
handle_ticks handler (t ∷ ticks) w = handler w (t ∷ ticks)

unfoldable pub contains_key : PartitionKey → List PartitionKey → Bool
contains_key k [] = false
contains_key k (j ∷ ks) = partition_beq j k || contains_key k ks

-- The offsets that `_on_revoke` commits once more: all of them if no partition is named.
unfoldable pub revoked_offsets : List PartitionKey → Offsets → Offsets
unfolding contains_key
revoked_offsets revoked [] = []
revoked_offsets revoked ((k, o) ∷ offsets) =
    let rest = revoked_offsets revoked offsets in
    if (length revoked == 0) || contains_key k revoked then (k, o) ∷ rest else rest

module _ {B V : Type 0} where
  unfoldable pub deserialize_all :
      (B → Decoded V) → String → List (Message B) → List (QueuedMessage B V)
  deserialize_all decode topic [] = []
  deserialize_all decode topic (m ∷ messages) = elim (deserialize_message decode topic m) [
    | none ↦ deserialize_all decode topic messages
    | some q ↦ q ∷ deserialize_all decode topic messages
  ]

  unfoldable pub put_batch : List (QueuedMessage B V) → TickConsumer B V → Option (TickConsumer B V)
  put_batch [] c = some c
  put_batch (q ∷ batch) c =
      if ltb (length c.queue) c.queue_max_batches
      then some (record c { queue = c.queue ++ (q ∷ batch) ∷ [] })
      else none

  -- One round of `_run_poll_loop` over the messages that `consume` returned; `none` while `put`
  -- waits for room in the queue.
  unfoldable pub poll_batch :
      (B → Decoded V) → List (Message B) → TickConsumer B V → Option (TickConsumer B V)
  unfolding deserialize_all put_batch
  poll_batch decode messages c = put_batch (deserialize_all decode c.topic messages) c

  -- `_commit_batch_offsets`
  unfoldable pub commit_batch_offsets :
      (PartitionKey → PartitionKey → Bool)
      → Bool
      → List (QueuedMessage B V)
      → TickConsumer B V
      → Bool × TickConsumer B V
  commit_batch_offsets le accepted batch c =
      commit_topic_partitions accepted (sort_items le (offsets_by_partition c.topic batch [])) true
        c

  module _ {S : Type 0} where
    -- One round of `_run_dispatch_loop` with the batch that it took from the queue: the handler,
    -- then the commit, then the ledger. `false` is the exception that ends the task.
    unfoldable pub dispatch :
        Handler S V
        → (PartitionKey → PartitionKey → Bool)
        → Bool
        → List (QueuedMessage B V)
        → S × ReconciliationLedger
        → TickConsumer B V
        → Bool × (S × ReconciliationLedger) × TickConsumer B V
    unfolding handle_ticks commit_batch_offsets
    dispatch handler le accepted batch w c =
        let (took, w') = handle_ticks handler (ticks_of batch) w in
        let (done, c') = commit_batch_offsets le accepted batch c in
        if not took
        then (false, w', c)
        else if done
        then (true, (w'.0, record_batch (ledger_rows batch) w'.1), c')
        else (false, w', c')

    -- The batch at the head of the queue is taken before it is dispatched.
    unfoldable pub dispatch_next :
        Handler S V
        → (PartitionKey → PartitionKey → Bool)
        → Bool
        → S × ReconciliationLedger
        → TickConsumer B V
        → Bool × (S × ReconciliationLedger) × TickConsumer B V
    unfolding dispatch
    dispatch_next handler le accepted w c = elim c.queue [
      | [] ↦ (true, w, c)
      | batch ∷ rest ↦ dispatch handler le accepted batch w (record c { queue = rest })
    ]

  -- `_on_revoke`: the pending batches go, the handler's state is cleared, and what was committed
  -- last is committed once more; an exception of that commit is only logged.
  unfoldable pub on_revoke :
      {S : Type 0}
      → (S → S)
      → Bool
      → List PartitionKey
      → S
      → TickConsumer B V
      → S × TickConsumer B V
  unfolding revoked_offsets
  on_revoke clear_state accepted revoked s c = (
    clear_state s,
    (commit_topic_partitions accepted (revoked_offsets revoked c.last_successful) false
        (record c { queue = [] })).1,
  )
