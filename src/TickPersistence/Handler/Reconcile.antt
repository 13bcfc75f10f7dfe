-- ===== src/TickPersistence/Handler/Reconcile.antt =====
-- Zero loss: a batch that was handled leaves the balance of every partition as it was.
use Prim.Native.String.{String}
use invest_view.Common.{
  ℕ, suc, ◌+◌, ◌≤◌, ◌≡◌, inl, inr, refl, Option, none, some, List, [], ◌∷◌, arith, ℤ, pos, ◌+ℤ◌,
  ◌-ℤ◌, eqb_ℤ, eqb_ℤ_iff, if◌then◌else◌, lookup, map, All, int_laws, -ℤ_parts, Option-cases, ◌∙◌,
  sym, ap, pos_part, neg_part, ◌+◌, +ℤ_zero,
}
use invest_view.TickPersistence.Ledger.{
  ReconciliationLedger, record_handled, record_batch, record_consumed, record_category, skip,
  inserted, quarantine, imbalance, consumed_at, accounted_at, record_all, count_into,
}
use invest_view.TickPersistence.Ledger.Balance.{record_consumed_lem, record_category_lem}
use invest_view.TickPersistence.Ledger.Counting.{
  count_of, at, count_into-Counted, at-count_into, record_all_lem, record_conflicts_lem, excess,
}
use invest_view.TickPersistence.Consumer.{
  TickMessage, QueuedMessage, ticks_of, ledger_rows, has_tick,
}
use invest_view.TickPersistence.Handler.{
  QuarantinedTick, InsertedTick, partition_messages, record_reconciliation,
}

zero_add : (n : ℕ) → pos 0 +ℤ pos n ≡ pos n
zero_add n = omega int_laws

table-at : (ps : List ℤ) (q : ℤ) → at (count_into [] ps) q ≡ pos (count_of q ps)
unfolding lookup
table-at ps q = at-count_into [] ps q ∙ zero_add (count_of q ps)

excess-count : (n m : ℕ) → m ≤ n → pos m +ℤ excess (pos n) (pos m) ≡ pos n
excess-count n m h = grind (int_laws, -ℤ_parts (pos n) (pos m))

regroup : (a e : ℤ) (i n k : ℕ) → pos i +ℤ e ≡ pos n → a +ℤ pos i +ℤ pos k +ℤ e ≡ a +ℤ pos (n + k)
regroup a e i n k h = omega (int_laws, ap pos_part h, ap neg_part h)

-- What the handler records, when it inserted no more than the valid messages.
record_handled_lem :
    (valid quarantined ins : List ℤ) (l : ReconciliationLedger) (q : ℤ)
    → count_of q ins ≤ count_of q valid
    → (accounted_at (record_handled valid quarantined ins l) q
        ≡ accounted_at l q +ℤ pos (count_of q valid + count_of q quarantined))
      × (consumed_at (record_handled valid quarantined ins l) q ≡ consumed_at l q)
unfolding record_handled
record_handled_lem valid quarantined ins l q h =
    let l₁ = record_all inserted (count_into [] ins) l in
    let l₂ = record_all quarantine (count_into [] quarantined) l₁ in
    let a = record_all_lem inserted (count_into [] ins) l q (count_into-Counted [] ins tt) in
    let b =
      record_all_lem quarantine (count_into [] quarantined) l₁ q
        (count_into-Counted [] quarantined tt) in
    let c =
      record_conflicts_lem (count_into [] ins) (count_into [] valid) l₂ q
        (count_into-Counted [] valid tt) (count_into-Counted [] ins tt) in
    ground (
      arith,
      a,
      b,
      c,
      table-at ins q,
      table-at quarantined q,
      table-at valid q,
      regroup (accounted_at l q) (excess (pos (count_of q valid)) (pos (count_of q ins)))
          (count_of q ins) (count_of q valid) (count_of q quarantined)
          (excess-count (count_of q valid) (count_of q ins) h),
    )

-- Valid and quarantined messages together are the messages.
partition_messages-count :
    {V : Type 0} (validate : TickMessage V → Option String) (ms : List (TickMessage V)) (q : ℤ)
    → count_of q (map (λ m. m.from_partition) (partition_messages validate ms).0)
        + count_of q (map (λ m. m.quarantine_partition) (partition_messages validate ms).1)
      ≡ count_of q (map (λ m. m.from_partition) ms)
unfolding partition_messages count_of
partition_messages-count validate [] q = refl
partition_messages-count validate (m ∷ ms) q =
    ground (arith, partition_messages-count validate ms q)

-- The ticks of the batch carry the partitions of their messages.
abbrev pub Agree : {B V : Type 0} → QueuedMessage B V → Type 0
Agree (m, none) = Unit {0}
Agree (m, some t) = m.partition ≡ some t.from_partition

add_one : (a : ℤ) (n : ℕ) → a +ℤ pos 1 +ℤ pos n ≡ a +ℤ pos (suc n)
add_one a n = omega int_laws

-- How many messages of the partition gave no tick.
skipped_at : {B V : Type 0} → ℤ → List (QueuedMessage B V) → ℕ
skipped_at q [] = 0
skipped_at q ((m, some t) ∷ batch) = skipped_at q batch
skipped_at q ((m, none) ∷ batch) =
    let rest = skipped_at q batch in
    elim m.partition [ none ↦ rest | some p ↦ if eqb_ℤ p q then suc rest else rest ]

abbrev ticks_at : {B V : Type 0} → ℤ → List (QueuedMessage B V) → ℕ
ticks_at q batch = count_of q (map (λ t. t.from_partition) (ticks_of batch))

-- What the consumer records: every message as consumed, those that gave no tick as skipped.
record_batch_lem :
    {B V : Type 0} (batch : List (QueuedMessage B V)) (l : ReconciliationLedger) (q : ℤ)
    → All Agree batch
    → (accounted_at (record_batch (ledger_rows batch) l) q
        ≡ accounted_at l q +ℤ pos (skipped_at q batch))
      × (consumed_at (record_batch (ledger_rows batch) l) q
          ≡ consumed_at l q +ℤ pos (skipped_at q batch + ticks_at q batch))
unfolding record_batch ledger_rows ticks_of count_of has_tick skipped_at
record_batch_lem [] l q h = (sym (+ℤ_zero (accounted_at l q)), sym (+ℤ_zero (consumed_at l q)))
record_batch_lem ((m, none) ∷ batch) l q h = elim (Option-cases m.partition) [
  | inl e ↦ ground (arith, record_batch_lem batch l q h.1)
  | inr (p, e) ↦ ground (
    arith,
    record_batch_lem batch (record_category skip p (pos 1) (record_consumed p (pos 1) l)) q h.1,
    record_category_lem skip p (pos 1) q (record_consumed p (pos 1) l),
    record_consumed_lem p (pos 1) q l,
    eqb_ℤ_iff p q,
    add_one (accounted_at l q) (skipped_at q batch),
    add_one (consumed_at l q) (skipped_at q batch + ticks_at q batch),
  )
]
record_batch_lem ((m, some t) ∷ batch) l q h = ground (
  arith,
  record_batch_lem batch (record_consumed t.from_partition (pos 1) l) q h.1,
  record_consumed_lem t.from_partition (pos 1) q l,
  eqb_ℤ_iff t.from_partition q,
  add_one (consumed_at l q) (skipped_at q batch + ticks_at q batch),
)

balance : (a b : ℤ) (n : ℕ) → a +ℤ pos n -ℤ (b +ℤ pos n) ≡ a -ℤ b
balance a b n = omega int_laws

sum_swap : (a : ℤ) (v k s n : ℕ) → v + k ≡ n → a +ℤ pos (v + k) +ℤ pos s ≡ a +ℤ pos (s + n)
sum_swap a v k s n h = omega int_laws

-- Zero loss: when a batch was handled (each message valid or quarantined, of the valid ones at
-- most as many inserted in a partition as there are) and then recorded by the consumer, every
-- partition has the imbalance that it had before. The ticks carry their messages' partitions.
pub reconciliation_balanced :
    {B V : Type 0} (validate : TickMessage V → Option String) (batch : List (QueuedMessage B V))
    (ins : List (InsertedTick V)) (l : ReconciliationLedger) (q : ℤ)
    → All Agree batch
    → count_of q (map (λ t. t.lineage.partition) ins)
      ≤ count_of q (map (λ m. m.from_partition) (partition_messages validate (ticks_of batch)).0)
    → imbalance
        (record_batch (ledger_rows batch) (
          record_reconciliation
            (partition_messages validate (ticks_of batch)).0
            (partition_messages validate (ticks_of batch)).1
            ins
            l))
        q
      ≡ imbalance l q
unfolding imbalance record_reconciliation
reconciliation_balanced {V = V} validate batch ins l q agree le =
    let valid =
      map (λ (m : TickMessage V). m.from_partition)
        (partition_messages validate (ticks_of batch)).0 in
    let quarantined =
      map (λ (m : QuarantinedTick V). m.quarantine_partition)
        (partition_messages validate (ticks_of batch)).1 in
    let inserted_at = map (λ (t : InsertedTick V). t.lineage.partition) ins in
    let l₁ = record_handled valid quarantined inserted_at l in
    ground (
      arith,
      record_handled_lem valid quarantined inserted_at l q le,
      record_batch_lem batch l₁ q agree,
      sum_swap (accounted_at l q) (count_of q valid) (count_of q quarantined) (skipped_at q batch)
          (ticks_at q batch) (partition_messages-count validate (ticks_of batch) q),
      balance (consumed_at l q) (accounted_at l q) (skipped_at q batch + ticks_at q batch),
    )
