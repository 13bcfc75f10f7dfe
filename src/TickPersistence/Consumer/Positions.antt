-- ===== src/TickPersistence/Consumer/Positions.antt =====
-- What `_commit_batch_offsets` computes: the offsets that it commits for a batch.
use Prim.Native.String.{String}
use invest_view.Common.{
  ◌≡◌, ◌⊎◌, inl, inr, refl, Bool, Option, none, some, List, [], ◌∷◌, arith, ℤ, pos, ◌≤ℤ◌, ◌<ℤ◌,
  ◌+ℤ◌, max_ℤ, max_ℤ_bounds, +ℤ_parts, lookup, lookup-insert, Entry, Entry-lookup, Entry-insert,
  Bool-cases, ◌∙◌, sym, subst, ap,
}
use invest_view.TickPersistence.Consumer.{
  QueuedMessage, PartitionKey, Offsets, partition_eq, partition_beq, partition_beq_iff, position,
  next_offset, advance, offsets_by_partition, insert_sorted, sort_items,
}

insert_sorted-Entry :
    (le : PartitionKey → PartitionKey → Bool) (e : PartitionKey × ℤ) (d : Offsets)
    (k : PartitionKey) (n : ℤ)
    → Entry k n (e ∷ d)
    → Entry k n (insert_sorted le e d)
unfolding insert_sorted
insert_sorted-Entry le e [] k n h = h
insert_sorted-Entry le e (x ∷ d) k n h = ground (arith, insert_sorted-Entry le e d k n)

Entry-insert_sorted :
    (le : PartitionKey → PartitionKey → Bool) (e : PartitionKey × ℤ) (d : Offsets)
    (k : PartitionKey) (n : ℤ)
    → Entry k n (insert_sorted le e d)
    → Entry k n (e ∷ d)
unfolding insert_sorted
Entry-insert_sorted le e [] k n h = h
Entry-insert_sorted le e (x ∷ d) k n h = ground (arith, Entry-insert_sorted le e d k n)

-- Sorting keeps the entries.
pub sort_items-Entry :
    (le : PartitionKey → PartitionKey → Bool) (d : Offsets) (k : PartitionKey) (n : ℤ)
    → Entry k n d
    → Entry k n (sort_items le d)
unfolding sort_items
sort_items-Entry le [] k n h = h
sort_items-Entry le (x ∷ d) k n h =
    insert_sorted-Entry le x (sort_items le d) k n (ground (arith, sort_items-Entry le d k n))

pub Entry-sort_items :
    (le : PartitionKey → PartitionKey → Bool) (d : Offsets) (k : PartitionKey) (n : ℤ)
    → Entry k n (sort_items le d)
    → Entry k n d
unfolding sort_items
Entry-sort_items le [] k n h = h
Entry-sort_items le (x ∷ d) k n h =
    ground (arith, Entry-insert_sorted le x (sort_items le d) k n h, Entry-sort_items le d k n)

-- The table has an offset past this position.
abbrev pub Past : Offsets → Option (PartitionKey × ℤ) → Type 0
Past offsets none = Unit {0}
Past offsets (some (k, o)) = (n : ℤ) × Entry k n offsets × (o <ℤ n)

next_offset_lt : (o : ℤ) (old : Option ℤ) → o <ℤ next_offset o old
unfolding next_offset
next_offset_lt o none = omega (arith, +ℤ_parts o (pos 1))
next_offset_lt o (some old) = omega (arith, +ℤ_parts o (pos 1), (max_ℤ_bounds (o +ℤ pos 1) old).0)

next_offset_cases :
    (o : ℤ) (old : Option ℤ) → (next_offset o old ≡ o +ℤ pos 1) ⊎ (old ≡ some (next_offset o old))
unfolding next_offset max_ℤ
next_offset_cases o none = inl refl
next_offset_cases o (some old) = ground arith

advance_grows :
    (offsets : Offsets) (p : Option (PartitionKey × ℤ)) (k : PartitionKey) (n : ℤ)
    → lookup k offsets ≡ some n
    → (n' : ℤ) × (lookup k (advance p offsets) ≡ some n') × (n ≤ℤ n')
unfolding advance
advance_grows offsets none k n h = (n, h, omega arith)
advance_grows offsets (some (j, o)) k n h = elim (Bool-cases (partition_beq j k)) [
  | inl e ↦ (
    max_ℤ (o +ℤ pos 1) n,
    ground (
      arith,
      lookup-insert j k (next_offset o (lookup j offsets)) offsets,
      partition_beq_iff j k,
    ),
    (max_ℤ_bounds (o +ℤ pos 1) n).1,
  )
  | inr e ↦
      (n, ground (arith, lookup-insert j k (next_offset o (lookup j offsets)) offsets), omega arith)
]

module _ {B V : Type 0} (topic : String) where
  abbrev pub AllPast : Offsets → List (QueuedMessage B V) → Type 0
  AllPast offsets [] = Unit {0}
  AllPast offsets (m ∷ batch) = Past offsets (position topic m.0) × AllPast offsets batch

  -- `n` is one past the offset of a message of the batch in the partition `k`.
  abbrev pub OnePast : PartitionKey → ℤ → List (QueuedMessage B V) → Type 0
  OnePast k n [] = ⊥
  OnePast k n (m ∷ batch) =
      ((o : ℤ) × (position topic m.0 ≡ some (k, o)) × (n ≡ o +ℤ pos 1)) ⊎ OnePast k n batch

  grows :
      (batch : List (QueuedMessage B V)) (offsets : Offsets) (k : PartitionKey) (n : ℤ)
      → lookup k offsets ≡ some n
      → (n' : ℤ) × (lookup k (offsets_by_partition topic batch offsets) ≡ some n') × (n ≤ℤ n')
  unfolding offsets_by_partition
  grows [] offsets k n h = (n, h, omega arith)
  grows (m ∷ batch) offsets k n h =
      let (n₁, h₁, le₁) = advance_grows offsets (position topic m.0) k n h in
      let (n₂, h₂, le₂) = grows batch (advance (position topic m.0) offsets) k n₁ h₁ in
      (n₂, h₂, omega arith)

  after-Past :
      (batch : List (QueuedMessage B V)) (offsets : Offsets) (p : Option (PartitionKey × ℤ))
      → Past (offsets_by_partition topic batch (advance p offsets)) p
  after-Past batch offsets none = tt
  after-Past batch offsets (some (k, o)) =
      let n₁ = next_offset o (lookup k offsets) in
      let (n₂, h₂, le₂) = grows batch (advance (some (k, o)) offsets) k n₁ (found k o offsets) in
      (n₂, Entry-lookup k n₂ _ h₂, omega (arith, next_offset_lt o (lookup k offsets)))
    where
      found :
          (k : PartitionKey) (o : ℤ) (offsets : Offsets)
          → lookup k (advance (some (k, o)) offsets) ≡ some (next_offset o (lookup k offsets))
      found k o offsets =
          unfold advance in
          ground (
            arith,
            lookup-insert k k (next_offset o (lookup k offsets)) offsets,
            partition_beq_iff k k,
          )

  -- Every message of the batch lies before the offset of its partition.
  pub offsets_by_partition-AllPast :
      (batch : List (QueuedMessage B V)) (offsets : Offsets)
      → AllPast (offsets_by_partition topic batch offsets) batch
  unfolding offsets_by_partition
  offsets_by_partition-AllPast [] offsets = tt
  offsets_by_partition-AllPast (m ∷ batch) offsets =
      (after-Past batch offsets (position topic m.0), offsets_by_partition-AllPast batch _)

  -- No offset is past what the batch holds.
  pub offsets_by_partition-OnePast :
      (batch : List (QueuedMessage B V)) (offsets : Offsets) (k : PartitionKey) (n : ℤ)
      → Entry k n (offsets_by_partition topic batch offsets)
      → Entry k n offsets ⊎ OnePast k n batch
  unfolding offsets_by_partition
  offsets_by_partition-OnePast [] offsets k n h = inl h
  offsets_by_partition-OnePast (m ∷ batch) offsets k n h =
      elim (offsets_by_partition-OnePast batch (advance (position topic m.0) offsets) k n h) [
        | inl e ↦ one (position topic m.0) refl e
        | inr e ↦ inr (inr e)
      ]
    where
      one :
          (p : Option (PartitionKey × ℤ))
          → position topic m.0 ≡ p
          → Entry k n (advance p offsets)
          → Entry k n offsets ⊎ OnePast k n (m ∷ batch)
      one none e h = inl (unfold advance in h)
      one (some (j, o)) e h =
          elim (Entry-insert j (next_offset o (lookup j offsets)) k n offsets
            (unfold advance in h)) [
              | inr old ↦ inl old
              | inl (ek, ev) ↦ elim (next_offset_cases o (lookup j offsets)) [
                | inl new ↦ inr (inl (o, e ∙ ap (λ q. some (q, o)) ek, sym ev ∙ new))
                | inr kept ↦ inl (
                    subst (λ q. Entry q n offsets) ek
                      (subst (λ v. Entry j v offsets) ev (Entry-lookup j _ offsets kept)))
              ]
            ]
