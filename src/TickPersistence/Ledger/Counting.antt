-- ===== src/TickPersistence/Ledger/Counting.antt =====
-- `_counts_by_partition` counts, and the loops over its result add the counts to the ledger.
use invest_view.Common.{
  ℕ, suc, ◌≡◌, refl, none, List, [], ◌∷◌, arith, ℤ, pos, sym, ltb_ℤ, ◌≤ℤ◌, ◌+ℤ◌, ◌-ℤ◌, eqb_ℤ,
  eqb_ℤ_iff, if◌then◌else◌, Dict, lookup, insert, int_eq, lookup-insert, int_laws, +ℤ_parts,
  -ℤ_parts, +ℤ_zero,
}
use invest_view.TickPersistence.Ledger.{
  Category, conflict, ReconciliationLedger, get_or, consumed_at, record_category, accounted_at,
  count_into, record_all, record_conflicts,
}
use invest_view.TickPersistence.Ledger.Balance.{record_category_lem}

-- How often a partition occurs.
unfoldable pub count_of : ℤ → List ℤ → ℕ
count_of q [] = 0
count_of q (p ∷ ps) = if eqb_ℤ p q then suc (count_of q ps) else count_of q ps

abbrev pub at : Dict ℤ ℤ → ℤ → ℤ
at d q = get_or (pos 0) (lookup q d)

-- A table of counts: each partition once, no count below 0.
abbrev pub Counted : Dict ℤ ℤ → Type 0
Counted [] = Unit {0}
Counted ((k, n) ∷ d) = (pos 0 ≤ℤ n) × (lookup k d ≡ none) × Counted d

pub at-nonneg : (d : Dict ℤ ℤ) (q : ℤ) → Counted d → pos 0 ≤ℤ at d q
unfolding lookup
at-nonneg [] q h = omega arith
at-nonneg ((k, n) ∷ d) q h = ground (arith, at-nonneg d q h.2)

insert-Counted : (p v : ℤ) (d : Dict ℤ ℤ) → pos 0 ≤ℤ v → Counted d → Counted (insert p v d)
unfolding insert
insert-Counted p v [] h c = (h, unfold lookup in refl, tt)
insert-Counted p v ((k, n) ∷ d) h c =
    ground (arith, insert-Counted p v d h c.2, lookup-insert p k v d, eqb_ℤ_iff k p, eqb_ℤ_iff p k)

pub at-insert : (p v q : ℤ) (d : Dict ℤ ℤ) → at (insert p v d) q ≡ (if eqb_ℤ p q then v else at d q)
at-insert p v q d = ground (arith, lookup-insert p q v d)

pub count_into-Counted : (d : Dict ℤ ℤ) (ps : List ℤ) → Counted d → Counted (count_into d ps)
unfolding count_into
count_into-Counted d [] c = c
count_into-Counted d (p ∷ ps) c =
    count_into-Counted (insert p (at d p +ℤ pos 1) d) ps
      (insert-Counted p _ d (omega (int_laws, at-nonneg d p c, +ℤ_parts (at d p) (pos 1))) c)

pub at-count_into :
    (d : Dict ℤ ℤ) (ps : List ℤ) (q : ℤ) → at (count_into d ps) q ≡ at d q +ℤ pos (count_of q ps)
unfolding count_into count_of
at-count_into d [] q = omega int_laws
at-count_into d (p ∷ ps) q = ground (
  arith,
  at-count_into (insert p (at d p +ℤ pos 1) d) ps q,
  at-insert p (at d p +ℤ pos 1) q d,
  eqb_ℤ_iff p q,
  step (at d p) (count_of q ps),
  step (at d q) (count_of q ps),
)
  where
    step : (a : ℤ) (n : ℕ) → a +ℤ pos 1 +ℤ pos n ≡ a +ℤ pos (suc n)
    step a n = omega int_laws

-- Adding a table of counts to one category adds each count to its partition.
pub record_all_lem :
    (c : Category) (d : Dict ℤ ℤ) (l : ReconciliationLedger) (q : ℤ)
    → Counted d
    → (accounted_at (record_all c d l) q ≡ accounted_at l q +ℤ at d q)
      × (consumed_at (record_all c d l) q ≡ consumed_at l q)
unfolding record_all lookup
record_all_lem c [] l q h = (omega int_laws, refl)
record_all_lem c ((p, n) ∷ d) l q h = ground (
  arith,
  record_all_lem c d (record_category c p n l) q h.2,
  record_category_lem c p n q l h.0,
  eqb_ℤ_iff p q,
  +ℤ_zero (accounted_at l q +ℤ n),
)

-- What `record_conflicts` adds for one partition.
abbrev pub excess : ℤ → ℤ → ℤ
excess n m = if ltb_ℤ (pos 0) (n -ℤ m) then n -ℤ m else pos 0

excess_zero : (m : ℤ) → pos 0 ≤ℤ m → excess (pos 0) m ≡ pos 0
excess_zero m h = grind (int_laws, -ℤ_parts (pos 0) m)

add_excess : ℤ → ℤ → ℤ → ReconciliationLedger → ReconciliationLedger
add_excess p n m l = if ltb_ℤ (pos 0) (n -ℤ m) then record_category conflict p (n -ℤ m) l else l

add_excess_lem :
    (p n m q : ℤ) (l : ReconciliationLedger)
    → (accounted_at (add_excess p n m l) q
        ≡ (if eqb_ℤ p q then accounted_at l q +ℤ excess n m else accounted_at l q))
      × (consumed_at (add_excess p n m l) q ≡ consumed_at l q)
unfolding add_excess
add_excess_lem p n m q l =
    ground (arith, record_category_lem conflict p (n -ℤ m) q l, +ℤ_zero (accounted_at l q))

pub record_conflicts_lem :
    (ins d : Dict ℤ ℤ) (l : ReconciliationLedger) (q : ℤ)
    → Counted d
    → Counted ins
    → (accounted_at (record_conflicts ins d l) q ≡ accounted_at l q +ℤ excess (at d q) (at ins q))
      × (consumed_at (record_conflicts ins d l) q ≡ consumed_at l q)
unfolding record_conflicts lookup add_excess
record_conflicts_lem ins [] l q h i =
    (rw (excess_zero (at ins q) (at-nonneg ins q i)) (sym (+ℤ_zero (accounted_at l q))), refl)
record_conflicts_lem ins ((p, n) ∷ d) l q h i = ground (
  arith,
  record_conflicts_lem ins d (add_excess p n (at ins p) l) q h.2 i,
  add_excess_lem p n (at ins p) q l,
  eqb_ℤ_iff p q,
  excess_zero (at ins q) (at-nonneg ins q i),
  +ℤ_zero (accounted_at l q +ℤ excess n (at ins q)),
)
