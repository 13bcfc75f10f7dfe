-- ===== src/TickPersistence/Ledger/Balance.antt =====
-- Every consumed message is accounted for once.
use invest_view.Common.{
  ◌≡◌, ℤ, pos, ◌≤ℤ◌, ◌+ℤ◌, eqb_ℤ, eqb_ℤ_iff, if◌then◌else◌, lookup, int_eq, lookup-insert, int_laws,
}
use invest_view.TickPersistence.Ledger.{
  Category, ReconciliationLedger, get_or, consumed_at, record_consumed, record_category,
  accounted_at, add_count, counts_at,
}

pub record_consumed_lem :
    (p n q : ℤ) (l : ReconciliationLedger)
    → pos 0 ≤ℤ n
    → (consumed_at (record_consumed p n l) q
        ≡ (if eqb_ℤ p q then consumed_at l q +ℤ n else consumed_at l q))
      × (accounted_at (record_consumed p n l) q ≡ accounted_at l q)
unfolding record_consumed accounted_at
record_consumed_lem p n q l h = grind (
  int_laws,
  lookup-insert p q (get_or (pos 0) (lookup p l.consumed) +ℤ n) l.consumed,
  eqb_ℤ_iff p q,
)

pub record_category_lem :
    (c : Category) (p n q : ℤ) (l : ReconciliationLedger)
    → pos 0 ≤ℤ n
    → (accounted_at (record_category c p n l) q
        ≡ (if eqb_ℤ p q then accounted_at l q +ℤ n else accounted_at l q))
      × (consumed_at (record_category c p n l) q ≡ consumed_at l q)
unfolding record_category accounted_at counts_at consumed_at
record_category_lem c p n q l h =
    grind (int_laws, lookup-insert p q (add_count c n (counts_at l p)) l.accounted, eqb_ℤ_iff p q)
