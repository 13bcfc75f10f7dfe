-- ===== src/KisIngestion/Pool/Desired.antt =====
-- What is desired after `set_desired` and `switch_market`, and that it stays within the cap.
use Prim.Native.String.{String}
use invest_view.Common.{
  ◌+◌, ◌≤◌, ◌≡◌, refl, Bool, not, ◌&&◌, ◌||◌, some, List, [], ◌∷◌, arith, if◌then◌else◌, str_beq,
  str_beq_iff, string_eq, length, member, add, Distinct, member-add, add-Distinct, length-add_le,
}
use invest_view.KisIngestion.Pool.{
  Subscription, subscription_eq, subscription_beq, KisSubscriptionPool, without_tr_id, add_symbols,
  set_desired, moved, move_all, switch_market,
}

-- The pool's sets have no repetitions, and no more is desired than the cap allows.
pub record InCap (pool : KisSubscriptionPool) : Type 0 where
  pub desired_distinct : Distinct pool.desired
  pub actual_distinct : Distinct pool.actual
  pub within_cap : length pool.desired ≤ pool.cap

member-without_tr_id :
    (tr_id : String) (ks : List Subscription) (k : Subscription)
    → member k (without_tr_id tr_id ks) ≡ (not (str_beq k.0 tr_id) && member k ks)
unfolding without_tr_id member subscription_beq
member-without_tr_id tr_id [] k = ground arith
member-without_tr_id tr_id (j ∷ ks) k =
    ground (arith, member-without_tr_id tr_id ks k, str_beq_iff j.0 k.0)

member-add_symbols :
    (tr_id : String) (symbols : List String) (ks : List Subscription) (k : Subscription)
    → member k (add_symbols tr_id symbols ks)
      ≡ ((str_beq k.0 tr_id && member k.1 symbols) || member k ks)
unfolding add_symbols member subscription_beq
member-add_symbols tr_id [] ks k = ground arith
member-add_symbols tr_id (s ∷ symbols) ks k = ground (
  arith,
  member-add_symbols tr_id symbols (add (tr_id, s) ks) k,
  member-add (tr_id, s) k ks,
  str_beq_iff k.0 tr_id,
  str_beq_iff tr_id k.0,
)

without_tr_id-Distinct :
    (tr_id : String) (ks : List Subscription) → Distinct ks → Distinct (without_tr_id tr_id ks)
unfolding without_tr_id
without_tr_id-Distinct tr_id [] h = tt
without_tr_id-Distinct tr_id (k ∷ ks) h =
    ground (arith, without_tr_id-Distinct tr_id ks h.1, member-without_tr_id tr_id ks k)

add_symbols-Distinct :
    (tr_id : String) (symbols : List String) (ks : List Subscription)
    → Distinct ks
    → Distinct (add_symbols tr_id symbols ks)
unfolding add_symbols
add_symbols-Distinct tr_id [] ks h = h
add_symbols-Distinct tr_id (s ∷ symbols) ks h =
    add_symbols-Distinct tr_id symbols (add (tr_id, s) ks) (add-Distinct (tr_id, s) ks h)

-- When `set_desired` does not raise, exactly the symbols are desired under the transaction id,
-- the other ids are as before, and the pool stays within its cap.
pub set_desired_lem :
    (symbols : List String) (tr_id : String) (pool pool' : KisSubscriptionPool)
    → InCap pool
    → set_desired symbols tr_id pool ≡ some pool'
    → InCap pool'
      × ((k : Subscription)
          → member k pool'.desired
            ≡ (if str_beq k.0 tr_id then member k.1 symbols else member k pool.desired))
      × (pool'.actual ≡ pool.actual)
unfolding set_desired
set_desired_lem symbols tr_id pool pool' v h =
    let d = without_tr_id-Distinct tr_id pool.desired v.desired_distinct in
    let d' = add_symbols-Distinct tr_id symbols (without_tr_id tr_id pool.desired) d in
    (
      ground (arith, d'),
      λ k. ground (
        arith,
        member-add_symbols tr_id symbols (without_tr_id tr_id pool.desired) k,
        member-without_tr_id tr_id pool.desired k,
      ),
      ground arith,
    )

-- Whether `k` is the image of a desired subscription.
abbrev pub is_moved : String → String → List Subscription → Subscription → Bool
is_moved old new desired k =
    (not (str_beq k.0 old) && member k desired) || (str_beq k.0 new && member (old, k.1) desired)

member-move_all :
    (old new : String) (desired ks : List Subscription) (k : Subscription)
    → member k (move_all old new desired ks) ≡ (is_moved old new desired k || member k ks)
unfolding move_all member moved subscription_beq
member-move_all old new [] ks k = ground arith
member-move_all old new (j ∷ desired) ks k = ground (
  arith,
  member-move_all old new desired (add (moved old new j) ks) k,
  member-add (moved old new j) k ks,
  str_beq_iff k.0 old,
  str_beq_iff j.0 old,
  str_beq_iff old j.0,
  str_beq_iff j.0 k.0,
  str_beq_iff new k.0,
  str_beq_iff k.0 new,
  str_beq_iff j.1 k.1,
)

move_all-Distinct :
    (old new : String) (desired ks : List Subscription)
    → Distinct ks
    → Distinct (move_all old new desired ks)
unfolding move_all
move_all-Distinct old new [] ks h = h
move_all-Distinct old new (j ∷ desired) ks h =
    move_all-Distinct old new desired (add (moved old new j) ks)
      (add-Distinct (moved old new j) ks h)

length-move_all_le :
    (old new : String) (desired ks : List Subscription)
    → length (move_all old new desired ks) ≤ length desired + length ks
unfolding move_all
length-move_all_le old new [] ks = omega arith
length-move_all_le old new (j ∷ desired) ks = omega (
  arith,
  length-move_all_le old new desired (add (moved old new j) ks),
  length-add_le (moved old new j) ks,
)

-- After `switch_market` the symbols of the old id are desired under the new one, next to what was
-- desired under the other ids, nothing under the old one unless it is the new one, and the pool
-- stays within its cap.
pub switch_market_lem :
    (old new : String) (pool : KisSubscriptionPool)
    → InCap pool
    → InCap (switch_market old new pool)
      × ((k : Subscription)
          → member k (switch_market old new pool).desired ≡ (
              (not (str_beq k.0 old) && member k pool.desired)
              || (str_beq k.0 new && member (old, k.1) pool.desired)))
      × ((switch_market old new pool).actual ≡ pool.actual)
unfolding switch_market member
switch_market_lem old new pool v = (
  record {
    desired_distinct = move_all-Distinct old new pool.desired [] tt;
    actual_distinct = v.actual_distinct;
    within_cap = omega (arith, length-move_all_le old new pool.desired [], v.within_cap);
  },
  λ k. ground (arith, member-move_all old new pool.desired [] k),
  refl,
)
