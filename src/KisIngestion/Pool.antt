-- ===== src/KisIngestion/Pool.antt =====
-- services/kis_ingestion/src/kis_ingestion/subscription_pool.py: `KISSubscriptionPool`.
-- A subscription is a transaction id and a symbol; a set is a list without repetitions.
pub mod Desired
mod Tests
use Prim.Native.String.{String}
use invest_view.Common.{
  ℕ, ◌≡◌, ◌↔◌, Bool, true, false, not, ◌&&◌, Option, none, some, List, [], ◌∷◌, arith,
  if◌then◌else◌, Eq, str_beq, str_beq_iff, ltb, length, add, discard, difference,
}

abbrev pub Subscription : Type 0
Subscription = String × String

unfoldable pub subscription_beq : Subscription → Subscription → Bool
subscription_beq k j = str_beq k.0 j.0 && str_beq k.1 j.1

pub subscription_beq_iff : (k j : Subscription) → (subscription_beq k j ≡ true) ↔ (k ≡ j)
unfolding subscription_beq
subscription_beq_iff k j = ground (arith, str_beq_iff k.0 j.0, str_beq_iff k.1 j.1)

instance abbrev pub subscription_eq : Eq Subscription
subscription_eq = record { beq = subscription_beq; beq_iff = subscription_beq_iff }

pub record KisSubscriptionPool : Type 0 where
  pub cap : ℕ
  pub desired : List Subscription
  pub actual : List Subscription

-- `set(item for item in self._desired if item[0] != tr_id)`
without_tr_id : String → List Subscription → List Subscription
without_tr_id tr_id [] = []
without_tr_id tr_id (k ∷ ks) =
    if str_beq k.0 tr_id then without_tr_id tr_id ks else k ∷ without_tr_id tr_id ks

add_symbols : String → List String → List Subscription → List Subscription
add_symbols tr_id [] ks = ks
add_symbols tr_id (symbol ∷ symbols) ks = add_symbols tr_id symbols (add (tr_id, symbol) ks)

-- `none` is the `ValueError`, after which the pool is as it was.
pub set_desired : List String → String → KisSubscriptionPool → Option KisSubscriptionPool
unfolding without_tr_id add_symbols
set_desired symbols tr_id pool =
    let new_desired = add_symbols tr_id symbols (without_tr_id tr_id pool.desired) in
    if ltb pool.cap (length new_desired) then none else some (record pool { desired = new_desired })

unfoldable pub confirm_subscribed : Subscription → KisSubscriptionPool → KisSubscriptionPool
confirm_subscribed k pool = record pool { actual = add k pool.actual }

unfoldable pub confirm_unsubscribed : Subscription → KisSubscriptionPool → KisSubscriptionPool
confirm_unsubscribed k pool = record pool { actual = discard k pool.actual }

-- What to subscribe and what to unsubscribe.
unfoldable pub diff : KisSubscriptionPool → List Subscription × List Subscription
diff pool = (difference pool.desired pool.actual, difference pool.actual pool.desired)

moved : String → String → Subscription → Subscription
moved old new k = if str_beq k.0 old then (new, k.1) else k

move_all : String → String → List Subscription → List Subscription → List Subscription
unfolding moved
move_all old new [] ks = ks
move_all old new (k ∷ desired) ks = move_all old new desired (add (moved old new k) ks)

pub switch_market : String → String → KisSubscriptionPool → KisSubscriptionPool
unfolding move_all
switch_market old new pool = record pool { desired = move_all old new pool.desired [] }

unfoldable pub clear_actual : KisSubscriptionPool → KisSubscriptionPool
clear_actual pool = record pool { actual = [] }
