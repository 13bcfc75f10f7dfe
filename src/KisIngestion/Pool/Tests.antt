-- ===== src/KisIngestion/Pool/Tests.antt =====
-- A pool of three symbols, and its theorems there.
use invest_view.Common.{
  ◌≡◌, refl, not, ◌&&◌, ◌||◌, some, none, [], ◌∷◌, arith, if◌then◌else◌, str_beq, member, add,
  string_eq,
}
use invest_view.KisIngestion.Pool.{
  Subscription, subscription_eq, subscription_beq, KisSubscriptionPool, set_desired, without_tr_id,
  add_symbols, switch_market,
}
use invest_view.KisIngestion.Pool.Desired.{InCap, set_desired_lem, switch_market_lem}

abbrev pool : KisSubscriptionPool
pool = record { cap = 2; desired = ("H0STCNT0", "005930") ∷ []; actual = [] }

abbrev wider : KisSubscriptionPool
wider = record pool { desired = ("H0NXCNT0", "000660") ∷ ("H0STCNT0", "005930") ∷ [] }

pool-InCap : InCap pool
unfolding member
pool-InCap = record {
  desired_distinct = (refl, tt);
  actual_distinct = tt;
  within_cap = omega arith;
}

wider_set : set_desired ("000660" ∷ []) "H0NXCNT0" pool ≡ some wider
unfolding set_desired without_tr_id add_symbols add member subscription_beq str_beq
wider_set = refl

too_wide : set_desired ("000660" ∷ "035420" ∷ []) "H0NXCNT0" pool ≡ none
unfolding set_desired without_tr_id add_symbols add member subscription_beq str_beq
too_wide = refl

set_desired_lem_example :
    InCap wider
    × ((k : Subscription)
        → member k wider.desired
          ≡ (if str_beq k.0 "H0NXCNT0" then member k.1 ("000660" ∷ []) else member k pool.desired))
    × (wider.actual ≡ pool.actual)
set_desired_lem_example = set_desired_lem ("000660" ∷ []) "H0NXCNT0" pool wider pool-InCap wider_set

switch_market_lem_example :
    InCap (switch_market "H0STCNT0" "H0NXCNT0" pool)
    × ((k : Subscription)
        → member k (switch_market "H0STCNT0" "H0NXCNT0" pool).desired ≡ (
            (not (str_beq k.0 "H0STCNT0") && member k pool.desired)
            || (str_beq k.0 "H0NXCNT0" && member ("H0STCNT0", k.1) pool.desired)))
    × ((switch_market "H0STCNT0" "H0NXCNT0" pool).actual ≡ pool.actual)
switch_market_lem_example = switch_market_lem "H0STCNT0" "H0NXCNT0" pool pool-InCap
