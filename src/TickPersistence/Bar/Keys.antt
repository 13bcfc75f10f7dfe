-- ===== src/TickPersistence/Bar/Keys.antt =====
-- The order of tick keys is a strict total order, so the other modules keep `key_lt` shut.
use invest_view.Common.{◌≡◌, true, false, arith, eq_of_parts}
use invest_view.TickPersistence.Bar.{TickKey, key_lt}

pub key_lt_irrefl : (a : TickKey) → key_lt a a ≡ false
unfolding key_lt
key_lt_irrefl a = ground arith

pub key_lt_trans : (a b c : TickKey) → key_lt a b ≡ true → key_lt b c ≡ true → key_lt a c ≡ true
unfolding key_lt
key_lt_trans a b c h k = ground arith

pub key_lt_asymm : (a b : TickKey) → key_lt a b ≡ true → key_lt b a ≡ false
unfolding key_lt
key_lt_asymm a b h = ground arith

pub key_lt_total : (a b : TickKey) → key_lt a b ≡ false → key_lt b a ≡ false → a ≡ b
unfolding key_lt
key_lt_total a b h k =
    ground (arith, eq_of_parts a.partition b.partition, eq_of_parts a.offset b.offset)
