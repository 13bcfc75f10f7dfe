-- ===== src/TickPersistence/Bar/Order.antt =====
-- A bar is determined by the set of its ticks: arrival order does not matter.
use mathlib.Core.Logic.{∥∥₁_elim}
use mathlib.Core.List.{Perm, Permᴰ, Mem, Nodup, Nodup-cons, mem-cons_self}
use mathlib.Core.List.Perm
use invest_view.Common.{
  ◌≡◌, ◌≢◌, refl, false, Option, none, some, List, ◌∷◌, map, foldl, ◌∙◌, ap, sym, subst,
}
use invest_view.TickPersistence.Bar.{TickKey, BarState, TickInput, from_tick, assign_tick}
use invest_view.TickPersistence.Bar.Commute.{assign_tick_swap, from_tick_swap}

-- The bar under a bucket's key after one more tick: created by the first, mutated by the others.
unfoldable pub absorb : Option BarState → TickInput → Option BarState
absorb none t = some (from_tick t false)
absorb (some b) t = some (assign_tick t b)

unfoldable pub bar_of : List TickInput → Option BarState
bar_of = foldl absorb none

abbrev pub keys_of : List TickInput → List TickKey
keys_of = map λ t. t.tick_key

absorb_swap :
    (o : Option BarState) (t u : TickInput)
    → t.tick_key ≢ u.tick_key
    → absorb (absorb o t) u ≡ absorb (absorb o u) t
unfolding absorb
absorb_swap none t u ne = ap some (sym (from_tick_swap t u false ne))
absorb_swap (some b) t u ne = ap some (sym (assign_tick_swap t u b ne))

Option_bar-set : IsSet (Option BarState)
Option_bar-set = hlevel

head_ne :
    (t u : TickInput) (l : List TickInput) → Nodup (keys_of (t ∷ u ∷ l)) → t.tick_key ≢ u.tick_key
head_ne t u l d e = (Nodup-cons.0 d).0 (subst (λ k. Mem t.tick_key (k ∷ keys_of l)) e mem-cons_self)

foldl-perm :
    {xs ys : List TickInput} (o : Option BarState)
    → Permᴰ xs ys
    → Nodup (keys_of xs)
    → foldl absorb o xs ≡ foldl absorb o ys
foldl-perm o Permᴰ.nil d = refl
foldl-perm o (Permᴰ.cons {a} {b} {l₁} {l₂} e p) d =
    foldl-perm (absorb o a) p (Nodup-cons.0 d).1 ∙ ap (λ x. foldl absorb (absorb o x) l₂) e
foldl-perm o (Permᴰ.swap {a} {b} {a'} {b'} {l} e f) d =
    ap (λ s. foldl absorb s l) (absorb_swap o a b (head_ne a b l d))
    ∙ ap (λ x. foldl absorb (absorb (absorb o x) a) l) f
    ∙ ap (λ x. foldl absorb (absorb (absorb o a') x) l) e
foldl-perm o (Permᴰ.trans p q) d =
    foldl-perm o p d ∙ foldl-perm o q (Perm.nodup (Perm.map (λ t. t.tick_key) ∣ p ∣₁) d)

-- Two arrival orders of the same ticks, whose keys are distinct, build the same bar.
pub bar_of-perm : (xs ys : List TickInput) → Perm xs ys → Nodup (keys_of xs) → bar_of xs ≡ bar_of ys
unfolding bar_of
bar_of-perm xs ys p d = ∥∥₁_elim p (Option_bar-set _ _) (λ q. foldl-perm none q d)
