-- ===== src/Common/Sets.antt =====
-- Python sets as lists without a repeated element, over elements with a Boolean equality.
use Prim.Native.Nat.{◌+◌, ◌≤◌}
use mathlib.Core.Path.{◌≡◌, refl}
use mathlib.Core.Bool.{Bool, false, not, ◌&&◌, ◌||◌}
use mathlib.Core.List.{List, [], ◌∷◌}
use native.Mathlib.Omega.{arith}
use invest_view.Common.Tests.{if◌then◌else◌}
use invest_view.Common.Lists.{length}
use invest_view.Common.Mapping.{Eq}

module _ {ℓ} {A : Type ℓ} ⦃e : Eq A⦄ where
  -- `a in s`
  unfoldable pub member : A → List A → Bool
  member a [] = false
  member a (x ∷ s) = e.beq x a || member a s

  -- `s.add(a)`
  unfoldable pub add : A → List A → List A
  add a s = if member a s then s else a ∷ s

  -- `s.discard(a)`
  unfoldable pub discard : A → List A → List A
  discard a [] = []
  discard a (x ∷ s) = if e.beq x a then discard a s else x ∷ discard a s

  -- The elements of `s` that are not in `t`.
  unfoldable pub difference : List A → List A → List A
  difference [] t = []
  difference (x ∷ s) t = if member x t then difference s t else x ∷ difference s t

  abbrev pub Distinct : List A → Type 0
  Distinct [] = Unit {0}
  Distinct (x ∷ s) = (member x s ≡ false) × Distinct s

  pub member-add : (a b : A) (s : List A) → member b (add a s) ≡ (e.beq a b || member b s)
  unfolding add member
  member-add a b s = ground (arith, e.beq_iff a b)

  pub member-discard :
      (a b : A) (s : List A) → member b (discard a s) ≡ (not (e.beq a b) && member b s)
  unfolding discard member
  member-discard a b [] = ground arith
  member-discard a b (x ∷ s) =
      ground (arith, e.beq_iff a b, e.beq_iff x a, e.beq_iff x b, member-discard a b s)

  pub member-difference :
      (a : A) (s t : List A) → member a (difference s t) ≡ (member a s && not (member a t))
  unfolding difference member
  member-difference a [] t = refl
  member-difference a (x ∷ s) t = ground (arith, e.beq_iff x a, member-difference a s t)

  pub length-add_le : (a : A) (s : List A) → length (add a s) ≤ 1 + length s
  unfolding add
  length-add_le a s = ground arith

  pub add-Distinct : (a : A) (s : List A) → Distinct s → Distinct (add a s)
  unfolding add
  add-Distinct a s h = ground arith

  pub discard-Distinct : (a : A) (s : List A) → Distinct s → Distinct (discard a s)
  unfolding discard
  discard-Distinct a [] h = tt
  discard-Distinct a (x ∷ s) h = ground (arith, discard-Distinct a s h.1, member-discard a x s)
