-- ===== src/Common/Mapping.antt =====
-- Python dicts in insertion order, over keys with a Boolean equality.
use Prim.Native.Nat.{ℕ}
use mathlib.Core.Path.{◌≡◌, refl}
use mathlib.Core.Logic.{◌⊎◌, inl, inr, ◌↔◌}
use mathlib.Core.Bool.{Bool, true, ◌&&◌}
use mathlib.Core.Option.{Option, none, some}
use mathlib.Core.List.{List, [], ◌∷◌, ◌++◌}
use native.Mathlib.Omega.{arith}
use Prim.Native.String.{String}
use text.Mathlib.Text.{◌==◌ as str_eq}
use text.Mathlib.TextEquality.{eq_iff}
use invest_view.Common.Int.{ℤ, eqb_ℤ, eq_of_parts}
use invest_view.Common.Tests.{◌==◌, ==_iff, if◌then◌else◌}

pub record Eq {ℓ} (A : Type ℓ) : Type ℓ where
  pub beq : A → A → Bool
  pub beq_iff : (a b : A) → (beq a b ≡ true) ↔ (a ≡ b)

instance abbrev pub nat_eq : Eq ℕ
nat_eq = record { beq = ◌==◌; beq_iff = ==_iff }

abbrev pub pair_beq : ℕ × ℕ → ℕ × ℕ → Bool
pair_beq (a, b) (c, d) = (a == c) && (b == d)

pub pair_beq_iff : (p q : ℕ × ℕ) → (pair_beq p q ≡ true) ↔ (p ≡ q)
pair_beq_iff (a, b) (c, d) = ground arith

instance abbrev pub pair_eq : Eq (ℕ × ℕ)
pair_eq = record { beq = pair_beq; beq_iff = pair_beq_iff }

pub beq_refl {ℓ} : {K : Type ℓ} ⦃e : Eq K⦄ (k : K) → e.beq k k ≡ true
beq_refl ⦃e⦄ k = (e.beq_iff k k).1 refl

abbrev pub Dict {ℓ κ} : Type ℓ → Type κ → Type (ℓ ⊔ κ)
Dict K V = List (K × V)

module _ {ℓ κ} {K : Type ℓ} {V : Type κ} ⦃e : Eq K⦄ where
  -- `d.get(k)`
  unfoldable pub lookup : K → Dict K V → Option V
  lookup k [] = none
  lookup k ((j, v) ∷ d) = if e.beq j k then some v else lookup k d

  -- `d[k] = v`
  unfoldable pub insert : K → V → Dict K V → Dict K V
  insert k v [] = (k, v) ∷ []
  insert k v ((j, w) ∷ d) = if e.beq j k then (j, v) ∷ d else (j, w) ∷ insert k v d

  -- `d.pop(k, None)`
  unfoldable pub erase : K → Dict K V → Dict K V
  erase k [] = []
  erase k ((j, w) ∷ d) = if e.beq j k then erase k d else (j, w) ∷ erase k d

  pub lookup-insert :
      (k j : K) (v : V) (d : Dict K V)
      → lookup j (insert k v d) ≡ (if e.beq k j then some v else lookup j d)
  unfolding lookup insert
  lookup-insert k j v [] = refl
  lookup-insert k j v ((i, w) ∷ d) =
      ground (arith, e.beq_iff k j, e.beq_iff i k, e.beq_iff i j, lookup-insert k j v d)

  pub lookup-erase :
      (k j : K) (d : Dict K V) → lookup j (erase k d) ≡ (if e.beq k j then none else lookup j d)
  unfolding lookup erase
  lookup-erase k j [] = ground arith
  lookup-erase k j ((i, w) ∷ d) =
      ground (arith, e.beq_iff k j, e.beq_iff i k, e.beq_iff i j, lookup-erase k j d)

-- A pair that stands in a list of pairs, and the same for entries added at the end.
module _ {K V : Type 0} where
  abbrev pub Entry : K → V → Dict K V → Type 0
  Entry k v [] = ⊥
  Entry k v (x ∷ d) = ((x.0 ≡ k) × (x.1 ≡ v)) ⊎ Entry k v d

  pub Entry-append_left : (k : K) (v : V) (d c : Dict K V) → Entry k v d → Entry k v (d ++ c)
  Entry-append_left k v [] c h = elim h [ ]
  Entry-append_left k v (x ∷ d) c (inl h) = inl h
  Entry-append_left k v (x ∷ d) c (inr h) = inr (Entry-append_left k v d c h)

  pub Entry-append_right : (k : K) (v : V) (d c : Dict K V) → Entry k v c → Entry k v (d ++ c)
  Entry-append_right k v [] c h = h
  Entry-append_right k v (x ∷ d) c h = inr (Entry-append_right k v d c h)

  pub Entry-append_cases :
      (k : K) (v : V) (d c : Dict K V) → Entry k v (d ++ c) → Entry k v d ⊎ Entry k v c
  Entry-append_cases k v [] c h = inr h
  Entry-append_cases k v (x ∷ d) c (inl h) = inl (inl h)
  Entry-append_cases k v (x ∷ d) c (inr h) = ground (arith, Entry-append_cases k v d c h)

  -- What is found stands in the list.
  pub Entry-lookup : ⦃e : Eq K⦄ (k : K) (v : V) (d : Dict K V) → lookup k d ≡ some v → Entry k v d
  unfolding lookup
  Entry-lookup k v [] h = cc
  Entry-lookup ⦃e⦄ k v ((j, w) ∷ d) h = ground (arith, e.beq_iff j k, Entry-lookup k v d)

  pub Entry-erase :
      ⦃e : Eq K⦄ (q k : K) (v : V) (d : Dict K V) → Entry k v (erase q d) → Entry k v d
  unfolding erase
  Entry-erase q k v [] h = elim h [ ]
  Entry-erase q k v (x ∷ d) h = ground (arith, Entry-erase q k v d)

  pub Entry-insert :
      ⦃e : Eq K⦄ (q : K) (w : V) (k : K) (v : V) (d : Dict K V)
      → Entry k v (insert q w d)
      → ((q ≡ k) × (w ≡ v)) ⊎ Entry k v d
  unfolding insert
  Entry-insert q w k v [] h = ground arith
  Entry-insert ⦃e⦄ q w k v (x ∷ d) h = ground (arith, e.beq_iff x.0 q, Entry-insert q w k v d)

pub eqb_ℤ_iff : (a b : ℤ) → (eqb_ℤ a b ≡ true) ↔ (a ≡ b)
eqb_ℤ_iff a b = ground (arith, eq_of_parts a b)

instance abbrev pub int_eq : Eq ℤ
int_eq = record { beq = eqb_ℤ; beq_iff = eqb_ℤ_iff }

unfoldable pub str_beq : String → String → Bool
str_beq a b = str_eq a b

pub str_beq_iff : (a b : String) → (str_beq a b ≡ true) ↔ (a ≡ b)
unfolding str_beq
str_beq_iff a b = eq_iff a b

instance abbrev pub string_eq : Eq String
string_eq = record { beq = str_beq; beq_iff = str_beq_iff }
