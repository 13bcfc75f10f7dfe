-- ===== src/TickPersistence/Aggregator/Finalize.antt =====
-- What `_finalize` and the loops over it do to the aggregator.
use invest_view.Common.{
  ℕ, ◌+◌, ◌≤◌, ◌≡◌, refl, ◌≢◌, ◌⊎◌, inl, inr, true, not, ◌&&◌, some, List, [], ◌∷◌, arith, lookup,
  lookup-erase, Entry, Entry-append_left, Entry-append_right, ◌∙◌, leb, Bool-cases,
}
use invest_view.TickPersistence.Aggregator.{
  Aggregator, BarKey, key_eq, key_beq_iff, finalize, is_prior, close_prior, close_due, bucket_size,
}
use Prim.Native.String.{String}

-- From `a` to `b` some bars were finalized, and nothing else has changed: every bar that left the
-- mapping is in the list of finalized bars.
pub record Closing (a b : Aggregator) : Type 0 where
  pub same_next : b.next ≡ a.next
  pub same_latest : b.latest ≡ a.latest
  pub shrinks : (k : BarKey) (i : ℕ) → lookup k b.bars ≡ some i → lookup k a.bars ≡ some i
  pub kept :
      (k : BarKey) (i : ℕ)
      → lookup k a.bars ≡ some i
      → (lookup k b.bars ≡ some i) ⊎ Entry k i b.newly_finalized
  pub listed : (k : BarKey) (i : ℕ) → Entry k i a.newly_finalized → Entry k i b.newly_finalized
  pub only_flag : (i : ℕ) → b.heap i ≡ record (a.heap i) { is_final = (b.heap i).is_final }
  pub final_stays : (i : ℕ) → (a.heap i).is_final ≡ true → (b.heap i).is_final ≡ true

pub Closing-refl : (a : Aggregator) → Closing a a
Closing-refl a = record {
  same_next = refl;
  same_latest = refl;
  shrinks = λ k i h. h;
  kept = λ k i h. inl h;
  listed = λ k i h. h;
  only_flag = λ i. refl;
  final_stays = λ i h. h;
}

pub Closing-trans : (a b c : Aggregator) → Closing a b → Closing b c → Closing a c
Closing-trans a b c p q = record {
  same_next = q.same_next ∙ p.same_next;
  same_latest = q.same_latest ∙ p.same_latest;
  shrinks = λ k i h. p.shrinks k i (q.shrinks k i h);
  kept = λ k i h. ground (arith, p.kept k i h, q.kept k i, q.listed k i);
  listed = λ k i h. q.listed k i (p.listed k i h);
  only_flag = λ i. ground (arith, p.only_flag i, q.only_flag i);
  final_stays = λ i h. q.final_stays i (p.final_stays i h);
}

pub finalize-Closing : (k : BarKey) (i : ℕ) (a : Aggregator) → Closing a (finalize k i a)
unfolding finalize
finalize-Closing k i a = record {
  same_next = ground arith;
  same_latest = ground arith;
  shrinks = λ j n h. ground (arith, lookup-erase k j a.bars);
  kept = λ j n h. ground (
    arith,
    lookup-erase k j a.bars,
    key_beq_iff k j,
    Entry-append_right j n a.newly_finalized ((k, i) ∷ []),
  );
  listed = λ j n h. ground (arith, Entry-append_left j n a.newly_finalized ((k, i) ∷ []));
  only_flag = λ n. ground arith;
  final_stays = λ n h. ground arith;
}

-- The bar is final afterwards, and listed; it has left the mapping if it was there.
pub finalize_done :
    (k : BarKey) (i : ℕ) (a : Aggregator)
    → (((finalize k i a).heap i).is_final ≡ true)
      × Entry k i (finalize k i a).newly_finalized
      × (lookup k (finalize k i a).bars ≢ some i)
unfolding finalize
finalize_done k i a = (
  ground arith,
  ground (arith, Entry-append_right k i a.newly_finalized ((k, i) ∷ [])),
  λ h. ground (arith, lookup-erase k k a.bars, key_beq_iff k k),
)

pub close_prior-Closing :
    (s : String) (n : ℕ) (items : List (BarKey × ℕ)) (a : Aggregator)
    → Closing a (close_prior s n items a)
unfolding close_prior
close_prior-Closing s n [] a = Closing-refl a
close_prior-Closing s n ((k, i) ∷ items) a =
    elim (Bool-cases (is_prior s n k && not (a.heap i).is_final)) [
      | inl e ↦ rw e (
          Closing-trans a (finalize k i a) (close_prior s n items (finalize k i a))
            (finalize-Closing k i a) (close_prior-Closing s n items (finalize k i a)))
      | inr e ↦ rw e (close_prior-Closing s n items a)
    ]

-- Every item of an earlier bucket of the symbol is final after the loop.
pub close_prior_done :
    (s : String) (n : ℕ) (items : List (BarKey × ℕ)) (a : Aggregator) (k : BarKey) (i : ℕ)
    → Entry k i items
    → is_prior s n k ≡ true
    → ((close_prior s n items a).heap i).is_final ≡ true
unfolding close_prior
close_prior_done s n [] a k i h p = elim h [ ]
close_prior_done s n ((j, m) ∷ items) a k i (inr h) p = close_prior_done s n items _ k i h p
close_prior_done s n ((j, m) ∷ items) a k i (inl h) p =
    (close_prior-Closing s n items _).final_stays i (ground (arith, finalize_done j m a))

pub close_due-Closing :
    (now : ℕ) (items : List (BarKey × ℕ)) (a : Aggregator) → Closing a (close_due now items a)
unfolding close_due
close_due-Closing now [] a = Closing-refl a
close_due-Closing now ((k, i) ∷ items) a =
    elim (Bool-cases (not (a.heap i).is_final && leb (k.1 + bucket_size) now)) [
      | inl e ↦ rw e (
          Closing-trans a (finalize k i a) (close_due now items (finalize k i a))
            (finalize-Closing k i a) (close_due-Closing now items (finalize k i a)))
      | inr e ↦ rw e (close_due-Closing now items a)
    ]

pub close_due_done :
    (now : ℕ) (items : List (BarKey × ℕ)) (a : Aggregator) (k : BarKey) (i : ℕ)
    → Entry k i items
    → k.1 + bucket_size ≤ now
    → ((close_due now items a).heap i).is_final ≡ true
unfolding close_due
close_due_done now [] a k i h p = elim h [ ]
close_due_done now ((j, m) ∷ items) a k i (inr h) p = close_due_done now items _ k i h p
close_due_done now ((j, m) ∷ items) a k i (inl h) p =
    (close_due-Closing now items _).final_stays i (ground (arith, finalize_done j m a))
