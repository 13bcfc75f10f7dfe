-- ===== src/TickPersistence/Aggregator/Marking.antt =====
-- `_mark_prior_buckets_final`: which bars it closes, and which it leaves alone.
use Prim.Native.String.{String}
use invest_view.Common.{
  string_eq, ℕ, ◌≡◌, ◌≢◌, refl, inl, inr, true, false, some, List, [], ◌∷◌, arith, lookup,
  lookup-erase, Entry, Entry-lookup, ◌∙◌, ap, subst,
}
use invest_view.TickPersistence.Aggregator.{
  Aggregator, BarKey, key_eq, key_beq_iff, finalize, is_prior, close_prior,
  mark_prior_buckets_final,
}
use invest_view.TickPersistence.Aggregator.Finalize.{Closing, close_prior-Closing, close_prior_done}
use invest_view.TickPersistence.Aggregator.Shape.{Sound, close_prior-Sound}

pub own_not_prior : (s : String) (n : ℕ) → is_prior s n (s, n) ≡ false
unfolding is_prior
own_not_prior s n = ground arith

pub finalize_frame :
    (j : BarKey) (m : ℕ) (a : Aggregator) (k : BarKey)
    → j ≢ k
    → lookup k (finalize j m a).bars ≡ lookup k a.bars
unfolding finalize
finalize_frame j m a k ne = ground (arith, lookup-erase j k a.bars, key_beq_iff j k)

finalize_heap :
    (j : BarKey) (m : ℕ) (a : Aggregator) (i : ℕ) → m ≢ i → (finalize j m a).heap i ≡ a.heap i
unfolding finalize
finalize_heap j m a i ne = ground arith

-- The loop leaves the bars alone that are of another symbol or no earlier.
close_prior_frame :
    (s : String) (n : ℕ) (items : List (BarKey × ℕ)) (a : Aggregator) (k : BarKey)
    → is_prior s n k ≡ false
    → lookup k (close_prior s n items a).bars ≡ lookup k a.bars
unfolding close_prior
close_prior_frame s n [] a k h = refl
close_prior_frame s n ((j, m) ∷ items) a k h =
    close_prior_frame s n items _ k h
    ∙ ground (arith, finalize_frame j m a k, ap (is_prior s n) {x = j} {y = k})

close_prior_heap :
    (s : String) (n : ℕ) (items : List (BarKey × ℕ)) (a : Aggregator) (i : ℕ)
    → ((j : BarKey) → Entry j i items → is_prior s n j ≡ false)
    → (close_prior s n items a).heap i ≡ a.heap i
unfolding close_prior
close_prior_heap s n [] a i h = refl
close_prior_heap s n ((j, m) ∷ items) a i h =
    close_prior_heap s n items _ i (λ q en. h q (inr en))
    ∙ ground (arith, finalize_heap j m a i, λ (e : m ≡ i). h j (inl (refl, e)))

pub mark-Closing :
    (s : String) (n : ℕ) (a : Aggregator) → Closing a (mark_prior_buckets_final s n a)
unfolding mark_prior_buckets_final
mark-Closing s n a = close_prior-Closing s n a.bars a

pub mark-Sound :
    (s : String) (n : ℕ) (a : Aggregator) → Sound a → Sound (mark_prior_buckets_final s n a)
unfolding mark_prior_buckets_final
mark-Sound s n a v = close_prior-Sound s n a.bars a v.allocated v

pub mark_frame :
    (s : String) (n : ℕ) (a : Aggregator) (k : BarKey)
    → is_prior s n k ≡ false
    → lookup k (mark_prior_buckets_final s n a).bars ≡ lookup k a.bars
unfolding mark_prior_buckets_final
mark_frame s n a k h = close_prior_frame s n a.bars a k h

pub mark_heap :
    (s : String) (n : ℕ) (a : Aggregator) (k : BarKey) (i : ℕ)
    → Sound a
    → is_prior s n k ≡ false
    → lookup k a.bars ≡ some i
    → (mark_prior_buckets_final s n a).heap i ≡ a.heap i
unfolding mark_prior_buckets_final
mark_heap s n a k i v h e = close_prior_heap s n a.bars a i (λ j en.
    subst (λ q. is_prior s n q ≡ false) (v.unshared k j i (Entry-lookup k i a.bars e) en) h)

pub mark_done :
    (s : String) (n : ℕ) (a : Aggregator) (k : BarKey) (i : ℕ)
    → is_prior s n k ≡ true
    → lookup k (mark_prior_buckets_final s n a).bars ≡ some i
    → ((mark_prior_buckets_final s n a).heap i).is_final ≡ true
mark_done s n a k i p h =
    unfold mark_prior_buckets_final in
    close_prior_done s n a.bars a k i (Entry-lookup k i a.bars ((mark-Closing s n a).shrinks k i h))
      p
