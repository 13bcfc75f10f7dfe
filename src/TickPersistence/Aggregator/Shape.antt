-- ===== src/TickPersistence/Aggregator/Shape.antt =====
-- The invariant of the aggregator.
use Prim.Native.String.{String}
use invest_view.Common.{
  string_eq, ℕ, ◌<◌, ◌≡◌, refl, inl, inr, Bool, true, some, arith, lookup, Entry, Entry-erase,
  Entry-append_cases, List, [], ◌∷◌, ◌+◌, Bool-cases, not, ◌&&◌, leb,
}
use invest_view.TickPersistence.Bar.{BarState}
use invest_view.TickPersistence.Bar.Invariant.{IsOhlc}
use invest_view.TickPersistence.Aggregator.{
  Aggregator, BarKey, key_eq, init, finalize, close_prior, close_due, is_prior, bucket_size,
}
use invest_view.TickPersistence.Aggregator.Finalize.{Closing, finalize-Closing}

-- References are allocated, no two keys share a bar, every bar is a proper one, finalized bars
-- are final.
pub record Sound (a : Aggregator) : Type 0 where
  pub allocated : (k : BarKey) (i : ℕ) → Entry k i a.bars → i < a.next
  pub unshared : (k j : BarKey) (i : ℕ) → Entry k i a.bars → Entry j i a.bars → k ≡ j
  pub proper : (k : BarKey) (i : ℕ) → lookup k a.bars ≡ some i → IsOhlc (a.heap i)
  pub listed : (k : BarKey) (i : ℕ) → Entry k i a.newly_finalized → i < a.next
  pub closed : (k : BarKey) (i : ℕ) → Entry k i a.newly_finalized → (a.heap i).is_final ≡ true

pub init-Sound : (b : BarState) → Sound (init b)
unfolding init lookup
init-Sound b = record {
  allocated = λ k i h. elim h [ ];
  unshared = λ k j i h g. elim h [ ];
  proper = λ k i h. cc;
  listed = λ k i h. elim h [ ];
  closed = λ k i h. elim h [ ];
}

pub finalize-Sound :
    (k : BarKey) (i : ℕ) (a : Aggregator) → i < a.next → Sound a → Sound (finalize k i a)
unfolding finalize
finalize-Sound k i a lt s = record {
  allocated = λ j n h. s.allocated j n (ground (arith, Entry-erase k j n a.bars));
  unshared = λ j q n h g.
      s.unshared j q n (ground (arith, Entry-erase k j n a.bars))
        (ground (arith, Entry-erase k q n a.bars));
  proper = λ j n h. rw (c.only_flag n) (same_flag (a.heap n) _ (s.proper j n (c.shrinks j n h)));
  listed =
      λ j n h. ground (arith, Entry-append_cases j n a.newly_finalized ((k, i) ∷ []), s.listed j n);
  closed =
      λ j n h. ground (arith, Entry-append_cases j n a.newly_finalized ((k, i) ∷ []), s.closed j n);
}
  where
    c : Closing a (finalize k i a)
    c = finalize-Closing k i a

    same_flag : (b : BarState) (f : Bool) → IsOhlc b → IsOhlc (record b { is_final = f })
    same_flag b f h = ground arith

pub close_prior-Sound :
    (q : String) (n : ℕ) (items : List (BarKey × ℕ)) (a : Aggregator)
    → ((k : BarKey) (i : ℕ) → Entry k i items → i < a.next)
    → Sound a
    → Sound (close_prior q n items a)
unfolding close_prior
close_prior-Sound q n [] a h s = s
close_prior-Sound q n ((k, i) ∷ items) a h s =
    elim (Bool-cases (is_prior q n k && not (a.heap i).is_final)) [
      | inl e ↦ rw e (
          close_prior-Sound q n items (finalize k i a)
            (λ j m en. rw (finalize-Closing k i a).same_next (h j m (inr en)))
            (finalize-Sound k i a (h k i (inl (refl, refl))) s))
      | inr e ↦ rw e (close_prior-Sound q n items a (λ j m en. h j m (inr en)) s)
    ]

pub close_due-Sound :
    (now : ℕ) (items : List (BarKey × ℕ)) (a : Aggregator)
    → ((k : BarKey) (i : ℕ) → Entry k i items → i < a.next)
    → Sound a
    → Sound (close_due now items a)
unfolding close_due
close_due-Sound now [] a h s = s
close_due-Sound now ((k, i) ∷ items) a h s =
    elim (Bool-cases (not (a.heap i).is_final && leb (k.1 + bucket_size) now)) [
      | inl e ↦ rw e (
          close_due-Sound now items (finalize k i a)
            (λ j m en. rw (finalize-Closing k i a).same_next (h j m (inr en)))
            (finalize-Sound k i a (h k i (inl (refl, refl))) s))
      | inr e ↦ rw e (close_due-Sound now items a (λ j m en. h j m (inr en)) s)
    ]
