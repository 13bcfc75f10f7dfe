-- ===== src/KisIngestion/RateLimiter/Window.antt =====
-- No window of one period sees more than `max_calls` calls.
use invest_view.Common.{
  ℕ, zero, suc, ◌+◌, ◌-◌, ◌≤◌, ◌≡◌, ◌⊎◌, inl, inr, refl, true, false, Option, none, some, List, [],
  ◌∷◌, ◌++◌, arith, leb, length, length-append, All, Bool-cases, ◌∙◌, sym, ap, subst,
}
use invest_view.KisIngestion.RateLimiter.{
  SharedRateLimiter, new_limiter, evict, acquire_round, acquire,
}

abbrev pub nth : List ℕ → ℕ → Option ℕ
nth [] i = none
nth (x ∷ xs) zero = some x
nth (x ∷ xs) (suc i) = nth xs i

-- Of the times of all calls, oldest first, two that are `n` calls apart are a period apart.
abbrev pub Spaced : ℕ → ℕ → List ℕ → Type 0
Spaced n period history =
    (i a b : ℕ) → nth history i ≡ some a → nth history (i + n) ≡ some b → a + period ≤ b

-- The limiter after calls at these times, the clock having been read at `now`: what it forgot is a
-- period old.
pub record Windowed (history : List ℕ) (now : ℕ) (l : SharedRateLimiter) : Type 0 where
  pub forgotten : List ℕ
  pub split : history ≡ forgotten ++ l.calls
  pub old : All (λ c. c + l.period ≤ now) forgotten
  pub sized : length l.calls ≤ l.max_calls
  pub positive : (1 ≤ l.max_calls) × (1 ≤ l.period)
  pub spaced : Spaced l.max_calls l.period history

evict_lem :
    (period now : ℕ) (calls : List ℕ)
    → 1 ≤ period
    → (gone : List ℕ) × (calls ≡ gone ++ evict period now calls) × All (λ c. c + period ≤ now) gone
unfolding evict
evict_lem period now [] h = ([], refl, tt)
evict_lem period now (c ∷ calls) h = elim (Bool-cases (leb period (now - c))) [
  | inl due ↦
      let (gone, e, old) = evict_lem period now calls h in
      (c ∷ gone, ground (arith, due, e), (ground arith, old))
  | inr recent ↦ ([], ground (arith, recent), tt)
]

All-later :
    (period now now' : ℕ) (cs : List ℕ)
    → now ≤ now'
    → All (λ c. c + period ≤ now) cs
    → All (λ c. c + period ≤ now') cs
All-later period now now' [] h a = tt
All-later period now now' (c ∷ cs) h a = (omega (arith, a.0), All-later period now now' cs h a.1)

All-append :
    (period now : ℕ) (cs ds : List ℕ)
    → All (λ c. c + period ≤ now) cs
    → All (λ c. c + period ≤ now) ds
    → All (λ c. c + period ≤ now) (cs ++ ds)
All-append period now [] ds a b = b
All-append period now (c ∷ cs) ds a b = (a.0, All-append period now cs ds a.1 b)

append_assoc : (xs ys zs : List ℕ) → (xs ++ ys) ++ zs ≡ xs ++ (ys ++ zs)
append_assoc [] ys zs = refl
append_assoc (x ∷ xs) ys zs = ap (λ l. x ∷ l) (append_assoc xs ys zs)

-- An entry of the list with one more at the end.
nth-append :
    (xs : List ℕ) (y i b : ℕ)
    → nth (xs ++ y ∷ []) i ≡ some b
    → (nth xs i ≡ some b) ⊎ ((i ≡ length xs) × (b ≡ y))
nth-append [] y zero b h = inr (refl, ground arith)
nth-append [] y (suc i) b h = absurd cc
nth-append (x ∷ xs) y zero b h = inl h
nth-append (x ∷ xs) y (suc i) b h = ground (arith, nth-append xs y i b h)

nth-length : (xs : List ℕ) (i b : ℕ) → nth xs i ≡ some b → suc i ≤ length xs
nth-length [] i b h = absurd cc
nth-length (x ∷ xs) zero b h = omega arith
nth-length (x ∷ xs) (suc i) b h = omega (arith, nth-length xs i b h)

-- The entries before the calls that are kept were forgotten.
nth-forgotten :
    (period now : ℕ) (forgotten calls : List ℕ) (i a : ℕ)
    → All (λ c. c + period ≤ now) forgotten
    → nth (forgotten ++ calls) i ≡ some a
    → suc i ≤ length forgotten
    → a + period ≤ now
nth-forgotten period now [] calls i a old h lt = absurd (omega arith)
nth-forgotten period now (c ∷ forgotten) calls zero a old h lt = ground (arith, old.0)
nth-forgotten period now (c ∷ forgotten) calls (suc i) a old h lt =
    nth-forgotten period now forgotten calls i a old.1 h (omega arith)

-- A call while fewer than `n` calls are kept keeps the spacing.
Spaced-append :
    (n period now : ℕ) (forgotten kept : List ℕ)
    → All (λ c. c + period ≤ now) forgotten
    → suc (length kept) ≤ n
    → Spaced n period (forgotten ++ kept)
    → Spaced n period ((forgotten ++ kept) ++ now ∷ [])
Spaced-append n period now forgotten kept old room s i a b ha hb =
    let xs = forgotten ++ kept in
    elim (nth-append xs now (i + n) b hb) [
      | inl before ↦ elim (nth-append xs now i a ha) [
        | inl a_before ↦ s i a b a_before before
        | inr (e, _) ↦ absurd (omega (arith, nth-length xs (i + n) b before))
      ]
      | inr (e, same) ↦ elim (nth-append xs now i a ha) [
        | inl a_before ↦ omega (
          arith,
          nth-forgotten period now forgotten kept i a old a_before
              (omega (arith, length-append forgotten kept)),
        )
        | inr (e', _) ↦ absurd (omega arith)
      ]
    ]

module _ (history : List ℕ) (now : ℕ) (l : SharedRateLimiter) (now' : ℕ) (l' : SharedRateLimiter)
    (w : Windowed history now l) (later : now ≤ now') where
  -- The state of the round after the eviction.
  evicted-Windowed : Windowed history now' (record l { calls = evict l.period now' l.calls })
  evicted-Windowed =
      let (gone, e, old) = evict_lem l.period now' l.calls w.positive.1 in
      record {
        forgotten = w.forgotten ++ gone;
        split =
            w.split
            ∙ (ap (λ c. w.forgotten ++ c) e
                ∙ sym (append_assoc w.forgotten gone (evict l.period now' l.calls)));
        old =
            All-append l.period now' w.forgotten gone
              (All-later l.period now now' w.forgotten later w.old) old;
        sized =
            omega (arith, w.sized, ap length e, length-append gone (evict l.period now' l.calls));
        positive = w.positive;
        spaced = w.spaced;
      }

  round_waits : acquire_round now' l ≡ (false, l') → Windowed history now' l'
  unfolding acquire_round
  round_waits h = subst (Windowed history now') (ground arith) evicted-Windowed

  round_grants : acquire_round now' l ≡ (true, l') → Windowed (history ++ now' ∷ []) now' l'
  unfolding acquire_round
  round_grants h =
      subst (Windowed (history ++ now' ∷ []) now') (ground arith) (granted (ground arith))
    where
      granted :
          suc (length (evict l.period now' l.calls)) ≤ l.max_calls
          → Windowed
              (history ++ now' ∷ [])
              now'
              (record l { calls = evict l.period now' l.calls ++ now' ∷ [] })
      granted room =
          let v = evicted-Windowed in
          let kept = evict l.period now' l.calls in
          record {
            forgotten = v.forgotten;
            split = ap (λ h. h ++ now' ∷ []) v.split ∙ append_assoc v.forgotten kept (now' ∷ []);
            old = v.old;
            sized = omega (arith, length-append kept (now' ∷ []), room);
            positive = w.positive;
            spaced =
                subst (λ h. Spaced l.max_calls l.period (h ++ now' ∷ [])) (sym v.split)
                  (Spaced-append l.max_calls l.period now' v.forgotten kept v.old room
                    (subst (Spaced l.max_calls l.period) v.split v.spaced));
          }

-- The clock does not run back.
abbrev pub Monotone : ℕ → List ℕ → Type 0
Monotone now [] = Unit {0}
Monotone now (next ∷ readings) = (now ≤ next) × Monotone next readings

-- A call that `acquire` lets through, over a clock that does not run back, leaves every two calls
-- that are `max_calls` apart a period apart.
pub acquire-Windowed :
    (readings history : List ℕ) (now t : ℕ) (l l' : SharedRateLimiter)
    → Windowed history now l
    → Monotone now readings
    → acquire readings l ≡ some (t, l')
    → Windowed (history ++ t ∷ []) t l'
unfolding acquire
acquire-Windowed [] history now t l l' w m h = absurd cc
acquire-Windowed (next ∷ readings) history now t l l' w m h =
    elim (Bool-cases (acquire_round next l).0) [
      | inl granted ↦
          subst (λ x. Windowed (history ++ x ∷ []) x l') (ground (arith, granted))
            (round_grants history now l next l' w m.0 (ground (arith, granted)))
      | inr waits ↦
          acquire-Windowed readings history next t (acquire_round next l).1 l'
            (round_waits history now l next (acquire_round next l).1 w m.0 (ground (arith, waits)))
            m.1 (ground (arith, waits))
    ]

empty-Windowed :
    (max_calls period : ℕ)
    → (1 ≤ max_calls) × (1 ≤ period)
    → Windowed [] 0 (record { max_calls = max_calls; period = period; calls = [] })
empty-Windowed max_calls period h = record {
  forgotten = [];
  split = refl;
  old = tt;
  sized = omega arith;
  positive = h;
  spaced = λ i a b ha hb. absurd cc;
}

pub new_limiter-Windowed :
    (max_calls period : ℕ) (l : SharedRateLimiter)
    → new_limiter max_calls period ≡ some l
    → Windowed [] 0 l
unfolding new_limiter
new_limiter-Windowed max_calls period l h =
    subst (Windowed [] 0) (ground arith) (empty-Windowed max_calls period (ground arith))
