-- ===== src/AiSignal/ConsumerLoop/Delivery.antt =====
-- A message is committed only once it was handled, given up to the dead letters, or unreadable.
use Prim.Native.String.{String}
use invest_view.Common.{
  refl, ℕ, zero, suc, ◌+◌, ◌≤◌, ◌≡◌, ◌⊎◌, inl, inr, Bool, true, false, Option, none, some, [], ◌∷◌,
  ◌++◌, arith, ℤ, pos, ◌+ℤ◌, ◌==◌, Option-cases, Bool-cases, ap, sym, ◌∙◌,
}
use invest_view.AiSignal.ConsumerLoop.{
  KafkaMessage, ConsumerSpec, LoopState, topic_of, decode, handle_from, handle, dead_letter,
  commit_message, process,
}

module _ {S V : Type 0} (handler : ℕ → V → S → Option S) (v : V) (s : S) where
  -- The attempts from `first` to before `last` all raised.
  abbrev pub AllRaised : ℕ → ℕ → Type 0
  AllRaised first last = (i : ℕ) → first ≤ i → suc i ≤ last → handler i v s ≡ none

  -- Attempt `i` is the first that went through.
  pub record HandledAt (first last : ℕ) (s' : S) : Type 0 where
    pub attempt : ℕ
    pub counted : (first ≤ attempt) × (suc attempt ≤ last)
    pub took : handler attempt v s ≡ some s'
    pub raised_before : AllRaised first attempt

  handle_from-HandledAt :
      (first attempts : ℕ) (s' : S)
      → handle_from handler v first attempts s ≡ some s'
      → HandledAt first (first + attempts) s'
  unfolding handle_from
  handle_from-HandledAt first zero s' h = absurd cc
  handle_from-HandledAt first (suc attempts) s' h = elim (Option-cases (handler first v s)) [
    | inr (x, e) ↦ record {
      attempt = first;
      counted = (omega arith, omega arith);
      took = ground (arith, e);
      raised_before = λ i lo hi. absurd (omega arith);
    }
    | inl raised ↦
        let later = handle_from-HandledAt (suc first) attempts s' (ground (arith, raised)) in
        record {
          attempt = later.attempt;
          counted = (omega (arith, later.counted.0), omega (arith, later.counted.1));
          took = later.took;
          raised_before = λ i lo hi. ground (arith, raised, later.raised_before i);
        }
  ]

  handle_from-AllRaised :
      (first attempts : ℕ)
      → handle_from handler v first attempts s ≡ none
      → AllRaised first (first + attempts)
  unfolding handle_from
  handle_from-AllRaised first zero h i lo hi = absurd (omega arith)
  handle_from-AllRaised first (suc attempts) h i lo hi = elim (Option-cases (handler first v s)) [
    | inr (x, e) ↦ absurd (ground (arith, e))
    | inl raised ↦
        ground
          (arith, raised, handle_from-AllRaised (suc first) attempts (ground (arith, raised)) i)
  ]

module _ {S B : Type 0} (spec : ConsumerSpec) (m : KafkaMessage B) where
  -- The position after the message is committed, if the message has a position.
  abbrev pub Committed : LoopState S B → LoopState S B → Type 0
  Committed w w' =
      (((m.message_partition ≡ none) ⊎ (m.message_offset ≡ none)) × (w'.committed ≡ w.committed))
      ⊎ ((p : ℤ) × (o : ℤ) × (m.message_partition ≡ some p)
          × (m.message_offset ≡ some o)
          × (w'.committed ≡ w.committed ++ (topic_of spec m.message_topic, p, o +ℤ pos 1) ∷ []))

  commit_done :
      (accepted : Bool) (w w' : LoopState S B)
      → commit_message accepted spec m w ≡ (true, w')
      → Committed w w' × (w'.store ≡ w.store) × (w'.dead_letters ≡ w.dead_letters)
  unfolding commit_message
  commit_done accepted w w' h = elim (Option-cases m.message_partition) [
    | inl none_p ↦
        (inl (inl none_p, ground (arith, none_p)), ground (arith, none_p), ground (arith, none_p))
    | inr (p, ep) ↦ elim (Option-cases m.message_offset) [
      | inl none_o ↦ (
        inl (inr none_o, ground (arith, ep, none_o)),
        ground (arith, ep, none_o),
        ground (arith, ep, none_o),
      )
      | inr (o, eo) ↦ (
        inr (p, o, ep, eo, ground (arith, ep, eo)),
        ground (arith, ep, eo),
        ground (arith, ep, eo),
      )
    ]
  ]

  commit_failed :
      (accepted : Bool) (w w' : LoopState S B)
      → commit_message accepted spec m w ≡ (false, w')
      → w' ≡ w
  unfolding commit_message
  commit_failed accepted w w' h = ground arith

dead_letter_cases :
    {S B : Type 0} (remaining : Option ℕ) (topic : String) (m : KafkaMessage B) (w : LoopState S B)
    → (dead_letter remaining topic m w
        ≡ (true, record w { dead_letters = w.dead_letters ++ (topic, m) ∷ [] }))
      ⊎ (((dead_letter remaining topic m w).0 ≡ false)
          × ((dead_letter remaining topic m w).1.committed ≡ w.committed))
unfolding dead_letter
dead_letter_cases none topic m w = inr (refl, refl)
dead_letter_cases (some n) topic m w = elim (Bool-cases (n == 0)) [
  | inl flushed ↦
      inl (ap (λ b. (b, record w { dead_letters = w.dead_letters ++ (topic, m) ∷ [] })) flushed)
  | inr left ↦ inr (left, refl)
]

module _ {S B V : Type 0} (deserialize : String → B → Option V) (handler : ℕ → V → S → Option S)
    (spec : ConsumerSpec) (m : KafkaMessage B) where
  -- What became of the message: unreadable, handled in one of the attempts, or handed to the
  -- producer as a dead letter after all of them raised.
  abbrev pub Settled : LoopState S B → LoopState S B → Type 0
  Settled w w' =
      ((decode deserialize spec m ≡ none)
        × (w'.store ≡ w.store)
        × (w'.dead_letters ≡ w.dead_letters))
      ⊎ (((v : V) × (decode deserialize spec m ≡ some v)
            × HandledAt handler v w.store 1 (1 + spec.max_attempts) w'.store
            × (w'.dead_letters ≡ w.dead_letters))
          ⊎ ((v : V) × (topic : String) × (decode deserialize spec m ≡ some v)
              × AllRaised handler v w.store 1 (1 + spec.max_attempts)
              × (spec.dlq_topic ≡ some topic)
              × (w'.dead_letters ≡ w.dead_letters ++ (topic, m) ∷ [])
              × (w'.store ≡ w.store)))

  -- A message that is processed without an exception was settled and its position committed.
  pub process-Settled :
      (remaining : Option ℕ) (accepted : Bool) (w w' : LoopState S B)
      → process deserialize handler remaining accepted spec m w ≡ (true, w')
      → Settled w w' × Committed spec m w w'
  unfolding process handle
  process-Settled remaining accepted w w' h = elim (Option-cases (decode deserialize spec m)) [
    | inl unreadable ↦
        let (c, s, d) = commit_done spec m accepted w w' (ground (arith, unreadable)) in
        (inl (unreadable, s, d), c)
    | inr (v, e) ↦ elim (Option-cases (handle_from handler v 1 spec.max_attempts w.store)) [
      | inr (s', took) ↦
          let (c, s, d) =
            commit_done spec m accepted (record w { store = s' }) w' (ground (arith, e, took)) in
          (
            inr (
                inl (
                  v,
                  e,
                  handle_from-HandledAt handler v w.store 1 spec.max_attempts w'.store
                      (took ∙ ap (λ x. some x) (sym s)),
                  d,
                )),
            c,
          )
      | inl raised ↦ elim (Option-cases spec.dlq_topic) [
        | inl no_topic ↦ absurd (ground (arith, e, raised, no_topic))
        | inr (topic, t) ↦ elim (dead_letter_cases remaining topic m w) [
          | inr (left, same) ↦ absurd (ground (arith, e, raised, t, left, h))
          | inl flushed ↦
              let (c, s, d) =
                commit_done spec m accepted
                  (record w { dead_letters = w.dead_letters ++ (topic, m) ∷ [] }) w'
                  (ground (arith, e, raised, t, flushed)) in
              (
                inr (
                    inr (
                      v,
                      topic,
                      e,
                      handle_from-AllRaised handler v w.store 1 spec.max_attempts raised,
                      t,
                      d,
                      s,
                    )),
                c,
              )
        ]
      ]
    ]
  ]

  -- A message whose processing raises has nothing committed.
  pub process_raised :
      (remaining : Option ℕ) (accepted : Bool) (w w' : LoopState S B)
      → process deserialize handler remaining accepted spec m w ≡ (false, w')
      → w'.committed ≡ w.committed
  unfolding process handle
  process_raised remaining accepted w w' h = elim (Option-cases (decode deserialize spec m)) [
    | inl unreadable ↦
        ap (λ x. x.committed) (commit_failed spec m accepted w w' (ground (arith, unreadable)))
    | inr (v, e) ↦ elim (Option-cases (handle_from handler v 1 spec.max_attempts w.store)) [
      | inr (s', took) ↦
          ap (λ x. x.committed)
            (commit_failed spec m accepted (record w { store = s' }) w' (ground (arith, e, took)))
      | inl raised ↦ elim (Option-cases spec.dlq_topic) [
        | inl no_topic ↦ ground (arith, e, raised, no_topic)
        | inr (topic, t) ↦ elim (dead_letter_cases remaining topic m w) [
          | inr (left, same) ↦ ground (arith, e, raised, t, left, same, h)
          | inl flushed ↦
              ap (λ x. x.committed)
                (commit_failed spec m accepted
                  (record w { dead_letters = w.dead_letters ++ (topic, m) ∷ [] }) w'
                  (ground (arith, e, raised, t, flushed)))
        ]
      ]
    ]
  ]
