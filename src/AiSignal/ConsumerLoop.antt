-- ===== src/AiSignal/ConsumerLoop.antt =====
-- services/ai_signal/src/ai_signal/consumers/frame.py: `ConsumerLoop`.
-- The deserializer, the handler's transaction and the answers of the dead-letter producer and of
-- the commit are arguments. A transaction that raises is rolled back, so it is `none`.
pub mod Delivery
mod Tests
use Prim.Native.String.{String}
use invest_view.Common.{
  ℕ, zero, suc, Bool, true, false, Option, none, some, List, [], ◌∷◌, ◌++◌, ℤ, pos, ◌+ℤ◌,
  if◌then◌else◌, str_beq, ◌==◌,
}

pub record KafkaMessage (B : Type 0) : Type 0 where
  pub message_topic : Option String
  pub message_partition : Option ℤ
  pub message_offset : Option ℤ
  pub message_value : Option B

pub record ConsumerSpec : Type 0 where
  pub spec_topic : String
  pub dlq_topic : Option String
  pub max_attempts : ℕ

-- The database, what was handed to the producer of the dead-letter topic, and the committed positions.
pub record LoopState (S B : Type 0) : Type 0 where
  pub store : S
  pub dead_letters : List (String × KafkaMessage B)
  pub committed : List (String × ℤ × ℤ)

-- `message.topic() or self._spec.topic`
unfoldable pub topic_of : ConsumerSpec → Option String → String
topic_of spec none = spec.spec_topic
topic_of spec (some t) = if str_beq t "" then spec.spec_topic else t

-- `decode`; the deserializer's errors are its `none`.
unfoldable pub decode :
    {B V : Type 0} → (String → B → Option V) → ConsumerSpec → KafkaMessage B → Option V
unfolding topic_of
decode deserialize spec m = elim m.message_value [
  | none ↦ none
  | some raw ↦ deserialize (topic_of spec m.message_topic) raw
]

module _ {S V : Type 0} where
  -- The attempts of `handle` from number `attempt` on; the handler sees the number of the attempt
  -- in its transaction. `none` is `ConsumerHandlerError`.
  unfoldable pub handle_from : (ℕ → V → S → Option S) → V → ℕ → ℕ → S → Option S
  handle_from handler v attempt zero s = none
  handle_from handler v attempt (suc attempts) s = elim (handler attempt v s) [
    | some s' ↦ some s'
    | none ↦ handle_from handler v (suc attempt) attempts s
  ]

  unfoldable pub handle : (ℕ → V → S → Option S) → ConsumerSpec → V → S → Option S
  unfolding handle_from
  handle handler spec v s = handle_from handler v 1 spec.max_attempts s

module _ {S B : Type 0} where
  -- `_dead_letter`, given how many messages are left after the flush, or none where `produce` raises.
  -- A message whose delivery failed is not left, and no delivery report is asked for.
  unfoldable pub dead_letter :
      Option ℕ → String → KafkaMessage B → LoopState S B → Bool × LoopState S B
  dead_letter none topic m w = (false, w)
  dead_letter (some remaining) topic m w =
      let w' = record w { dead_letters = w.dead_letters ++ (topic, m) ∷ [] } in (remaining == 0, w')

  -- `_commit`, given whether the broker takes it.
  unfoldable pub commit_message :
      Bool → ConsumerSpec → KafkaMessage B → LoopState S B → Bool × LoopState S B
  unfolding topic_of
  commit_message accepted spec m w = elim m.message_partition [
    | none ↦ (true, w)
    | some p ↦ elim m.message_offset [
      | none ↦ (true, w)
      | some o ↦
          if accepted
          then (
            true,
            record w {
              committed = w.committed ++ (topic_of spec m.message_topic, p, o +ℤ pos 1) ∷ [];
            },
          )
          else (false, w)
    ]
  ]

module _ {S B V : Type 0} where
  -- `process`; `false` is an exception.
  unfoldable pub process :
      (String → B → Option V)
      → (ℕ → V → S → Option S)
      → Option ℕ
      → Bool
      → ConsumerSpec
      → KafkaMessage B
      → LoopState S B
      → Bool × LoopState S B
  unfolding decode handle dead_letter commit_message
  process deserialize handler remaining accepted spec m w = elim (decode deserialize spec m) [
    | none ↦ commit_message accepted spec m w
    | some v ↦ elim (handle handler spec v w.store) [
      | some s ↦ commit_message accepted spec m (record w { store = s })
      | none ↦ elim spec.dlq_topic [
        | none ↦ (false, w)
        | some topic ↦
            let (sent, w') = dead_letter remaining topic m w in
            if sent then commit_message accepted spec m w' else (false, w')
      ]
    ]
  ]
