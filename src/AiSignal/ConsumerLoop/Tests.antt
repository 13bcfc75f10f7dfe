-- ===== src/AiSignal/ConsumerLoop/Tests.antt =====
-- A handler that goes through on its second attempt, and one that never does.
use Prim.Native.String.{String}
use invest_view.Common.{
  ℕ, ◌+◌, ◌≡◌, refl, true, false, Option, none, some, [], ◌∷◌, pos, ◌+ℤ◌, str_beq, if◌then◌else◌,
  leb,
}
use invest_view.AiSignal.ConsumerLoop.{
  KafkaMessage, ConsumerSpec, LoopState, topic_of, decode, handle_from, handle, commit_message,
  process,
}
use invest_view.AiSignal.ConsumerLoop.Delivery.{Settled, Committed, process-Settled, process_raised}

abbrev message : KafkaMessage ℕ
message = record {
  message_topic = some "news";
  message_partition = some (pos 0);
  message_offset = some (pos 7);
  message_value = some 5;
}

abbrev spec : ConsumerSpec
spec = record { spec_topic = "news"; dlq_topic = none; max_attempts = 3 }

abbrev state : LoopState ℕ ℕ
state = record { store = 0; dead_letters = []; committed = [] }

abbrev after : LoopState ℕ ℕ
after = record state { store = 5; committed = ("news", pos 0, pos 8) ∷ [] }

abbrev second_time : ℕ → ℕ → ℕ → Option ℕ
second_time attempt v s = if leb 2 attempt then some (s + v) else none

abbrev never : ℕ → ℕ → ℕ → Option ℕ
never attempt v s = none

abbrev deserialize : String → ℕ → Option ℕ
deserialize topic raw = some raw

processed : process deserialize second_time (some 0) true spec message state ≡ (true, after)
unfolding process decode topic_of handle handle_from commit_message str_beq ◌+ℤ◌
processed = refl

process-Settled_example :
    Settled deserialize second_time spec message state after × Committed spec message state after
process-Settled_example =
    process-Settled deserialize second_time spec message (some 0) true state after processed

-- The handler's transaction went through and the broker refused the commit.
abbrev handled : LoopState ℕ ℕ
handled = record state { store = 5 }

refused : process deserialize second_time (some 0) false spec message state ≡ (false, handled)
unfolding process decode topic_of handle handle_from commit_message str_beq
refused = refl

given_up : process deserialize never (some 0) true spec message state ≡ (false, state)
unfolding process decode topic_of handle handle_from
given_up = refl

process_raised_example : handled.committed ≡ state.committed
process_raised_example =
    process_raised deserialize second_time spec message (some 0) false state handled refused
