-- ===== src/KisIngestion/Connection/Iterate/Tests.antt =====
-- A data message of one record that the connection reads.
use invest_view.Common.{ℕ, zero, suc, ◌≡◌, refl, true, Option, some, none, List, [], ◌∷◌, ◌++◌, pos}
use invest_view.Common.{◌==◌, length, if◌then◌else◌}
use invest_view.KisIngestion.Parser.{Text, parse, split_records}
use invest_view.KisIngestion.Connection.{Manager, handle_data_message}
use invest_view.KisIngestion.Connection.Iterate.{Event, received, Next, tick, waiting, next}
use invest_view.KisIngestion.Connection.Iterate.Arrivals.{payloads, arrivals}
use invest_view.KisIngestion.Connection.Iterate.Fifo.{yielded, next-Fifo}

abbrev listening : Manager ℕ
listening = record {
  pool = record { cap = 40; desired = []; actual = [] };
  approval_key = some "key";
  session_id = "second";
  sequence = 6;
  running = true;
  pending = [];
  tick_buffer = [];
  sent = [];
}

-- `0|H|1|` and `n` more fields `a^a^…`.
abbrev fields_of_a : ℕ → Text
fields_of_a zero = 97 ∷ []
fields_of_a (suc n) = 97 ∷ 94 ∷ fields_of_a n

abbrev fields_of_b : ℕ → Text
fields_of_b zero = 98 ∷ []
fields_of_b (suc n) = 98 ∷ 94 ∷ fields_of_b n

abbrev message : Text
message = 48 ∷ 124 ∷ 72 ∷ 124 ∷ 49 ∷ 124 ∷ fields_of_a 45

-- A second record, of fields `b`, follows.
abbrev message_of_two : Text
message_of_two = message ++ 94 ∷ fields_of_b 45

abbrev read : ℕ → (List Text → Option ℕ) → List Event → Manager ℕ → Next ℕ × Manager ℕ × List Event
read count parse_fields =
    next (λ raw. none) (λ n. some (pos count)) (λ raw. "H0STCNT0") (λ c. c) (λ c. c)
      (λ market. parse_fields)

abbrev parse_length : List Text → Option ℕ
parse_length values = some (length values)

-- A parser that knows no field `b`.
abbrev parse_a : List Text → Option ℕ
parse_a ((c ∷ rest) ∷ values) = if c == 97 then some 97 else none
parse_a values = none

reads : (read 1 parse_length (received message true ∷ []) listening).0 ≡ tick (46, "second", 7)
unfolding next parse handle_data_message split_records
reads = refl

-- The second record raises, so the tick of the first one stays in the buffer until the next message.
holds_back :
    (read 2 parse_a (received message_of_two true ∷ []) listening)
    ≡ (waiting, record listening { sequence = 7; tick_buffer = (97, "second", 7) ∷ [] }, [])
unfolding next parse handle_data_message split_records
holds_back = refl

-- The tick that was held back comes first, then that of the second message.
abbrev both : List Event
both = received message_of_two true ∷ received message true ∷ []

next-Fifo_example :
    (taken : List Event) × (both ≡ taken ++ (read 2 parse_a both listening).2)
    × (payloads (
          yielded (read 2 parse_a both listening).0
          ++ (read 2 parse_a both listening).1.tick_buffer)
        ≡ payloads listening.tick_buffer
          ++ arrivals
              (λ raw. none)
              (λ n. some (pos 2))
              (λ raw. "H0STCNT0")
              (λ market. parse_a)
              taken)
next-Fifo_example =
    next-Fifo (λ raw. none) (λ n. some (pos 2)) (λ raw. "H0STCNT0") (λ c. c) (λ c. c)
      (λ market. parse_a) both listening
