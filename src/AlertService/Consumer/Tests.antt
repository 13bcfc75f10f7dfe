-- ===== src/AlertService/Consumer/Tests.antt =====
-- An event waits in the queue while a tombstone after it is committed.
use invest_view.Common.{ℕ, ◌≡◌, refl, true, false, none, some, [], ◌∷◌}
use invest_view.AlertService.Consumer.{
  AlertConsumer, Polled, message, dictionary, poll_round, dispatch_round,
}

abbrev idle : AlertConsumer ℕ
idle = record { queue_maxsize = 10; queue = []; commits = []; dead = false }

abbrev event_at : ℕ → Polled ℕ
event_at offset = message (record { error = none; value = some 7; position = (0, offset) })

abbrev tombstone_at : ℕ → Polled ℕ
tombstone_at offset = message (record { error = none; value = none; position = (0, offset) })

abbrev waiting : AlertConsumer ℕ
waiting = record idle { queue = ((0, 5), 7) ∷ [] }

polls : poll_round (λ raw. dictionary raw) true true (event_at 5) idle ≡ some waiting
unfolding poll_round
polls = refl

-- The broker has offset 6 of the partition, and the event at 5 was not handled.
commits_past_waiting :
    poll_round (λ raw. dictionary raw) true true (tombstone_at 6) waiting
    ≡ some (record waiting { commits = (0, 6) ∷ [] })
unfolding poll_round
commits_past_waiting = refl

fails : (dispatch_round (λ event. false) true waiting) ≡ (some 7, record idle { dead = true })
unfolding dispatch_round
fails = refl
