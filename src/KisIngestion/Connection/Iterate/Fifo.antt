-- ===== src/KisIngestion/Connection/Iterate/Fifo.antt =====
-- The ticks leave the buffer in the order in which they came, and none is lost.
use Prim.Native.String.{String}
use invest_view.Common.{
  ℕ, ◌≡◌, inl, inr, refl, Bool, Option, none, some, List, [], ◌∷◌, ◌++◌, arith, ℤ, ◌⊎◌, Bool-cases,
  Option-cases, ap, sym, subst, ◌∙◌, append_assoc, append_nil,
}
use invest_view.KisIngestion.Pool.{subscription_eq}
use invest_view.KisIngestion.Connection.{Attempt, Manager, reconnect}
use invest_view.KisIngestion.Connection.Response.{Json}
use invest_view.KisIngestion.Connection.Iterate.{
  Event, received, lost, Next, tick, stopped, exhausted, waiting, handle_message, pop_tick, receive,
  next,
}
use invest_view.KisIngestion.Parser.{Text}
use invest_view.KisIngestion.Connection.Iterate.Buffer.{reconnect_buffer}
use invest_view.KisIngestion.Connection.Iterate.Arrivals.{
  payloads, Grows, raw_ticks, arrivals, handle_message-Grows,
}

module _ {T : Type 0} where
  pop_tick_lem :
      (m m' : Manager T) (t : T × String × ℕ)
      → pop_tick m ≡ some (t, m')
      → t ∷ m'.tick_buffer ≡ m.tick_buffer
  unfolding pop_tick
  pop_tick_lem m m' t h = ground (arith, h)

  -- The tick that is given, if one is.
  unfoldable pub yielded : Next T → List (T × String × ℕ)
  yielded (tick t) = t ∷ []
  yielded stopped = []
  yielded exhausted = []
  yielded waiting = []

  module _ (json_loads : Text → Option Json) (int_of : Text → Option ℤ)
      (strip_upper : Text → String) (code_of msg_of : String → String)
      (parse_tick : String → List Text → Option T) where
    -- The events that were taken, and what is given and left: what was in the buffer comes first,
    -- then the ticks of these events.
    abbrev Fifo : Manager T → List Event → Next T × Manager T × List Event → Type 0
    Fifo m events r =
        (taken : List Event) × (events ≡ taken ++ r.2)
        × (payloads (yielded r.0 ++ r.1.tick_buffer)
            ≡ payloads m.tick_buffer ++ arrivals json_loads int_of strip_upper parse_tick taken)

    pop_tick-Fifo :
        (m m' : Manager T) (t : T × String × ℕ) (events : List Event)
        → pop_tick m ≡ some (t, m')
        → Fifo m events (tick t, m', events)
    unfolding yielded arrivals
    pop_tick-Fifo m m' t events h =
        ([], refl, ap payloads (pop_tick_lem m m' t h) ∙ append_nil (payloads m.tick_buffer))

    idle-Fifo :
        (m : Manager T) (events : List Event) (r : Next T × Manager T × List Event)
        → yielded r.0 ≡ []
        → r.1.tick_buffer ≡ m.tick_buffer
        → r.2 ≡ events
        → Fifo m events r
    unfolding arrivals
    idle-Fifo m events r e f g = (
      [],
      sym g,
      ap (λ l. payloads (l ++ r.1.tick_buffer)) e
          ∙ ap payloads f
          ∙ append_nil (payloads m.tick_buffer),
    )

    -- One event more in front, whose ticks the buffer has taken.
    received-Fifo :
        (raw : Text) (pong : Bool) (m m' : Manager T) (events : List Event)
        (r : Next T × Manager T × List Event)
        → Grows (raw_ticks json_loads int_of strip_upper parse_tick raw) m m'
        → Fifo m' events r
        → Fifo m (received raw pong ∷ events) r
    unfolding arrivals
    received-Fifo raw pong m m' events r grows (taken, e, f) =
        let new = raw_ticks json_loads int_of strip_upper parse_tick raw in
        let later = arrivals json_loads int_of strip_upper parse_tick taken in
        (
          received raw pong ∷ taken,
          ap (λ l. received raw pong ∷ l) e,
          f ∙ ap (λ l. l ++ later) grows ∙ append_assoc (payloads m.tick_buffer) new later,
        )

    lost-Fifo :
        (attempts : ℕ → Attempt) (m m' : Manager T) (events : List Event)
        (r : Next T × Manager T × List Event)
        → m'.tick_buffer ≡ m.tick_buffer
        → Fifo m' events r
        → Fifo m (lost attempts ∷ events) r
    unfolding arrivals
    lost-Fifo attempts m m' events r same (taken, e, f) = (
      lost attempts ∷ taken,
      ap (λ l. lost attempts ∷ l) e,
      f ∙ ap (λ b. payloads b ++ arrivals json_loads int_of strip_upper parse_tick taken) same,
    )

    -- What the loop does with an event.
    receive_received_cases :
        (raw : Text) (pong : Bool) (events : List Event) (m : Manager T)
        → let r =
            receive json_loads int_of strip_upper code_of msg_of parse_tick
              (received raw pong ∷ events)
              m in
          let m' =
            (handle_message json_loads int_of strip_upper code_of msg_of parse_tick raw pong m).1 in
          (r ≡ (stopped, m, received raw pong ∷ events))
          ⊎ (r ≡ receive json_loads int_of strip_upper code_of msg_of parse_tick events m')
          ⊎ ((t : T × String × ℕ) × (m'' : Manager T) × (pop_tick m' ≡ some (t, m''))
              × (r ≡ (tick t, m'', events)))
    unfolding receive
    receive_received_cases raw pong events m =
        let handled =
          handle_message json_loads int_of strip_upper code_of msg_of parse_tick raw pong m in
        elim (Bool-cases m.running) [
          | inr off ↦ inl (ground (arith, off))
          | inl on ↦ elim (Bool-cases handled.0) [
            | inr failed ↦ inr (inl (ground (arith, on, failed)))
            | inl done ↦ elim (Option-cases (pop_tick handled.1)) [
              | inl nothing ↦ inr (inl (ground (arith, on, done, nothing)))
              | inr ((t, m''), popped) ↦
                  inr (inr (t, m'', popped, ground (arith, on, done, popped)))
            ]
          ]
        ]

    receive_lost_cases :
        (attempts : ℕ → Attempt) (events : List Event) (m : Manager T)
        → let r =
            receive json_loads int_of strip_upper code_of msg_of parse_tick
              (lost attempts ∷ events)
              m in
          let m' = (reconnect attempts m).1 in
          (r ≡ (stopped, m, lost attempts ∷ events))
          ⊎ (r ≡ receive json_loads int_of strip_upper code_of msg_of parse_tick events m')
          ⊎ (r ≡ (exhausted, m', events))
    unfolding receive
    receive_lost_cases attempts events m = elim (Bool-cases m.running) [
      | inr off ↦ inl (ground (arith, off))
      | inl on ↦ elim (Bool-cases (reconnect attempts m).0) [
        | inl done ↦ inr (inl (ground (arith, on, done)))
        | inr failed ↦ inr (inr (ground (arith, on, failed)))
      ]
    ]

    receive_nothing_cases :
        (m : Manager T)
        → let r = receive json_loads int_of strip_upper code_of msg_of parse_tick [] m in
          (r ≡ (waiting, m, [])) ⊎ (r ≡ (stopped, m, []))
    unfolding receive
    receive_nothing_cases m = ground arith

    receive-Fifo :
        (events : List Event) (m : Manager T)
        → Fifo m events (receive json_loads int_of strip_upper code_of msg_of parse_tick events m)
    unfolding yielded
    receive-Fifo [] m = elim (receive_nothing_cases m) [
      | inl e ↦ subst (Fifo m []) (sym e) (idle-Fifo m [] (waiting, m, []) refl refl refl)
      | inr e ↦ subst (Fifo m []) (sym e) (idle-Fifo m [] (stopped, m, []) refl refl refl)
    ]
    receive-Fifo (received raw pong ∷ events) m =
        let m' =
          (handle_message json_loads int_of strip_upper code_of msg_of parse_tick raw pong m).1 in
        let all = received raw pong ∷ events in
        let grows =
          handle_message-Grows json_loads int_of strip_upper parse_tick code_of msg_of raw pong m in
        let rest = receive json_loads int_of strip_upper code_of msg_of parse_tick events m' in
        elim (receive_received_cases raw pong events m) [
          | inl e ↦ subst (Fifo m all) (sym e) (idle-Fifo m all (stopped, m, all) refl refl refl)
          | inr (inl e) ↦
              subst (Fifo m all) (sym e)
                (received-Fifo raw pong m m' events rest grows (receive-Fifo events m'))
          | inr (inr (t, m'', popped, e)) ↦ subst (Fifo m all) (sym e) (
              received-Fifo raw pong m m' events (tick t, m'', events) grows
                (pop_tick-Fifo m' m'' t events popped))
        ]
    receive-Fifo (lost attempts ∷ events) m =
        let m' = (reconnect attempts m).1 in
        let all = lost attempts ∷ events in
        let kept = reconnect_buffer attempts m in
        let rest = receive json_loads int_of strip_upper code_of msg_of parse_tick events m' in
        elim (receive_lost_cases attempts events m) [
          | inl e ↦ subst (Fifo m all) (sym e) (idle-Fifo m all (stopped, m, all) refl refl refl)
          | inr (inl e) ↦
              subst (Fifo m all) (sym e)
                (lost-Fifo attempts m m' events rest kept (receive-Fifo events m'))
          | inr (inr e) ↦ subst (Fifo m all) (sym e) (
              lost-Fifo attempts m m' events (exhausted, m', events) kept
                (idle-Fifo m' events (exhausted, m', events) refl refl refl))
        ]

    next_empty :
        (events : List Event) (m : Manager T)
        → pop_tick m ≡ none
        → next json_loads int_of strip_upper code_of msg_of parse_tick events m
          ≡ receive json_loads int_of strip_upper code_of msg_of parse_tick events m
    unfolding next
    next_empty events m nothing = ground (arith, nothing)

    next_popped :
        (events : List Event) (m m' : Manager T) (t : T × String × ℕ)
        → pop_tick m ≡ some (t, m')
        → next json_loads int_of strip_upper code_of msg_of parse_tick events m
          ≡ (tick t, m', events)
    unfolding next
    next_popped events m m' t popped = ground (arith, popped)

    -- `__anext__` takes events from the front, whatever messages, closed sockets and reconnects
    -- they are. The tick that it gives, if it gives one, followed by the buffer that it leaves, is
    -- the buffer that it found followed by the ticks of the messages taken, which are those of
    -- their whole records before the first one that is refused: ticks leave in the order in which
    -- they came, none twice, and none is lost.
    pub next-Fifo :
        (events : List Event) (m : Manager T)
        → let r = next json_loads int_of strip_upper code_of msg_of parse_tick events m in
          (taken : List Event) × (events ≡ taken ++ r.2)
          × (payloads (yielded r.0 ++ r.1.tick_buffer)
              ≡ payloads m.tick_buffer ++ arrivals json_loads int_of strip_upper parse_tick taken)
    next-Fifo events m = elim (Option-cases (pop_tick m)) [
      | inl nothing ↦
          subst (Fifo m events) (sym (next_empty events m nothing)) (receive-Fifo events m)
      | inr ((t, m'), popped) ↦
          subst (Fifo m events) (sym (next_popped events m m' t popped))
            (pop_tick-Fifo m m' t events popped)
    ]
