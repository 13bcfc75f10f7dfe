-- ===== src/AiSignal/Outbox/Running.antt =====
-- The relay takes the events in their order, and what a round that raises leaves is relayed again.
use Prim.Native.String.{String}
use invest_view.Common.{
  ℕ, zero, suc, ◌*◌, ◌≡◌, Bool, true, false, List, [], ◌∷◌, ◌++◌, arith, map, member, nat_eq, take,
  drop, if◌then◌else◌,
}
use invest_view.AiSignal.Outbox.{OutboxEvent, Outbox, to_record, Answers}
use invest_view.AiSignal.Outbox.Delivery.{ids_of}

-- No row is locked by another transaction.
abbrev pub Unlocked : Answers → Type 0
Unlocked answers = (i : ℕ) → answers.locked i ≡ false

module _ {B : Type 0} where
  member-drop :
      (i n : ℕ) (events : List (OutboxEvent B))
      → member i (ids_of events) ≡ false
      → member i (ids_of (drop n events)) ≡ false
  member-drop i zero events other = other
  member-drop i (suc n) [] other = other
  member-drop i (suc n) (e ∷ events) other =
      member-drop i n events (unfold member in ground (arith, other))

  -- The rounds that returned, and what is left and published after them.
  abbrev InOrder : (ℕ → String) → ℕ → ℕ → Outbox B → Bool × Outbox B → Type 0
  InOrder id_text rounds n o r =
      (done : ℕ) × (r.0 ≡ true → done ≡ rounds)
      × (r.1.events ≡ drop (done * n) o.events)
      × (r.1.produced
          ≡ o.produced
            ++ map (to_record id_text) (take ((if r.0 then done else suc done) * n) o.events))
