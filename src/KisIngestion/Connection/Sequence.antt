-- ===== src/KisIngestion/Connection/Sequence.antt =====
-- The numbers of the ticks of a session are consecutive.
use Prim.Native.String.{String}
use invest_view.Common.{
  ℕ, zero, suc, ◌+◌, ◌≤◌, ◌≡◌, refl, Bool, false, Option, List, [], ◌∷◌, ◌++◌, arith, length, ◌==◌,
  Option-cases, Bool-cases, ◌⊎◌, inl, inr, subst, sym,
}
use invest_view.KisIngestion.Connection.{
  Manager, append_tick, record_values, record_field_count, handle_records,
}

-- The entries carry the session and the numbers that follow `first`; `last` is the last of them.
abbrev pub Numbered : {T : Type 0} → String → ℕ → List (T × String × ℕ) → ℕ → Type 0
Numbered session first [] last = first ≡ last
Numbered session first ((t, s, n) ∷ ticks) last =
    (s ≡ session) × (n ≡ suc first) × Numbered session (suc first) ticks last

module _ {T : Type 0} where
  Numbered-append :
      (session : String) (ticks : List (T × String × ℕ)) (first last : ℕ) (t : T)
      → Numbered session first ticks last
      → Numbered session first (ticks ++ (t, session, suc last) ∷ []) (suc last)
  Numbered-append session [] first last t h = (refl, ground arith, ground arith)
  Numbered-append session (x ∷ ticks) first last t h =
      (h.0, h.1, Numbered-append session ticks (suc first) last t h.2)

  -- The buffer with the numbers from `first` on up to the sequence, in the manager's session.
  abbrev pub InSequence : ℕ → Manager T → Type 0
  InSequence first m = Numbered m.session_id first m.tick_buffer m.sequence

  -- One record is skipped, is refused, or gives a tick.
  pub handle_records_cases :
      {A : Type 0} (parse : String → List A → Option T) (market : Option String) (values : List A)
      (index count : ℕ) (m : Manager T)
      → (handle_records parse market values index (suc count) m
          ≡ handle_records parse market values (suc index) count m)
        ⊎ ((handle_records parse market values index (suc count) m ≡ (false, m))
            ⊎ ((t : T) × (handle_records parse market values index (suc count) m
                  ≡ handle_records parse market values (suc index) count (append_tick t m))))
  unfolding handle_records
  handle_records_cases parse market values index count m =
      elim (Bool-cases (length (record_values values index) == record_field_count)) [
        | inr short ↦ inl (ground (arith, short))
        | inl whole ↦ elim (Option-cases market) [
          | inl unsupported ↦ inl (ground (arith, whole, unsupported))
          | inr (name, e) ↦ elim (Option-cases (parse name (record_values values index))) [
            | inl refused ↦ inr (inl (ground (arith, whole, e, refused)))
            | inr (t, e') ↦ inr (inr (t, ground (arith, whole, e, e')))
          ]
        ]
      ]

  -- What the loop leaves: numbered as before, with at most `count` more numbers.
  abbrev pub Continues : ℕ → ℕ → Manager T → Bool × Manager T → Type 0
  Continues first count m r =
      InSequence first r.1
      × (m.sequence ≤ r.1.sequence)
      × (r.1.sequence ≤ m.sequence + count)
      × (r.1.session_id ≡ m.session_id)

  after_tick :
      (first count : ℕ) (t : T) (m : Manager T) (r : Bool × Manager T)
      → Continues first count (append_tick t m) r
      → Continues first (suc count) m r
  unfolding append_tick
  after_tick first count t m r (s, lo, hi, same) = (s, omega arith, omega arith, same)

  pub handle_records-Continues :
      {A : Type 0} (parse : String → List A → Option T) (market : Option String) (values : List A)
      (first index count : ℕ) (m : Manager T)
      → InSequence first m
      → Continues first count m (handle_records parse market values index count m)
  handle_records-Continues parse market values first index zero m h =
      unfold handle_records in (h, omega arith, omega arith, refl)
  handle_records-Continues parse market values first index (suc count) m h =
      elim (handle_records_cases parse market values index count m) [
        | inl e ↦
            let (s, lo, hi, same) =
              handle_records-Continues parse market values first (suc index) count m h in
            subst (Continues first (suc count) m) (sym e) (s, lo, omega arith, same)
        | inr (inl e) ↦
            subst (Continues first (suc count) m) (sym e) (h, omega arith, omega arith, refl)
        | inr (inr (t, e)) ↦
            let (s, lo, hi, same) =
              handle_records-Continues parse market values first (suc index) count (append_tick t m)
                (unfold append_tick in
                  Numbered-append m.session_id m.tick_buffer first m.sequence t h) in
            subst (Continues first (suc count) m) (sym e) (
              after_tick first count t m
                (handle_records parse market values (suc index) count (append_tick t m))
                (s, lo, hi, same))
      ]
