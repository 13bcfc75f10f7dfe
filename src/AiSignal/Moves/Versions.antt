-- ===== src/AiSignal/Moves/Versions.antt =====
-- A move never goes back to an older version, and a transition asks for signals once.
use Prim.Native.String.{String}
use invest_view.Common.{
  ℕ, ◌≡◌, refl, sym, ap, subst, ◌∙◌, inl, inr, ◌⊎◌, true, false, Option, some, Dict, lookup, insert,
  lookup-insert, string_eq, str_beq, str_beq_iff, eqb_ℤ_iff, ◌≤ℤ◌, arith, some-inj, beq_refl,
  Option-cases, Bool-cases,
}
use invest_view.AiSignal.Moves.{
  MoveRecord, SymbolGate, MoveRow, World, is_some, overwrites, upsert_move, is_stored,
  is_transition, candidate_start, decompose, sink_move,
}

module _ {P D : Type 0} (r : MoveRecord P) where
  -- A row keeps its version or gets a later one; one that is decomposed stays for the same version.
  abbrev pub Later : MoveRow P D → MoveRow P D → Type 0
  Later old new =
      (old.row_version ≤ℤ new.row_version)
      × (is_some old.contrib ≡ true → old.row_version ≡ new.row_version → new ≡ old)

  Later-refl : (row : MoveRow P D) → Later row row
  Later-refl row = (ground arith, λ d e. refl)

  upsert_move_cases :
      (symbol_id : String) (start : ℕ) (contrib : Option D) (moves : Dict String (MoveRow P D))
      → ((upsert_move r symbol_id start contrib moves ≡ moves)
          × (old : MoveRow P D) × (lookup r.move_id moves ≡ some old)
          × (overwrites r old ≡ false))
        ⊎ ((new : MoveRow P D) × (upsert_move r symbol_id start contrib moves
              ≡ insert r.move_id new moves)
            × (new.row_version ≡ r.version)
            × ((old : MoveRow P D) → lookup r.move_id moves ≡ some old → overwrites r old ≡ true))
  unfolding upsert_move
  upsert_move_cases symbol_id start contrib moves = elim (Option-cases (lookup r.move_id moves)) [
    | inl e ↦ inr (
      record {
        type_of = r.move_type;
        symbol_entity_id = symbol_id;
        start = start;
        end = r.window_end;
        values = r.payload;
        contrib = contrib;
        status = r.signal_status;
        row_version = r.version;
      },
      ground (arith, e),
      refl,
      λ old f. absurd (ground (arith, e, f)),
    )
    | inr (old, e) ↦ elim (Bool-cases (overwrites r old)) [
      | inr stays ↦ inl (ground (arith, e, stays), old, e, stays)
      | inl over ↦ inr (
        record old {
          start = start;
          end = r.window_end;
          values = r.payload;
          contrib = contrib;
          row_version = r.version;
        },
        ground (arith, e, over),
        refl,
        λ other f. subst (λ o. overwrites r o ≡ true) (some-inj (sym e ∙ f)) over,
      )
    ]
  ]

  overwrites-Later :
      (old new : MoveRow P D)
      → overwrites r old ≡ true
      → new.row_version ≡ r.version
      → Later old new
  unfolding overwrites is_some
  overwrites-Later old new over e = (
    ground (arith, over, e, eqb_ℤ_iff old.row_version r.version),
    λ d same. absurd (ground (arith, over, e, d, same, eqb_ℤ_iff old.row_version r.version)),
  )

  upsert_move_keeps :
      (symbol_id : String) (start : ℕ) (contrib : Option D) (moves : Dict String (MoveRow P D))
      (id : String) (row : MoveRow P D)
      → lookup id moves ≡ some row
      → (new : MoveRow P D) × (lookup id (upsert_move r symbol_id start contrib moves) ≡ some new)
        × Later row new
  upsert_move_keeps symbol_id start contrib moves id row e =
      elim (upsert_move_cases symbol_id start contrib moves) [
        | inl (same, _, _, _) ↦ (row, ap (lookup id) same ∙ e, Later-refl row)
        | inr (new, put, version, over) ↦ elim (Bool-cases (str_beq r.move_id id)) [
          | inl own ↦
              let here : r.move_id ≡ id = (str_beq_iff r.move_id id).0 own in
              (
                new,
                ap (lookup id) put ∙ found new own,
                overwrites-Later row new
                    (over row (subst (λ k. lookup k moves ≡ some row) (sym here) e)) version,
              )
          | inr other ↦ (row, ap (lookup id) put ∙ passed new other, Later-refl row)
        ]
      ]
    where
      found :
          (new : MoveRow P D)
          → str_beq r.move_id id ≡ true
          → lookup id (insert r.move_id new moves) ≡ some new
      found new own = ground (arith, lookup-insert r.move_id id new moves, own)

      passed :
          (new : MoveRow P D)
          → str_beq r.move_id id ≡ false
          → lookup id (insert r.move_id new moves) ≡ some row
      passed new other = ground (arith, lookup-insert r.move_id id new moves, other, e)

  stored_or_over :
      (old : MoveRow P D) → is_stored r (some old) ≡ false → overwrites r old ≡ false → ⊥
  unfolding is_stored overwrites is_some
  stored_or_over old new stays = ground (arith, new, stays)

  settled : (row : MoveRow P D) → row.row_version ≡ r.version → is_transition r (some row) ≡ false
  unfolding is_transition
  settled row e = ground (arith, e)

  -- A record that is not stored is the version of the row after the statement.
  upsert_move_stores :
      (symbol_id : String) (start : ℕ) (contrib : Option D) (moves : Dict String (MoveRow P D))
      → is_stored r (lookup r.move_id moves) ≡ false
      → is_transition r (lookup r.move_id (upsert_move r symbol_id start contrib moves)) ≡ false
  upsert_move_stores symbol_id start contrib moves new =
      elim (upsert_move_cases symbol_id start contrib moves) [
        | inl (same, old, e, stays) ↦
            absurd (stored_or_over old (subst (λ o. is_stored r o ≡ false) e new) stays)
        | inr (row, put, version, over) ↦
            subst (λ o. is_transition r o ≡ false) (sym (ap (lookup r.move_id) put ∙ found row))
              (settled row version)
      ]
    where
      found : (row : MoveRow P D) → lookup r.move_id (insert r.move_id row moves) ≡ some row
      found row = ground (arith, lookup-insert r.move_id r.move_id row moves, beq_refl r.move_id)

module _ {P D : Type 0} (symbol_gate : String → Option SymbolGate)
    (previous_close_at : ℕ → Option ℕ) (decompose_daily : String → ℕ → Option D)
    (r : MoveRecord P) where
  -- The row of the record, after the statement.
  abbrev written : String → World P D → Dict String (MoveRow P D)
  written entity_id w =
      upsert_move r entity_id (candidate_start symbol_gate previous_close_at decompose_daily r)
        (decompose symbol_gate previous_close_at decompose_daily r) w.moves

  sink_move_cases :
      (w : World P D)
      → (sink_move symbol_gate previous_close_at decompose_daily r w ≡ w)
        ⊎ ((entity_id : String) × (is_stored r (lookup r.move_id w.moves) ≡ false)
            × ((sink_move symbol_gate previous_close_at decompose_daily r w).moves
                ≡ written entity_id w))
  unfolding sink_move
  sink_move_cases w = elim (Option-cases (symbol_gate r.symbol)) [
    | inl unknown ↦ inl (ground (arith, unknown))
    | inr (gate, e) ↦ elim (Bool-cases (is_stored r (lookup r.move_id w.moves))) [
      | inl old ↦ inl (ground (arith, e, old))
      | inr new ↦ inr (gate.entity_id, new, ground (arith, e, new))
    ]
  ]

  sink_move_quiet :
      (w : World P D)
      → is_transition r (lookup r.move_id w.moves) ≡ false
      → (sink_move symbol_gate previous_close_at decompose_daily r w).requests ≡ w.requests
  unfolding sink_move
  sink_move_quiet w t = ground (arith, t)

  -- Handling a move leaves every row in the table, with the version that it had or a later one, and a
  -- decomposed row as it was unless its version is later; and handling the same record again asks for
  -- no more signals.
  pub sink_move_lem :
      (w : World P D)
      → ((id : String) (row : MoveRow P D)
          → lookup id w.moves ≡ some row
          → (new : MoveRow P D) × (lookup id
                (sink_move symbol_gate previous_close_at decompose_daily r w).moves
              ≡ some new)
            × Later r row new)
        × ((sink_move symbol_gate previous_close_at decompose_daily r
              (sink_move symbol_gate previous_close_at decompose_daily r w)).requests
            ≡ (sink_move symbol_gate previous_close_at decompose_daily r w).requests)
  sink_move_lem w = elim (sink_move_cases w) [
    | inl same ↦ (
      λ id row e. (row, ap (λ (v : World P D). lookup id v.moves) same ∙ e, Later-refl r row),
      ap (λ (v : World P D). (sink_move symbol_gate previous_close_at decompose_daily r v).requests)
          same,
    )
    | inr (entity_id, new, moves) ↦
        let start = candidate_start symbol_gate previous_close_at decompose_daily r in
        let contrib = decompose symbol_gate previous_close_at decompose_daily r in
        (
          λ id row e.
              let (row', f, later) = upsert_move_keeps r entity_id start contrib w.moves id row e in
              (row', ap (lookup id) moves ∙ f, later),
          sink_move_quiet (sink_move symbol_gate previous_close_at decompose_daily r w) (
              subst (λ m. is_transition r (lookup r.move_id m) ≡ false) (sym moves)
                (upsert_move_stores r entity_id start contrib w.moves new)),
        )
  ]
