-- ===== src/Consumer/Projector/Batches.antt =====
-- Writing a batch, and writing it again (projector.py).
use ancora.Prelude.{
  ◌≡◌, refl, ap, ◌∙◌, Bool, false, Option, none, some, String, List, [], ◌∷◌, arith, ◌==◌,
  string_key,
}
use ancora.Dict.{Dict, lookup}
use ancora.Dict.Laws.{lookup-insert, lookup-insert_self}
use ancora.Common.Events.{RunEvent}
use ancora.Consumer.Projector.{
  RunEventRow, event_row_values, insert_row, insert_rows, rows_of, persist_batch, ids_of, listed,
}

module _ {Time Payload : Type 0} where
  unfoldable row_ids : List (RunEventRow Time Payload) → List String
  row_ids [] = []
  row_ids (r ∷ rows) = r.stream_id ∷ row_ids rows

  insert_row_keeps :
      (j : String) (r s : RunEventRow Time Payload) (o : Option (RunEventRow Time Payload))
      (table : Dict String (RunEventRow Time Payload))
      → lookup s.stream_id table ≡ o
      → lookup j table ≡ some r
      → lookup j (insert_row s o table).1 ≡ some r
  unfolding insert_row
  insert_row_keeps j r s (some q) table at held = held
  insert_row_keeps j r s none table at held =
      ground (arith, lookup-insert j s.stream_id s table, string_key.agree_iff s.stream_id j)

  -- A row that the table has stays as it is.
  insert_rows_keeps :
      (j : String) (r : RunEventRow Time Payload) (rows : List (RunEventRow Time Payload))
      (table : Dict String (RunEventRow Time Payload))
      → lookup j table ≡ some r
      → lookup j (insert_rows rows table).1 ≡ some r
  unfolding insert_rows
  insert_rows_keeps j r [] table held = held
  insert_rows_keeps j r (s ∷ rows) table held =
      insert_rows_keeps j r rows (insert_row s (lookup s.stream_id table) table).1
        (insert_row_keeps j r s (lookup s.stream_id table) table refl held)

  insert_row_other :
      (j : String) (s : RunEventRow Time Payload) (o : Option (RunEventRow Time Payload))
      (table : Dict String (RunEventRow Time Payload))
      → (s.stream_id == j) ≡ false
      → lookup j (insert_row s o table).1 ≡ lookup j table
  unfolding insert_row
  insert_row_other j s (some q) table h = refl
  insert_row_other j s none table h = ground (arith, lookup-insert j s.stream_id s table)

  -- An id that no row has is left alone.
  insert_rows_other :
      (j : String) (rows : List (RunEventRow Time Payload))
      (table : Dict String (RunEventRow Time Payload))
      → listed j (row_ids rows) ≡ false
      → lookup j (insert_rows rows table).1 ≡ lookup j table
  unfolding insert_rows row_ids
  insert_rows_other j [] table h = refl
  insert_rows_other j (s ∷ rows) table h =
      let rest : listed j (row_ids rows) ≡ false = ground arith in
      let here : (s.stream_id == j) ≡ false = ground arith in
      insert_rows_other j rows (insert_row s (lookup s.stream_id table) table).1 rest
      ∙ insert_row_other j s (lookup s.stream_id table) table here

  -- every row's id is in the table
  abbrev Present : List (RunEventRow Time Payload) → Dict String (RunEventRow Time Payload) → Type 0
  Present [] table = Unit
  Present (r ∷ rows) table =
      ((q : RunEventRow Time Payload) × (lookup r.stream_id table ≡ some q)) × Present rows table

  insert_row_present :
      (r : RunEventRow Time Payload) (o : Option (RunEventRow Time Payload))
      (table : Dict String (RunEventRow Time Payload))
      → lookup r.stream_id table ≡ o
      → (q : RunEventRow Time Payload) × (lookup r.stream_id (insert_row r o table).1 ≡ some q)
  unfolding insert_row
  insert_row_present r (some q) table at = (q, at)
  insert_row_present r none table at = (r, lookup-insert_self r.stream_id r table)

  Present-after :
      (rows : List (RunEventRow Time Payload)) (table : Dict String (RunEventRow Time Payload))
      → Present rows (insert_rows rows table).1
  unfolding insert_rows
  Present-after [] table = tt
  Present-after (r ∷ rows) table =
      let table' = (insert_row r (lookup r.stream_id table) table).1 in
      let (q, here) = insert_row_present r (lookup r.stream_id table) table refl in
      ((q, insert_rows_keeps r.stream_id q rows table' here), Present-after rows table')

  insert-Present :
      (rows : List (RunEventRow Time Payload)) (table : Dict String (RunEventRow Time Payload))
      → Present rows table
      → insert_rows rows table ≡ (0, table)
  unfolding insert_rows insert_row
  insert-Present [] table h = refl
  insert-Present (r ∷ rows) table ((q, here), rest) = rw (here, insert-Present rows table rest) refl

  -- A batch that is delivered again, after it was written, writes no row and changes nothing; a
  -- row that the table had before the first delivery stays as it was.
  pub persist_again :
      (is_empty : Payload → Bool) (batch : List (String × RunEvent Time Payload))
      (table : Dict String (RunEventRow Time Payload))
      → let (_, table') = persist_batch is_empty batch table in
        (persist_batch is_empty batch table' ≡ (0, table'))
        × ((j : String) (r : RunEventRow Time Payload)
            → lookup j table ≡ some r
            → lookup j table' ≡ some r)
  unfolding persist_batch
  persist_again is_empty batch table =
      let rows = rows_of is_empty batch in
      (
        insert-Present rows (insert_rows rows table).1 (Present-after rows table),
        λ j r. insert_rows_keeps j r rows table,
      )

  row_ids-rows_of :
      (is_empty : Payload → Bool) (batch : List (String × RunEvent Time Payload))
      → row_ids (rows_of is_empty batch) ≡ ids_of batch
  unfolding rows_of row_ids ids_of event_row_values
  row_ids-rows_of is_empty [] = refl
  row_ids-rows_of is_empty ((i, e) ∷ batch) = ap (λ ids. i ∷ ids) (row_ids-rows_of is_empty batch)

  pub persist_other :
      (j : String) (is_empty : Payload → Bool) (batch : List (String × RunEvent Time Payload))
      (table : Dict String (RunEventRow Time Payload))
      → listed j (ids_of batch) ≡ false
      → lookup j (persist_batch is_empty batch table).1 ≡ lookup j table
  unfolding persist_batch
  persist_other j is_empty batch table other =
      insert_rows_other j (rows_of is_empty batch) table (rw (row_ids-rows_of is_empty batch) other)
