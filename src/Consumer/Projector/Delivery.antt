-- ===== src/Consumer/Projector/Delivery.antt =====
-- What becomes of a batch that is not persisted (projector.py).
use ancora.Prelude.{
  ◌≡◌, refl, ◌∙◌, Bool, true, false, String, List, [], ◌∷◌, arith, string_key, inl, inr, Bool-cases,
}
use ancora.Dict.{Dict, lookup}
use ancora.Common.Events.{RunEvent}
use ancora.Consumer.Projector.{
  RunEventRow, ids_of, listed, StreamGroup, Fault, no_fault, persist_fault, ack_fault, pass,
  run_once, run_passes,
}
use ancora.Consumer.Projector.Batches.{persist_other}

module _ {Time Payload G : Type 0} (group : StreamGroup G (RunEvent Time Payload))
    (is_empty : Payload → Bool) where
  pass_delivered :
      (i : String) (fault : Fault) (batch : List (String × RunEvent Time Payload)) (g : G)
      (table : Dict String (RunEventRow Time Payload))
      → group.delivered i g ≡ true
      → group.delivered i (pass group is_empty fault batch g table).1 ≡ true
  unfolding pass
  pass_delivered i no_fault [] g table h = h
  pass_delivered i persist_fault [] g table h = h
  pass_delivered i ack_fault [] g table h = h
  pass_delivered i persist_fault (e ∷ batch) g table h = h
  pass_delivered i ack_fault (e ∷ batch) g table h = h
  pass_delivered i no_fault (e ∷ batch) g table h = group.ack_keeps (ids_of (e ∷ batch)) g i h

  pass_other :
      (i : String) (fault : Fault) (batch : List (String × RunEvent Time Payload)) (g : G)
      (table : Dict String (RunEventRow Time Payload))
      → listed i (ids_of batch) ≡ false
      → lookup i (pass group is_empty fault batch g table).2 ≡ lookup i table
  unfolding pass
  pass_other i no_fault [] g table h = refl
  pass_other i persist_fault [] g table h = refl
  pass_other i ack_fault [] g table h = refl
  pass_other i persist_fault (e ∷ batch) g table h = refl
  pass_other i ack_fault (e ∷ batch) g table h = persist_other i is_empty (e ∷ batch) table h
  pass_other i no_fault (e ∷ batch) g table h = persist_other i is_empty (e ∷ batch) table h

  not_read_again :
      (i : String) (g : G) → group.delivered i g ≡ true → listed i (ids_of (group.read g).0) ≡ false
  not_read_again i g h = elim (Bool-cases (listed i (ids_of (group.read g).0))) [
    | inl again ↦ absurd (ground (arith, group.read_new g i again))
    | inr other ↦ other
  ]

  passes_leave :
      (i : String) (faults : List Fault) (g : G) (table : Dict String (RunEventRow Time Payload))
      → group.delivered i g ≡ true
      → lookup i (run_passes group is_empty faults g table).1 ≡ lookup i table
  unfolding run_passes run_once
  passes_leave i [] g table h = refl
  passes_leave i (fault ∷ faults) g table h =
      let (batch, g') = group.read g in
      let (_, g'', table') = pass group is_empty fault batch g' table in
      passes_leave i faults g'' table'
        (pass_delivered i fault batch g' table (group.read_keeps g i h))
      ∙ pass_other i fault batch g' table (not_read_again i g h)

  -- An event of a batch whose write raises is never written by this loop: no later pass reads it
  -- again, whatever those passes read and wherever they raise. Its row stays what it was.
  pub failed_batch_stranded :
      (i : String) (faults : List Fault) (g : G) (table : Dict String (RunEventRow Time Payload))
      → listed i (ids_of (group.read g).0) ≡ true
      → lookup i (run_passes group is_empty (persist_fault ∷ faults) g table).1 ≡ lookup i table
  unfolding run_passes run_once
  failed_batch_stranded i faults g table claimed =
      let (batch, g') = group.read g in
      let (_, g'', table') = pass group is_empty persist_fault batch g' table in
      passes_leave i faults g'' table'
        (pass_delivered i persist_fault batch g' table (group.read_marks g i claimed))
      ∙ failed_keeps batch g'
    where
      failed_keeps :
          (batch : List (String × RunEvent Time Payload)) (g' : G)
          → lookup i (pass group is_empty persist_fault batch g' table).2 ≡ lookup i table
      failed_keeps [] g' = unfold pass in refl
      failed_keeps (e ∷ batch) g' = unfold pass in refl
