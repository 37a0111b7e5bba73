-- ===== src/Consumer/Projector/Tests.antt =====
-- Passes of projector.py over a stream with one event.
use ancora.Prelude.{
  ℕ, ◌≡◌, refl, Bool, true, false, none, some, String, List, [], ◌∷◌, ◌==◌, string_key,
}
use ancora.Prelude.Int.{pos}
use ancora.Dict.{lookup}
use ancora.Common.Events.{RunEvent}
use ancora.Consumer.Projector.{
  RunEventRow, persist_batch, ids_of, listed, StreamGroup, no_fault, persist_fault, run_passes,
}
use ancora.Consumer.Projector.Batches.{persist_again}
use ancora.Consumer.Projector.Delivery.{failed_batch_stranded}

abbrev started : RunEvent ℕ String
started = record {
  kind = "run.started";
  wf_id = "wf";
  run_id = "r";
  ts = 7;
  node_id = none;
  activity_id = none;
  activity_type = none;
  attempt = pos 1;
  worker_id = none;
  status = some "Running";
  error = none;
  payload = "";
}

abbrev entries : Bool → List (String × RunEvent ℕ String)
entries true = []
entries false = ("1-0", started) ∷ []

entries_new : (g : Bool) (i : String) → listed i (ids_of (entries g)) ≡ true → g ≡ false
unfolding ids_of
entries_new false i h = refl
entries_new true i h = cc

-- a stream of one entry, which is read or not
abbrev one_entry : StreamGroup Bool (RunEvent ℕ String)
one_entry = record {
  read = λ g. (entries g, true);
  ack = λ ids g. g;
  delivered = λ i g. g;
  read_new = entries_new;
  read_marks = λ g i h. refl;
  read_keeps = λ g i h. refl;
  ack_keeps = λ ids g i h. h;
}

abbrev is_empty_text : String → Bool
is_empty_text p = p == ""

claimed_entry : listed "1-0" (ids_of (one_entry.read false).0) ≡ true
unfolding ids_of
claimed_entry = refl

failed_batch_stranded_example :
    lookup "1-0"
      (run_passes one_entry is_empty_text (persist_fault ∷ no_fault ∷ no_fault ∷ []) false []).1
    ≡ none
unfolding lookup
failed_batch_stranded_example =
    failed_batch_stranded one_entry is_empty_text "1-0" (no_fault ∷ no_fault ∷ []) false []
      claimed_entry

persist_again_example :
    let (_, table') = persist_batch is_empty_text (entries false) [] in
    (persist_batch is_empty_text (entries false) table' ≡ (0, table'))
    × ((j : String) (r : RunEventRow ℕ String) → lookup j [] ≡ some r → lookup j table' ≡ some r)
persist_again_example = persist_again is_empty_text (entries false) []
