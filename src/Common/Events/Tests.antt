-- ===== src/Common/Events/Tests.antt =====
-- An event of events.py through a stream, where the integers' texts are unary.
use Prim.Native.Nat.{zero}
use Prim.Native.Char.{Char}
use Prim.Native.String.{count, ◌∷◌, []}
use Prim.Native.String.count.{cons}
use ancora.Prelude.{
  ℕ, suc, ◌≡◌, ◌≢◌, refl, ap, ◌∙◌, false, Option, none, some, String, ◌==◌, string_key,
  if◌then◌else◌, inl, inr, Bool-cases,
}
use ancora.Prelude.Int.{ℤ, pos, negsuc}
use ancora.Common.Events.{Texts, RunEvent, encode_event, decode_event}
use ancora.Common.Events.Transport.{nonempty, decode_event-encode_event}

unfoldable unary : ℕ → String
unary zero = ""
unary (suc n) = "i" ∷ unary n

count-unary : (n : ℕ) → count (unary n) ≡ n
unfolding unary
count-unary zero = refl
count-unary (suc n) = (λ i. cons "i" (unary n) i) ∙ ap suc (count-unary n)

unfoldable show_int : ℤ → String
show_int (pos n) = "p" ∷ unary n
show_int (negsuc n) = "n" ∷ unary n

unfoldable read_int : String → Option ℤ
read_int [] = none
read_int (c ∷ s) = if (c ∷ []) == "p" then some (pos (count s)) else some (negsuc (count s))

read_int-show_int : (n : ℤ) → read_int (show_int n) ≡ some n
unfolding read_int show_int
read_int-show_int (pos n) = ap (λ k. some (pos k)) (count-unary n)
read_int-show_int (negsuc n) = ap (λ k. some (negsuc k)) (count-unary n)

cons_nonempty : (c : Char) (s : String) → ((c ∷ s) == "") ≡ false
cons_nonempty c s = elim (Bool-cases ((c ∷ s) == "")) [
  | inr other ↦ other
  | inl same ↦ absurd (not_empty ((string_key.agree_iff (c ∷ s) "").0 same))
]
  where
    not_empty : (c ∷ s) ≢ ""
    not_empty h = cc

show_int_nonempty : (n : ℤ) → (show_int n == "") ≡ false
unfolding show_int
show_int_nonempty (pos n) = cons_nonempty "p" (unary n)
show_int_nonempty (negsuc n) = cons_nonempty "n" (unary n)

-- times are integers too, and any payload is read as 7
abbrev unary_texts : Texts ℤ ℤ
unary_texts = record {
  iso = show_int;
  from_iso = read_int;
  show_int = show_int;
  read_int = read_int;
  dumps = show_int;
  loads = λ text. some (pos 7);
  empty_payload = pos 0;
  iso_nonempty = show_int_nonempty;
  read_int-show_int = read_int-show_int;
  show_int_nonempty = show_int_nonempty;
  dumps_nonempty = show_int_nonempty;
}

abbrev node_done : RunEvent ℤ ℤ
node_done = record {
  kind = "activity.completed";
  wf_id = "wf";
  run_id = "r";
  ts = pos 3;
  node_id = some "n";
  activity_id = some "";
  activity_type = none;
  attempt = pos 2;
  worker_id = none;
  status = none;
  error = none;
  payload = negsuc 4;
}

decode_event-encode_event_example :
    decode_event unary_texts (pos 9) (encode_event unary_texts node_done) ≡ record node_done {
      ts = pos 3;
      payload = pos 7;
      node_id = nonempty (some "n");
      activity_id = nonempty (some "");
      activity_type = nonempty none;
      worker_id = nonempty none;
      status = nonempty none;
      error = nonempty none;
    }
unfolding read_int show_int unary
decode_event-encode_event_example = decode_event-encode_event unary_texts (pos 9) node_done
