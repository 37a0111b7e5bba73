-- ===== src/Scheduler/Client/Tests.antt =====
-- Calls of scheduler_client.py against the small engine of the engine's tests.
use ancora.Prelude.{◌≡◌, refl, true, false, none, some, [], ◌∷◌, ap}
use ancora.Prelude.Int.{pos}
use ancora.Number.Whole.{whole}
use ancora.Gateway.History.{text as json_text, float}
use ancora.Scheduler.Budget.{Message}
use ancora.Scheduler.Admission.{Reason}
use ancora.Scheduler.Engine.Samples.{
  engine, env, call, granted, grants, watching, malformed, edited,
}
use ancora.Scheduler.Client.{Texts, admit_valid, admit_route, client_admit}
use ancora.Scheduler.Client.Relay.{IsPlain, relayed, client_admit-decision}
use ancora.Scheduler.Client.Outage.{ask_all, AllOpen, malformed_policy_admits_all}

abbrev texts : Texts
texts = record {
  reason = λ (r : Reason). "reason";
  warning = λ (m : Message). "warning";
  shown = λ j. elim j [ json_text s ↦ s | _ ↦ "other" ];
  as_float = λ j. elim j [ float x ↦ some x | _ ↦ none ];
}

texts-IsPlain : IsPlain texts
texts-IsPlain = record { shown_text = λ s. refl; as_float_float = λ x. refl }

client_admit-decision_example :
    client_admit texts true (some (admit_route texts (call 1) env engine).0) true
    ≡ (some (relayed texts granted), false)
unfolding admit_valid
client_admit-decision_example =
    client_admit-decision texts (call 1) env engine true granted texts-IsPlain refl
      (ap (λ answer. answer.0) grants)

malformed_policy_admits_all_example :
    let (answers, e') = ask_all texts ((call 1, edited) ∷ (call 3, edited) ∷ []) watching false in
    AllOpen answers × (e' ≡ watching)
malformed_policy_admits_all_example =
    malformed_policy_admits_all texts malformed "{" "policy.yaml" (pos 50) watching
      ((call 1, edited) ∷ (call 3, edited) ∷ []) false refl refl refl refl
      (refl, refl, (refl, refl, tt))
