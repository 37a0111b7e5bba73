-- ===== src/Scheduler/Client/Relay.antt =====
-- What the client makes of an answer (scheduler_client.py: SchedulerClient.admit).
use ancora.Prelude.{◌≡◌, refl, Bool, true, false, Option, none, some, String, ok, string_key}
use ancora.Number.{Float, Num}
use ancora.Gateway.History.{Json, float, text, get}
use ancora.Scheduler.Budget.{Message}
use ancora.Scheduler.Admission.{
  outcome_name, rule_name, AdmissionRequest, AdmissionDecision, AdmissionEngine, Surroundings,
}
use ancora.Scheduler.Engine.{admit_request}
use ancora.Scheduler.Client.{
  Texts, admit_valid, admit_response, admit_route, Verdict, read_body, client_admit,
}

module _ ⦃f : Float⦄ where
  -- str of a text is the text, and float of a float the float.
  pub record IsPlain (t : Texts) : Type 0 where
    pub shown_text : (s : String) → t.shown (text s) ≡ s
    pub as_float_float : (x : Num) → t.as_float (float x) ≡ some x

  abbrev warning_text : Texts → Option Message → Option (Json Num)
  warning_text t none = none
  warning_text t (some m) = some (text (t.warning m))

  abbrev float_text : Option Num → Option (Json Num)
  float_text none = none
  float_text (some x) = some (float x)

  -- the engine's decision, as a verdict
  abbrev pub relayed : Texts → AdmissionDecision → Verdict
  relayed t d = record {
    outcome = outcome_name d.outcome;
    rule = rule_name d.rule;
    retry_after = d.retry_after;
    reason = t.reason d.reason;
    warning = warning_text t d.warning;
    timeout_seconds = float_text d.timeout_seconds;
    degraded = false;
  }

  read-admit_response :
      (t : Texts) (d : AdmissionDecision) (warning : Option Message) (timeout : Option Num)
      → IsPlain t
      → d.warning ≡ warning
      → d.timeout_seconds ≡ timeout
      → read_body t (admit_response t d) ≡ some (relayed t d)
  unfolding read_body admit_response get
  read-admit_response t d none none plain e s =
      rw
        (
          e,
          s,
          plain.as_float_float d.retry_after,
          plain.shown_text (outcome_name d.outcome),
          plain.shown_text (rule_name d.rule),
          plain.shown_text (t.reason d.reason),
        )
        refl
  read-admit_response t d (some m) none plain e s =
      rw
        (
          e,
          s,
          plain.as_float_float d.retry_after,
          plain.shown_text (outcome_name d.outcome),
          plain.shown_text (rule_name d.rule),
          plain.shown_text (t.reason d.reason),
        )
        refl
  read-admit_response t d none (some x) plain e s =
      rw
        (
          e,
          s,
          plain.as_float_float d.retry_after,
          plain.shown_text (outcome_name d.outcome),
          plain.shown_text (rule_name d.rule),
          plain.shown_text (t.reason d.reason),
        )
        refl
  read-admit_response t d (some m) (some x) plain e s =
      rw
        (
          e,
          s,
          plain.as_float_float d.retry_after,
          plain.shown_text (outcome_name d.outcome),
          plain.shown_text (rule_name d.rule),
          plain.shown_text (t.reason d.reason),
        )
        refl

  -- Where the engine decides on a valid request, the worker's verdict is that decision, with every
  -- part of it that the verdict has.
  pub client_admit-decision :
      (t : Texts) (req : AdmissionRequest) (env : Surroundings) (e : AdmissionEngine)
      (logged : Bool) (d : AdmissionDecision)
      → IsPlain t
      → admit_valid req ≡ true
      → (admit_request req env e).0 ≡ ok d
      → client_admit t true (some (admit_route t req env e).0) logged ≡ (some (relayed t d), false)
  unfolding client_admit admit_route
  client_admit-decision t req env e logged d plain valid decided =
      rw (valid, decided, read-admit_response t d d.warning d.timeout_seconds plain refl refl) refl
