-- ===== src/Scheduler/Client.antt =====
-- services/scheduler/ancora_scheduler/api.py: the routes that admit and complete; and
-- packages/common/ancora_common/scheduler_client.py: the client that workers call them with.
pub mod Relay
pub mod Outage
mod Tests
use ancora.Prelude.{
  ℕ, Bool, true, false, not, ◌&&◌, Option, none, some, String, List, [], ◌∷◌, Result, ok, raised,
  if◌then◌else◌,
}
use ancora.Prelude.Int.{pos}
use ancora.Number.{Float, Num, fnum, at_most}
use ancora.Gateway.History.{Json, null, integer, float, text, object, Fields, end, field, get}
use ancora.Scheduler.Budget.{Message}
use ancora.Scheduler.Admission.{
  Outcome, outcome_name, Rule, rule_name, Reason, AdmissionRequest, AdmissionDecision,
  AdmissionEngine, Surroundings, EngineError,
}
use ancora.Scheduler.Engine
use ancora.Scheduler.Engine.{admit_request}

module _ ⦃f : Float⦄ where
  -- the texts of reasons and warnings, and Python's str and float of a JSON value
  pub record Texts : Type 0 where
    pub reason : Reason → String
    pub warning : Message → String
    pub shown : Json Num → String
    pub as_float : Json Num → Option Num

  -- what the server sends back: FastAPI refuses a request that its model rejects, and answers 500
  -- where the handler raises
  pub data Reply : Type 0 where
    unprocessable : Reply
    server_error : Reply
    body : Json Num → Reply

  -- Field(gt=0) and Field(ge=0) of AdmitRequest
  unfoldable pub admit_valid : AdmissionRequest → Bool
  admit_valid req = not (at_most req.tokens (fnum 0)) && at_most (fnum 0) req.estimated_usd

  abbrev optional_text : (Message → String) → Option Message → Json Num
  optional_text shown none = null
  optional_text shown (some m) = text (shown m)

  abbrev optional_float : Option Num → Json Num
  optional_float none = null
  optional_float (some x) = float x

  -- AdmitResponse, as it is sent
  unfoldable pub admit_response : Texts → AdmissionDecision → Json Num
  admit_response t d = object (
      field "outcome" (text (outcome_name d.outcome)) (
        field "rule" (text (rule_name d.rule)) (
          field "retry_after" (float d.retry_after) (
            field "reason" (text (t.reason d.reason)) (
              field "warning" (optional_text t.warning d.warning) (
                field "timeout_seconds" (optional_float d.timeout_seconds)
                  (field "queue_depth" (integer (pos d.queue_depth)) end)))))))

  abbrev reply_of : Texts → Result EngineError AdmissionDecision → Reply
  reply_of t (raised error) = server_error
  reply_of t (ok d) = body (admit_response t d)

  -- POST /v1/admit
  unfoldable pub admit_route :
      Texts → AdmissionRequest → Surroundings → AdmissionEngine → Reply × AdmissionEngine
  admit_route t req env e =
      if admit_valid req
      then (let (answer, e') = admit_request req env e in (reply_of t answer, e'))
      else (unprocessable, e)

  -- POST /v1/complete: none where the request is refused
  unfoldable pub complete_route :
      String → String → String → Num → AdmissionEngine → Option Bool × AdmissionEngine
  complete_route run_id node_id tenant usd e =
      if at_most (fnum 0) usd
      then (let (released, e') = Engine.complete run_id node_id tenant usd e in (some released, e'))
      else (none, e)

  pub record Verdict : Type 0 where
    pub outcome : String
    pub rule : String
    pub retry_after : Num
    pub reason : String
    pub warning : Option (Json Num)
    pub timeout_seconds : Option (Json Num)
    pub degraded : Bool

  abbrev verdict : String → Bool → Verdict
  verdict rule degraded = record {
    outcome = "admit";
    rule = rule;
    retry_after = fnum 0;
    reason = "";
    warning = none;
    timeout_seconds = none;
    degraded = degraded;
  }

  abbrev pub admit_open : Verdict
  admit_open = verdict "unavailable" true

  -- str(body.get(key, default))
  abbrev text_at : Texts → String → Option (Json Num) → String
  text_at t other none = other
  text_at t other (some v) = t.shown v

  -- float(body.get("retry_after", 0.0)), which may raise
  abbrev float_at : Texts → Option (Json Num) → Option Num
  float_at t none = some (fnum 0)
  float_at t (some v) = t.as_float v

  -- body.get(key)
  abbrev value_at : Option (Json Num) → Option (Json Num)
  value_at none = none
  value_at (some null) = none
  value_at (some v) = some v

  abbrev parsed : Texts → Fields Num → Option Num → Option Verdict
  parsed t fields none = none
  parsed t fields (some retry_after) = some (record {
    outcome = text_at t "admit" (get "outcome" fields);
    rule = text_at t "none" (get "rule" fields);
    retry_after = retry_after;
    reason = text_at t "" (get "reason" fields);
    warning = value_at (get "warning" fields);
    timeout_seconds = value_at (get "timeout_seconds" fields);
    degraded = false;
  })

  -- the verdict of a body; none where reading it raises: a body that is no object has no `get`
  unfoldable pub read_body : Texts → Json Num → Option Verdict
  read_body t (object fields) = parsed t fields (float_at t (get "retry_after" fields))
  read_body t _ = none

  -- the answer of `post`: none where the call itself raises
  abbrev Posted : Type 0
  Posted = Option Reply

  -- SchedulerClient.admit: the verdict, or none where it raises; and _degraded_logged
  unfoldable pub client_admit : Texts → Bool → Posted → Bool → Option Verdict × Bool
  client_admit t false posted logged = (some (verdict "disabled" false), logged)
  client_admit t true (some (body b)) logged = (read_body t b, false)
  client_admit t true (some unprocessable) logged = (some admit_open, true)
  client_admit t true (some server_error) logged = (some admit_open, true)
  client_admit t true none logged = (some admit_open, true)
