-- ===== src/Common/Projections.antt =====
-- packages/common/ancora_common/projections.py: the writers of the cost ledger, the retry log and
-- the approval gates. One call's transaction is one step: it commits, or, where the database
-- raises, it leaves the tables as they were, and the call returns all the same. `J` is a JSON
-- object, `T` a datetime.
pub mod Ledger
pub mod Gates
mod Tests
use ancora.Prelude.{
  ℕ, Bool, true, false, not, ◌&&◌, Option, none, some, String, List, [], ◌∷◌, ◌++◌, nat_eq,
  string_key, nat_key, pair_key, Key, if◌then◌else◌,
}
use ancora.Number.{Float, Num, fnum, same}
use ancora.Dict.{Dict, lookup, insert}

module _ ⦃f : Float⦄ where
  -- the cost dict that a node reports
  pub record Cost : Type 0 where
    pub usd : Option Num
    pub input_tokens : Option ℕ
    pub output_tokens : Option ℕ
    pub gpu_seconds : Option Num
    pub provider : Option String
    pub model : Option String

  -- a row of cost_ledger, under its workflow, node and attempt
  pub record CostRow : Type 0 where
    pub node_type : String
    pub provider : Option String
    pub model : Option String
    pub usd : Num
    pub input_tokens : ℕ
    pub output_tokens : ℕ
    pub gpu_seconds : Num

  pub record RetryAttempt : Type 0 where
    pub wf_id : String
    pub node_id : String
    pub node_type : String
    pub attempt : ℕ
    pub error : String
    pub transient : Bool
    pub retry_after_seconds : Option Num
    pub worker_id : Option String

-- a row of approval_gate, under its workflow and gate
pub record ApprovalGate (J T : Type 0) : Type 0 where
  pub workflow_name : Option String
  pub status : String
  pub prompt : Option String
  pub payload : Option J
  pub expires_at : Option T
  pub decided_at : Option T
  pub decided_by : Option String
  pub comment : Option String

abbrev pub LedgerKey : Type 0
LedgerKey = (String × String) × ℕ

instance abbrev pub ledger_key : Key LedgerKey
ledger_key = pair_key ⦃first = pair_key⦄ ⦃second = nat_key⦄

abbrev pub GateKey : Type 0
GateKey = String × String

unfoldable pub status_of : Bool → Bool → String
status_of approved timed_out =
    if timed_out then "expired" else if approved then "approved" else "rejected"

abbrev tokens_or_zero : Option ℕ → ℕ
tokens_or_zero none = 0
tokens_or_zero (some n) = n

module _ {J T : Type 0} where
  -- ON CONFLICT DO UPDATE: an old row keeps its workflow's name
  unfoldable pub opened :
      Option String
      → Option String
      → Option J
      → Option T
      → Option (ApprovalGate J T)
      → ApprovalGate J T
  opened workflow_name prompt payload expires_at none = record {
    workflow_name = workflow_name;
    status = "waiting";
    prompt = prompt;
    payload = payload;
    expires_at = expires_at;
    decided_at = none;
    decided_by = none;
    comment = none;
  }
  opened workflow_name prompt payload expires_at (some row) = record row {
    status = "waiting";
    prompt = prompt;
    payload = payload;
    expires_at = expires_at;
    decided_at = none;
    decided_by = none;
    comment = none;
  }

  -- the row that is there, or a new one where the open never landed
  unfoldable pub closed :
      String → Option String → Option String → T → Option (ApprovalGate J T) → ApprovalGate J T
  closed status comment decided_by now none = record {
    workflow_name = none;
    status = status;
    prompt = none;
    payload = none;
    expires_at = none;
    decided_at = some now;
    decided_by = decided_by;
    comment = comment;
  }
  closed status comment decided_by now (some row) = record row {
    status = status;
    decided_at = some now;
    decided_by = decided_by;
    comment = comment;
  }

module _ ⦃f : Float⦄ where
  -- the switch, and the tables
  pub record Projections (J T : Type 0) : Type 0 where
    pub enabled : Bool
    pub ledger : Dict LedgerKey CostRow
    pub retries : List RetryAttempt
    pub gates : Dict GateKey (ApprovalGate J T)

  abbrev pub num_or_zero : Option Num → Num
  num_or_zero none = fnum 0
  num_or_zero (some x) = x

  -- not (usd or input_tokens or output_tokens or gpu_seconds)
  unfoldable pub is_free : Cost → Bool
  is_free c =
      same (num_or_zero c.usd) (fnum 0)
      && (nat_eq (tokens_or_zero c.input_tokens) 0
          && (nat_eq (tokens_or_zero c.output_tokens) 0
              && same (num_or_zero c.gpu_seconds) (fnum 0)))

  unfoldable pub row_of : String → Cost → CostRow
  row_of node_type c = record {
    node_type = node_type;
    provider = c.provider;
    model = c.model;
    usd = num_or_zero c.usd;
    input_tokens = tokens_or_zero c.input_tokens;
    output_tokens = tokens_or_zero c.output_tokens;
    gpu_seconds = num_or_zero c.gpu_seconds;
  }

  -- INSERT … ON CONFLICT DO NOTHING, of a row whose key may be there
  unfoldable pub insert_new :
      LedgerKey → CostRow → Option CostRow → Dict LedgerKey CostRow → Dict LedgerKey CostRow
  insert_new key row none ledger = insert key row ledger
  insert_new key row (some old) ledger = ledger

  module _ {J T : Type 0} where
    abbrev set_enabled : Bool → Projections J T → Projections J T
    set_enabled enabled p = record p { enabled = enabled }

    -- `reached`: whether the database takes the call's transaction
    unfoldable pub record_cost :
        Bool → LedgerKey → String → Cost → Projections J T → Projections J T
    record_cost reached key node_type cost p =
        if not p.enabled
        then p
        else if is_free cost
        then p
        else if reached
        then record p {
          ledger = insert_new key (row_of node_type cost) (lookup key p.ledger) p.ledger;
        }
        else p

    -- `cut` is error[:4000]
    unfoldable pub record_retry :
        Bool → (String → String) → RetryAttempt → Projections J T → Projections J T
    record_retry reached cut a p =
        if not p.enabled
        then p
        else if reached
        then record p { retries = p.retries ++ record a { error = cut a.error } ∷ [] }
        else p

    unfoldable pub open_gate :
        Bool
        → GateKey
        → Option String
        → Option String
        → Option J
        → Option T
        → Projections J T
        → Projections J T
    open_gate reached key workflow_name prompt payload expires_at p =
        if not p.enabled
        then p
        else if reached
        then record p {
          gates =
              insert key (opened workflow_name prompt payload expires_at (lookup key p.gates))
                p.gates;
        }
        else p

    unfoldable pub close_gate :
        Bool
        → GateKey
        → Bool
        → Bool
        → Option String
        → Option String
        → T
        → Projections J T
        → Projections J T
    close_gate reached key approved timed_out comment decided_by now p =
        if not p.enabled
        then p
        else if reached
        then record p {
          gates =
              insert key
                (closed (status_of approved timed_out) comment decided_by now (lookup key p.gates))
                p.gates;
        }
        else p
