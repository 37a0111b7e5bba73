-- ===== src/Common/Catalog.antt =====
-- packages/common/ancora_common/catalog.py: run states, and the registration of workflow versions.
-- A new row's id is an argument.
pub mod Versions
mod Tests
use ancora.Prelude.{
  ℕ, ◌+◌, Bool, true, false, Option, none, some, String, List, [], ◌∷◌, ltb, ◌==◌, string_key,
  nat_key, pair_key, if◌then◌else◌,
}
use ancora.Dict.{Dict, lookup, insert}

-- AncoraRunStatus
pub data AncoraRunStatus : Type 0 where
  queued running completed failed cancelled terminated timed_out : AncoraRunStatus

-- status in AncoraRunStatus.TERMINAL
abbrev pub is_terminal : AncoraRunStatus → Bool
is_terminal queued = false
is_terminal running = false
is_terminal _ = true

-- _TEMPORAL_STATUS_MAP.get(status_value, RUNNING)
unfoldable pub map_temporal_status : ℕ → AncoraRunStatus
map_temporal_status value =
    if value == 2
    then completed
    else if value == 3
    then failed
    else if value == 4
    then cancelled
    else if value == 5
    then terminated
    else if value == 7
    then timed_out
    else running

-- a row of workflow_version; `D` is the dag_spec
pub record WorkflowVersion (D : Type 0) : Type 0 where
  pub workflow_def_id : String
  pub version : ℕ
  pub dag_spec : D
  pub code_hash : String
  pub determinism_token : String
  pub task_queue : String

-- the two tables: definitions by project and name, and versions
pub record Catalog (D : Type 0) : Type 0 where
  pub defs : Dict (String × String) String
  pub versions : List (WorkflowVersion D)

-- get_workflow_def, or the added row
abbrev pub def_or : String → Option String → String
def_or new_id none = new_id
def_or new_id (some id) = id

module _ {D : Type 0} where
  later : WorkflowVersion D → Option (WorkflowVersion D) → WorkflowVersion D
  later v none = v
  later v (some w) = if ltb v.version w.version then w else v

  -- get_latest_version
  unfoldable pub get_latest_version : String → List (WorkflowVersion D) → Option (WorkflowVersion D)
  unfolding later
  get_latest_version def_id [] = none
  get_latest_version def_id (v ∷ versions) =
      let rest = get_latest_version def_id versions in
      if v.workflow_def_id == def_id then some (later v rest) else rest

  next_number : Option (WorkflowVersion D) → ℕ
  next_number none = 1
  next_number (some v) = v.version + 1

  -- the latest version if it has this code, or one more
  settle_version :
      String
      → D
      → String
      → String
      → String
      → Option (WorkflowVersion D)
      → Catalog D
      → WorkflowVersion D × Catalog D
  unfolding next_number
  settle_version def_id dag_spec code_hash token queue none c =
      let v : WorkflowVersion D = record {
        workflow_def_id = def_id;
        version = next_number none;
        dag_spec = dag_spec;
        code_hash = code_hash;
        determinism_token = token;
        task_queue = queue;
      } in
      (v, record c { versions = v ∷ c.versions })
  settle_version def_id dag_spec code_hash token queue (some latest) c =
      let v : WorkflowVersion D = record {
        workflow_def_id = def_id;
        version = next_number (some latest);
        dag_spec = dag_spec;
        code_hash = code_hash;
        determinism_token = token;
        task_queue = queue;
      } in
      if latest.code_hash == code_hash
      then (latest, c)
      else (v, record c { versions = v ∷ c.versions })

  -- register_workflow
  unfoldable pub register_workflow :
      String
      → String
      → String
      → D
      → String
      → String
      → String
      → Catalog D
      → WorkflowVersion D × Catalog D
  unfolding settle_version
  register_workflow new_id project name dag_spec code_hash token queue c =
      let def_id = def_or new_id (lookup (project, name) c.defs) in
      settle_version def_id dag_spec code_hash token queue (get_latest_version def_id c.versions)
        (record c { defs = insert (project, name) def_id c.defs })
