-- ===== src/Scheduler/ConfigStore.antt =====
-- services/scheduler/ancora_scheduler/config.py: loading a policy file, and the store that swaps
-- it in when the file changes. The text of the file, the JSON and YAML parsers and pydantic's
-- parsing of a mapping are inputs.
pub mod Reload
mod Tests
use ancora.Prelude.{
  Bool, true, false, Option, none, some, String, ◌&&◌, not, Result, ok, raised, if◌then◌else◌,
}
use ancora.Number.{Float, Num, same}
use ancora.Scheduler.Config.{SchedulerConfig, config_valid, default_config}

-- path.read_text: the text, or OSError, or a ValueError of the decoder
pub data ReadText : Type 0 where
  text : String → ReadText
  os_error : ReadText
  decode_error : ReadText

-- What json.loads or yaml.safe_load makes of a text: None, a mapping, another value, or its own
-- error. json.JSONDecodeError is a ValueError; yaml.YAMLError is not.
pub data Parsed (D : Type 0) : Type 0 where
  nothing : Parsed D
  mapping : D → Parsed D
  other_value : Parsed D
  json_error : Parsed D
  yaml_error : Parsed D

-- The exceptions of `load_config`: those that are a ValueError, and those that are not.
pub data LoadError : Type 0 where
  unreadable undecodable not_a_mapping invalid malformed_json : LoadError
  yaml_exception : LoadError

abbrev is_value_error : LoadError → Bool
is_value_error yaml_exception = false
is_value_error _ = true

-- What load_config reads from outside: the file, the parser that the suffix selects, and
-- pydantic's parsing of a mapping (none: a field that is unknown, missing or of a wrong type).
pub record Source ⦃f : Float⦄ (D : Type 0) : Type 1 where
  pub read : ReadText
  pub parse : String → Parsed D
  pub empty : D
  pub fields : D → Option SchedulerConfig

module _ ⦃f : Float⦄ where
  -- SchedulerConfig.model_validate
  unfoldable pub model_validate : Option SchedulerConfig → Result LoadError SchedulerConfig
  model_validate none = raised invalid
  model_validate (some c) = if config_valid c then ok c else raised invalid

module _ ⦃f : Float⦄ {D : Type 0} where
  -- _parse
  unfoldable pub parse_document : Source D → Parsed D → Result LoadError D
  parse_document source nothing = ok source.empty
  parse_document source (mapping d) = ok d
  parse_document source other_value = raised not_a_mapping
  parse_document source json_error = raised malformed_json
  parse_document source yaml_error = raised yaml_exception

  load_text : Source D → ReadText → Result LoadError SchedulerConfig
  unfolding parse_document model_validate
  load_text source os_error = raised unreadable
  load_text source decode_error = raised undecodable
  load_text source (text raw) = elim (parse_document source (source.parse raw)) [
    | ok d ↦ model_validate (source.fields d)
    | raised e ↦ raised e
  ]

  unfoldable pub load_config : Source D → Result LoadError SchedulerConfig
  unfolding load_text
  load_config source = load_text source source.read

module _ ⦃f : Float⦄ where
  pub record ConfigStore : Type 0 where
    pub path : Option String
    pub config : SchedulerConfig
    pub mtime : Option Num
    pub last_error : Option LoadError

  abbrev pub unmoved : Num → Option Num → Bool
  unmoved mtime none = false
  unmoved mtime (some known) = same mtime known

  swap_in :
      Num → Result LoadError SchedulerConfig → ConfigStore → Result LoadError Bool × ConfigStore
  swap_in mtime (ok c) store =
      (ok true, record store { config = c; mtime = some mtime; last_error = none })
  swap_in mtime (raised e) store =
      if is_value_error e
      then (ok false, record store { last_error = some e; mtime = some mtime })
      else (raised e, store)

  reload_at :
      Bool
      → Option Num
      → Result LoadError SchedulerConfig
      → ConfigStore
      → Result LoadError Bool × ConfigStore
  unfolding swap_in
  reload_at force none loaded store = (ok false, store)
  reload_at force (some mtime) loaded store =
      if not force && unmoved mtime store.mtime
      then (ok false, store)
      else swap_in mtime loaded store

  -- ConfigStore.reload_if_changed: `stat` is the file's mtime, none where stat raises OSError, and
  -- `loaded` what load_config would return. The file is read only where the code calls it.
  unfoldable pub reload_if_changed :
      Bool
      → Option Num
      → Result LoadError SchedulerConfig
      → ConfigStore
      → Result LoadError Bool × ConfigStore
  unfolding reload_at
  reload_if_changed force stat loaded store = elim store.path [
    | none ↦ (ok false, store)
    | some _ ↦ reload_at force stat loaded store
  ]

  -- ConfigStore.from_path: the store that the service starts with, or the exception
  unfoldable from_path :
      Option String
      → Bool
      → Option Num
      → Result LoadError SchedulerConfig
      → Result LoadError Bool × ConfigStore
  unfolding reload_if_changed default_config
  from_path path exists stat loaded =
      let store : ConfigStore = record {
        path = path;
        config = default_config;
        mtime = none;
        last_error = none;
      } in
      elim path [
        | none ↦ (ok false, store)
        | some _ ↦ if exists then reload_if_changed true stat loaded store else (ok false, store)
      ]
