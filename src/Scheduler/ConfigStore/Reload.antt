-- ===== src/Scheduler/ConfigStore/Reload.antt =====
-- What a reload changes, and that a bad file never replaces a good policy (config.py).
use ancora.Prelude.{
  ◌≡◌, refl, Bool, true, false, Option, none, some, String, arith, Result, ok, raised, ◌&&◌, not,
  ◌⊎◌, inl, inr, Bool-cases, Option-cases,
}
use ancora.Number.{Float, Num}
use ancora.Number.Laws.{at_most_refl}
use ancora.Scheduler.Config.{SchedulerConfig, config_valid}
use ancora.Scheduler.ConfigStore.{
  Source, ReadText, text, os_error, decode_error, Parsed, nothing, mapping, other_value, json_error,
  yaml_error, LoadError, yaml_exception, ConfigStore, unmoved, model_validate, parse_document,
  load_text, load_config, reload_at, swap_in, reload_if_changed,
}

module _ ⦃f : Float⦄ where
  -- The policy is swapped for the loaded one and the call returns True, or it is kept.
  abbrev Outcome :
      Result LoadError SchedulerConfig → ConfigStore → Result LoadError Bool × ConfigStore → Type 0
  Outcome loaded store (result, store') =
      ((result ≡ ok true) × (loaded ≡ ok store'.config)) ⊎ (store'.config ≡ store.config)

  swap_in_outcome :
      (mtime : Num) (loaded : Result LoadError SchedulerConfig) (store : ConfigStore)
      → Outcome loaded store (swap_in mtime loaded store)
  unfolding swap_in
  swap_in_outcome mtime (ok c) store = inl (refl, refl)
  swap_in_outcome mtime (raised e) store = inr (ground arith)

  reload_at_outcome :
      (force : Bool) (stat : Option Num) (loaded : Result LoadError SchedulerConfig)
      (store : ConfigStore)
      → Outcome loaded store (reload_at force stat loaded store)
  unfolding reload_at
  reload_at_outcome force none loaded store = inr refl
  reload_at_outcome force (some mtime) loaded store =
      elim (Bool-cases (not force && unmoved mtime store.mtime)) [
        | inl same_time ↦ inr (rw same_time)
        | inr moved ↦ rw moved (swap_in_outcome mtime loaded store)
      ]

  reload_outcome :
      (force : Bool) (stat : Option Num) (loaded : Result LoadError SchedulerConfig)
      (store : ConfigStore)
      → Outcome loaded store (reload_if_changed force stat loaded store)
  unfolding reload_if_changed
  reload_outcome force stat loaded store = elim (Option-cases store.path) [
    | inl none_set ↦ rw (none_set, reload_if_changed) (inr refl)
    | inr (p, set) ↦ rw (set, reload_if_changed) (reload_at_outcome force stat loaded store)
  ]

  model_validate-valid :
      (o : Option SchedulerConfig) {c : SchedulerConfig}
      → model_validate o ≡ ok c
      → config_valid c ≡ true
  unfolding model_validate
  model_validate-valid none h = cc
  model_validate-valid (some d) h = ground arith

  module _ {D : Type 0} where
    load_text-valid :
        (source : Source D) (r : ReadText) {c : SchedulerConfig}
        → load_text source r ≡ ok c
        → config_valid c ≡ true
    unfolding load_text
    load_text-valid source os_error h = cc
    load_text-valid source decode_error h = cc
    load_text-valid source (text raw) {c} h = parsed (source.parse raw) h
      where
        parsed :
            (p : Parsed D)
            → (elim (parse_document source p) as (λ _. Result LoadError SchedulerConfig) [
              | ok d ↦ model_validate (source.fields d)
              | raised e ↦ raised e
            ])
              ≡ ok c
            → config_valid c ≡ true
        parsed nothing e = model_validate-valid (source.fields source.empty) e
        parsed (mapping d) e = model_validate-valid (source.fields d) e
        parsed other_value e = cc
        parsed json_error e = cc
        parsed yaml_error e = cc

    yaml_loads :
        (source : Source D) (raw : String)
        → source.read ≡ text raw
        → source.parse raw ≡ yaml_error
        → load_config source ≡ raised yaml_exception
    unfolding load_config parse_document
    yaml_loads source raw r p = rw (r, load_text) (rw p)

    -- Whatever the file holds, and whether or not the reload raises, a store that serves a valid
    -- policy serves one afterwards; it is the old policy unless the reload returns True, and then
    -- it is the one that the file holds.
    pub reload_serves_valid :
        (source : Source D) (force : Bool) (stat : Option Num) (store : ConfigStore)
        → config_valid store.config ≡ true
        → let (result, store') = reload_if_changed force stat (load_config source) store in
          (config_valid store'.config ≡ true)
          × (((result ≡ ok true) × (load_config source ≡ ok store'.config))
              ⊎ (store'.config ≡ store.config))
    reload_serves_valid source force stat store h =
        let outcome = reload_outcome force stat (load_config source) store in
        let valid : config_valid (reload_if_changed force stat (load_config source) store).1.config
            ≡ true =
          elim outcome [
            | inl (_, loaded) ↦ unfold load_config in load_text-valid source source.read loaded
            | inr kept ↦ rw kept h
          ] in
        (valid, outcome)

    -- Where the file's text is malformed YAML and its time differs from the one that the store
    -- knows, the reload raises the parser's exception and leaves the store as it was.
    pub yaml_error_raises :
        (source : Source D) (raw path : String) (mtime : Num) (store : ConfigStore)
        → source.read ≡ text raw
        → source.parse raw ≡ yaml_error
        → store.path ≡ some path
        → unmoved mtime store.mtime ≡ false
        → reload_if_changed false (some mtime) (load_config source) store
          ≡ (raised yaml_exception, store)
    unfolding reload_if_changed
    yaml_error_raises source raw path mtime store r p set moved =
        rw (set, moved, yaml_loads source raw r p) refl

  -- A reload that found the file and did not raise is settled: until the file moves again the
  -- next one reads nothing, returns False and changes nothing, also after a file that was
  -- rejected.
  reload_settles :
      (force : Bool) (mtime : Num) (loaded again : Result LoadError SchedulerConfig)
      (store : ConfigStore) {swapped : Bool}
      → (reload_if_changed force (some mtime) loaded store).0 ≡ ok swapped
      → let store' = (reload_if_changed force (some mtime) loaded store).1 in
        reload_if_changed false (some mtime) again store' ≡ (ok false, store')
  unfolding reload_if_changed
  reload_settles force mtime (ok c) again store h = ground (arith, at_most_refl mtime)
  reload_settles force mtime (raised e) again store h = ground (arith, at_most_refl mtime)
