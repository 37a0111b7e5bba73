-- ===== src/Scheduler/Engine/Reloads.antt =====
-- Admissions while the policy file is malformed (engine.py, config.py).
use ancora.Prelude.{◌≡◌, refl, false, some, String, List, [], ◌∷◌, Result, raised}
use ancora.Number.{Float, Num}
use ancora.Scheduler.ConfigStore.{Source, text, yaml_error, yaml_exception, unmoved, load_config}
use ancora.Scheduler.ConfigStore.Reload.{yaml_error_raises}
use ancora.Scheduler.Admission.{
  AdmissionRequest, AdmissionDecision, AdmissionEngine, Surroundings, EngineError, load_error,
}
use ancora.Scheduler.Engine.{after_reload, admit_request}

module _ ⦃f : Float⦄ where
  -- admissions in a row: what each returns or raises, and the last state
  unfoldable admit_requests :
      List (AdmissionRequest × Surroundings)
      → AdmissionEngine
      → List (Result EngineError AdmissionDecision) × AdmissionEngine
  admit_requests [] e = ([], e)
  admit_requests ((req, env) ∷ calls) e =
      let (answer, e') = admit_request req env e in
      let (answers, e'') = admit_requests calls e' in (answer ∷ answers, e'')

  abbrev AllRaise : List (Result EngineError AdmissionDecision) → Type 0
  AllRaise [] = Unit
  AllRaise (answer ∷ answers) = (answer ≡ raised (load_error yaml_exception)) × AllRaise answers

  module _ {D : Type 0} where
    -- every call finds the file with this time and this content
    abbrev pub AllRead : Source D → Num → List (AdmissionRequest × Surroundings) → Type 0
    AllRead source mtime [] = Unit
    AllRead source mtime ((req, env) ∷ calls) =
        (env.stat ≡ some mtime) × (env.loaded ≡ load_config source) × AllRead source mtime calls

    pub malformed_admission :
        (source : Source D) (raw path : String) (mtime : Num) (e : AdmissionEngine)
        (req : AdmissionRequest) (env : Surroundings)
        → source.read ≡ text raw
        → source.parse raw ≡ yaml_error
        → e.store.path ≡ some path
        → unmoved mtime e.store.mtime ≡ false
        → env.stat ≡ some mtime
        → env.loaded ≡ load_config source
        → admit_request req env e ≡ (raised (load_error yaml_exception), e)
    unfolding admit_request after_reload
    malformed_admission source raw path mtime e req env read parse set moved at loaded =
        rw (at, loaded, yaml_error_raises source raw path mtime e.store read parse set moved) refl

    -- While the file's text is malformed YAML and its time differs from the one that the store
    -- knows, every admission of any sequence raises the parser's exception, and the engine stays
    -- as it was, with the policy that it served before.
    malformed_file_blocks :
        (source : Source D) (raw path : String) (mtime : Num) (e : AdmissionEngine)
        (calls : List (AdmissionRequest × Surroundings))
        → source.read ≡ text raw
        → source.parse raw ≡ yaml_error
        → e.store.path ≡ some path
        → unmoved mtime e.store.mtime ≡ false
        → AllRead source mtime calls
        → let (answers, e') = admit_requests calls e in AllRaise answers × (e' ≡ e)
    unfolding admit_requests
    malformed_file_blocks source raw path mtime e [] read parse set moved all = (tt, refl)
    malformed_file_blocks source raw path mtime e ((req, env) ∷ calls) read parse set moved
          (at, loaded, all) =
        let raises =
          malformed_admission source raw path mtime e req env read parse set moved at loaded in
        let (rest, same) =
          malformed_file_blocks source raw path mtime e calls read parse set moved all in
        rw raises ((refl, rest), same)
