-- ===== src/Scheduler/Client/Outage.antt =====
-- What workers get while the scheduler cannot decide (scheduler_client.py, api.py, engine.py).
use ancora.Prelude.{
  ◌≡◌, refl, Bool, true, false, Option, none, some, String, List, [], ◌∷◌, inl, inr, Bool-cases,
}
use ancora.Number.{Float, Num}
use ancora.Gateway.History.{Json, null, boolean, integer, float, text as json_text, array, object}
use ancora.Scheduler.ConfigStore.{Source, text, yaml_error, unmoved}
use ancora.Scheduler.Admission.{AdmissionRequest, AdmissionEngine, Surroundings}
use ancora.Scheduler.Engine.Reloads.{AllRead, malformed_admission}
use ancora.Scheduler.Client.{
  Texts, admit_valid, admit_route, Verdict, admit_open, read_body, client_admit,
}

module _ ⦃f : Float⦄ where
  -- a worker's calls in a row: the verdicts, the engine and the log flag
  unfoldable pub ask_all :
      Texts
      → List (AdmissionRequest × Surroundings)
      → AdmissionEngine
      → Bool
      → List (Option Verdict) × AdmissionEngine
  ask_all t [] e logged = ([], e)
  ask_all t ((req, env) ∷ calls) e logged =
      let (reply, e') = admit_route t req env e in
      let (answer, logged') = client_admit t true (some reply) logged in
      let (answers, e'') = ask_all t calls e' logged' in (answer ∷ answers, e'')

  abbrev pub AllOpen : List (Option Verdict) → Type 0
  AllOpen [] = Unit
  AllOpen (answer ∷ answers) = (answer ≡ some admit_open) × AllOpen answers

  module _ {D : Type 0} where
    -- While the scheduler's policy file is malformed YAML, and its time is not the one that the
    -- store knows, every request of any sequence is admitted without control, and no governor's
    -- state moves: no rate limit, watermark, fair share or budget holds in that time.
    pub malformed_policy_admits_all :
        (t : Texts) (source : Source D) (raw path : String) (mtime : Num) (e : AdmissionEngine)
        (calls : List (AdmissionRequest × Surroundings)) (logged : Bool)
        → source.read ≡ text raw
        → source.parse raw ≡ yaml_error
        → e.store.path ≡ some path
        → unmoved mtime e.store.mtime ≡ false
        → AllRead source mtime calls
        → let (answers, e') = ask_all t calls e logged in AllOpen answers × (e' ≡ e)
    unfolding ask_all admit_route client_admit
    malformed_policy_admits_all t source raw path mtime e [] logged read parse set moved all =
        (tt, refl)
    malformed_policy_admits_all t source raw path mtime e ((req, env) ∷ calls) logged read parse set
          moved (at, loaded, all) =
        let raises =
          malformed_admission source raw path mtime e req env read parse set moved at loaded in
        let (rest, same) =
          malformed_policy_admits_all t source raw path mtime e calls true read parse set moved
            all in
        elim (Bool-cases (admit_valid req)) [
          | inl valid ↦ rw (valid, raises) ((refl, rest), same)
          | inr invalid ↦ rw invalid ((refl, rest), same)
        ]

  abbrev is_object : Json Num → Bool
  is_object (object _) = true
  is_object _ = false

  garbage_raises : (t : Texts) (b : Json Num) → is_object b ≡ false → read_body t b ≡ none
  unfolding read_body
  garbage_raises t null h = refl
  garbage_raises t (boolean _) h = refl
  garbage_raises t (integer _) h = refl
  garbage_raises t (float _) h = refl
  garbage_raises t (json_text _) h = refl
  garbage_raises t (array _) h = refl
  garbage_raises t (object _) h = cc
