-- ===== src/Common/Catalog/Versions.antt =====
-- Version numbers grow, and registering unchanged code adds none (catalog.py).
use ancora.Prelude.{
  ℕ, ◌+◌, ◌≤◌, ◌≡◌, refl, ap, ◌∙◌, Option, none, some, String, List, [], ◌∷◌, arith, ◌==◌, ==_refl,
  string_key, pair_key, if◌then◌else◌, inl, inr, Bool-cases, ◌⊎◌,
}
use ancora.Dict.{lookup, insert}
use ancora.Dict.Laws.{lookup-insert_self}
use ancora.Common.Catalog.{
  WorkflowVersion, Catalog, later, get_latest_version, def_or, next_number, settle_version,
  register_workflow,
}

module _ {D : Type 0} where
  -- every version of the definition is at most this one
  abbrev AtMost : String → ℕ → List (WorkflowVersion D) → Type 0
  AtMost def_id n [] = Unit
  AtMost def_id n (v ∷ versions) =
      ((v.workflow_def_id ≡ def_id) → v.version ≤ n) × AtMost def_id n versions

  AtMost-mono :
      (def_id : String) (m n : ℕ) (versions : List (WorkflowVersion D))
      → m ≤ n
      → AtMost def_id m versions
      → AtMost def_id n versions
  AtMost-mono def_id m n [] le h = tt
  AtMost-mono def_id m n (v ∷ versions) le (here, rest) =
      (λ e. omega (arith, here e, le), AtMost-mono def_id m n versions le rest)

  abbrev number_of : Option (WorkflowVersion D) → ℕ
  number_of none = 0
  number_of (some v) = v.version

  latest_bounds :
      (def_id : String) (versions : List (WorkflowVersion D))
      → AtMost def_id (number_of (get_latest_version def_id versions)) versions
  unfolding get_latest_version later
  latest_bounds def_id [] = tt
  latest_bounds def_id (v ∷ versions) =
      let rest = latest_bounds def_id versions in
      let latest = get_latest_version def_id versions in
      let best = number_of (get_latest_version def_id (v ∷ versions)) in
      let grows : number_of latest ≤ best = grow v latest in
      (λ e. own v latest e, AtMost-mono def_id (number_of latest) best versions grows rest)
    where
      grow :
          (v : WorkflowVersion D) (o : Option (WorkflowVersion D))
          → number_of o ≤ number_of (if v.workflow_def_id == def_id then some (later v o) else o)
      grow v none = ground arith
      grow v (some w) = ground arith

      own :
          (v : WorkflowVersion D) (o : Option (WorkflowVersion D))
          → v.workflow_def_id ≡ def_id
          → v.version ≤ number_of (if v.workflow_def_id == def_id then some (later v o) else o)
      own v none e = ground (arith, string_key.agree_iff v.workflow_def_id def_id)
      own v (some w) e = ground (arith, string_key.agree_iff v.workflow_def_id def_id)

  -- the definition that a registration is for
  abbrev def_of : String → String → String → Catalog D → String
  def_of new_id project name c = def_or new_id (lookup (project, name) c.defs)

  abbrev Registers :
      String
      → String
      → Option (WorkflowVersion D)
      → Catalog D
      → WorkflowVersion D × Catalog D
      → Type 0
  Registers def_id code_hash latest c (v, c') =
      (v.code_hash ≡ code_hash)
      × (get_latest_version def_id c'.versions ≡ some v)
      × (((latest ≡ some v) × (c'.versions ≡ c.versions))
          ⊎ ((v.version ≡ number_of latest + 1) × (c'.versions ≡ v ∷ c.versions)))

  settle-Registers :
      (def_id : String) (dag : D) (code_hash token queue : String) (o : Option (WorkflowVersion D))
      (c : Catalog D)
      → get_latest_version def_id c.versions ≡ o
      → Registers def_id code_hash o c (settle_version def_id dag code_hash token queue o c)
  unfolding settle_version next_number get_latest_version later
  settle-Registers def_id dag code_hash token queue none c latest =
      (refl, rw latest (ground (arith, ==_refl def_id)), inr (refl, refl))
  settle-Registers def_id dag code_hash token queue (some w) c latest =
      elim (Bool-cases (w.code_hash == code_hash)) [
        | inl same ↦
            rw same ((string_key.agree_iff w.code_hash code_hash).0 same, latest, inl (refl, refl))
        | inr changed ↦
            rw changed (refl, rw latest (ground (arith, ==_refl def_id)), inr (refl, refl))
      ]

  -- A registration returns a version with the given code, which is then the latest of its
  -- definition: the latest one as it was, if that has the code, and else one that is added, whose
  -- number is above every number of that definition.
  registered_version :
      (new_id project name : String) (dag : D) (code_hash token queue : String) (c : Catalog D)
      → let (v, c') = register_workflow new_id project name dag code_hash token queue c in
        let def_id = def_of new_id project name c in
        let latest = get_latest_version def_id c.versions in
        (v.code_hash ≡ code_hash)
        × (get_latest_version def_id c'.versions ≡ some v)
        × (((latest ≡ some v) × (c'.versions ≡ c.versions))
            ⊎ ((v.version ≡ number_of latest + 1) × (c'.versions ≡ v ∷ c.versions)))
        × AtMost def_id (number_of latest) c.versions
  unfolding register_workflow
  registered_version new_id project name dag code_hash token queue c =
      let def_id = def_of new_id project name c in
      let (code, newest, how) =
        settle-Registers def_id dag code_hash token queue (get_latest_version def_id c.versions)
          (record c { defs = insert (project, name) def_id c.defs }) refl in
      (code, newest, how, latest_bounds def_id c.versions)

  again :
      (def_id : String) (dag : D) (code_hash token queue : String) (v : WorkflowVersion D)
      (c : Catalog D)
      → v.code_hash ≡ code_hash
      → settle_version def_id dag code_hash token queue (some v) c ≡ (v, c)
  unfolding settle_version
  again def_id dag code_hash token queue v c same =
      rw ((string_key.agree_iff v.code_hash code_hash).1 same)

  register_known :
      (new_id project name : String) (dag : D) (code_hash token queue def_id : String)
      (v : WorkflowVersion D) (c : Catalog D)
      → lookup (project, name) c.defs ≡ some def_id
      → get_latest_version def_id c.versions ≡ some v
      → v.code_hash ≡ code_hash
      → let (v', c') = register_workflow new_id project name dag code_hash token queue c in
        (v' ≡ v) × (c'.versions ≡ c.versions)
  unfolding register_workflow
  register_known new_id project name dag code_hash token queue def_id v c listed newest same =
      rw
        (
          listed,
          newest,
          again def_id dag code_hash token queue v
              (record c { defs = insert (project, name) def_id c.defs }) same,
        )
        (refl, refl)

  settle_defs :
      (def_id : String) (dag : D) (code_hash token queue : String) (o : Option (WorkflowVersion D))
      (c : Catalog D)
      → (settle_version def_id dag code_hash token queue o c).1.defs ≡ c.defs
  unfolding settle_version
  settle_defs def_id dag code_hash token queue none c = refl
  settle_defs def_id dag code_hash token queue (some w) c = ground arith

  -- Registering unchanged code again, whatever the other arguments are, returns the same version
  -- and adds none.
  register_again :
      (new_id new_id' project name : String) (dag dag' : D)
      (code_hash token token' queue queue' : String) (c : Catalog D)
      → let (v, c') = register_workflow new_id project name dag code_hash token queue c in
        let (v', c'') = register_workflow new_id' project name dag' code_hash token' queue' c' in
        (v' ≡ v) × (c''.versions ≡ c'.versions)
  unfolding register_workflow
  register_again new_id new_id' project name dag dag' code_hash token token' queue queue' c =
      let def_id = def_of new_id project name c in
      let (v, c') = register_workflow new_id project name dag code_hash token queue c in
      let (code, newest, _, _) =
        registered_version new_id project name dag code_hash token queue c in
      let listed : lookup (project, name) c'.defs ≡ some def_id =
        ap (lookup (project, name)) (
          settle_defs def_id dag code_hash token queue (get_latest_version def_id c.versions)
            (record c { defs = insert (project, name) def_id c.defs }))
        ∙ lookup-insert_self (project, name) def_id c.defs in
      register_known new_id' project name dag' code_hash token' queue' def_id v c' listed newest
        code
