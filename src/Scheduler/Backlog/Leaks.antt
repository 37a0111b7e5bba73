-- ===== src/Scheduler/Backlog/Leaks.antt =====
-- A slot whose completion is never reported (backlog.py).
use ancora.Prelude.{
  ◌≡◌, refl, ◌∙◌, subst, Bool, true, false, Option, none, some, String, List, [], ◌∷◌, arith, ◌==◌,
  string_key, if◌then◌else◌, inl, inr, Bool-cases, Option-cases,
}
use ancora.Number.{Float, Num, minus, at_most}
use ancora.Dict.{lookup, IsDict}
use ancora.Dict.Laws.{
  lookup-insert, lookup-erase, lookup-prune, insert-IsDict, erase-IsDict, prune-IsDict,
}
use ancora.Scheduler.Backlog.{
  Entry, InflightTracker, is_expired, sweep, admit, complete, completed_entry, depth, depths,
}
use ancora.Scheduler.Backlog.Accounting.{
  Call, admit_call, complete_call, depth_call, depths_call, step, run,
}

module _ ⦃f : Float⦄ where
  -- no call admits the token's work again or reports it
  abbrev pub Silent : String → List Call → Type 0
  Silent token [] = Unit
  Silent token (admit_call j queue swept_at now ∷ calls) =
      ((j == token) ≡ false) × Silent token calls
  Silent token (complete_call j ∷ calls) = ((j == token) ≡ false) × Silent token calls
  Silent token (depth_call queue now ∷ calls) = Silent token calls
  Silent token (depths_call now ∷ calls) = Silent token calls

  -- whether a call that looks for expired work comes within the time to live; a report does not
  -- look
  abbrev pub looks_in_time : Num → Num → Call → Bool
  looks_in_time ttl admitted_at (admit_call j queue swept_at now) =
      at_most (minus swept_at admitted_at) ttl
  looks_in_time ttl admitted_at (complete_call j) = true
  looks_in_time ttl admitted_at (depth_call queue now) = at_most (minus now admitted_at) ttl
  looks_in_time ttl admitted_at (depths_call now) = at_most (minus now admitted_at) ttl

  abbrev pub all_in_time : Num → Num → List Call → Bool
  all_in_time ttl admitted_at [] = true
  all_in_time ttl admitted_at (c ∷ calls) =
      if looks_in_time ttl admitted_at c then all_in_time ttl admitted_at calls else false

  -- what is left of a slot
  abbrev left_of : Bool → Option Entry → Option Entry
  left_of within none = none
  left_of within (some e) = if within then some e else none

  abbrev kept_by : Num → Call → Option Entry → Option Entry
  kept_by ttl c none = none
  kept_by ttl c (some e) = if looks_in_time ttl e.admitted_at c then some e else none

  sweep_keeps :
      (token : String) (now : Num) (t : InflightTracker) (o : Option Entry)
      → IsDict t.entries
      → lookup token t.entries ≡ o
      → (lookup token (sweep now t).entries ≡ kept_by t.ttl_seconds (depths_call now) o)
        × IsDict (sweep now t).entries
        × ((sweep now t).ttl_seconds ≡ t.ttl_seconds)
  unfolding sweep
  sweep_keeps token now t none unique found = (
    lookup-prune token (is_expired t.ttl_seconds now) t.entries unique ∙ rw found refl,
    prune-IsDict (is_expired t.ttl_seconds now) t.entries unique,
    refl,
  )
  sweep_keeps token now t (some e) unique found = (
    lookup-prune token (is_expired t.ttl_seconds now) t.entries unique ∙ rw found (ground arith),
    prune-IsDict (is_expired t.ttl_seconds now) t.entries unique,
    refl,
  )

  complete_keeps :
      (token j : String) (t : InflightTracker) (o : Option Entry)
      → IsDict t.entries
      → lookup token t.entries ≡ o
      → (j == token) ≡ false
      → (lookup token (complete j t).1.entries ≡ o)
        × IsDict (complete j t).1.entries
        × ((complete j t).1.ttl_seconds ≡ t.ttl_seconds)
  unfolding complete
  complete_keeps token j t o unique found other = elim (Option-cases (lookup j t.entries)) [
    | inl missing ↦ rw (missing, completed_entry) (found, unique, refl)
    | inr (e, there) ↦
        rw (there, completed_entry)
          (
            lookup-erase token j t.entries unique ∙ rw other found,
            erase-IsDict j t.entries unique,
            refl,
          )
  ]

  unswept : (j : String) (ttl : Num) (o : Option Entry) → o ≡ kept_by ttl (complete_call j) o
  unswept j ttl none = refl
  unswept j ttl (some e) = refl

  -- one call that is silent on the token
  step_keeps :
      (token : String) (c : Call) (calls : List Call) (t : InflightTracker) (o : Option Entry)
      → IsDict t.entries
      → lookup token t.entries ≡ o
      → Silent token (c ∷ calls)
      → (lookup token (step c t).entries ≡ kept_by t.ttl_seconds c o)
        × IsDict (step c t).entries
        × ((step c t).ttl_seconds ≡ t.ttl_seconds)
        × Silent token calls
  unfolding step depth depths
  step_keeps token (depth_call queue now) calls t none unique found quiet =
      let (a, b, d) = sweep_keeps token now t none unique found in (a, b, d, quiet)
  step_keeps token (depth_call queue now) calls t (some e) unique found quiet =
      let (a, b, d) = sweep_keeps token now t (some e) unique found in (a, b, d, quiet)
  step_keeps token (depths_call now) calls t o unique found quiet =
      let (a, b, d) = sweep_keeps token now t o unique found in (a, b, d, quiet)
  step_keeps token (admit_call j queue swept_at now) calls t o unique found (other, quiet) =
      let (kept, unique', same_ttl) = sweep_keeps token swept_at t o unique found in
      let entry : Entry = record { queue = queue; admitted_at = now } in
      unfold admit in
      (
        lookup-insert token j entry (sweep swept_at t).entries ∙ rw other (kept ∙ swept o),
        insert-IsDict j entry (sweep swept_at t).entries unique',
        same_ttl,
        quiet,
      )
    where
      swept :
          (p : Option Entry)
          → kept_by t.ttl_seconds (depths_call swept_at) p
            ≡ kept_by t.ttl_seconds (admit_call j queue swept_at now) p
      swept none = refl
      swept (some e) = refl
  step_keeps token (complete_call j) calls t o unique found (other, quiet) =
      let (kept, unique', same_ttl) = complete_keeps token j t o unique found other in
      (kept ∙ unswept j t.ttl_seconds o, unique', same_ttl, quiet)

  gone_stays :
      (token : String) (calls : List Call) (t : InflightTracker)
      → IsDict t.entries
      → lookup token t.entries ≡ none
      → Silent token calls
      → lookup token (run calls t).entries ≡ none
  unfolding run
  gone_stays token [] t unique gone quiet = gone
  gone_stays token (c ∷ calls) t unique gone quiet =
      let (gone', unique', _, quiet') = step_keeps token c calls t none unique gone quiet in
      gone_stays token calls (step c t) unique' gone' quiet'

  -- Work that holds a slot and is neither reported nor admitted again holds that slot through any
  -- calls on the tracker, whatever other work they admit and report, exactly as long as each of
  -- them that looks for expired work comes at an age within the time to live: the first that comes
  -- later frees the slot, and it is not taken again.
  pub leak_recovery :
      (token : String) (calls : List Call) (t : InflightTracker) (e : Entry)
      → IsDict t.entries
      → lookup token t.entries ≡ some e
      → Silent token calls
      → lookup token (run calls t).entries
        ≡ (if all_in_time t.ttl_seconds e.admitted_at calls then some e else none)
  unfolding run
  leak_recovery token [] t e unique found quiet = found
  leak_recovery token (c ∷ calls) t e unique found quiet =
      let (kept, unique', same_ttl, quiet') =
        step_keeps token c calls t (some e) unique found quiet in
      elim (Bool-cases (looks_in_time t.ttl_seconds e.admitted_at c)) [
        | inl young ↦ rw young (
            subst
              (λ ttl.
                lookup token (run calls (step c t)).entries
                ≡ (if all_in_time ttl e.admitted_at calls then some e else none))
              same_ttl
              (leak_recovery token calls (step c t) e unique' (kept ∙ rw young refl) quiet'))
        | inr old ↦ rw old (gone_stays token calls (step c t) unique' (kept ∙ rw old refl) quiet')
      ]
