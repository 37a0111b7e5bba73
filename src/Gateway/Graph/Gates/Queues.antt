-- ===== src/Gateway/Graph/Gates/Queues.antt =====
-- Queues of ids, and the writes to the vertices of a queue (graph.py: _gate_vertices).
use ancora.Prelude.{
  ℕ, ◌≡◌, refl, subst, ◌∙◌, Bool, true, false, Option, none, some, String, List, [], ◌∷◌, ltb, any,
  ◌==◌, ==_refl, string_key, nat_key, arith, if◌then◌else◌, inl, inr, Bool-cases,
}
use ancora.Number.{Float, Num}
use ancora.Dict.{Dict, lookup, lookup_or, IsDict}
use ancora.Gateway.History.{Wire}
use ancora.Gateway.Graph.{Vertex}
use ancora.Gateway.Graph.Gates.{past_id, take_before, update, update_all, leave_open}

abbrev pub has : ℕ → List ℕ → Bool
has s queue = any (λ t. t == s) queue

-- No id stands twice in a queue.
abbrev pub NoDup : List ℕ → Type 0
NoDup [] = Unit
NoDup (s ∷ queue) = (has s queue ≡ false) × NoDup queue

abbrev pub map_option {ℓ κ} : {A : Type ℓ} {B : Type κ} → (A → B) → Option A → Option B
map_option g none = none
map_option g (some a) = some (g a)

abbrev pub MatchIn : List ℕ → Option (ℕ × List ℕ) → Type 0
MatchIn queue none = Unit
MatchIn queue (some (found, rest)) =
    (has found queue ≡ true) × ((s : ℕ) → has s rest ≡ true → has s queue ≡ true)

past_id-MatchIn :
    (sid : ℕ) (queue : List ℕ) (found : Option (ℕ × List ℕ))
    → MatchIn queue found
    → MatchIn (sid ∷ queue) (past_id sid found)
unfolding past_id
past_id-MatchIn sid queue none h = tt
past_id-MatchIn sid queue (some (found, rest)) h =
    (ground (arith, h.0), λ s k. ground (arith, h.1 s))

-- A match is an id of the queue, and what is left of the queue was in it.
pub take_before-MatchIn : (n : ℕ) (queue : List ℕ) → MatchIn queue (take_before n queue)
unfolding take_before
take_before-MatchIn n [] = tt
take_before-MatchIn n (sid ∷ queue) = elim (Bool-cases (ltb sid n)) [
  | inl lt ↦ rw lt (ground (arith, ==_refl sid), λ s k. ground (arith))
  | inr ge ↦ rw ge (past_id-MatchIn sid queue (take_before n queue) (take_before-MatchIn n queue))
]

module _ ⦃f : Float⦄ ⦃w : Wire Num⦄ where
  pub lookup-update :
      (s i : ℕ) (change : Vertex → Vertex) (vertices : Dict ℕ Vertex)
      → lookup s (update i change vertices)
        ≡ (if i == s then map_option change (lookup s vertices) else lookup s vertices)
  unfolding lookup update
  lookup-update s i change [] = ground arith
  lookup-update s i change ((j, v) ∷ vertices) = ground (
    arith,
    lookup-update s i change vertices,
    nat_key.agree_iff j i,
    nat_key.agree_iff j s,
    nat_key.agree_iff i s,
  )

  lookup-update_all_other :
      (s : ℕ) (change : Vertex → Vertex) (queue : List ℕ) (vertices : Dict ℕ Vertex)
      → has s queue ≡ false
      → lookup s (update_all queue change vertices) ≡ lookup s vertices
  unfolding update_all
  lookup-update_all_other s change [] vertices h = refl
  lookup-update_all_other s change (i ∷ queue) vertices h = ground (
    arith,
    lookup-update_all_other s change queue (update i change vertices),
    lookup-update s i change vertices,
  )

  lookup-update_all :
      (s : ℕ) (change : Vertex → Vertex) (queue : List ℕ) (vertices : Dict ℕ Vertex)
      → NoDup queue
      → lookup s (update_all queue change vertices)
        ≡ (if has s queue then map_option change (lookup s vertices) else lookup s vertices)
  unfolding update_all
  lookup-update_all s change [] vertices h = refl
  lookup-update_all s change (i ∷ queue) vertices h = elim (Bool-cases (i == s)) [
    | inl this ↦
        let e : i ≡ s = (nat_key.agree_iff i s).0 this in
        let gone : has s queue ≡ false = ground (arith, h.0, e) in
        rw this (
          lookup-update_all_other s change queue (update i change vertices) gone
          ∙ (ground (arith, lookup-update s i change vertices)))
    | inr other ↦ ground (
      arith,
      lookup-update_all s change queue (update i change vertices) h.1,
      lookup-update s i change vertices,
    )
  ]

  -- the ids of a dict of queues, under each key
  abbrev pub OnlyUnder : ℕ → String → Dict String (List ℕ) → Type 0
  OnlyUnder s gate [] = Unit
  OnlyUnder s gate ((k, queue) ∷ unmatched) =
      (has s queue ≡ true → k ≡ gate) × OnlyUnder s gate unmatched

  leave_open_other :
      (s : ℕ) (gate : String) (change : Vertex → Vertex) (unmatched : Dict String (List ℕ))
      (vertices : Dict ℕ Vertex)
      → OnlyUnder s gate unmatched
      → lookup gate unmatched ≡ none
      → lookup s (leave_open change unmatched vertices) ≡ lookup s vertices
  unfolding leave_open lookup
  leave_open_other s gate change [] vertices h k = refl
  leave_open_other s gate change ((j, queue) ∷ unmatched) vertices h k =
      elim (Bool-cases (j == gate)) [
        | inl this ↦ absurd (ground (arith, k))
        | inr other ↦
            let missing : lookup gate unmatched ≡ none = ground (arith, k) in
            let gone : has s queue ≡ false = ground (arith, h.0, string_key.agree_iff j gate) in
            leave_open_other s gate change unmatched (update_all queue change vertices) h.1 missing
            ∙ lookup-update_all_other s change queue vertices gone
      ]

  lookup_or-cons :
      (j gate : String) (queue : List ℕ) (unmatched : Dict String (List ℕ))
      → lookup_or [] gate ((j, queue) ∷ unmatched)
        ≡ (if j == gate then queue else lookup_or [] gate unmatched)
  unfolding lookup_or lookup
  lookup_or-cons j gate queue unmatched = ground arith

  -- A gate that is left open is changed once, where its id stands in its own gate's queue only.
  pub lookup-leave_open :
      (s : ℕ) (gate : String) (change : Vertex → Vertex) (unmatched : Dict String (List ℕ))
      (vertices : Dict ℕ Vertex)
      → IsDict unmatched
      → OnlyUnder s gate unmatched
      → NoDup (lookup_or [] gate unmatched)
      → lookup s (leave_open change unmatched vertices) ≡ (
          if has s (lookup_or [] gate unmatched)
          then map_option change (lookup s vertices)
          else lookup s vertices)
  unfolding leave_open
  lookup-leave_open s gate change [] vertices d h n = unfold lookup_or lookup in refl
  lookup-leave_open s gate change ((j, queue) ∷ unmatched) vertices d h n =
      let cons = lookup_or-cons j gate queue unmatched in
      elim (Bool-cases (j == gate)) [
        | inl this ↦
            let e : j ≡ gate = (string_key.agree_iff j gate).0 this in
            let missing : lookup gate unmatched ≡ none = rw e at d.0 in
            let here : lookup_or [] gate ((j, queue) ∷ unmatched) ≡ queue = ground (arith, cons) in
            rw here (
              leave_open_other s gate change unmatched (update_all queue change vertices) h.1
                missing
              ∙ lookup-update_all s change queue vertices (subst NoDup here n))
        | inr other ↦
            let gone : has s queue ≡ false = ground (arith, h.0, string_key.agree_iff j gate) in
            let later : lookup_or [] gate ((j, queue) ∷ unmatched) ≡ lookup_or [] gate unmatched =
              ground (arith, cons) in
            rw later (
              lookup-leave_open s gate change unmatched (update_all queue change vertices) d.1 h.1
                (subst NoDup later n)
              ∙ (rw (lookup-update_all_other s change queue vertices gone) refl))
      ]
