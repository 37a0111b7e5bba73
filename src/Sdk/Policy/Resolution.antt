-- ===== src/Sdk/Policy/Resolution.antt =====
-- When a node's policy resolves, and that it respects the deadline (policy.py).
use ancora.Prelude.{
  ◌≡◌, refl, Bool, true, false, Option, none, some, String, [], ◌∷◌, any, arith, ◌&&◌, ◌==◌,
  string_key, int_key, Result, ok, raised, ◌>>=◌,
}
use ancora.Prelude.Int.{ℤ, pos}
use ancora.Number.{Float, Num, fnum, fmax, at_most}
use ancora.Number.Laws.{fmin_at_most_left, fmin_at_most_right}
use ancora.Common.Resources.{Capability, capability_of, all_capability_queues}
use ancora.Common.Resources.Routing.{queue_for_known}
use ancora.Sdk.Policy.{
  Priority, lane, named, PolicyError, NodePolicy, defaults_of, Overrides, no_overrides,
  capability_over, queue_over, as_priority, lane_or_normal, given, given_or, start_seconds,
  remaining_of, clamped, retry_over, resolve_policy, to_temporal, retry_policy_for,
}

module _ ⦃f : Float⦄ where
  -- the texts that the two enumerations read
  abbrev capability_known : Option (Option String) → Bool
  capability_known none = true
  capability_known (some none) = false
  capability_known (some (some text)) = any (λ t. t == text) ("cpu" ∷ "gpu" ∷ "io" ∷ [])

  abbrev priority_known : Option Priority → Bool
  priority_known none = true
  priority_known (some (lane n)) = true
  priority_known (some (named name)) = any (λ t. t == name) ("high" ∷ "normal" ∷ "bulk" ∷ [])

  abbrev succeeds {ℓ κ} : {E : Type ℓ} {A : Type κ} → Result E A → Bool
  succeeds (ok _) = true
  succeeds (raised _) = false

  text_sym : (s t : String) → (s == t) ≡ (t == s)
  text_sym s t = ground (arith, string_key.agree_iff s t, string_key.agree_iff t s)

  capability_succeeds :
      (base : Capability) (o : Option (Option String))
      → succeeds (capability_over base o) ≡ capability_known o
  unfolding capability_over capability_of
  capability_succeeds base none = refl
  capability_succeeds base (some none) = refl
  capability_succeeds base (some (some text)) =
      ground (arith, text_sym "cpu" text, text_sym "gpu" text, text_sym "io" text)

  priority_succeeds : (o : Option Priority) → succeeds (as_priority o) ≡ priority_known o
  unfolding as_priority
  priority_succeeds none = refl
  priority_succeeds (some (lane n)) = refl
  priority_succeeds (some (named name)) =
      ground (arith, text_sym "high" name, text_sym "normal" name, text_sym "bulk" name)

  chain_succeeds :
      {A : Type 0} (make : Capability → Option ℤ → A) (c : Result PolicyError Capability)
      (p : Result PolicyError (Option ℤ))
      → succeeds (c >>= (λ x. p >>= (λ y. ok (make x y)))) ≡ (succeeds c && succeeds p)
  chain_succeeds make (ok c) (ok p) = refl
  chain_succeeds make (ok c) (raised e) = refl
  chain_succeeds make (raised e) p = refl

  chain_value :
      {A : Type 0} (make : Capability → Option ℤ → A) (c : Result PolicyError Capability)
      (p : Result PolicyError (Option ℤ)) {a : A}
      → (c >>= (λ x. p >>= (λ y. ok (make x y)))) ≡ ok a
      → (x : Capability) × (y : Option ℤ) × (c ≡ ok x) × (p ≡ ok y) × (make x y ≡ a)
  chain_value make (ok c) (ok p) h = (c, p, refl, refl, cc)
  chain_value make (ok c) (raised e) h = cc
  chain_value make (raised e) p h = cc

  -- the policy that a capability and a lane make
  unfoldable policy_of : String → Overrides → Option Num → Capability → Option ℤ → NodePolicy
  policy_of type_name o deadline c p = record {
    task_queue = queue_over c o.task_queue;
    priority = lane_or_normal p;
    start_to_close =
        clamped (start_seconds (defaults_of type_name).start_to_close_seconds o.timeout_seconds)
          (remaining_of deadline);
    retry = retry_over (defaults_of type_name).retry o;
    schedule_to_close = remaining_of deadline;
    heartbeat =
        given (given_or (given o.heartbeat_seconds) (defaults_of type_name).heartbeat_seconds);
  }

  -- A policy resolves exactly if the overrides name a known capability and a known priority, or
  -- none: whatever the node's type and the deadline. Without overrides every node type, known or
  -- not, resolves to a queue that serves a capability, the normal lane and its class's retry.
  resolve_total :
      (type_name : String) (o : Overrides) (deadline : Option Num)
      → (succeeds (resolve_policy type_name o deadline)
          ≡ (capability_known o.capability && priority_known o.priority))
        × ((p : NodePolicy) × (resolve_policy type_name no_overrides deadline ≡ ok p)
            × (any (λ q. q == p.task_queue) all_capability_queues ≡ true)
            × (p.priority ≡ pos 3)
            × (to_temporal p.retry ≡ retry_policy_for type_name))
  unfolding resolve_policy retry_over retry_policy_for policy_of capability_over as_priority
  resolve_total type_name o deadline =
      let c = capability_over (defaults_of type_name).capability o.capability in
      (
        rw⁻¹
            (
              capability_succeeds (defaults_of type_name).capability o.capability,
              priority_succeeds o.priority,
            )
            (chain_succeeds (policy_of type_name o deadline) c (as_priority o.priority)),
        (
          policy_of type_name no_overrides deadline (defaults_of type_name).capability none,
          refl,
          queue_for_known (defaults_of type_name).capability,
          refl,
          refl,
        ),
      )

  -- A policy that resolves under a deadline lets the whole call last until the deadline and no
  -- longer, where a deadline that is past leaves 0 seconds; and one attempt at most as long as is
  -- left, or 1 second where less is left, and never longer than without the deadline. The
  -- lane, the queue, the retries and the heartbeat are those of the policy that resolves without
  -- the deadline, which has no limit on the whole call.
  pub deadline_respected :
      (type_name : String) (o : Overrides) (r : Num) (p : NodePolicy)
      → resolve_policy type_name o (some r) ≡ ok p
      → (p.schedule_to_close ≡ some (fmax r (fnum 0)))
        × (at_most p.start_to_close (fmax (fmax r (fnum 0)) (fnum 1)) ≡ true)
        × ((q : NodePolicy) × (resolve_policy type_name o none ≡ ok q)
            × (at_most p.start_to_close q.start_to_close ≡ true)
            × (p.task_queue ≡ q.task_queue)
            × (p.priority ≡ q.priority)
            × (p.retry ≡ q.retry)
            × (p.heartbeat ≡ q.heartbeat)
            × (q.schedule_to_close ≡ none))
  unfolding resolve_policy policy_of
  deadline_respected type_name o r p h =
      let (c, n, known, prioritized, made) =
        chain_value (policy_of type_name o (some r))
          (capability_over (defaults_of type_name).capability o.capability) (as_priority o.priority)
          h in
      let start = start_seconds (defaults_of type_name).start_to_close_seconds o.timeout_seconds in
      let bound = fmax (fmax r (fnum 0)) (fnum 1) in
      rw⁻¹ made (
        refl,
        fmin_at_most_right start bound,
        (
          policy_of type_name o none c n,
          rw (known, prioritized) refl,
          fmin_at_most_left start bound,
          refl,
          refl,
          refl,
          refl,
          refl,
        ),
      )
