-- ===== src/Gateway/Recovery/Liveness.antt =====
-- What the worker registry says of a worker (recovery.py: FleetLiveness).
use Prim.Native.Char.{code}
use ancora.Prelude.{
  ℕ, ◌≡◌, ◌↔◌, refl, sym, ◌∙◌, ap, inl, inr, Bool, true, false, not, ◌&&◌, Option, none, some,
  String, List, [], ◌∷◌, ◌++◌, any, nat_eq, ◌==◌, string_key, decimal, join, arith, if◌then◌else◌,
  Bool-cases,
}
use ancora.Number.{Float, Num, fnum, at_most}
use ancora.Gateway.History.{Wire, Datetime}
use ancora.Gateway.Recovery.{FleetLiveness, Worker}

abbrev pub text_of : Option String → String → String
text_of none other = other
text_of (some t) other = t

-- the text behind the last @, where there is one
unfoldable pub after_at : String → Option String
after_at String.[] = none
after_at (String.◌∷◌ c s) = elim (after_at s) [
  | none ↦ if nat_eq (code c) 64 then some s else none
  | some t ↦ some t
]

-- identity.rsplit("@", 1)[-1]
unfoldable pub host_of : String → String
host_of identity = text_of (after_at identity) identity

abbrev pub no_workers : FleetLiveness
no_workers = record {
  live_identities = [];
  stale_identities = [];
  known_hosts = [];
  live_hosts = [];
  live_queues = [];
}

-- f"{w.pid}@{host}"
unfoldable pub identity_of : ℕ → String → String
identity_of pid host = join (decimal pid ∷ "@" ∷ host ∷ [])

unfoldable pub add_host : String → FleetLiveness → FleetLiveness
add_host host l = if host == "" then l else record l { live_hosts = host ∷ l.live_hosts }

unfoldable pub know_host : String → FleetLiveness → FleetLiveness
know_host host l = if host == "" then l else record l { known_hosts = host ∷ l.known_hosts }

unfoldable pub add_identity : Option ℕ → String → Bool → FleetLiveness → FleetLiveness
add_identity none host fresh l = l
add_identity (some pid) host fresh l =
    if host == ""
    then l
    else if fresh
    then record l { live_identities = identity_of pid host ∷ l.live_identities }
    else record l { stale_identities = identity_of pid host ∷ l.stale_identities }

unfoldable pub add_queues : List String → FleetLiveness → FleetLiveness
add_queues queues l = record l { live_queues = queues ++ l.live_queues }

module _ ⦃f : Float⦄ ⦃w : Wire Num⦄ where
  -- beat is not None and (now - beat).total_seconds() <= LIVENESS_FRESH_SECONDS
  unfoldable pub is_fresh : Datetime → Option Datetime → Bool
  is_fresh now none = false
  is_fresh now (some beat) = at_most (w.elapsed now beat) (fnum 12)

  -- one worker
  unfoldable pub see : Datetime → Worker → FleetLiveness → FleetLiveness
  see now v l =
      let host = text_of v.host "" in
      let known = know_host host l in
      if v.status == "live"
      then add_queues v.task_queues
          (add_identity v.pid host (is_fresh now v.last_heartbeat_at) (add_host host known))
      else known

  -- FleetLiveness.from_workers
  unfoldable pub from_workers : Datetime → List Worker → FleetLiveness → FleetLiveness
  from_workers now [] l = l
  from_workers now (v ∷ workers) l = from_workers now workers (see now v l)

abbrev member : String → List String → Bool
member t set = any (λ s. s == t) set

-- FleetLiveness.state_of, of a text that is not empty
unfoldable pub known_state : FleetLiveness → String → String
known_state l identity =
    if member identity l.live_identities
    then "live"
    else if member identity l.stale_identities
    then "unknown"
    else if member (host_of identity) l.live_hosts
    then "replaced"
    else if member (host_of identity) l.known_hosts
    then "gone"
    else "unknown"

unfoldable pub liveness_state : FleetLiveness → Option String → String
liveness_state l none = "unknown"
liveness_state l (some identity) = if identity == "" then "unknown" else known_state l identity

abbrev is_empty : List String → Bool
is_empty [] = true
is_empty (_ ∷ _) = false

-- FleetLiveness.queue_has_worker
unfoldable pub queue_has_worker : FleetLiveness → Option String → Option Bool
queue_has_worker l none = none
queue_has_worker l (some queue) =
    if queue == ""
    then none
    else if is_empty l.live_queues
    then none
    else some (member queue l.live_queues)

other_state :
    (a b c : Bool)
    → let state : String =
        if a then "unknown" else if b then "replaced" else if c then "gone" else "unknown" in
      (state == "live") ≡ false
other_state true b c = refl
other_state false true c = refl
other_state false false true = refl
other_state false false false = refl

liveness_state_lem :
    (l : FleetLiveness) (identity : String)
    → (identity == "") ≡ false
    → (liveness_state l (some identity) ≡ "live") ↔ (member identity l.live_identities ≡ true)
unfolding liveness_state known_state
liveness_state_lem l identity named = elim (Bool-cases (member identity l.live_identities)) [
  | inl here ↦ rw (named, here) ((λ h. refl), (λ h. refl))
  | inr missing ↦
      let never =
        other_state (member identity l.stale_identities) (member (host_of identity) l.live_hosts)
          (member (host_of identity) l.known_hosts) in
      rw (named, missing) ((λ h. sym never ∙ ap (λ t. t == "live") h), (λ h. absurd (ground arith)))
]

abbrev has_pid : Option ℕ → String → String → Bool
has_pid none host identity = false
has_pid (some pid) host identity = identity_of pid host == identity

absorbed :
    (a b c : Bool)
    → (if b then true else if a then true else c) ≡ (if if a then true else b then true else c)
absorbed true true c = refl
absorbed true false c = refl
absorbed false true c = refl
absorbed false false c = refl

held_in :
    (pid : Option ℕ) (host : String) (fresh : Bool) (identity : String) (l : FleetLiveness)
    → member identity (add_identity pid host fresh l).live_identities ≡ (
        if not (host == "") && (fresh && has_pid pid host identity)
        then true
        else member identity l.live_identities)
unfolding add_identity
held_in none host fresh identity l = ground arith
held_in (some pid) host fresh identity l = elim (Bool-cases (host == "")) [
  | inl none_given ↦ rw none_given refl
  | inr given ↦ elim (Bool-cases fresh) [
    | inl lately ↦ rw (given, lately) refl
    | inr late ↦ rw (given, late) refl
  ]
]

hosts_kept :
    (host identity : String) (l : FleetLiveness)
    → member identity (know_host host l).live_identities ≡ member identity l.live_identities
unfolding know_host
hosts_kept host identity l = ground arith

live_hosts_kept :
    (host identity : String) (l : FleetLiveness)
    → member identity (add_host host l).live_identities ≡ member identity l.live_identities
unfolding add_host
live_hosts_kept host identity l = ground arith

module _ ⦃f : Float⦄ ⦃w : Wire Num⦄ where
  -- whether a worker is registered as live, checked in lately, and has an identity
  abbrev pub vouches : Datetime → String → Worker → Bool
  vouches now identity v =
      let host = text_of v.host "" in
      v.status == "live"
      && (not (host == "") && (is_fresh now v.last_heartbeat_at && has_pid v.pid host identity))

  see_lem :
      (now : Datetime) (v : Worker) (identity : String) (l : FleetLiveness)
      → member identity (see now v l).live_identities
        ≡ (if vouches now identity v then true else member identity l.live_identities)
  unfolding see add_queues
  see_lem now v identity l =
      let host = text_of v.host "" in
      let fresh = is_fresh now v.last_heartbeat_at in
      let known = know_host host l in
      elim (Bool-cases (v.status == "live")) [
        | inl live ↦ rw live (
            held_in v.pid host fresh identity (add_host host known)
            ∙ (rw (live_hosts_kept host identity known, hosts_kept host identity l) refl))
        | inr dead ↦ rw dead (hosts_kept host identity l)
      ]

  from_workers_lem :
      (now : Datetime) (workers : List Worker) (identity : String) (l : FleetLiveness)
      → member identity (from_workers now workers l).live_identities
        ≡ (if any (vouches now identity) workers then true else member identity l.live_identities)
  unfolding from_workers
  from_workers_lem now [] identity l = refl
  from_workers_lem now (v ∷ workers) identity l =
      from_workers_lem now workers identity (see now v l)
      ∙ (rw (see_lem now v identity l) (
          absorbed (vouches now identity v) (any (vouches now identity) workers)
            (member identity l.live_identities)))

  -- A worker identity is called live exactly where some worker of the registry vouches for it: one
  -- that is registered as live, has a host and a process id that make the identity, and was heard
  -- from in the last 12 seconds. An older heartbeat is never enough.
  pub live_means_fresh :
      (now : Datetime) (workers : List Worker) (identity : String)
      → (identity == "") ≡ false
      → (liveness_state (from_workers now workers no_workers) (some identity) ≡ "live")
        ↔ (any (vouches now identity) workers ≡ true)
  live_means_fresh now workers identity named =
      let l = from_workers now workers no_workers in
      let lem = liveness_state_lem l identity named in
      let held = from_workers_lem now workers identity no_workers in
      ((λ h. ground (arith, held, lem.0 h)), (λ h. lem.1 (ground (arith, held))))
