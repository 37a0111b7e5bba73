-- ===== src/Scheduler/Fairness.antt =====
-- services/scheduler/ancora_scheduler/fairness.py: weighted fair queuing by virtual time, and the
-- priority lanes' counts. The clock's reading is an argument.
pub mod Minimum
pub mod Decisions
pub mod Refund
mod Tests
use ancora.Prelude.{
  ℕ, ◌+◌, Bool, true, false, Option, none, some, String, List, [], ◌∷◌, length, ltb, ◌&&◌, ◌==◌,
  string_key, int_key, pair_key, Result, ok, raised, if◌then◌else◌,
}
use ancora.Prelude.Int.{ℤ}
use ancora.Errors.{ValueError, weight_not_positive, division_by_zero}
use ancora.Number.{Float, Num, fnum, fmin, fmax, plus, minus, over, at_most, below, same}
use ancora.Dict.{Dict, lookup, insert, prune, lookup_or, bump}

module _ ⦃f : Float⦄ where
  -- _TenantState
  pub record TenantState : Type 0 where
    pub virtual_time : Num
    pub last_seen : Num

  pub record FairDecision : Type 0 where
    pub admitted : Bool
    pub retry_after : Num
    pub virtual_time : Num
    pub min_virtual_time : Num
    pub contenders : ℕ

  abbrev pub Tenants : Type 0
  Tenants = Dict String TenantState

  pub record FairShare : Type 0 where
    pub idle_seconds : Num
    pub defer_seconds : Num
    pub queues : Dict String Tenants

  -- self._queues.setdefault(queue, {}), or self._queues.get(queue, {})
  abbrev pub tenants_of : String → FairShare → Tenants
  tenants_of queue s = lookup_or [] queue s.queues

  abbrev pub with_tenants : String → Tenants → FairShare → FairShare
  with_tenants queue tenants s = record s { queues = insert queue tenants s.queues }

  -- now - s.last_seen > self._idle_seconds
  abbrev is_idle : Num → Num → TenantState → Bool
  is_idle idle now s = below idle (minus now s.last_seen)

  -- _active: the tenants of the queue that are still competing
  unfoldable pub active : String → Num → FairShare → Tenants
  active queue now s = prune (is_idle s.idle_seconds now) (tenants_of queue s)

  unfoldable pub min_from : Num → Tenants → Num
  min_from m [] = m
  min_from m ((_, s) ∷ tenants) = min_from (fmin m s.virtual_time) tenants

  -- min((s.virtual_time for s in tenants.values()), default=0.0)
  unfoldable pub min_virtual : Tenants → Num
  unfolding min_from
  min_virtual [] = fnum 0
  min_virtual ((_, s) ∷ tenants) = min_from s.virtual_time tenants

  -- the tenant's state, a newcomer's at the current minimum, seen now
  abbrev pub seated : Num → Num → Option TenantState → TenantState
  seated min_vt now found = record {
    virtual_time = elim found [ none ↦ min_vt | some state ↦ state.virtual_time ];
    last_seen = now;
  }

  -- The decision among tenants that are already pruned, with the tenant's new state.
  unfoldable pub decide : String → Num → Num → Num → Tenants → FairDecision × TenantState
  decide tenant defer_seconds step now tenants =
      let min_vt = min_virtual tenants in
      let state = seated min_vt now (lookup tenant tenants) in
      let contenders = length (insert tenant state tenants) in
      if ltb 1 contenders && below (plus min_vt step) state.virtual_time
      then (
        record {
          admitted = false;
          retry_after = defer_seconds;
          virtual_time = state.virtual_time;
          min_virtual_time = min_vt;
          contenders = contenders;
        },
        state,
      )
      else (
        record {
          admitted = true;
          retry_after = fnum 0;
          virtual_time = plus state.virtual_time step;
          min_virtual_time = min_vt;
          contenders = contenders;
        },
        record { virtual_time = plus state.virtual_time step; last_seen = now },
      )

  -- FairShare.admit
  unfoldable pub admit :
      String → String → Num → Num → Num → FairShare → Result ValueError (FairDecision × FairShare)
  admit queue tenant weight cost now s =
      if at_most weight (fnum 0)
      then raised weight_not_positive
      else (let tenants = active queue now s in
          let (decision, state) = decide tenant s.defer_seconds (over cost weight) now tenants in
          ok (decision, with_tenants queue (insert tenant state tenants) s))

  unfoldable pub refund_state :
      String → String → Num → Num → FairShare → Option TenantState → Result ValueError FairShare
  refund_state queue tenant weight cost s none = ok s
  refund_state queue tenant weight cost s (some state) =
      if same weight (fnum 0)
      then raised division_by_zero
      else ok (
          with_tenants queue
            (insert tenant
              (record state {
                virtual_time = fmax (fnum 0) (minus state.virtual_time (over cost weight));
              })
              (tenants_of queue s))
            s)

  -- FairShare.refund
  unfoldable pub refund : String → String → Num → Num → FairShare → Result ValueError FairShare
  unfolding refund_state
  refund queue tenant weight cost s =
      refund_state queue tenant weight cost s (lookup tenant (tenants_of queue s))

  unfoldable pub times_of : Tenants → Dict String Num
  times_of [] = []
  times_of ((t, s) ∷ tenants) = (t, s.virtual_time) ∷ times_of tenants

  -- FairShare.snapshot: it prunes what it shows
  unfoldable pub snapshot : String → Num → FairShare → Dict String Num × FairShare
  snapshot queue now s =
      let tenants = active queue now s in (times_of tenants, with_tenants queue tenants s)

  unfoldable pub reset : FairShare → FairShare
  reset s = record s { queues = [] }

  -- FairShare(idle_seconds=…, defer_seconds=…)
  unfoldable fair_share : Num → Num → FairShare
  fair_share idle defer = record { idle_seconds = idle; defer_seconds = defer; queues = [] }

-- PriorityLanes.counts
abbrev pub Lanes : Type 0
Lanes = Dict (String × ℤ) ℕ

-- PriorityLanes.record
unfoldable pub record_lane : String → ℤ → Lanes → Lanes
record_lane queue priority counts = bump (queue, priority) counts

-- PriorityLanes.by_queue
unfoldable pub by_queue : String → Lanes → Dict ℤ ℕ
by_queue queue [] = []
by_queue queue (((q, p), n) ∷ counts) =
    let rest = by_queue queue counts in if q == queue then (p, n) ∷ rest else rest
