-- ===== src/Gateway/Idempotency/Duplicates.antt =====
-- Requests that repeat a key, with the calls of other requests between them (idempotency.py).
use ancora.Prelude.{
  ◌≡◌, refl, sym, ap, ◌∙◌, false, Option, none, some, String, List, foldl, arith, leb, nat_eq,
  ==_refl, string_key, inl, inr, Bool-cases, if◌then◌else◌,
}
use ancora.Number.{Float, Num}
use ancora.Dict.{lookup, erase, prune, IsDict}
use ancora.Dict.Laws.{lookup-erase, lookup-prune, erase-IsDict}
use ancora.Gateway.Idempotency.{
  Response, Request, Entry, IdempotencyStore, is_old, sweep, reserve, begin, settle, finish,
  abandon, still_in_flight, replayed, reserved, started, dispatch_start, Started, Ending, responded,
  handler_raised, cancelled, body_raised, dispatch_end,
}
use ancora.Gateway.Idempotency.Holding.{
  Call, apply_call, Undisturbed, pending, finished, calls-Holds, begin_found, reserved-Holds,
  finish_found,
}
use ancora.Gateway.Idempotency.Requests.{
  Carries, dispatch_begins, reserved_found, pending_started, finished_started,
}

module _ ⦃f : Float⦄ where
  -- what a later request with the key is told, by the entry that it finds
  told :
      (again : Request) (key : String) (entry : Option Entry) (swept_at now : Num)
      (s : IdempotencyStore)
      → Carries again key
      → (begin key swept_at now s).0 ≡ entry
      → (dispatch_start again swept_at now s).0 ≡ started key entry
  told again key entry swept_at now s repeats found =
      ap (λ p. p.0) (dispatch_begins again key swept_at now s repeats) ∙ ap (started key) found

  was_free :
      (first : Request) (key : String) (swept_at now : Num) (s : IdempotencyStore)
      → Carries first key
      → (dispatch_start first swept_at now s).0 ≡ reserved key
      → (begin key swept_at now s).0 ≡ none
  was_free first key swept_at now s carries holds =
      reserved_found key (begin key swept_at now s).0
        (ap (λ p. p.0) (sym (dispatch_begins first key swept_at now s carries)) ∙ holds)

  -- A request whose key was free goes to the application. Until it ends, any other request with
  -- the key is answered as in flight and does not go to the application, whatever calls requests
  -- make meanwhile, so long as none of them ends a request with this key, as one that outlived the
  -- time to live might, and none of them or of the other request's sweeps comes when the
  -- reservation is past the time to live.
  pub one_handler :
      (first again : Request) (key : String) (swept_at now : Num) (s : IdempotencyStore)
      (calls : List Call) (swept_at' now' : Num)
      → Carries first key
      → Carries again key
      → IsDict s.entries
      → (dispatch_start first swept_at now s).0 ≡ reserved key
      → Undisturbed s.ttl_seconds key (pending now) calls
      → is_old s.ttl_seconds swept_at' (pending now) ≡ false
      → (dispatch_start again swept_at' now'
          (foldl apply_call (dispatch_start first swept_at now s).1 calls)).0
        ≡ still_in_flight
  one_handler first again key swept_at now s calls swept_at' now' carries repeats unique holds quiet
        young =
      let free = was_free first key swept_at now s carries holds in
      let s' = foldl apply_call (begin key swept_at now s).1 calls in
      let found : (begin key swept_at' now' s').0 ≡ some (pending now) =
        begin_found s.ttl_seconds key (pending now) swept_at' now' s'
          (calls-Holds s.ttl_seconds key (pending now) calls (begin key swept_at now s).1
            (reserved-Holds key swept_at now s unique free) quiet)
          young in
      rw (dispatch_begins first key swept_at now s carries) (
        told again key (some (pending now)) swept_at' now' s' repeats found
        ∙ pending_started key now)

  -- Once a request whose key was free has been answered with a status below 400 that is not 0, any
  -- later request with the key is given that response again, whatever calls requests made before
  -- and since, so long as none of them ends another request with this key, as one that outlived
  -- the time to live might, and none of them or of the later request's sweeps comes when the
  -- reservation is past the time to live.
  pub response_replayed :
      (first again : Request) (key : String) (swept_at now : Num) (s : IdempotencyStore)
      (before : List Call) (r : Response) (since : List Call) (swept_at' now' : Num)
      → Carries first key
      → Carries again key
      → IsDict s.entries
      → (dispatch_start first swept_at now s).0 ≡ reserved key
      → Undisturbed s.ttl_seconds key (pending now) before
      → leb 400 r.status_code ≡ false
      → nat_eq r.status_code 0 ≡ false
      → Undisturbed s.ttl_seconds key (finished now r) since
      → is_old s.ttl_seconds swept_at' (finished now r) ≡ false
      → (dispatch_start again swept_at' now' (
          foldl apply_call
            (dispatch_end key
              (responded r)
              (foldl apply_call (dispatch_start first swept_at now s).1 before))
            since)).0
        ≡ replayed r
  unfolding dispatch_end
  response_replayed first again key swept_at now s before r since swept_at' now' carries repeats
        unique holds quiet fine set quiet' young =
      let free = was_free first key swept_at now s carries holds in
      let s' = foldl apply_call (begin key swept_at now s).1 before in
      let s'' = foldl apply_call (finish key r s') since in
      let found : (begin key swept_at' now' s'').0 ≡ some (finished now r) =
        begin_found s.ttl_seconds key (finished now r) swept_at' now' s''
          (calls-Holds s.ttl_seconds key (finished now r) since (finish key r s')
            (finish_found s.ttl_seconds key now r s'
              (calls-Holds s.ttl_seconds key (pending now) before (begin key swept_at now s).1
                (reserved-Holds key swept_at now s unique free) quiet)
              fine)
            quiet')
          young in
      rw (dispatch_begins first key swept_at now s carries) (
        told again key (some (finished now r)) swept_at' now' s'' repeats found
        ∙ finished_started key now r set)

  begin_free :
      (key : String) (swept_at now : Num) (s : IdempotencyStore)
      → IsDict s.entries
      → lookup key s.entries ≡ none
      → (begin key swept_at now s).0 ≡ none
  unfolding begin sweep reserve
  begin_free key swept_at now s unique missing =
      let gone : lookup key (prune (is_old s.ttl_seconds swept_at) s.entries) ≡ none =
        rw (lookup-prune key (is_old s.ttl_seconds swept_at) s.entries unique, missing) in
      rw gone

  -- what the next request with the key is told after an ending
  abbrev pub told_after : String → Ending → Started
  told_after key (responded r) = if leb 400 r.status_code then reserved key else replayed r
  told_after key handler_raised = reserved key
  told_after key cancelled = still_in_flight
  told_after key body_raised = still_in_flight

  abbrev pub HasStatus : Ending → Type 0
  HasStatus (responded r) = nat_eq r.status_code 0 ≡ false
  HasStatus _ = Unit

  freed :
      (again : Request) (key : String) (swept_at now : Num) (s : IdempotencyStore)
      → Carries again key
      → IsDict s.entries
      → (dispatch_start again swept_at now (abandon key s)).0 ≡ reserved key
  unfolding abandon started
  freed again key swept_at now s repeats unique =
      let missing : lookup key (erase key s.entries) ≡ none =
        ground (arith, lookup-erase key key s.entries unique, ==_refl key) in
      told again key none swept_at now (abandon key s) repeats
        (begin_free key swept_at now (abandon key s) (erase-IsDict key s.entries unique) missing)

  still_held :
      (again : Request) (key : String) (reserved_at swept_at now : Num) (s : IdempotencyStore)
      → Carries again key
      → IsDict s.entries
      → lookup key s.entries ≡ some (pending reserved_at)
      → is_old s.ttl_seconds swept_at (pending reserved_at) ≡ false
      → (dispatch_start again swept_at now s).0 ≡ still_in_flight
  still_held again key reserved_at swept_at now s repeats unique held young =
      told again key (some (pending reserved_at)) swept_at now s repeats (
        begin_found s.ttl_seconds key (pending reserved_at) swept_at now s (unique, held, refl)
          young)
      ∙ pending_started key reserved_at

  -- How a request that holds its key ends decides what the next request with the key is told, up
  -- to the time to live: it holds the key and goes to the application where the first was answered
  -- with a status of 400 or more or its handler raised an Exception; it is given the response
  -- where that has another status, which is not 0; and where the first was cancelled, or its
  -- response's body raised while it was read, it is answered as in flight, for the key is held on.
  pub failure_releases :
      (again : Request) (key : String) (ending : Ending) (reserved_at swept_at now : Num)
      (s : IdempotencyStore)
      → Carries again key
      → IsDict s.entries
      → lookup key s.entries ≡ some (pending reserved_at)
      → is_old s.ttl_seconds swept_at (pending reserved_at) ≡ false
      → HasStatus ending
      → (dispatch_start again swept_at now (dispatch_end key ending s)).0 ≡ told_after key ending
  unfolding dispatch_end
  failure_releases again key handler_raised reserved_at swept_at now s repeats unique held young
        set =
      freed again key swept_at now s repeats unique
  failure_releases again key (responded r) reserved_at swept_at now s repeats unique held young
        set =
      elim (Bool-cases (leb 400 r.status_code)) [
        | inl failed ↦
            let released : finish key r s ≡ abandon key s =
              unfold finish settle abandon in rw (held, failed) refl in
            rw (failed, released) (freed again key swept_at now s repeats unique)
        | inr fine ↦ rw fine (
            told again key (some (finished reserved_at r)) swept_at now (finish key r s) repeats (
              begin_found s.ttl_seconds key (finished reserved_at r) swept_at now (finish key r s)
                (finish_found s.ttl_seconds key reserved_at r s (unique, held, refl) fine) young)
            ∙ finished_started key reserved_at r set)
      ]
  failure_releases again key cancelled reserved_at swept_at now s repeats unique held young set =
      still_held again key reserved_at swept_at now s repeats unique held young
  failure_releases again key body_raised reserved_at swept_at now s repeats unique held young set =
      still_held again key reserved_at swept_at now s repeats unique held young
