-- ===== src/Gateway/Idempotency/Requests.antt =====
-- Requests that carry a key (idempotency.py: dispatch).
use ancora.Prelude.{
  ℕ, ◌≡◌, refl, true, false, Option, none, some, String, any, ◌==◌, string_key, nat_eq, ◌≢◌,
}
use ancora.Number.{Float, Num}
use ancora.Gateway.Idempotency.{
  mutating, Response, Request, Entry, IdempotencyStore, begin, still_in_flight, replayed, reserved,
  answer_duplicate, started, cache_key, guard, dispatch_start,
}
use ancora.Gateway.Idempotency.Holding.{pending, finished}

module _ ⦃f : Float⦄ where
  -- The request changes something, and its header makes the key.
  pub record Carries (r : Request) (key : String) : Type 0 where
    pub header : String
    pub given : r.key_header ≡ some header
    pub nonempty : (header == "") ≡ false
    pub mutates : any (λ m. m == r.method) mutating ≡ true
    pub makes : cache_key r.method r.path header ≡ key

  pub dispatch_begins :
      (r : Request) (key : String) (swept_at now : Num) (s : IdempotencyStore)
      → Carries r key
      → dispatch_start r swept_at now s
        ≡ (started key (begin key swept_at now s).0, (begin key swept_at now s).1)
  unfolding dispatch_start guard
  dispatch_begins r key swept_at now s c = rw (c.given, c.nonempty, c.mutates, c.makes) refl

  duplicate_reserves :
      (key : String) (e : Entry) (code : Option ℕ) → answer_duplicate e code ≢ reserved key
  unfolding answer_duplicate
  duplicate_reserves key e none h = cc
  duplicate_reserves key e (some code) h = cc

  -- a request that holds its key found none
  pub reserved_found :
      (key : String) (existing : Option Entry)
      → started key existing ≡ reserved key
      → existing ≡ none
  unfolding started
  reserved_found key none h = refl
  reserved_found key (some e) h = absurd (duplicate_reserves key e e.status_code h)

  pub pending_started :
      (key : String) (now : Num) → started key (some (pending now)) ≡ still_in_flight
  unfolding started answer_duplicate
  pending_started key now = refl

  pub finished_started :
      (key : String) (now : Num) (r : Response)
      → nat_eq r.status_code 0 ≡ false
      → started key (some (finished now r)) ≡ replayed r
  unfolding started answer_duplicate
  finished_started key now r h = rw h refl
