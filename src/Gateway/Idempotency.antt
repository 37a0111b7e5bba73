-- ===== src/Gateway/Idempotency.antt =====
-- services/api-gateway/ancora_api/idempotency.py: the store of replayable responses and the
-- middleware. The two readings of the clock are arguments, and so is what the application answers.
pub mod Holding
pub mod Requests
pub mod Duplicates
mod Tests
use Prim.Native.String.{◌++◌ as text_append}
use ancora.Prelude.{
  ℕ, Bool, true, false, Option, none, some, String, List, [], ◌∷◌, leb, nat_eq, any, ◌||◌, ◌==◌,
  string_key, Result, ok, raised, if◌then◌else◌,
}
use ancora.Number.{Float, Num, minus, below}
use ancora.Dict.{Dict, lookup, insert, erase, prune}

-- _MUTATING
abbrev pub mutating : List String
mutating = "POST" ∷ "PUT" ∷ "PATCH" ∷ "DELETE" ∷ []

-- the parts of a response that the middleware keeps: the status code, the body, the media type
pub record Response : Type 0 where
  pub status_code : ℕ
  pub body : String
  pub media_type : Option String

pub record Request : Type 0 where
  pub method : String
  pub path : String
  pub key_header : Option String

module _ ⦃f : Float⦄ where
  -- _Entry
  pub record Entry : Type 0 where
    pub created_at : Num
    pub status_code : Option ℕ
    pub body : Option String
    pub media_type : Option String

  -- _Entry.in_flight
  abbrev pub in_flight : Entry → Bool
  in_flight e = elim e.status_code [ none ↦ true | some _ ↦ false ]

  pub record IdempotencyStore : Type 0 where
    pub ttl_seconds : Num
    pub entries : Dict String Entry

  -- e.created_at < cutoff
  abbrev pub is_old : Num → Num → Entry → Bool
  is_old ttl now e = below e.created_at (minus now ttl)

  -- _sweep
  unfoldable pub sweep : Num → IdempotencyStore → IdempotencyStore
  sweep now s = record s { entries = prune (is_old s.ttl_seconds now) s.entries }

  reserve : String → Num → Option Entry → IdempotencyStore → Option Entry × IdempotencyStore
  reserve key now (some entry) s = (some entry, s)
  reserve key now none s = (
    none,
    record s {
      entries =
          insert key
            (record { created_at = now; status_code = none; body = none; media_type = none })
            s.entries;
    },
  )

  -- IdempotencyStore.begin: the clock is read by the sweep, and again for the entry
  unfoldable pub begin : String → Num → Num → IdempotencyStore → Option Entry × IdempotencyStore
  unfolding reserve
  begin key swept_at now s = let s' = sweep swept_at s in reserve key now (lookup key s'.entries) s'

  settle : String → Response → Option Entry → IdempotencyStore → IdempotencyStore
  settle key r none s = s
  settle key r (some entry) s =
      if leb 400 r.status_code then record s { entries = erase key s.entries } else record s {
        entries =
            insert key
              (record entry {
                status_code = some r.status_code;
                body = some r.body;
                media_type = r.media_type;
              })
              s.entries;
      }

  -- IdempotencyStore.finish
  unfoldable pub finish : String → Response → IdempotencyStore → IdempotencyStore
  unfolding settle
  finish key r s = settle key r (lookup key s.entries) s

  -- IdempotencyStore.abandon
  unfoldable pub abandon : String → IdempotencyStore → IdempotencyStore
  abandon key s = record s { entries = erase key s.entries }

  -- What `dispatch` knows before it awaits the application.
  pub data Started : Type 0 where
    -- no key, or a method that changes nothing: the request goes through
    unguarded : Started
    -- 409, Idempotency-Status: in-flight
    still_in_flight : Started
    -- Idempotency-Status: replayed
    replayed : Response → Started
    -- the application is asked, and the key is held meanwhile
    reserved : String → Started

  abbrev body_or_empty : Option String → String
  body_or_empty none = ""
  body_or_empty (some b) = b

  -- existing.status_code or 200
  abbrev code_or_ok : ℕ → ℕ
  code_or_ok code = if nat_eq code 0 then 200 else code

  answer_duplicate : Entry → Option ℕ → Started
  answer_duplicate entry none = still_in_flight
  answer_duplicate entry (some code) = replayed (record {
    status_code = code_or_ok code;
    body = body_or_empty entry.body;
    media_type = entry.media_type;
  })

  unfoldable pub started : String → Option Entry → Started
  unfolding answer_duplicate
  started key none = reserved key
  started key (some entry) = answer_duplicate entry entry.status_code

  -- f"{request.method}:{request.url.path}:{key_header}"
  unfoldable pub cache_key : String → String → String → String
  cache_key method path header =
      text_append method (text_append ":" (text_append path (text_append ":" header)))

  guard : Request → Option String → Num → Num → IdempotencyStore → Started × IdempotencyStore
  unfolding started
  guard r none swept_at now s = (unguarded, s)
  guard r (some header) swept_at now s =
      if header == ""
      then (unguarded, s)
      else if any (λ m. m == r.method) mutating
      then (let key = cache_key r.method r.path header in
          let (existing, s') = begin key swept_at now s in (started key existing, s'))
      else (unguarded, s)

  -- IdempotencyMiddleware.dispatch, up to call_next
  unfoldable pub dispatch_start :
      Request → Num → Num → IdempotencyStore → Started × IdempotencyStore
  unfolding guard
  dispatch_start r swept_at now s = guard r r.key_header swept_at now s

  -- How the wait for the application ends: with a response whose body is read, with an Exception
  -- of the handler, or otherwise: with an exception that is no Exception, as the cancellation of
  -- the request is, or with one that the body raises while it is read.
  pub data Ending : Type 0 where
    responded : Response → Ending
    handler_raised : Ending
    cancelled : Ending
    body_raised : Ending

  -- IdempotencyMiddleware.dispatch, after call_next: the key is held on where neither of `abandon`
  -- and `finish` is reached
  unfoldable pub dispatch_end : String → Ending → IdempotencyStore → IdempotencyStore
  dispatch_end key (responded r) s = finish key r s
  dispatch_end key handler_raised s = abandon key s
  dispatch_end key cancelled s = s
  dispatch_end key body_raised s = s
