-- ===== src/Gateway/Idempotency/Holding.antt =====
-- The entry of a key through the calls of other requests (idempotency.py).
use ancora.Prelude.{
  ◌≡◌, refl, sym, subst, false, Option, none, some, String, List, [], ◌∷◌, foldl, arith, leb, ◌==◌,
  string_key, inl, inr, Bool-cases, Option-cases,
}
use ancora.Number.{Float, Num}
use ancora.Dict.{lookup, prune, IsDict}
use ancora.Dict.Laws.{
  lookup-insert, lookup-insert_self, lookup-erase, lookup-prune, insert-IsDict, erase-IsDict,
  prune-IsDict,
}
use ancora.Gateway.Idempotency.{
  Response, Entry, IdempotencyStore, is_old, sweep, reserve, begin, settle, finish, abandon,
}

module _ ⦃f : Float⦄ where
  -- one call that a request makes of the store
  pub data Call : Type 0 where
    begin_call : String → Num → Num → Call
    finish_call : String → Response → Call
    abandon_call : String → Call

  unfoldable pub apply_call : IdempotencyStore → Call → IdempotencyStore
  apply_call s (begin_call key swept_at now) = (begin key swept_at now s).1
  apply_call s (finish_call key r) = finish key r s
  apply_call s (abandon_call key) = abandon key s

  -- The calls neither end the request that holds the key, nor come when its entry is past the
  -- time to live.
  abbrev pub Undisturbed : Num → String → Entry → List Call → Type 0
  Undisturbed ttl key entry [] = Unit
  Undisturbed ttl key entry (begin_call j swept_at now ∷ calls) =
      (is_old ttl swept_at entry ≡ false) × Undisturbed ttl key entry calls
  Undisturbed ttl key entry (finish_call j r ∷ calls) =
      ((j == key) ≡ false) × Undisturbed ttl key entry calls
  Undisturbed ttl key entry (abandon_call j ∷ calls) =
      ((j == key) ≡ false) × Undisturbed ttl key entry calls

  -- a store that lists the entry under the key, and each key once
  abbrev Holds : Num → String → Entry → IdempotencyStore → Type 0
  Holds ttl key entry s =
      IsDict s.entries × (lookup key s.entries ≡ some entry) × (s.ttl_seconds ≡ ttl)

  sweep-Holds :
      (key : String) (entry : Entry) (now : Num) (s : IdempotencyStore)
      → Holds s.ttl_seconds key entry s
      → is_old s.ttl_seconds now entry ≡ false
      → Holds s.ttl_seconds key entry (sweep now s)
  unfolding sweep
  sweep-Holds key entry now s (unique, found, _) young = (
    prune-IsDict (is_old s.ttl_seconds now) s.entries unique,
    ground (arith, lookup-prune key (is_old s.ttl_seconds now) s.entries unique),
    refl,
  )

  reserve-Holds :
      (key j : String) (entry : Entry) (now : Num) (o : Option Entry) (s : IdempotencyStore)
      → Holds s.ttl_seconds key entry s
      → lookup j s.entries ≡ o
      → Holds s.ttl_seconds key entry (reserve j now o s).1
  unfolding reserve
  reserve-Holds key j entry now (some e) s h looked = h
  reserve-Holds key j entry now none s (unique, found, _) looked =
      let fresh : Entry = record {
        created_at = now;
        status_code = none;
        body = none;
        media_type = none;
      } in
      (
        insert-IsDict j fresh s.entries unique,
        ground (arith, lookup-insert key j fresh s.entries, string_key.agree_iff j key),
        refl,
      )

  begin-Holds :
      (key j : String) (entry : Entry) (swept_at now : Num) (s : IdempotencyStore)
      → Holds s.ttl_seconds key entry s
      → is_old s.ttl_seconds swept_at entry ≡ false
      → Holds s.ttl_seconds key entry (begin j swept_at now s).1
  unfolding begin sweep
  begin-Holds key j entry swept_at now s h young =
      reserve-Holds key j entry now (lookup j (sweep swept_at s).entries) (sweep swept_at s)
        (sweep-Holds key entry swept_at s h young) refl

  erase-Holds :
      (key j : String) (entry : Entry) (s : IdempotencyStore)
      → Holds s.ttl_seconds key entry s
      → (j == key) ≡ false
      → Holds s.ttl_seconds key entry (abandon j s)
  unfolding abandon
  erase-Holds key j entry s (unique, found, _) other =
      (erase-IsDict j s.entries unique, ground (arith, lookup-erase key j s.entries unique), refl)

  finish-Holds :
      (key j : String) (entry : Entry) (r : Response) (s : IdempotencyStore)
      → Holds s.ttl_seconds key entry s
      → (j == key) ≡ false
      → Holds s.ttl_seconds key entry (finish j r s)
  unfolding finish settle
  finish-Holds key j entry r s h other = elim (Option-cases (lookup j s.entries)) [
    | inl missing ↦ rw missing h
    | inr (e, found) ↦ elim (Bool-cases (leb 400 r.status_code)) [
      | inl failed ↦ rw (found, failed) (unfold abandon in erase-Holds key j entry s h other)
      | inr fine ↦
          let (unique, held, _) = h in
          let done = record e {
            status_code = some r.status_code;
            body = some r.body;
            media_type = r.media_type;
          } in
          rw (found, fine)
            (
              insert-IsDict j done s.entries unique,
              ground (arith, lookup-insert key j done s.entries),
              refl,
            )
    ]
  ]

  call-Holds :
      (key : String) (entry : Entry) (c : Call) (calls : List Call) (s : IdempotencyStore)
      → Holds s.ttl_seconds key entry s
      → Undisturbed s.ttl_seconds key entry (c ∷ calls)
      → Holds s.ttl_seconds key entry (apply_call s c)
  unfolding apply_call
  call-Holds key entry (begin_call j swept_at now) calls s h (young, rest) =
      begin-Holds key j entry swept_at now s h young
  call-Holds key entry (finish_call j r) calls s h (other, rest) =
      finish-Holds key j entry r s h other
  call-Holds key entry (abandon_call j) calls s h (other, rest) = erase-Holds key j entry s h other

  Undisturbed-rest :
      (ttl : Num) (key : String) (entry : Entry) (c : Call) (calls : List Call)
      → Undisturbed ttl key entry (c ∷ calls)
      → Undisturbed ttl key entry calls
  Undisturbed-rest ttl key entry (begin_call j swept_at now) calls (_, rest) = rest
  Undisturbed-rest ttl key entry (finish_call j r) calls (_, rest) = rest
  Undisturbed-rest ttl key entry (abandon_call j) calls (_, rest) = rest

  pub calls-Holds :
      (ttl : Num) (key : String) (entry : Entry) (calls : List Call) (s : IdempotencyStore)
      → Holds ttl key entry s
      → Undisturbed ttl key entry calls
      → Holds ttl key entry (foldl apply_call s calls)
  calls-Holds ttl key entry [] s h quiet = h
  calls-Holds ttl key entry (c ∷ calls) s (unique, found, same_ttl) quiet =
      calls-Holds ttl key entry calls (apply_call s c)
        (subst (λ t. Holds t key entry (apply_call s c)) same_ttl
          (call-Holds key entry c calls s (unique, found, refl)
            (subst (λ t. Undisturbed t key entry (c ∷ calls)) (sym same_ttl) quiet)))
        (Undisturbed-rest ttl key entry c calls quiet)

  pub begin_found :
      (ttl : Num) (key : String) (entry : Entry) (swept_at now : Num) (s : IdempotencyStore)
      → Holds ttl key entry s
      → is_old ttl swept_at entry ≡ false
      → (begin key swept_at now s).0 ≡ some entry
  unfolding begin
  begin_found ttl key entry swept_at now s (unique, found, same_ttl) young =
      let (_, kept, _) =
        sweep-Holds key entry swept_at s (unique, found, refl)
          (subst (λ t. is_old t swept_at entry ≡ false) (sym same_ttl) young) in
      rw kept (unfold reserve in refl)

  -- the entry of a request that has just reserved its key
  abbrev pub pending : Num → Entry
  pending now = record { created_at = now; status_code = none; body = none; media_type = none }

  -- the entry once the application has answered
  abbrev pub finished : Num → Response → Entry
  finished now r = record {
    created_at = now;
    status_code = some r.status_code;
    body = some r.body;
    media_type = r.media_type;
  }

  reserve_free :
      (key : String) (now : Num) (o : Option Entry) (s : IdempotencyStore)
      → (reserve key now o s).0 ≡ none
      → o ≡ none
  unfolding reserve
  reserve_free key now none s free = refl
  reserve_free key now (some e) s free = free

  pub reserved-Holds :
      (key : String) (swept_at now : Num) (s : IdempotencyStore)
      → IsDict s.entries
      → (begin key swept_at now s).0 ≡ none
      → Holds s.ttl_seconds key (pending now) (begin key swept_at now s).1
  unfolding begin sweep
  reserved-Holds key swept_at now s unique free =
      let kept = prune (is_old s.ttl_seconds swept_at) s.entries in
      let missing : lookup key kept ≡ none =
        reserve_free key now (lookup key kept) (record s { entries = kept }) free in
      rw (missing, reserve)
        (
          insert-IsDict key (pending now) kept
              (prune-IsDict (is_old s.ttl_seconds swept_at) s.entries unique),
          lookup-insert_self key (pending now) kept,
          refl,
        )

  pub finish_found :
      (ttl : Num) (key : String) (now : Num) (r : Response) (s : IdempotencyStore)
      → Holds ttl key (pending now) s
      → leb 400 r.status_code ≡ false
      → Holds ttl key (finished now r) (finish key r s)
  unfolding finish settle
  finish_found ttl key now r s (unique, found, same_ttl) fine =
      rw (found, fine)
        (
          insert-IsDict key (finished now r) s.entries unique,
          lookup-insert_self key (finished now r) s.entries,
          same_ttl,
        )
