-- ===== src/Gateway/Idempotency/Tests.antt =====
-- Requests of idempotency.py, in whole seconds.
use ancora.Prelude.{String, ◌≡◌, refl, false, none, some, List, [], ◌∷◌, foldl, string_key}
use ancora.Prelude.Int.{pos, ◌-ℤ◌}
use ancora.Number.Whole.{whole}
use ancora.Dict.{lookup, prune, IsDict}
use ancora.Gateway.Idempotency.{
  Response, IdempotencyStore, is_old, begin, sweep, reserve, dispatch_start, guard, started,
  reserved, cache_key, Request, still_in_flight, replayed, responded, dispatch_end,
}
use ancora.Gateway.Idempotency.Holding.{
  Call, begin_call, finish_call, abandon_call, apply_call, Undisturbed, pending, finished,
}
use ancora.Gateway.Idempotency.Requests.{Carries}
use ancora.Gateway.Idempotency.Duplicates.{one_handler, response_replayed, failure_releases}

abbrev key : String
key = "POST:/runs:1"

abbrev empty : IdempotencyStore
empty = record { ttl_seconds = pos 100; entries = [] }

abbrev created : Response
created = record { status_code = 201; body = "{}"; media_type = some "application/json" }

abbrev others : List Call
others =
    begin_call key (pos 20) (pos 20)
    ∷ begin_call "j" (pos 30) (pos 30)
    ∷ finish_call "j" created
    ∷ abandon_call "i"
    ∷ []

abbrev post : Request
post = record { method = "POST"; path = "/runs"; key_header = some "1" }

post-Carries : Carries post key
unfolding cache_key
post-Carries = record { header = "1"; given = refl; nonempty = refl; mutates = refl; makes = refl }

starts_free : (dispatch_start post (pos 10) (pos 11) empty).0 ≡ reserved key
unfolding dispatch_start guard started begin sweep reserve prune lookup cache_key
starts_free = refl

others_quiet : Undisturbed (pos 100) key (pending (pos 11)) others
unfolding ◌-ℤ◌
others_quiet = (refl, (refl, (refl, (refl, tt))))

others_quiet' : Undisturbed (pos 100) key (finished (pos 11) created) others
unfolding ◌-ℤ◌
others_quiet' = (refl, (refl, (refl, (refl, tt))))

young : is_old (pos 100) (pos 60) (pending (pos 11)) ≡ false
unfolding ◌-ℤ◌
young = refl

one_handler_example :
    (dispatch_start post
      (pos 60)
      (pos 60)
      (foldl apply_call (dispatch_start post (pos 10) (pos 11) empty).1 others)).0
    ≡ still_in_flight
one_handler_example =
    one_handler post post key (pos 10) (pos 11) empty others (pos 60) (pos 60) post-Carries
      post-Carries tt starts_free others_quiet young

response_replayed_example :
    (dispatch_start post (pos 60) (pos 60) (
      foldl apply_call
        (dispatch_end key
          (responded created)
          (foldl apply_call (dispatch_start post (pos 10) (pos 11) empty).1 others))
        others)).0
    ≡ replayed created
response_replayed_example =
    response_replayed post post key (pos 10) (pos 11) empty others created others (pos 60) (pos 60)
      post-Carries post-Carries tt starts_free others_quiet refl refl others_quiet' young

abbrev held : IdempotencyStore
held = record { ttl_seconds = pos 100; entries = (key, pending (pos 11)) ∷ [] }

abbrev broken : Response
broken = record { status_code = 503; body = ""; media_type = none }

held-IsDict : IsDict held.entries
unfolding lookup
held-IsDict = (refl, tt)

held_key : lookup key held.entries ≡ some (pending (pos 11))
unfolding lookup
held_key = refl

failure_releases_example :
    (dispatch_start post (pos 60) (pos 60) (dispatch_end key (responded broken) held)).0
    ≡ reserved key
failure_releases_example =
    failure_releases post key (responded broken) (pos 11) (pos 60) (pos 60) held post-Carries
      held-IsDict held_key young refl
