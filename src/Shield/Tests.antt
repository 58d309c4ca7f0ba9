-- ===== src/Shield/Tests.antt =====
-- The contract of the store of flights at a concrete channel.
use toche.Prelude.{ℕ, List, [], ◌∷◌, Option, none, some, codes, ◌≡◌, refl, text_eq}
use toche.Prelude.Maps
use toche.Shield.Broadcast.{Broadcast}
use toche.Shield.Channel.{log_channel}
use toche.Shield.Coalesce.{
  CapturedResponse, coalesced, failed, settle, new, leads, waits, acquire, complete, cancel, Call,
  acquires, completes, run, flight_key,
}
use toche.Shield.Coalesce.Flights
use toche.Shield.Coalesce.Key.{flight_key-injective}
use toche.Shield.Coalesce.SingleFlight.{
  single_flight, waiter_gets_response, waiter_fails_on_cancel, waiter_starves, later,
}

abbrev channels : Broadcast (Option CapturedResponse)
channels = log_channel (Option CapturedResponse)

abbrev request : Call channels
request = acquires (codes "http://up/v1") (codes "fp") (codes "td") (codes "ph")

abbrev other_request : Call channels
other_request = acquires (codes "http://up/v1") (codes "other") (codes "td") (codes "ph")

abbrev answer : CapturedResponse
answer = record { status = 200; body_bytes = 1 ∷ 2 ∷ [] }

abbrev between : List (Call channels)
between = other_request ∷ completes (codes "http://up/v1|other|td|ph") answer ∷ request ∷ []

flight_key_format : flight_key (codes "u") (codes "f") (codes "t") (codes "p") ≡ codes "u|f|t|p"
unfolding flight_key
flight_key_format = refl

flight_key-injective_example :
    (codes "a|b" ≡ codes "a|b")
    × (codes "f" ≡ codes "f")
    × (codes "t" ≡ codes "t")
    × (codes "p" ≡ codes "p")
flight_key-injective_example =
    flight_key-injective (codes "a|b") (codes "f") (codes "t") (codes "p") (codes "a|b") (codes "f")
      (codes "t") (codes "p") refl refl refl refl refl refl refl

single_flight_example :
    (r : ℕ × ℕ) × ((acquire channels
        (later channels
          (0, [])
          []
          (codes "http://up/v1")
          (codes "fp")
          (codes "td")
          (codes "ph")
          between)
        (codes "http://up/v1")
        (codes "fp")
        (codes "td")
        (codes "ph")).0
      ≡ waits r)
unfolding acquire run new Maps.get Maps.insert Maps.remove flight_key text_eq
single_flight_example =
    single_flight channels (0, []) [] (codes "http://up/v1") (codes "fp") (codes "td") (codes "ph")
      between refl refl

waiter_gets_response_example :
    let s =
      complete channels
        (later channels
          (0, [])
          (request ∷ [])
          (codes "http://up/v1")
          (codes "fp")
          (codes "td")
          (codes "ph")
          between)
        (flight_key (codes "http://up/v1") (codes "fp") (codes "td") (codes "ph"))
        answer in
    (settle (channels.recv s.world (0, 0)) ≡ some (coalesced answer))
    × ((acquire channels s (codes "http://up/v1") (codes "fp") (codes "td") (codes "ph")).0
        ≡ leads (flight_key (codes "http://up/v1") (codes "fp") (codes "td") (codes "ph")))
unfolding acquire run new Maps.get Maps.insert Maps.remove flight_key text_eq
waiter_gets_response_example =
    waiter_gets_response channels (0, []) (request ∷ []) (codes "http://up/v1") (codes "fp")
      (codes "td") (codes "ph") (0, 0) between answer refl refl

waiter_fails_on_cancel_example :
    let s =
      cancel channels
        (later channels
          (0, [])
          (request ∷ [])
          (codes "http://up/v1")
          (codes "fp")
          (codes "td")
          (codes "ph")
          between)
        (flight_key (codes "http://up/v1") (codes "fp") (codes "td") (codes "ph")) in
    (settle (channels.recv s.world (0, 0)) ≡ some failed)
    × ((acquire channels s (codes "http://up/v1") (codes "fp") (codes "td") (codes "ph")).0
        ≡ leads (flight_key (codes "http://up/v1") (codes "fp") (codes "td") (codes "ph")))
unfolding acquire run new Maps.get Maps.insert Maps.remove flight_key text_eq
waiter_fails_on_cancel_example =
    waiter_fails_on_cancel channels (0, []) (request ∷ []) (codes "http://up/v1") (codes "fp")
      (codes "td") (codes "ph") (0, 0) between refl refl

waiter_starves_example :
    settle (
      channels.recv
        (later channels
          (0, [])
          (request ∷ [])
          (codes "http://up/v1")
          (codes "fp")
          (codes "td")
          (codes "ph")
          between).world
        (0, 0))
    ≡ none
unfolding acquire run new Maps.get Maps.insert Maps.remove flight_key text_eq
waiter_starves_example =
    waiter_starves channels (0, []) (request ∷ []) (codes "http://up/v1") (codes "fp") (codes "td")
      (codes "ph") (0, 0) between refl refl

history-IsValid_example :
    Flights.IsValid channels (run channels (new channels (0, [])) (request ∷ between))
history-IsValid_example = Flights.history-IsValid channels (0, []) (request ∷ between)
