-- ===== src/Shield/Coalesce/SingleFlight.antt =====
-- The contract of `CoalesceStore`, over every history of calls on a store that started empty.
use toche.Prelude.{
  ◌∙◌, sym, some, refl, subst, List, [], ◌∷◌, Option, none, Option-cases, true, inl, inr, Text,
  text_eq_iff, all, ◌≡◌, ◌≢◌, ap, arith,
}
use toche.Prelude.Maps
use toche.Prelude.Maps.{get-insert_ne, get-insert_self, get-remove_ne}
use toche.Shield.Coalesce.Delivery.{Watches, acquire-waits, run-Watches, finish-delivers}
use toche.Shield.Coalesce.Flights.{acquire-IsValid, history-IsValid}
use toche.Shield.Broadcast.{Broadcast}
use toche.Shield.Coalesce.{
  coalesced, failed, settle, Acquired, new, waits, CapturedResponse, Store, leads, acquire, finish,
  complete, cancel, Call, acquires, completes, cancels, step, run, spares, flight_key,
}

module _ (b : Broadcast (Option CapturedResponse)) where
  open b use {World, Receiver, source, recv}

  -- Whether a request would lead the flight of a key.
  leads_iff_free :
      (s : Store b) (u f t p : Text)
      → Maps.get (flight_key u f t p) s.flights ≡ none
      → (acquire b s u f t p).0 ≡ leads (flight_key u f t p)
  unfolding acquire
  leads_iff_free s u f t p free = rw (free, acquire)

  leader_listed :
      (s : Store b) (u f t p : Text)
      → (acquire b s u f t p).0 ≡ leads (flight_key u f t p)
      → Maps.get (flight_key u f t p) (acquire b s u f t p).1.flights ≢ none
  unfolding acquire
  leader_listed s u f t p l = elim (Option-cases (Maps.get (flight_key u f t p) s.flights)) [
    | inl free ↦
        rw (free, acquire)
          (λ e. cc (get-insert_self (flight_key u f t p) (b.channel s.world).0 s.flights))
    | inr (tx, busy) ↦ rw (busy, acquire) (λ e. cc)
  ]

  step_listed :
      (k : Text) (s : Store b) (c : Call b)
      → spares b k c ≡ true
      → Maps.get k s.flights ≢ none
      → Maps.get k (step b s c).flights ≢ none
  unfolding step complete cancel finish acquire
  step_listed k s (acquires u f t p) h there = ground (
    arith,
    get-insert_ne (flight_key u f t p) k (b.channel s.world).0 s.flights,
    text_eq_iff (flight_key u f t p) k,
    ap (λ j. Maps.get j s.flights) {x = flight_key u f t p} {y = k},
  )
  step_listed k s (completes j response) h there =
      ground (arith, get-remove_ne j k s.flights, text_eq_iff j k)
  step_listed k s (cancels j) h there = ground (arith, get-remove_ne j k s.flights, text_eq_iff j k)

  run_listed :
      (k : Text) (s : Store b) (cs : List (Call b))
      → all (spares b k) cs ≡ true
      → Maps.get k s.flights ≢ none
      → Maps.get k (run b s cs).flights ≢ none
  unfolding run
  run_listed k s [] h there = there
  run_listed k s (c ∷ cs) h there =
      run_listed k (step b s c) cs (ground arith) (step_listed k s c (ground arith) there)

  -- A request waits exactly when it does not lead, so that a flight has one leader.
  waits_when_listed :
      (s : Store b) (u f t p : Text)
      → Maps.get (flight_key u f t p) s.flights ≢ none
      → (r : Receiver) × ((acquire b s u f t p).0 ≡ waits r)
  unfolding acquire
  waits_when_listed s u f t p there =
      elim (Option-cases (Maps.get (flight_key u f t p) s.flights)) [
        | inl free ↦ absurd (there free)
        | inr (tx, busy) ↦ rw (busy, acquire) ((b.subscribe s.world tx).0, refl)
      ]

  waiting_listed :
      (s : Store b) (u f t p : Text) (r : Receiver)
      → (acquire b s u f t p).0 ≡ waits r
      → Maps.get (flight_key u f t p) s.flights ≢ none
  unfolding acquire
  waiting_listed s u f t p r e free = cc (e, leads_iff_free s u f t p free)

  waits_injective : (r r' : Receiver) → waits r ≡ (let x : Acquired b = waits r' in x) → r ≡ r'
  waits_injective r r' e = cc

  module _ (w : World) (history : List (Call b)) (u f t p : Text) where
    -- The store when the request comes, and after the calls that follow it.
    abbrev pub before : Store b
    before = run b (new b w) history

    abbrev pub later : List (Call b) → Store b
    later calls = run b (acquire b before u f t p).1 calls

    -- Once a request leads, every identical request that comes while no call completes or cancels
    -- its key waits instead, whatever else is called in between.
    pub single_flight :
        (calls : List (Call b))
        → (acquire b before u f t p).0 ≡ leads (flight_key u f t p)
        → all (spares b (flight_key u f t p)) calls ≡ true
        → (r : Receiver) × ((acquire b (later calls) u f t p).0 ≡ waits r)
    single_flight calls l h =
        waits_when_listed _ u f t p
          (run_listed (flight_key u f t p) _ calls h (leader_listed _ u f t p l))

    waiter-Watches :
        (r : Receiver)
        → (acquire b before u f t p).0 ≡ waits r
        → Watches b (flight_key u f t p) r (acquire b before u f t p).1
    waiter-Watches r e =
        let (r', e', watches) =
          acquire-waits b before u f t p (history-IsValid b w history)
            (waiting_listed before u f t p r e) in
        subst (λ x. Watches b (flight_key u f t p) x (acquire b before u f t p).1)
          (waits_injective r' r (sym e' ∙ e)) watches

    later-Watches :
        (r : Receiver) (calls : List (Call b))
        → (acquire b before u f t p).0 ≡ waits r
        → all (spares b (flight_key u f t p)) calls ≡ true
        → Watches b (flight_key u f t p) r (later calls)
    later-Watches r calls e h =
        (run-Watches b (flight_key u f t p) r (acquire b before u f t p).1 calls
          (acquire-IsValid b before u f t p (history-IsValid b w history)) h (waiter-Watches r e)).0

    -- A waiter gets the very response that its leader completes with, whatever is called in
    -- between that neither completes nor cancels its key, and the next identical request leads a
    -- new flight.
    pub waiter_gets_response :
        (r : Receiver) (calls : List (Call b)) (response : CapturedResponse)
        → (acquire b before u f t p).0 ≡ waits r
        → all (spares b (flight_key u f t p)) calls ≡ true
        → let s = complete b (later calls) (flight_key u f t p) response in
          (settle (recv s.world r) ≡ some (coalesced response))
          × ((acquire b s u f t p).0 ≡ leads (flight_key u f t p))
    unfolding complete settle
    waiter_gets_response r calls response e h =
        let (got, free) =
          finish-delivers b (flight_key u f t p) r (later calls) (some response)
            (later-Watches r calls e h) in
        (ap settle got, leads_iff_free _ u f t p free)

    -- A waiter whose leader cancels fails, whatever is called in between that neither completes nor
    -- cancels its key, and the next identical request leads a new flight.
    pub waiter_fails_on_cancel :
        (r : Receiver) (calls : List (Call b))
        → (acquire b before u f t p).0 ≡ waits r
        → all (spares b (flight_key u f t p)) calls ≡ true
        → let s = cancel b (later calls) (flight_key u f t p) in
          (settle (recv s.world r) ≡ some failed)
          × ((acquire b s u f t p).0 ≡ leads (flight_key u f t p))
    unfolding cancel settle
    waiter_fails_on_cancel r calls e h =
        let (got, free) =
          finish-delivers b (flight_key u f t p) r (later calls) none (later-Watches r calls e h) in
        (ap settle got, leads_iff_free _ u f t p free)

    -- A waiter never wakes up while nobody completes or cancels its key, however long the history
    -- goes on: a leader that ends without a call of either leaves it waiting.
    pub waiter_starves :
        (r : Receiver) (calls : List (Call b))
        → (acquire b before u f t p).0 ≡ waits r
        → all (spares b (flight_key u f t p)) calls ≡ true
        → settle (recv (later calls).world r) ≡ none
    unfolding settle
    waiter_starves r calls e h = ap settle (later-Watches r calls e h).silent
