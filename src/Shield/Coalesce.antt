-- ===== src/Shield/Coalesce.antt =====
-- src/shield/coalesce.rs: `CoalesceStore`. Each method holds the mutex for its whole body, so a
-- history is a sequence of calls. `try_acquire` is split at its one `await`: `acquire` is the part
-- under the lock, `settle` is the match on what `recv` gives.
pub mod Key
pub mod Flights
pub mod Delivery
pub mod SingleFlight
use toche.Prelude.{
  ℕ, List, [], ◌∷◌, ◌++◌, Option, none, some, Bool, true, false, not, Text, text_eq, codes, map,
}
use toche.Prelude.Maps.{Map}
use toche.Prelude.Maps
use toche.Shield.Broadcast.{Broadcast, Poll, pending, ready, closed, lagged}
unfoldable pub use Key.{flight_key}

pub record CapturedResponse : Type 0 where
  pub status : ℕ
  pub body_bytes : List ℕ

pub data CoalesceResult : Type 0 where
  forward : Text → CoalesceResult
  coalesced : CapturedResponse → CoalesceResult
  failed : CoalesceResult

-- The match on `rx.recv().await`: `none` while the waiter has nothing to wake up for.
unfoldable pub settle : Poll (Option CapturedResponse) → Option CoalesceResult
settle pending = none
settle (ready (some response)) = some (coalesced response)
settle (ready none) = some failed
settle closed = some failed
settle lagged = some failed

module _ (b : Broadcast (Option CapturedResponse)) where
  open b use {World, Sender, Receiver, channel, subscribe, send, release}

  -- The store beside the state of the channels.
  pub record Store : Type 0 where
    pub flights : Map Sender
    pub world : World

  unfoldable pub new : World → Store
  new w = record { flights = []; world = w }

  -- What the locked part of `try_acquire` decides: lead the flight, or wait for its leader.
  pub data Acquired : Type 0 where
    leads : Text → Acquired
    waits : Receiver → Acquired

  unfoldable pub acquire : Store → Text → Text → Text → Text → Acquired × Store
  acquire s upstream_url fingerprint trust_domain_id policy_hash =
      let key = flight_key upstream_url fingerprint trust_domain_id policy_hash in
      elim (Maps.get key s.flights) [
        | some sender ↦ let (rx, w) = subscribe s.world sender in (waits rx, record s { world = w })
        | none ↦
            let (tx, w) = channel s.world in
            (leads key, record { flights = Maps.insert key tx s.flights; world = w })
      ]

  -- `remove`, `send`, and the drop of the removed sender at the end of the block.
  unfoldable pub finish : Store → Text → Option CapturedResponse → Store
  finish s key message = elim (Maps.get key s.flights) [
    | some sender ↦ record {
      flights = Maps.remove key s.flights;
      world = release (send s.world sender message) sender;
    }
    | none ↦ s
  ]

  unfoldable pub complete : Store → Text → CapturedResponse → Store
  unfolding finish
  complete s key response = finish s key (some response)

  unfoldable pub cancel : Store → Text → Store
  unfolding finish
  cancel s key = finish s key none

  -- The keys in flight, each with the number of its receivers.
  unfoldable pub active_flights : Store → List (Text × ℕ)
  active_flights s = map (λ (key, tx). (key, b.receiver_count s.world tx)) s.flights

  -- The methods that change the store, as calls of a history.
  pub data Call : Type 0 where
    acquires : Text → Text → Text → Text → Call
    completes : Text → CapturedResponse → Call
    cancels : Text → Call

  unfoldable pub step : Store → Call → Store
  step s (acquires u f t p) = (acquire s u f t p).1
  step s (completes key response) = complete s key response
  step s (cancels key) = cancel s key

  unfoldable pub run : Store → List Call → Store
  unfolding step
  run s [] = s
  run s (c ∷ cs) = run (step s c) cs

  -- Whether a call leaves the flight of a key in the air.
  abbrev pub spares : Text → Call → Bool
  spares key (acquires u f t p) = true
  spares key (completes j response) = not (text_eq j key)
  spares key (cancels j) = not (text_eq j key)
