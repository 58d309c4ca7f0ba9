-- ===== src/Shield/Coalesce/Delivery.antt =====
-- Single flight: who leads, what the waiters of a flight receive, and when a flight stays up.
use toche.Prelude.{
  List, [], ◌∷◌, Option, none, some, Option-cases, true, not, inl, inr, Text, text_eq, text_eq_iff,
  all, ◌≡◌, ◌≢◌, refl, sym, ◌∙◌, ap, arith,
}
use toche.Prelude.Maps
use toche.Prelude.Maps.{get-insert_ne, get-insert_self, get-remove_ne, get-remove_self}
use toche.Shield.Broadcast.{Broadcast, pending, ready}
use toche.Shield.Coalesce.{
  CapturedResponse, Store, waits, acquire, finish, complete, cancel, Call, acquires, completes,
  cancels, step, run, spares, flight_key,
}
use toche.Shield.Coalesce.Flights.{IsValid, step-IsValid}

module _ (b : Broadcast (Option CapturedResponse)) where
  open b use {Receiver, source, recv}

  -- A receiver that listens to the flight of a key and has received nothing yet.
  pub record Watches (k : Text) (r : Receiver) (s : Store b) : Type 0 where
    pub listed : Maps.get k s.flights ≡ some (source r)
    pub silent : recv s.world r ≡ pending

  module _ (k : Text) (r : Receiver) where
    acquire-Watches :
        (s : Store b) (u f t p : Text) → Watches k r s → Watches k r (acquire b s u f t p).1
    unfolding acquire
    acquire-Watches s u f t p w = elim (Option-cases (Maps.get key s.flights)) [
      | inl free ↦
          rw (free, acquire)
            (record {
              listed = get-insert_ne key k _ s.flights (λ e. cc) ∙ w.listed;
              silent = b.recv-channel s.world r w.silent;
            })
      | inr (tx, busy) ↦
          rw (busy, acquire)
            (record { listed = w.listed; silent = b.recv-subscribe s.world tx r w.silent })
    ]
      where
        key : Text
        key = flight_key u f t p

    finish-Watches :
        (s : Store b) (j : Text) (m : Option CapturedResponse)
        → IsValid b s
        → j ≢ k
        → Watches k r s
        → Watches k r (finish b s j m)
    unfolding finish
    finish-Watches s j m v other w = elim (Option-cases (Maps.get j s.flights)) [
      | inl free ↦ rw (free, finish) w
      | inr (tx, busy) ↦
          let apart =
            λ (e : source r ≡ tx). other (v.distinct j k tx busy (w.listed ∙ ap some e)) in
          rw (busy, finish)
            (record {
              listed = get-remove_ne j k s.flights other ∙ w.listed;
              silent =
                  b.recv-release_ne _ tx r apart (b.recv-send_ne s.world tx r m apart w.silent);
            })
    ]

    spared_ne : (j : Text) → not (text_eq j k) ≡ true → j ≢ k
    spared_ne j h e = ground (arith, text_eq_iff j k)

    pub step-Watches :
        (s : Store b) (c : Call b)
        → IsValid b s
        → spares b k c ≡ true
        → Watches k r s
        → Watches k r (step b s c)
    unfolding step complete cancel
    step-Watches s (acquires u f t p) v h w = acquire-Watches s u f t p w
    step-Watches s (completes j response) v h w =
        finish-Watches s j (some response) v (spared_ne j h) w
    step-Watches s (cancels j) v h w = finish-Watches s j none v (spared_ne j h) w

    pub run-Watches :
        (s : Store b) (cs : List (Call b))
        → IsValid b s
        → all (spares b k) cs ≡ true
        → Watches k r s
        → Watches k r (run b s cs) × IsValid b (run b s cs)
    unfolding run
    run-Watches s [] v h w = (w, v)
    run-Watches s (c ∷ cs) v h w =
        run-Watches (step b s c) cs (step-IsValid b s c v) (ground arith)
          (step-Watches s c v (ground arith) w)

    pub finish-delivers :
        (s : Store b) (m : Option CapturedResponse)
        → Watches k r s
        → (recv (finish b s k m).world r ≡ ready m) × (Maps.get k (finish b s k m).flights ≡ none)
    unfolding finish
    finish-delivers s m w =
        rw (w.listed, finish)
          (
            b.recv-release_ready _ _ r m (b.recv-send_self s.world r m w.silent),
            get-remove_self k s.flights,
          )

  -- A request that finds its key in flight waits, on a receiver of that flight.
  pub acquire-waits :
      (s : Store b) (u f t p : Text)
      → IsValid b s
      → Maps.get (flight_key u f t p) s.flights ≢ none
      → (r : Receiver) × ((acquire b s u f t p).0 ≡ waits r)
        × Watches (flight_key u f t p) r (acquire b s u f t p).1
  unfolding acquire
  acquire-waits s u f t p v there = elim (Option-cases (Maps.get (flight_key u f t p) s.flights)) [
    | inl free ↦ absurd (there free)
    | inr (tx, busy) ↦
        rw (busy, acquire)
          (
            (b.subscribe s.world tx).0,
            refl,
            record {
              listed = busy ∙ ap some (sym (b.source-subscribe s.world tx));
              silent = b.recv-subscribe_new s.world tx (v.opened _ tx busy);
            },
          )
  ]
