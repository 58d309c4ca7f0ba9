-- ===== src/Shield/Coalesce/Flights.antt =====
-- Single flight: who leads, what the waiters of a flight receive, and when a flight stays up.
use toche.Prelude.{
  [], ◌∷◌, ◌∷◌, List, Option, none, some, Option-cases, inl, inr, Text, ◌≡◌, ◌≢◌, ◌⊎◌, subst, sym,
  ◌∙◌, ap,
}
use toche.Prelude.Maps
use toche.Prelude.Maps.{
  Map, get-insert-cases, get-remove-cases, get-insert_ne, get-remove_ne, get-insert_self,
  get-remove_self,
}
use toche.Shield.Broadcast.{Broadcast, pending}
use toche.Shield.Coalesce.{
  run, new, CapturedResponse, Store, acquire, finish, complete, cancel, Call, acquires, completes,
  cancels, step, flight_key,
}

module _ (b : Broadcast (Option CapturedResponse)) where
  open b use {Receiver, Sender, IsOpen, source, recv}

  -- Every flight has an open channel of its own.
  pub record IsValid (s : Store b) : Type 0 where
    pub opened : (k : Text) (tx : Sender) → Maps.get k s.flights ≡ some tx → IsOpen s.world tx
    pub distinct :
        (k j : Text) (tx : Sender)
        → Maps.get k s.flights ≡ some tx
        → Maps.get j s.flights ≡ some tx
        → k ≡ j

  -- A receiver that listens to the flight of a key and has received nothing yet.
  pub record Watches (k : Text) (r : Receiver) (s : Store b) : Type 0 where
    pub listed : Maps.get k s.flights ≡ some (source r)
    pub silent : recv s.world r ≡ pending

  lead-IsValid :
      (s : Store b) (k : Text)
      → IsValid s
      → Maps.get k s.flights ≡ none
      → IsValid (record s {
        flights = Maps.insert k (b.channel s.world).0 s.flights;
        world = (b.channel s.world).1;
      })
  lead-IsValid s k v free = record {
    opened = λ j ty h. elim (get-insert-cases k j tx ty s.flights h) [
      | inl (_, new) ↦ subst (IsOpen (b.channel s.world).1) new (b.channel_open s.world)
      | inr (_, old) ↦ b.channel_keeps s.world ty (v.opened j ty old)
    ];
    distinct = λ i j ty h h'.
        same i j ty (get-insert-cases k i tx ty s.flights h)
          (get-insert-cases k j tx ty s.flights h');
  }
    where
      tx : Sender
      tx = (b.channel s.world).0

      Found : Text → Sender → Type 0
      Found j ty = ((k ≡ j) × (tx ≡ ty)) ⊎ ((k ≢ j) × (Maps.get j s.flights ≡ some ty))

      same : (i j : Text) (ty : Sender) → Found i ty → Found j ty → i ≡ j
      same i j ty (inl (ki, _)) (inl (kj, _)) = sym ki ∙ kj
      same i j ty (inl (_, new)) (inr (_, old)) =
          absurd (b.channel_new s.world ty (v.opened j ty old) (sym new))
      same i j ty (inr (_, old)) (inl (_, new)) =
          absurd (b.channel_new s.world ty (v.opened i ty old) (sym new))
      same i j ty (inr (_, oi)) (inr (_, oj)) = v.distinct i j ty oi oj

  removed-IsValid :
      (s : Store b) (k : Text) (tx : Sender) (m : Option CapturedResponse)
      → IsValid s
      → Maps.get k s.flights ≡ some tx
      → IsValid (record s {
        flights = Maps.remove k s.flights;
        world = b.release (b.send s.world tx m) tx;
      })
  removed-IsValid s k tx m v busy = record {
    opened = λ j ty h.
        let (other, old) = get-remove-cases k j ty s.flights h in
        b.release_keeps (b.send s.world tx m) ty tx
          (λ e. other (v.distinct k j ty (busy ∙ ap some (sym e)) old))
          (b.send_keeps s.world ty tx m (v.opened j ty old));
    distinct = λ i j ty h h'.
        v.distinct i j ty (get-remove-cases k i ty s.flights h).1
          (get-remove-cases k j ty s.flights h').1;
  }

  pub acquire-IsValid : (s : Store b) (u f t p : Text) → IsValid s → IsValid (acquire b s u f t p).1
  unfolding acquire
  acquire-IsValid s u f t p v = elim (Option-cases (Maps.get (flight_key u f t p) s.flights)) [
    | inl free ↦ rw (free, acquire) (lead-IsValid s (flight_key u f t p) v free)
    | inr (tx, busy) ↦
        rw (busy, acquire)
          (record {
            opened = λ j ty h. b.subscribe_keeps s.world ty tx (v.opened j ty h);
            distinct = v.distinct;
          })
  ]

  finish-IsValid :
      (s : Store b) (k : Text) (m : Option CapturedResponse) → IsValid s → IsValid (finish b s k m)
  unfolding finish
  finish-IsValid s k m v = elim (Option-cases (Maps.get k s.flights)) [
    | inl free ↦ rw (free, finish) v
    | inr (tx, busy) ↦ rw (busy, finish) (removed-IsValid s k tx m v busy)
  ]

  -- Whatever is called, every flight keeps an open channel of its own.
  pub step-IsValid : (s : Store b) (c : Call b) → IsValid s → IsValid (step b s c)
  unfolding step complete cancel
  step-IsValid s (acquires u f t p) v = acquire-IsValid s u f t p v
  step-IsValid s (completes k response) v = finish-IsValid s k (some response) v
  step-IsValid s (cancels k) v = finish-IsValid s k none v

  pub run-IsValid : (s : Store b) (cs : List (Call b)) → IsValid s → IsValid (run b s cs)
  unfolding run
  run-IsValid s [] v = v
  run-IsValid s (c ∷ cs) v = run-IsValid (step b s c) cs (step-IsValid s c v)

  new-IsValid : (w : b.World) → IsValid (new b w)
  unfolding new Maps.get
  new-IsValid w = record { opened = λ k tx h. cc; distinct = λ k j tx h h'. cc }

  -- Whatever was called since the store was made, each flight has an open channel of its own.
  pub history-IsValid : (w : b.World) (cs : List (Call b)) → IsValid (run b (new b w) cs)
  history-IsValid w cs = run-IsValid (new b w) cs (new-IsValid w)
