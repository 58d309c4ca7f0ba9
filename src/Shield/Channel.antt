-- ===== src/Shield/Channel.antt =====
-- A concrete channel, on which the laws of `Broadcast` hold.
use toche.Prelude.{
  ℕ, suc, ◌<◌, List, [], ◌∷◌, ◌++◌, Option, none, some, true, Bool-cases, ◌≡◌, ◌≢◌, refl, arith,
  length, length-append, drop, drop-append_le, drop-length, leb→le, inl, inr, ◌==◌, leb,
  if◌then◌else◌,
}
use toche.Shield.Broadcast.{Broadcast, Poll, pending, ready, closed}

module _ {V : Type 0} where
  -- The first entry of a channel in a log of what was sent (`some`) and dropped (`none`).
  abbrev scan : ℕ → List (ℕ × Option V) → Poll V
  scan s [] = pending
  scan s ((t, none) ∷ log) = if t == s then closed else scan s log
  scan s ((t, some v) ∷ log) = if t == s then ready v else scan s log

  abbrev receive : List (ℕ × Option V) → ℕ → ℕ → Poll V
  receive log s at = if leb at (length log) then scan s (drop at log) else closed

  pub scan_self :
      (s : ℕ) (v : V) (log : List (ℕ × Option V))
      → scan s log ≡ pending
      → scan s (log ++ (s, some v) ∷ []) ≡ ready v
  scan_self s v [] h = ground arith
  scan_self s v ((t, none) ∷ log) h = ground (arith, scan_self s v log)
  scan_self s v ((t, some x) ∷ log) h = ground (arith, scan_self s v log)

  pub scan_ne :
      (s t : ℕ) (e : Option V) (log : List (ℕ × Option V))
      → s ≢ t
      → scan s log ≡ pending
      → scan s (log ++ (t, e) ∷ []) ≡ pending
  scan_ne s t none [] n h = ground arith
  scan_ne s t (some v) [] n h = ground arith
  scan_ne s t e ((i, none) ∷ log) n h = ground (arith, scan_ne s t e log n)
  scan_ne s t e ((i, some x) ∷ log) n h = ground (arith, scan_ne s t e log n)

  pub scan_ready :
      (s t : ℕ) (e : Option V) (v : V) (log : List (ℕ × Option V))
      → scan s log ≡ ready v
      → scan s (log ++ (t, e) ∷ []) ≡ ready v
  scan_ready s t e v [] h = cc
  scan_ready s t e v ((i, none) ∷ log) h = ground (arith, scan_ready s t e v log)
  scan_ready s t e v ((i, some x) ∷ log) h = ground (arith, scan_ready s t e v log)

  -- A reading of the log after one more entry.
  pub receive_more :
      (log : List (ℕ × Option V)) (s at : ℕ) (e : ℕ × Option V) (x y : Poll V)
      → x ≢ closed
      → (scan s (drop at log) ≡ x → scan s (drop at log ++ e ∷ []) ≡ y)
      → receive log s at ≡ x
      → receive (log ++ e ∷ []) s at ≡ y
  receive_more log s at e x y open_ more h = elim (Bool-cases (leb at (length log))) [
    | inl within ↦
        let fits : leb at (length (log ++ e ∷ [])) ≡ true =
          ground (arith, length-append log (e ∷ [])) in
        rw (fits, drop-append_le at log (e ∷ []) (leb→le at (length log) within))
          (more (rw within at h))
    | inr beyond ↦ absurd (open_ (ground arith))
  ]

  pub receive_new : (log : List (ℕ × Option V)) (s : ℕ) → receive log s (length log) ≡ pending
  receive_new log s =
      let within : leb (length log) (length log) ≡ true = ground arith in
      rw (within, drop-length log)

  pub pending-ne-closed : ◌≢◌ {A = Poll V} pending closed
  pending-ne-closed e = cc

  pub ready-ne-closed : (v : V) → ready v ≢ closed
  ready-ne-closed v e = cc

-- The log channel: a sender is a number, a receiver a sender with its place in the log.
abbrev pub log_channel : (V : Type 0) → Broadcast V
log_channel V = record {
  World = ℕ × List (ℕ × Option V);
  Sender = ℕ;
  Receiver = ℕ × ℕ;
  channel = λ (n, log). (n, (suc n, log));
  subscribe = λ (n, log) s. ((s, length log), (n, log));
  send = λ (n, log) s v. (n, log ++ (s, some v) ∷ []);
  release = λ (n, log) s. (n, log ++ (s, none) ∷ []);
  recv = λ (n, log) (s, at). receive log s at;
  receiver_count = λ w s. 0;
  source = λ (s, at). s;
  IsOpen = λ (n, log) s. s < n;
  channel_open = λ w. omega arith;
  channel_new = λ w s h e. absurd (omega arith);
  channel_keeps = λ w s h. omega arith;
  subscribe_keeps = λ w s t h. h;
  send_keeps = λ w s t v h. h;
  release_keeps = λ w s t d h. h;
  source-subscribe = λ w s. refl;
  recv-subscribe_new = λ w s h. receive_new w.1 s;
  recv-subscribe = λ w s r h. h;
  recv-channel = λ w r h. h;
  recv-send_self = λ w r v h.
      receive_more w.1 r.0 r.1 (r.0, some v) pending (ready v) pending-ne-closed
        (scan_self r.0 v (drop r.1 w.1)) h;
  recv-send_ne = λ w s r v d h.
      receive_more w.1 r.0 r.1 (s, some v) pending pending pending-ne-closed
        (scan_ne r.0 s (some v) (drop r.1 w.1) d) h;
  recv-release_ready = λ w s r v h.
      receive_more w.1 r.0 r.1 (s, none) (ready v) (ready v) (ready-ne-closed v)
        (scan_ready r.0 s none v (drop r.1 w.1)) h;
  recv-release_ne = λ w s r d h.
      receive_more w.1 r.0 r.1 (s, none) pending pending pending-ne-closed
        (scan_ne r.0 s none (drop r.1 w.1) d) h;
}
