-- ===== src/Shield/Broadcast.antt =====
-- The broadcast channels of the `tokio` crate, which src/shield/coalesce.rs only calls: the
-- operations are parameters, and their documented behaviour is stated as laws. A channel's owner
-- holds its `Sender`; a `Receiver` sees what is sent after it subscribed.
use toche.Prelude.{ℕ, ◌≡◌, ◌≢◌}

-- What awaiting `Receiver::recv` finds: nothing yet, a value, or one of the two errors.
pub data Poll (V : Type 0) : Type 0 where
  pending : Poll V
  ready : V → Poll V
  closed : Poll V
  lagged : Poll V

pub record Broadcast (V : Type 0) : Type 1 where
  pub World : Type 0
  pub Sender : Type 0
  pub Receiver : Type 0
  pub channel : World → Sender × World
  pub subscribe : World → Sender → Receiver × World
  pub send : World → Sender → V → World
  pub release : World → Sender → World
  pub recv : World → Receiver → Poll V
  pub receiver_count : World → Sender → ℕ
  -- The channel that a receiver listens to, and whether a sender has been made and not dropped.
  pub source : Receiver → Sender
  pub IsOpen : World → Sender → Type 0
  pub channel_open : (w : World) → IsOpen (channel w).1 (channel w).0
  pub channel_new : (w : World) (s : Sender) → IsOpen w s → s ≢ (channel w).0
  pub channel_keeps : (w : World) (s : Sender) → IsOpen w s → IsOpen (channel w).1 s
  pub subscribe_keeps : (w : World) (s t : Sender) → IsOpen w s → IsOpen (subscribe w t).1 s
  pub send_keeps : (w : World) (s t : Sender) (v : V) → IsOpen w s → IsOpen (send w t v) s
  pub release_keeps : (w : World) (s t : Sender) → s ≢ t → IsOpen w s → IsOpen (release w t) s
  pub source-subscribe : (w : World) (s : Sender) → source (subscribe w s).0 ≡ s
  pub recv-subscribe_new :
      (w : World) (s : Sender) → IsOpen w s → recv (subscribe w s).1 (subscribe w s).0 ≡ pending
  pub recv-subscribe :
      (w : World) (s : Sender) (r : Receiver)
      → recv w r ≡ pending
      → recv (subscribe w s).1 r ≡ pending
  pub recv-channel :
      (w : World) (r : Receiver) → recv w r ≡ pending → recv (channel w).1 r ≡ pending
  pub recv-send_self :
      (w : World) (r : Receiver) (v : V)
      → recv w r ≡ pending
      → recv (send w (source r) v) r ≡ ready v
  pub recv-send_ne :
      (w : World) (s : Sender) (r : Receiver) (v : V)
      → source r ≢ s
      → recv w r ≡ pending
      → recv (send w s v) r ≡ pending
  pub recv-release_ready :
      (w : World) (s : Sender) (r : Receiver) (v : V)
      → recv w r ≡ ready v
      → recv (release w s) r ≡ ready v
  pub recv-release_ne :
      (w : World) (s : Sender) (r : Receiver)
      → source r ≢ s
      → recv w r ≡ pending
      → recv (release w s) r ≡ pending
