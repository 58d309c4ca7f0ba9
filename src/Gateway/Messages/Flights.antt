-- ===== src/Gateway/Messages/Flights.antt =====
-- src/gateway/routes.rs: when the flight of a leader ends.
use toche.Prelude.{
  ℕ, List, [], ◌∷◌, Option, none, some, Bool, false, ◌||◌, ◌&&◌, Text, text_eq, text_eq_iff, ◌≡◌,
  arith, refl, Option-cases, Bool-cases, inl, inr, if◌then◌else◌,
}
use toche.Prelude.Maps.{Map}
use toche.Prelude.Maps
use toche.Protocol.{anthropic, Protocol}
use toche.Reduce.Transform.{Env}
use toche.Shield.Broadcast.{Broadcast}
use toche.Shield.Coalesce.{CapturedResponse, Store, complete, finish}
use toche.Gateway.Handler.{
  ForwardedResponse, Permit, granted, timed_out, no_more_permits, Sent, send_failed, replied,
  reused, forward_to_upstream, upstream_url,
}
use toche.Gateway.Bodies.{collect}
use toche.Gateway.Reuse.{check_cache, Response}
use toche.Gateway.Rewrite.{Bypass, Rewritten, rewrite}
use toche.Gateway.Messages.{
  Outside, Settings, Led, refused, served, State, answer, miss, lead, finish_task, serve,
  with_counts, task_key, with_permit, lead_from, register_hashes,
}

not_cached :
    (p : Protocol) (max : ℕ) (sent : Sent) (r : ForwardedResponse)
    → forward_to_upstream p max sent ≡ some r
    → r.local_cache_hit ≡ false
unfolding forward_to_upstream reused
not_cached p max send_failed r e = cc
not_cached p max (replied status headers items) r e = elim (Option-cases (collect max [] items)) [
  | inl too_large ↦ absurd (ground (arith, too_large))
  | inr (body, taken) ↦ ground (arith, taken)
]

module _ (env : Env) (lossy : List ℕ → Text) (b : Broadcast (Option CapturedResponse)) where
  open env use {fs}

  get-complete :
      (st : Store b) (key j : Text) (r : CapturedResponse)
      → Maps.get j (complete b st key r).flights
        ≡ (if text_eq key j then none else Maps.get j st.flights)
  unfolding complete finish
  get-complete st key j r = elim (Option-cases (Maps.get key st.flights)) [
    | inl absent ↦ ground (arith, absent, text_eq_iff key j)
    | inr (tx, there) ↦ ground (arith, there, Maps.get-remove key j st.flights)
  ]

  -- Whether a leader, once its task has ended, has given its flight an end.
  unfoldable pub is_ended : Outside → Led → Bool
  is_ended o (refused status) = false
  is_ended o (served r key) = r.local_cache_hit || o.opens_ledger

  -- What the flights of the store come to.
  abbrev Ends : Text → Outside → Map b.Sender → Led × State env lossy b → Type 0
  Ends key o flights (led, s) =
      (j : Text)
      → Maps.get j s.store.flights
        ≡ (if is_ended o led && text_eq key j then none else Maps.get j flights)

  answer-Ends :
      (set : Settings) (o : Outside) (bypass : Bypass) (c : ℕ) (k body : Text) (done : Rewritten)
      → (s : State env lossy b) (r : Option ForwardedResponse)
      → ((f : ForwardedResponse) → r ≡ some f → f.local_cache_hit ≡ false)
      → Ends
          (c ∷ k)
          o
          s.store.flights
          (finish_task env lossy b o (answer env lossy b set o bypass (c ∷ k) body done s r))
  unfolding answer finish_task is_ended with_counts task_key
  answer-Ends set o bypass c k body done s none fresh j = refl
  answer-Ends set o bypass c k body done s (some f) fresh j = elim (Bool-cases o.opens_ledger) [
    | inl on ↦
        rw (fresh f refl, on)
          (get-complete s.store (c ∷ k) j (record { status = f.status; body_bytes = f.body_bytes }))
    | inr off ↦ rw (fresh f refl, off) refl
  ]

  permit-Ends :
      (o : Outside) (c : ℕ) (k : Text) (p : Permit) (s : State env lossy b)
      → (after : Led × State env lossy b)
      → Ends (c ∷ k) o s.store.flights (finish_task env lossy b o after)
      → Ends
          (c ∷ k)
          o
          s.store.flights
          (finish_task env lossy b o (with_permit env lossy b p s after))
  unfolding with_permit finish_task is_ended
  permit-Ends o c k granted s after h j = h j
  permit-Ends o c k timed_out s after h j = refl
  permit-Ends o c k no_more_permits s after h j = refl

  lead-Ends :
      (set : Settings) (o : Outside) (bypass : Bypass) (sent : Map Text) (c : ℕ) (k body : Text)
      → (s : State env lossy b) (hit : Option Response)
      → Ends
          (c ∷ k)
          o
          s.store.flights
          (finish_task env lossy b o (lead_from env lossy b set o bypass sent (c ∷ k) body s hit))
  unfolding lead_from miss finish_task is_ended reused
  lead-Ends set o bypass sent c k body s (some r) j =
      get-complete s.store (c ∷ k) j (record { status = r.status; body_bytes = r.body_bytes })
  lead-Ends set o bypass sent c k body s none j =
      let (done, files) = rewrite env set.resolved bypass body s.files in
      let db = register_hashes o.opens_for_register done.reduction.hashes s.db in
      let s' : State env lossy b = record s { db = db; files = files } in
      let sent_back = o.upstream (upstream_url set.resolved anthropic) sent done.final_body in
      let fwd = forward_to_upstream anthropic set.max_response_body_bytes sent_back in
      permit-Ends o c k o.permit s' (answer env lossy b set o bypass (c ∷ k) body done s' fwd)
        (answer-Ends set o bypass c k body done s' fwd
          (λ f e. not_cached anthropic set.max_response_body_bytes sent_back f e))
        j

  -- A request that leads a flight and runs to the end of its task ends this flight exactly where its
  -- response came from the cache, or was served and the ledger could be opened. Where it is refused,
  -- and where the ledger cannot be opened, the flight stays in the store with its waiters. No other
  -- flight is touched.
  pub serve_ends :
      (set : Settings) (o : Outside) (bypass : Bypass) (sent : Map Text) (c : ℕ) (k body : Text)
      → (s : State env lossy b) (j : Text)
      → Maps.get j (serve env lossy b set o bypass sent (c ∷ k) body s).1.store.flights ≡ (
          if is_ended o (serve env lossy b set o bypass sent (c ∷ k) body s).0 && text_eq (c ∷ k) j
          then none
          else Maps.get j s.store.flights)
  unfolding serve lead
  serve_ends set o bypass sent c k body s j =
      let checked =
        check_cache env set.resolved.safe_cache bypass.safe_cache o.opens_for_lookup o.place s.db
          s.files in
      lead-Ends set o bypass sent c k body (record s { db = checked.1 }) checked.0 j
