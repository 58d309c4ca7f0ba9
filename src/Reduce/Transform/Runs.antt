-- ===== src/Reduce/Transform/Runs.antt =====
-- src/reduce/transform.rs: the reduction of a request goes through steps on its blocks.
use toche.Prelude.{
  if◌then◌else◌, ◌||◌, ◌⊎◌, not, not, ◌⊎◌, List, [], ◌∷◌, Option, none, some, Bool, Text, codes,
  Result, ok, err, ◌≡◌, arith, Option-cases, Bool-cases, Result-cases, inl, inr, refl, ap, sym,
}
use toche.Json.Arrays.{array_field}
use toche.Config.Types.{ReduceConfig}
use toche.Reduce.Commands.{ToolMap, build_tool_map}
use toche.Reduce.Transform.{
  Env, ReductionResult, reduce_blocks, reduce_messages, put_out, start, reduce_body_at,
}
use toche.Reduce.Commands.Uses.{Use, IsMapOf, uses_in, build_tool_map-IsMapOf}
use toche.Reduce.Transform.Blocks.{put_ok, reduce_blocks-Steps}
use toche.Reduce.Transform.Choices.{}
use toche.Reduce.Transform.Steps.{Run, finished, plain, blocks}

module _ (env : Env) where
  open env use {json, api, fs, digest}
  open json use {Value, get, set, array}
  open fs use {Files}

  content_step :
      (config : ReduceConfig) (calls : ToolMap json) (uses : List (Use json))
      (agree : IsMapOf json calls uses) (m : Value) (ms ms' bs : List Value)
      → (r r' : ReductionResult) (s s' : Files) → array_field json (codes "content") m ≡ some bs
      → ((q : ReductionResult) (t : Files) (ws : List Value)
          → reduce_messages env config calls ms q t ≡ (ok (ws, r'), s')
          → Run env config uses ms (q, t) ws (r', s'))
      → reduce_messages env config calls (m ∷ ms) r s ≡ (ok (ms', r'), s')
      → (d : Result (List Value × ReductionResult)) (t : Files)
      → reduce_blocks env config calls bs r s ≡ (d, t)
      → Run env config uses (m ∷ ms) (r, s) ms' (r', s')
  unfolding reduce_messages
  content_step config calls uses agree m ms ms' bs r r' s s' k later e (ok (bs', q)) t is =
      let (ws, e', same) =
        put_ok env (set (codes "content") (array bs') m) (reduce_messages env config calls ms q t)
          ms' r' s' (ground (arith, k, is)) in
      rw (sym same) (
        blocks m ms ws bs bs' (r, s) (q, t) (r', s') k
          (reduce_blocks-Steps env config calls uses agree bs bs' r q s t is) (later q t ws e'))
  content_step config calls uses agree m ms ms' bs r r' s s' k later e (err x) t is =
      absurd (ground (arith, k, is))

  reduce_messages-Run :
      (config : ReduceConfig) (calls : ToolMap json) (uses : List (Use json))
      (agree : IsMapOf json calls uses) (ms ms' : List Value) (r r' : ReductionResult)
      → (s s' : Files) → reduce_messages env config calls ms r s ≡ (ok (ms', r'), s')
      → Run env config uses ms (r, s) ms' (r', s')
  unfolding reduce_messages
  reduce_messages-Run config calls uses agree [] ms' r r' s s' e =
      let nothing : [] ≡ ms' = cc in
      let counts : r ≡ r' = cc in
      let files : s ≡ s' = cc in rw (sym nothing, sym counts, sym files) (finished (r, s))
  reduce_messages-Run config calls uses agree (m ∷ ms) ms' r r' s s' e =
      elim (Option-cases (array_field json (codes "content") m)) [
        | inl other ↦
            let (ws, e', same) =
              put_ok env m (reduce_messages env config calls ms r s) ms' r' s'
                (ground (arith, other)) in
            rw (sym same) (
              plain m ms ws (r, s) (r', s') other
                (reduce_messages-Run config calls uses agree ms ws r r' s s' e'))
        | inr (bs, k) ↦
            content_step config calls uses agree m ms ms' bs r r' s s' k
              (λ q t ws h. reduce_messages-Run config calls uses agree ms ws q r' t s' h) e
              (reduce_blocks env config calls bs r s).0 (reduce_blocks env config calls bs r s).1
              refl
      ]

  put_out_ok :
      (root : Value) (x : Result (List Value × ReductionResult) × Files) (r' : ReductionResult)
      → (s' : Files) → put_out env root x ≡ (ok r', s')
      → (ms : List Value) × (r : ReductionResult) × (x ≡ (ok (ms, r), s'))
        × (json.to_string (set (codes "messages") (array ms) root) ≡ ok r'.modified_body)
        × (record r { modified_body = r'.modified_body } ≡ r')
  unfolding put_out
  put_out_ok root (err m, s) r' s' e = cc
  put_out_ok root (ok (ms, r), s) r' s' e =
      elim (Result-cases (json.to_string (set (codes "messages") (array ms) root))) [
        | inl (body, printed) ↦
            let changed : record r { modified_body = body } ≡ r' = ground (arith, printed) in
            let files : s ≡ s' = ground (arith, printed) in
            (
              ms,
              r,
              ap (λ t. (ok (ms, r), t)) files,
              rw (sym changed) printed,
              rw (sym changed) refl,
            )
        | inr (m, unprinted) ↦ absurd (ground (arith, unprinted))
      ]

  -- The value that a body is read as, with its messages: nothing where the reduction is off or
  -- bypassed, or where the body is no value with an array of messages.
  unfoldable pub target : Text → ReduceConfig → Bool → Option (Value × List Value)
  target body config bypass_header =
      if not config.enabled || bypass_header then none else elim (json.from_str body) [
        | err e ↦ none
        | ok root ↦ elim (array_field json (codes "messages") root) [
          | none ↦ none
          | some ms ↦ some (root, ms)
        ]
      ]

  -- A reduction that succeeds leaves the body and the stored blobs alone, where it is off or
  -- bypassed or the body is no value with an array of messages. Otherwise the messages went through
  -- the steps on their blocks in order, each tool result with the name of the last call of
  -- the request that has its id, and with the command line of the last such call that runs one,
  -- failing that with the name: it passes exactly where that name is listed for a
  -- bypass, where it has no text or where no filter is for the command, and is else stored and
  -- replaced by what the first filter that fits makes of its text, with the marker. The new body is
  -- the value of the old one with the messages that the steps led to.
  pub reduce_body_at-Run :
      (body : Text) (config : ReduceConfig) (bypass_header : Bool) (s s' : Files)
      → (r : ReductionResult) → reduce_body_at env body config bypass_header s ≡ (ok r, s')
      → ((target body config bypass_header ≡ none) × (r ≡ start body) × (s ≡ s'))
        ⊎ ((root : Value) × (ms : List Value) × (ms' : List Value) × (q : ReductionResult) × (target
                body config bypass_header
              ≡ some (root, ms))
            × Run env config (uses_in json root) ms (start body, s) ms' (q, s')
            × (json.to_string (set (codes "messages") (array ms') root) ≡ ok r.modified_body)
            × (record q { modified_body = r.modified_body } ≡ r))
  unfolding reduce_body_at target
  reduce_body_at-Run body config bypass_header s s' r e =
      elim (Bool-cases (not config.enabled || bypass_header)) [
        | inl off ↦ inl (ground (arith, off), ground (arith, off), ground (arith, off))
        | inr on ↦ elim (Result-cases (json.from_str body)) [
          | inr (m, unread) ↦
              inl
                (ground (arith, on, unread), ground (arith, on, unread), ground (arith, on, unread))
          | inl (root, read) ↦ elim (Option-cases (array_field json (codes "messages") root)) [
            | inl bare ↦ inl (
              ground (arith, on, read, bare),
              ground (arith, on, read, bare),
              ground (arith, on, read, bare),
            )
            | inr (ms, there) ↦
                let (ms', q, walked, printed, same) =
                  put_out_ok root
                    (reduce_messages env config (build_tool_map json root) ms (start body) s) r s'
                    (ground (arith, on, read, there)) in
                inr (
                  root,
                  ms,
                  ms',
                  q,
                  ground (arith, on, read, there),
                  reduce_messages-Run config (build_tool_map json root) (uses_in json root)
                      (build_tool_map-IsMapOf json root) ms ms' (start body) q s s' walked,
                  printed,
                  same,
                )
          ]
        ]
      ]
