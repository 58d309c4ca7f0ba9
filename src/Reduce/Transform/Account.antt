-- ===== src/Reduce/Transform/Account.antt =====
-- src/reduce/transform.rs: the counts of a reduction.
use toche.Prelude.{
  if◌then◌else◌, length-append, ℕ, suc, ◌+◌, List, [], ◌∷◌, Option, none, some, Bool, Text, codes,
  ◌≡◌, arith, inl, inr, refl, sym, ok, length,
}
use toche.Json.Arrays.{array_field}
use toche.Config.Types.{ReduceConfig}
use toche.Reduce.Commands.Uses.{Use, uses_in}
use toche.Reduce.Contents.{has_kind}
use toche.Reduce.Transform.{
  Env, ReductionResult, count_passed, count_reduced, start, reduce_body_at,
}
use toche.Reduce.Transform.Steps.{
  Step, skip, pass, change, Steps, none_left, one_more, Run, finished, plain, blocks,
}
use toche.Reduce.Transform.Runs.{reduce_body_at-Run, target}

module _ (env : Env) where
  open env use {json, fs}
  open json use {Value}
  open fs use {Files}

  -- The tool results in the arrays of blocks.
  unfoldable pub results_in : List Value → ℕ
  results_in [] = 0
  results_in (b ∷ bs) =
      let n = results_in bs in if has_kind json (codes "tool_result") b then suc n else n

  unfoldable pub tool_results : List Value → ℕ
  unfolding results_in
  tool_results [] = 0
  tool_results (m ∷ ms) =
      let n = tool_results ms in
      elim (array_field json (codes "content") m) [ none ↦ n | some bs ↦ results_in bs + n ]

  -- The tool results that the counts have seen.
  abbrev seen : ReductionResult → ℕ
  seen r = r.reductions + r.passthroughs

  Step-hashes :
      (config : ReduceConfig) (uses : List (Use json)) {b b' : Value}
      {x y : ReductionResult × Files}
      → Step env config uses b x b' y
      → length x.0.hashes ≡ x.0.reductions
      → length y.0.hashes ≡ y.0.reductions
  unfolding count_passed count_reduced
  Step-hashes config uses (skip b x k) h = h
  Step-hashes config uses (pass b r s k why) h = h
  Step-hashes config uses (change b b' r s s' f c t hash raw small k n x m p q u v) h =
      omega (arith, length-append r.hashes (hash ∷ []))

  Step-seen :
      (config : ReduceConfig) (uses : List (Use json)) {b b' : Value}
      {x y : ReductionResult × Files}
      → Step env config uses b x b' y
      → seen y.0 ≡ results_in (b ∷ []) + seen x.0
  unfolding count_passed count_reduced results_in
  Step-seen config uses (skip b x k) = ground (arith, k)
  Step-seen config uses (pass b r s k why) = ground (arith, k)
  Step-seen config uses (change b b' r s s' f c t hash raw small k n x m p q u v) =
      ground (arith, k)

  Steps-seen :
      (config : ReduceConfig) (uses : List (Use json)) {bs bs' : List Value}
      → {x y : ReductionResult × Files} → Steps env config uses bs x bs' y
      → seen y.0 ≡ results_in bs + seen x.0
  unfolding results_in
  Steps-seen config uses (none_left x) = omega arith
  Steps-seen config uses (one_more b b' bs bs' x y z now later) =
      ground (arith, Step-seen config uses now, Steps-seen config uses later)

  Steps-hashes :
      (config : ReduceConfig) (uses : List (Use json)) {bs bs' : List Value}
      → {x y : ReductionResult × Files} → Steps env config uses bs x bs' y
      → length x.0.hashes ≡ x.0.reductions
      → length y.0.hashes ≡ y.0.reductions
  Steps-hashes config uses (none_left x) h = h
  Steps-hashes config uses (one_more b b' bs bs' x y z now later) h =
      Steps-hashes config uses later (Step-hashes config uses now h)

  run_seen :
      (config : ReduceConfig) (uses : List (Use json)) {ms ms' : List Value}
      → {x y : ReductionResult × Files} → Run env config uses ms x ms' y
      → seen y.0 ≡ tool_results ms + seen x.0
  unfolding tool_results
  run_seen config uses (finished x) = omega arith
  run_seen config uses (plain m ms ms' x y k later) = ground (arith, k, run_seen config uses later)
  run_seen config uses (blocks m ms ms' bs bs' x y z k now later) =
      ground (arith, k, Steps-seen config uses now, run_seen config uses later)

  run_hashes :
      (config : ReduceConfig) (uses : List (Use json)) {ms ms' : List Value}
      → {x y : ReductionResult × Files} → Run env config uses ms x ms' y
      → length x.0.hashes ≡ x.0.reductions
      → length y.0.hashes ≡ y.0.reductions
  run_hashes config uses (finished x) h = h
  run_hashes config uses (plain m ms ms' x y k later) h = run_hashes config uses later h
  run_hashes config uses (blocks m ms ms' bs bs' x y z k now later) h =
      run_hashes config uses later (Steps-hashes config uses now h)

  -- The tool results of the messages to reduce.
  unfoldable pub eligible : Option (Value × List Value) → ℕ
  unfolding tool_results
  eligible none = 0
  eligible (some (root, ms)) = tool_results ms

  -- A reduction that succeeds counts each tool result of the messages to reduce once, as reduced or
  -- as passed through, and lists one hash for each that it reduced; where there are no messages to
  -- reduce, it counts none.
  pub reduce_body_at-counts :
      (body : Text) (config : ReduceConfig) (bypass_header : Bool) (s s' : Files)
      → (r : ReductionResult) → reduce_body_at env body config bypass_header s ≡ (ok r, s')
      → (r.reductions + r.passthroughs ≡ eligible (target env body config bypass_header))
        × (length r.hashes ≡ r.reductions)
  unfolding eligible start
  reduce_body_at-counts body config bypass_header s s' r e =
      elim (reduce_body_at-Run env body config bypass_header s s' r e) [
        | inl (bare, same, files) ↦ rw (bare, same) (omega arith, refl)
        | inr (root, ms, ms', q, there, walked, printed, same) ↦
            let uses = uses_in json root in
            let total : q.reductions + q.passthroughs ≡ tool_results ms =
              omega (arith, run_seen config uses walked) in
            rw (there, sym same) (total, run_hashes config uses walked refl)
      ]
