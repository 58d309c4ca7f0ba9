-- ===== src/Reduce/Transform/Blocks.antt =====
-- src/reduce/transform.rs: the blocks of a message go through steps.
use toche.Prelude.{
  ◌||◌, ℕ, List, [], ◌∷◌, Bool, true, false, Text, codes, Result, ok, err, ◌≡◌, ◌≢◌, arith,
  Option-cases, Bool-cases, inl, inr, refl, ap, sym, ◌∙◌,
}
use toche.Prelude.Texts.{utf8}
use toche.Config.Types.{ReduceConfig}
use toche.Efficiency.Inject.{tokens_of}
use toche.Reduce.Filter.{CompiledFilter, apply_filter_with_info}
use toche.Reduce.Storage.{store_at}
use toche.Reduce.Commands.{ToolMap}
use toche.Reduce.Contents.{has_kind, extract_text_content, replace_content}
use toche.Reduce.Transform.{
  replace_with, Env, ReductionResult, Outcome, passed, reduced, aborted, count_passed,
  count_reduced, filter_for, filter_cmd, is_bypassed, literal_name, reduce_block, reduce_blocks,
  reduce_text, reduce_with, put, new_content,
}
use toche.SafeCache.Inspect.{is_empty}
use toche.Reduce.Commands.Uses.{Use, IsMapOf}
use toche.Reduce.Transform.Choices.{
  literal_name-answered, filter_cmd-command_for, is_bypassed-is_listed, filter_for-IsFirst,
  filter_for-is_unmatched,
}
use toche.Reduce.Transform.Steps.{
  answered, command_for, is_listed, is_unmatched, Step, skip, pass, change, Steps, none_left,
  one_more,
}

module _ (env : Env) where
  open env use {json, api, fs, digest}
  open json use {Value, get, set, array}
  open fs use {Files}

  or_right : (a : Bool) {b : Bool} → b ≡ true → a || b ≡ true
  or_right true h = refl
  or_right false h = h

  pub put_ok :
      (v : Value) (x : Result (List Value × ReductionResult) × Files) (vs : List Value)
      → (r : ReductionResult) (s : Files) → put env v x ≡ (ok (vs, r), s)
      → (ws : List Value) × (x ≡ (ok (ws, r), s)) × (v ∷ ws ≡ vs)
  put_ok v (ok (ws, q), t) vs r s e = (ws, ground (arith, e), ground (arith, e))
  put_ok v (err m, t) vs r s e = cc

  replace_with_reduced :
      (f : CompiledFilter api) (text : Text) (b b' : Value) (p : Result Text × Files)
      → (raw small : ℕ) (hash : Text) (s' : Files)
      → replace_with env f text b p ≡ (reduced b' raw small hash, s')
      → (p ≡ (ok hash, s'))
        × (replace_content json (new_content env f text hash) b ≡ b')
        × (tokens_of text ≡ raw)
        × (tokens_of (apply_filter_with_info api f text).0 ≡ small)
  unfolding replace_with
  replace_with_reduced f text b b' (ok h, s) raw small hash s' e =
      let same : h ≡ hash = cc in (cc, rw (sym same) cc, cc, cc)
  replace_with_reduced f text b b' (err m, s) raw small hash s' e = cc

  text-Step :
      (config : ReduceConfig) (calls : ToolMap json) (uses : List (Use json))
      (agree : IsMapOf json calls uses) (b b' : Value) (r : ReductionResult)
      → (s s' : Files) (raw small : ℕ) (hash text : Text)
      → has_kind json (codes "tool_result") b ≡ true
      → is_bypassed config (literal_name env calls b) ≡ false
      → extract_text_content json b ≡ text
      → reduce_text env config calls b text s ≡ (reduced b' raw small hash, s')
      → Step env config uses b (r, s) b' (count_reduced raw small hash r, s')
  unfolding reduce_text reduce_with
  text-Step config calls uses agree b b' r s s' raw small hash [] k n x e = cc
  text-Step config calls uses agree b b' r s s' raw small hash (c ∷ t) k n x e =
      elim (Option-cases (filter_for env (filter_cmd env calls b))) [
        | inl unmatched ↦ absurd (ground (arith, unmatched))
        | inr (f, matched) ↦
            let (stored, same, is_raw, is_small) =
              replace_with_reduced f (c ∷ t) b b' (store_at fs digest (utf8 (c ∷ t)) s) raw small
                hash s' (ground (arith, matched)) in
            change b b' r s s' f c t hash raw small k
              (ap (is_listed env config) (sym (literal_name-answered env calls uses b agree))
                ∙ (sym (is_bypassed-is_listed env config (literal_name env calls b)) ∙ n))
              x
              (filter_for-IsFirst env f (command_for env uses b) (
                ap (filter_for env) (sym (filter_cmd-command_for env calls uses b agree))
                ∙ matched))
              stored same is_raw is_small
      ]

  -- One tool result that the code replaced.
  block-Step :
      (config : ReduceConfig) (calls : ToolMap json) (uses : List (Use json))
      (agree : IsMapOf json calls uses) (b b' : Value) (r : ReductionResult)
      → (s s' : Files) (raw small : ℕ) (hash : Text) → has_kind json (codes "tool_result") b ≡ true
      → reduce_block env config calls b s ≡ (reduced b' raw small hash, s')
      → Step env config uses b (r, s) b' (count_reduced raw small hash r, s')
  unfolding reduce_block
  block-Step config calls uses agree b b' r s s' raw small hash k e =
      elim (Bool-cases (is_bypassed config (literal_name env calls b))) [
        | inl bypassed ↦ absurd (ground (arith, bypassed))
        | inr n ↦
            text-Step config calls uses agree b b' r s s' raw small hash
              (extract_text_content json b) k n refl (ground (arith, n))
      ]

  replace_with_passed :
      (f : CompiledFilter api) (text : Text) (b : Value) (p : Result Text × Files) (s' : Files)
      → replace_with env f text b p ≢ (passed, s')
  unfolding replace_with
  replace_with_passed f text b (ok h, s) s' e = cc
  replace_with_passed f text b (err m, s) s' e = cc

  -- Why a tool result passes.
  abbrev is_left : ReduceConfig → List (Use json) → Value → Text → Bool
  is_left config uses b text =
      is_listed env config (answered env uses b)
      || (is_empty text || is_unmatched env (command_for env uses b))

  text_passed :
      (config : ReduceConfig) (calls : ToolMap json) (uses : List (Use json))
      → (agree : IsMapOf json calls uses) (b : Value) (text : Text) (s s' : Files)
      → reduce_text env config calls b text s ≡ (passed, s')
      → (s ≡ s') × (is_empty text || is_unmatched env (command_for env uses b) ≡ true)
  unfolding reduce_text reduce_with
  text_passed config calls uses agree b [] s s' e = (cc, refl)
  text_passed config calls uses agree b (c ∷ t) s s' e =
      elim (Option-cases (filter_for env (filter_cmd env calls b))) [
        | inl unmatched ↦ (
          ground (arith, unmatched),
          filter_for-is_unmatched env (command_for env uses b) (
              ap (filter_for env) (sym (filter_cmd-command_for env calls uses b agree))
              ∙ unmatched),
        )
        | inr (f, matched) ↦ absurd (
            replace_with_passed f (c ∷ t) b (store_at fs digest (utf8 (c ∷ t)) s) s'
              (ground (arith, matched)))
      ]

  -- One tool result that the code let pass.
  block_passed :
      (config : ReduceConfig) (calls : ToolMap json) (uses : List (Use json))
      → (agree : IsMapOf json calls uses) (b : Value) (s s' : Files)
      → reduce_block env config calls b s ≡ (passed, s')
      → (s ≡ s') × (is_left config uses b (extract_text_content json b) ≡ true)
  unfolding reduce_block
  block_passed config calls uses agree b s s' e =
      let listed : is_bypassed config (literal_name env calls b)
          ≡ is_listed env config (answered env uses b) =
        is_bypassed-is_listed env config (literal_name env calls b)
        ∙ ap (is_listed env config) (literal_name-answered env calls uses b agree) in
      elim (Bool-cases (is_bypassed config (literal_name env calls b))) [
        | inl bypassed ↦ (ground (arith, bypassed), ground (arith, sym listed ∙ bypassed))
        | inr n ↦
            let (files, why) =
              text_passed config calls uses agree b (extract_text_content json b) s s'
                (ground (arith, n)) in
            (files, or_right (is_listed env config (answered env uses b)) why)
      ]

  -- A tool result, with what follows from the blocks behind it.
  tool_step :
      (config : ReduceConfig) (calls : ToolMap json) (uses : List (Use json))
      (agree : IsMapOf json calls uses) (b : Value) (bs bs' : List Value)
      → (r r' : ReductionResult) (s s' : Files) → has_kind json (codes "tool_result") b ≡ true
      → ((q : ReductionResult) (t : Files) (ws : List Value)
          → reduce_blocks env config calls bs q t ≡ (ok (ws, r'), s')
          → Steps env config uses bs (q, t) ws (r', s'))
      → reduce_blocks env config calls (b ∷ bs) r s ≡ (ok (bs', r'), s')
      → (o : Outcome Value) (t : Files) → reduce_block env config calls b s ≡ (o, t)
      → Steps env config uses (b ∷ bs) (r, s) bs' (r', s')
  unfolding reduce_blocks
  tool_step config calls uses agree b bs bs' r r' s s' k later e passed t is =
      let (ws, e', same) =
        put_ok b (reduce_blocks env config calls bs (count_passed r) t) bs' r' s'
          (ground (arith, k, is)) in
      let (fixed, why) = block_passed config calls uses agree b s t is in
      rw (sym same) (
        one_more b b bs ws (r, s) (count_passed r, s) (r', s') (pass b r s k why)
          (rw fixed (later (count_passed r) t ws e')))
  tool_step config calls uses agree b bs bs' r r' s s' k later e (reduced b' raw small hash) t is =
      let (ws, e', same) =
        put_ok b' (reduce_blocks env config calls bs (count_reduced raw small hash r) t) bs' r' s'
          (ground (arith, k, is)) in
      rw (sym same) (
        one_more b b' bs ws (r, s) (count_reduced raw small hash r, t) (r', s')
          (block-Step config calls uses agree b b' r s t raw small hash k is)
          (later (count_reduced raw small hash r) t ws e'))
  tool_step config calls uses agree b bs bs' r r' s s' k later e (aborted m) t is =
      absurd (ground (arith, k, is))

  pub reduce_blocks-Steps :
      (config : ReduceConfig) (calls : ToolMap json) (uses : List (Use json))
      (agree : IsMapOf json calls uses) (bs bs' : List Value) (r r' : ReductionResult)
      → (s s' : Files) → reduce_blocks env config calls bs r s ≡ (ok (bs', r'), s')
      → Steps env config uses bs (r, s) bs' (r', s')
  unfolding reduce_blocks
  reduce_blocks-Steps config calls uses agree [] bs' r r' s s' e =
      let nothing : [] ≡ bs' = cc in
      let counts : r ≡ r' = cc in
      let files : s ≡ s' = cc in rw (sym nothing, sym counts, sym files) (none_left (r, s))
  reduce_blocks-Steps config calls uses agree (b ∷ bs) bs' r r' s s' e =
      elim (Bool-cases (has_kind json (codes "tool_result") b)) [
        | inr other ↦
            let (ws, e', same) =
              put_ok b (reduce_blocks env config calls bs r s) bs' r' s' (ground (arith, other)) in
            rw (sym same) (
              one_more b b bs ws (r, s) (r, s) (r', s') (skip b (r, s) other)
                (reduce_blocks-Steps config calls uses agree bs ws r r' s s' e'))
        | inl k ↦
            tool_step config calls uses agree b bs bs' r r' s s' k
              (λ q t ws h. reduce_blocks-Steps config calls uses agree bs ws q r' t s' h) e
              (reduce_block env config calls b s).0 (reduce_block env config calls b s).1 refl
      ]
