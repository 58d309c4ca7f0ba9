-- ===== src/Reduce/Transform.antt =====
-- src/reduce/transform.rs: the reduction of the tool results of a request. The registry of filters
-- and the set of their patterns are those of src/reduce/rtk/toml_filter.rs; the percentage in f64 is
-- a parameter, and arithmetic on u64 wraps as in a release build.
pub mod Steps
pub mod Choices
pub mod Blocks
pub mod Runs
pub mod Account
pub mod Recovery
use toche.Prelude.{
  ltb, ℕ, zero, suc, ◌+◌, ◌-◌, ◌%◌, ◌^◌, List, [], ◌∷◌, ◌++◌, Option, none, some, is_some, Bool,
  true, false, not, ◌&&◌, ◌||◌, Text, text_eq, codes, Result, ok, err, if◌then◌else◌, any, map,
}
use toche.Prelude.Maps
use toche.Prelude.Texts.{utf8}
use toche.Json.{Json}
use toche.Json.Arrays.{array_field, str_field}
use toche.Config.Types.{ReduceConfig}
use toche.Efficiency.Inject.{tokens_of}
use toche.Reduce.Lines.{decimal}
use toche.Reduce.Regex.{RegexApi}
use toche.Reduce.Filter.{CompiledFilter, apply_filter_with_info, find_filter_in}
use toche.Reduce.Storage.{FileSystem, store_at}
use toche.Reduce.Commands.{ToolMap, build_tool_map}
use toche.Reduce.Contents.{has_kind, extract_text_content, replace_content}

pub record ReductionResult : Type 0 where
  pub modified_body : Text
  pub tokens_raw : ℕ
  pub tokens_reduced : ℕ
  pub reductions : ℕ
  pub passthroughs : ℕ
  pub hashes : List Text

-- `Option<&str>` with `unwrap_or("")`
abbrev pub or_empty : Option Text → Text
or_empty none = []
or_empty (some t) = t

-- `a - b` on u64.
unfoldable pub wrapping_sub : ℕ → ℕ → ℕ
wrapping_sub a b = (a + 2 ^ 64 - b) % 2 ^ 64

unfoldable pub marker : ℕ → Text → Text
marker pct hash =
    codes "\n\n[toche:reduced "
    ++ (decimal pct ++ (codes "% restored with: toche expand " ++ (hash ++ codes "]\n")))

-- What the code does with one tool result.
pub data Outcome (V : Type 0) : Type 0 where
  passed : Outcome V
  reduced : V → ℕ → ℕ → Text → Outcome V
  aborted : Text → Outcome V

unfoldable pub start : Text → ReductionResult
start body = record {
  modified_body = body;
  tokens_raw = 0;
  tokens_reduced = 0;
  reductions = 0;
  passthroughs = 0;
  hashes = [];
}

unfoldable pub count_passed : ReductionResult → ReductionResult
count_passed r = record r { passthroughs = suc r.passthroughs }

unfoldable pub count_reduced : ℕ → ℕ → Text → ReductionResult → ReductionResult
count_reduced raw small hash r = record r {
  tokens_raw = r.tokens_raw + raw;
  tokens_reduced = r.tokens_reduced + small;
  reductions = suc r.reductions;
  hashes = r.hashes ++ hash ∷ [];
}

-- The crates, the registry and the file system that the reduction works with; `percent part total`
-- is `(part as f64 / total as f64 * 100.0) as u32`.
pub record Env : Type 1 where
  pub json : Json
  pub api : RegexApi
  pub filters : List (CompiledFilter api)
  pub match_set : api.RegexSet
  pub fs : FileSystem
  pub digest : Text → Text
  pub percent : ℕ → ℕ → ℕ

unfoldable pub is_bypassed : ReduceConfig → Text → Bool
is_bypassed config [] = false
is_bypassed config (c ∷ name) = any (λ b. text_eq b (c ∷ name)) config.command_bypass

module _ (env : Env) where
  open env use {json, api, filters, match_set, fs, digest, percent}
  open json use {Value, get, set, array}
  open fs use {Files}

  -- The filter for a command, after the quick test.
  unfoldable pub filter_for : Text → Option (CompiledFilter api)
  filter_for [] = none
  filter_for (c ∷ cmd) =
      if api.set_is_match match_set (c ∷ cmd) then find_filter_in api (c ∷ cmd) filters else none

  unfoldable pub new_content : CompiledFilter api → Text → Text → Text
  unfolding marker wrapping_sub
  new_content filter raw_text hash =
      let reduced_text = (apply_filter_with_info api filter raw_text).0 in
      let raw = tokens_of raw_text in
      let pct = if ltb 0 raw then percent (wrapping_sub raw (tokens_of reduced_text)) raw else 0 in
      reduced_text ++ marker pct hash

  -- A tool result with a filter for its command, after its text was stored.
  unfoldable pub replace_with :
      CompiledFilter api → Text → Value → Result Text × Files → Outcome Value × Files
  unfolding new_content
  replace_with filter raw_text block (err e, s) =
      (aborted (codes "failed to store raw output in CAS"), s)
  replace_with filter raw_text block (ok hash, s) = (
    reduced (replace_content json (new_content filter raw_text hash) block) (tokens_of raw_text)
        (tokens_of (apply_filter_with_info api filter raw_text).0) hash,
    s,
  )

  unfoldable pub reduce_with : CompiledFilter api → Text → Value → Files → Outcome Value × Files
  unfolding replace_with
  reduce_with filter raw_text block s =
      replace_with filter raw_text block (store_at fs digest (utf8 raw_text) s)

  unfoldable pub literal_name : ToolMap json → Value → Text
  literal_name calls block =
      or_empty (Maps.get (or_empty (str_field json (codes "tool_use_id") block)) calls.tool_name)

  unfoldable pub filter_cmd : ToolMap json → Value → Text
  unfolding literal_name
  filter_cmd calls block =
      elim (Maps.get (or_empty (str_field json (codes "tool_use_id") block)) calls.effective_cmd) [
        | some name ↦ name
        | none ↦ literal_name calls block
      ]

  unfoldable pub reduce_text :
      ReduceConfig → ToolMap json → Value → Text → Files → Outcome Value × Files
  unfolding filter_for filter_cmd reduce_with
  reduce_text config calls block [] s = (passed, s)
  reduce_text config calls block (c ∷ raw_text) s = elim (filter_for (filter_cmd calls block)) [
    | none ↦ (passed, s)
    | some filter ↦ reduce_with filter (c ∷ raw_text) block s
  ]

  -- One tool result.
  unfoldable pub reduce_block : ReduceConfig → ToolMap json → Value → Files → Outcome Value × Files
  unfolding is_bypassed literal_name reduce_text
  reduce_block config calls block s =
      if is_bypassed config (literal_name calls block)
      then (passed, s)
      else reduce_text config calls block (extract_text_content json block) s

  abbrev pub put {ℓ} :
      {A : Type ℓ}
      → A
      → Result (List A × ReductionResult) × Files
      → Result (List A × ReductionResult) × Files
  put v (ok (vs, r), s) = (ok (v ∷ vs, r), s)
  put v (err e, s) = (err e, s)

  -- The blocks of one message, up to the first failure.
  unfoldable pub reduce_blocks :
      ReduceConfig
      → ToolMap json
      → List Value
      → ReductionResult
      → Files
      → Result (List Value × ReductionResult) × Files
  unfolding reduce_block count_passed count_reduced
  reduce_blocks config calls [] r s = (ok ([], r), s)
  reduce_blocks config calls (block ∷ blocks) r s =
      elim (has_kind json (codes "tool_result") block) [
        | false ↦ put block (reduce_blocks config calls blocks r s)
        | true ↦
            let (outcome, s') = reduce_block config calls block s in
            elim outcome [
              | passed ↦ put block (reduce_blocks config calls blocks (count_passed r) s')
              | reduced changed raw small hash ↦
                  put changed
                    (reduce_blocks config calls blocks (count_reduced raw small hash r) s')
              | aborted e ↦ (err e, s')
            ]
      ]

  unfoldable pub reduce_messages :
      ReduceConfig
      → ToolMap json
      → List Value
      → ReductionResult
      → Files
      → Result (List Value × ReductionResult) × Files
  unfolding reduce_blocks
  reduce_messages config calls [] r s = (ok ([], r), s)
  reduce_messages config calls (msg ∷ msgs) r s = elim (array_field json (codes "content") msg) [
    | none ↦ put msg (reduce_messages config calls msgs r s)
    | some content ↦
        let (done, s') = reduce_blocks config calls content r s in
        elim done [
          | err e ↦ (err e, s')
          | ok (changed, r') ↦
              put (set (codes "content") (array changed) msg)
                (reduce_messages config calls msgs r' s')
        ]
  ]

  -- The request put out again with its messages.
  unfoldable pub put_out :
      Value → Result (List Value × ReductionResult) × Files → Result ReductionResult × Files
  put_out root (err e, s) = (err e, s)
  put_out root (ok (msgs, r), s) =
      elim (json.to_string (set (codes "messages") (array msgs) root)) [
        | err e ↦ (err e, s)
        | ok body ↦ (ok (record r { modified_body = body }), s)
      ]

  unfoldable pub reduce_body_at :
      Text → ReduceConfig → Bool → Files → Result ReductionResult × Files
  unfolding start reduce_messages put_out build_tool_map
  reduce_body_at body config bypass_header s =
      if not config.enabled || bypass_header
      then (ok (start body), s)
      else elim (json.from_str body) [
        | err e ↦ (ok (start body), s)
        | ok root ↦ elim (array_field json (codes "messages") root) [
          | none ↦ (ok (start body), s)
          | some messages ↦
              put_out root
                (reduce_messages config (build_tool_map json root) messages (start body) s)
        ]
      ]
