-- ===== src/Reduce/Tests.antt =====
-- The reduction of a request, and what is stored for it.
use toche.Prelude.{
  ◌+◌, List, [], ◌∷◌, ◌++◌, some, none, false, Text, text_eq, codes, is_whitespace, ok, ◌≡◌, ◌⊎◌,
  refl, length,
}
use mathlib.Core.List.Memᴰ.{head}
use toche.Prelude.Maps
use toche.Prelude.Texts.{trim_start, utf8}
use toche.Json.Arrays.{array_field, str_field}
use toche.Json.Example.{Value, object}
use toche.Efficiency.Inject.{tokens_of, text_block}
use toche.Reduce.Lines.{lines, join, decimal, truncate, is_blank}
use toche.Reduce.Filter.{
  omission, apply_filter_with_info, select_lines, rewrite_lines, replace_rules, strip_ansi,
  match_output, finish, cut, cap_lines, truncate_lines, loss, find_filter_in,
}
use toche.Reduce.Storage.{store_at, blob_path, retrieve_at}
use toche.Reduce.Storage.Integrity.{IsContentAddressed}
use toche.Reduce.Commands.{
  build_tool_map, ToolMap, resolve_command, trim_rounds, strip_prefix, unwrapped,
  trim_start_matches,
}
use toche.Reduce.Commands.Wrappers.{resolve_command-wrapped}
use toche.Reduce.Commands.Uses.{uses_in}
use toche.Reduce.Contents.{extract_text_content, replace_content}
use toche.Reduce.Contents.Replacement.{line_breaks, spare_parts, extract-replace_content}
use toche.Reduce.Transform.{ReductionResult, reduce_body_at, start}
use toche.Reduce.Transform.Runs.{target, reduce_body_at-Run}
use toche.Reduce.Transform.Steps.{Run}
use toche.Reduce.Transform.Account.{eligible, reduce_body_at-counts}
use toche.Reduce.Transform.Recovery.{reduce_body_at-retrieve_at, IsResultOf, raw_of}
use toche.Reduce.Example.{memory, memory_laws, digest, digits_hex, answer, json, env, config}

abbrev stored : Maps.Map Text
stored = (blob_path (digest (codes "a\nb\nc")), codes "a\nb\nc") ∷ []

abbrev reduction : ReductionResult
reduction = record {
  modified_body = codes "OUT";
  tokens_raw = 2;
  tokens_reduced = 6;
  reductions = 1;
  passthroughs = 0;
  hashes = digest (codes "a\nb\nc") ∷ [];
}

reduction_made : reduce_body_at env (codes "IN") config false [] ≡ (ok reduction, stored)
unfolding reduce_body_at store_at blob_path apply_filter_with_info extract_text_content tokens_of
    text_eq is_whitespace array_field str_field Maps.get Maps.insert strip_prefix find_filter_in
    match_output Maps.remove finish is_blank join cap_lines cut truncate_lines select_lines
    rewrite_lines lines text_block trim_start trim_rounds trim_start_matches unwrapped
    replace_content loss omission replace_rules strip_ansi decimal truncate start
    toche.Reduce.Commands.add_block utf8
reduction_made = refl

nothing_stored : IsContentAddressed memory memory_laws digest []
unfolding Maps.get
nothing_stored = record { named = λ h t v r. absurd (cc) }

reduce_body_at-retrieve_at_example :
    ((root : Value) × (ms : List Value) × (b : Value) × (target env (codes "IN") config false
        ≡ some (root, ms))
      × IsResultOf env memory_laws digits_hex ms b
      × (retrieve_at memory digest (digest (codes "a\nb\nc")) stored
          ≡ ok (raw_of env memory_laws digits_hex b))
      × (digest (raw_of env memory_laws digits_hex b) ≡ digest (codes "a\nb\nc")))
    × IsContentAddressed memory memory_laws digest stored
reduce_body_at-retrieve_at_example =
    reduce_body_at-retrieve_at env memory_laws digits_hex (codes "IN") config false [] stored
      reduction (digest (codes "a\nb\nc")) nothing_stored reduction_made (head refl)

reduce_body_at-counts_example :
    (reduction.reductions + reduction.passthroughs
      ≡ eligible env (target env (codes "IN") config false))
    × (length reduction.hashes ≡ reduction.reductions)
reduce_body_at-counts_example =
    reduce_body_at-counts env (codes "IN") config false [] stored reduction reduction_made

reduce_body_at-Run_example :
    ((target env (codes "IN") config false ≡ none)
      × (reduction ≡ start (codes "IN"))
      × ([] ≡ stored))
    ⊎ ((root : Value) × (ms : List Value) × (ms' : List Value) × (q : ReductionResult) × (target env
            (codes "IN")
            config
            false
          ≡ some (root, ms))
        × Run env config (uses_in json root) ms (start (codes "IN"), []) ms' (q, stored)
        × (json.to_string (json.set (codes "messages") (json.array ms') root)
            ≡ ok reduction.modified_body)
        × (record q { modified_body = reduction.modified_body } ≡ reduction))
reduce_body_at-Run_example =
    reduce_body_at-Run env (codes "IN") config false [] stored reduction reduction_made

extract-replace_content_example :
    extract_text_content json (replace_content json (codes "x") answer)
    ≡ codes "x" ++ line_breaks (spare_parts json (json.get (codes "content") answer))
extract-replace_content_example = extract-replace_content json b'x' [] answer refl

abbrev wrapped_call : Value
wrapped_call = object (
    (codes "input", object ((codes "command", Value.str (codes " sudo sudo rtk cargo build")) ∷ []))
    ∷ [])

resolve_command-wrapped_example :
    resolve_command json (codes "Bash") wrapped_call ≡ some (codes "cargo build")
unfolding str_field trim_start is_whitespace strip_prefix text_eq
resolve_command-wrapped_example =
    resolve_command-wrapped json wrapped_call
      (object ((codes "command", Value.str (codes " sudo sudo rtk cargo build")) ∷ [])) (codes " ")
      (codes "argo build") b'c' 2 1 refl refl refl refl refl refl
