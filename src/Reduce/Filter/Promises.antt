-- ===== src/Reduce/Filter/Promises.antt =====
-- What a caller of `apply_filter_with_info` can rely on.
use toche.Prelude.{
  ℕ, ◌+◌, ◌≤◌, List, Option, some, Option-cases, inl, inr, true, Text, ◌≡◌, refl, arith, length,
  all, ◌⊎◌,
}
use toche.Reduce.Regex.{RegexApi}
use toche.Reduce.Lines.{join, is_blank, lines}
use toche.Reduce.Filter.{
  intact, tail, CompiledFilter, rewrite_lines, match_output, select_lines, apply_filter_with_info,
}
use toche.Reduce.Filter.Cuts.{length-cap_lines}
use toche.Reduce.Filter.Newlines.{newlines, is_one_line, newlines-output_lines}
use toche.Reduce.Filter.Recovery.{
  Recoverable, finish-Recoverable, finish-intact, output_lines, finish-output_lines,
}

module _ (api : RegexApi) (f : CompiledFilter api) (stdout : Text) where
  -- The lines that the filter keeps before it cuts any.
  abbrev pub selected : List Text
  selected = select_lines api f.line_filter (rewrite_lines api f (lines stdout))

  -- Whether a rule of `match_output` answers for the whole output.
  abbrev pub short_circuit : Option Text
  short_circuit = match_output api f.match_output (join (rewrite_lines api f (lines stdout)))

  -- A loss that is reported as recoverable is: the payload is all the selected lines, and the
  -- output is exactly those before the offset, followed by one line that counts the others, of
  -- which there is at least one.
  pub apply_filter-Recoverable :
      (result payload : Text) (offset : ℕ)
      → apply_filter_with_info api f stdout ≡ (result, tail payload offset)
      → Recoverable selected result payload offset
  unfolding apply_filter_with_info
  apply_filter-Recoverable result payload offset e =
      ground (arith, finish-Recoverable f.limits selected result payload offset)

  -- Output that is reported as complete is all the selected lines, unless these are blank and the
  -- filter has a message for that.
  pub apply_filter-intact :
      (result : Text)
      → apply_filter_with_info api f stdout ≡ (result, intact)
      → (result ≡ join selected)
        ⊎ ((f.limits.on_empty ≡ some result) × (all is_blank selected ≡ true))
  unfolding apply_filter_with_info
  apply_filter-intact result e = ground (arith, finish-intact f.limits selected result)

  -- With `max_lines` set, and where the rules leave no line feed within a line, the output is the
  -- message of a rule, the message for blank output, or has at most that many line feeds: that many
  -- lines, and one that counts the rest.
  pub apply_filter_capped :
      (max : ℕ)
      → f.limits.max_lines ≡ some max
      → all is_one_line selected ≡ true
      → (short_circuit ≡ some (apply_filter_with_info api f stdout).0)
        ⊎ ((f.limits.on_empty ≡ some (apply_filter_with_info api f stdout).0)
            ⊎ (newlines (apply_filter_with_info api f stdout).0 ≤ max))
  unfolding apply_filter_with_info
  apply_filter_capped max e single = elim (Option-cases short_circuit) [
    | inr (message, hit) ↦ rw (hit, apply_filter_with_info) (inl refl)
    | inl miss ↦
        rw (miss, apply_filter_with_info)
          (inr (elim (finish-output_lines f.limits selected) [
            | inr blank ↦ inl blank
            | inl shown ↦ inr (rw shown within)
          ]))
  ]
    where
      few : length (output_lines f.limits selected) ≤ max + 1
      few = rw e (length-cap_lines max _)

      within : newlines (join (output_lines f.limits selected)) ≤ max
      within = omega (arith, few, newlines-output_lines f.limits selected single)
