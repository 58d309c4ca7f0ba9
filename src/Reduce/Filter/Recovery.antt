-- ===== src/Reduce/Filter/Recovery.antt =====
-- What the classification of a filter's loss promises about its output.
use toche.Prelude.{
  ℕ, ◌-◌, ◌≤◌, ◌<◌, List, [], ◌∷◌, ◌++◌, some, true, Bool-cases, Text, ◌≡◌, ap, arith, length, take,
  all, ◌⊎◌,
}
use toche.Reduce.Lines.{join, is_blank, is_blank-join}
use toche.Reduce.Filter.{
  omission, cut, cap_lines, truncate_lines, Lossiness, intact, tail, loss, Limits, finish,
}
use toche.Reduce.Filter.Cuts.{
  cut-cases, cap_lines-cases, truncate_lines-intact, truncate_lines_visible,
}

-- `tail -n +offset` over the payload gives the lines that the output left out: the payload is the
-- selected lines, and the output is those before the offset and one line that counts the rest.
abbrev pub Recoverable : List Text → Text → Text → ℕ → Type 0
Recoverable selected result payload offset =
    (0 < offset)
    × (offset ≤ length selected)
    × (payload ≡ join selected)
    × ((result
          ≡ join (
              take (offset - 1) selected
              ++ omission " lines omitted)" (length selected - (offset - 1)) ∷ []))
        ⊎ (result
            ≡ join (
                take (offset - 1) selected
                ++ omission " lines truncated)" (length selected - (offset - 1)) ∷ [])))

pair_eq :
    {r r' : Text} {l l' : Lossiness}
    → (let x : Text × Lossiness = (r, l) in x) ≡ (r', l')
    → (r ≡ r') × (l ≡ l')
pair_eq e = (ap (λ p. p.0) e, ap (λ p. p.1) e)

pub finish-Recoverable :
    (f : Limits) (selected : List Text) (result payload : Text) (offset : ℕ)
    → finish f selected ≡ (result, tail payload offset)
    → Recoverable selected result payload offset
unfolding finish cut cap_lines loss
finish-Recoverable f selected result payload offset e =
    ground (arith, truncate_lines-intact f.truncate_lines_at selected)

-- Blank output means that nothing was cut or shortened on the way.
blank_uncut :
    (f : Limits) (selected : List Text)
    → (let shown = (truncate_lines f.truncate_lines_at selected).0 in
        let c = cut f.head_lines f.tail_lines shown in
        is_blank (join (cap_lines f.max_lines c.kept).0) ≡ true)
    → all is_blank selected ≡ true
blank_uncut f selected h = ground (
  arith,
  is_blank-join
      (cap_lines f.max_lines
        (cut f.head_lines f.tail_lines (truncate_lines f.truncate_lines_at selected).0).kept).0,
  cap_lines-cases f.max_lines
      (cut f.head_lines f.tail_lines (truncate_lines f.truncate_lines_at selected).0).kept,
  cut-cases f.head_lines f.tail_lines (truncate_lines f.truncate_lines_at selected).0,
  truncate_lines_visible f.truncate_lines_at selected,
  truncate_lines-intact f.truncate_lines_at selected,
  Bool-cases (truncate_lines f.truncate_lines_at selected).1,
)

pub finish-intact :
    (f : Limits) (selected : List Text) (result : Text)
    → finish f selected ≡ (result, intact)
    → (result ≡ join selected) ⊎ ((f.on_empty ≡ some result) × (all is_blank selected ≡ true))
unfolding finish cut cap_lines loss
finish-intact f selected result e =
    ground (arith, truncate_lines-intact f.truncate_lines_at selected, blank_uncut f selected)

-- The lines that come out of stage 7.
abbrev pub output_lines : Limits → List Text → List Text
output_lines f selected =
    (cap_lines f.max_lines
      (cut f.head_lines f.tail_lines (truncate_lines f.truncate_lines_at selected).0).kept).0

pub finish-output_lines :
    (f : Limits) (selected : List Text)
    → ((finish f selected).0 ≡ join (output_lines f selected))
      ⊎ (f.on_empty ≡ some (finish f selected).0)
unfolding finish
finish-output_lines f selected = ground arith
