-- ===== src/Reduce/Regex.antt =====
-- The `regex` crate, which src/reduce/rtk only calls: its types and operations are parameters.
use toche.Prelude.{List, Bool, Text, Result}

pub record RegexApi : Type 1 where
  pub Regex : Type 0
  pub RegexSet : Type 0
  pub compile : Text → Result Regex
  pub compile_set : List Text → Result RegexSet
  pub is_match : Regex → Text → Bool
  pub set_is_match : RegexSet → Text → Bool
  -- `replace_all re line replacement`
  pub replace_all : Regex → Text → Text → Text
  -- The value of the constant `ANSI_RE`.
  pub ansi_re : Regex
