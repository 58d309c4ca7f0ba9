-- ===== src/Reduce/Transform/Steps.antt =====
-- src/reduce/transform.rs: the reduction of a request as steps on its blocks.
use toche.Prelude.{
  ℕ, ◌+◌, ◌-◌, ◌%◌, ◌^◌, List, [], ◌∷◌, ◌++◌, none, some, Bool, true, false, not, ◌&&◌, ◌||◌, Text,
  text_eq, codes, ok, ◌≡◌, if◌then◌else◌, ltb, any, all,
}
use toche.Prelude.Texts.{utf8}
use toche.Json.Arrays.{array_field, str_field}
use toche.Config.Types.{ReduceConfig}
use toche.Efficiency.Inject.{tokens_of}
use toche.SafeCache.Inspect.{is_empty}
use toche.Reduce.Lines.{decimal}
use toche.Reduce.Filter.{CompiledFilter, apply_filter_with_info}
use toche.Reduce.Storage.{store_at}
use toche.Reduce.Commands.Uses.{Use, name_of, command_of}
use toche.Reduce.Contents.{has_kind, extract_text_content, replace_content}
use toche.Reduce.Transform.{Env, ReductionResult, count_passed, count_reduced, or_empty}

module _ (env : Env) where
  open env use {json, api, filters, match_set, fs, digest, percent}
  open json use {Value, get, set, array}
  open fs use {Files}

  abbrev pub State : Type 0
  State = ReductionResult × Files

  -- The name and the command line of the call that a tool result answers; a call that runs no
  -- command line counts by its name.
  abbrev id_of : Value → Text
  id_of b = or_empty (str_field json (codes "tool_use_id") b)

  abbrev pub answered : List (Use json) → Value → Text
  answered uses b = or_empty (name_of json (id_of b) uses)

  abbrev pub command_for : List (Use json) → Value → Text
  command_for uses b = elim (command_of json (id_of b) uses) [
    | none ↦ answered uses b
    | some cmd ↦ cmd
  ]

  abbrev pub is_listed : ReduceConfig → Text → Bool
  is_listed config name = not (is_empty name) && any (λ b. text_eq b name) config.command_bypass

  -- A command that no filter is for: it is empty, or fails the quick test, or fits no filter.
  abbrev pub is_unmatched : Text → Bool
  is_unmatched cmd =
      is_empty cmd
      || (not (api.set_is_match match_set cmd)
          || all (λ (f : CompiledFilter api). not (api.is_match f.match_regex cmd)) filters)

  -- The first filter that fits a command which passes the quick test.
  pub record IsFirst (f : CompiledFilter api) (cmd : Text) : Type 0 where
    pub before : List (CompiledFilter api)
    pub after : List (CompiledFilter api)
    pub position : before ++ f ∷ after ≡ filters
    pub earlier :
        all (λ (g : CompiledFilter api). not (api.is_match g.match_regex cmd)) before ≡ true
    pub fits : api.is_match f.match_regex cmd ≡ true
    pub quick : api.set_is_match match_set cmd ≡ true
    pub given : is_empty cmd ≡ false

  -- The text of a filter, with the share that it saves and the hash of the original.
  abbrev pub share : ℕ → ℕ → ℕ
  share raw small = if ltb 0 raw then percent ((raw + 2 ^ 64 - small) % 2 ^ 64) raw else 0

  abbrev pub replacement_of : CompiledFilter api → Text → Text → Text
  replacement_of f text hash =
      let small = (apply_filter_with_info api f text).0 in
      small
      ++ (codes "\n\n[toche:reduced "
          ++ (decimal (share (tokens_of text) (tokens_of small))
              ++ (codes "% restored with: toche expand " ++ (hash ++ codes "]\n"))))

  -- What becomes of a block, of the counts and of the stored blobs: a block that is no tool result
  -- is skipped; a tool result whose call is listed for a bypass, which has no text, or for whose
  -- command there is no filter is passed through; that of any other is stored, and replaced by what
  -- the first filter makes of it.
  pub data Step (config : ReduceConfig) (uses : List (Use json))
      : Value → State → Value → State → Type 0 where
    skip :
        (b : Value) (x : State)
        → has_kind json (codes "tool_result") b ≡ false
        → Step config uses b x b x
    pass :
        (b : Value) (r : ReductionResult) (s : Files)
        → has_kind json (codes "tool_result") b ≡ true
        → is_listed config (answered uses b)
            || (is_empty (extract_text_content json b) || is_unmatched (command_for uses b))
          ≡ true
        → Step config uses b (r, s) b (count_passed r, s)
    change :
        (b b' : Value) (r : ReductionResult) (s s' : Files) (f : CompiledFilter api) (c : ℕ)
        → (t hash : Text) (raw small : ℕ) → has_kind json (codes "tool_result") b ≡ true
        → is_listed config (answered uses b) ≡ false
        → extract_text_content json b ≡ c ∷ t
        → IsFirst f (command_for uses b)
        → store_at fs digest (utf8 (c ∷ t)) s ≡ (ok hash, s')
        → replace_content json (replacement_of f (c ∷ t) hash) b ≡ b'
        → tokens_of (c ∷ t) ≡ raw
        → tokens_of (apply_filter_with_info api f (c ∷ t)).0 ≡ small
        → Step config uses b (r, s) b' (count_reduced raw small hash r, s')

  -- The blocks of a message, one after the other.
  pub data Steps (config : ReduceConfig) (uses : List (Use json))
      : List Value → State → List Value → State → Type 0 where
    none_left : (x : State) → Steps config uses [] x [] x
    one_more :
        (b b' : Value) (bs bs' : List Value) (x y z : State)
        → Step config uses b x b' y
        → Steps config uses bs y bs' z
        → Steps config uses (b ∷ bs) x (b' ∷ bs') z

  -- The messages of a request: those without an array of blocks stay as they are.
  pub data Run (config : ReduceConfig) (uses : List (Use json))
      : List Value → State → List Value → State → Type 0 where
    finished : (x : State) → Run config uses [] x [] x
    plain :
        (m : Value) (ms ms' : List Value) (x y : State)
        → array_field json (codes "content") m ≡ none
        → Run config uses ms x ms' y
        → Run config uses (m ∷ ms) x (m ∷ ms') y
    blocks :
        (m : Value) (ms ms' bs bs' : List Value) (x y z : State)
        → array_field json (codes "content") m ≡ some bs
        → Steps config uses bs x bs' y
        → Run config uses ms y ms' z
        → Run config uses (m ∷ ms) x (set (codes "content") (array bs') m ∷ ms') z
