-- ===== src/Continuity/Extracted.antt =====
-- src/continuity/observer.rs: which files a response has read.
use toche.Prelude.{
  ap, if◌then◌else◌, ℕ, true, false, refl, List, [], ◌∷◌, Option, none, some, Bool, false, ◌&&◌,
  ◌||◌, Text, text_eq, codes, ◌≡◌, any, arith, Bool-cases, inl, inr, ◌∙◌, and_then, ok,
}
use toche.Json.{Json}
use toche.Json.Arrays.{array_field, str_field}
use toche.Cache.Breakpoint.{has_type}
use toche.SafeCache.Db.{contains}
use toche.SafeCache.Inspect.{contains_text, starts_with}
use toche.Continuity.Observer.{
  models_of, extract_root, SessionFacts, no_facts, extract_facts, extract_json_facts,
  extract_tool_use_from_block, pushed, is_one_of, read_names, write_names, command_names, or_empty,
  file_path, extract_blocks,
}
use toche.Continuity.Observed.{contains-append}

abbrev is_path : Text → Option Text → Bool
is_path p none = false
is_path p (some q) = text_eq q p

contains-pushed :
    (p : Text) (x : Option Text) (xs : List Text)
    → contains p (pushed x xs) ≡ contains p xs || is_path p x
contains-pushed p none xs = ground arith
contains-pushed p (some q) xs = contains-append p q xs

or_assoc : (a b c : Bool) → (a || b) || c ≡ a || (b || c)
or_assoc true b c = refl
or_assoc false b c = refl

module _ (json : Json) where
  open json use {Value, get, from_str}

  -- A call of a tool that reads the file `p`.
  abbrev pub reads_file : Text → Value → Bool
  reads_file p block =
      is_one_of read_names (or_empty (str_field json (codes "name") block))
      && is_path p (and_then (get (codes "input") block) (file_path json))

  contains-block :
      (p : Text) (block : Value) (facts : SessionFacts)
      → contains p (extract_tool_use_from_block json block facts).files_read
        ≡ contains p facts.files_read || reads_file p block
  unfolding extract_tool_use_from_block
  contains-block p block facts =
      let name = or_empty (str_field json (codes "name") block) in
      elim (Bool-cases (is_one_of read_names name)) [
        | inl r ↦ rw r (
            contains-pushed p (and_then (get (codes "input") block) (file_path json))
              facts.files_read)
        | inr r ↦ elim (Bool-cases (is_one_of write_names name)) [
          | inl w ↦ rw (r, w) (ground arith)
          | inr w ↦ elim (Bool-cases (is_one_of command_names name)) [
            | inl c ↦ rw (r, w, c) (ground arith)
            | inr c ↦ rw (r, w, c) (ground arith)
          ]
        ]
      ]

  contains-block_if :
      (p : Text) (tool : Bool) (block : Value) (facts : SessionFacts)
      → contains p (if tool then extract_tool_use_from_block json block facts else facts).files_read
        ≡ contains p facts.files_read || (tool && reads_file p block)
  contains-block_if p true block facts = contains-block p block facts
  contains-block_if p false block facts = ground arith

  contains-extract_blocks :
      (p : Text) (blocks : List Value) (facts : SessionFacts)
      → contains p (extract_blocks json blocks facts).files_read
        ≡ contains p facts.files_read
          || any (λ b. has_type json (codes "tool_use") b && reads_file p b) blocks
  contains-extract_blocks p [] facts = ground arith
  contains-extract_blocks p (b ∷ blocks) facts =
      let tool = has_type json (codes "tool_use") b in
      contains-extract_blocks p blocks
        (if tool then extract_tool_use_from_block json b facts else facts)
      ∙ (ap (λ x. x || any (λ y. has_type json (codes "tool_use") y && reads_file p y) blocks)
            (contains-block_if p tool b facts)
          ∙ or_assoc (contains p facts.files_read) (tool && reads_file p b)
              (any (λ y. has_type json (codes "tool_use") y && reads_file p y) blocks))

  contains-extract_root :
      (p : Text) (root : Value) (blocks : List Value)
      → array_field json (codes "content") root ≡ some blocks
      → contains p (extract_root json (ok root) no_facts).files_read
        ≡ any (λ b. has_type json (codes "tool_use") b && reads_file p b) blocks
  contains-extract_root p root blocks content =
      rw content (
        contains-extract_blocks p blocks (record no_facts { models_used = models_of json root [] }))

  -- In a response that is no event stream, can be parsed and has content blocks, a file counts as
  -- read where one of the blocks is the use of a tool that reads it, and only there.
  pub extract_facts-files_read :
      (c : ℕ) (text p : Text) (root : Value) (blocks : List Value)
      → contains_text (codes "event: ") (c ∷ text) || starts_with (codes "data:") (c ∷ text) ≡ false
      → from_str (c ∷ text) ≡ ok root
      → array_field json (codes "content") root ≡ some blocks
      → contains p (extract_facts json (c ∷ text)).files_read
        ≡ any (λ b. has_type json (codes "tool_use") b && reads_file p b) blocks
  unfolding extract_facts extract_json_facts
  extract_facts-files_read c text p root blocks whole parsed content =
      rw (whole, parsed) (contains-extract_root p root blocks content)
