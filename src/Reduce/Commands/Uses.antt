-- ===== src/Reduce/Commands/Uses.antt =====
-- src/reduce/transform.rs: the tool calls of a request, and what the maps hold of them.
use toche.Prelude.{
  and_then, List, [], ◌∷◌, ◌++◌, Option, none, some, Bool, true, false, Text, text_eq, codes,
  if◌then◌else◌, ◌≡◌, ◌∙◌, ap, refl,
}
use mathlib.Core.Path.{fun_ext}
use toche.Prelude.Texts.{trim_start}
use toche.SafeCache.Inspect.{is_empty}
use toche.Prelude.Maps
use toche.Prelude.Maps.{get-insert}
use toche.Json.{Json}
use toche.Json.Arrays.{array_field, str_field}
use toche.Reduce.Commands.{
  ToolMap, resolve_command, add_call, add_block, add_blocks, add_messages, build_tool_map,
  unwrapped, non_empty, is_field, trim_start_matches,
}

module _ (json : Json) where
  open json use {Value, get}

  -- A tool call: its id, its name and its block.
  pub record Use : Type 0 where
    pub id : Text
    pub name : Text
    pub block : Value

  abbrev named_use : Value → Text → Option Text → List Use
  named_use block id none = []
  named_use block id (some name) = record { id = id; name = name; block = block } ∷ []

  abbrev use_with : Value → Option Text → List Use
  use_with block none = []
  use_with block (some id) = named_use block id (str_field json (codes "name") block)

  -- The call that a block is, if it is one.
  abbrev use_of : Value → List Use
  use_of block =
      if is_field json (codes "type") (codes "tool_use") block
      then use_with block (str_field json (codes "id") block)
      else []

  abbrev uses_in_blocks : List Value → List Use
  uses_in_blocks [] = []
  uses_in_blocks (block ∷ blocks) = use_of block ++ uses_in_blocks blocks

  abbrev uses_in_content : Option (List Value) → List Use
  uses_in_content none = []
  uses_in_content (some blocks) = uses_in_blocks blocks

  abbrev uses_in_messages : List Value → List Use
  uses_in_messages [] = []
  uses_in_messages (msg ∷ msgs) =
      (if is_field json (codes "role") (codes "assistant") msg
        then uses_in_content (array_field json (codes "content") msg)
        else [])
      ++ uses_in_messages msgs

  abbrev uses_in_array : Option (List Value) → List Use
  uses_in_array none = []
  uses_in_array (some msgs) = uses_in_messages msgs

  -- The calls in the messages of the assistant, in order.
  unfoldable pub uses_in : Value → List Use
  uses_in root = uses_in_array (array_field json (codes "messages") root)

  -- A command line without the wrappers before it, unless nothing is left.
  abbrev bare_line : Text → Option Text
  bare_line raw =
      let line =
        trim_start_matches (codes "rtk ") (trim_start_matches (codes "sudo ") (trim_start raw)) in
      if is_empty line then none else some line

  -- The command line that a call of `Bash` runs; other calls run none.
  unfoldable pub runs : Use → Option Text
  runs use_ =
      if text_eq use_.name (codes "Bash")
      then and_then (get (codes "input") use_.block)
          (λ i. and_then (str_field json (codes "command") i) bare_line)
      else none

  non_empty-is_empty : (t : Text) → non_empty t ≡ (if is_empty t then none else some t)
  non_empty-is_empty [] = refl
  non_empty-is_empty (c ∷ t) = refl

  resolve_command-runs :
      (id name : Text) (block : Value)
      → resolve_command json name block ≡ runs (record { id = id; name = name; block = block })
  unfolding resolve_command runs unwrapped
  resolve_command-runs id name block =
      ap
        (λ line.
          if text_eq name (codes "Bash")
          then and_then (get (codes "input") block)
              (λ i. and_then (str_field json (codes "command") i) line)
          else none)
        (fun_ext λ raw. non_empty-is_empty (unwrapped raw))

  -- What the last call with an id that has a property gives; failing that, `before`.
  abbrev last_of : (Use → Option Text) → Text → List Use → Option Text → Option Text
  last_of what id [] before = before
  last_of what id (u ∷ us) before =
      last_of what id us
        (elim (what u) [ none ↦ before | some x ↦ if text_eq u.id id then some x else before ])

  unfoldable pub name_of : Text → List Use → Option Text
  name_of id us = last_of (λ u. some u.name) id us none

  unfoldable pub command_of : Text → List Use → Option Text
  unfolding runs
  command_of id us = last_of runs id us none

  abbrev AddsUp : ToolMap json → List Use → ToolMap json → Type 0
  AddsUp before us after =
      (id : Text)
      → (Maps.get id after.tool_name
          ≡ last_of (λ u. some u.name) id us (Maps.get id before.tool_name))
        × (Maps.get id after.effective_cmd ≡ last_of runs id us (Maps.get id before.effective_cmd))

  last_of-append :
      (what : Use → Option Text) (id : Text) (us vs : List Use) (before : Option Text)
      → last_of what id (us ++ vs) before ≡ last_of what id vs (last_of what id us before)
  last_of-append what id [] vs before = refl
  last_of-append what id (u ∷ us) vs before = last_of-append what id us vs _

  AddsUp-trans :
      (a b c : ToolMap json) (us vs : List Use)
      → AddsUp a us b
      → AddsUp b vs c
      → AddsUp a (us ++ vs) c
  AddsUp-trans a b c us vs h k id =
      rw
        (
          last_of-append (λ u. some u.name) id us vs (Maps.get id a.tool_name),
          last_of-append runs id us vs (Maps.get id a.effective_cmd),
        )
        (
          (k id).0 ∙ ap (last_of (λ u. some u.name) id vs) (h id).0,
          (k id).1 ∙ ap (last_of runs id vs) (h id).1,
        )

  get-insert_maybe :
      (id j : Text) (o : Option Text) (m : Maps.Map Text)
      → Maps.get j (elim o [ none ↦ m | some x ↦ Maps.insert id x m ])
        ≡ elim o [ none ↦ Maps.get j m | some x ↦ if text_eq id j then some x else Maps.get j m ]
  get-insert_maybe id j none m = refl
  get-insert_maybe id j (some x) m = get-insert id j x m

  add_call-AddsUp :
      (id name : Text) (block : Value) (m : ToolMap json)
      → AddsUp m
          (record { id = id; name = name; block = block } ∷ [])
          (add_call json id name block m)
  unfolding add_call
  add_call-AddsUp id name block m j = (
    get-insert id j name m.tool_name,
    get-insert_maybe id j (resolve_command json name block) m.effective_cmd
        ∙ ap
            (λ o. elim o [
              | none ↦ Maps.get j m.effective_cmd
              | some x ↦ if text_eq id j then some x else Maps.get j m.effective_cmd
            ])
            (resolve_command-runs id name block),
  )

  with_name :
      (id : Text) (block : Value) (m : ToolMap json) (name : Option Text)
      → AddsUp m
          (named_use block id name)
          (elim name [ none ↦ m | some n ↦ add_call json id n block m ])
  with_name id block m none = λ j. (refl, refl)
  with_name id block m (some name) = add_call-AddsUp id name block m

  with_id :
      (block : Value) (m : ToolMap json) (id : Option Text)
      → AddsUp m (use_with block id) (elim id [
        | none ↦ m
        | some i ↦ elim (str_field json (codes "name") block) [
          | none ↦ m
          | some name ↦ add_call json i name block m
        ]
      ])
  with_id block m none = λ j. (refl, refl)
  with_id block m (some id) = with_name id block m (str_field json (codes "name") block)

  add_block-AddsUp :
      (block : Value) (m : ToolMap json) → AddsUp m (use_of block) (add_block json block m)
  unfolding add_block
  add_block-AddsUp block m = either (is_field json (codes "type") (codes "tool_use") block)
    where
      either :
          (b : Bool)
          → AddsUp m (if b then use_with block (str_field json (codes "id") block) else []) (
              if b
              then elim (str_field json (codes "id") block) [
                | none ↦ m
                | some id ↦ elim (str_field json (codes "name") block) [
                  | none ↦ m
                  | some name ↦ add_call json id name block m
                ]
              ]
              else m)
      either true = with_id block m (str_field json (codes "id") block)
      either false = λ j. (refl, refl)

  add_blocks-AddsUp :
      (blocks : List Value) (m : ToolMap json)
      → AddsUp m (uses_in_blocks blocks) (add_blocks json blocks m)
  unfolding add_blocks
  add_blocks-AddsUp [] m = λ j. (refl, refl)
  add_blocks-AddsUp (block ∷ blocks) m =
      AddsUp-trans m (add_block json block m) (add_blocks json (block ∷ blocks) m) (use_of block)
        (uses_in_blocks blocks) (add_block-AddsUp block m)
        (add_blocks-AddsUp blocks (add_block json block m))

  message-AddsUp :
      (b : Bool) (content : Option (List Value)) (m : ToolMap json)
      → AddsUp m
          (if b then uses_in_content content else [])
          (if b then elim content [ none ↦ m | some blocks ↦ add_blocks json blocks m ] else m)
  message-AddsUp true none m = λ j. (refl, refl)
  message-AddsUp true (some blocks) m = add_blocks-AddsUp blocks m
  message-AddsUp false content m = λ j. (refl, refl)

  add_messages-AddsUp :
      (msgs : List Value) (m : ToolMap json)
      → AddsUp m (uses_in_messages msgs) (add_messages json msgs m)
  unfolding add_messages
  add_messages-AddsUp [] m = λ j. (refl, refl)
  add_messages-AddsUp (msg ∷ msgs) m =
      AddsUp-trans m _ (add_messages json (msg ∷ msgs) m)
        (if is_field json (codes "role") (codes "assistant") msg
          then uses_in_content (array_field json (codes "content") msg)
          else [])
        (uses_in_messages msgs)
        (message-AddsUp (is_field json (codes "role") (codes "assistant") msg)
          (array_field json (codes "content") msg) m)
        (add_messages-AddsUp msgs _)

  -- The maps hold, for each id, the name of the last call with that id, and the command line of the
  -- last such call that runs one.
  pub record IsMapOf (calls : ToolMap json) (uses : List Use) : Type 0 where
    pub names : (id : Text) → Maps.get id calls.tool_name ≡ name_of id uses
    pub commands : (id : Text) → Maps.get id calls.effective_cmd ≡ command_of id uses

  pub build_tool_map-IsMapOf : (root : Value) → IsMapOf (build_tool_map json root) (uses_in root)
  unfolding build_tool_map uses_in name_of command_of Maps.get
  build_tool_map-IsMapOf root = of_array (array_field json (codes "messages") root)
    where
      of_array :
          (msgs : Option (List Value))
          → IsMapOf
              (elim msgs [
                | none ↦ record { tool_name = []; effective_cmd = [] }
                | some ms ↦ add_messages json ms (record { tool_name = []; effective_cmd = [] })
              ])
              (uses_in_array msgs)
      of_array none = record { names = λ id. refl; commands = λ id. refl }
      of_array (some ms) = record {
        names = λ id. (add_messages-AddsUp ms _ id).0;
        commands = λ id. (add_messages-AddsUp ms _ id).1;
      }
