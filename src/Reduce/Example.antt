-- ===== src/Reduce/Example.antt =====
-- A request whose assistant ran a command and whose user answers with its output, and files that are
-- an association list, on which the laws of the file system hold.
use toche.Prelude.{
  List, [], ◌∷◌, Option, none, some, true, false, Text, text_eq, codes, ok, ◌≡◌, refl, sym, arith,
  any,
}
use toche.Prelude.Maps
use toche.Json.{Json}
use toche.Json.Example.{Value, str, arr, object, of_list, example_json}
use toche.Config.Types.{ReduceConfig}
use toche.Reduce.Regex.{RegexApi}
use toche.Reduce.Filter.{CompiledFilter, every}
use toche.Reduce.Storage.{FileSystem, IsLawful, made, exists, gone, not_found, is_valid_hash}
use toche.Reduce.Transform.{Env}

abbrev pub texts : RegexApi
texts = record {
  Regex = Text;
  RegexSet = List Text;
  compile = λ p. ok p;
  compile_set = λ ps. ok ps;
  is_match = text_eq;
  set_is_match = λ set text. any (λ p. text_eq p text) set;
  replace_all = λ p text replacement. text;
  ansi_re = [];
}

-- A filter that keeps the first line.
abbrev pub build_filter : CompiledFilter texts
build_filter = record {
  name = codes "cargo";
  description = none;
  match_regex = codes "cargo build";
  strip_ansi = false;
  replace = [];
  match_output = [];
  line_filter = every;
  limits = record {
    truncate_lines_at = none;
    head_lines = some 1;
    tail_lines = none;
    max_lines = none;
    on_empty = none;
  };
  filter_stderr = false;
}

abbrev pub memory : FileSystem
memory = record {
  Files = Maps.Map Text;
  read = Maps.get;
  write = λ p t s. (Maps.insert p t s, none);
  create_new = λ p t s. elim (Maps.get p s) [ none ↦ made (Maps.insert p t s) | some u ↦ exists ];
  remove = λ p s. elim (Maps.get p s) [ none ↦ not_found | some u ↦ gone (Maps.remove p s) ];
}

memory_made :
    (p t : Text) (s s' : Maps.Map Text) → memory.create_new p t s ≡ made s' → Maps.insert p t s ≡ s'
memory_made p t s s' e = go (Maps.get p s) refl
  where
    go : (o : Option Text) → Maps.get p s ≡ o → Maps.insert p t s ≡ s'
    go none is = ground (arith, is)
    go (some u) is = absurd (ground (arith, is))

memory_exists :
    (p t : Text) (s : Maps.Map Text)
    → memory.create_new p t s ≡ exists
    → (c : Text) × (Maps.get p s ≡ some c)
memory_exists p t s e = go (Maps.get p s) refl
  where
    go : (o : Option Text) → Maps.get p s ≡ o → (c : Text) × (Maps.get p s ≡ some c)
    go none is = absurd (ground (arith, is))
    go (some u) is = (u, is)

memory_gone : (p : Text) (s s' : Maps.Map Text) → memory.remove p s ≡ gone s' → Maps.remove p s ≡ s'
memory_gone p s s' e = go (Maps.get p s) refl
  where
    go : (o : Option Text) → Maps.get p s ≡ o → Maps.remove p s ≡ s'
    go none is = absurd (ground (arith, is))
    go (some u) is = ground (arith, is)

pub memory_laws : IsLawful memory
memory_laws = record {
  read-write_self = λ p t s h. Maps.get-insert_self p t s;
  read-write_ne = λ p q t s n. Maps.get-insert_ne p q t s n;
  read-create_self = λ p t s s' e. rw (sym (memory_made p t s s' e)) (Maps.get-insert_self p t s);
  read-create_ne =
      λ p q t s s' e n. rw (sym (memory_made p t s s' e)) (Maps.get-insert_ne p q t s n);
  read-exists = memory_exists;
  read-remove_self = λ p s s' e. rw (sym (memory_gone p s s' e)) (Maps.get-remove_self p s);
  read-remove_ne = λ p q s s' e n. rw (sym (memory_gone p s s' e)) (Maps.get-remove_ne p q s n);
}

-- The length in unary, as a text of hexadecimal digits.
abbrev digits : Text → Text
digits [] = []
digits (c ∷ t) = b'a' ∷ digits t

abbrev pub digest : Text → Text
digest t = b'a' ∷ b'a' ∷ digits t

pub digits_hex : (t : Text) → is_valid_hash (digest t) ≡ true
unfolding is_valid_hash
digits_hex [] = refl
digits_hex (c ∷ t) = ground (arith, digits_hex t)

abbrev call : Value
call = object (
    (codes "type", str (codes "tool_use"))
    ∷ (codes "id", str (codes "t1"))
    ∷ (codes "name", str (codes "Bash"))
    ∷ (codes "input", object ((codes "command", str (codes "sudo cargo build")) ∷ []))
    ∷ [])

abbrev pub answer : Value
answer = object (
    (codes "type", str (codes "tool_result"))
    ∷ (codes "tool_use_id", str (codes "t1"))
    ∷ (codes "content", str (codes "a\nb\nc"))
    ∷ [])

abbrev message : Text → Value → Value
message role block =
    object ((codes "role", str role) ∷ (codes "content", arr (of_list (block ∷ []))) ∷ [])

abbrev pub request : Value
request = object (
    (
      codes "messages",
      arr (of_list (message (codes "assistant") call ∷ message (codes "user") answer ∷ [])),
    )
    ∷ [])

abbrev pub json : Json
json = example_json (λ t. ok request) (λ v. ok (codes "OUT"))

abbrev pub env : Env
env = record {
  json = json;
  api = texts;
  filters = build_filter ∷ [];
  match_set = codes "cargo build" ∷ [];
  fs = memory;
  digest = digest;
  percent = λ part total. 0;
}

abbrev pub config : ReduceConfig
config = record { enabled = true; command_bypass = codes "Read" ∷ [] }
