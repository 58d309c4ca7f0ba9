-- ===== src/Shield/Fingerprint.antt =====
-- src/shield/fingerprint.rs. SHA-256, which the `sha2` crate gives, is a parameter.
use toche.Prelude.{Text, codes, Result, ok, err, ◌>>=◌, map, if◌then◌else◌}
use toche.Json.{Json}
use toche.Json.Arrays.{update_array}

module _ (json : Json) where
  open json use {Value}

  unfoldable pub strip_cache_control : Value → Value
  strip_cache_control block =
      if json.is_object block then json.unset (codes "cache_control") block else block

  unfoldable pub strip_message : Value → Value
  unfolding strip_cache_control
  strip_message = update_array json (codes "content") (map strip_cache_control)

  unfoldable pub remove_stream : Value → Value
  remove_stream root = if json.is_object root then json.unset (codes "stream") root else root

  unfoldable pub normalize : Value → Value
  unfolding remove_stream strip_message strip_cache_control
  normalize root =
      update_array json (codes "messages") (map strip_message)
        (update_array json (codes "system") (map strip_cache_control) (remove_stream root))

  -- `sha256` is the hexadecimal digest of a text's bytes.
  module _ (sha256 : Text → Text) where
    unfoldable pub compute_canonical : Text → Result Text
    compute_canonical body = do
      root ← json.from_str body
      canonical ← json.to_string (normalize root)
      ok (sha256 canonical)

    unfoldable pub compute : Text → Text
    unfolding compute_canonical
    compute body = elim (compute_canonical body) [ ok fp ↦ fp | err e ↦ sha256 body ]
