-- ===== src/Identity.antt =====
-- src/identity/mod.rs: the digests that name a trust domain, a policy and a workspace, and the ids in
-- the headers. `short` is the hexadecimal form of the first eight bytes of SHA-256; it and the headers
-- are parameters.
use toche.Prelude.{[], ◌∷◌, ◌++◌, Option, none, some, Bool, true, false, Text, codes, and_then}

-- What a Boolean is displayed as.
unfoldable pub shown : Bool → Text
shown true = codes "true"
shown false = codes "false"

-- What is put into the digest for a trust domain.
unfoldable pub domain_input : Text → Text → Text → Text → Text
domain_input integration_id integration_name upstream_id secret_ref_display =
    codes "toche-trust-domain-v1:"
    ++ (integration_id
        ++ (58 ∷ (integration_name ++ (58 ∷ (upstream_id ++ (58 ∷ secret_ref_display))))))

-- What is put into the digest for a policy.
unfoldable pub policy_input : Bool → Text → Text → Bool → Text → Bool → Text
unfolding shown
policy_input cache_enabled cache_mode cache_breakpoint reduce_enabled efficiency_mode
      safe_cache_enabled =
    codes "toche-policy-v1:cache:"
    ++ (shown cache_enabled
        ++ (58
            ∷ (cache_mode
                ++ (58
                    ∷ (cache_breakpoint
                        ++ (codes "|reduce:"
                            ++ (shown reduce_enabled
                                ++ (codes "|efficiency:"
                                    ++ (efficiency_mode
                                        ++ (codes "|safe_cache:"
                                            ++ shown safe_cache_enabled))))))))))

module _ (short : Text → Text) where
  unfoldable pub derive_trust_domain_id : Text → Text → Text → Text → Text
  unfolding domain_input
  derive_trust_domain_id integration_id integration_name upstream_id secret_ref_display =
      short (domain_input integration_id integration_name upstream_id secret_ref_display)

  unfoldable pub compute_policy_hash : Bool → Text → Text → Bool → Text → Bool → Text
  unfolding policy_input
  compute_policy_hash cache_enabled cache_mode cache_breakpoint reduce_enabled efficiency_mode
        safe_cache_enabled =
      short (
        policy_input cache_enabled cache_mode cache_breakpoint reduce_enabled efficiency_mode
          safe_cache_enabled)

  unfoldable pub workspace_id_from_path : Text → Text
  workspace_id_from_path path = short (codes "toche-workspace-v1:" ++ path)

-- A header's value where it can be read as text, under the first name or else under the second.
abbrev non_empty : Text → Option Text
non_empty [] = none
non_empty (c ∷ t) = some (c ∷ t)

-- The headers, and the text of each value that has one: `get` and `to_str`.
abbrev pub Headers : Type 0
Headers = Text → Option (Option Text)

abbrev or_else : Option (Option Text) → Option (Option Text) → Option (Option Text)
or_else none b = b
or_else (some a) b = some a

abbrev first_of : Headers → Text → Text → Option Text
first_of headers name other =
    and_then (or_else (headers name) (headers other)) (λ v. and_then v non_empty)

unfoldable pub extract_external_request_id : Headers → Option Text
extract_external_request_id headers =
    first_of headers (codes "x-request-id") (codes "x-toche-request-id")

unfoldable pub extract_conversation_id : Headers → Option Text
extract_conversation_id headers =
    first_of headers (codes "x-toche-conversation-id") (codes "x-conversation-id")
