-- ===== src/Config/Validate.antt =====
-- src/config/toche_config.rs: the validation of the runtime and the storage settings.
use toche.Prelude.{
  false, Bool, List, [], ◌∷◌, ◌++◌, Option, none, some, ℕ, ◌≤◌, ◌<◌, ◌*◌, ◌≡◌, ◌↔◌, ◌≢◌, Text,
  String, codes, ltb, ◌==◌, if◌then◌else◌, arith,
}
use toche.Reduce.Lines.{decimal}
use toche.Config.Types.{RuntimeConfig, StorageConfig}

-- Pushes an error where a condition holds.
abbrev when : Bool → Text → List Text
when b message = if b then message ∷ [] else []

abbrev too_large : String → ℕ → String → Text
too_large field value bound =
    codes field ++ (codes " is unreasonably large (" ++ (decimal value ++ codes bound))

unfoldable pub validate_runtime : RuntimeConfig → List Text
validate_runtime r =
    when (r.max_request_body_bytes == 0) (codes "runtime.max_request_body_bytes must not be zero")
    ++ (when (ltb (256 * 1024 * 1024) r.max_request_body_bytes)
          (too_large "runtime.max_request_body_bytes" r.max_request_body_bytes " > 256 MiB)")
        ++ (when (r.max_response_body_bytes == 0)
              (codes "runtime.max_response_body_bytes must not be zero")
            ++ (when (ltb (1024 * 1024 * 1024) r.max_response_body_bytes) (
                  too_large "runtime.max_response_body_bytes" r.max_response_body_bytes " > 1 GiB)")
                ++ (when (r.max_concurrent_upstream == 0)
                      (codes "runtime.max_concurrent_upstream must not be zero")
                    ++ (when (ltb 1024 r.max_concurrent_upstream) (
                          too_large "runtime.max_concurrent_upstream" r.max_concurrent_upstream
                            " > 1024)")
                        ++ when (r.upstream_permit_timeout_ms == 0)
                            (codes "runtime.upstream_permit_timeout_ms must not be zero"))))))

-- `Some(0)`
abbrev is_some_zero : Option ℕ → Bool
is_some_zero none = false
is_some_zero (some n) = n == 0

unfoldable pub validate_storage : StorageConfig → List Text
validate_storage s =
    when (is_some_zero s.max_cas_bytes)
      (codes "storage.max_cas_bytes must be absent (unlimited) or a positive number, not zero")
    ++ (when (is_some_zero s.max_entries)
          (codes "storage.max_entries must be absent (unlimited) or a positive number, not zero")
        ++ (when (is_some_zero s.min_free_disk_bytes) (
              codes
                "storage.min_free_disk_bytes must be absent (no check) or a positive number, not zero")
            ++ when (is_some_zero s.ledger_retention_days) (
                codes
                  "storage.ledger_retention_days must be absent (keep all) or a positive number, not zero")))

-- The limits that a gateway can run with.
abbrev pub RuntimeLimits : RuntimeConfig → Type 0
RuntimeLimits r =
    (0 < r.max_request_body_bytes)
    × (r.max_request_body_bytes ≤ 256 * 1024 * 1024)
    × (0 < r.max_response_body_bytes)
    × (r.max_response_body_bytes ≤ 1024 * 1024 * 1024)
    × (0 < r.max_concurrent_upstream)
    × (r.max_concurrent_upstream ≤ 1024)
    × (0 < r.upstream_permit_timeout_ms)

-- The validation of the runtime settings finds no error exactly where every limit is positive, and
-- the sizes and the number of upstream requests are no more than their maxima.
validate_runtime_iff : (r : RuntimeConfig) → (validate_runtime r ≡ []) ↔ RuntimeLimits r
unfolding validate_runtime
validate_runtime_iff r = ground arith

-- The validation of the storage settings finds no error exactly where no limit is zero.
pub validate_storage_iff :
    (s : StorageConfig)
    → (validate_storage s ≡ []) ↔ (
        (s.max_cas_bytes ≢ some 0)
        × (s.max_entries ≢ some 0)
        × (s.min_free_disk_bytes ≢ some 0)
        × (s.ledger_retention_days ≢ some 0))
unfolding validate_storage
validate_storage_iff s = ground arith
