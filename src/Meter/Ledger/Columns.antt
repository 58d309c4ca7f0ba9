-- ===== src/Meter/Ledger/Columns.antt =====
-- src/meter/db.rs: the columns of a breakdown that are sums of whole numbers.
use toche.Prelude.{ℕ, ◌+◌, List, not, ◌&&◌, if◌then◌else◌, ◌==◌, ◌≡◌, refl}
use toche.Meter.Ledger.{
  NewLedgerRecord, UsageBreakdown, breakdown_of, sum_of, one_if, cost_unknown, Sql,
}

-- The columns that are sums of whole numbers, and what a row adds to each.
pub data Column : Type 0 where
  requests : Column
  inputs : Column
  outputs : Column
  cache_reads : Column
  cache_creations : Column
  coalesced : Column
  unknown_costs : Column
  reduction_inputs : Column
  reduction_outputs : Column
  reductions : Column
  local_hits : Column
  upstream : Column
  saved : Column

module _ (sql : Sql) where
  abbrev pub column : Column → UsageBreakdown sql → ℕ
  column requests b = b.total_requests
  column inputs b = b.input_tokens
  column outputs b = b.output_tokens
  column cache_reads b = b.cache_read_input_tokens
  column cache_creations b = b.cache_creation_input_tokens
  column coalesced b = b.coalesced_count
  column unknown_costs b = b.total_cost_unknown_requests
  column reduction_inputs b = b.reduction_input_tokens
  column reduction_outputs b = b.reduction_output_tokens
  column reductions b = b.reduction_count
  column local_hits b = b.local_cache_hit_count
  column upstream b = b.upstream_requests
  column saved b = b.local_hit_tokens_saved

  abbrev pub weight : Column → NewLedgerRecord sql → ℕ
  weight requests e = 1
  weight inputs e = e.input_tokens
  weight outputs e = e.output_tokens
  weight cache_reads e = e.cache_read_input_tokens
  weight cache_creations e = e.cache_creation_input_tokens
  weight coalesced e = e.coalesced_count
  weight unknown_costs e = cost_unknown e.cost
  weight reduction_inputs e = e.reduction_input_tokens
  weight reduction_outputs e = e.reduction_output_tokens
  weight reductions e = e.reduction_count
  weight local_hits e = one_if e.local_cache_hit
  weight upstream e = one_if (not e.local_cache_hit && e.coalesced_count == 0)
  weight saved e = if e.local_cache_hit then e.input_tokens + e.output_tokens else 0

  pub column-breakdown_of :
      (c : Column) (rows : List (NewLedgerRecord sql))
      → column c (breakdown_of sql rows) ≡ sum_of sql (weight c) rows
  unfolding breakdown_of
  column-breakdown_of requests rows = refl
  column-breakdown_of inputs rows = refl
  column-breakdown_of outputs rows = refl
  column-breakdown_of cache_reads rows = refl
  column-breakdown_of cache_creations rows = refl
  column-breakdown_of coalesced rows = refl
  column-breakdown_of unknown_costs rows = refl
  column-breakdown_of reduction_inputs rows = refl
  column-breakdown_of reduction_outputs rows = refl
  column-breakdown_of reductions rows = refl
  column-breakdown_of local_hits rows = refl
  column-breakdown_of upstream rows = refl
  column-breakdown_of saved rows = refl

  pub column-rejects :
      (c : Column) (b : UsageBreakdown sql) (n : ℕ)
      → column c (record b { invalidated_cache_candidates = n }) ≡ column c b
  column-rejects requests b n = refl
  column-rejects inputs b n = refl
  column-rejects outputs b n = refl
  column-rejects cache_reads b n = refl
  column-rejects cache_creations b n = refl
  column-rejects coalesced b n = refl
  column-rejects unknown_costs b n = refl
  column-rejects reduction_inputs b n = refl
  column-rejects reduction_outputs b n = refl
  column-rejects reductions b n = refl
  column-rejects local_hits b n = refl
  column-rejects upstream b n = refl
  column-rejects saved b n = refl
