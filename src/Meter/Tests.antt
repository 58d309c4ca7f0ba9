-- ===== src/Meter/Tests.antt =====
-- A ledger of three requests to two models.
use toche.Prelude.{
  List, ℕ, [], ◌∷◌, Option, some, none, Bool, true, false, codes, Text, ◌+◌, ◌/◌, length, ◌≡◌, refl,
  text_eq,
}
use toche.Meter.Ledger.{Sql, NewLedgerRecord, LedgerEntry, LedgerDb, get_summary, selected}
use toche.Meter.Ledger.Columns.{inputs, column}
use toche.Meter.Ledger.Totals.{sum_over, get_summary-sum_over}

abbrev sum_known : List (Option ℕ) → ℕ
sum_known [] = 0
sum_known (none ∷ xs) = sum_known xs
sum_known (some c ∷ xs) = c + sum_known xs

abbrev sum : List ℕ → ℕ
sum [] = 0
sum (x ∷ xs) = x + sum xs

-- On whole numbers: a missing cost adds nothing, and an average is rounded down.
abbrev sql : Sql
sql = record {
  F64 = ℕ;
  sum_costs = sum_known;
  avg = λ xs. sum xs / length xs;
  glob = λ pattern text. false;
  date = λ timestamp. codes "2026-01-01";
  main_separator = b'/';
}

abbrev request : Text → ℕ → Option ℕ → Bool → NewLedgerRecord sql
request model tokens cost hit = record {
  timestamp = codes "2026-01-01T00:00:00+00:00";
  model = model;
  profile_name = codes "p";
  input_tokens = tokens;
  output_tokens = 7;
  cache_read_input_tokens = 0;
  cache_creation_input_tokens = 0;
  coalesced_count = 0;
  latency_ms = 20;
  status = codes "ok";
  cost = cost;
  project_path = codes "/p";
  reduction_input_tokens = 0;
  reduction_output_tokens = 0;
  reduction_count = 0;
  efficiency_mode = codes "off";
  local_cache_hit = hit;
  runtime_id = [];
  request_id = [];
  integration_id = [];
  upstream_id = [];
  trust_domain_id = [];
  config_snapshot_hash = [];
  attribution = [];
  protocol = [];
}

abbrev row : ℕ → NewLedgerRecord sql → LedgerEntry sql
row id e = record { id = id; entry = e }

abbrev three : LedgerDb sql
three = record {
  ledger =
      row 3 (request (codes "a") 10 (some 4) false)
      ∷ row 2 (request (codes "b") 20 none false)
      ∷ row 1 (request (codes "a") 30 none true)
      ∷ [];
  cache_rejects = [];
}

get_summary-sum_over_example :
    sum_over sql inputs (get_summary sql (some (codes "/p")) three).by_model
    ≡ column sql inputs (get_summary sql (some (codes "/p")) three).total
unfolding text_eq selected
get_summary-sum_over_example = get_summary-sum_over sql inputs (some (codes "/p")) three refl
