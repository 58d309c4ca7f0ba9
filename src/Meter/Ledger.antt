-- ===== src/Meter/Ledger.antt =====
-- src/meter/db.rs: the ledger of requests, and its summary. A statement runs whole, and none fails.
-- Counts are below 2 ^ 63, so that their casts keep them. SQLite's arithmetic on f64, `GLOB` and
-- `DATE` are parameters, with the separator of paths. Where SQL leaves the order open, of rows that
-- compare equal, one is chosen.
pub mod Columns
pub mod Totals
use toche.Prelude.{
  ℕ, suc, ◌+◌, List, [], ◌∷◌, ◌++◌, Option, none, some, Bool, true, false, not, ◌&&◌, ◌||◌, Text,
  text_eq, codes, if◌then◌else◌, retain, map, take, length, leb, ◌==◌,
}
use toche.SafeCache.Db.{CacheReject, text_lt}

-- SQLite on f64: `sum_costs` is `COALESCE(SUM(CASE WHEN cost IS NOT NULL THEN cost ELSE 0 END), 0)`
-- and `avg` is `COALESCE(AVG(latency_ms), 0)`, each on the values of a column; `glob pattern text` is
-- the operator, `date` the function on timestamps.
pub record Sql : Type 1 where
  pub F64 : Type 0
  pub sum_costs : List (Option F64) → F64
  pub avg : List ℕ → F64
  pub glob : Text → Text → Bool
  pub date : Text → Text
  pub main_separator : ℕ

-- `GROUP BY`: each value once.
abbrev pub group : List Text → List Text
group [] = []
group (x ∷ xs) = x ∷ retain (λ y. not (text_eq y x)) (group xs)

-- `ORDER BY`, with a test on whether the first may not stand before the second.
abbrev pub put_in_order {ℓ} : {A : Type ℓ} → (A → A → Bool) → A → List A → List A
put_in_order after x [] = x ∷ []
put_in_order after x (y ∷ ys) =
    let later = put_in_order after x ys in if after x y then y ∷ later else x ∷ y ∷ ys

abbrev pub in_order {ℓ} : {A : Type ℓ} → (A → A → Bool) → List A → List A
in_order after [] = []
in_order after (x ∷ xs) = put_in_order after x (in_order after xs)

abbrev pub one_if : Bool → ℕ
one_if b = if b then 1 else 0

abbrev pub cost_unknown {ℓ} : {A : Type ℓ} → Option A → ℕ
cost_unknown none = 1
cost_unknown (some c) = 0

module _ (sql : Sql) where
  open sql use {F64, sum_costs, avg, glob, date, main_separator}

  pub record NewLedgerRecord : Type 0 where
    pub timestamp : Text
    pub model : Text
    pub profile_name : Text
    pub input_tokens : ℕ
    pub output_tokens : ℕ
    pub cache_read_input_tokens : ℕ
    pub cache_creation_input_tokens : ℕ
    pub coalesced_count : ℕ
    pub latency_ms : ℕ
    pub status : Text
    pub cost : Option F64
    pub project_path : Text
    pub reduction_input_tokens : ℕ
    pub reduction_output_tokens : ℕ
    pub reduction_count : ℕ
    pub efficiency_mode : Text
    pub local_cache_hit : Bool
    pub runtime_id : Text
    pub request_id : Text
    pub integration_id : Text
    pub upstream_id : Text
    pub trust_domain_id : Text
    pub config_snapshot_hash : Text
    pub attribution : Text
    pub protocol : Text

  -- A row of the ledger, with its number.
  pub record LedgerEntry : Type 0 where
    pub id : ℕ
    pub entry : NewLedgerRecord

  pub record LedgerDb : Type 0 where
    pub ledger : List LedgerEntry
    pub cache_rejects : List CacheReject

  pub record UsageBreakdown : Type 0 where
    pub input_tokens : ℕ
    pub output_tokens : ℕ
    pub cache_read_input_tokens : ℕ
    pub cache_creation_input_tokens : ℕ
    pub coalesced_count : ℕ
    pub total_requests : ℕ
    pub total_cost_known : F64
    pub total_cost_unknown_requests : ℕ
    pub avg_latency_ms : F64
    pub reduction_input_tokens : ℕ
    pub reduction_output_tokens : ℕ
    pub reduction_count : ℕ
    pub efficiency_mode : Text
    pub local_cache_hit_count : ℕ
    pub upstream_requests : ℕ
    pub local_hit_tokens_saved : ℕ
    pub invalidated_cache_candidates : ℕ
    pub local_hit_avg_latency_ms : F64
    pub upstream_avg_latency_ms : F64

  pub record ModelBreakdown : Type 0 where
    pub model : Text
    pub breakdown : UsageBreakdown

  pub record DayBreakdown : Type 0 where
    pub date : Text
    pub breakdown : UsageBreakdown

  pub record StatsSummary : Type 0 where
    pub total : UsageBreakdown
    pub by_model : List ModelBreakdown
    pub by_day : List DayBreakdown

  -- The number that SQLite gives to a new row.
  unfoldable pub next_id : List LedgerEntry → ℕ
  next_id [] = 1
  next_id (r ∷ rows) = let n = next_id rows in if leb n r.id then suc r.id else n

  unfoldable pub record_entry : NewLedgerRecord → LedgerDb → LedgerDb × ℕ
  unfolding next_id
  record_entry e db = (
    record db { ledger = record { id = next_id db.ledger; entry = e } ∷ db.ledger },
    next_id db.ledger,
  )

  -- `SUM`, and `SUM(CASE WHEN ... THEN ... ELSE 0 END)` with the weight 0.
  abbrev pub sum_of : (NewLedgerRecord → ℕ) → List NewLedgerRecord → ℕ
  sum_of w [] = 0
  sum_of w (e ∷ rows) = w e + sum_of w rows

  -- The latencies of the rows with a property; the others count as NULL.
  abbrev latencies : (NewLedgerRecord → Bool) → List NewLedgerRecord → List ℕ
  latencies p rows = map (λ (e : NewLedgerRecord). e.latency_ms) (retain p rows)

  -- One row of the result, over the rows of the ledger that the condition leaves.
  unfoldable pub breakdown_of : List NewLedgerRecord → UsageBreakdown
  breakdown_of rows = record {
    total_requests = sum_of (λ e. 1) rows;
    input_tokens = sum_of (λ e. e.input_tokens) rows;
    output_tokens = sum_of (λ e. e.output_tokens) rows;
    cache_read_input_tokens = sum_of (λ e. e.cache_read_input_tokens) rows;
    cache_creation_input_tokens = sum_of (λ e. e.cache_creation_input_tokens) rows;
    coalesced_count = sum_of (λ e. e.coalesced_count) rows;
    avg_latency_ms = avg (map (λ (e : NewLedgerRecord). e.latency_ms) rows);
    total_cost_known = sum_costs (map (λ (e : NewLedgerRecord). e.cost) rows);
    total_cost_unknown_requests = sum_of (λ e. cost_unknown e.cost) rows;
    reduction_input_tokens = sum_of (λ e. e.reduction_input_tokens) rows;
    reduction_output_tokens = sum_of (λ e. e.reduction_output_tokens) rows;
    reduction_count = sum_of (λ e. e.reduction_count) rows;
    efficiency_mode = [];
    local_cache_hit_count = sum_of (λ e. one_if e.local_cache_hit) rows;
    upstream_requests = sum_of (λ e. one_if (not e.local_cache_hit && e.coalesced_count == 0)) rows;
    local_hit_tokens_saved =
        sum_of (λ e. if e.local_cache_hit then e.input_tokens + e.output_tokens else 0) rows;
    invalidated_cache_candidates = 0;
    local_hit_avg_latency_ms = avg (latencies (λ e. e.local_cache_hit) rows);
    upstream_avg_latency_ms = avg (latencies (λ e. not e.local_cache_hit) rows);
  }

  abbrev pub of_model : Text → List NewLedgerRecord → List NewLedgerRecord
  of_model model rows = retain (λ (e : NewLedgerRecord). text_eq e.model model) rows

  abbrev pub models_of : List NewLedgerRecord → List Text
  models_of rows =
      in_order (λ m n. not (leb (length (of_model n rows)) (length (of_model m rows))))
        (group (map (λ (e : NewLedgerRecord). e.model) rows))

  -- The condition on the project, with the pattern for the paths below it.
  unfoldable pub selected : Option Text → Text → Bool
  selected none path = true
  selected (some p) path = text_eq path p || glob (p ++ (main_separator ∷ codes "*")) path

  abbrev pub rows_of : Option Text → LedgerDb → List NewLedgerRecord
  rows_of project db =
      retain (λ (e : NewLedgerRecord). selected project e.project_path)
        (map (λ (r : LedgerEntry). r.entry) db.ledger)

  unfoldable pub build_breakdown : Text → Option Text → LedgerDb → UsageBreakdown
  unfolding breakdown_of
  build_breakdown [] project db = breakdown_of (rows_of project db)
  build_breakdown (c ∷ model) project db = breakdown_of (of_model (c ∷ model) (rows_of project db))

  abbrev rejected : Option Text → LedgerDb → ℕ
  rejected project db =
      length (retain (λ (r : CacheReject). selected project r.project_path) db.cache_rejects)

  abbrev day_breakdown : List NewLedgerRecord → Text → DayBreakdown
  day_breakdown rows day = record {
    date = day;
    breakdown =
        breakdown_of (retain (λ (e : NewLedgerRecord). text_eq (date e.timestamp) day) rows);
  }

  unfoldable pub get_summary : Option Text → LedgerDb → StatsSummary
  unfolding build_breakdown
  get_summary project db =
      let rows = rows_of project db in
      record {
        total = record (build_breakdown [] project db) {
          invalidated_cache_candidates = rejected project db;
        };
        by_model =
            map (λ m. record { model = m; breakdown = build_breakdown m project db })
              (models_of rows);
        by_day = map (day_breakdown rows) (
            take 30
              (in_order text_lt (group (map (λ (e : NewLedgerRecord). date e.timestamp) rows))));
      }

  unfoldable pub get_entries : ℕ → Option Text → LedgerDb → List LedgerEntry
  get_entries limit project db = take limit (
      in_order (λ r s. text_lt r.entry.timestamp s.entry.timestamp)
        (retain (λ (r : LedgerEntry). selected project r.entry.project_path) db.ledger))
