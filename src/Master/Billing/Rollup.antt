-- ===== src/Master/Billing/Rollup.antt =====
-- internal/dao/billing.go: the rows of the three tables of totals, and the statements that add to
-- them.
use vaala_ai_gateway.Prelude.{
  ℕ, ◌≡◌, Bool, ◌&&◌, List, [], ◌∷◌, Option, none, some, ltb, ◌==◌, if◌then◌else◌, String,
}
use vaala_ai_gateway.Utils.SyncMap.{Comparable}
use vaala_ai_gateway.Master.Billing.{
  UsageLog, Clock, seconds_or, day_of, hour_of, add64, sub64, is_positive, TokenKey, ChannelKey,
  HourlyKey, token_key_comparable, channel_key_comparable, hourly_key_comparable, Counts,
  HourlyCounts, ChannelLabel, label_of,
}

-- A row behind its unique key: the columns that are overwritten, those that are added to, and the
-- three moments.
pub record Row (D M : Type 0) : Type 0 where
  pub described : D
  pub counters : M
  pub last_used_at : ℕ
  pub created_at : ℕ
  pub updated_at : ℕ

-- A table of the database with a unique key. `upsert` is `INSERT … ON CONFLICT (key) DO UPDATE`: the
-- row that is inserted, and the assignments to the row that has the key already. `delete_where`
-- deletes the rows whose key passes. `none` is an error of the database.
pub record Table (K V : Type 0) ⦃e : Comparable K⦄ : Type 1 where
  pub State : Type 0
  pub select : State → K → Option V
  pub upsert : State → K → V → (V → V) → Option State
  pub delete_where : (K → Bool) → State → Option State
  pub select_upsert :
      (s s' : State) (k j : K) (v : V) (f : V → V)
      → upsert s k v f ≡ some s'
      → select s' j ≡ (
          if e.eqb k j
          then some (elim (select s k) [ none ↦ v | some old ↦ f old ])
          else select s j)
  pub select_delete :
      (p : K → Bool) (s s' : State) (j : K)
      → delete_where p s ≡ some s'
      → select s' j ≡ (if p j then none else select s j)

-- `"column + ?"` of each counter.
unfoldable pub add_columns : Counts → Counts → Counts
add_columns a b = record {
  request_count = add64 a.request_count b.request_count;
  success_count = add64 a.success_count b.success_count;
  failed_count = add64 a.failed_count b.failed_count;
  prompt_tokens = add64 a.prompt_tokens b.prompt_tokens;
  completion_tokens = add64 a.completion_tokens b.completion_tokens;
  cache_read_tokens = add64 a.cache_read_tokens b.cache_read_tokens;
  cache_write_tokens = add64 a.cache_write_tokens b.cache_write_tokens;
  input_cost = add64 a.input_cost b.input_cost;
  output_cost = add64 a.output_cost b.output_cost;
  total_cost = add64 a.total_cost b.total_cost;
}

unfoldable pub add_hourly_columns : HourlyCounts → HourlyCounts → HourlyCounts
unfolding add_columns
add_hourly_columns a b = record {
  counts = add_columns a.counts b.counts;
  stream_request_count = add64 a.stream_request_count b.stream_request_count;
  sum_first_response_ms = add64 a.sum_first_response_ms b.sum_first_response_ms;
  sum_generation_ms = add64 a.sum_generation_ms b.sum_generation_ms;
  sum_stream_completion_tokens =
      add64 a.sum_stream_completion_tokens b.sum_stream_completion_tokens;
  sum_inbound_decode_ms = add64 a.sum_inbound_decode_ms b.sum_inbound_decode_ms;
  sum_upstream_dispatch_ms = add64 a.sum_upstream_dispatch_ms b.sum_upstream_dispatch_ms;
  sum_upstream_decode_ms = add64 a.sum_upstream_decode_ms b.sum_upstream_decode_ms;
  sum_outbound_encode_ms = add64 a.sum_outbound_encode_ms b.sum_outbound_encode_ms;
  sum_client_encode_ms = add64 a.sum_client_encode_ms b.sum_client_encode_ms;
}

-- `successFailureCounts`.
unfoldable pub success_failure_counts : ℕ → ℕ × ℕ
success_failure_counts status = if status == 0 then (0, 1) else (1, 0)

unfoldable pub row_counts : UsageLog → Counts
unfolding success_failure_counts
row_counts log = record {
  request_count = 1;
  success_count = (success_failure_counts log.status).0;
  failed_count = (success_failure_counts log.status).1;
  prompt_tokens = log.prompt_tokens;
  completion_tokens = log.completion_tokens;
  cache_read_tokens = log.cache_read_tokens;
  cache_write_tokens = log.cache_write_tokens;
  input_cost = log.input_cost;
  output_cost = log.output_cost;
  total_cost = log.total_cost;
}

abbrev pub is_streamed : UsageLog → Bool
is_streamed log = log.is_stream && log.status == 1 && is_positive log.completion_tokens

abbrev pub only_if : Bool → ℕ → ℕ
only_if b n = if b then n else 0

unfoldable pub row_hourly_counts : UsageLog → HourlyCounts
unfolding row_counts
row_hourly_counts log = record {
  counts = row_counts log;
  stream_request_count = only_if (is_streamed log) 1;
  sum_first_response_ms = only_if (is_streamed log) log.first_response_ms;
  sum_generation_ms = only_if (is_streamed log) (sub64 log.duration log.first_response_ms);
  sum_stream_completion_tokens = only_if (is_streamed log) log.completion_tokens;
  sum_inbound_decode_ms = only_if (log.status == 1) log.inbound_decode_ms;
  sum_upstream_dispatch_ms = only_if (log.status == 1) log.upstream_dispatch_ms;
  sum_upstream_decode_ms = only_if (log.status == 1) log.upstream_decode_ms;
  sum_outbound_encode_ms = only_if (log.status == 1) log.outbound_encode_ms;
  sum_client_encode_ms = only_if (log.status == 1) log.client_encode_ms;
}

module _ {D M : Type 0} where
  -- The assignments of `DO UPDATE`: `updateLastUsedAt` keeps the later moment, and `created_at` is
  -- not assigned.
  unfoldable pub assign : (M → M → M) → Row D M → Row D M → Row D M
  assign add row old = record {
    described = row.described;
    counters = add old.counters row.counters;
    last_used_at =
        if ltb old.last_used_at row.last_used_at then row.last_used_at else old.last_used_at;
    created_at = old.created_at;
    updated_at = row.updated_at;
  }

  unfoldable pub row_at : D → M → ℕ → Row D M
  row_at described counters ts = record {
    described = described;
    counters = counters;
    last_used_at = ts;
    created_at = ts;
    updated_at = ts;
  }

  module _ {K : Type 0} ⦃e : Comparable K⦄ (table : Table K (Row D M)) (add : M → M → M) where
    unfoldable pub upsert_row : table.State → K → Row D M → Option table.State
    unfolding assign
    upsert_row s k row = table.upsert s k row (assign add row)

    -- The transaction of a batch: the state behind it, or the error that rolls it back.
    unfoldable pub batch_upsert : table.State → List (K × Row D M) → Option table.State
    unfolding upsert_row
    batch_upsert s [] = some s
    batch_upsert s ((k, row) ∷ rows) = elim (upsert_row s k row) [
      | none ↦ none
      | some s' ↦ batch_upsert s' rows
    ]

-- The three tables.
pub record Database : Type 1 where
  pub token_daily : Table TokenKey (Row String Counts)
  pub channel_daily : Table ChannelKey (Row ChannelLabel Counts)
  pub hourly_bucket : Table HourlyKey (Row ChannelLabel HourlyCounts)

module _ (db : Database) where
  unfoldable pub token_row_key : Clock → UsageLog → TokenKey
  token_row_key clock log = record {
    date = day_of (seconds_or clock.date_now log);
    user_id = log.user_id;
    token_id = log.token_id;
  }

  unfoldable pub channel_row_key : Clock → UsageLog → ChannelKey
  channel_row_key clock log = record {
    date = day_of (seconds_or clock.date_now log);
    channel_id = log.channel_id;
    private_channel_id = log.private_channel_id;
  }

  -- Here the date is that of the timestamp.
  unfoldable pub hourly_row_key : Clock → UsageLog → HourlyKey
  hourly_row_key clock log = record {
    date = day_of (seconds_or clock.now log);
    hour = hour_of (seconds_or clock.now log);
    channel_id = log.channel_id;
    private_channel_id = log.private_channel_id;
    model_name = log.model_name;
    agent_id = log.agent_id;
  }

  unfoldable pub upsert_token_daily :
      Clock → UsageLog → db.token_daily.State → Option db.token_daily.State
  unfolding upsert_row row_at row_counts token_row_key add_columns
  upsert_token_daily clock log s =
      upsert_row db.token_daily add_columns s (token_row_key clock log)
        (row_at log.token_name (row_counts log) (seconds_or clock.now log))

  unfoldable pub upsert_channel_daily :
      Clock → UsageLog → db.channel_daily.State → Option db.channel_daily.State
  unfolding upsert_row row_at row_counts channel_row_key add_columns
  upsert_channel_daily clock log s =
      upsert_row db.channel_daily add_columns s (channel_row_key clock log)
        (row_at (label_of log) (row_counts log) (seconds_or clock.now log))

  unfoldable pub upsert_hourly_bucket :
      Clock → UsageLog → db.hourly_bucket.State → Option db.hourly_bucket.State
  unfolding upsert_row row_at row_hourly_counts hourly_row_key add_hourly_columns
  upsert_hourly_bucket clock log s =
      upsert_row db.hourly_bucket add_hourly_columns s (hourly_row_key clock log)
        (row_at (label_of log) (row_hourly_counts log) (seconds_or clock.now log))
