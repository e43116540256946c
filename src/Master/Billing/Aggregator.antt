-- ===== src/Master/Billing/Aggregator.antt =====
-- internal/master/billing/aggregator.go: the buffer of deltas in front of the tables. Each method
-- runs under the mutex.
use vaala_ai_gateway.Prelude.{
  ℕ, ◌+◌, Bool, false, ◌&&◌, ◌||◌, String, List, [], Option, none, some, ltb, leb, ◌==◌,
  if◌then◌else◌, length,
}
use vaala_ai_gateway.Utils.SyncMap
use vaala_ai_gateway.Utils.SyncMap.{Comparable, load, put}
use vaala_ai_gateway.Master.Billing.{
  UsageLog, Clock, seconds_or, day_of, hour_of, add64, sub64, is_positive, TokenKey, ChannelKey,
  HourlyKey, token_key_comparable, channel_key_comparable, hourly_key_comparable, Counts,
  HourlyCounts, ChannelLabel, label_of,
}

-- The structs `tokenDelta`, `channelDelta` and `hourlyDelta`: what is overwritten, what is added to.
pub record Delta (D M : Type 0) : Type 0 where
  pub described : D
  pub counters : M
  pub last_used_at : ℕ
  pub updated_at : ℕ

abbrev pub TokenDelta : Type 0
TokenDelta = Delta String Counts

abbrev pub ChannelDelta : Type 0
ChannelDelta = Delta ChannelLabel Counts

abbrev pub HourlyDelta : Type 0
HourlyDelta = Delta ChannelLabel HourlyCounts

abbrev pub no_counts : Counts
no_counts = record {
  request_count = 0;
  success_count = 0;
  failed_count = 0;
  prompt_tokens = 0;
  completion_tokens = 0;
  cache_read_tokens = 0;
  cache_write_tokens = 0;
  input_cost = 0;
  output_cost = 0;
  total_cost = 0;
}

abbrev pub no_hourly_counts : HourlyCounts
no_hourly_counts = record {
  counts = no_counts;
  stream_request_count = 0;
  sum_first_response_ms = 0;
  sum_generation_ms = 0;
  sum_stream_completion_tokens = 0;
  sum_inbound_decode_ms = 0;
  sum_upstream_dispatch_ms = 0;
  sum_upstream_decode_ms = 0;
  sum_outbound_encode_ms = 0;
  sum_client_encode_ms = 0;
}

abbrev pub no_label : ChannelLabel
no_label = record { channel_name = ""; channel_type = 0; owner_type = "" }

abbrev pub empty_delta : {D : Type 0} {M : Type 0} → D → M → Delta D M
empty_delta d m = record { described = d; counters = m; last_used_at = 0; updated_at = 0 }

-- `aggSuccessFailureCounts`.
unfoldable pub agg_success_failure_counts : ℕ → ℕ × ℕ
agg_success_failure_counts status = if status == 0 then (0, 1) else (1, 0)

-- The block of `+=` that is the same for the three tables.
unfoldable pub count_log : UsageLog → Counts → Counts
unfolding agg_success_failure_counts
count_log log c = record {
  request_count = add64 c.request_count 1;
  success_count = add64 c.success_count (agg_success_failure_counts log.status).0;
  failed_count = add64 c.failed_count (agg_success_failure_counts log.status).1;
  prompt_tokens = add64 c.prompt_tokens log.prompt_tokens;
  completion_tokens = add64 c.completion_tokens log.completion_tokens;
  cache_read_tokens = add64 c.cache_read_tokens log.cache_read_tokens;
  cache_write_tokens = add64 c.cache_write_tokens log.cache_write_tokens;
  input_cost = add64 c.input_cost log.input_cost;
  output_cost = add64 c.output_cost log.output_cost;
  total_cost = add64 c.total_cost log.total_cost;
}

unfoldable pub count_stream : UsageLog → HourlyCounts → HourlyCounts
count_stream log c =
    if log.is_stream && log.status == 1 && is_positive log.completion_tokens
    then record c {
      stream_request_count = add64 c.stream_request_count 1;
      sum_first_response_ms = add64 c.sum_first_response_ms log.first_response_ms;
      sum_generation_ms = add64 c.sum_generation_ms (sub64 log.duration log.first_response_ms);
      sum_stream_completion_tokens = add64 c.sum_stream_completion_tokens log.completion_tokens;
    }
    else c

unfoldable pub count_latency : UsageLog → HourlyCounts → HourlyCounts
count_latency log c =
    if log.status == 1
    then record c {
      sum_inbound_decode_ms = add64 c.sum_inbound_decode_ms log.inbound_decode_ms;
      sum_upstream_dispatch_ms = add64 c.sum_upstream_dispatch_ms log.upstream_dispatch_ms;
      sum_upstream_decode_ms = add64 c.sum_upstream_decode_ms log.upstream_decode_ms;
      sum_outbound_encode_ms = add64 c.sum_outbound_encode_ms log.outbound_encode_ms;
      sum_client_encode_ms = add64 c.sum_client_encode_ms log.client_encode_ms;
    }
    else c

unfoldable pub count_hourly : UsageLog → HourlyCounts → HourlyCounts
unfolding count_log count_stream count_latency
count_hourly log c =
    count_latency log (count_stream log (record c { counts = count_log log c.counts }))

module _ {D M : Type 0} where
  -- A delta takes in a log.
  unfoldable pub bump : D → (M → M) → ℕ → Delta D M → Delta D M
  bump described count ts v = record {
    described = described;
    counters = count v.counters;
    last_used_at = if ltb v.last_used_at ts then ts else v.last_used_at;
    updated_at = ts;
  }

  abbrev pub delta_or : Delta D M → Option (Delta D M) → Delta D M
  delta_or new none = new
  delta_or new (some v) = v

  unfoldable pub accumulate :
      {K : Type 0} ⦃e : Comparable K⦄
      → Delta D M
      → List (K × Delta D M)
      → K
      → D
      → (M → M)
      → ℕ
      → List (K × Delta D M)
  unfolding bump SyncMap.load SyncMap.put
  accumulate new table k described count ts =
      put table k (bump described count ts (delta_or new (load table k)))

pub record Aggregator : Type 0 where
  pub tokens : List (TokenKey × TokenDelta)
  pub channels : List (ChannelKey × ChannelDelta)
  pub hourly : List (HourlyKey × HourlyDelta)
  pub max_rows : ℕ
  -- Whether a signal waits in `flushCh`.
  pub flush_asked : Bool

unfoldable pub new_aggregator : ℕ → Aggregator
new_aggregator max_rows = record {
  tokens = [];
  channels = [];
  hourly = [];
  max_rows = max_rows;
  flush_asked = false;
}

unfoldable pub token_key : Clock → UsageLog → TokenKey
token_key clock log = record {
  date = day_of (seconds_or clock.date_now log);
  user_id = log.user_id;
  token_id = log.token_id;
}

unfoldable pub channel_key : Clock → UsageLog → ChannelKey
channel_key clock log = record {
  date = day_of (seconds_or clock.date_now log);
  channel_id = log.channel_id;
  private_channel_id = log.private_channel_id;
}

unfoldable pub hourly_key : Clock → UsageLog → HourlyKey
hourly_key clock log = record {
  date = day_of (seconds_or clock.date_now log);
  hour = hour_of (seconds_or clock.now log);
  channel_id = log.channel_id;
  private_channel_id = log.private_channel_id;
  model_name = log.model_name;
  agent_id = log.agent_id;
}

abbrev pub row_count : Aggregator → ℕ
row_count a = length a.tokens + length a.channels + length a.hourly

-- The signal of a full buffer.
abbrev pub ask_flush : Aggregator → Aggregator
ask_flush a = record a {
  flush_asked = (ltb 0 a.max_rows && leb a.max_rows (row_count a)) || a.flush_asked;
}

unfoldable pub submit : Clock → UsageLog → Aggregator → Aggregator
unfolding accumulate token_key channel_key hourly_key count_log count_hourly
submit clock log a =
    let ts = seconds_or clock.now log in
    ask_flush (record a {
      tokens =
          accumulate (empty_delta "" no_counts) a.tokens (token_key clock log) log.token_name
            (count_log log) ts;
      channels =
          accumulate (empty_delta no_label no_counts) a.channels (channel_key clock log)
            (label_of log) (count_log log) ts;
      hourly =
          accumulate (empty_delta no_label no_hourly_counts) a.hourly (hourly_key clock log)
            (label_of log) (count_hourly log) ts;
    })

-- What the persist functions do to a state, with their error. A function may be missing.
pub record FlushFns (S : Type 0) : Type 0 where
  pub tokens_fn : Option (List (TokenKey × TokenDelta) → S → S × Option String)
  pub channels_fn : Option (List (ChannelKey × ChannelDelta) → S → S × Option String)
  pub hourly_fn : Option (List (HourlyKey × HourlyDelta) → S → S × Option String)

abbrev pub call_fn :
    {S : Type 0} {R : Type 0} → Option (R → S → S × Option String) → R → S → S × Option String
call_fn none rows s = (s, none)
call_fn (some f) rows s = f rows s

abbrev pub error_of_calls : Option String → Option String → Option String
error_of_calls none later = later
error_of_calls (some e) later = some e

unfoldable pub flush : {S : Type 0} → FlushFns S → Aggregator → S → Aggregator × S × Option String
flush fns a s =
    if row_count a == 0
    then (a, s, none)
    else let (s1, e1) = call_fn fns.tokens_fn a.tokens s in
      let (s2, e2) = call_fn fns.channels_fn a.channels s1 in
      let (s3, e3) = call_fn fns.hourly_fn a.hourly s2 in
      (
        record a { tokens = []; channels = []; hourly = [] },
        s3,
        error_of_calls e1 (error_of_calls e2 e3),
      )
