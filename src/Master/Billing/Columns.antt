-- ===== src/Master/Billing/Columns.antt =====
-- internal/master/billing/aggregator.go and internal/dao/billing.go: the tables that the buffer is
-- flushed into against the tables that each log is added to on its own.
use vaala_ai_gateway.Prelude.{
  ℕ, ◌<◌, ◌≡◌, refl, ap, ◌∙◌, inl, inr, Bool, true, false, arith, Bool-cases, ◌==◌,
}
use vaala_ai_gateway.Master.Billing.{
  UsageLog, Counts, HourlyCounts, token_key_comparable, channel_key_comparable,
  hourly_key_comparable, add64, word_size, is_positive, sub64,
}
use vaala_ai_gateway.Master.Billing.Rollup.{
  add_columns, add_hourly_columns, row_counts, row_hourly_counts, success_failure_counts,
  is_streamed, only_if,
}
use vaala_ai_gateway.Master.Billing.Aggregator.{
  no_counts, no_hourly_counts, count_log, count_stream, count_latency, count_hourly,
  agg_success_failure_counts,
}

add64_assoc : (a b c : ℕ) → add64 (add64 a b) c ≡ add64 a (add64 b c)
add64_assoc a b c = omega arith

zero_add64 : (a : ℕ) → a < word_size → add64 0 a ≡ a
zero_add64 a h = omega (arith, h)

pub add_columns_assoc :
    (a b c : Counts) → add_columns (add_columns a b) c ≡ add_columns a (add_columns b c)
unfolding add_columns
add_columns_assoc a b c = λ i. record {
  request_count = add64_assoc a.request_count b.request_count c.request_count i;
  success_count = add64_assoc a.success_count b.success_count c.success_count i;
  failed_count = add64_assoc a.failed_count b.failed_count c.failed_count i;
  prompt_tokens = add64_assoc a.prompt_tokens b.prompt_tokens c.prompt_tokens i;
  completion_tokens = add64_assoc a.completion_tokens b.completion_tokens c.completion_tokens i;
  cache_read_tokens = add64_assoc a.cache_read_tokens b.cache_read_tokens c.cache_read_tokens i;
  cache_write_tokens = add64_assoc a.cache_write_tokens b.cache_write_tokens c.cache_write_tokens i;
  input_cost = add64_assoc a.input_cost b.input_cost c.input_cost i;
  output_cost = add64_assoc a.output_cost b.output_cost c.output_cost i;
  total_cost = add64_assoc a.total_cost b.total_cost c.total_cost i;
}

pub add_hourly_columns_assoc :
    (a b c : HourlyCounts)
    → add_hourly_columns (add_hourly_columns a b) c ≡ add_hourly_columns a (add_hourly_columns b c)
unfolding add_hourly_columns
add_hourly_columns_assoc a b c = λ i. record {
  counts = add_columns_assoc a.counts b.counts c.counts i;
  stream_request_count =
      add64_assoc a.stream_request_count b.stream_request_count c.stream_request_count i;
  sum_first_response_ms =
      add64_assoc a.sum_first_response_ms b.sum_first_response_ms c.sum_first_response_ms i;
  sum_generation_ms = add64_assoc a.sum_generation_ms b.sum_generation_ms c.sum_generation_ms i;
  sum_stream_completion_tokens =
      add64_assoc a.sum_stream_completion_tokens b.sum_stream_completion_tokens
        c.sum_stream_completion_tokens i;
  sum_inbound_decode_ms =
      add64_assoc a.sum_inbound_decode_ms b.sum_inbound_decode_ms c.sum_inbound_decode_ms i;
  sum_upstream_dispatch_ms =
      add64_assoc a.sum_upstream_dispatch_ms b.sum_upstream_dispatch_ms c.sum_upstream_dispatch_ms
        i;
  sum_upstream_decode_ms =
      add64_assoc a.sum_upstream_decode_ms b.sum_upstream_decode_ms c.sum_upstream_decode_ms i;
  sum_outbound_encode_ms =
      add64_assoc a.sum_outbound_encode_ms b.sum_outbound_encode_ms c.sum_outbound_encode_ms i;
  sum_client_encode_ms =
      add64_assoc a.sum_client_encode_ms b.sum_client_encode_ms c.sum_client_encode_ms i;
}

add64_comm : (a b : ℕ) → add64 a b ≡ add64 b a
add64_comm a b = omega arith

pub add_columns_comm : (a b : Counts) → add_columns a b ≡ add_columns b a
unfolding add_columns
add_columns_comm a b = λ i. record {
  request_count = add64_comm a.request_count b.request_count i;
  success_count = add64_comm a.success_count b.success_count i;
  failed_count = add64_comm a.failed_count b.failed_count i;
  prompt_tokens = add64_comm a.prompt_tokens b.prompt_tokens i;
  completion_tokens = add64_comm a.completion_tokens b.completion_tokens i;
  cache_read_tokens = add64_comm a.cache_read_tokens b.cache_read_tokens i;
  cache_write_tokens = add64_comm a.cache_write_tokens b.cache_write_tokens i;
  input_cost = add64_comm a.input_cost b.input_cost i;
  output_cost = add64_comm a.output_cost b.output_cost i;
  total_cost = add64_comm a.total_cost b.total_cost i;
}

pub add_hourly_columns_comm : (a b : HourlyCounts) → add_hourly_columns a b ≡ add_hourly_columns b a
unfolding add_hourly_columns
add_hourly_columns_comm a b = λ i. record {
  counts = add_columns_comm a.counts b.counts i;
  stream_request_count = add64_comm a.stream_request_count b.stream_request_count i;
  sum_first_response_ms = add64_comm a.sum_first_response_ms b.sum_first_response_ms i;
  sum_generation_ms = add64_comm a.sum_generation_ms b.sum_generation_ms i;
  sum_stream_completion_tokens =
      add64_comm a.sum_stream_completion_tokens b.sum_stream_completion_tokens i;
  sum_inbound_decode_ms = add64_comm a.sum_inbound_decode_ms b.sum_inbound_decode_ms i;
  sum_upstream_dispatch_ms = add64_comm a.sum_upstream_dispatch_ms b.sum_upstream_dispatch_ms i;
  sum_upstream_decode_ms = add64_comm a.sum_upstream_decode_ms b.sum_upstream_decode_ms i;
  sum_outbound_encode_ms = add64_comm a.sum_outbound_encode_ms b.sum_outbound_encode_ms i;
  sum_client_encode_ms = add64_comm a.sum_client_encode_ms b.sum_client_encode_ms i;
}

-- The numbers of a log that are added are words, and its moment is set.
pub record IsCountable (log : UsageLog) : Type 0 where
  pub moment : is_positive log.created_at ≡ true
  pub prompt : log.prompt_tokens < word_size
  pub completion : log.completion_tokens < word_size
  pub cache_read : log.cache_read_tokens < word_size
  pub cache_write : log.cache_write_tokens < word_size
  pub input : log.input_cost < word_size
  pub output : log.output_cost < word_size
  pub total : log.total_cost < word_size
  pub first_response : log.first_response_ms < word_size
  pub inbound : log.inbound_decode_ms < word_size
  pub dispatch : log.upstream_dispatch_ms < word_size
  pub upstream : log.upstream_decode_ms < word_size
  pub outbound : log.outbound_encode_ms < word_size
  pub client : log.client_encode_ms < word_size

-- A log counts in the buffer as in the tables.
pub count_log_lem : (log : UsageLog) (c : Counts) → count_log log c ≡ add_columns c (row_counts log)
unfolding count_log add_columns row_counts agg_success_failure_counts success_failure_counts
count_log_lem log c = refl

zero_add_success : (n : ℕ) → add64 0 (success_failure_counts n).0 ≡ (success_failure_counts n).0
unfolding success_failure_counts
zero_add_success n = ground arith

zero_add_failed : (n : ℕ) → add64 0 (success_failure_counts n).1 ≡ (success_failure_counts n).1
unfolding success_failure_counts
zero_add_failed n = ground arith

pub zero_add_counts :
    (log : UsageLog) → IsCountable log → add_columns no_counts (row_counts log) ≡ row_counts log
unfolding add_columns row_counts success_failure_counts
zero_add_counts log h = λ i. record {
  request_count = 1;
  success_count = zero_add_success log.status i;
  failed_count = zero_add_failed log.status i;
  prompt_tokens = zero_add64 log.prompt_tokens h.prompt i;
  completion_tokens = zero_add64 log.completion_tokens h.completion i;
  cache_read_tokens = zero_add64 log.cache_read_tokens h.cache_read i;
  cache_write_tokens = zero_add64 log.cache_write_tokens h.cache_write i;
  input_cost = zero_add64 log.input_cost h.input i;
  output_cost = zero_add64 log.output_cost h.output i;
  total_cost = zero_add64 log.total_cost h.total i;
}

-- The counters of the hourly table that a log may leave alone are words.
pub record IsNormal (c : HourlyCounts) : Type 0 where
  pub streams : c.stream_request_count < word_size
  pub first_response : c.sum_first_response_ms < word_size
  pub generation : c.sum_generation_ms < word_size
  pub completion : c.sum_stream_completion_tokens < word_size
  pub inbound : c.sum_inbound_decode_ms < word_size
  pub dispatch : c.sum_upstream_dispatch_ms < word_size
  pub upstream : c.sum_upstream_decode_ms < word_size
  pub outbound : c.sum_outbound_encode_ms < word_size
  pub client : c.sum_client_encode_ms < word_size

add64_lt : (a b : ℕ) → add64 a b < word_size
add64_lt a b = omega arith

pub add_hourly_columns-IsNormal : (a b : HourlyCounts) → IsNormal (add_hourly_columns a b)
unfolding add_hourly_columns
add_hourly_columns-IsNormal a b = record {
  streams = add64_lt _ _;
  first_response = add64_lt _ _;
  generation = add64_lt _ _;
  completion = add64_lt _ _;
  inbound = add64_lt _ _;
  dispatch = add64_lt _ _;
  upstream = add64_lt _ _;
  outbound = add64_lt _ _;
  client = add64_lt _ _;
}

pub none-IsNormal : IsNormal no_hourly_counts
none-IsNormal = record {
  streams = omega arith;
  first_response = omega arith;
  generation = omega arith;
  completion = omega arith;
  inbound = omega arith;
  dispatch = omega arith;
  upstream = omega arith;
  outbound = omega arith;
  client = omega arith;
}

add64_zero : (a : ℕ) → a < word_size → a ≡ add64 a 0
add64_zero a h = omega (arith, h)

count_stream_lem :
    (log : UsageLog) (c : HourlyCounts)
    → IsNormal c
    → count_stream log c ≡ record c {
      stream_request_count = add64 c.stream_request_count (only_if (is_streamed log) 1);
      sum_first_response_ms =
          add64 c.sum_first_response_ms (only_if (is_streamed log) log.first_response_ms);
      sum_generation_ms =
          add64 c.sum_generation_ms
            (only_if (is_streamed log) (sub64 log.duration log.first_response_ms));
      sum_stream_completion_tokens =
          add64 c.sum_stream_completion_tokens (only_if (is_streamed log) log.completion_tokens);
    }
unfolding count_stream
count_stream_lem log c h = elim (Bool-cases (is_streamed log)) [
  | inl s ↦ rw s refl
  | inr s ↦ rw s (λ i. record c {
    stream_request_count = add64_zero c.stream_request_count h.streams i;
    sum_first_response_ms = add64_zero c.sum_first_response_ms h.first_response i;
    sum_generation_ms = add64_zero c.sum_generation_ms h.generation i;
    sum_stream_completion_tokens = add64_zero c.sum_stream_completion_tokens h.completion i;
  })
]

count_latency_lem :
    (log : UsageLog) (c : HourlyCounts)
    → IsNormal c
    → count_latency log c ≡ record c {
      sum_inbound_decode_ms =
          add64 c.sum_inbound_decode_ms (only_if (log.status == 1) log.inbound_decode_ms);
      sum_upstream_dispatch_ms =
          add64 c.sum_upstream_dispatch_ms (only_if (log.status == 1) log.upstream_dispatch_ms);
      sum_upstream_decode_ms =
          add64 c.sum_upstream_decode_ms (only_if (log.status == 1) log.upstream_decode_ms);
      sum_outbound_encode_ms =
          add64 c.sum_outbound_encode_ms (only_if (log.status == 1) log.outbound_encode_ms);
      sum_client_encode_ms =
          add64 c.sum_client_encode_ms (only_if (log.status == 1) log.client_encode_ms);
    }
unfolding count_latency
count_latency_lem log c h = elim (Bool-cases (log.status == 1)) [
  | inl s ↦ rw s refl
  | inr s ↦ rw s (λ i. record c {
    sum_inbound_decode_ms = add64_zero c.sum_inbound_decode_ms h.inbound i;
    sum_upstream_dispatch_ms = add64_zero c.sum_upstream_dispatch_ms h.dispatch i;
    sum_upstream_decode_ms = add64_zero c.sum_upstream_decode_ms h.upstream i;
    sum_outbound_encode_ms = add64_zero c.sum_outbound_encode_ms h.outbound i;
    sum_client_encode_ms = add64_zero c.sum_client_encode_ms h.client i;
  })
]

pub count_hourly_lem :
    (log : UsageLog) (c : HourlyCounts)
    → IsNormal c
    → count_hourly log c ≡ add_hourly_columns c (row_hourly_counts log)
unfolding count_hourly add_hourly_columns row_hourly_counts
count_hourly_lem log c h =
    let counted = record c { counts = count_log log c.counts } in
    let normal : IsNormal counted = record {
      streams = h.streams;
      first_response = h.first_response;
      generation = h.generation;
      completion = h.completion;
      inbound = h.inbound;
      dispatch = h.dispatch;
      upstream = h.upstream;
      outbound = h.outbound;
      client = h.client;
    } in
    ap (count_latency log) (count_stream_lem log counted normal)
    ∙ count_latency_lem log _ (record {
      streams = add64_lt _ _;
      first_response = add64_lt _ _;
      generation = add64_lt _ _;
      completion = add64_lt _ _;
      inbound = h.inbound;
      dispatch = h.dispatch;
      upstream = h.upstream;
      outbound = h.outbound;
      client = h.client;
    })
    ∙ ap (λ n. record (add_hourly_columns c (row_hourly_counts log)) { counts = n })
        (count_log_lem log c.counts)

zero_only_if : (b : Bool) (n : ℕ) → n < word_size → add64 0 (only_if b n) ≡ only_if b n
zero_only_if true n h = zero_add64 n h
zero_only_if false n h = omega arith

sub64_lt : (a b : ℕ) → sub64 a b < word_size
sub64_lt a b = omega arith

pub zero_add_hourly_counts :
    (log : UsageLog)
    → IsCountable log
    → add_hourly_columns no_hourly_counts (row_hourly_counts log) ≡ row_hourly_counts log
unfolding add_hourly_columns row_hourly_counts
zero_add_hourly_counts log h = λ i. record {
  counts = zero_add_counts log h i;
  stream_request_count = zero_only_if (is_streamed log) 1 (omega arith) i;
  sum_first_response_ms = zero_only_if (is_streamed log) log.first_response_ms h.first_response i;
  sum_generation_ms =
      zero_only_if (is_streamed log) (sub64 log.duration log.first_response_ms) (sub64_lt _ _) i;
  sum_stream_completion_tokens =
      zero_only_if (is_streamed log) log.completion_tokens h.completion i;
  sum_inbound_decode_ms = zero_only_if (log.status == 1) log.inbound_decode_ms h.inbound i;
  sum_upstream_dispatch_ms = zero_only_if (log.status == 1) log.upstream_dispatch_ms h.dispatch i;
  sum_upstream_decode_ms = zero_only_if (log.status == 1) log.upstream_decode_ms h.upstream i;
  sum_outbound_encode_ms = zero_only_if (log.status == 1) log.outbound_encode_ms h.outbound i;
  sum_client_encode_ms = zero_only_if (log.status == 1) log.client_encode_ms h.client i;
}
