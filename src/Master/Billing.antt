-- ===== src/Master/Billing.antt =====
-- internal/master/billing/aggregator.go and internal/dao/billing.go: the data that both share. An
-- `int` or `int64` is the number below 2^64 of its word; a moment is its Unix seconds, and a date
-- the number of its day.
pub mod Rollup
pub mod Aggregator
pub mod Wiring
pub mod Merge
pub mod Columns
pub mod Mirrors
pub mod Refines
pub mod Flush
pub mod Rebuild
pub mod Slices
pub mod Split
pub mod Rebuilt
pub mod Day
pub mod TokenDay
pub mod ChannelDay
pub mod BucketDay
pub mod Totals
pub mod Renewed
use vaala_ai_gateway.Prelude.{
  ℕ, ◌+◌, ◌-◌, ◌*◌, ◌/◌, ◌%◌, ◌≡◌, Bool, true, ◌&&◌, ◌↔◌, arith, String, str_eq, ltb, ◌==◌,
  if◌then◌else◌, eq_iff, ==_iff,
}
use vaala_ai_gateway.Utils.SyncMap.{Comparable}

abbrev pub word_size : ℕ
word_size = 18446744073709551616

-- Addition and subtraction of two words.
abbrev pub add64 : ℕ → ℕ → ℕ
add64 a b = (a + b) % word_size

abbrev pub sub64 : ℕ → ℕ → ℕ
sub64 a b = (a + (word_size - b % word_size)) % word_size

-- `> 0` of a signed word.
abbrev pub is_positive : ℕ → Bool
is_positive a = ltb 0 a && ltb a 9223372036854775808

-- The fields of `models.UsageLog` that are counted.
pub record UsageLog : Type 0 where
  pub user_id : ℕ
  pub token_id : ℕ
  pub channel_id : ℕ
  pub private_channel_id : ℕ
  pub owner_type : String
  pub agent_id : String
  pub model_name : String
  pub prompt_tokens : ℕ
  pub completion_tokens : ℕ
  pub cache_read_tokens : ℕ
  pub cache_write_tokens : ℕ
  pub input_cost : ℕ
  pub output_cost : ℕ
  pub total_cost : ℕ
  pub is_stream : Bool
  pub duration : ℕ
  pub first_response_ms : ℕ
  pub created_at : ℕ
  pub token_name : String
  pub channel_name : String
  pub channel_type : ℕ
  pub status : ℕ
  pub inbound_decode_ms : ℕ
  pub outbound_encode_ms : ℕ
  pub upstream_dispatch_ms : ℕ
  pub upstream_decode_ms : ℕ
  pub client_encode_ms : ℕ

-- The answers of the two calls of `time.Now()`, for the date and for the timestamp.
pub record Clock : Type 0 where
  pub date_now : ℕ
  pub now : ℕ

abbrev pub seconds_or : ℕ → UsageLog → ℕ
seconds_or now log = if is_positive log.created_at then log.created_at else now

abbrev pub day_of : ℕ → ℕ
day_of ts = ts / 86400

abbrev pub hour_of : ℕ → ℕ
hour_of ts = ts / 3600 % 24

pub record TokenKey : Type 0 where
  pub date : ℕ
  pub user_id : ℕ
  pub token_id : ℕ

pub record ChannelKey : Type 0 where
  pub date : ℕ
  pub channel_id : ℕ
  pub private_channel_id : ℕ

pub record HourlyKey : Type 0 where
  pub date : ℕ
  pub hour : ℕ
  pub channel_id : ℕ
  pub private_channel_id : ℕ
  pub model_name : String
  pub agent_id : String

-- The ten counters that each of the three tables has.
pub record Counts : Type 0 where
  pub request_count : ℕ
  pub success_count : ℕ
  pub failed_count : ℕ
  pub prompt_tokens : ℕ
  pub completion_tokens : ℕ
  pub cache_read_tokens : ℕ
  pub cache_write_tokens : ℕ
  pub input_cost : ℕ
  pub output_cost : ℕ
  pub total_cost : ℕ

-- The counters of the hourly table: those, the four of streams, the five latencies.
pub record HourlyCounts : Type 0 where
  pub counts : Counts
  pub stream_request_count : ℕ
  pub sum_first_response_ms : ℕ
  pub sum_generation_ms : ℕ
  pub sum_stream_completion_tokens : ℕ
  pub sum_inbound_decode_ms : ℕ
  pub sum_upstream_dispatch_ms : ℕ
  pub sum_upstream_decode_ms : ℕ
  pub sum_outbound_encode_ms : ℕ
  pub sum_client_encode_ms : ℕ

-- What a channel's row says of the channel.
pub record ChannelLabel : Type 0 where
  pub channel_name : String
  pub channel_type : ℕ
  pub owner_type : String

abbrev pub owner_or_admin : UsageLog → String
owner_or_admin log = if str_eq log.owner_type "" then "admin" else log.owner_type

abbrev pub label_of : UsageLog → ChannelLabel
label_of log = record {
  channel_name = log.channel_name;
  channel_type = log.channel_type;
  owner_type = owner_or_admin log;
}

pub token_key_eq :
    (a b : TokenKey)
    → ((a.date == b.date && a.user_id == b.user_id && a.token_id == b.token_id) ≡ true) ↔ (a ≡ b)
token_key_eq a b = (λ h. ground arith, λ h. ground arith)

instance abbrev pub token_key_comparable : Comparable TokenKey
token_key_comparable = record {
  eqb = λ a b. a.date == b.date && a.user_id == b.user_id && a.token_id == b.token_id;
  eqb_iff = token_key_eq;
}

pub channel_key_eq :
    (a b : ChannelKey)
    → ((a.date == b.date
          && a.channel_id == b.channel_id
          && a.private_channel_id == b.private_channel_id)
        ≡ true)
      ↔ (a ≡ b)
channel_key_eq a b = (λ h. ground arith, λ h. ground arith)

instance abbrev pub channel_key_comparable : Comparable ChannelKey
channel_key_comparable = record {
  eqb = λ a b.
      a.date == b.date
      && a.channel_id == b.channel_id
      && a.private_channel_id == b.private_channel_id;
  eqb_iff = channel_key_eq;
}

pub hourly_key_eq :
    (a b : HourlyKey)
    → ((a.date == b.date
          && a.hour == b.hour
          && a.channel_id == b.channel_id
          && a.private_channel_id == b.private_channel_id
          && str_eq a.model_name b.model_name
          && str_eq a.agent_id b.agent_id)
        ≡ true)
      ↔ (a ≡ b)
hourly_key_eq a b = (
  λ h. ground (arith, eq_iff a.model_name b.model_name, eq_iff a.agent_id b.agent_id),
  λ h. ground (arith, eq_iff a.model_name b.model_name, eq_iff a.agent_id b.agent_id),
)

instance abbrev pub hourly_key_comparable : Comparable HourlyKey
hourly_key_comparable = record {
  eqb = λ a b.
      a.date == b.date
      && a.hour == b.hour
      && a.channel_id == b.channel_id
      && a.private_channel_id == b.private_channel_id
      && str_eq a.model_name b.model_name
      && str_eq a.agent_id b.agent_id;
  eqb_iff = hourly_key_eq;
}
