-- ===== src/Master/Settler.antt =====
-- internal/master/billing/settler.go: what a request costs. `float64` is a parameter, as are its
-- conversions; an `int` or `int64` is the number of its word.
pub mod Store
pub mod Log
pub mod Settle
pub mod Steps
pub mod Outcome
pub mod Charged
pub mod Again
use vaala_ai_gateway.Prelude.{
  ℕ, Bool, true, false, ◌&&◌, String, str_eq, List, Option, none, some, if◌then◌else◌,
}
use vaala_ai_gateway.Master.Billing.{add64, is_positive}
use vaala_ai_gateway.Relay.Exec.{AttemptRecord}

-- The operations on `float64` that the costs use. `of_int` and `to_int` are Go's conversions from
-- and to `int64`.
pub record Float64 : Type 1 where
  pub F : Type 0
  pub of_int : ℕ → F
  pub to_int : F → ℕ
  pub times : F → F → F
  pub divided_by : F → F → F
  pub is_above_zero : F → Bool
  pub is_at_most_zero : F → Bool

abbrev pub quota_per_dollar : ℕ
quota_per_dollar = 100000

-- A row of `models.UsageLogTrace`; `Body` stands for what the columns beside these hold.
pub record Trace (Body : Type 0) : Type 0 where
  pub request_id : String
  pub attempt_index : ℕ
  pub body : Body

-- `protocol.UsageLogEntry`
pub record UsageLogEntry (F Body : Type 0) : Type 0 where
  pub request_id : String
  pub user_id : ℕ
  pub token_id : ℕ
  pub channel_id : ℕ
  pub private_channel_id : ℕ
  pub owner_type : String
  pub model_name : String
  pub prompt_tokens : ℕ
  pub completion_tokens : ℕ
  pub is_stream : Bool
  pub duration : ℕ
  pub client_ip : String
  pub timestamp : ℕ
  pub token_name : String
  pub upstream_model : String
  pub first_response_ms : ℕ
  pub cache_read_tokens : ℕ
  pub cache_write_tokens : ℕ
  pub inbound_protocol : String
  pub outbound_protocol : String
  pub use_legacy : Bool
  pub status : ℕ
  pub error_message : String
  pub trace_data : String
  pub other : String
  pub token_source : String
  pub routing_name : String
  pub affinity_status : String
  pub affinity_recorded : Bool
  pub error_stage : String
  pub inbound_decode_ms : ℕ
  pub outbound_encode_ms : ℕ
  pub upstream_dispatch_ms : ℕ
  pub upstream_decode_ms : ℕ
  pub client_encode_ms : ℕ
  pub price_ratio : F
  pub free : Bool
  pub fallback_chain : List AttemptRecord
  pub attempt_traces : List (Trace Body)

-- The prices of `models.ModelConfig`, in dollars for a million tokens.
pub record ModelPrices (F : Type 0) : Type 0 where
  pub input_price : F
  pub output_price : F
  pub cache_read_price : F
  pub cache_write_price : F

-- The four buckets and their total.
pub record Costs : Type 0 where
  pub input : ℕ
  pub output : ℕ
  pub cache_read : ℕ
  pub cache_write : ℕ
  pub total : ℕ

-- Go adds from the left.
abbrev pub sum_of : ℕ → ℕ → ℕ → ℕ → ℕ
sum_of a b c d = add64 (add64 (add64 a b) c) d

abbrev pub costs_of : ℕ → ℕ → ℕ → ℕ → Costs
costs_of a b c d = record {
  input = a;
  output = b;
  cache_read = c;
  cache_write = d;
  total = sum_of a b c d;
}

abbrev pub no_costs : Costs
no_costs = record { input = 0; output = 0; cache_read = 0; cache_write = 0; total = 0 }

-- What the settings say of the channels of users: `byok_billing_mode`, `byok_service_fee_ratio`.
pub record ByokSettings (F : Type 0) : Type 0 where
  pub billing_mode : String
  pub service_fee_ratio : F

-- The outcome of the three ways to bill: the costs, `PriceRatio` and `BillingFactor`.
pub record Billed (F : Type 0) : Type 0 where
  pub costs : Costs
  pub price_ratio : F
  pub billing_factor : F

module _ (float : Float64) where
  abbrev pub zero_prices : ModelPrices float.F
  zero_prices = record {
    input_price = float.of_int 0;
    output_price = float.of_int 0;
    cache_read_price = float.of_int 0;
    cache_write_price = float.of_int 0;
  }

  -- `int64(float64(tokens) * price / 1_000_000 * float64(quotaPerDollar))`
  unfoldable pub bucket_cost : ℕ → float.F → ℕ
  bucket_cost tokens price = float.to_int (
      float.times
        (float.divided_by (float.times (float.of_int tokens) price) (float.of_int 1000000))
        (float.of_int quota_per_dollar))

  unfoldable pub cache_cost : ℕ → float.F → ℕ
  unfolding bucket_cost
  cache_cost tokens price =
      if is_positive tokens && float.is_above_zero price then bucket_cost tokens price else 0

  unfoldable pub raw_costs :
      {Body : Type 0} → UsageLogEntry float.F Body → ModelPrices float.F → Costs
  unfolding bucket_cost cache_cost
  raw_costs entry mc =
      costs_of (bucket_cost entry.prompt_tokens mc.input_price)
        (bucket_cost entry.completion_tokens mc.output_price)
        (cache_cost entry.cache_read_tokens mc.cache_read_price)
        (cache_cost entry.cache_write_tokens mc.cache_write_price)

  abbrev pub scale : ℕ → float.F → ℕ
  scale cost ratio = float.to_int (float.times (float.of_int cost) ratio)

  -- Each bucket on its own, and the total as their sum.
  abbrev pub scale_costs : Costs → float.F → Costs
  scale_costs c ratio =
      costs_of (scale c.input ratio) (scale c.output ratio) (scale c.cache_read ratio)
        (scale c.cache_write ratio)

  -- The costs, the mode and the factor.
  unfoldable pub apply_byok_billing_mode :
      {Body : Type 0}
      → ByokSettings float.F
      → UsageLogEntry float.F Body
      → Costs
      → Costs × String × float.F
  apply_byok_billing_mode settings entry c =
      if str_eq entry.owner_type "private"
      then (if str_eq settings.billing_mode "service_fee"
          then (
            scale_costs c settings.service_fee_ratio,
            settings.billing_mode,
            settings.service_fee_ratio,
          )
          else (no_costs, settings.billing_mode, float.of_int 0))
      else (c, "", float.of_int 0)

  unfoldable pub apply_channel_price_ratio :
      {Body : Type 0} → UsageLogEntry float.F Body → Costs → Costs × float.F
  apply_channel_price_ratio entry c =
      let ratio =
        if float.is_at_most_zero entry.price_ratio then float.of_int 1 else entry.price_ratio in
      (scale_costs c ratio, ratio)

  abbrev pub bill_public : {Body : Type 0} → UsageLogEntry float.F Body → Costs → Billed float.F
  unfolding apply_channel_price_ratio
  bill_public entry c =
      let priced = apply_channel_price_ratio entry c in
      record { costs = priced.0; price_ratio = priced.1; billing_factor = priced.1 }

  abbrev pub bill_byok :
      {Body : Type 0} → UsageLogEntry float.F Body → Costs × String × float.F → Billed float.F
  unfolding apply_channel_price_ratio
  bill_byok entry (c, mode, factor) =
      if str_eq mode ""
      then bill_public entry c
      else record { costs = c; price_ratio = float.of_int 1; billing_factor = factor }

  -- The `switch` over `free`.
  unfoldable pub bill :
      {Body : Type 0} → ByokSettings float.F → UsageLogEntry float.F Body → Costs → Billed float.F
  unfolding apply_byok_billing_mode apply_channel_price_ratio
  bill settings entry c =
      if entry.free
      then record {
        costs = no_costs;
        price_ratio = float.of_int 1;
        billing_factor = float.of_int 0;
      }
      else bill_byok entry (apply_byok_billing_mode settings entry c)
