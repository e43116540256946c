-- ===== src/Master/Settler/Log.antt =====
-- internal/master/billing/settler.go: the row that `settleOne` stores.
use vaala_ai_gateway.Prelude.{ℕ, Bool, String, str_eq, Option, none, some, ◌==◌, if◌then◌else◌}
use vaala_ai_gateway.Master.Settler.{
  Float64, Trace, UsageLogEntry, ModelPrices, zero_prices, Costs, Billed, ByokSettings, raw_costs,
  bill,
}
use vaala_ai_gateway.Master.Settler.Store.{StoredLog}

-- What the settlement reads from elsewhere: `GetByModelName`, the settings, `json.Unmarshal`,
-- `strings.TrimSpace(s) == ""`, and the clock behind `autoCreateTime`.
pub record Env (F Body : Type 0) : Type 0 where
  pub prices : String → Option (ModelPrices F)
  pub settings : ByokSettings F
  pub unmarshal_trace : String → Option (Trace Body)
  pub unmarshal_snapshot : String → Option (String × ℕ)
  pub is_blank : String → Bool
  pub now : ℕ

abbrev pub snapshot_or : Option (String × ℕ) → String × ℕ
snapshot_or none = ("", 0)
snapshot_or (some snapshot) = snapshot

module _ (float : Float64) {Body : Type 0} (env : Env float.F Body) where
  unfoldable pub parse_channel_snapshot : String → String × ℕ
  parse_channel_snapshot other =
      if env.is_blank other then ("", 0) else snapshot_or (env.unmarshal_snapshot other)

  abbrev pub prices_or : Option (ModelPrices float.F) → ModelPrices float.F
  prices_or none = zero_prices float
  prices_or (some mc) = mc

  unfoldable pub model_prices : String → ModelPrices float.F
  model_prices name = if env.is_blank name then zero_prices float else prices_or (env.prices name)

  abbrev pub created_at_or : ℕ → ℕ
  created_at_or timestamp = if timestamp == 0 then env.now else timestamp

  -- The row, with the `CreatedAt` and the default `OwnerType` that its insertion fills in.
  unfoldable pub build_log :
      String → UsageLogEntry float.F Body → Costs → Billed float.F → StoredLog float.F
  unfolding parse_channel_snapshot
  build_log agent_id entry raw billed =
      let channel = parse_channel_snapshot entry.other in
      record {
        counted = record {
          user_id = entry.user_id;
          token_id = entry.token_id;
          channel_id = entry.channel_id;
          private_channel_id = entry.private_channel_id;
          owner_type = if str_eq entry.owner_type "" then "admin" else entry.owner_type;
          agent_id = agent_id;
          model_name = entry.model_name;
          prompt_tokens = entry.prompt_tokens;
          completion_tokens = entry.completion_tokens;
          cache_read_tokens = entry.cache_read_tokens;
          cache_write_tokens = entry.cache_write_tokens;
          input_cost = billed.costs.input;
          output_cost = billed.costs.output;
          total_cost = billed.costs.total;
          is_stream = entry.is_stream;
          duration = entry.duration;
          first_response_ms = entry.first_response_ms;
          created_at = created_at_or entry.timestamp;
          token_name = entry.token_name;
          channel_name = channel.0;
          channel_type = channel.1;
          status = entry.status;
          inbound_decode_ms = entry.inbound_decode_ms;
          outbound_encode_ms = entry.outbound_encode_ms;
          upstream_dispatch_ms = entry.upstream_dispatch_ms;
          upstream_decode_ms = entry.upstream_decode_ms;
          client_encode_ms = entry.client_encode_ms;
        };
        cache_read_cost = billed.costs.cache_read;
        cache_write_cost = billed.costs.cache_write;
        raw_input_cost = raw.input;
        raw_output_cost = raw.output;
        raw_cache_read_cost = raw.cache_read;
        raw_cache_write_cost = raw.cache_write;
        billing_factor = billed.billing_factor;
        free = entry.free;
        price_ratio = billed.price_ratio;
        request_id = entry.request_id;
        client_ip = entry.client_ip;
        upstream_model = entry.upstream_model;
        inbound_protocol = entry.inbound_protocol;
        outbound_protocol = entry.outbound_protocol;
        use_legacy = entry.use_legacy;
        error_message = entry.error_message;
        other = entry.other;
        fallback_chain = entry.fallback_chain;
        token_source = entry.token_source;
        routing_name = entry.routing_name;
        affinity_status = entry.affinity_status;
        affinity_recorded = entry.affinity_recorded;
        error_stage = entry.error_stage;
      }

  unfoldable pub settled_log : String → UsageLogEntry float.F Body → StoredLog float.F
  unfolding model_prices raw_costs bill build_log
  settled_log agent_id entry =
      let raw = raw_costs float entry (model_prices entry.model_name) in
      build_log agent_id entry raw (bill float env.settings entry raw)
