-- ===== src/Relay/State.antt =====
-- internal/agent/relay/state: the data that the stages of the relay pipeline share, with the parts
-- of `models.Channel` and `app.UserInfo` that they read.
use vaala_ai_gateway.Prelude.{
  ℕ, ℤ, pos, eq_ℤ, Bool, true, false, ◌&&◌, str_eq, String, List, Option, none, some,
}

-- A shared channel of the administrator, or a private channel of the user; their identifiers are
-- two separate spaces.
pub data ChannelSource : Type 0 where
  admin private : ChannelSource

abbrev pub source_eq : ChannelSource → ChannelSource → Bool
source_eq admin admin = true
source_eq private private = true
source_eq _ _ = false

pub data RelayMode : Type 0 where
  native passthrough legacy : RelayMode

pub data Protocol : Type 0 where
  openai_chat openai_responses claude gemini unknown : Protocol

-- The overrides of a channel; `none` is a nil pointer.
pub record ChannelResilience : Type 0 where
  pub max_retries : Option ℤ
  pub backoff_base_ms : Option ℤ
  pub backoff_max_ms : Option ℤ
  pub breaker_threshold : Option ℤ
  pub breaker_cooldown_ms : Option ℤ

pub record Channel : Type 0 where
  pub id : ℕ
  pub name : String
  pub status : ℤ
  pub weight : ℕ
  pub priority : ℤ
  pub resilience : ChannelResilience

pub record UserInfo : Type 0 where
  pub user_id : ℕ
  pub token_id : ℕ
  pub token_models : List String
  pub allowed_channel_ids : List ℕ
  pub group_models : List String
  pub group_allowed_channel_ids : List ℕ

-- The request as the context builder leaves it.
pub record RelayInput : Type 0 where
  pub user_info : Option UserInfo
  pub model : String
  pub inbound_proto : Protocol
  pub forced_channel_id : ℕ

pub record Attempt : Type 0 where
  pub channel : Channel
  pub real_model : String
  pub mode : RelayMode
  pub source : ChannelSource
  pub source_id : ℕ
  pub by_affinity : Bool

pub record AttemptPlan : Type 0 where
  pub attempts : List Attempt
  pub routing_name : String
  pub trace : List String
  pub had_affinity_entry : Bool

pub record UpstreamError : Type 0 where
  pub status : ℤ
  pub provider_error_type : String

-- Go's error values: the sentinels, `context.Canceled`, the structured upstream error, the open
-- breaker of a channel, any other error, and an error that wraps another.
pub data Err : Type 0 where
  read_body invalid_body model_required invalid_forced_channel_id : Err
  no_routable_model no_channel_available model_not_allowed routing_fallback : Err
  canceled : Err
  upstream : UpstreamError → Err
  breaker_open : ℕ → Err
  other : String → Err
  wrap : String → Err → Err

-- Go's `errors.Is` and `errors.As`, which follow the wrapped errors.
unfoldable pub is_canceled : Err → Bool
is_canceled canceled = true
is_canceled (wrap message e) = is_canceled e
is_canceled _ = false

unfoldable pub is_breaker_open : Err → Bool
is_breaker_open (breaker_open id) = true
is_breaker_open (wrap message e) = is_breaker_open e
is_breaker_open _ = false

unfoldable pub as_upstream : Err → Option UpstreamError
as_upstream (upstream u) = some u
as_upstream (wrap message e) = as_upstream e
as_upstream _ = none

pub record AttemptResult : Type 0 where
  pub prompt_tokens : ℤ
  pub completion_tokens : ℤ
  pub cache_read_tokens : ℤ
  pub cache_write_tokens : ℤ
  pub first_response_ms : ℤ
  pub upstream_model : String
  pub written : Bool
  pub err : Option Err
  pub token_source : String
  pub response_text : String

-- The zero value with an error.
abbrev pub failed_result : Err → AttemptResult
failed_result e = record {
  prompt_tokens = pos 0;
  completion_tokens = pos 0;
  cache_read_tokens = pos 0;
  cache_write_tokens = pos 0;
  first_response_ms = pos 0;
  upstream_model = "";
  written = false;
  err = some e;
  token_source = "";
  response_text = "";
}

-- 400 with the provider's `invalid_request_error`: the request itself is at fault.
abbrev pub is_invalid_request : UpstreamError → Bool
is_invalid_request u =
    eq_ℤ u.status (pos 400) && str_eq u.provider_error_type "invalid_request_error"
