-- ===== src/Relay/Resilience.antt =====
-- internal/agent/relay/resilience: classify.go and config.go. What follows from the result of a
-- dispatch, and the parameters of a channel.
pub mod Breakers
pub mod Policy
pub mod Validate
pub mod Retried
use vaala_ai_gateway.Prelude.{
  ℤ, pos, eq_ℤ, ltb_ℤ, Bool, true, false, not, ◌&&◌, ◌||◌, Option, none, some, if◌then◌else◌,
}
use vaala_ai_gateway.Relay.State.{
  Err, UpstreamError, AttemptResult, ChannelResilience, is_canceled, as_upstream,
  is_invalid_request,
}

pub record Decision : Type 0 where
  pub retry_same_channel : Bool
  pub count_to_breaker : Bool
  pub abort_all : Bool

abbrev pub decision : Bool → Bool → Bool → Decision
decision retry count abort = record {
  retry_same_channel = retry;
  count_to_breaker = count;
  abort_all = abort;
}

-- The cases of a structured upstream error, in the order of the `switch`.
unfoldable pub classify_upstream : UpstreamError → Decision
classify_upstream u =
    if is_invalid_request u
    then decision false false true
    else if eq_ℤ u.status (pos 0) || not (ltb_ℤ u.status (pos 500)) || eq_ℤ u.status (pos 429)
    then decision true true false
    else if eq_ℤ u.status (pos 401) || eq_ℤ u.status (pos 403)
    then decision false true false
    else decision false false false

unfoldable pub classify_error : Bool → Err → Decision
unfolding classify_upstream is_canceled as_upstream
classify_error written e =
    if written || is_canceled e
    then decision false false true
    else elim (as_upstream e) [ none ↦ decision true true false | some u ↦ classify_upstream u ]

unfoldable pub classify : AttemptResult → Decision
unfolding classify_error
classify res = elim res.err [
  | none ↦ decision false false false
  | some e ↦ classify_error res.written e
]

pub record Config : Type 0 where
  pub max_retries : ℤ
  pub backoff_base_ms : ℤ
  pub backoff_max_ms : ℤ
  pub breaker_threshold : ℤ
  pub breaker_cooldown_ms : ℤ

abbrev pub override : ℤ → Option ℤ → ℤ
override default none = default
override default (some n) = n

unfoldable pub resolve : Config → Option ChannelResilience → Config
resolve global none = global
resolve global (some o) = record {
  max_retries = override global.max_retries o.max_retries;
  backoff_base_ms = override global.backoff_base_ms o.backoff_base_ms;
  backoff_max_ms = override global.backoff_max_ms o.backoff_max_ms;
  breaker_threshold = override global.breaker_threshold o.breaker_threshold;
  breaker_cooldown_ms = override global.breaker_cooldown_ms o.breaker_cooldown_ms;
}
