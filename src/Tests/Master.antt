-- ===== src/Tests/Master.antt =====
-- The limits, the heartbeats, the parameters of a channel and the sticky channels at concrete
-- inputs.
use vaala_ai_gateway.Prelude.{
  ◌≡◌, refl, ℤ, pos, eq_ℤ, true, false, String, str_eq, List, [], ◌∷◌, Option, none, some,
  if◌then◌else◌,
}
use vaala_ai_gateway.Utils.SyncMap
use vaala_ai_gateway.Relay.State.{admin, ChannelResilience}
use vaala_ai_gateway.Relay.Affinity.{Key, AffinityEngine, key_comparable}
use vaala_ai_gateway.Relay.Affinity.Engine
use vaala_ai_gateway.Relay.Affinity.Sticky.{lookup-remember, lookup-forget}
use vaala_ai_gateway.Relay.Resilience.{resolve}
use vaala_ai_gateway.Relay.Resilience.Validate.{IsInRange, resolve-IsInRange, validate}
use vaala_ai_gateway.Master.Limit.{
  LimitRule, ChannelLimit, Verdict, LimitedChannel, enabled, no_state, reconcile, evaluate_limit,
  tick_channel,
}
use vaala_ai_gateway.Master.Limit.Settled.{reconcile_settles, tick_channel-disables}
use vaala_ai_gateway.Master.Heartbeat.{
  HeartbeatTracker, touch, flush, string_comparable, contains_name,
}
use vaala_ai_gateway.Master.Heartbeat.Touched.{IsPending, touch-IsPending, flush-IsPending}
use vaala_ai_gateway.Tests.Exec.{base_config}

abbrev rule : LimitRule
rule = record { metric = "calls"; window = "daily"; days = pos 0; threshold = pos 100 }

abbrev limit : ChannelLimit
limit = record { disable_at = pos 0; rules = rule ∷ [] }

abbrev over : Verdict
over = record { should_disable = true; reason = "calls/daily"; auto_recover = true }

abbrev row : ℤ → LimitedChannel
row status = record { id = 1; status = status; limit = limit; limit_state = no_state }

abbrev used : LimitedChannel → LimitRule → Option ℤ
used ch r = some (pos 120)

reconcile_settles_example :
    let next = reconcile (pos 1) no_state over (pos 10) in
    (reconcile next.status next.state over (pos 20)).changed ≡ false
reconcile_settles_example = reconcile_settles (pos 1) no_state over (pos 10) (pos 20)

tick_channel-disables_example :
    eq_ℤ (tick_channel used (λ id. true) (pos 10) (row enabled)).status enabled ≡ false
tick_channel-disables_example =
    tick_channel-disables used (λ id. true) (pos 10) (row enabled) over
      (unfold evaluate_limit in refl) refl refl

abbrev tracker : HeartbeatTracker
tracker = record { seen = ("x", pos 5) ∷ []; dirty = "x" ∷ []; cfg_fp = [] }

x-IsPending : IsPending "x" (pos 5) tracker
unfolding contains_name SyncMap.load
x-IsPending = (refl, refl)

touch-IsPending_example :
    IsPending "x" (if str_eq "x" "y" then pos 9 else pos 5) (touch "y" (pos 9) tracker)
touch-IsPending_example = touch-IsPending "y" "x" (pos 9) (pos 5) tracker (λ h. x-IsPending)

flush-IsPending_example :
    let (t', given) = flush true tracker in
    (t'.dirty ≡ [])
    × (t'.seen ≡ tracker.seen)
    × ((snapshot : List (String × ℤ)) × (given ≡ some snapshot)
        × (SyncMap.load snapshot "x" ≡ some (pos 5)))
flush-IsPending_example = flush-IsPending "x" (pos 5) tracker x-IsPending

abbrev overrides : ChannelResilience
overrides = record {
  max_retries = some (pos 3);
  backoff_base_ms = none;
  backoff_max_ms = none;
  breaker_threshold = none;
  breaker_cooldown_ms = none;
}

resolve-IsInRange_example : IsInRange (resolve base_config (some overrides))
resolve-IsInRange_example =
    resolve-IsInRange base_config overrides
      (record {
        max_retries = refl;
        backoff_base_ms = refl;
        backoff_max_ms = refl;
        breaker_threshold = refl;
        breaker_cooldown_ms = refl;
      })
      (unfold validate in refl)

abbrev engine : AffinityEngine
engine = record {
  entries = [];
  cfg = some (record { affinity_enabled = pos 1; affinity_ttl_sec = pos 60 });
}

abbrev user_a : Key
user_a = record { user_id = 1; real_model = "a" }

abbrev user_b : Key
user_b = record { user_id = 1; real_model = "b" }

lookup-remember_example :
    (Engine.lookup 20 (Engine.remember 7 8 engine user_a admin 3) user_a).1
    ≡ some (record { source = admin; source_id = 3; expires_at = 60000000007 })
unfolding Engine.ttl
lookup-remember_example = lookup-remember 7 8 20 engine user_a admin 3 refl

lookup-forget_example :
    (Engine.lookup 20 (Engine.forget engine user_a) user_b).1
    ≡ (if key_comparable.eqb user_a user_b then none else (Engine.lookup 20 engine user_b).1)
lookup-forget_example = lookup-forget 20 engine user_a user_b
