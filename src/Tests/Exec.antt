-- ===== src/Tests/Exec.antt =====
-- The executor and its runner at concrete inputs.
use vaala_ai_gateway.Prelude.{
  All, ℕ, zero, suc, ◌+◌, ◌≡◌, refl, subst, sym, inl, inr, ℤ, pos, pos_part, ltb_ℤ, ltb, Bool, true,
  false, not, ◌&&◌, [], ◌∷◌, Option, none, some, arith, IsIn, Bool-cases, if◌then◌else◌,
}
use vaala_ai_gateway.Utils.SyncMap
use vaala_ai_gateway.Relay.State.{
  admin, Attempt, AttemptResult, upstream, failed_result, RelayInput, RelayMode, Protocol,
}
use vaala_ai_gateway.Relay.Resilience.{Config, resolve}
use vaala_ai_gateway.Relay.Resilience.Breakers.{
  breaker_key_comparable, BreakerKey, BreakerEntry, Registry, idle_ttl,
}
use vaala_ai_gateway.Relay.Resilience.Breakers
use vaala_ai_gateway.Relay.Resilience.Breakers.Kept.{get_keeps, same_key}
use vaala_ai_gateway.Relay.Resilience.Policy
use vaala_ai_gateway.Relay.Resilience.Policy.{
  Failsafe, Tried, empty_result, RunnerState, config_of, retries, aborts, result_of,
}
use vaala_ai_gateway.Relay.Resilience.Retried.{IsRetried, run-IsRetried}
use vaala_ai_gateway.Relay.Exec
use vaala_ai_gateway.Relay.Exec.{
  ExecEnv, ExecState, ResilientRunner, dispatch_once, run_attempt, run_from,
}
use vaala_ai_gateway.Relay.Exec.Logged.{logged, Continues, AllButLast}
use vaala_ai_gateway.Relay.Exec.Runner.{resilient_runner, resilient_runner-IsCareful}
use vaala_ai_gateway.Relay.Exec.Dispatches.{run-dispatches, IsCareful}
use vaala_ai_gateway.Agent.RouteIndex.{RouteIndex, routes_of, find_in_channels, match_route}
use vaala_ai_gateway.Agent.RouteIndex.Found.{applies, match_route-none}
use vaala_ai_gateway.Tests.Plan.{channel}

-- A retry loop with no breaker: each of the retries that are left is made if it is called for.
unfoldable retry_loop :
    {S : Type 0}
    → ℕ
    → (AttemptResult → Bool)
    → (AttemptResult → Bool)
    → (S → AttemptResult × S)
    → S
    → AttemptResult × S
retry_loop zero handle abort dispatch s = dispatch s
retry_loop (suc n) handle abort dispatch s =
    let (res, s') = dispatch s in
    let later = retry_loop n handle abort dispatch s' in
    if handle res && not (abort res) then later else (res, s')

retry_loop-Tried :
    {S : Type 0} (left : ℕ) (handle abort : AttemptResult → Bool) (dispatch : S → AttemptResult × S)
    (s : S)
    → (n : ℕ) × Tried handle abort dispatch left n s
        (some (retry_loop left handle abort dispatch s).0)
        (retry_loop left handle abort dispatch s).1
unfolding retry_loop
retry_loop-Tried zero handle abort dispatch s = (1, Tried.settled (inr (inr refl)))
retry_loop-Tried (suc left) handle abort dispatch s = elim (Bool-cases (handle (dispatch s).0)) [
  | inl h ↦ elim (Bool-cases (abort (dispatch s).0)) [
    | inl k ↦ rw (h, k) (1, Tried.settled (inr (inl k)))
    | inr k ↦
        let (n, t) = retry_loop-Tried left handle abort dispatch (dispatch s).1 in
        rw (h, k) (suc n, Tried.again h k t)
  ]
  | inr h ↦ rw h (1, Tried.settled (inl h))
]

abbrev run_loop :
    {S : Type 0}
    → ℤ
    → ℤ
    → ℤ
    → (AttemptResult → Bool)
    → (AttemptResult → Bool)
    → ℕ
    → (S → AttemptResult × S)
    → ℕ × S
    → Option AttemptResult × ℕ × S
unfolding retry_loop
run_loop times base max handle abort cb dispatch (heap, s) =
    let (res, s') = retry_loop (pos_part times) handle abort dispatch s in (some res, heap, s')

run_loop-Tried :
    {S : Type 0} (times base max : ℤ) (handle abort : AttemptResult → Bool) (cb : ℕ)
    (dispatch : S → AttemptResult × S) (heap : ℕ) (s : S)
    → ltb_ℤ times (pos 0) ≡ false
    → handle empty_result ≡ false
    → let (o, heap', s') = run_loop times base max handle abort cb dispatch (heap, s) in
      (n : ℕ) × Tried handle abort dispatch (pos_part times) n s o s'
unfolding run_loop
run_loop-Tried times base max handle abort cb dispatch heap s h unhandled =
    retry_loop-Tried (pos_part times) handle abort dispatch s

abbrev retrying : Failsafe
retrying = record {
  Heap = ℕ;
  Breaker = ℕ;
  build_breaker = λ threshold delay counts heap. (heap, heap + 1);
  execute = run_loop;
  execute_tries = run_loop-Tried;
}

abbrev pub base_config : Config
base_config = record {
  max_retries = pos 1;
  backoff_base_ms = pos 10;
  backoff_max_ms = pos 100;
  breaker_threshold = pos 5;
  breaker_cooldown_ms = pos 1000;
}

abbrev attempt : ℕ → Attempt
attempt id = record {
  channel = channel id (pos 1) (pos 0);
  real_model = "a";
  mode = RelayMode.native;
  source = admin;
  source_id = id;
  by_affinity = false;
}

abbrev ok_result : AttemptResult
ok_result =
    record (failed_result (upstream (record { status = pos 0; provider_error_type = "" }))) {
      err = none;
    }

-- The provider fails twice with 502, and then answers. The world counts the dispatches.
abbrev flaky : Attempt → ℕ → AttemptResult × ℕ
flaky a w = (
  if ltb w 2
      then failed_result (upstream (record { status = pos 502; provider_error_type = "" }))
      else ok_result,
  w + 1,
)

abbrev env : ExecEnv ℕ
env = record {
  dispatch = flaky;
  reset_attempt = λ w. w;
  snapshot_attempt = λ w. w;
  last_snapshot_verbose = λ w. false;
  reset_body = λ w. w;
  now_ms = λ w. w;
  error_text = λ e. [];
  Route = ℕ;
  match_route = none;
  forward = λ route w. (false, w);
  sleep_ms = none;
  sleep = λ ms w. (none, w);
}

abbrev input : RelayInput
input = record {
  user_info = none;
  model = "a";
  inbound_proto = Protocol.openai_chat;
  forced_channel_id = 0;
}

abbrev start : RunnerState retrying
start = record { breakers = []; heap = 0 }

abbrev runner : ResilientRunner
runner = resilient_runner retrying (λ k. base_config) (λ k. (0, 0))

careful : (a : Attempt) → IsIn a (attempt 1 ∷ attempt 2 ∷ []) → IsCareful runner a
careful a i = resilient_runner-IsCareful retrying (λ k. base_config) (λ k. (0, 0)) a (λ k. fits a i)
  where
    fits :
        (a : Attempt)
        → IsIn a (attempt 1 ∷ attempt 2 ∷ [])
        → ltb_ℤ (config_of retrying base_config a).max_retries (pos 0) ≡ false
    fits a (inl e) =
        subst
          (λ (b : Attempt). ltb_ℤ (config_of retrying base_config b).max_retries (pos 0) ≡ false)
          (sym e) (unfold resolve in refl)
    fits a (inr (inl e)) =
        subst
          (λ (b : Attempt). ltb_ℤ (config_of retrying base_config b).max_retries (pos 0) ≡ false)
          (sym e) (unfold resolve in refl)
    fits a (inr (inr i)) = elim i [ ]

run-dispatches_example :
    AllButLast Continues
      (Exec.run
        (logged env)
        input
        runner
        true
        (attempt 1 ∷ attempt 2 ∷ [])
        (0, [])
        (start, 0)
        none).world.1
run-dispatches_example =
    run-dispatches env input runner true (attempt 1 ∷ attempt 2 ∷ []) 0 (start, 0) none careful

run-IsRetried_example :
    IsRetried base_config
      (attempt 1)
      (flaky (attempt 1))
      0
      (Policy.run retrying base_config 0 0 (attempt 1) (flaky (attempt 1)) start 0).0
      (Policy.run retrying base_config 0 0 (attempt 1) (flaky (attempt 1)) start 0).2
unfolding resolve
run-IsRetried_example =
    run-IsRetried retrying base_config 0 0 (attempt 1) (flaky (attempt 1)) start 0 refl

abbrev key : BreakerKey
key = record { source = admin; id = 1 }

abbrev breakers : Registry ℕ ℕ (λ cfg h. (h, h + 1))
breakers = (key, record { cb = 7; exp = 100 }) ∷ []

get_keeps_example :
    let (cb, m', h') = Breakers.get ℕ ℕ (λ cfg h. (h, h + 1)) 50 60 key base_config breakers 8 in
    (SyncMap.load m' key
      ≡ some (
          if same_key key key
          then record { cb = 7; exp = 60 + idle_ttl }
          else record { cb = 7; exp = 100 }))
    × (key ≡ key → (cb ≡ 7) × (h' ≡ 8))
get_keeps_example =
    get_keeps ℕ ℕ (λ cfg h. (h, h + 1)) 50 60 key key base_config breakers 8
      (record { cb = 7; exp = 100 }) (unfold SyncMap.load in refl) (omega arith)

abbrev route_index : RouteIndex
route_index = record {
  routes = [];
  by_token = [];
  by_channel =
      (
        4,
        record { id = 1; source_type = "channel"; source_id = 4; model = "b"; priority = pos 0 }
            ∷ [],
      )
      ∷ [];
}

match_route-none_example :
    All (λ r. applies "a" r ≡ false) (routes_of route_index.by_token 2)
    × All
        (λ id. All (λ r. applies "a" r ≡ false) (routes_of route_index.by_channel id))
        (4 ∷ 5 ∷ [])
match_route-none_example = match_route-none route_index 2 "a" (4 ∷ 5 ∷ []) no_match
  where
    no_match : match_route route_index 2 "a" (4 ∷ 5 ∷ []) ≡ none
    no_match =
        unfold match_route in
        unfold find_in_channels in unfold routes_of in unfold SyncMap.load in refl
