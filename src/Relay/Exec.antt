-- ===== src/Relay/Exec.antt =====
-- internal/agent/relay/pipeline/exec: exec.go and forward.go, the walk over the planned attempts.
-- The world `W` holds what the executor's collaborators change: the client's response, the trace
-- recorder, the clock. An attempt of a plan has a channel; the guards for a nil one are left out.
pub mod Runner
pub mod Logged
pub mod Dispatches
use vaala_ai_gateway.Prelude.{
  ℕ, zero, suc, ◌+◌, ◌-◌, ℤ, pos, pos_part, ltb_ℤ, ltb, Bool, true, false, not, ◌&&◌, ◌||◌, String,
  List, [], ◌∷◌, ◌++◌, Option, none, some, if◌then◌else◌, ◌==◌, length, filter,
}
use vaala_ai_gateway.Relay.State.{
  ChannelSource, UserInfo, RelayInput, Attempt, AttemptResult, Err, UpstreamError, is_canceled,
  is_breaker_open, as_upstream, is_invalid_request,
}
use vaala_ai_gateway.Relay.Affinity.{Key, AffinityEngine}
use vaala_ai_gateway.Relay.Affinity.Engine
use vaala_ai_gateway.Relay.Plan.{contains_id, is_empty}

pub record AttemptRecord : Type 0 where
  pub seq : ℕ
  pub channel_id : ℕ
  pub channel_name : String
  pub source : ChannelSource
  pub real_model : String
  pub retries : ℕ
  pub by_affinity : Bool
  pub breaker_open : Bool
  pub http_status : ℤ
  pub ok : Bool
  pub error_type : String
  pub error_message : List ℕ
  pub duration_ms : ℕ
  pub has_trace : Bool

-- `s[:n]` of a string's bytes.
abbrev pub take : ℕ → List ℕ → List ℕ
take zero s = []
take (suc n) [] = []
take (suc n) (b ∷ s) = b ∷ take n s

-- The bytes of "...".
unfoldable pub truncate_err : List ℕ → List ℕ
truncate_err s = if ltb 256 (length s) then take 256 s ++ 46 ∷ 46 ∷ 46 ∷ [] else s

-- `text` is `Error()`, as bytes. `has_trace` is set by the caller.
unfoldable pub with_error : (Err → List ℕ) → Option Err → AttemptRecord → AttemptRecord
unfolding truncate_err is_breaker_open as_upstream
with_error text none r = r
with_error text (some e) r =
    let r' = record r {
      ok = false;
      error_message = truncate_err (text e);
      breaker_open = is_breaker_open e;
    } in
    elim (as_upstream e) [
      | none ↦ r'
      | some u ↦ record r' { http_status = u.status; error_type = u.provider_error_type }
    ]

unfoldable pub build_attempt_record :
    (Err → List ℕ) → ℕ → Attempt → AttemptResult → ℕ → ℕ → Bool → AttemptRecord
unfolding with_error
build_attempt_record text seq a res dispatches dur_ms has_trace = with_error text res.err (record {
  seq = seq;
  channel_id = if a.source_id == 0 then a.channel.id else a.source_id;
  channel_name = a.channel.name;
  source = a.source;
  real_model = a.real_model;
  retries = dispatches - 1;
  by_affinity = a.by_affinity;
  breaker_open = false;
  http_status = pos 0;
  ok = true;
  error_type = "";
  error_message = [];
  duration_ms = dur_ms;
  has_trace = has_trace;
})

-- The identifiers of the channels, each once, in the order of their first attempts; `seen` are the
-- identifiers before.
unfoldable pub rest_channel_ids : List ℕ → List Attempt → List ℕ
unfolding contains_id
rest_channel_ids seen [] = []
rest_channel_ids seen (a ∷ as') =
    if contains_id seen a.channel.id
    then rest_channel_ids seen as'
    else a.channel.id ∷ rest_channel_ids (a.channel.id ∷ seen) as'

-- The interface `ResilientRunner`, for any state that a dispatch changes.
pub record ResilientRunner : Type 1 where
  pub State : Type 0
  pub run : {S : Type 0} → Attempt → (S → AttemptResult × S) → State → S → AttemptResult × State × S

-- The dispatcher, the recorder, the clock and the settings, as the executor calls them. `match_route`
-- and `forward` are `none` without a forwarder; `sleep_ms` without a `SleepReader`.
pub record ExecEnv (W : Type 0) : Type 1 where
  pub dispatch : Attempt → W → AttemptResult × W
  pub reset_attempt : W → W
  pub snapshot_attempt : W → W
  pub last_snapshot_verbose : W → Bool
  pub reset_body : W → W
  pub now_ms : W → ℕ
  pub error_text : Err → List ℕ
  pub Route : Type 0
  pub match_route : Option (ℕ → String → List ℕ → Option Route)
  pub forward : Route → W → Bool × W
  pub sleep_ms : Option (W → ℤ)
  -- A sleep that the client's disconnect ends gives the context's error.
  pub sleep : ℕ → W → Option Err × W

pub record ExecState (W R : Type 0) : Type 0 where
  pub world : W
  pub runner : R
  pub affinity : Option AffinityEngine
  pub used : Option Attempt
  pub outcome : Option AttemptResult
  pub err : Option Err
  pub history : List AttemptRecord
  pub forwarded : Bool

abbrev pub token_id_of : Option UserInfo → ℕ
token_id_of none = 0
token_id_of (some ui) = ui.token_id

-- A failure after which no other attempt is made.
unfoldable pub ends_request : Bool → Err → Bool
unfolding is_canceled as_upstream
ends_request written e =
    written
    || (is_canceled e || elim (as_upstream e) [ none ↦ false | some u ↦ is_invalid_request u ])

module _ {W : Type 0} (env : ExecEnv W) (input : RelayInput) where
  -- Whether the forwarder took the request over.
  unfoldable pub maybe_forward : Attempt → List Attempt → W → Bool × W
  unfolding rest_channel_ids
  maybe_forward a rest w = elim env.match_route [
    | none ↦ (false, w)
    | some match ↦
        elim (match (token_id_of input.user_info) a.real_model (rest_channel_ids [] (a ∷ rest))) [
          | none ↦ (false, w)
          | some route ↦ env.forward route w
        ]
  ]

  -- The closure `dispatch`, which counts its calls.
  unfoldable pub dispatch_once : Attempt → W × ℕ → AttemptResult × (W × ℕ)
  dispatch_once a (w, n) =
      let (res, w') = env.dispatch a (env.reset_body (env.reset_attempt w)) in (res, (w', n + 1))

  module _ (resilience : ResilientRunner) (wrapped : Bool) where
    -- `wrapped` is false for a nil `Resilience`.
    unfoldable pub run_attempt :
        Attempt → resilience.State → W → AttemptResult × resilience.State × (W × ℕ)
    unfolding dispatch_once
    run_attempt a r w =
        if wrapped
        then resilience.run a (dispatch_once a) r (w, 0)
        else let (res, (w', n)) = dispatch_once a (w, 0) in (res, r, (w', n))

    abbrev pub State : Type 0
    State = ExecState W resilience.State

    -- One candidate: the dispatch, and its record in the history.
    unfoldable pub attempt_once : ℕ → Attempt → State → AttemptResult × State
    unfolding run_attempt build_attempt_record
    attempt_once seq a st =
        let w = env.reset_attempt st.world in
        let (res, r, (w', n)) = run_attempt a st.runner w in
        let w'' = env.snapshot_attempt w' in
        (
          res,
          record st {
            world = w'';
            runner = r;
            used = some a;
            outcome = some res;
            history =
                st.history
                ++ build_attempt_record env.error_text seq a res n (env.now_ms w' - env.now_ms w)
                    (env.last_snapshot_verbose w'')
                  ∷ [];
          },
        )

    -- The sticky channel of the user's model failed.
    unfoldable pub drop_sticky : Attempt → State → State
    unfolding Engine.forget
    drop_sticky a st = elim st.affinity [
      | none ↦ st
      | some engine ↦ elim input.user_info [
        | none ↦ st
        | some ui ↦
            if a.by_affinity && not (ui.user_id == 0)
            then record st {
              affinity = some (
                  Engine.forget engine
                    (record { user_id = ui.user_id; real_model = a.real_model }));
            }
            else st
      ]
    ]

    abbrev pub wake : State → Option Err × W → State × Bool
    wake st (none, w) = (record st { world = w }, false)
    wake st (some e, w) = (record st { world = w; err = some e }, true)

    -- The sleep in front of the next attempt, and whether it ended the run.
    unfoldable pub pause : List Attempt → State → State × Bool
    pause rest st = elim env.sleep_ms [
      | none ↦ (st, false)
      | some ms ↦
          if not (is_empty rest) && ltb_ℤ (pos 0) (ms st.world)
          then wake st (env.sleep (pos_part (ms st.world)) st.world)
          else (st, false)
    ]

    -- What follows a failed attempt, and whether the run ends.
    unfoldable pub after_failure :
        Attempt → List Attempt → AttemptResult → Err → State → State × Bool
    unfolding ends_request drop_sticky pause
    after_failure a rest res e st =
        if ends_request res.written e
        then (record st { err = some e }, true)
        else if is_breaker_open e
        then (drop_sticky a st, false)
        else pause rest (drop_sticky a st)

    abbrev pub after_attempt : Attempt → List Attempt → AttemptResult × State → State × Bool
    after_attempt a rest (res, st) = elim res.err [
      | none ↦ (st, true)
      | some e ↦ after_failure a rest res e st
    ]

    -- Behind the loop: the last outcome's error, if there was an attempt.
    unfoldable pub promote : State → State
    promote st = elim st.outcome [ none ↦ st | some res ↦ record st { err = res.err } ]

    -- The loop, `idx` being the index of the first attempt of the list.
    unfoldable pub run_from : ℕ → List Attempt → State → State
    unfolding maybe_forward attempt_once after_failure promote
    run_from idx [] st = promote st
    run_from idx (a ∷ rest) st =
        let (taken, w) = maybe_forward a rest st.world in
        let st' = record st { world = w } in
        let (next, ended) = after_attempt a rest (attempt_once (idx + 1) a st') in
        elim taken [
          | true ↦ record st' { forwarded = true }
          | false ↦ elim ended [ true ↦ next | false ↦ run_from (idx + 1) rest next ]
        ]

    unfoldable pub run : List Attempt → W → resilience.State → Option AffinityEngine → State
    unfolding run_from
    run attempts w r engine = run_from 0 attempts (record {
      world = w;
      runner = r;
      affinity = engine;
      used = none;
      outcome = none;
      err = none;
      history = [];
      forwarded = false;
    })
