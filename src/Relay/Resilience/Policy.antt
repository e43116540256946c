-- ===== src/Relay/Resilience/Policy.antt =====
-- internal/agent/relay/resilience/policy.go: `Runner.Run`, the dispatch of one attempt under the
-- retries and the breaker of its channel. The library failsafe-go is a parameter.
use vaala_ai_gateway.Prelude.{
  ℕ, suc, ◌+◌, ◌≤◌, ◌≡◌, ◌⊎◌, arith, ℤ, pos, pos_part, negsuc, ◌-◌, ltb_ℤ, Bool, true, false,
  Option, none, some, if◌then◌else◌, ◌==◌,
}
use vaala_ai_gateway.Relay.State.{Attempt, AttemptResult, breaker_open, failed_result}
use vaala_ai_gateway.Relay.Resilience.{Config, classify, resolve}
use vaala_ai_gateway.Relay.Resilience.Breakers.{BreakerKey, Registry, get}

module _ {S : Type 0} (handle abort : AttemptResult → Bool) (dispatch : S → AttemptResult × S) where
  -- What a retry around a breaker may do: `n` dispatches, each but the last one with a result that
  -- is handled and does not abort, and then the result of the last one, or none if the breaker is
  -- open and refuses the next.
  pub data Tries : ℕ → S → Option AttemptResult → S → Type 0 where
    refused : {s : S} → Tries 0 s none s
    settled : {s : S} → Tries 1 s (some (dispatch s).0) (dispatch s).1
    again :
        {n : ℕ} {s s' : S} {o : Option AttemptResult}
        → handle (dispatch s).0 ≡ true
        → abort (dispatch s).0 ≡ false
        → Tries n (dispatch s).1 o s'
        → Tries (suc n) s o s'

  -- The same with the retries that are left: a dispatch is the last one only if its result is not
  -- handled, if it aborts, or if no retry is left.
  pub data Tried : ℕ → ℕ → S → Option AttemptResult → S → Type 0 where
    refused : {left : ℕ} {s : S} → Tried left 0 s none s
    settled :
        {left : ℕ} {s : S}
        → (handle (dispatch s).0 ≡ false) ⊎ (abort (dispatch s).0 ≡ true) ⊎ (left ≡ 0)
        → Tried left 1 s (some (dispatch s).0) (dispatch s).1
    again :
        {left n : ℕ} {s s' : S} {o : Option AttemptResult}
        → handle (dispatch s).0 ≡ true
        → abort (dispatch s).0 ≡ false
        → Tried left n (dispatch s).1 o s'
        → Tried (suc left) (suc n) s o s'

  pub Tries-of_Tried :
      {left n : ℕ} {s s' : S} {o : Option AttemptResult} → Tried left n s o s' → Tries n s o s'
  Tries-of_Tried Tried.refused = Tries.refused
  Tries-of_Tried (Tried.settled h) = Tries.settled
  Tries-of_Tried (Tried.again h k t) = Tries.again h k (Tries-of_Tried t)

  pub length-Tried :
      {left n : ℕ} {s s' : S} {o : Option AttemptResult} → Tried left n s o s' → n ≤ left + 1
  length-Tried Tried.refused = omega arith
  length-Tried (Tried.settled h) = omega arith
  length-Tried (Tried.again h k t) = omega (arith, length-Tried t)

-- What the retry policy handles, what aborts it, and what `Run` makes of the library's answer.
abbrev pub retries : AttemptResult → Bool
retries res = (classify res).retry_same_channel

abbrev pub aborts : AttemptResult → Bool
aborts res = (classify res).abort_all

abbrev pub result_of : ℕ → Option AttemptResult → AttemptResult
result_of channel_id none = failed_result (breaker_open channel_id)
result_of channel_id (some res) = res

-- The zero result, which the policies see with the library's `ErrOpen`.
abbrev pub empty_result : AttemptResult
empty_result = record (failed_result (breaker_open 0)) { err = none }

-- failsafe-go: a breaker is a reference to an instance whose state is in the heap of the library.
pub record Failsafe : Type 1 where
  pub Heap : Type 0
  pub Breaker : Type 0
  -- `circuitbreaker.NewBuilder`: the threshold, the delay in milliseconds, and which results count as failures.
  pub build_breaker : ℕ → ℤ → (AttemptResult → Bool) → Heap → Breaker × Heap
  -- `failsafe.With(retry, cb).Get`: the number of retries, the backoff in
  -- milliseconds, which results are handled
  -- and which abort. No result is the library's `ErrOpen`.
  pub execute :
      {S : Type 0}
      → ℤ
      → ℤ
      → ℤ
      → (AttemptResult → Bool)
      → (AttemptResult → Bool)
      → Breaker
      → (S → AttemptResult × S)
      → Heap × S
      → Option AttemptResult × Heap × S
  -- The documented order of events, where the error of an open breaker is not handled; a negative
  -- number of retries is no bound, of which nothing is said.
  pub execute_tries :
      {S : Type 0} (retries base max : ℤ) (handle abort : AttemptResult → Bool) (cb : Breaker)
      (dispatch : S → AttemptResult × S) (heap : Heap) (s : S)
      → ltb_ℤ retries (pos 0) ≡ false
      → handle empty_result ≡ false
      → let (o, heap', s') = execute retries base max handle abort cb dispatch (heap, s) in
        (n : ℕ) × Tried handle abort dispatch (pos_part retries) n s o s'

-- Go's conversion of an `int` to a `uint` of 64 bits.
abbrev pub as_uint : ℤ → ℕ
as_uint (pos n) = n
as_uint (negsuc n) = 18446744073709551615 - n

module _ (failsafe : Failsafe) where
  open failsafe use {Heap, Breaker, build_breaker, execute}

  unfoldable pub build_of : Config → Heap → Breaker × Heap
  build_of cfg heap =
      build_breaker (as_uint cfg.breaker_threshold) cfg.breaker_cooldown_ms
        (λ res. (classify res).count_to_breaker) heap

  -- What a runner keeps between requests; the two clock readings of the registry come with a call.
  pub record RunnerState : Type 0 where
    pub breakers : Registry Breaker Heap build_of
    pub heap : Heap

  -- The channel's own parameters over the settings, and its breaker's key.
  abbrev pub config_of : Config → Attempt → Config
  config_of base a = resolve base (some a.channel.resilience)

  unfoldable pub key_of : Attempt → BreakerKey
  key_of a = record {
    source = a.source;
    id = if a.source_id == 0 then a.channel.id else a.source_id;
  }

  unfoldable pub run :
      {S : Type 0}
      → Config
      → ℕ
      → ℕ
      → Attempt
      → (S → AttemptResult × S)
      → RunnerState
      → S
      → AttemptResult × RunnerState × S
  unfolding key_of get
  run base now now' a dispatch st s =
      let cfg = config_of base a in
      let (cb, breakers', heap') =
        get Breaker Heap build_of now now' (key_of a) cfg st.breakers st.heap in
      let (o, heap'', s') =
        execute cfg.max_retries cfg.backoff_base_ms cfg.backoff_max_ms retries aborts cb dispatch
          (heap', s) in
      (result_of (key_of a).id o, record { breakers = breakers'; heap = heap'' }, s')
