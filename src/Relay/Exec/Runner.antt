-- ===== src/Relay/Exec/Runner.antt =====
-- internal/agent/relay/resilience/policy.go: `Runner` as the executor's runner. The settings and the
-- clock are read anew in every call.
use vaala_ai_gateway.Prelude.{ℕ, ◌+◌, ◌≤◌, ◌≡◌, refl, pos, pos_part, ltb_ℤ, false, Option}
use vaala_ai_gateway.Relay.State.{Attempt, AttemptResult}
use vaala_ai_gateway.Relay.Resilience.{Config, classify}
use vaala_ai_gateway.Relay.Resilience.Breakers.{get}
use vaala_ai_gateway.Relay.Resilience.Policy.{
  Failsafe, Tries, Tries-of_Tried, length-Tried, RunnerState, build_of, config_of, key_of, retries,
  aborts, result_of, run,
}
use vaala_ai_gateway.Relay.Exec.{ResilientRunner}
use vaala_ai_gateway.Relay.Exec.Dispatches.{IsCareful}

module _ (failsafe : Failsafe) where
  -- `Run` dispatches at most once more than the retries that the channel's parameters allow, every
  -- time but the last with a result that is to be tried again and that does not abort, and returns
  -- the result of the last dispatch, or the error of the open breaker.
  run-Tries :
      {S : Type 0} (base : Config) (now now' : ℕ) (a : Attempt) (dispatch : S → AttemptResult × S)
      (st : RunnerState failsafe) (s : S)
      → ltb_ℤ (config_of failsafe base a).max_retries (pos 0) ≡ false
      → let (res, st', s') = run failsafe base now now' a dispatch st s in
        (n : ℕ) × (n ≤ pos_part (config_of failsafe base a).max_retries + 1)
        × (o : Option AttemptResult) × (id : ℕ) × (res ≡ result_of id o)
        × Tries retries aborts dispatch n s o s'
  unfolding run
  run-Tries base now now' a dispatch st s bounded =
      let cfg = config_of failsafe base a in
      let (cb, breakers', heap') =
        get failsafe.Breaker failsafe.Heap (build_of failsafe) now now' (key_of failsafe a) cfg
          st.breakers st.heap in
      let (n, tries) =
        failsafe.execute_tries cfg.max_retries cfg.backoff_base_ms cfg.backoff_max_ms retries aborts
          cb dispatch heap' s bounded (unfold classify in refl) in
      (
        n,
        length-Tried retries aborts dispatch tries,
        _,
        (key_of failsafe a).id,
        refl,
        Tries-of_Tried retries aborts dispatch tries,
      )

  module _ (settings : ℕ → Config) (clock : ℕ → ℕ × ℕ) where
    pub run_call :
        {S : Type 0}
        → Attempt
        → (S → AttemptResult × S)
        → RunnerState failsafe × ℕ
        → S
        → AttemptResult × (RunnerState failsafe × ℕ) × S
    unfolding run
    run_call a dispatch (st, k) s =
        let (res, st', s') = run failsafe (settings k) (clock k).0 (clock k).1 a dispatch st s in
        (res, (st', k + 1), s')

    -- The state counts the calls, which read the settings and the clock.
    abbrev pub resilient_runner : ResilientRunner
    resilient_runner = record {
      State = RunnerState failsafe × ℕ;
      run = λ a dispatch st s. run_call a dispatch st s;
    }

    pub resilient_runner-IsCareful :
        (a : Attempt)
        → ((k : ℕ) → ltb_ℤ (config_of failsafe (settings k) a).max_retries (pos 0) ≡ false)
        → IsCareful resilient_runner a
    unfolding run_call
    resilient_runner-IsCareful a bounded = record {
      tries = λ dispatch r s.
          let (n, b, o, id, e, t) =
            run-Tries (settings r.1) (clock r.1).0 (clock r.1).1 a dispatch r.0 s (bounded r.1) in
          (n, o, id, e, t);
    }
