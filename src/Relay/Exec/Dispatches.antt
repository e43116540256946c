-- ===== src/Relay/Exec/Dispatches.antt =====
-- internal/agent/relay/pipeline/exec/exec.go: no dispatch follows one that was the last to make.
use vaala_ai_gateway.Prelude.{
  ℕ, ◌+◌, ◌≡◌, refl, sym, ap, subst, ◌∙◌, ◌⊎◌, inl, inr, ltb_ℤ, pos, Bool, true, false, not, ◌&&◌,
  List, [], ◌∷◌, ◌++◌, Option, none, some, arith, IsIn, All, All-concat, Bool-cases, Option-cases,
}
use mathlib.Core.List.{append_assoc, append-nil}
use vaala_ai_gateway.Relay.State.{
  RelayInput, Attempt, AttemptResult, Err, breaker_open, failed_result, is_breaker_open,
}
use vaala_ai_gateway.Relay.Affinity.{AffinityEngine}
use vaala_ai_gateway.Relay.Resilience.{classify, classify_error, classify_upstream}
use vaala_ai_gateway.Relay.Resilience.Policy.{Tries, retries, aborts, result_of}
use vaala_ai_gateway.Relay.Plan.{is_empty}
use vaala_ai_gateway.Relay.Exec.Logged.{
  faults_request, Log, on_world, logged, may_continue, Continues, AllButLast, AllButLast-All,
  AllButLast-append,
}
use vaala_ai_gateway.Relay.Exec.{
  token_id_of, rest_channel_ids, ExecEnv, ExecState, ResilientRunner, ends_request, maybe_forward,
  dispatch_once, run_attempt, attempt_once, drop_sticky, wake, pause, after_failure, after_attempt,
  promote, run_from, run,
}

ends_request-retries :
    (written : Bool) (e : Err)
    → (classify_error written e).retry_same_channel ≡ true
    → ends_request written e ≡ false
unfolding ends_request classify_error classify_upstream
ends_request-retries written e h = ground arith

-- A failure that does not end the request may be continued.
may_continue-ends_request :
    (res : AttemptResult) (e : Err)
    → res.err ≡ some e
    → ends_request res.written e ≡ false
    → may_continue res ≡ true
unfolding may_continue ends_request faults_request
may_continue-ends_request res e failed h = rw (failed, may_continue) (ground arith)

-- What the retry policy tries again may be continued.
may_continue-retries : (res : AttemptResult) → retries res ≡ true → may_continue res ≡ true
unfolding classify
may_continue-retries res h = elim (Option-cases res.err) [
  | inl none_left ↦ absurd (let h' = rw (none_left, classify) at h in cc)
  | inr (e, failed) ↦
      may_continue-ends_request res e failed
        (ends_request-retries res.written e (rw (failed, classify) at h))
]

-- A runner that follows the retry policy on an attempt.
pub record IsCareful (runner : ResilientRunner) (a : Attempt) : Type 1 where
  pub tries :
      {S : Type 0} (dispatch : S → AttemptResult × S) (r : runner.State) (s : S)
      → let (res, r', s') = runner.run a dispatch r s in
        (n : ℕ) × (o : Option AttemptResult) × (id : ℕ) × (res ≡ result_of id o)
        × Tries retries aborts dispatch n s o s'

module _ {W : Type 0} (env : ExecEnv W) (input : RelayInput) where
  -- What a try adds to the log: failures that may be continued, and at the end the result, if the
  -- breaker did not refuse.
  abbrev Adds : Option AttemptResult → Log → Type 0
  Adds none added = All Continues added
  Adds (some res) added =
      (front : Log) × (a : Attempt) × (added ≡ front ++ (a, res) ∷ []) × All Continues front

  abbrev log_of : (W × Log) × ℕ → Log
  log_of s = s.0.1

  Adds-first :
      (a : Attempt) (res : AttemptResult) (o : Option AttemptResult) (added : Log)
      → Continues (a, res)
      → Adds o added
      → Adds o ((a, res) ∷ added)
  Adds-first a res none added h k = (h, k)
  Adds-first a res (some last) added h (front, b, e, k) =
      ((a, res) ∷ front, b, ap (λ l. (a, res) ∷ l) e, (h, k))

  dispatch-logs :
      (a : Attempt) (s : (W × Log) × ℕ)
      → log_of (dispatch_once (logged env) input a s).1
        ≡ log_of s ++ (a, (dispatch_once (logged env) input a s).0) ∷ []
  unfolding dispatch_once
  dispatch-logs a ((w, l), n) = refl

  Tries-logs :
      (a : Attempt) (n : ℕ) (s : (W × Log) × ℕ) (o : Option AttemptResult) (s' : (W × Log) × ℕ)
      → Tries retries aborts (dispatch_once (logged env) input a) n s o s'
      → (added : Log) × (log_of s' ≡ log_of s ++ added) × Adds o added
  Tries-logs a n s o s' (Tries.refused) = ([], sym (append-nil (log_of s)), tt)
  Tries-logs a n s o s' (Tries.settled) = (_ ∷ [], dispatch-logs a s, ([], a, refl, tt))
  Tries-logs a n s o s' (Tries.again h k t) =
      let (added, e, adds) = Tries-logs a _ _ o s' t in
      let d = (dispatch_once (logged env) input a s).0 in
      (
        (a, d) ∷ added,
        e ∙ ap (λ l. l ++ added) (dispatch-logs a s) ∙ append_assoc (log_of s) ((a, d) ∷ []) added,
        Adds-first a d o added (may_continue-retries d h) adds,
      )

  module _ (resilience : ResilientRunner) (wrapped : Bool) where
    abbrev St : Type 0
    St = ExecState (W × Log) resilience.State

    abbrev AddsAttempt : AttemptResult → Log → Type 0
    AddsAttempt res added =
        Adds (some res) added
        ⊎ (All Continues added × (id : ℕ) × (res ≡ failed_result (breaker_open id)))

    AddsAttempt-of-Adds :
        (o : Option AttemptResult) (id : ℕ) (res : AttemptResult) (added : Log)
        → res ≡ result_of id o
        → Adds o added
        → AddsAttempt res added
    AddsAttempt-of-Adds none id res added e h = inr (h, id, e)
    AddsAttempt-of-Adds (some last) id res added e h =
        inl (subst (λ r. Adds (some r) added) (sym e) h)

    run_attempt-logs :
        (a : Attempt) (r : resilience.State) (w : W × Log)
        → IsCareful resilience a
        → let (res, r', s') = run_attempt (logged env) input resilience wrapped a r w in
          (added : Log) × (log_of s' ≡ w.1 ++ added) × AddsAttempt res added
    unfolding run_attempt
    run_attempt-logs a r w careful = elim (Bool-cases wrapped) [
      | inl t ↦
          let (n, o, id, e, tries) = careful.tries (dispatch_once (logged env) input a) r (w, 0) in
          let (added, f, adds) = Tries-logs a n (w, 0) o _ tries in
          rw (t, run_attempt) (added, f, AddsAttempt-of-Adds o id _ added e adds)
      | inr t ↦ rw (t, run_attempt) (_ ∷ [], dispatch-logs a (w, 0), inl ([], a, refl, tt))
    ]

    attempt_once-logs :
        (seq : ℕ) (a : Attempt) (st : St)
        → IsCareful resilience a
        → let (res, st') = attempt_once (logged env) input resilience wrapped seq a st in
          (added : Log) × (st'.world.1 ≡ st.world.1 ++ added) × AddsAttempt res added
    unfolding attempt_once
    attempt_once-logs seq a st careful =
        run_attempt-logs a st.runner (on_world env.reset_attempt st.world) careful

    drop_sticky-world :
        (a : Attempt) (st : St)
        → (drop_sticky (logged env) input resilience wrapped a st).world ≡ st.world
    unfolding drop_sticky
    drop_sticky-world a st = ground arith

    wake-log :
        (st : St) (o : Option Err) (w : W × Log)
        → w.1 ≡ st.world.1
        → (wake (logged env) input resilience wrapped st (o, w)).0.world.1 ≡ st.world.1
    wake-log st none w h = h
    wake-log st (some e) w h = h

    pause-log :
        (rest : List Attempt) (st : St)
        → (pause (logged env) input resilience wrapped rest st).0.world.1 ≡ st.world.1
    unfolding pause
    pause-log rest st = elim (Option-cases env.sleep_ms) [
      | inl e ↦ rw (e, pause) refl
      | inr (ms, e) ↦ elim (Bool-cases (not (is_empty rest) && ltb_ℤ (pos 0) (ms st.world.0))) [
        | inl t ↦ rw (e, pause) (rw t (wake-log st _ _ refl))
        | inr t ↦ rw (e, pause) (rw t refl)
      ]
    ]

    after_failure-log :
        (a : Attempt) (rest : List Attempt) (res : AttemptResult) (e : Err) (st : St)
        → (after_failure (logged env) input resilience wrapped a rest res e st).0.world.1
          ≡ st.world.1
    unfolding after_failure
    after_failure-log a rest res e st = elim (Bool-cases (ends_request res.written e)) [
      | inl t ↦ rw t refl
      | inr t ↦ elim (Bool-cases (is_breaker_open e)) [
        | inl o ↦ rw (t, o) (ap (λ w. w.1) (drop_sticky-world a st))
        | inr o ↦
            rw (t, o)
              (pause-log rest (drop_sticky (logged env) input resilience wrapped a st)
                ∙ ap (λ w. w.1) (drop_sticky-world a st))
      ]
    ]

    after_attempt-log :
        (a : Attempt) (rest : List Attempt) (res : AttemptResult) (st : St)
        → (after_attempt (logged env) input resilience wrapped a rest (res, st)).0.world.1
          ≡ st.world.1
    unfolding after_failure
    after_attempt-log a rest res st = elim (Option-cases res.err) [
      | inl e ↦ rw e refl
      | inr (e, failed) ↦ rw failed (after_failure-log a rest res e st)
    ]

    -- The loop goes on behind a failure that may be continued only.
    may_continue-after_attempt :
        (a : Attempt) (rest : List Attempt) (res : AttemptResult) (st : St)
        → (after_attempt (logged env) input resilience wrapped a rest (res, st)).1 ≡ false
        → may_continue res ≡ true
    unfolding after_failure
    may_continue-after_attempt a rest res st h = elim (Option-cases res.err) [
      | inl e ↦ let h' = rw e at h in absurd (cc)
      | inr (e, failed) ↦ elim (Bool-cases (ends_request res.written e)) [
        | inl t ↦ let h' = rw t at (rw (failed, after_failure) at h) in absurd (cc)
        | inr t ↦ may_continue-ends_request res e failed t
      ]
    ]

    AllButLast-added :
        (res : AttemptResult) (l added : Log)
        → All Continues l
        → AddsAttempt res added
        → AllButLast Continues (l ++ added) × (may_continue res ≡ true → All Continues (l ++ added))
    AllButLast-added res l added ok (inl (front, b, e, h)) = (
      subst (AllButLast Continues) (append_assoc l front ((b, res) ∷ []) ∙ ap (λ m. l ++ m) (sym e))
          (AllButLast-append Continues (l ++ front) (b, res) (All-concat Continues l front ok h)),
      λ m.
          All-concat Continues l added ok
            (subst (All Continues) (sym e) (All-concat Continues front ((b, res) ∷ []) h (m, tt))),
    )
    AllButLast-added res l added ok (inr (h, id, e)) =
        let all = All-concat Continues l added ok h in
        (AllButLast-All Continues (l ++ added) all, λ m. all)

    maybe_forward-log :
        (a : Attempt) (rest : List Attempt) (w : W × Log)
        → (maybe_forward (logged env) input a rest w).1.1 ≡ w.1
    unfolding maybe_forward
    maybe_forward-log a rest w = elim (Option-cases env.match_route) [
      | inl e ↦ rw e refl
      | inr (matcher, e) ↦
          rw (e, maybe_forward)
            (elim (Option-cases (
              matcher (token_id_of input.user_info) a.real_model
                (rest_channel_ids [] (a ∷ rest)))) [
                  | inl f ↦ rw (f, maybe_forward, rest_channel_ids) refl
                  | inr (route, f) ↦ rw (f, maybe_forward, rest_channel_ids) refl
                ])
    ]

    promote-world : (st : St) → (promote (logged env) input resilience wrapped st).world ≡ st.world
    unfolding promote
    promote-world st = ground arith

    run_from-logs :
        (idx : ℕ) (attempts : List Attempt) (st : St)
        → ((a : Attempt) → IsIn a attempts → IsCareful resilience a)
        → All Continues st.world.1
        → AllButLast Continues
            (run_from (logged env) input resilience wrapped idx attempts st).world.1
    unfolding run_from
    run_from-logs idx [] st careful ok =
        rw (promote-world st) (AllButLast-All Continues st.world.1 ok)
    run_from-logs idx (a ∷ rest) st careful ok =
        let fwd = maybe_forward (logged env) input a rest st.world in
        let st' : St = record st { world = fwd.1 } in
        let ok' : All Continues st'.world.1 =
          subst (All Continues) (sym (maybe_forward-log a rest st.world)) ok in
        elim (Bool-cases fwd.0) [
          | inl t ↦ rw (t, run_from) (AllButLast-All Continues fwd.1.1 ok')
          | inr t ↦
              let once = attempt_once (logged env) input resilience wrapped (idx + 1) a st' in
              let (added, e, adds) = attempt_once-logs (idx + 1) a st' (careful a (inl refl)) in
              let (most, all) = AllButLast-added once.0 st'.world.1 added ok' adds in
              let log = sym (after_attempt-log a rest once.0 once.1 ∙ e) in
              elim (Bool-cases
                (after_attempt (logged env) input resilience wrapped a rest once).1) [
                  | inl f ↦ rw (t, f, run_from) (subst (AllButLast Continues) log most)
                  | inr f ↦
                      rw (t, f, run_from)
                        (run_from-logs (idx + 1) rest _ (λ b i. careful b (inr i))
                          (subst (All Continues) log
                            (all (may_continue-after_attempt a rest once.0 once.1 f))))
                ]
        ]

    -- Where the runner follows the retry policy on every attempt, all dispatches of a request but
    -- the last one failed with nothing written, no disconnected client and no fault of the request:
    -- nothing is dispatched behind a success, a partial response, a cancel or an invalid request.
    pub run-dispatches :
        (attempts : List Attempt) (w : W) (r : resilience.State) (engine : Option AffinityEngine)
        → ((a : Attempt) → IsIn a attempts → IsCareful resilience a)
        → AllButLast Continues
            (run (logged env) input resilience wrapped attempts (w, []) r engine).world.1
    unfolding run
    run-dispatches attempts w r engine careful = run_from-logs 0 attempts _ careful tt
