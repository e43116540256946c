-- ===== src/Relay/Resilience/Retried.antt =====
-- internal/agent/relay/resilience/policy.go: `Runner.Run` against the table of errors that are tried
-- again.
use vaala_ai_gateway.Prelude.{
  ℕ, suc, ◌≡◌, ◌≢◌, refl, sym, ap, subst, ◌∙◌, ◌⊎◌, inl, inr, ℤ, pos, pos_part, ◌≤ℤ◌, ltb_ℤ, eq_ℤ,
  Bool, true, false, ◌||◌, Option, none, some, arith, ◌==◌, Bool-cases, Option-cases, if_true,
  if_false,
}
use vaala_ai_gateway.Relay.State.{
  Attempt, AttemptResult, Err, UpstreamError, breaker_open, failed_result, is_canceled, as_upstream,
}
use vaala_ai_gateway.Relay.Resilience.{
  Config, Decision, decision, override, classify, classify_error, classify_upstream, resolve,
}
use vaala_ai_gateway.Relay.Resilience.Breakers.{get}
use vaala_ai_gateway.Relay.Resilience.Policy.{
  Failsafe, Tried, RunnerState, build_of, config_of, key_of, retries, aborts, result_of, run,
}

-- Of the answers of a provider, no status (0), 429 and 5xx are tried again; an error that no provider
-- sent is as well.
abbrev pub RetryStatus : Option UpstreamError → Type 0
RetryStatus none = Unit
RetryStatus (some u) =
    (eq_ℤ u.status (pos 0) ≡ true) ⊎ (pos 500 ≤ℤ u.status) ⊎ (eq_ℤ u.status (pos 429) ≡ true)

-- An error before anything was written, while the client is there.
abbrev pub IsTransient : AttemptResult → Type 0
IsTransient res =
    (e : Err) × (res.err ≡ some e)
    × (res.written ≡ false)
    × (is_canceled e ≡ false)
    × RetryStatus (as_upstream e)

module _ {S : Type 0} (dispatch : S → AttemptResult × S) where
  -- A dispatch is made again exactly if its result is transient and a retry is left; an open breaker
  -- may refuse any of them.
  pub data Retried : ℕ → S → Option AttemptResult → S → Type 0 where
    refused : {left : ℕ} {s : S} → Retried left s none s
    settled :
        {left : ℕ} {s : S}
        → (¬ (IsTransient (dispatch s).0)) ⊎ (left ≡ 0)
        → Retried left s (some (dispatch s).0) (dispatch s).1
    again :
        {left : ℕ} {s s' : S} {o : Option AttemptResult}
        → IsTransient (dispatch s).0
        → Retried left (dispatch s).1 o s'
        → Retried (suc left) s o s'

-- The retries of the channel, or else those of the settings.
abbrev pub retries_for : Config → Attempt → Option ℤ → ℤ
retries_for base a none = base.max_retries
retries_for base a (some own) = own

pub record IsRetried {S : Type 0} (base : Config) (a : Attempt) (dispatch : S → AttemptResult × S)
    (s : S) (res : AttemptResult) (s' : S) : Type 0 where
  pub last : Option AttemptResult
  pub retried :
      Retried dispatch (pos_part (retries_for base a a.channel.resilience.max_retries)) s last s'
  pub answered : (answer : AttemptResult) → last ≡ some answer → res ≡ answer
  pub open_source : last ≡ none → a.source_id ≢ 0 → res ≡ failed_result (breaker_open a.source_id)
  pub open_channel : last ≡ none → a.source_id ≡ 0 → res ≡ failed_result (breaker_open a.channel.id)

status-retried :
    (u : UpstreamError) → (classify_upstream u).retry_same_channel ≡ true → RetryStatus (some u)
unfolding classify_upstream
status-retried u h = ground (arith, h)

retried-status :
    (u : UpstreamError) → RetryStatus (some u) → (classify_upstream u).retry_same_channel ≡ true
unfolding classify_upstream
retried-status u h = ground (arith, h)

aborted-status :
    (u : UpstreamError)
    → (classify_upstream u).abort_all ≡ true
    → (classify_upstream u).retry_same_channel ≡ false
unfolding classify_upstream
aborted-status u h = ground (arith, h)

-- The decision on an error before anything was written, while the client is there.
abbrev decided : Option UpstreamError → Decision
decided none = decision true true false
decided (some u) = classify_upstream u

decided-retried : (o : Option UpstreamError) → (decided o).retry_same_channel ≡ true → RetryStatus o
decided-retried none h = tt
decided-retried (some u) h = status-retried u h

retried-decided : (o : Option UpstreamError) → RetryStatus o → (decided o).retry_same_channel ≡ true
retried-decided none h = refl
retried-decided (some u) h = retried-status u h

aborted-decided :
    (o : Option UpstreamError)
    → (decided o).abort_all ≡ true
    → (decided o).retry_same_channel ≡ false
aborted-decided none h = absurd (cc)
aborted-decided (some u) h = aborted-status u h

classify_error-decided :
    (written : Bool) (e : Err)
    → ((written || is_canceled e) ≡ true × (classify_error written e ≡ decision false false true))
      ⊎ (((written ≡ false) × (is_canceled e ≡ false))
          × (classify_error written e ≡ decided (as_upstream e)))
unfolding classify_error
classify_error-decided written e = elim (Bool-cases (written || is_canceled e)) [
  | inl w ↦ rw w (inl (refl, refl))
  | inr w ↦ rw w (inr ((ground (arith, w), ground (arith, w)), same (as_upstream e)))
]
  where
    same :
        (o : Option UpstreamError)
        → (elim o [ none ↦ decision true true false | some u ↦ classify_upstream u ]) ≡ decided o
    same none = refl
    same (some u) = refl

classify-none : (res : AttemptResult) → res.err ≡ none → classify res ≡ decision false false false
unfolding classify
classify-none res n =
    ap (λ x. elim x [ none ↦ decision false false false | some e ↦ classify_error res.written e ]) n

classify-some :
    (res : AttemptResult) (e : Err) → res.err ≡ some e → classify res ≡ classify_error res.written e
unfolding classify
classify-some res e failed =
    ap (λ x. elim x [ none ↦ decision false false false | some e ↦ classify_error res.written e ])
      failed

IsTransient-retries : (res : AttemptResult) → retries res ≡ true → IsTransient res
IsTransient-retries res h = elim (Option-cases res.err) [
  | inl n ↦ absurd (let k = ap (λ (d : Decision). d.retry_same_channel) (classify-none res n) in cc)
  | inr (e, failed) ↦
      let same = classify-some res e failed in
      elim (classify_error-decided res.written e) [
        | inl (w, d) ↦ absurd (let k = ap (λ (d : Decision). d.retry_same_channel) (same ∙ d) in cc)
        | inr ((w, c), d) ↦ (
          e,
          failed,
          w,
          c,
          decided-retried (as_upstream e)
              (sym (ap (λ (d : Decision). d.retry_same_channel) (same ∙ d)) ∙ h),
        )
      ]
]

-- What is transient is decided by its error alone.
classify-IsTransient :
    (res : AttemptResult) (t : IsTransient res) → classify res ≡ decided (as_upstream t.0)
classify-IsTransient res (e, failed, w, c, u) = elim (classify_error-decided res.written e) [
  | inl (x, d) ↦ absurd (ground (arith, x, w, c))
  | inr (x, d) ↦ classify-some res e failed ∙ d
]

retries-IsTransient : (res : AttemptResult) → IsTransient res → retries res ≡ true
retries-IsTransient res t =
    ap (λ (d : Decision). d.retry_same_channel) (classify-IsTransient res t)
    ∙ retried-decided (as_upstream t.0) t.4

aborts-IsTransient : (res : AttemptResult) → aborts res ≡ true → ¬ (IsTransient res)
aborts-IsTransient res h t =
    let k =
      aborted-decided (as_upstream t.0)
        (sym (ap (λ (d : Decision). d.abort_all) (classify-IsTransient res t)) ∙ h) in
    let r = retried-decided (as_upstream t.0) t.4 in absurd (cc)

module _ {S : Type 0} (dispatch : S → AttemptResult × S) where
  Retried-of_Tried :
      (left n : ℕ) (s : S) (o : Option AttemptResult) (s' : S)
      → Tried retries aborts dispatch left n s o s'
      → Retried dispatch left s o s'
  Retried-of_Tried _ _ _ _ _ Tried.refused = Retried.refused
  Retried-of_Tried _ _ s _ _ (Tried.settled h) = Retried.settled (elim h [
    | inl e ↦ inl (λ t. absurd (let k = retries-IsTransient (dispatch s).0 t in cc))
    | inr m ↦ elim m [ inl e ↦ inl (aborts-IsTransient (dispatch s).0 e) | inr e ↦ inr e ]
  ])
  Retried-of_Tried _ _ s o s' (Tried.again h k t) =
      Retried.again (IsTransient-retries (dispatch s).0 h) (Retried-of_Tried _ _ _ o s' t)

max_retries-config_of :
    (failsafe : Failsafe) (base : Config) (a : Attempt)
    → (config_of failsafe base a).max_retries ≡ retries_for base a a.channel.resilience.max_retries
unfolding resolve
max_retries-config_of failsafe base a = go a.channel.resilience.max_retries
  where
    go : (o : Option ℤ) → override base.max_retries o ≡ retries_for base a o
    go none = refl
    go (some own) = refl

-- Where the retries of the channel, or else of the settings, are not negative, `Run` dispatches again
-- exactly while a retry is left and the result is a transient failure: nothing was written, the
-- client is there, and no provider answered or it answered with 429 or 5xx. It returns the result of
-- the last dispatch; when the breaker refuses one, the error that names the source of the attempt,
-- or its channel if that is 0.
pub run-IsRetried :
    (failsafe : Failsafe) {S : Type 0} (base : Config) (now now' : ℕ) (a : Attempt)
    (dispatch : S → AttemptResult × S) (st : RunnerState failsafe) (s : S)
    → ltb_ℤ (retries_for base a a.channel.resilience.max_retries) (pos 0) ≡ false
    → IsRetried base a dispatch s
        (run failsafe base now now' a dispatch st s).0
        (run failsafe base now now' a dispatch st s).2
unfolding run key_of
run-IsRetried failsafe base now now' a dispatch st s bounded =
    let same = max_retries-config_of failsafe base a in
    let cfg = config_of failsafe base a in
    let (cb, breakers', heap') =
      get failsafe.Breaker failsafe.Heap (build_of failsafe) now now' (key_of failsafe a) cfg
        st.breakers st.heap in
    let (o, heap'', s') =
      failsafe.execute cfg.max_retries cfg.backoff_base_ms cfg.backoff_max_ms retries aborts cb
        dispatch (heap', s) in
    let (n, tried) =
      failsafe.execute_tries cfg.max_retries cfg.backoff_base_ms cfg.backoff_max_ms retries aborts
        cb dispatch heap' s (ap (λ r. ltb_ℤ r (pos 0)) same ∙ bounded) (unfold classify in refl) in
    record {
      last = o;
      retried =
          subst (λ r. Retried dispatch (pos_part r) s o s') same
            (Retried-of_Tried dispatch _ n s o s' tried);
      answered = λ answer e. ap (result_of (key_of failsafe a).id) e;
      open_source = λ e d.
          ap (result_of (key_of failsafe a).id) e
          ∙ ap (λ id. failed_result (breaker_open id))
              (if_false (a.source_id == 0) _ _ (ground (arith, d)));
      open_channel = λ e d.
          ap (result_of (key_of failsafe a).id) e
          ∙ ap (λ id. failed_result (breaker_open id))
              (if_true (a.source_id == 0) _ _ (ground (arith, d)));
    }
