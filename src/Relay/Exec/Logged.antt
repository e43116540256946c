-- ===== src/Relay/Exec/Logged.antt =====
-- internal/agent/relay/pipeline/exec/exec.go: the environment of a run with a record of its
-- dispatches, and which results let the run go on.
use vaala_ai_gateway.Prelude.{
  eq_ℤ, str_eq, ◌≡◌, pos, Bool, true, false, not, ◌&&◌, List, [], ◌∷◌, ◌++◌, Option, none, some,
  All,
}
use vaala_ai_gateway.Relay.State.{Attempt, AttemptResult, Err, is_canceled, as_upstream}
use vaala_ai_gateway.Relay.Exec.{ExecEnv}

abbrev pub Log : Type 0
Log = List (Attempt × AttemptResult)

-- The environment with a record of its dispatches.
abbrev pub log_dispatch : {W : Type 0} → ExecEnv W → Attempt → W × Log → AttemptResult × (W × Log)
log_dispatch env a w = let (res, w') = env.dispatch a w.0 in (res, (w', w.1 ++ (a, res) ∷ []))

abbrev pub on_world : {W : Type 0} → (W → W) → W × Log → W × Log
on_world f w = (f w.0, w.1)

abbrev pub with_world : {W B : Type 0} → (W → B × W) → W × Log → B × (W × Log)
with_world f w = let (b, w') = f w.0 in (b, (w', w.1))

abbrev pub of_world : {W B : Type 0} → Option (W → B) → Option (W × Log → B)
of_world none = none
of_world (some f) = some (λ w. f w.0)

abbrev pub logged : {W : Type 0} → ExecEnv W → ExecEnv (W × Log)
logged env = record {
  dispatch = log_dispatch env;
  reset_attempt = on_world env.reset_attempt;
  snapshot_attempt = on_world env.snapshot_attempt;
  last_snapshot_verbose = λ w. env.last_snapshot_verbose w.0;
  reset_body = on_world env.reset_body;
  now_ms = λ w. env.now_ms w.0;
  error_text = env.error_text;
  Route = env.Route;
  match_route = env.match_route;
  forward = λ route. with_world (env.forward route);
  sleep_ms = of_world env.sleep_ms;
  sleep = λ ms. with_world (env.sleep ms);
}

-- The provider answered 400 with the type `invalid_request_error`.
unfoldable pub faults_request : Err → Bool
unfolding as_upstream
faults_request e = elim (as_upstream e) [
  | none ↦ false
  | some u ↦ eq_ℤ u.status (pos 400) && str_eq u.provider_error_type "invalid_request_error"
]

-- The result of a dispatch after which another one may be made: a failure, with nothing written,
-- no disconnected client, and no fault of the request.
unfoldable pub may_continue : AttemptResult → Bool
unfolding is_canceled faults_request
may_continue res = elim res.err [
  | none ↦ false
  | some e ↦ not res.written && (not (is_canceled e) && not (faults_request e))
]

abbrev pub Continues : Attempt × AttemptResult → Type 0
Continues event = may_continue event.1 ≡ true

abbrev pub AllButLast : {A : Type 0} → (A → Type 0) → List A → Type 0
AllButLast P [] = Unit
AllButLast P (x ∷ []) = Unit
AllButLast P (x ∷ y ∷ l) = P x × AllButLast P (y ∷ l)

pub AllButLast-All : {A : Type 0} (P : A → Type 0) (l : List A) → All P l → AllButLast P l
AllButLast-All P [] h = tt
AllButLast-All P (x ∷ []) h = tt
AllButLast-All P (x ∷ y ∷ l) h = (h.0, AllButLast-All P (y ∷ l) h.1)

pub AllButLast-append :
    {A : Type 0} (P : A → Type 0) (l : List A) (z : A) → All P l → AllButLast P (l ++ z ∷ [])
AllButLast-append P [] z h = tt
AllButLast-append P (x ∷ []) z h = (h.0, tt)
AllButLast-append P (x ∷ y ∷ l) z h = (h.0, AllButLast-append P (y ∷ l) z h.1)
