-- ===== src/Relay/Plan/Solve.antt =====
-- internal/agent/relay/pipeline/plan/plan.go: the attempt plan of a request. The solver's
-- components (`ChainBuilder`, `Pool`, `Sorter`, `Picker`) are interfaces in the source, and
-- arguments here.
pub mod Budget
use vaala_ai_gateway.Prelude.{
  ℕ, zero, suc, ◌≤◌, ℤ, pos, pos_part, neg_part, ltb_ℤ, leb, Bool, true, false, ◌&&◌, ◌||◌, not,
  String, str_eq, List, [], ◌∷◌, ◌++◌, Option, none, some, ◌==◌, if◌then◌else◌, length, IsIn, ◌≡◌,
}
use vaala_ai_gateway.Relay.Random.{Random}
use vaala_ai_gateway.Relay.State.{
  Channel, ChannelSource, source_eq, RelayMode, Protocol, UserInfo, RelayInput, Attempt,
  AttemptPlan, Err, no_routable_model, no_channel_available, model_not_allowed, routing_fallback,
}
use vaala_ai_gateway.Relay.Affinity.{Key, Entry, AffinityEngine}
use vaala_ai_gateway.Relay.Affinity.Engine
use vaala_ai_gateway.Relay.Chain.{ModelChain}
use vaala_ai_gateway.Relay.Plan.{ScoredCandidate, is_empty}

-- Package `regexp`: whether the pattern between `^` and `$` matches, `none` if it does not compile.
abbrev pub Regexp : Type 0
Regexp = String → String → Option Bool

-- internal/pkg/utils/model_match.go
unfoldable pub any_pattern : Regexp → String → List String → Bool
any_pattern regexp model [] = false
any_pattern regexp model (p ∷ ps) =
    let rest = any_pattern regexp model ps in
    if str_eq p model
    then true
    else elim (regexp p model) [ none ↦ rest | some matched ↦ if matched then true else rest ]

unfoldable pub model_matches : Regexp → String → List String → Bool
unfolding any_pattern
model_matches regexp model patterns =
    if is_empty patterns then true else any_pattern regexp model patterns

unfoldable pub model_allowed_by_whitelist : Regexp → String → UserInfo → Bool
unfolding model_matches
model_allowed_by_whitelist regexp model ui =
    if not (is_empty ui.token_models) && not (model_matches regexp model ui.token_models)
    then false
    else if not (is_empty ui.group_models) && not (model_matches regexp model ui.group_models)
    then false
    else true

unfoldable pub allowed_by_whitelist : Regexp → String → Option UserInfo → Bool
unfolding model_allowed_by_whitelist
allowed_by_whitelist regexp model none = true
allowed_by_whitelist regexp model (some ui) = model_allowed_by_whitelist regexp model ui

abbrev pub is_sticky : Entry → ScoredCandidate → Bool
is_sticky entry sc = source_eq sc.source entry.source && sc.source_id == entry.source_id

-- The loop of `applyAffinity`: the first candidate of the entry's channel, marked, in front of the
-- others (`before` are those already passed); with none, the list as it was.
unfoldable pub bring_forward :
    Entry → List ScoredCandidate → List ScoredCandidate → List ScoredCandidate
bring_forward entry before [] = before
bring_forward entry before (sc ∷ scs) =
    let later = bring_forward entry (before ++ sc ∷ []) scs in
    if is_sticky entry sc then record sc { by_affinity = true } ∷ before ++ scs else later

apply_entry :
    List ScoredCandidate
    → AffinityEngine × Option Entry
    → Option AffinityEngine × Bool × List ScoredCandidate
unfolding bring_forward
apply_entry ordered (engine, none) = (some engine, false, ordered)
apply_entry ordered (engine, some entry) = (some engine, true, bring_forward entry [] ordered)

-- The engine afterwards, whether an entry was found, and the order.
unfoldable pub apply_affinity :
    ℕ
    → Option AffinityEngine
    → Option UserInfo
    → String
    → List ScoredCandidate
    → Option AffinityEngine × Bool × List ScoredCandidate
unfolding apply_entry Engine.decide Engine.lookup
apply_affinity now none user_info real_model ordered = (none, false, ordered)
apply_affinity now (some engine) none real_model ordered = (some engine, false, ordered)
apply_affinity now (some engine) (some ui) real_model ordered =
    if ui.user_id == 0
    then (some engine, false, ordered)
    else if (Engine.decide engine).apply_it
    then apply_entry ordered
        (Engine.lookup now engine (record { user_id = ui.user_id; real_model = real_model }))
    else (some engine, false, ordered)

-- The interface `ChannelSorter`. `none` stands for a panic, which the law rules out.
pub record Sorter (rand : Random) : Type 0 where
  pub sort : List ScoredCandidate → rand.Seed → Option (List ScoredCandidate × rand.Seed)
  -- It returns, and orders no candidate that it was not given.
  pub sort_returns :
      (cands : List ScoredCandidate) (seed : rand.Seed)
      → (out : List ScoredCandidate) × (seed' : rand.Seed) × (sort cands seed ≡ some (out, seed'))
        × ((sc : ScoredCandidate) → IsIn sc out → IsIn sc cands)

-- What the loops of `Solve` change.
pub record PlanState (rand : Random) : Type 0 where
  pub attempts : List Attempt
  pub had_entry : Bool
  pub blocked : Bool
  pub engine : Option AffinityEngine
  pub seed : rand.Seed

pub record PlanOutcome (rand : Random) : Type 0 where
  pub err : Option Err
  pub plan : AttemptPlan
  pub state : PlanState rand

module _ (rand : Random) (pool : String → List ScoredCandidate) (sorter : Sorter rand)
    (pick : Channel → String → Protocol → RelayMode) (regexp : Regexp) (now : String → ℕ)
    (input : RelayInput) where
  unfoldable pub attempt_of : String → ScoredCandidate → Attempt
  attempt_of real_model sc = record {
    channel = sc.channel;
    real_model = real_model;
    mode = pick sc.channel real_model input.inbound_proto;
    source = sc.source;
    source_id = sc.source_id;
    by_affinity = sc.by_affinity;
  }

  -- The loop over the ordered candidates, and whether it returned because the budget was used up.
  unfoldable pub add_attempts :
      ℕ → String → List ScoredCandidate → List Attempt → List Attempt × Bool
  add_attempts budget real_model [] attempts = (attempts, false)
  add_attempts budget real_model (sc ∷ scs) attempts =
      let attempts' = attempts ++ attempt_of real_model sc ∷ [] in
      elim (leb budget (length attempts')) [
        | true ↦ (attempts', true)
        | false ↦ add_attempts budget real_model scs attempts'
      ]

  -- One allowed model with candidates, in the order of the sorter.
  unfoldable pub plan_model :
      ℕ → String → List ScoredCandidate → PlanState rand → PlanState rand × Bool
  unfolding add_attempts apply_affinity
  plan_model budget real_model sorted st =
      let (engine', found, ordered) =
        apply_affinity (now real_model) st.engine input.user_info real_model sorted in
      let (attempts', full) = add_attempts budget real_model ordered st.attempts in
      (
        record st { attempts = attempts'; had_entry = found || st.had_entry; engine = engine' },
        full,
      )

  -- One allowed model and its candidates. `none` is a panic of the sorter.
  unfoldable pub plan_candidates :
      ℕ → String → List ScoredCandidate → PlanState rand → Option (PlanState rand × Bool)
  unfolding plan_model
  plan_candidates budget m [] st = some (st, false)
  plan_candidates budget m (sc ∷ scs) st = elim (sorter.sort (sc ∷ scs) st.seed) [
    | none ↦ none
    | some (sorted, seed') ↦ some (plan_model budget m sorted (record st { seed = seed' }))
  ]

  -- The loop over the models, and whether it returned.
  unfoldable pub plan_models : ℕ → List String → PlanState rand → Option (PlanState rand × Bool)
  unfolding plan_candidates allowed_by_whitelist
  plan_models budget [] st = some (st, false)
  plan_models budget (m ∷ ms) st = elim (allowed_by_whitelist regexp m input.user_info) [
    | false ↦ plan_models budget ms (record st { blocked = true })
    | true ↦ elim (plan_candidates budget m (pool m) st) [
      | none ↦ none
      | some (st', full) ↦ elim full [ true ↦ some (st', true) | false ↦ plan_models budget ms st' ]
    ]
  ]

  -- Without an attempt: the model itself was not allowed, the routing is exhausted, or no channel.
  unfoldable pub empty_plan_error : ModelChain → PlanState rand → Option Err
  empty_plan_error chain st =
      if is_empty st.attempts
      then if str_eq chain.routing_name "" && st.blocked
        then some model_not_allowed
        else if not (str_eq chain.routing_name "")
        then some routing_fallback
        else some no_channel_available
      else none

  abbrev pub plan_of : ModelChain → PlanState rand → AttemptPlan
  plan_of chain st = record {
    attempts = st.attempts;
    routing_name = chain.routing_name;
    trace = chain.trace;
    had_affinity_entry = st.had_entry;
  }

  abbrev pub start_state : Option AffinityEngine → rand.Seed → PlanState rand
  start_state engine seed = record {
    attempts = [];
    had_entry = false;
    blocked = false;
    engine = engine;
    seed = seed;
  }

  abbrev pub finish_plan : ModelChain → Option (PlanState rand × Bool) → Option (PlanOutcome rand)
  finish_plan chain none = none
  finish_plan chain (some (st, full)) = some (record {
    err = if full then none else empty_plan_error chain st;
    plan = plan_of chain st;
    state = st;
  })

  -- `Solve`, on a fresh plan. `budget` is the setting `RetryMaxChannels`.
  unfoldable pub solve :
      ModelChain → ℤ → Option AffinityEngine → rand.Seed → Option (PlanOutcome rand)
  unfolding plan_models empty_plan_error
  solve chain budget engine seed =
      let st = start_state engine seed in
      if is_empty chain.models
      then some (record {
        err = some no_routable_model;
        plan = record { attempts = []; routing_name = ""; trace = []; had_affinity_entry = false };
        state = st;
      })
      else if not (ltb_ℤ (pos 0) budget)
      then some (record { err = some routing_fallback; plan = plan_of chain st; state = st })
      else finish_plan chain (plan_models (pos_part budget) chain.models st)
