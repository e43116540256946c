-- ===== src/Relay/Plan/Solve/Budget.antt =====
-- internal/agent/relay/pipeline/plan/plan.go: what a plan holds, and when there is an error.
use vaala_ai_gateway.Prelude.{
  ℕ, ◌+◌, ◌≤◌, ◌<◌, ◌≡◌, refl, subst, ◌↔◌, inl, inr, ℤ, pos, pos_part, ltb_ℤ, leb, Bool, true,
  false, String, List, [], ◌∷◌, ◌++◌, Option, none, some, arith, length, length-append,
  if◌then◌else◌, IsIn, All, All-concat, All-of_IsIn, Bool-cases,
}
use vaala_ai_gateway.Relay.Random.{Random}
use vaala_ai_gateway.Relay.State.{Channel, RelayMode, Protocol, RelayInput, Attempt, UserInfo}
use vaala_ai_gateway.Relay.Affinity.{Entry, AffinityEngine}
use vaala_ai_gateway.Relay.Affinity.Engine
use vaala_ai_gateway.Relay.Chain.{ModelChain}
use vaala_ai_gateway.Relay.Plan.{ScoredCandidate, is_empty}
use vaala_ai_gateway.Relay.Plan.Solve.{
  Regexp, Sorter, PlanState, PlanOutcome, allowed_by_whitelist, is_sticky, bring_forward,
  apply_entry, apply_affinity, attempt_of, add_attempts, plan_model, plan_candidates, plan_models,
  solve, empty_plan_error, start_state,
}

-- The mark of the affinity is all that reordering changes in a candidate.
module _ (Q : ScoredCandidate → Type 0)
    (ignores : (sc : ScoredCandidate) → Q sc → Q (record sc { by_affinity = true })) where
  All-bring_forward :
      (entry : Entry) (before scs : List ScoredCandidate)
      → All Q before
      → All Q scs
      → All Q (bring_forward entry before scs)
  unfolding bring_forward
  All-bring_forward entry before [] h k = h
  All-bring_forward entry before (sc ∷ scs) h k = elim (Bool-cases (is_sticky entry sc)) [
    | inl e ↦ rw e (ignores sc k.0, All-concat Q before scs h k.1)
    | inr e ↦ rw e (
        All-bring_forward entry (before ++ sc ∷ []) scs (All-concat Q before (sc ∷ []) h (k.0, tt))
          k.1)
  ]

  All-apply_entry :
      (ordered : List ScoredCandidate) (found : AffinityEngine × Option Entry)
      → All Q ordered
      → All Q (apply_entry ordered found).2
  unfolding apply_entry
  All-apply_entry ordered (engine, none) h = h
  All-apply_entry ordered (engine, some entry) h = All-bring_forward entry [] ordered tt h

  All-apply_affinity :
      (now : ℕ) (engine : Option AffinityEngine) (user_info : Option UserInfo) (real_model : String)
      (ordered : List ScoredCandidate)
      → All Q ordered
      → All Q (apply_affinity now engine user_info real_model ordered).2
  unfolding apply_affinity
  All-apply_affinity now none user_info real_model ordered h = h
  All-apply_affinity now (some engine) none real_model ordered h = h
  All-apply_affinity now (some engine) (some ui) real_model ordered h = ground (
    arith,
    All-apply_entry ordered
        (Engine.lookup now engine (record { user_id = ui.user_id; real_model = real_model })) h,
  )

module _ (rand : Random) (pool : String → List ScoredCandidate) (sorter : Sorter rand)
    (pick : Channel → String → Protocol → RelayMode) (regexp : Regexp) (now : String → ℕ)
    (input : RelayInput) (models : List String) where
  -- An attempt is for a model of the chain that the whitelists allow, on a candidate that the pool
  -- gave for that model, in the mode that the picker gives for the channel.
  pub record IsPlanned (a : Attempt) : Type 0 where
    pub in_chain : IsIn a.real_model models
    pub allowed : allowed_by_whitelist regexp a.real_model input.user_info ≡ true
    pub candidate : ScoredCandidate
    pub in_pool : IsIn candidate (pool a.real_model)
    pub same_channel : a.channel ≡ candidate.channel
    pub same_source : a.source ≡ candidate.source
    pub same_source_id : a.source_id ≡ candidate.source_id
    pub picked_mode : a.mode ≡ pick a.channel a.real_model input.inbound_proto

  -- What a loop leaves: the plan is within the budget, and short of it unless the loop returned;
  -- then there is an attempt.
  record IsWithin (budget : ℕ) (attempts : List Attempt) (full : Bool) : Type 0 where
    short : full ≡ false → length attempts < budget
    at_most : length attempts ≤ budget
    some_attempt : full ≡ true → 0 < length attempts
    planned : All IsPlanned attempts

  abbrev Planner : String → ScoredCandidate → Type 0
  Planner m sc = IsPlanned (attempt_of rand pool sorter pick regexp now input m sc)

  add_attempts_lem :
      (budget : ℕ) (m : String) (scs : List ScoredCandidate) (attempts : List Attempt)
      → All (Planner m) scs
      → IsWithin budget attempts false
      → let (attempts', full) =
          add_attempts rand pool sorter pick regexp now input budget m scs attempts in
        IsWithin budget attempts' full
  unfolding add_attempts
  add_attempts_lem budget m [] attempts ok w = w
  add_attempts_lem budget m (sc ∷ scs) attempts ok w =
      elim (Bool-cases (leb budget (length attempts'))) [
        | inl e ↦
            rw (e, add_attempts)
              (record {
                short = λ h. absurd (cc);
                at_most = omega (arith, grown, w.short refl);
                some_attempt = λ h. omega (arith, grown);
                planned = planned;
              })
        | inr e ↦
            rw (e, add_attempts)
              (add_attempts_lem budget m scs attempts' ok.1 (record {
                short = λ h. ground (arith, e);
                at_most = omega (arith, grown, w.short refl);
                some_attempt = λ h. absurd (cc);
                planned = planned;
              }))
      ]
    where
      next : Attempt
      next = attempt_of rand pool sorter pick regexp now input m sc

      attempts' : List Attempt
      attempts' = attempts ++ next ∷ []

      grown : length attempts' ≡ length attempts + 1
      grown = length-append attempts (next ∷ [])

      planned : All IsPlanned attempts'
      planned = All-concat IsPlanned attempts (next ∷ []) w.planned (ok.0, tt)

  -- A candidate of the pool makes a planned attempt.
  Planner-of_pool :
      (m : String) (sc : ScoredCandidate)
      → IsIn m models
      → allowed_by_whitelist regexp m input.user_info ≡ true
      → IsIn sc (pool m)
      → Planner m sc
  unfolding attempt_of
  Planner-of_pool m sc i ok p = record {
    in_chain = i;
    allowed = ok;
    candidate = sc;
    in_pool = p;
    same_channel = refl;
    same_source = refl;
    same_source_id = refl;
    picked_mode = refl;
  }

  Planner-ignores :
      (m : String) (sc : ScoredCandidate)
      → Planner m sc
      → Planner m (record sc { by_affinity = true })
  unfolding attempt_of
  Planner-ignores m sc p = record {
    in_chain = p.in_chain;
    allowed = p.allowed;
    candidate = p.candidate;
    in_pool = p.in_pool;
    same_channel = p.same_channel;
    same_source = p.same_source;
    same_source_id = p.same_source_id;
    picked_mode = p.picked_mode;
  }

  plan_model_lem :
      (budget : ℕ) (m : String) (sorted : List ScoredCandidate) (st : PlanState rand)
      → All (Planner m) sorted
      → IsWithin budget st.attempts false
      → let (st', full) = plan_model rand pool sorter pick regexp now input budget m sorted st in
        IsWithin budget st'.attempts full
  unfolding plan_model
  plan_model_lem budget m sorted st ok w =
      add_attempts_lem budget m (apply_affinity (now m) st.engine input.user_info m sorted).2
        st.attempts
        (All-apply_affinity (Planner m) (Planner-ignores m) (now m) st.engine input.user_info m
          sorted ok)
        w

  plan_candidates_lem :
      (budget : ℕ) (m : String) (scs : List ScoredCandidate) (st : PlanState rand)
      → ((sc : ScoredCandidate) → IsIn sc scs → Planner m sc)
      → IsWithin budget st.attempts false
      → (st' : PlanState rand) × (full : Bool) × (plan_candidates rand pool sorter pick regexp now
            input budget m scs st
          ≡ some (st', full))
        × IsWithin budget st'.attempts full
  unfolding plan_candidates
  plan_candidates_lem budget m [] st ok w = (st, false, refl, w)
  plan_candidates_lem budget m (sc ∷ scs) st ok w =
      let (sorted, seed', ran, subset) = sorter.sort_returns (sc ∷ scs) st.seed in
      rw (ran, plan_candidates)
        (
          _,
          _,
          refl,
          plan_model_lem budget m sorted (record st { seed = seed' })
              (All-of_IsIn (Planner m) sorted (λ c i. ok c (subset c i))) w,
        )

  plan_models_lem :
      (budget : ℕ) (ms : List String) (st : PlanState rand)
      → All (λ m. IsIn m models) ms
      → IsWithin budget st.attempts false
      → (st' : PlanState rand) × (full : Bool) × (plan_models rand pool sorter pick regexp now input
            budget ms st
          ≡ some (st', full))
        × IsWithin budget st'.attempts full
  unfolding plan_models
  plan_models_lem budget [] st h w = (st, false, refl, w)
  plan_models_lem budget (m ∷ ms) st h w =
      elim (Bool-cases (allowed_by_whitelist regexp m input.user_info)) [
        | inr e ↦
            rw (e, plan_models) (plan_models_lem budget ms (record st { blocked = true }) h.1 w)
        | inl e ↦
            let (st', full, ran, w') =
              plan_candidates_lem budget m (pool m) st (λ sc i. Planner-of_pool m sc h.0 e i) w in
            rw (e, ran, plan_models)
              (elim (Bool-cases full) [
                | inl f ↦ rw f (st', true, refl, subst (IsWithin budget st'.attempts) f w')
                | inr f ↦
                    rw f (
                      plan_models_lem budget ms st' h.1 (subst (IsWithin budget st'.attempts) f w'))
              ])
      ]

module _ (rand : Random) (pool : String → List ScoredCandidate) (sorter : Sorter rand)
    (pick : Channel → String → Protocol → RelayMode) (regexp : Regexp) (now : String → ℕ)
    (input : RelayInput) where
  empty_plan_error_iff :
      (chain : ModelChain) (st : PlanState rand) (attempts : List Attempt)
      → st.attempts ≡ attempts
      → (empty_plan_error rand pool sorter pick regexp now input chain st ≡ none)
        ↔ (0 < length attempts)
  unfolding empty_plan_error
  empty_plan_error_iff chain st [] e = (λ h. ground (arith, e), λ h. absurd (omega arith))
  empty_plan_error_iff chain st (a ∷ rest) e = (λ h. omega arith, λ h. ground (arith, e))

  -- `Solve` returns a plan of at most `budget` attempts (none if the budget is zero or less), each
  -- of them planned from the chain, and it reports an error exactly when the plan is empty.
  pub solve_plans :
      (chain : ModelChain) (budget : ℤ) (engine : Option AffinityEngine) (seed : rand.Seed)
      → (o : PlanOutcome rand) × (solve rand pool sorter pick regexp now input chain budget engine
            seed
          ≡ some o)
        × (length o.plan.attempts ≤ pos_part budget)
        × All (IsPlanned rand pool sorter pick regexp now input chain.models) o.plan.attempts
        × ((o.err ≡ none) ↔ (0 < length o.plan.attempts))
  unfolding solve
  solve_plans chain budget engine seed = elim (Bool-cases (is_empty chain.models)) [
    | inl e ↦ rw e (_, refl, omega arith, tt, (λ h. absurd (cc), λ h. absurd (omega arith)))
    | inr e ↦ elim (Bool-cases (ltb_ℤ (pos 0) budget)) [
      | inr z ↦ rw (e, z) (_, refl, omega arith, tt, (λ h. absurd (cc), λ h. absurd (omega arith)))
      | inl z ↦
          let (st, full, ran, w) =
            plan_models_lem rand pool sorter pick regexp now input chain.models (pos_part budget)
              chain.models (start_state rand pool sorter pick regexp now input engine seed)
              (All-of_IsIn _ chain.models (λ m i. i)) (start z) in
          rw (e, z, ran) (_, refl, w.at_most, w.planned, no_error st full w)
    ]
  ]
    where
      start :
          ltb_ℤ (pos 0) budget ≡ true
          → IsWithin rand pool sorter pick regexp now input chain.models (pos_part budget) [] false
      start z = record {
        short = λ _. ground (arith, z);
        at_most = omega arith;
        some_attempt = λ h. absurd (cc);
        planned = tt;
      }

      no_error :
          (st : PlanState rand) (full : Bool)
          → IsWithin rand pool sorter pick regexp now input chain.models
              (pos_part budget)
              st.attempts
              full
          → ((if full
                then none
                else empty_plan_error rand pool sorter pick regexp now input chain st)
              ≡ none)
            ↔ (0 < length st.attempts)
      no_error st true w = (λ h. w.some_attempt refl, λ h. refl)
      no_error st false w = empty_plan_error_iff chain st st.attempts refl
