-- ===== src/Tests/Plan.antt =====
-- The plan of a request at concrete inputs.
use vaala_ai_gateway.Prelude.{
  IsIn, true, inl, ◌==◌, ℕ, ◌<◌, ◌≤◌, ◌≡◌, refl, ◌↔◌, ℤ, pos, Bool, false, String, str_eq, List, [],
  ◌∷◌, Option, none, some, length, All, filter, if◌then◌else◌, eq_ℤ,
}
use mathlib.Core.List.{Permᴰ}
use vaala_ai_gateway.Prelude.Sort.{stable_slice_sort, slice_stable}
use vaala_ai_gateway.Relay.State.{Channel, admin, private, RelayMode, Protocol, RelayInput}
use vaala_ai_gateway.Relay.Chain.{ModelChain}
use vaala_ai_gateway.Relay.State.{UserInfo}
use vaala_ai_gateway.Relay.Plan.{
  ScoredCandidate, ChannelCache, collect_candidates, apply_whitelist, available,
}
use vaala_ai_gateway.Relay.Plan.Pool.{permitted, IsIn-apply_whitelist, IsIn-available}
use vaala_ai_gateway.Relay.Plan.Order.{sort, status_enabled, weighted_shuffle}
use vaala_ai_gateway.Relay.Plan.Order.Sorted.{IsDescending, sort-perm-IsDescending}
use vaala_ai_gateway.Relay.Plan.Wiring.{priority_weighted_sorter}
use vaala_ai_gateway.Relay.Plan.Solve.{solve, PlanOutcome}
use vaala_ai_gateway.Relay.Plan.Solve.Budget.{IsPlanned, solve_plans}
use vaala_ai_gateway.Tests.Routing.{counting}

abbrev pub channel : ℕ → ℤ → ℤ → Channel
channel id status priority = record {
  id = id;
  name = "c";
  status = status;
  weight = 2;
  priority = priority;
  resilience = record {
    max_retries = none;
    backoff_base_ms = none;
    backoff_max_ms = none;
    breaker_threshold = none;
    breaker_cooldown_ms = none;
  };
}

abbrev shared : ℕ → ℤ → ℤ → ScoredCandidate
shared id status priority = record {
  channel = channel id status priority;
  source = admin;
  source_id = id;
  by_affinity = false;
}

abbrev own : ℕ → ℤ → ℤ → ScoredCandidate
own id status priority = record {
  channel = channel id status priority;
  source = private;
  source_id = id;
  by_affinity = false;
}

-- Two shared candidates of different priority, a disabled one, and one of the user.
abbrev candidates : List ScoredCandidate
candidates =
    shared 1 (pos 1) (pos 3)
    ∷ shared 2 (pos 0) (pos 9)
    ∷ shared 3 (pos 1) (pos 5)
    ∷ own 1 (pos 1) (pos 0)
    ∷ []

sort_run :
    sort counting stable_slice_sort candidates 0
    ≡ some (own 1 (pos 1) (pos 0) ∷ shared 3 (pos 1) (pos 5) ∷ shared 1 (pos 1) (pos 3) ∷ [], 0)
unfolding sort weighted_shuffle slice_stable
sort_run = refl

sort-perm-IsDescending_example :
    (out : List ScoredCandidate) × (seed' : ℕ) × (sort counting stable_slice_sort candidates 0
      ≡ some (out, seed'))
    × Permᴰ out (filter (λ sc. eq_ℤ sc.channel.status status_enabled) candidates)
    × IsDescending out
sort-perm-IsDescending_example = sort-perm-IsDescending counting stable_slice_sort candidates 0

abbrev pool : String → List ScoredCandidate
pool model = if str_eq model "a" then candidates else []

abbrev pick : Channel → String → Protocol → RelayMode
pick channel model proto = RelayMode.native

abbrev regexp : String → String → Option Bool
regexp pattern model = none

abbrev now : String → ℕ
now model = 7

abbrev input : RelayInput
input = record {
  user_info = none;
  model = "smart";
  inbound_proto = Protocol.openai_chat;
  forced_channel_id = 0;
}

abbrev chain : ModelChain
chain = record { models = "b" ∷ "a" ∷ []; routing_name = "smart"; trace = [] }

solve_plans_example :
    (o : PlanOutcome counting) × (solve counting pool
        (priority_weighted_sorter counting stable_slice_sort)
        pick
        regexp
        now
        input
        chain
        (pos 2)
        none
        0
      ≡ some o)
    × (length o.plan.attempts ≤ 2)
    × All
        (IsPlanned counting pool
          (priority_weighted_sorter counting stable_slice_sort)
          pick
          regexp
          now
          input
          chain.models)
        o.plan.attempts
    × ((o.err ≡ none) ↔ (0 < length o.plan.attempts))
solve_plans_example =
    solve_plans counting pool (priority_weighted_sorter counting stable_slice_sort) pick regexp now
      input chain (pos 2) none 0

-- A user whose group may use the shared channel 3 only.
abbrev user : UserInfo
user = record {
  user_id = 1;
  token_id = 2;
  token_models = [];
  allowed_channel_ids = [];
  group_models = [];
  group_allowed_channel_ids = 3 ∷ [];
}

IsIn-apply_whitelist_example :
    IsIn (shared 3 (pos 1) (pos 5)) (apply_whitelist candidates (some user)) ↔ (
      IsIn (shared 3 (pos 1) (pos 5)) candidates
      × (permitted (some user) (shared 3 (pos 1) (pos 5)) ≡ true))
IsIn-apply_whitelist_example =
    IsIn-apply_whitelist candidates (some user) (shared 3 (pos 1) (pos 5))

abbrev cache : ChannelCache
cache = record {
  visible_private_channels = λ user_id model. channel 1 (pos 1) (pos 0) ∷ [];
  channels_for_model = λ model. channel 1 (pos 1) (pos 3) ∷ channel 3 (pos 1) (pos 5) ∷ [];
}

abbrev forced_input : RelayInput
forced_input = record {
  user_info = some user;
  model = "a";
  inbound_proto = Protocol.openai_chat;
  forced_channel_id = 3;
}

IsIn-available_example :
    IsIn (shared 3 (pos 1) (pos 5)) (collect_candidates cache forced_input "a")
    × (permitted (some user) (shared 3 (pos 1) (pos 5)) ≡ true)
    × ((3 == 0 ≡ false) → true ≡ true)
IsIn-available_example = IsIn-available cache forced_input "a" (shared 3 (pos 1) (pos 5)) chosen
  where
    chosen : IsIn (shared 3 (pos 1) (pos 5)) (available cache forced_input "a")
    chosen = unfold available in unfold collect_candidates in unfold apply_whitelist in inl refl
