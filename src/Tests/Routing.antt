-- ===== src/Tests/Routing.antt =====
-- The relay pipeline at concrete inputs.
use vaala_ai_gateway.Prelude.{
  ℕ, ◌+◌, ◌%◌, ◌<◌, ◌≡◌, refl, ◌⊎◌, inl, inr, pos, Bool, true, false, String, str_eq, [], ◌∷◌,
  Option, none, some, arith, Bool-cases, IsIn, All, if◌then◌else◌,
}
use package.native.Mathlib.Nat.{mod-lt}
use vaala_ai_gateway.Relay.Random.{Random}
use vaala_ai_gateway.Relay.State.{native}
use vaala_ai_gateway.Relay.Routing.{
  try_members, enter, leave, mark_member_exhausted, RoutingMember, SyncedRouting, RoutingStore,
  new_resolve_ctx, resolve_step, resolve_to_real_model, select_routing_member, pick_ref,
  total_weight, lookup_routing,
}
use vaala_ai_gateway.Relay.Routing.Select.{IsTopChoice, select_routing_member_lem, pick_ref_share}
use vaala_ai_gateway.Relay.Routing.Resolve.{Returns, StepEnding, resolve_step_lem}
use vaala_ai_gateway.Relay.Chain.{ModelChain, build_chain}
use vaala_ai_gateway.Relay.Chain.Ends.{
  build_chain_returns, count_members, IsRealModel, build_chain_returns,
}

-- A source of draws that counts up.
pub counting_lt : (n s : ℕ) → 0 < n → s % n < n
counting_lt n s h = mod-lt s h

abbrev pub counting : Random
counting = record { Seed = ℕ; intn = λ n s. (s % n, s + 1); intn_lt = counting_lt }

abbrev pub member : String → RoutingMember
member ref = record { ref = ref; priority = pos 0; weight = pos 1 }

-- The routing `smart` of two models.
abbrev smart : SyncedRouting
smart = record { id = 7; name = "smart"; scope = "global"; members = member "a" ∷ member "b" ∷ [] }

abbrev global_routing : String → Option SyncedRouting
global_routing name = if str_eq name "smart" then some smart else none

abbrev store : RoutingStore
store = record {
  resolve_routing = λ name user_id. global_routing name;
  get_global_routing = global_routing;
  has_real_model = λ name. false;
}

found_listed :
    (name : String) (r : SyncedRouting) → global_routing name ≡ some r → IsIn r (smart ∷ [])
found_listed name r h = elim (Bool-cases (str_eq name "smart")) [
  | inl e ↦ let h' = rw e at h in inl (cc)
  | inr e ↦ let h' = rw e at h in absurd (cc)
]

all_listed :
    (top_level : Bool) (name : String) (r : SyncedRouting)
    → lookup_routing counting store 0 top_level name ≡ some r
    → IsIn r (smart ∷ [])
all_listed true name r h = found_listed name r h
all_listed false name r h = found_listed name r h

smart_chain :
    build_chain counting store 0 "smart" 6 0
    ≡ some
        (record { models = "a" ∷ "b" ∷ []; routing_name = "smart"; trace = "global:smart" ∷ [] }, 2)
unfolding build_chain resolve_to_real_model new_resolve_ctx select_routing_member try_members enter
    mark_member_exhausted leave
smart_chain = refl

build_chain_returns_example :
    (chain : ModelChain) × (seed' : ℕ) × (build_chain counting store 0 "smart" 6 0
      ≡ some (chain, seed'))
    × All (IsRealModel counting store 0 "smart" (smart ∷ []) all_listed) chain.models
build_chain_returns_example =
    build_chain_returns counting store 0 "smart" (smart ∷ []) all_listed 6 0
      (unfold count_members in omega arith)

resolve_step_lem_example :
    Returns counting store 0
      (StepEnding counting store 0 true "smart")
      (new_resolve_ctx counting 0)
      (resolve_step counting store 0 6 true "smart" (new_resolve_ctx counting 0))
resolve_step_lem_example =
    resolve_step_lem counting store 0 6 true "smart" (new_resolve_ctx counting 0)
      (unfold new_resolve_ctx in omega arith) (unfold new_resolve_ctx in omega arith)

select_routing_member_lem_example :
    (All (λ n. str_eq n.ref "a" ≡ true) smart.members
      × (select_routing_member counting smart.members (λ ref. str_eq ref "a") 0 ≡ ("", 0)))
    ⊎ ((p : RoutingMember) × IsTopChoice smart.members (λ ref. str_eq ref "a") p
        × ((select_routing_member counting smart.members (λ ref. str_eq ref "a") 0).0 ≡ p.ref))
select_routing_member_lem_example =
    select_routing_member_lem counting smart.members (λ ref. str_eq ref "a") 0

pick_ref_share_example :
    pick_ref (total_weight (member "a" ∷ []) + 0) "" (member "a" ∷ member "b" ∷ []) ≡ "b"
pick_ref_share_example = pick_ref_share (member "a" ∷ []) (member "b") [] 0 "" (omega arith)
