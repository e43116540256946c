-- ===== src/Relay/Chain.antt =====
-- internal/agent/relay/pipeline/plan/chain.go: the chain of real models of a request, evaluated in
-- advance by resolving, marking the result as exhausted, and resolving again.
pub mod Ends
use vaala_ai_gateway.Prelude.{
  ℕ, zero, suc, Bool, true, false, ◌||◌, String, str_eq, List, [], ◌∷◌, ◌++◌, Option, none, some,
  if◌then◌else◌,
}
use vaala_ai_gateway.Relay.Random.{Random}
use vaala_ai_gateway.Relay.Routing.{
  RoutingStore, ResolveCtx, new_resolve_ctx, mark_member_exhausted, resolve_to_real_model,
}

pub record ModelChain : Type 0 where
  pub models : List String
  pub routing_name : String
  pub trace : List String

abbrev pub empty_chain : ModelChain
empty_chain = record { models = []; routing_name = ""; trace = [] }

module _ (rand : Random) where
  abbrev Ctx : Type 0
  Ctx = ResolveCtx rand

  module _ (store : RoutingStore) (user_id : ℕ) (model : String) where
    -- The `for` of `buildChainFromStore`; `last` is the last of `models`. `none` means that the
    -- fuel ran out.
    unfoldable pub extend_chain : ℕ → List String → String → Ctx → Option (List String × Ctx)
    extend_chain zero models last c = none
    extend_chain (suc fuel) models last c =
        elim (resolve_to_real_model rand store user_id model (mark_member_exhausted rand last c)) [
          | none ↦ none
          | some (next, c') ↦ elim (str_eq next "" || str_eq next last) [
            | true ↦ some (models, c')
            | false ↦ extend_chain fuel (models ++ next ∷ []) next c'
          ]
        ]

    -- The chain of a first result that is not empty, and the draws that are left. The trace is the
    -- one of the first resolution.
    abbrev pub finish_chain :
        String → List String → Option (List String × Ctx) → Option (ModelChain × rand.Seed)
    finish_chain first trace none = none
    finish_chain first trace (some (models, c)) = some (
      record {
        models = models;
        routing_name = if str_eq first model then "" else model;
        trace = trace;
      },
      c.seed,
    )

    abbrev pub chain_from : ℕ → Option (String × Ctx) → Option (ModelChain × rand.Seed)
    chain_from fuel none = none
    chain_from fuel (some (first, c)) =
        if str_eq first ""
        then some (record { models = []; routing_name = ""; trace = c.trace }, c.seed)
        else finish_chain first c.trace (extend_chain fuel (first ∷ []) first c)

    unfoldable pub build_chain : ℕ → rand.Seed → Option (ModelChain × rand.Seed)
    unfolding extend_chain
    build_chain fuel seed =
        chain_from fuel (resolve_to_real_model rand store user_id model (new_resolve_ctx rand seed))

  -- `nil` for the store gives the empty chain.
  unfoldable pub build_chain_from_store :
      Option RoutingStore → ℕ → String → ℕ → rand.Seed → Option (ModelChain × rand.Seed)
  unfolding build_chain
  build_chain_from_store none user_id model fuel seed = some (empty_chain, seed)
  build_chain_from_store (some store) user_id model fuel seed =
      build_chain store user_id model fuel seed
