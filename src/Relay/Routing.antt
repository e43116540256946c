-- ===== src/Relay/Routing.antt =====
-- internal/agent/relay/pipeline/plan/routing.go: the expansion of a routing name into a real
-- model. The methods of `*ResolveCtx` return the new context; Go's maps to `bool` are functions,
-- and the state of `math/rand` travels in the context's `seed`.
pub mod Select
pub mod Open
pub mod Mark
pub mod Resolve
use vaala_ai_gateway.Prelude.{
  ℕ, zero, suc, ◌+◌, ◌-◌, ℤ, pos, pos_part, neg_part, ltb_ℤ, eq_ℤ, Bool, true, false, not, ◌&&◌,
  ◌||◌, String, str_eq, List, [], ◌∷◌, ◌++◌, Option, none, some, ltb, leb, ◌==◌, if◌then◌else◌,
  filter, length,
}
use vaala_ai_gateway.Prelude.Sort.{slice_stable}
use vaala_ai_gateway.Relay.Random.{Random}
use Prim.Native.String.{◌++◌ as str_append}
use mathlib.Core.Option

abbrev pub routing_max_depth : ℕ
routing_max_depth = 5

pub record RoutingMember : Type 0 where
  pub ref : String
  pub priority : ℤ
  pub weight : ℤ

-- The fields of `protocol.SyncedRouting` that the expansion reads.
pub record SyncedRouting : Type 0 where
  pub id : ℕ
  pub name : String
  pub scope : String
  pub members : List RoutingMember

-- The interface `RoutingStore`, whose methods only read.
pub record RoutingStore : Type 0 where
  pub resolve_routing : String → ℕ → Option SyncedRouting
  pub get_global_routing : String → Option SyncedRouting
  pub has_real_model : String → Bool

-- `weight <= 0` counts as 1.
abbrev pub weight_of : RoutingMember → ℕ
weight_of m = if ltb_ℤ (pos 0) m.weight then pos_part m.weight else 1

unfoldable pub total_weight : List RoutingMember → ℕ
total_weight [] = 0
total_weight (m ∷ ms) = weight_of m + total_weight ms

-- The second loop of `weightedRandomMember`: `r -= w; if r < 0 { return }`, and behind it the
-- last member (`last` is the one seen before).
unfoldable pub pick_ref : ℕ → String → List RoutingMember → String
pick_ref r last [] = last
pick_ref r last (m ∷ ms) =
    if ltb r (weight_of m) then m.ref else pick_ref (r - weight_of m) m.ref ms

-- The leading members of the priority `top`: the loop that breaks at the first other one.
unfoldable pub leading : ℤ → List RoutingMember → List RoutingMember
leading top [] = []
leading top (m ∷ ms) = if eq_ℤ m.priority top then m ∷ leading top ms else []

abbrev pub higher : RoutingMember → RoutingMember → Bool
higher a b = ltb_ℤ b.priority a.priority

module _ (rand : Random) where
  open rand use {Seed, intn}

  unfoldable pub weighted_random_member : List RoutingMember → Seed → String × Seed
  unfolding total_weight pick_ref
  weighted_random_member members seed =
      let (r, seed') = intn (total_weight members) seed in (pick_ref r "" members, seed')

  -- The candidates in order, the highest priority first.
  pick_top : List RoutingMember → Seed → String × Seed
  unfolding leading weighted_random_member
  pick_top [] seed = ("", seed)
  pick_top (c ∷ cs) seed = weighted_random_member (leading c.priority (c ∷ cs)) seed

  unfoldable pub select_routing_member : List RoutingMember → (String → Bool) → Seed → String × Seed
  unfolding slice_stable pick_top
  select_routing_member members excluded seed =
      pick_top (slice_stable higher (filter (λ m. not (excluded m.ref)) members)) seed

  pub record ResolveCtx : Type 0 where
    pub excluded : ℕ → String → Bool
    pub visited : ℕ → Bool
    pub depth : ℕ
    pub trace : List String
    pub last_chain : List ℕ
    pub seed : Seed

  unfoldable pub new_resolve_ctx : Seed → ResolveCtx
  new_resolve_ctx seed = record {
    excluded = λ id ref. false;
    visited = λ id. false;
    depth = 0;
    trace = [];
    last_chain = [];
    seed = seed;
  }

  -- `c.excluded[id][ref] = true`
  unfoldable pub exclude : ℕ → String → ResolveCtx → ResolveCtx
  exclude id ref c = record c { excluded = λ i r. (i == id && str_eq r ref) || c.excluded i r }

  mark_chain : List ℕ → String → ResolveCtx → ResolveCtx
  unfolding exclude
  mark_chain [] real_model c = c
  mark_chain (id ∷ ids) real_model c = mark_chain ids real_model (exclude id real_model c)

  unfoldable pub mark_member_exhausted : String → ResolveCtx → ResolveCtx
  unfolding mark_chain
  mark_member_exhausted real_model c = mark_chain c.last_chain real_model c

  abbrev pub push_trace : String → ResolveCtx → ResolveCtx
  push_trace t c = record c { trace = c.trace ++ t ∷ [] }

  -- A routing is entered, and left by the deferred function.
  unfoldable pub enter : SyncedRouting → ResolveCtx → ResolveCtx
  enter r c = record c {
    visited = λ i. (i == r.id) || c.visited i;
    depth = c.depth + 1;
    trace = c.trace ++ str_append r.scope (str_append ":" r.name) ∷ [];
  }

  unfoldable pub leave : SyncedRouting → ResolveCtx → ResolveCtx
  leave r c = record c { visited = λ i. not (i == r.id) && c.visited i; depth = c.depth - 1 }

  -- The rest of the loop's body: a member that failed is excluded and the loop goes on, else its
  -- result is returned and the routing joins the chain.
  unfoldable pub settle :
      SyncedRouting
      → String
      → (ResolveCtx → Option (String × ResolveCtx))
      → Option (String × ResolveCtx)
      → Option (String × ResolveCtx)
  settle r member retry none = none
  settle r member retry (some (result, c)) =
      if str_eq result ""
      then retry (exclude r.id member c)
      else some (result, record c { last_chain = c.last_chain ++ r.id ∷ [] })

  -- The `for` over the members of `r`, `step` being the recursive call. `none` means that the
  -- fuel ran out.
  unfoldable pub try_members :
      (String → ResolveCtx → Option (String × ResolveCtx))
      → SyncedRouting
      → ℕ
      → ResolveCtx
      → Option (String × ResolveCtx)
  unfolding settle
  try_members step r zero c = none
  try_members step r (suc fuel) c =
      let (member, seed') = select_routing_member r.members (c.excluded r.id) c.seed in
      let c' = record c { seed = seed' } in
      if str_eq member ""
      then some ("", c')
      else settle r member (try_members step r fuel) (step member c')

  module _ (store : RoutingStore) (user_id : ℕ) where
    -- At the top a routing of the user may be hit; a member names global routings only.
    abbrev pub lookup_routing : Bool → String → Option SyncedRouting
    lookup_routing top_level ref =
        if top_level then store.resolve_routing ref user_id else store.get_global_routing ref

    abbrev pub leave_with :
        SyncedRouting → Option (String × ResolveCtx) → Option (String × ResolveCtx)
    leave_with r none = none
    leave_with r (some (result, c)) = some (result, leave r c)

    -- A routing that is on the path already: the real model of that name, or a cycle.
    unfoldable pub revisit : String → ResolveCtx → String × ResolveCtx
    revisit ref c =
        if store.has_real_model ref
        then (ref, push_trace (str_append ref ":model") c)
        else ("", push_trace (str_append ref ":cycle") c)

    -- What the store gave for `ref`: no routing, so the name itself; a routing on the path; or one
    -- to enter, `step` being the recursive call. The loop has fuel for every member.
    unfoldable pub expand :
        (String → ResolveCtx → Option (String × ResolveCtx))
        → String
        → Option SyncedRouting
        → ResolveCtx
        → Option (String × ResolveCtx)
    unfolding revisit
    expand step ref none c = some (ref, c)
    expand step ref (some r) c =
        if c.visited r.id
        then some (revisit ref c)
        else leave_with r (try_members step r (length r.members + 1) (enter r c))

    -- `none` only if the fuel `d` does not cover the depth that is left.
    unfoldable pub resolve_step : ℕ → Bool → String → ResolveCtx → Option (String × ResolveCtx)
    unfolding expand
    resolve_step zero top_level ref c = none
    resolve_step (suc d) top_level ref c =
        if leb routing_max_depth c.depth
        then some ("", push_trace (str_append ref ":depth_exceeded") c)
        else expand (resolve_step d false) ref (lookup_routing top_level ref) c

    unfoldable pub resolve_to_real_model : String → ResolveCtx → Option (String × ResolveCtx)
    unfolding resolve_step
    resolve_to_real_model ref c =
        resolve_step (routing_max_depth + 1) true ref (record c { last_chain = [] })
