-- ===== src/Relay/Chain/Ends.antt =====
-- internal/agent/relay/pipeline/plan/chain.go: the loop ends, since every round excludes a member
-- of a routing, and every model of the chain is a real one.
use vaala_ai_gateway.Prelude.{
  ℕ, zero, suc, ◌+◌, ◌*◌, ◌≤◌, ◌<◌, ◌≡◌, refl, ap, ◌∙◌, ◌⊎◌, inl, inr, Bool, true, false, String,
  str_eq, List, [], ◌∷◌, ◌++◌, some, arith, length, IsIn, All, All-concat, ◌||◌, Bool-cases, eq_iff,
  subst,
}
use vaala_ai_gateway.Relay.Random.{Random}
use vaala_ai_gateway.Relay.Routing.{
  RoutingMember, SyncedRouting, RoutingStore, ResolveCtx, mark_member_exhausted, new_resolve_ctx,
  lookup_routing, resolve_to_real_model,
}
use vaala_ai_gateway.Relay.Routing.Mark.{mark_member_exhausted_keeps, mark_member_exhausted_first}
use vaala_ai_gateway.Relay.Chain.{ModelChain, extend_chain, build_chain}
use vaala_ai_gateway.Relay.Routing.Open.{
  count_open, count_open_mono, count_open_lt, count_open-le-length,
}
use vaala_ai_gateway.Relay.Routing.Resolve.{IsLeaf, Keeps, Through, StepEnding, resolve_step_lem}

-- The members of all routings, each routing's own count.
unfoldable pub count_members : List SyncedRouting → ℕ
count_members [] = 0
count_members (r ∷ rs) = length r.members + count_members rs

-- The members that are still open.
unfoldable pub total_open : List SyncedRouting → (ℕ → String → Bool) → ℕ
total_open [] excluded = 0
total_open (r ∷ rs) excluded = count_open r.members (excluded r.id) + total_open rs excluded

total_open-le :
    (rs : List SyncedRouting) (excluded : ℕ → String → Bool)
    → total_open rs excluded ≤ count_members rs
unfolding total_open count_members
total_open-le [] excluded = omega arith
total_open-le (r ∷ rs) excluded =
    omega (arith, total_open-le rs excluded, count_open-le-length r.members (excluded r.id))

module _ (e f : ℕ → String → Bool)
    (grows : (i : ℕ) (ref : String) → e i ref ≡ true → f i ref ≡ true) where
  total_open_mono : (rs : List SyncedRouting) → total_open rs f ≤ total_open rs e
  unfolding total_open
  total_open_mono [] = omega arith
  total_open_mono (r ∷ rs) =
      omega (arith, total_open_mono rs, count_open_mono (e r.id) (f r.id) (grows r.id) r.members)

  total_open_lt :
      (rs : List SyncedRouting) (r : SyncedRouting)
      → IsIn r rs
      → count_open r.members (f r.id) < count_open r.members (e r.id)
      → total_open rs f < total_open rs e
  unfolding total_open
  total_open_lt [] r i h = elim i [ ]
  total_open_lt (q ∷ rs) r (inl same) h = omega (
    arith,
    total_open_mono rs,
    subst (λ (s : SyncedRouting). count_open s.members (f s.id) < count_open s.members (e s.id))
        same h,
  )
  total_open_lt (q ∷ rs) r (inr i) h =
      omega
        (arith, total_open_lt rs r i h, count_open_mono (e q.id) (f q.id) (grows q.id) q.members)

module _ (rand : Random) (store : RoutingStore) (user_id : ℕ) (model : String)
    (all : List SyncedRouting)
    (listed : (top_level : Bool) (name : String) (r : SyncedRouting)
      → lookup_routing rand store user_id top_level name ≡ some r
      → IsIn r all) where
  abbrev Ctx : Type 0
  Ctx = ResolveCtx rand

  abbrev open_of : Ctx → ℕ
  open_of c = total_open all c.excluded

  -- The result `last` is a member of the deepest routing of the chain, still open there.
  record Marks (c : Ctx) (last : String) : Type 0 where
    deepest : SyncedRouting
    outer : List ℕ
    in_store : IsIn deepest all
    chain : c.last_chain ≡ deepest.id ∷ outer
    member : RoutingMember
    in_members : IsIn member deepest.members
    named : member.ref ≡ last
    still_open : c.excluded deepest.id last ≡ false

  -- What bounds the rounds that are left: those of a result that was reached through a routing,
  -- and one more for the model's own name.
  abbrev Live : Ctx → String → ℕ → Type 0
  Live c last fuel =
      (Marks c last × (2 * open_of c < fuel)) ⊎ ((last ≡ model) × (2 * open_of c + 1 < fuel))

  -- A name of the chain is not empty, and ends the expansion at one of the two levels.
  abbrev pub IsRealModel : String → Type 0
  IsRealModel name =
      (str_eq name "" ≡ false)
      × (IsLeaf rand store user_id true name ⊎ IsLeaf rand store user_id false name)

  mark_le : (c : Ctx) (last : String) → open_of (mark_member_exhausted rand last c) ≤ open_of c
  mark_le c last = total_open_mono _ _ (mark_member_exhausted_keeps rand last c).2 all

  mark_lt :
      (c : Ctx) (last : String)
      → Marks c last
      → open_of (mark_member_exhausted rand last c) < open_of c
  mark_lt c last m = total_open_lt _ _ keeps all m.deepest m.in_store (
      count_open_lt _ _ (keeps m.deepest.id) m.deepest.members m.member m.in_members
        (ap (c.excluded m.deepest.id) m.named ∙ m.still_open)
        (ap ((mark_member_exhausted rand last c).excluded m.deepest.id) m.named
          ∙ mark_member_exhausted_first rand last c m.deepest.id m.outer m.chain))
    where
      keeps :
          (i : ℕ) (ref : String)
          → c.excluded i ref ≡ true
          → (mark_member_exhausted rand last c).excluded i ref ≡ true
      keeps = (mark_member_exhausted_keeps rand last c).2

  -- The context of the next resolution.
  abbrev next_ctx : Ctx → String → Ctx
  next_ctx c last = record (mark_member_exhausted rand last c) { last_chain = [] }

  Marks-of_Through :
      (c c' : Ctx) (next : String)
      → c.last_chain ≡ []
      → Through rand store user_id c next c'
      → Marks c' next
  Marks-of_Through c c' next e t = record {
    deepest = t.deepest;
    outer = t.outer;
    in_store = let (top_level, name, found) = t.known in listed top_level name t.deepest found;
    chain = t.chain ∙ ap (λ l. l ++ t.deepest.id ∷ t.outer) e;
    member = t.member;
    in_members = t.listed;
    named = t.named;
    still_open = t.still_open;
  }

  -- A round that goes on has a real model, and fewer rounds left.
  advance :
      (fuel : ℕ) (c c' : Ctx) (last next : String)
      → Live c last (suc fuel)
      → str_eq next "" ≡ false
      → str_eq next last ≡ false
      → Keeps rand store user_id (next_ctx c last) c'
      → StepEnding rand store user_id true model (next_ctx c last) next c'
      → Live c' next fuel × IsRealModel next
  advance fuel c c' last next live full other keeps (inl f) =
      absurd (ground (arith, eq_iff next "", f.empty))
  advance fuel c c' last next (inl (m, b)) full other keeps (inr (inl d)) =
      (inr (d.same, omega (arith, mark_lt c last m, fewer)), (full, inl d.is_leaf))
    where
      fewer : open_of c' ≤ open_of (mark_member_exhausted rand last c)
      fewer = total_open_mono _ _ keeps.grows all
  advance fuel c c' last next (inr (own, b)) full other keeps (inr (inl d)) =
      absurd (ground (arith, eq_iff next last, own, d.same))
  advance fuel c c' last next live full other keeps (inr (inr t)) =
      (inl (Marks-of_Through (next_ctx c last) c' next refl t, bound live), (full, inr t.is_leaf))
    where
      fewer : open_of c' ≤ open_of (mark_member_exhausted rand last c)
      fewer = total_open_mono _ _ keeps.grows all

      bound : Live c last (suc fuel) → 2 * open_of c' < fuel
      bound (inl (m, b)) = omega (arith, mark_lt c last m, fewer)
      bound (inr (own, b)) = omega (arith, mark_le c last, fewer)

  extend_chain_lem :
      (fuel : ℕ) (models : List String) (last : String) (c : Ctx)
      → c.depth ≡ 0
      → All IsRealModel models
      → Live c last fuel
      → (models' : List String) × (c' : Ctx) × (extend_chain rand store user_id model fuel models
            last c
          ≡ some (models', c'))
        × All IsRealModel models'
  unfolding extend_chain resolve_to_real_model
  extend_chain_lem zero models last c z ok (inl (m, b)) = absurd (omega arith)
  extend_chain_lem zero models last c z ok (inr (own, b)) = absurd (omega arith)
  extend_chain_lem (suc fuel) models last c z ok live =
      let depth : (next_ctx c last).depth ≡ 0 = (mark_member_exhausted_keeps rand last c).0 ∙ z in
      let (next, c', ran, keeps, ending) =
        resolve_step_lem rand store user_id 6 true model (next_ctx c last) (omega (arith, depth))
          (omega (arith, depth)) in
      rw (ran, extend_chain)
        (elim (Bool-cases (str_eq next "" || str_eq next last)) [
          | inl e ↦ rw e (models, c', refl, ok)
          | inr e ↦
              let (live', real) =
                advance fuel c c' last next live (ground arith) (ground arith) keeps ending in
              rw e (
                extend_chain_lem fuel (models ++ next ∷ []) next c' (keeps.depth_kept ∙ depth)
                  (All-concat IsRealModel models (next ∷ []) ok (real, tt)) live')
        ])

  first-Live :
      (fuel : ℕ) (c c' : Ctx) (first : String)
      → 2 * count_members all + 1 < fuel
      → c.last_chain ≡ []
      → str_eq first "" ≡ false
      → StepEnding rand store user_id true model c first c'
      → Live c' first fuel × IsRealModel first
  first-Live fuel c c' first b e full (inl f) = absurd (ground (arith, eq_iff first "", f.empty))
  first-Live fuel c c' first b e full (inr (inl d)) =
      (inr (d.same, omega (arith, total_open-le all c'.excluded)), (full, inl d.is_leaf))
  first-Live fuel c c' first b e full (inr (inr t)) = (
    inl (Marks-of_Through c c' first e t, omega (arith, total_open-le all c'.excluded)),
    (full, inr t.is_leaf),
  )

  -- Where the store's routings are all among `all`, twice their members and two more rounds are
  -- enough: the chain is returned, and every name in it is a real model: it is not empty, and the
  -- level it was looked up at has no routing of that name, or a real model has the name.
  pub build_chain_returns :
      (fuel : ℕ) (seed : rand.Seed)
      → 2 * count_members all + 1 < fuel
      → (chain : ModelChain) × (seed' : rand.Seed) × (build_chain rand store user_id model fuel seed
          ≡ some (chain, seed'))
        × All IsRealModel chain.models
  unfolding build_chain resolve_to_real_model new_resolve_ctx
  build_chain_returns fuel seed b =
      let start : Ctx = new_resolve_ctx rand seed in
      let (first, c, ran, keeps, ending) =
        resolve_step_lem rand store user_id 6 true model start (omega arith) (omega arith) in
      rw ran (elim (Bool-cases (str_eq first "")) [
        | inl e ↦ rw e (_, _, refl, tt)
        | inr e ↦
            let (live, real) = first-Live fuel start c first b refl e ending in
            let (models, c', ran', ok) =
              extend_chain_lem fuel (first ∷ []) first c keeps.depth_kept (real, tt) live in
            rw (e, ran') (_, _, refl, ok)
      ])
