-- ===== src/Relay/Routing/Resolve.antt =====
-- internal/agent/relay/pipeline/plan/routing.go: `resolveStep` ends within the depth limit, puts
-- the context back, and returns a real model.
use vaala_ai_gateway.Prelude.{
  ℕ, zero, suc, ◌+◌, ◌≤◌, ◌<◌, ◌≡◌, refl, sym, ap, ◌∙◌, ◌⊎◌, inl, inr, Bool, true, false, String,
  str_eq, List, [], ◌∷◌, ◌++◌, Option, none, some, arith, leb, length, IsIn, Bool-cases, eq_iff,
  ==_iff,
}
use mathlib.Core.List.{append_assoc}
use vaala_ai_gateway.Relay.Random.{Random}
use vaala_ai_gateway.Relay.Routing.{
  RoutingMember, SyncedRouting, RoutingStore, ResolveCtx, routing_max_depth, exclude, enter, leave,
  revisit, try_members, lookup_routing, expand, leave_with, push_trace, resolve_step,
  select_routing_member,
}
use vaala_ai_gateway.Relay.Routing.Select.{IsTopChoice, select_routing_member_lem}
use vaala_ai_gateway.Relay.Routing.Open.{count_open, count_open_lt, count_open-le-length}

module _ (rand : Random) (store : RoutingStore) (user_id : ℕ) where
  abbrev Ctx : Type 0
  Ctx = ResolveCtx rand

  -- A name at which the expansion ends: no routing of the level has it, or a real model has.
  abbrev pub IsLeaf : Bool → String → Type 0
  IsLeaf top_level ref =
      (lookup_routing rand store user_id top_level ref ≡ none) ⊎ (store.has_real_model ref ≡ true)

  -- What a call keeps: the depth, the routings on the path, and every exclusion.
  pub record Keeps (c c' : Ctx) : Type 0 where
    pub depth_kept : c'.depth ≡ c.depth
    pub visited_kept : (i : ℕ) → c'.visited i ≡ c.visited i
    pub grows : (i : ℕ) (ref : String) → c.excluded i ref ≡ true → c'.excluded i ref ≡ true

  pub record Failed (c : Ctx) (result : String) (c' : Ctx) : Type 0 where
    pub empty : result ≡ ""
    pub chain_kept : c'.last_chain ≡ c.last_chain

  -- The name itself is the result.
  pub record Direct (top_level : Bool) (ref : String) (c : Ctx) (result : String) (c' : Ctx)
      : Type 0 where
    pub same : result ≡ ref
    pub is_leaf : IsLeaf top_level result
    pub chain_kept : c'.last_chain ≡ c.last_chain
    pub excluded_kept : (i : ℕ) (r : String) → c'.excluded i r ≡ c.excluded i r

  -- The result is a member of the deepest routing of the chain, which is still open there.
  pub record Through (c : Ctx) (result : String) (c' : Ctx) : Type 0 where
    pub deepest : SyncedRouting
    pub outer : List ℕ
    pub known :
        (top_level : Bool) × (name : String) × (lookup_routing rand store user_id top_level name
          ≡ some deepest)
    pub chain : c'.last_chain ≡ c.last_chain ++ deepest.id ∷ outer
    pub member : RoutingMember
    pub listed : IsIn member deepest.members
    pub named : member.ref ≡ result
    pub still_open : c'.excluded deepest.id result ≡ false
    pub nonempty : str_eq result "" ≡ false
    pub is_leaf : IsLeaf false result

  -- The call returns, and what it returns.
  abbrev pub Returns : (Ctx → String → Ctx → Type 0) → Ctx → Option (String × Ctx) → Type 0
  Returns Ending c o =
      (result : String) × (c' : Ctx) × (o ≡ some (result, c')) × Keeps c c' × Ending c result c'

  abbrev pub StepEnding : Bool → String → Ctx → String → Ctx → Type 0
  StepEnding top_level ref c result c' =
      Failed c result c' ⊎ (Direct top_level ref c result c' ⊎ Through c result c')

  abbrev LoopEnding : Ctx → String → Ctx → Type 0
  LoopEnding c result c' = Failed c result c' ⊎ Through c result c'

  Keeps-trans : (a b c : Ctx) → Keeps a b → Keeps b c → Keeps a c
  Keeps-trans a b c h k = record {
    depth_kept = k.depth_kept ∙ h.depth_kept;
    visited_kept = λ i. k.visited_kept i ∙ h.visited_kept i;
    grows = λ i ref e. k.grows i ref (h.grows i ref e);
  }

  Keeps-exclude : (a b : Ctx) (id : ℕ) (ref : String) → Keeps a b → Keeps a (exclude rand id ref b)
  unfolding exclude
  Keeps-exclude a b id ref h = record {
    depth_kept = h.depth_kept;
    visited_kept = h.visited_kept;
    grows = λ i r e. ground (arith, h.grows i r e);
  }

  -- An ending moves along a context with the same chain.
  LoopEnding-from :
      (a b : Ctx) (result : String) (c : Ctx)
      → b.last_chain ≡ a.last_chain
      → LoopEnding b result c
      → LoopEnding a result c
  LoopEnding-from a b result c e (inl f) =
      inl (record { empty = f.empty; chain_kept = f.chain_kept ∙ e })
  LoopEnding-from a b result c e (inr t) = inr (record {
    deepest = t.deepest;
    outer = t.outer;
    known = t.known;
    chain = t.chain ∙ ap (λ l. l ++ t.deepest.id ∷ t.outer) e;
    member = t.member;
    listed = t.listed;
    named = t.named;
    still_open = t.still_open;
    nonempty = t.nonempty;
    is_leaf = t.is_leaf;
  })

  module _ (step : String → Ctx → Option (String × Ctx)) (r : SyncedRouting) (k : ℕ)
      (known : (top_level : Bool) × (name : String) × (lookup_routing rand store user_id top_level
            name
          ≡ some r))
      (step_lem : (ref : String) (c : Ctx)
        → c.depth ≡ k
        → Returns (StepEnding false ref) c (step ref c)) where
    -- The member that is tried is open, so excluding it leaves fewer open ones.
    open_falls :
        (c c' : Ctx) (p : RoutingMember)
        → IsTopChoice r.members (c.excluded r.id) p
        → Keeps c c'
        → count_open r.members ((exclude rand r.id p.ref c').excluded r.id)
          < count_open r.members (c.excluded r.id)
    unfolding exclude
    open_falls c c' p top h =
        count_open_lt _ _ (λ ref e. ground (arith, h.grows r.id ref e)) r.members p top.listed
          top.open_ref (ground (arith, eq_iff p.ref p.ref))

    -- A result that is not empty goes out with the routing at the end of the chain.
    Through-settle :
        (c c' : Ctx) (p : RoutingMember) (result : String)
        → IsTopChoice r.members (c.excluded r.id) p
        → str_eq result "" ≡ false
        → StepEnding false p.ref c result c'
        → Through c result (record c' { last_chain = c'.last_chain ++ r.id ∷ [] })
    Through-settle c c' p result top full (inl f) = absurd (ground (arith, eq_iff result ""))
    Through-settle c c' p result top full (inr (inl d)) = record {
      deepest = r;
      outer = [];
      known = known;
      chain = ap (λ l. l ++ r.id ∷ []) d.chain_kept;
      member = p;
      listed = top.listed;
      named = sym d.same;
      still_open = d.excluded_kept r.id result ∙ ap (c.excluded r.id) d.same ∙ top.open_ref;
      nonempty = full;
      is_leaf = d.is_leaf;
    }
    Through-settle c c' p result top full (inr (inr t)) = record {
      deepest = t.deepest;
      outer = t.outer ++ r.id ∷ [];
      known = t.known;
      chain =
          ap (λ l. l ++ r.id ∷ []) t.chain
          ∙ append_assoc c.last_chain (t.deepest.id ∷ t.outer) (r.id ∷ []);
      member = t.member;
      listed = t.listed;
      named = t.named;
      still_open = t.still_open;
      nonempty = full;
      is_leaf = t.is_leaf;
    }

    -- A step with an empty result has left the chain alone.
    chain_kept_of_empty :
        (c c' : Ctx) (ref result : String)
        → str_eq result "" ≡ true
        → StepEnding false ref c result c'
        → (exclude rand r.id ref c').last_chain ≡ c.last_chain
    unfolding exclude
    chain_kept_of_empty c c' ref result e (inl f) = f.chain_kept
    chain_kept_of_empty c c' ref result e (inr (inl d)) = d.chain_kept
    chain_kept_of_empty c c' ref result e (inr (inr t)) = absurd (ground (arith, t.nonempty))

    try_members_lem :
        (fuel : ℕ) (c : Ctx)
        → c.depth ≡ k
        → count_open r.members (c.excluded r.id) < fuel
        → Returns LoopEnding c (try_members rand step r fuel c)
    unfolding try_members
    try_members_lem zero c e h = absurd (omega arith)
    try_members_lem (suc fuel) c e h =
        elim (select_routing_member_lem rand r.members (c.excluded r.id) c.seed) [
          | inl (_, sel) ↦
              rw (ap (λ (d : String × rand.Seed). d.0) sel) ("", from, refl, kept, failed)
          | inr (p, top, sel) ↦ rw sel (elim (Bool-cases (str_eq p.ref "")) [
            | inl none_left ↦ rw none_left ("", from, refl, kept, failed)
            | inr more ↦
                let (result, c', ran, keeps, ending) = step_lem p.ref from e in
                rw (more, ran)
                  (elim (Bool-cases (str_eq result "")) [
                    | inl bad ↦
                        let next = exclude rand r.id p.ref c' in
                        let keeps' =
                          Keeps-trans c from next kept (Keeps-exclude from c' r.id p.ref keeps) in
                        let (result', last, ran', keeps'', ending') =
                          try_members_lem fuel next (keeps'.depth_kept ∙ e)
                            (omega (arith, open_falls from c' p top keeps)) in
                        rw bad (
                          result',
                          last,
                          ran',
                          Keeps-trans c next last keeps' keeps'',
                          LoopEnding-from c next result' last
                              (chain_kept_of_empty from c' p.ref result bad ending) ending',
                        )
                    | inr good ↦ rw good (
                      result,
                      record c' { last_chain = c'.last_chain ++ r.id ∷ [] },
                      refl,
                      record {
                        depth_kept = keeps.depth_kept;
                        visited_kept = keeps.visited_kept;
                        grows = keeps.grows;
                      },
                      LoopEnding-from c from result _ refl
                          (inr (Through-settle from c' p result top good ending)),
                    )
                  ])
          ])
        ]
      where
        from : Ctx
        from = record c { seed = (select_routing_member rand r.members (c.excluded r.id) c.seed).1 }

        kept : Keeps c from
        kept = record { depth_kept = refl; visited_kept = λ i. refl; grows = λ i ref h. h }

        failed : LoopEnding c "" from
        failed = inl (record { empty = refl; chain_kept = refl })

  Keeps-leave :
      (c c' : Ctx) (r : SyncedRouting)
      → c.visited r.id ≡ false
      → Keeps (enter rand r c) c'
      → Keeps c (leave rand r c')
  unfolding enter leave
  Keeps-leave c c' r fresh h = record {
    depth_kept = omega (arith, h.depth_kept);
    visited_kept = λ i. ground (arith, h.visited_kept i, ==_iff i r.id);
    grows = h.grows;
  }

  LoopEnding-leave :
      (c c' : Ctx) (r : SyncedRouting) (result : String)
      → LoopEnding (enter rand r c) result c'
      → LoopEnding c result (leave rand r c')
  unfolding enter leave
  LoopEnding-leave c c' r result (inl f) =
      inl (record { empty = f.empty; chain_kept = f.chain_kept })
  LoopEnding-leave c c' r result (inr t) = inr (record {
    deepest = t.deepest;
    outer = t.outer;
    known = t.known;
    chain = t.chain;
    member = t.member;
    listed = t.listed;
    named = t.named;
    still_open = t.still_open;
    nonempty = t.nonempty;
    is_leaf = t.is_leaf;
  })

  Keeps-trace : (c : Ctx) (t : String) → Keeps c (push_trace rand t c)
  Keeps-trace c t = record { depth_kept = refl; visited_kept = λ i. refl; grows = λ i ref h. h }

  revisit_lem :
      (top_level : Bool) (ref : String) (c : Ctx)
      → Keeps c (revisit rand store user_id ref c).1
        × StepEnding top_level ref c
            (revisit rand store user_id ref c).0
            (revisit rand store user_id ref c).1
  unfolding revisit
  revisit_lem top_level ref c = elim (Bool-cases (store.has_real_model ref)) [
    | inl e ↦ rw e (
      Keeps-trace c _,
      inr (
          inl (record {
            same = refl;
            is_leaf = inr e;
            chain_kept = refl;
            excluded_kept = λ i r. refl;
          })),
    )
    | inr e ↦ rw e (Keeps-trace c _, inl (record { empty = refl; chain_kept = refl }))
  ]

  module _ (step : String → Ctx → Option (String × Ctx)) (top_level : Bool) (ref : String) (c : Ctx)
      (step_lem : (ref : String) (c' : Ctx)
        → c'.depth ≡ c.depth + 1
        → Returns (StepEnding false ref) c' (step ref c')) where
    enter_lem :
        (r : SyncedRouting)
        → lookup_routing rand store user_id top_level ref ≡ some r
        → c.visited r.id ≡ false
        → Returns (StepEnding top_level ref) c (
            leave_with rand store user_id r
              (try_members rand step r (length r.members + 1) (enter rand r c)))
    enter_lem r found fresh =
        let (result, c', ran, keeps, ending) =
          try_members_lem step r (c.depth + 1) (top_level, ref, found) step_lem
            (length r.members + 1) (enter rand r c) (unfold enter in refl)
            (omega (arith, count_open-le-length r.members ((enter rand r c).excluded r.id))) in
        rw ran (
          result,
          leave rand r c',
          refl,
          Keeps-leave c c' r fresh keeps,
          widen (LoopEnding-leave c c' r result ending),
        )
      where
        widen :
            {result : String} {c' : Ctx}
            → LoopEnding c result c'
            → StepEnding top_level ref c result c'
        widen (inl f) = inl f
        widen (inr t) = inr (inr t)

    expand_lem :
        (o : Option SyncedRouting)
        → lookup_routing rand store user_id top_level ref ≡ o
        → Returns (StepEnding top_level ref) c (expand rand store user_id step ref o c)
    unfolding expand
    expand_lem none found = (
      ref,
      c,
      refl,
      record { depth_kept = refl; visited_kept = λ i. refl; grows = λ i ref h. h },
      inr (
          inl (record {
            same = refl;
            is_leaf = inl found;
            chain_kept = refl;
            excluded_kept = λ i r. refl;
          })),
    )
    expand_lem (some r) found = elim (Bool-cases (c.visited r.id)) [
      | inl e ↦
          let (keeps, ending) = revisit_lem top_level ref c in rw e (_, _, refl, keeps, ending)
      | inr e ↦ rw e (enter_lem r found e)
    ]

  -- With fuel for the depth that is left a step returns: it puts back the depth and the visited
  -- routings, forgets no exclusion, and ends without a result, at the name itself, or at a member.
  pub resolve_step_lem :
      (d : ℕ) (top_level : Bool) (ref : String) (c : Ctx)
      → c.depth ≤ routing_max_depth
      → routing_max_depth < d + c.depth
      → Returns (StepEnding top_level ref) c (resolve_step rand store user_id d top_level ref c)
  unfolding resolve_step
  resolve_step_lem zero top_level ref c b h = absurd (omega arith)
  resolve_step_lem (suc d) top_level ref c b h = elim (Bool-cases (leb routing_max_depth c.depth)) [
    | inl e ↦ rw e ("", _, refl, Keeps-trace c _, inl (record { empty = refl; chain_kept = refl }))
    | inr e ↦ rw e (
        expand_lem (resolve_step rand store user_id d false) top_level ref c
          (λ ref' c' k. resolve_step_lem d false ref' c' (ground (arith, k)) (omega (arith, k))) _
          refl)
  ]
