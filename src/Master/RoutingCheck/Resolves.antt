-- ===== src/Master/RoutingCheck/Resolves.antt =====
-- internal/dao/model_routing_validate.go and internal/agent/relay/pipeline/plan/routing.go: what a
-- routing that the validator accepted resolves to at the agent.
use vaala_ai_gateway.Prelude.{
  ℕ, zero, suc, ◌+◌, ◌≤◌, ◌<◌, ◌≡◌, refl, sym, ap, ◌∙◌, inl, inr, true, false, String, str_eq, List,
  [], ◌∷◌, Option, none, some, arith, leb, length, IsIn, All, All-IsIn, Bool-cases, Option-cases,
  eq_iff, ◌==◌, leb,
}
use native.Mathlib.Numerals.{add-one}
use vaala_ai_gateway.Relay.Random.{Random}
use vaala_ai_gateway.Relay.Routing.{
  RoutingMember, SyncedRouting, RoutingStore, ResolveCtx, enter, revisit, settle, try_members,
  expand, resolve_step, resolve_to_real_model, new_resolve_ctx, select_routing_member,
}
use vaala_ai_gateway.Relay.Routing.Select.{select_routing_member_lem}
use vaala_ai_gateway.Master.RoutingCheck.{ModelRouting, NameProvider, Parse, Visited, mark}
use vaala_ai_gateway.Master.RoutingCheck.Paths.{Reaches, IsSound, IsCoherent}

module _ (parse : Parse) (np : NameProvider) (rand : Random) (store : RoutingStore)
    (user_id : ℕ) where
  abbrev Ctx : Type 0
  Ctx = ResolveCtx rand

  abbrev pub HasRefs : List RoutingMember → Type 0
  HasRefs ms = (0 < length ms) × All (λ m. str_eq m.ref "" ≡ false) ms

  -- The agent's store holds the routings and models that the validator looked up.
  pub record IsSynced : Type 0 where
    pub absent :
        (name : String) → np.get_global_routing name ≡ none → store.get_global_routing name ≡ none
    pub present :
        (name : String) (r : ModelRouting)
        → np.get_global_routing name ≡ some r
        → (s : SyncedRouting) × (store.get_global_routing name ≡ some s)
          × (s.id ≡ r.id)
          × (s.members ≡ (parse r.members).0)
    pub models : (name : String) → store.has_real_model name ≡ np.has_model name
    pub ids :
        (n n' : String) (r r' : ModelRouting)
        → np.get_global_routing n ≡ some r
        → np.get_global_routing n' ≡ some r'
        → r.id ≡ r'.id
        → n ≡ n'
    pub stored_name : IsCoherent parse np
    pub has_refs :
        (name : String) (r : ModelRouting)
        → np.get_global_routing name ≡ some r
        → HasRefs (parse r.members).0

  -- The agent has the same routings on its path, by their ids.
  abbrev Tracks : Ctx → Visited → Type 0
  Tracks c v =
      (name : String) (r : ModelRouting)
      → np.get_global_routing name ≡ some r
      → c.visited r.id ≡ v name

  abbrev pub Resolves : Option (String × Ctx) → Type 0
  Resolves o = (result : String) × (c' : Ctx) × (o ≡ some (result, c')) × (str_eq result "" ≡ false)

  abbrev Fresh : Ctx → Type 0
  Fresh c = (i : ℕ) (ref : String) → c.excluded i ref ≡ false

  module _ (synced : IsSynced) where
    Tracks-enter :
        (c : Ctx) (v : Visited) (name : String) (r : ModelRouting) (s : SyncedRouting)
        → np.get_global_routing name ≡ some r
        → s.id ≡ r.id
        → Tracks c v
        → Tracks (enter rand s c) (mark r.name v)
    unfolding enter
    Tracks-enter c v name r s found same tracks n r' found' =
        let named = synced.stored_name name r found in
        let back = tracks n r' found' in
        elim (Bool-cases (r'.id == s.id)) [
          | inl e ↦
              let i : r'.id ≡ r.id = ground (arith) in
              let q = synced.ids n name r' r found' found i in ground (arith, eq_iff n r.name)
          | inr e ↦ elim (Bool-cases (str_eq n r.name)) [
            | inl e' ↦
                let q : n ≡ r.name = (eq_iff n r.name).0 e' in
                let k : r' ≡ r = (let f = rw (q, named) at found' in cc) in
                let i : r'.id ≡ s.id = ap (λ (x : ModelRouting). x.id) k ∙ sym same in
                absurd (ground (arith))
            | inr e' ↦ rw (e, e') back
          ]
        ]

    -- A try of the loop: the first choice has a result.
    try_members-Resolves :
        (step : String → Ctx → Option (String × Ctx)) (s : SyncedRouting) (fuel : ℕ) (c : Ctx)
        → Fresh c
        → HasRefs s.members
        → ((m : RoutingMember) (c' : Ctx)
            → IsIn m s.members
            → c'.depth ≡ c.depth
            → ((i : ℕ) → c'.visited i ≡ c.visited i)
            → Fresh c'
            → Resolves (step m.ref c'))
        → Resolves (try_members rand step s (suc fuel) c)
    unfolding try_members settle
    try_members-Resolves step s fuel c fresh refs step_lem =
        elim (select_routing_member_lem rand s.members (c.excluded s.id) c.seed) [
          | inl (all, sel) ↦ absurd (some_open s.members fresh refs.0 all)
          | inr (p, top, sel) ↦
              let (result, c', ran, full) =
                step_lem p
                  (record c {
                    seed = (select_routing_member rand s.members (c.excluded s.id) c.seed).1;
                  })
                  top.listed refl (λ i. refl) fresh in
              rw (sel, All-IsIn _ s.members refs.1 p top.listed, ran, full) (_, _, refl, full)
        ]
      where
        some_open :
            (ms : List RoutingMember)
            → Fresh c
            → 0 < length ms
            → ¬ All (λ n. c.excluded s.id n.ref ≡ true) ms
        some_open [] f h all = absurd (omega arith)
        some_open (m ∷ ms) f h all = absurd (let e = f s.id m.ref in let e' = all.0 in cc)

    revisit-Resolves :
        (ref : String) (c : Ctx)
        → store.has_real_model ref ≡ true
        → str_eq ref "" ≡ false
        → Resolves (some (revisit rand store user_id ref c))
    unfolding revisit
    revisit-Resolves ref c real full = rw real (_, _, refl, full)

    -- Entering a routing whose members are sound with the levels that are left.
    enter-Resolves :
        (step : String → Ctx → Option (String × Ctx)) (ref : String) (s : SyncedRouting) (c : Ctx)
        → c.visited s.id ≡ false
        → Fresh c
        → HasRefs s.members
        → ((m : RoutingMember) (c' : Ctx)
            → IsIn m s.members
            → c'.depth ≡ c.depth + 1
            → ((i : ℕ) → c'.visited i ≡ (enter rand s c).visited i)
            → Fresh c'
            → Resolves (step m.ref c'))
        → Resolves (expand rand store user_id step ref (some s) c)
    unfolding expand
    enter-Resolves step ref s c off fresh refs step_lem =
        let (result, c', ran, full) =
          try_members-Resolves step s (length s.members) (enter rand s c) (unfold enter in fresh)
            refs (λ m c' i d. step_lem m c' i (unfold enter in d)) in
        rw (off, add-one (length s.members), ran) (_, _, refl, full)

    member-Resolves :
        (left d : ℕ) (ms : List RoutingMember) (v : Visited) (m : RoutingMember) (c : Ctx)
        → IsSound parse np left v ms
        → All (λ m. str_eq m.ref "" ≡ false) ms
        → IsIn m ms
        → c.depth + left ≤ 5
        → left ≤ d
        → Tracks c v
        → Fresh c
        → Resolves (resolve_step rand store user_id d false m.ref c)
    unfolding resolve_step
    member-Resolves zero d ms v m c sound refs i b f tracks fresh =
        absurd (omega (arith, (sound zero v ms Reaches.here).0))
    member-Resolves (suc left) zero ms v m c sound refs i b f tracks fresh = absurd (omega arith)
    member-Resolves (suc left) (suc d) ms v m c sound refs i b f tracks fresh =
        let shallow : leb 5 c.depth ≡ false = ground arith in
        let full = All-IsIn _ ms refs m i in
        let step = resolve_step rand store user_id d false in
        rw shallow (elim (Option-cases (np.get_global_routing m.ref)) [
          | inl leaf ↦ rw (synced.absent m.ref leaf) (unfold expand in (_, _, refl, full))
          | inr (r, found) ↦
              let (s, found', same, members) = synced.present m.ref r found in
              let on_path = tracks m.ref r found in
              rw found' (elim (Bool-cases (v m.ref)) [
                | inl on ↦
                    rw (same, on_path ∙ on)
                      (revisit-Resolves m.ref c
                        (synced.models m.ref
                          ∙ All-IsIn _ ms (sound zero v ms Reaches.here).1 m i on)
                        full)
                | inr off ↦
                    enter-Resolves _ m.ref s c (rw same (on_path ∙ off)) fresh
                      (rw members (synced.has_refs m.ref r found))
                      (λ m' c' i' e vis fresh'.
                        member-Resolves left d (parse r.members).0 (mark r.name v) m' c'
                          (λ n v' ms' p.
                            let (bound, ends) =
                              sound (suc n) v' ms' (Reaches.deeper m r i off found p) in
                            (omega (arith, bound), ends))
                          (synced.has_refs m.ref r found).1 (rw members at i') (omega (arith, e))
                          (omega arith)
                          (λ n r' k.
                            vis r'.id ∙ Tracks-enter c v m.ref r s found same tracks n r' k)
                          fresh')
              ])
        ])

    -- At the agent a routing resolves to a name that is not empty, whatever the draws are, where no
    -- path below it enters more than three routings and each cycle ends at a real model, the
    -- agent's store holds what the validator looked up, and ids and names determine each other.
    pub resolve-of_sound :
        (r : ModelRouting) (s : SyncedRouting) (seed : rand.Seed)
        → np.get_global_routing r.name ≡ some r
        → store.resolve_routing r.name user_id ≡ some s
        → s.id ≡ r.id
        → s.members ≡ (parse r.members).0
        → IsSound parse np 4 (mark r.name (λ n. false)) (parse r.members).0
        → Resolves (resolve_to_real_model rand store user_id r.name (new_resolve_ctx rand seed))
    unfolding resolve_to_real_model resolve_step new_resolve_ctx
    resolve-of_sound r s seed found top same members sound = rw top (
        enter-Resolves _ r.name s start refl (λ i ref. refl) (rw members refs)
          (λ m c i d vis fresh.
            member-Resolves 4 5 (parse r.members).0 (mark r.name (λ n. false)) m c sound refs.1
              (rw members at i) (omega (arith, d)) (omega arith)
              (λ n r' k.
                vis r'.id
                ∙ Tracks-enter start (λ n. false) r.name r s found same (λ _ _ _. refl) n r' k)
              fresh))
      where
        start : Ctx
        start = new_resolve_ctx rand seed

        refs : HasRefs (parse r.members).0
        refs = synced.has_refs r.name r found
