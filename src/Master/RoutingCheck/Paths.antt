-- ===== src/Master/RoutingCheck/Paths.antt =====
-- internal/dao/model_routing_validate.go: `dfsRouting` against the paths of the routing graph.
use vaala_ai_gateway.Prelude.{
  ℕ, zero, suc, ◌<◌, ◌≡◌, refl, ap, ◌∙◌, ◌↔◌, inl, inr, true, false, String, List, [], ◌∷◌, ◌++◌,
  some, arith, IsIn, All, All-IsIn, All-mono, Bool-cases, Option-cases, eq_iff,
}
use mathlib.Core.Path.{fun_ext}
use vaala_ai_gateway.Relay.Routing.{RoutingMember}
use vaala_ai_gateway.Master.RoutingCheck.{
  ModelRouting, NameProvider, Visited, Parse, Outcome, mark, unmark, and_then, check_member,
  check_members, dfs_routing,
}

module _ (parse : Parse) (np : NameProvider) where
  -- A path through routings that are not on it yet: `n` routings below a list of members, it has
  -- the names `v'` on it and ends in a routing of the members `ms'`.
  pub data Reaches : Visited → List RoutingMember → ℕ → Visited → List RoutingMember → Type 0 where
    here : {v : Visited} {ms : List RoutingMember} → Reaches v ms 0 v ms
    deeper :
        {v v' : Visited} {ms ms' : List RoutingMember} {n : ℕ} (m : RoutingMember)
        (r : ModelRouting)
        → IsIn m ms
        → v m.ref ≡ false
        → np.get_global_routing m.ref ≡ some r
        → Reaches (mark r.name v) (parse r.members).0 n v' ms'
        → Reaches v ms (suc n) v' ms'

  -- A member that closes a cycle is the name of a real model as well.
  abbrev pub EndsCycles : Visited → List RoutingMember → Type 0
  EndsCycles v ms = All (λ m. v m.ref ≡ true → np.has_model m.ref ≡ true) ms

  abbrev pub IsSound : ℕ → Visited → List RoutingMember → Type 0
  IsSound left v ms =
      (n : ℕ) (v' : Visited) (ms' : List RoutingMember)
      → Reaches v ms n v' ms'
      → (n < left) × EndsCycles v' ms'

  abbrev pub IsCoherent : Type 0
  IsCoherent =
      (name : String) (r : ModelRouting) → np.get_global_routing name ≡ some r → r.name ≡ name

  module _ (coherent : IsCoherent) where
    unmark-mark : (name : String) (v : Visited) → v name ≡ false → unmark name (mark name v) ≡ v
    unmark-mark name v h = fun_ext (λ n. ground (arith, eq_iff n name))

    abbrev pub Step : Type 0
    Step = List RoutingMember → Visited → List String → Outcome

    abbrev pub Restores : Step → Type 0
    Restores step =
        (ms : List RoutingMember) (v : Visited) (path : List String) (v2 : Visited)
        → step ms v path ≡ inr v2
        → v2 ≡ v

    -- A member that passed.
    record Passed (step : Step) (m : RoutingMember) (v : Visited) : Type 0 where
      ends : v m.ref ≡ true → np.has_model m.ref ≡ true
      below :
          (r : ModelRouting)
          → v m.ref ≡ false
          → np.get_global_routing m.ref ≡ some r
          → (path : List String) × (v3 : Visited) × (step (parse r.members).0 (mark r.name v) path
              ≡ inr v3)

    and_then-inr :
        (f : Visited → Outcome) (o : Outcome) (v2 : Visited)
        → and_then f o ≡ inr v2
        → (v3 : Visited) × (o ≡ inr v3) × (f v3 ≡ inr v2)
    and_then-inr f (inl e) v2 h = absurd (cc)
    and_then-inr f (inr v) v2 h = (v, refl, h)

    check_member_lem :
        (step : Step) (m : RoutingMember) (v : Visited) (path : List String) (v2 : Visited)
        → Restores step
        → check_member parse np step m v path ≡ inr v2
        → (v2 ≡ v) × Passed step m v
    unfolding check_member
    check_member_lem step m v path v2 restores h = elim (Bool-cases (v m.ref)) [
      | inl on ↦ elim (Bool-cases (np.has_model m.ref)) [
        | inl real ↦
            let h' = rw (on, real) at h in
            (cc, record { ends = λ e. real; below = λ r off found. absurd (cc) })
        | inr unreal ↦ let h' = rw (on, unreal) at h in absurd (cc)
      ]
      | inr off ↦ elim (Option-cases (np.get_global_routing m.ref)) [
        | inl leaf ↦
            let h' = rw (off, leaf) at h in
            (cc, record { ends = λ e. absurd (cc); below = λ r _ found. absurd (cc) })
        | inr (r, found) ↦
            let h' = rw (off, found) at h in
            let (v3, ran, left) = and_then-inr _ _ v2 h' in
            let back = restores _ _ _ v3 ran in
            let fresh : v r.name ≡ false = rw (coherent m.ref r found) off in
            let now : v2 ≡ unmark r.name v3 = cc in
            (
              now ∙ ap (unmark r.name) back ∙ unmark-mark r.name v fresh,
              record {
                ends = λ e. absurd (cc);
                below = λ r' _ found'. let same : r' ≡ r = cc in rw same (_, v3, ran);
              },
            )
      ]
    ]

    check_members_lem :
        (step : Step) (ms : List RoutingMember) (v : Visited) (path : List String) (v2 : Visited)
        → Restores step
        → check_members parse np step ms v path ≡ inr v2
        → (v2 ≡ v) × All (λ m. Passed step m v) ms
    unfolding check_members
    check_members_lem step [] v path v2 restores h = (cc, tt)
    check_members_lem step (m ∷ ms) v path v2 restores h =
        let (v3, ran, more) = and_then-inr _ _ v2 h in
        let (back, passed) = check_member_lem step m v path v3 restores ran in
        let (back', rest) = check_members_lem step ms v path v2 restores (rw back at more) in
        (back', (passed, rest))

    pub dfs_routing-Restores : (left : ℕ) → Restores (dfs_routing parse np left)
    unfolding dfs_routing
    dfs_routing-Restores zero ms v path v2 h = absurd (cc)
    dfs_routing-Restores (suc left) ms v path v2 h =
        (check_members_lem _ ms v path v2 (dfs_routing-Restores left) h).0

    -- What an accepted search says of each path.
    sound :
        (left : ℕ) (ms : List RoutingMember) (v : Visited) (path : List String) (v2 : Visited)
        → dfs_routing parse np left ms v path ≡ inr v2
        → IsSound left v ms
    unfolding dfs_routing
    sound zero ms v path v2 h n v' ms' p = absurd (cc)
    sound (suc left) ms v path v2 h zero v' ms' here =
        let (back, passed) = check_members_lem _ ms v path v2 (dfs_routing-Restores left) h in
        (omega arith, All-mono _ _ ms (λ m p. p.ends) passed)
    sound (suc left) ms v path v2 h (suc n) v' ms' (deeper m r listed off found p) =
        let (back, passed) = check_members_lem _ ms v path v2 (dfs_routing-Restores left) h in
        let (path', v3, ran) = (All-IsIn _ ms passed m listed).below r off found in
        let (bound, ends) = sound left _ _ path' v3 ran n v' ms' p in (omega (arith, bound), ends)

    complete_member :
        (step : Step) (m : RoutingMember) (v : Visited) (path : List String)
        → (v m.ref ≡ true → np.has_model m.ref ≡ true)
        → ((r : ModelRouting)
            → v m.ref ≡ false
            → np.get_global_routing m.ref ≡ some r
            → (path' : List String)
            → step (parse r.members).0 (mark r.name v) path' ≡ inr (mark r.name v))
        → check_member parse np step m v path ≡ inr v
    unfolding check_member
    complete_member step m v path ends below = elim (Bool-cases (v m.ref)) [
      | inl on ↦ rw (on, ends on) refl
      | inr off ↦ elim (Option-cases (np.get_global_routing m.ref)) [
        | inl leaf ↦ rw (off, leaf) refl
        | inr (r, found) ↦
            let fresh : v r.name ≡ false = rw (coherent m.ref r found) off in
            rw (off, found, below r off found (path ++ r.name ∷ []))
              (ap (λ w. inr w) (unmark-mark r.name v fresh))
      ]
    ]

    complete_members :
        (step : Step) (ms : List RoutingMember) (v : Visited) (path : List String)
        → ((m : RoutingMember) → IsIn m ms → check_member parse np step m v path ≡ inr v)
        → check_members parse np step ms v path ≡ inr v
    unfolding check_members
    complete_members step [] v path h = refl
    complete_members step (m ∷ ms) v path h =
        rw (h m (inl refl)) (complete_members step ms v path (λ m' i. h m' (inr i)))

    complete :
        (left : ℕ) (ms : List RoutingMember) (v : Visited) (path : List String)
        → IsSound left v ms
        → dfs_routing parse np left ms v path ≡ inr v
    unfolding dfs_routing
    complete zero ms v path h = absurd (omega (arith, (h zero v ms here).0))
    complete (suc left) ms v path h =
        complete_members (dfs_routing parse np left) ms v path (λ m listed.
          complete_member (dfs_routing parse np left) m v path
            (λ on. All-IsIn _ ms (h zero v ms here).1 m listed on)
            (λ r off found path'. complete left _ _ path' (λ n v' ms' p.
              let (bound, ends) = h (suc n) v' ms' (deeper m r listed off found p) in
              (omega (arith, bound), ends))))

    -- The search accepts, and then leaves `visited` as it was, exactly if every path below the
    -- members has fewer routings than the levels that are left, and each member of its last routing
    -- that is a name on the path is also a real model, where a routing is stored under its name.
    pub dfs_routing_iff :
        (left : ℕ) (ms : List RoutingMember) (v : Visited) (path : List String)
        → (dfs_routing parse np left ms v path ≡ inr v) ↔ IsSound left v ms
    dfs_routing_iff left ms v path = (sound left ms v path v, complete left ms v path)
