-- ===== src/Relay/Routing/Select.antt =====
-- internal/agent/relay/pipeline/plan/routing.go: which member `selectRoutingMember` picks.
use vaala_ai_gateway.Prelude.{
  ℕ, ◌+◌, ◌-◌, ◌<◌, ◌≡◌, refl, subst, ◌⊎◌, inl, inr, ℤ, ltb_ℤ, eq_ℤ, Bool, true, false, not, String,
  List, [], ◌∷◌, ◌++◌, arith, filter, IsIn, All, All-of_IsIn, All-IsIn, IsIn-filter, IsIn-filter_of,
  Bool-cases, sym, ltb,
}
use vaala_ai_gateway.Prelude.Sort.{
  slice_stable, IsOrdered, slice_stable-IsOrdered, IsIn-slice_stable, IsIn_of_slice_stable,
}
use vaala_ai_gateway.Relay.Random.{Random}
use vaala_ai_gateway.Relay.Routing.{
  RoutingMember, weight_of, total_weight, pick_ref, leading, higher, weighted_random_member,
  pick_top, select_routing_member,
}

-- Of the `total_weight` draws each member gets as many as its weight (1 for a weight below 1), in
-- the order of the group.
pub pick_ref_share :
    (before : List RoutingMember) (m : RoutingMember) (after : List RoutingMember) (k : ℕ)
    (last : String)
    → k < weight_of m
    → pick_ref (total_weight before + k) last (before ++ m ∷ after) ≡ m.ref
unfolding pick_ref total_weight
pick_ref_share [] m after k last h = ground arith
pick_ref_share (b ∷ before) m after k last h = ground (arith, pick_ref_share before m after k b.ref)

IsIn-pick_ref :
    (r : ℕ) (last : String) (m : RoutingMember) (ms : List RoutingMember)
    → (p : RoutingMember) × IsIn p (m ∷ ms) × (p.ref ≡ pick_ref r last (m ∷ ms))
unfolding pick_ref
IsIn-pick_ref r last m [] = (m, inl refl, ground arith)
IsIn-pick_ref r last m (n ∷ ns) = elim (Bool-cases (ltb r (weight_of m))) [
  | inl e ↦ (m, inl refl, rw e)
  | inr e ↦ let (p, i, q) = IsIn-pick_ref (r - weight_of m) m.ref n ns in (p, inr i, rw e q)
]

-- The leading members have the priority `top`.
IsIn-leading :
    (top : ℤ) (ms : List RoutingMember) (m : RoutingMember)
    → IsIn m (leading top ms)
    → IsIn m ms × (eq_ℤ m.priority top ≡ true)
unfolding leading
IsIn-leading top (n ∷ ns) m i = elim (Bool-cases (eq_ℤ n.priority top)) [
  | inl e ↦ elim (rw e at i) [
    | inl p ↦ (inl p, rw p e)
    | inr q ↦ let (j, t) = IsIn-leading top ns m q in (inr j, t)
  ]
  | inr e ↦ elim (rw e at i) [ ]
]
IsIn-leading top [] m i = elim i [ ]

-- The member `p` is listed, not excluded, and no member that is not excluded has a higher priority.
pub record IsTopChoice (members : List RoutingMember) (excluded : String → Bool) (p : RoutingMember)
    : Type 0 where
  pub listed : IsIn p members
  pub open_ref : excluded p.ref ≡ false
  pub highest : All (λ n. excluded n.ref ≡ false → ltb_ℤ p.priority n.priority ≡ false) members

higher_asym : (a b : RoutingMember) → higher a b ≡ true → higher b a ≡ false
higher_asym a b h = ground arith

higher_neg_trans :
    (a b c : RoutingMember) → higher a b ≡ false → higher b c ≡ false → higher a c ≡ false
higher_neg_trans a b c h k = ground arith

IsTopChoice-of_leading :
    (members : List RoutingMember) (excluded : String → Bool) (c : RoutingMember)
    (cs : List RoutingMember)
    → slice_stable higher (filter (λ m. not (excluded m.ref)) members) ≡ c ∷ cs
    → (p : RoutingMember) → IsIn p (leading c.priority (c ∷ cs))
    → IsTopChoice members excluded p
IsTopChoice-of_leading members excluded c cs e p i = record {
  listed = (IsIn-filter _ members in_cands).0;
  open_ref = ground (arith, (IsIn-filter _ members in_cands).1);
  highest = All-of_IsIn _ members λ n m free. below n (
      subst (λ l. IsIn n l) e
        (IsIn-slice_stable higher cands n (IsIn-filter_of _ members n m (ground arith))));
}
  where
    cands : List RoutingMember
    cands = filter (λ m. not (excluded m.ref)) members

    in_top : IsIn p (c ∷ cs) × (eq_ℤ p.priority c.priority ≡ true)
    in_top = IsIn-leading c.priority (c ∷ cs) p i

    in_cands : IsIn p cands
    in_cands = subst (λ l. IsIn p l → IsIn p cands) e (IsIn_of_slice_stable higher cands p) in_top.0

    top : All (λ y. higher y c ≡ false) cs
    top =
        (subst (IsOrdered higher) e (
          slice_stable-IsOrdered higher
            (record { asym = higher_asym; neg_trans = higher_neg_trans }) cands)).0

    below : (n : RoutingMember) → IsIn n (c ∷ cs) → ltb_ℤ p.priority n.priority ≡ false
    below n (inl q) = ground (arith, in_top.1)
    below n (inr q) = let h = All-IsIn _ cs top n q in ground (arith, in_top.1, h)

pick_top-leading :
    (rand : Random) (c : RoutingMember) (cs : List RoutingMember) (seed : rand.Seed)
    → (p : RoutingMember) × IsIn p (leading c.priority (c ∷ cs))
      × ((pick_top rand (c ∷ cs) seed).0 ≡ p.ref)
unfolding pick_top leading weighted_random_member
pick_top-leading rand c cs seed =
    let e : eq_ℤ c.priority c.priority ≡ true = ground arith in
    rw e (
      let draw = rand.intn (total_weight (c ∷ leading c.priority cs)) seed in
      let (p, i, q) = IsIn-pick_ref draw.0 "" c (leading c.priority cs) in (p, i, sym q))

-- With every member excluded there is no choice; else the draw picks a member that is not
-- excluded and of the highest priority among those that are not.
pub select_routing_member_lem :
    (rand : Random) (members : List RoutingMember) (excluded : String → Bool) (seed : rand.Seed)
    → (All (λ n. excluded n.ref ≡ true) members
        × (select_routing_member rand members excluded seed ≡ ("", seed)))
      ⊎ ((p : RoutingMember) × IsTopChoice members excluded p
          × ((select_routing_member rand members excluded seed).0 ≡ p.ref))
unfolding select_routing_member pick_top
select_routing_member_lem rand members excluded seed = go (slice_stable higher cands) refl
  where
    cands : List RoutingMember
    cands = filter (λ m. not (excluded m.ref)) members

    go :
        (l : List RoutingMember)
        → slice_stable higher cands ≡ l
        → (All (λ n. excluded n.ref ≡ true) members
            × (pick_top rand (slice_stable higher cands) seed ≡ ("", seed)))
          ⊎ ((p : RoutingMember) × IsTopChoice members excluded p
              × ((pick_top rand (slice_stable higher cands) seed).0 ≡ p.ref))
    go [] e = inl (
      All-of_IsIn _ members (λ n i. elim (Bool-cases (excluded n.ref)) [
        | inl t ↦ t
        | inr t ↦
            elim (subst (λ l. IsIn n l) e
              (IsIn-slice_stable higher cands n (IsIn-filter_of _ members n i (ground arith)))) [ ]
      ]),
      rw e,
    )
    go (c ∷ cs) e =
        let (p, i, q) = pick_top-leading rand c cs seed in
        inr (p, IsTopChoice-of_leading members excluded c cs e p i, rw e q)
