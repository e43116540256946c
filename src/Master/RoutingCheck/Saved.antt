-- ===== src/Master/RoutingCheck/Saved.antt =====
-- internal/dao/model_routing_validate.go: which routings may be saved, and which deleted.
use vaala_ai_gateway.Prelude.{
  ℕ, ◌+◌, ◌≤◌, ◌<◌, ◌≡◌, ◌≢◌, refl, ◌↔◌, ◌⊎◌, inl, inr, Bool, true, false, not, ◌&&◌, String,
  str_eq, List, [], ◌∷◌, Option, none, some, arith, IsIn, All, length, Bool-cases, Option-cases,
  eq_iff, if◌then◌else◌, ◌==◌,
}
use Prim.Native.String.{len, find}
use vaala_ai_gateway.Relay.Routing.{RoutingMember}
use vaala_ai_gateway.Master.RoutingCheck.{
  ModelRouting, NameProvider, Parse, Visited, Outcome, ValidateError, referenced_by, mark,
  dfs_routing, dfs_cycle_and_depth, check_refs, check_name, check_count, or_error, validate_routing,
  names, referrers, validate_delete,
}
use vaala_ai_gateway.Master.RoutingCheck.Paths.{
  IsSound, IsCoherent, dfs_routing_iff, dfs_routing-Restores,
}

module _ (parse : Parse) (np : NameProvider) where
  -- A member that names something.
  abbrev pub IsKnown : RoutingMember → Type 0
  IsKnown m =
      (str_eq m.ref "" ≡ false)
      × ((np.has_model m.ref ≡ true)
          ⊎ ((r : ModelRouting) × (np.get_global_routing m.ref ≡ some r)))

  pub record IsSavable (r : ModelRouting) : Type 0 where
    pub named : str_eq r.name "" ≡ false
    pub short : len r.name ≤ 128
    pub no_comma : len r.name < find r.name ","
    pub parses : (parse r.members).1 ≡ true
    pub some_members : 0 < length (parse r.members).0
    pub few_members : length (parse r.members).0 ≤ 32
    pub known : All IsKnown (parse r.members).0
    pub sound :
        str_eq r.scope "global" ≡ true
        → IsSound parse np 5 (mark r.name (λ n. false)) (parse r.members).0

  check_refs-IsKnown :
      (i : ℕ) (ms : List RoutingMember) → check_refs parse np i ms ≡ none → All IsKnown ms
  unfolding check_refs
  check_refs-IsKnown i [] h = tt
  check_refs-IsKnown i (m ∷ ms) h = elim (Bool-cases (str_eq m.ref "")) [
    | inl e ↦ let h' = rw e at h in absurd (cc)
    | inr full ↦ elim (Bool-cases (np.has_model m.ref)) [
      | inl e ↦ ((full, inl e), check_refs-IsKnown (i + 1) ms (rw (full, e) at h))
      | inr e ↦ elim (Option-cases (np.get_global_routing m.ref)) [
        | inl miss ↦ let h' = rw (full, e, miss) at h in absurd (cc)
        | inr (r, found) ↦
            ((full, inr (r, found)), check_refs-IsKnown (i + 1) ms (rw (full, e, found) at h))
      ]
    ]
  ]

  check_refs-of_known :
      (i : ℕ) (ms : List RoutingMember) → All IsKnown ms → check_refs parse np i ms ≡ none
  unfolding check_refs
  check_refs-of_known i [] h = refl
  check_refs-of_known i (m ∷ ms) h = elim h.0.1 [
    | inl e ↦ rw (h.0.0, e) (check_refs-of_known (i + 1) ms h.1)
    | inr (r, found) ↦ elim (Bool-cases (np.has_model m.ref)) [
      | inl e ↦ rw (h.0.0, e) (check_refs-of_known (i + 1) ms h.1)
      | inr e ↦ rw (h.0.0, e, found) (check_refs-of_known (i + 1) ms h.1)
    ]
  ]

  check_name_iff :
      (name : String)
      → (check_name parse np name ≡ none)
        ↔ ((str_eq name "" ≡ false) × (len name ≤ 128) × (len name < find name ","))
  unfolding check_name
  check_name_iff name = ground arith

  check_count_iff :
      (ms : List RoutingMember)
      → (check_count parse np ms ≡ none) ↔ ((0 < length ms) × (length ms ≤ 32))
  unfolding check_count
  check_count_iff ms = ground arith

  or_error-none :
      (a b : Option ValidateError) → or_error parse np a b ≡ none → (a ≡ none) × (b ≡ none)
  or_error-none none b h = (refl, h)
  or_error-none (some e) b h = absurd (cc)

  then-none :
      (c : Bool) (e : ValidateError) (o : Option ValidateError)
      → (if c then o else some e) ≡ none
      → (c ≡ true) × (o ≡ none)
  then-none true e o h = (refl, h)
  then-none false e o h = absurd (cc)

  module _ (coherent : IsCoherent parse np) where
    dfs_cycle_and_depth_iff :
        (r : ModelRouting) (ms : List RoutingMember)
        → (dfs_cycle_and_depth parse np r ms ≡ none)
          ↔ IsSound parse np 5 (mark r.name (λ n. false)) ms
    unfolding dfs_cycle_and_depth
    dfs_cycle_and_depth_iff r ms = (
      λ h. elim (outcome (dfs_routing parse np 5 ms start (r.name ∷ []))) [
        | inl (e, bad) ↦ let h' = rw bad at h in absurd (cc)
        | inr (v2, ran) ↦
            let back = dfs_routing-Restores parse np coherent 5 ms start _ v2 ran in
            (dfs_routing_iff parse np coherent 5 ms start (r.name ∷ [])).0 (rw back at ran)
      ],
      λ h. rw ((dfs_routing_iff parse np coherent 5 ms start (r.name ∷ [])).1 h) refl,
    )
      where
        start : Visited
        start = mark r.name (λ n. false)

        outcome :
            (o : Outcome) → ((e : ValidateError) × (o ≡ inl e)) ⊎ ((v : Visited) × (o ≡ inr v))
        outcome (inl e) = inl (e, refl)
        outcome (inr v) = inr (v, refl)

    -- A routing may be saved exactly if it has a name of 1 to 128 bytes without a comma, 1 to 32
    -- members that parse and name something, and, if it is global, every path below it enters at
    -- most four routings and closes a cycle only at the name of a real model, where a routing is stored under its name.
    pub validate_routing_iff :
        (r : ModelRouting) → (validate_routing parse np r ≡ none) ↔ IsSavable r
    unfolding validate_routing
    validate_routing_iff r = (forth, back)
      where
        forth : validate_routing parse np r ≡ none → IsSavable r
        forth h =
            let (name_ok, h1) = or_error-none _ _ h in
            let (parses, h2) = then-none _ _ _ h1 in
            let (count_ok, h3) = or_error-none _ _ h2 in
            let (refs_ok, h4) = or_error-none _ _ h3 in
            let (named, short, no_comma) = (check_name_iff r.name).0 name_ok in
            let (some_members, few_members) = (check_count_iff _).0 count_ok in
            record {
              named = named;
              short = short;
              no_comma = no_comma;
              parses = parses;
              some_members = some_members;
              few_members = few_members;
              known = check_refs-IsKnown 0 _ refs_ok;
              sound = λ e. (dfs_cycle_and_depth_iff r _).0 (let h5 = rw e at h4 in h5);
            }

        back : IsSavable r → validate_routing parse np r ≡ none
        back s =
            rw
              (
                (check_name_iff r.name).1 (s.named, s.short, s.no_comma),
                s.parses,
                (check_count_iff _).1 (s.some_members, s.few_members),
                check_refs-of_known 0 _ s.known,
              )
              (elim (Bool-cases (str_eq r.scope "global")) [
                | inl e ↦ rw e ((dfs_cycle_and_depth_iff r _).1 (s.sound e))
                | inr e ↦ rw e refl
              ])

-- Which routings refer to a name, and the deletion of one.
module _ (parse : Parse) where
  abbrev pub RefersTo : ModelRouting → ModelRouting → Type 0
  RefersTo target r =
      (r.id ≢ target.id)
      × ((parse r.members).1 ≡ true)
      × ((m : RoutingMember) × IsIn m (parse r.members).0 × (m.ref ≡ target.name))

  names_iff :
      (np : NameProvider) (target : String) (ms : List RoutingMember)
      → (names parse np target ms ≡ true) ↔ ((m : RoutingMember) × IsIn m ms × (m.ref ≡ target))
  unfolding names
  names_iff np target [] = (λ h. absurd (cc), λ (m, i, e). elim i [ ])
  names_iff np target (m ∷ ms) = (
    λ h. elim (Bool-cases (str_eq m.ref target)) [
      | inl e ↦ (m, inl refl, ground (arith, eq_iff m.ref target))
      | inr e ↦
          let (m', i, e') = (names_iff np target ms).0 (let h' = rw e at h in h') in (m', inr i, e')
    ],
    λ (m', i, e). elim i [
      | inl q ↦ let e' = rw q at e in ground (arith, eq_iff m.ref target)
      | inr i' ↦ let rest = (names_iff np target ms).1 (m', i', e) in ground (arith)
    ],
  )

  -- Whether the loop lists a routing.
  abbrev lists : NameProvider → ModelRouting → ModelRouting → Bool
  lists np target r =
      not (r.id == target.id)
      && (parse r.members).1
      && names parse np target.name (parse r.members).0

  listed_iff :
      (np : NameProvider) (target r : ModelRouting) → (lists np target r ≡ true) ↔ RefersTo target r
  listed_iff np target r = (
    λ h. (ground (arith), ground (arith), (names_iff np target.name _).0 (ground (arith))),
    λ (other, parses, mem).
        let e = (names_iff np target.name (parse r.members).0).1 mem in ground (arith),
  )

  referrers-none :
      (np : NameProvider) (target : ModelRouting) (rs : List ModelRouting)
      → (referrers parse np target rs ≡ []) ↔ All (λ r. ¬ RefersTo target r) rs
  unfolding referrers
  referrers-none np target [] = (λ h. tt, λ h. refl)
  referrers-none np target (r ∷ rs) = (
    λ h. elim (Bool-cases (lists np target r)) [
      | inl e ↦ let h' = rw e at h in absurd (cc)
      | inr e ↦
          let h' = rw e at h in
          (
            λ ref. let b = (listed_iff np target r).1 ref in absurd (cc),
            (referrers-none np target rs).0 h',
          )
    ],
    λ h. elim (Bool-cases (lists np target r)) [
      | inl e ↦ absurd (h.0 ((listed_iff np target r).0 e))
      | inr e ↦ rw e ((referrers-none np target rs).1 h.1)
    ],
  )

  -- A global routing may be deleted exactly if no other global routing whose members parse has a
  -- member of its name.
  pub validate_delete_iff :
      (np : NameProvider) (target : ModelRouting)
      → str_eq target.scope "global" ≡ true
      → (validate_delete parse np target ≡ none)
        ↔ All (λ r. ¬ RefersTo target r) np.all_global_routings
  unfolding validate_delete
  validate_delete_iff np target h = (
    λ k. (referrers-none np target _).0 (empty _ (let k' = rw h at k in k')),
    λ k. rw (h, (referrers-none np target _).1 k) refl,
  )
    where
      empty :
          (l : List String)
          → (elim l [ [] ↦ none | (name ∷ more) ↦ some (referenced_by (name ∷ more)) ]) ≡ none
          → l ≡ []
      empty [] e = refl
      empty (name ∷ more) e = absurd (cc)
