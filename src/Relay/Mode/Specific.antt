-- ===== src/Relay/Mode/Specific.antt =====
-- internal/agent/relay/upstream/overrides.go: which rule of a channel gives the override of a model.
use vaala_ai_gateway.Prelude.{
  ℕ, ◌+◌, ◌≤◌, ◌≡◌, refl, sym, ap, ◌∙◌, ◌⊎◌, inl, inr, true, false, String, List, [], ◌∷◌, some,
  arith, Bool-cases, IsIn, All, All-of_IsIn, All-IsIn,
}
use vaala_ai_gateway.Prelude.Sort.{
  slice_stable, IsIn-slice_stable, IsIn_of_slice_stable, IsOrdered, IsStrictWeak,
  slice_stable-IsOrdered,
}
use vaala_ai_gateway.Relay.Mode.{
  Override, ModelOverrideRule, ChannelOverrideRules, Scored, score_rules, more_specific,
  expand_rule_overrides, winner, resolve_override,
}

more_specific-IsStrictWeak : IsStrictWeak more_specific
unfolding more_specific
more_specific-IsStrictWeak = record {
  asym = λ a b h. ground (arith, h);
  neg_trans = λ a b c h k. ground (arith, h, k);
}

IsIn-score_rules :
    (model : String) (i : ℕ) (rs : List ModelOverrideRule) (s : Scored)
    → IsIn s (score_rules model i rs)
    → IsIn s.rule rs × (s.rule.matches model ≡ true)
unfolding score_rules
IsIn-score_rules model i [] s m = elim m [ ]
IsIn-score_rules model i (r ∷ rs) s m = elim (Bool-cases (r.matches model)) [
  | inl e ↦ elim (rw e at m) [
    | inl q ↦
        let k = ap (λ (x : Scored). x.rule) q in
        (inl k, ap (λ (x : ModelOverrideRule). x.matches model) k ∙ e)
    | inr t ↦ let (l, y) = IsIn-score_rules model (i + 1) rs s t in (inr l, y)
  ]
  | inr e ↦ let (l, y) = IsIn-score_rules model (i + 1) rs s (rw e at m) in (inr l, y)
]

scored_of_rule :
    (model : String) (i : ℕ) (rs : List ModelOverrideRule) (r : ModelOverrideRule)
    → IsIn r rs
    → r.matches model ≡ true
    → (s : Scored) × IsIn s (score_rules model i rs) × (s.rule ≡ r)
unfolding score_rules
scored_of_rule model i [] r m h = elim m [ ]
scored_of_rule model i (q ∷ rs) r (inl e) h =
    let h' : q.matches model ≡ true = rw e at h in
    (record { rule = q; config_idx = i }, rw h' (inl refl), sym e)
scored_of_rule model i (q ∷ rs) r (inr m) h =
    let (s, l, e) = scored_of_rule model (i + 1) rs r m h in
    (s, elim (Bool-cases (q.matches model)) [ inl k ↦ rw k (inr l) | inr k ↦ rw k l ], e)

-- A rule that matches, and that no other rule that matches is more specific than: an exact pattern
-- before any other, then the longer one.
pub record MostSpecific (rules : List ModelOverrideRule) (model : String) (r : ModelOverrideRule)
    : Type 0 where
  pub listed : IsIn r rules
  pub matching : r.matches model ≡ true
  pub best :
      (q : ModelOverrideRule)
      → IsIn q rules
      → q.matches model ≡ true
      → (q.is_exact ≡ true → r.is_exact ≡ true)
        × (q.is_exact ≡ r.is_exact → q.pattern_len ≤ r.pattern_len)

not_more_specific :
    (a b : Scored)
    → more_specific a b ≡ false
    → (a.rule.is_exact ≡ true → b.rule.is_exact ≡ true)
      × (a.rule.is_exact ≡ b.rule.is_exact → a.rule.pattern_len ≤ b.rule.pattern_len)
unfolding more_specific
not_more_specific a b h = (λ e. ground (arith, h, e), λ e. ground (arith, h, e))

winner_lem :
    (rules : List ModelOverrideRule) (model : String) (other : Override) (l : List Scored)
    → slice_stable more_specific (score_rules model 0 rules) ≡ l
    → ((winner other l ≡ other) × All (λ q. q.matches model ≡ false) rules)
      ⊎ ((r : ModelOverrideRule) × MostSpecific rules model r
          × (winner other l ≡ expand_rule_overrides r))
winner_lem rules model other [] e = inl (
  refl,
  All-of_IsIn _ rules λ q i. elim (Bool-cases (q.matches model)) [
    | inl h ↦
        let (s, l, _) = scored_of_rule model 0 rules q i h in
        elim (rw e at (IsIn-slice_stable more_specific _ s l)) [ ]
    | inr h ↦ h
  ],
)
winner_lem rules model other (s ∷ l) e =
    let ordered : IsOrdered more_specific (s ∷ l) = rw e at (
      slice_stable-IsOrdered more_specific more_specific-IsStrictWeak
        (score_rules model 0 rules)) in
    let (i, m) =
      IsIn-score_rules model 0 rules s (IsIn_of_slice_stable more_specific _ s (rw e (inl refl))) in
    inr (
      s.rule,
      record {
        listed = i;
        matching = m;
        best = λ q k h.
            let (t, j, named) = scored_of_rule model 0 rules q k h in
            elim (rw e at (IsIn-slice_stable more_specific _ t j)) [
              | inl same ↦
                  let f : q ≡ s.rule = sym named ∙ ap (λ (x : Scored). x.rule) same in
                  rw f (λ x. x, λ x. omega arith)
              | inr later ↦
                  let o = All-IsIn _ l ordered.0 t later in
                  let b = not_more_specific t s o in rw named at b
            ];
      },
      refl,
    )

-- The override of a model is that of the channel if none of its rules matches the model, and else
-- that of a rule that matches and than which no rule that matches is more specific.
pub resolve_override_lem :
    (rules : ChannelOverrideRules) (model : String)
    → ((resolve_override (some rules) model ≡ rules.channel_level)
        × All (λ q. q.matches model ≡ false) rules.model_level)
      ⊎ ((r : ModelOverrideRule) × MostSpecific rules.model_level model r
          × (resolve_override (some rules) model ≡ expand_rule_overrides r))
unfolding resolve_override
resolve_override_lem rules model = winner_lem rules.model_level model rules.channel_level _ refl
