-- ===== src/Master/Limit/Settled.antt =====
-- internal/master/billing/channel_limit_evaluator.go: what a tick decides, and that it settles.
use vaala_ai_gateway.Prelude.{
  ℕ, ◌≡◌, refl, sym, ◌∙◌, subst, [], ◌∷◌, ℤ, eq_ℤ, ltb_ℤ, pos, Bool, true, false, not, ◌&&◌, eq_iff,
  List, Option, some, arith, Bool-cases, inl, inr,
}
use vaala_ai_gateway.Relay.Plan.{is_empty}
use vaala_ai_gateway.Master.Limit.{
  LimitRule, ChannelLimit, ChannelLimitState, Verdict, LimitedChannel, enabled, disabled, same_bool,
  reconcile, reconcile_enable, reconcile_disable, evaluate_limit, tick_channel, evaluate_rules,
  fine,
}

same_bool_refl : (b : Bool) → same_bool b b ≡ true
same_bool_refl true = refl
same_bool_refl false = refl

-- With the same verdict again, there is nothing to change: a tick has settled the channel.
pub reconcile_settles :
    (status : ℤ) (state : ChannelLimitState) (v : Verdict) (now later : ℤ)
    → let next = reconcile status state v now in
      (reconcile next.status next.state v later).changed ≡ false
unfolding reconcile reconcile_enable reconcile_disable
reconcile_settles status state v now later =
    ground (arith, eq_iff v.reason v.reason, same_bool_refl v.auto_recover)

-- A channel that was disabled by hand, with no trip in its state, is left alone by every tick.
tick_channel-manual :
    (usage : LimitedChannel → LimitRule → Option ℤ) (stored : ℕ → Bool) (now : ℤ)
    (ch : LimitedChannel)
    → eq_ℤ ch.status disabled ≡ true
    → ch.limit_state.tripped ≡ false
    → tick_channel usage stored now ch ≡ ch
unfolding tick_channel reconcile reconcile_enable reconcile_disable
tick_channel-manual usage stored now ch off by_hand = ground (arith, off, by_hand)

evaluate_rules-unlimited :
    (usage : LimitRule → Option ℤ) (rules : List LimitRule)
    → is_empty rules ≡ true
    → evaluate_rules usage rules ≡ some fine
unfolding evaluate_rules
evaluate_rules-unlimited usage [] h = refl
evaluate_rules-unlimited usage (r ∷ rs) h = absurd (cc)

evaluate_limit-unlimited :
    (limit : ChannelLimit) (now : ℤ) (usage : LimitRule → Option ℤ)
    → (eq_ℤ limit.disable_at (pos 0) && is_empty limit.rules) ≡ true
    → evaluate_limit limit now usage ≡ some fine
unfolding evaluate_limit
evaluate_limit-unlimited limit now usage h =
    let off : (ltb_ℤ (pos 0) limit.disable_at && not (ltb_ℤ now limit.disable_at)) ≡ false =
      ground arith in
    rw off (evaluate_rules-unlimited usage limit.rules (ground arith))

reconcile-disables :
    (status : ℤ) (state : ChannelLimitState) (v : Verdict) (now : ℤ)
    → v.should_disable ≡ true
    → let next = reconcile status state v now in
      (eq_ℤ next.status enabled ≡ false) × (next.changed ≡ false → eq_ℤ status enabled ≡ false)
unfolding reconcile reconcile_disable
reconcile-disables status state v now d = (ground (arith, d), λ k. ground (arith, d, k))

-- Where the limits of a channel call for it to be disabled and the update is stored, the channel is
-- not enabled behind the tick.
pub tick_channel-disables :
    (usage : LimitedChannel → LimitRule → Option ℤ) (stored : ℕ → Bool) (now : ℤ)
    (ch : LimitedChannel) (v : Verdict)
    → evaluate_limit ch.limit now (usage ch) ≡ some v
    → v.should_disable ≡ true
    → stored ch.id ≡ true
    → eq_ℤ (tick_channel usage stored now ch).status enabled ≡ false
unfolding tick_channel
tick_channel-disables usage stored now ch v e d s =
    elim (Bool-cases (eq_ℤ ch.limit.disable_at (pos 0) && is_empty ch.limit.rules)) [
      | inl t ↦ absurd (
          let q = evaluate_limit-unlimited ch.limit now (usage ch) t in
          let r : v ≡ fine = (let c = sym e ∙ q in cc) in
          let f : false ≡ true = subst (λ (w : Verdict). w.should_disable ≡ true) r d in cc)
      | inr t ↦
          let (gone, kept) = reconcile-disables ch.status ch.limit_state v now d in
          rw (t, e, tick_channel)
            (elim (Bool-cases (reconcile ch.status ch.limit_state v now).changed) [
              | inl c ↦ rw (c, s) gone
              | inr c ↦ rw c (kept c)
            ])
    ]
