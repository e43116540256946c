-- ===== src/Master/Settler/Charged.antt =====
-- internal/master/billing/settler.go: what a batch of entries does to the logs, the quotas and the
-- aggregator.
use vaala_ai_gateway.Prelude.{
  ℕ, ◌≡◌, refl, sym, ap, subst, ◌∙◌, false, String, str_eq, List, [], ◌∷◌, ◌++◌, map, Option, none,
  some, inl, inr, arith, Bool-cases, if◌then◌else◌,
}
use vaala_ai_gateway.Master.Billing.{UsageLog, add64, sub64}
use vaala_ai_gateway.Master.Settler.{
  Float64, UsageLogEntry, Costs, sum_of, ByokSettings, raw_costs, bill, bill_byok, scale_costs,
  apply_byok_billing_mode, apply_channel_price_ratio,
}
use vaala_ai_gateway.Master.Settler.Store.{StoredLog, LogDatabase, has_request, deducted}
use vaala_ai_gateway.Master.Settler.Log.{Env, settled_log, build_log}
use vaala_ai_gateway.Master.Settler.Settle.{World, settle_one, settle}
use vaala_ai_gateway.Master.Settler.Steps.{deducted-zero, charge, Added}
use vaala_ai_gateway.Master.Settler.Outcome.{settle_one-Settles}

module _ {F : Type 0} where
  -- What the user `v` pays for the logs.
  abbrev pub charges : ℕ → List (StoredLog F) → ℕ
  charges v [] = 0
  charges v (l ∷ logs) = add64 (charges v logs) (charge v l.counted.user_id l.counted.total_cost)

  -- Each log has an identifier of its own.
  abbrev pub AreFresh : List (StoredLog F) → List (StoredLog F) → Type 0
  AreFresh [] old = Unit
  AreFresh (l ∷ logs) old = (has_request l.request_id (logs ++ old) ≡ false) × AreFresh logs old

  -- The total is the sum of the buckets, and zero for a free channel.
  abbrev pub IsPriced : StoredLog F → Type 0
  IsPriced l =
      (l.counted.total_cost
        ≡ sum_of l.counted.input_cost l.counted.output_cost l.cache_read_cost l.cache_write_cost)
      × ((if l.free then l.counted.total_cost else 0) ≡ 0)

  abbrev pub ArePriced : List (StoredLog F) → Type 0
  ArePriced [] = Unit
  ArePriced (l ∷ logs) = IsPriced l × ArePriced logs

  abbrev pub counted_of : StoredLog F → UsageLog
  counted_of l = l.counted

module _ (float : Float64) where
  abbrev IsSum : Costs → Type 0
  IsSum c = c.total ≡ sum_of c.input c.output c.cache_read c.cache_write

  bill_byok-IsSum :
      {Body : Type 0} (entry : UsageLogEntry float.F Body) (c : Costs) (mode : String)
      (factor : float.F)
      → IsSum c
      → IsSum (bill_byok float entry (c, mode, factor)).costs
  unfolding apply_channel_price_ratio
  bill_byok-IsSum entry c mode factor h = elim (Bool-cases (str_eq mode "")) [
    | inl e ↦ rw e refl
    | inr e ↦ rw e h
  ]

  bill-IsSum :
      {Body : Type 0} (settings : ByokSettings float.F) (entry : UsageLogEntry float.F Body)
      (c : Costs)
      → IsSum c
      → IsSum (bill float settings entry c).costs
        × ((if entry.free then (bill float settings entry c).costs.total else 0) ≡ 0)
  unfolding bill apply_byok_billing_mode apply_channel_price_ratio
  bill-IsSum settings entry c h = elim (Bool-cases entry.free) [
    | inl e ↦ rw e (refl, refl)
    | inr e ↦ rw e (elim (Bool-cases (str_eq entry.owner_type "private")) [
      | inl p ↦ elim (Bool-cases (str_eq settings.billing_mode "service_fee")) [
        | inl q ↦
            rw (p, q)
              (
                bill_byok-IsSum entry (scale_costs float c settings.service_fee_ratio)
                    settings.billing_mode settings.service_fee_ratio refl,
                refl,
              )
        | inr q ↦
            rw (p, q) (bill_byok-IsSum entry _ settings.billing_mode (float.of_int 0) refl, refl)
      ]
      | inr p ↦ rw p (bill_byok-IsSum entry c "" (float.of_int 0) h, refl)
    ])
  ]

  settled_log-IsPriced :
      {Body : Type 0} (env : Env float.F Body) (agent_id : String)
      (entry : UsageLogEntry float.F Body)
      → IsPriced (settled_log float env agent_id entry)
  unfolding settled_log build_log raw_costs
  settled_log-IsPriced env agent_id entry = bill-IsSum env.settings entry _ refl

deducted-deducted :
    (a b : ℕ) (o : Option (ℕ × ℕ)) → deducted b (deducted a o) ≡ deducted (add64 a b) o
deducted-deducted a b none = refl
deducted-deducted a b (some (q, used)) =
    let x : sub64 (sub64 q a) b ≡ sub64 q (add64 a b) = omega arith in
    let y : add64 (add64 used a) b ≡ add64 used (add64 a b) = omega arith in cc

module _ (float : Float64) {Body : Type 0} (db : LogDatabase float.F Body) where
  -- How the world `w` differs from `w0` after the logs `new` were added.
  pub record IsCharged (w0 : World db.State) (new : List (StoredLog float.F)) (w : World db.State)
      : Type 0 where
    pub logged : db.logs w.db ≡ new ++ db.logs w0.db
    pub fresh : AreFresh new (db.logs w0.db)
    pub priced : ArePriced new
    pub paid : (v : ℕ) → db.quotas w.db v ≡ deducted (charges v new) (db.quotas w0.db v)
    pub submitted : w.submitted ≡ map counted_of new ++ w0.submitted

  IsCharged-start : (w : World db.State) → IsCharged w [] w
  IsCharged-start w = record {
    logged = refl;
    fresh = tt;
    priced = tt;
    paid = λ v. sym (deducted-zero float db w.db v (db.quotas w.db v) refl);
    submitted = refl;
  }

  IsCharged-Added :
      (w0 : World db.State) (new : List (StoredLog float.F)) (w w' : World db.State)
      (l : StoredLog float.F)
      → IsCharged w0 new w
      → IsPriced l
      → Added float db l w w'
      → IsCharged w0 (l ∷ new) w'
  IsCharged-Added w0 new w w' l h p a = record {
    logged = a.logged ∙ ap (λ logs. l ∷ logs) h.logged;
    fresh = (subst (λ logs. has_request l.request_id logs ≡ false) h.logged a.fresh, h.fresh);
    priced = (p, h.priced);
    paid = λ v.
        let c = charge v l.counted.user_id l.counted.total_cost in
        a.paid v
        ∙ ap (deducted c) (h.paid v)
        ∙ deducted-deducted (charges v new) c (db.quotas w0.db v);
    submitted = a.submitted ∙ ap (λ logs. l.counted ∷ logs) h.submitted;
  }

  module _ (env : Env float.F Body) where
    settle-from :
        (agent_id : String) (entries : List (UsageLogEntry float.F Body)) (w0 : World db.State)
        (new : List (StoredLog float.F)) (w : World db.State)
        → IsCharged w0 new w
        → (new' : List (StoredLog float.F)) × IsCharged w0 new'
            (settle float env db agent_id entries w).1
    unfolding settle
    settle-from agent_id [] w0 new w h = (new, h)
    settle-from agent_id (entry ∷ entries) w0 new w h =
        let l = settled_log float env agent_id entry in
        let w' = (settle_one float env db agent_id entry w).1 in
        elim (settle_one-Settles float db env agent_id entry w).0 [
          | inl same ↦
              settle-from agent_id entries w0 new w' (subst (IsCharged w0 new) (sym same) h)
          | inr a ↦
              settle-from agent_id entries w0 (l ∷ new) w'
                (IsCharged-Added w0 new w w' l h (settled_log-IsPriced float env agent_id entry) a)
        ]

    -- Whatever the database refuses, a batch adds some logs, each under a request identifier that no
    -- other log has, with a total that is the sum of its four buckets, and zero if the channel was
    -- free. The aggregator is handed exactly these logs. Every user's quota goes down by the positive
    -- totals of the user's new logs, the used quota goes up by as much, and all else stays.
    pub settle-IsCharged :
        (agent_id : String) (entries : List (UsageLogEntry float.F Body)) (w : World db.State)
        → (new : List (StoredLog float.F)) × IsCharged w new
            (settle float env db agent_id entries w).1
    settle-IsCharged agent_id entries w = settle-from agent_id entries w [] w (IsCharged-start w)
