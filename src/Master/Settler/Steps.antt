-- ===== src/Master/Settler/Steps.antt =====
-- internal/master/billing/settler.go: what the settlement of one entry does to the logs, the quotas
-- and the aggregator.
use vaala_ai_gateway.Prelude.{
  ℕ, ◌≡◌, refl, ◌∙◌, Bool, true, false, String, List, [], ◌∷◌, Option, none, some, inl, inr, arith,
  ◌==◌, if◌then◌else◌, Bool-cases, str_eq,
}
use vaala_ai_gateway.Master.Billing.{is_positive, add64, sub64}
use vaala_ai_gateway.Master.Settler.{Float64, Trace, UsageLogEntry}
use vaala_ai_gateway.Master.Settler.Store.{StoredLog, LogDatabase, has_request, deducted}
use vaala_ai_gateway.Master.Settler.Log.{Env}
use vaala_ai_gateway.Master.Settler.Settle.{
  World, after_trace, write_attempts, mark_if, write_legacy, write_traces, number_trace,
}

-- What the user `v` pays for a log of `total` that belongs to the user `u`.
abbrev pub charge : ℕ → ℕ → ℕ → ℕ
charge v u total =
    if u == 0 then 0 else if is_positive total then (if u == v then total else 0) else 0

module _ (float : Float64) {Body : Type 0} (db : LogDatabase float.F Body) where
  abbrev pub Keeps : db.State → db.State → Type 0
  Keeps s s' = (db.logs s' ≡ db.logs s) × ((u : ℕ) → db.quotas s' u ≡ db.quotas s u)

  pub Keeps-trans : (s t u : db.State) → Keeps s t → Keeps t u → Keeps s u
  Keeps-trans s t u h k = (k.0 ∙ h.0, λ v. k.1 v ∙ h.1 v)

  pub deducted-zero :
      (s : db.State) (v : ℕ) (o : Option (ℕ × ℕ)) → db.quotas s v ≡ o → deducted 0 o ≡ o
  deducted-zero s v none e = refl
  deducted-zero s v (some (q, used)) e =
      let w = db.quotas-word s v q used e in
      let a : sub64 q 0 ≡ q = omega (arith, w) in
      let b : add64 used 0 ≡ used = omega (arith, w) in cc

  -- One log is added, under a new identifier, and its user pays for it.
  pub record Added (l : StoredLog float.F) (w w' : World db.State) : Type 0 where
    pub logged : db.logs w'.db ≡ l ∷ db.logs w.db
    pub fresh : has_request l.request_id (db.logs w.db) ≡ false
    pub paid :
        (v : ℕ)
        → db.quotas w'.db v
          ≡ deducted (charge v l.counted.user_id l.counted.total_cost) (db.quotas w.db v)
    pub submitted : w'.submitted ≡ l.counted ∷ w.submitted

  module _ (env : Env float.F Body) where
    after_trace-Keeps :
        (s : db.State) (wrote : Bool) (t : Trace Body) (o : Option db.State)
        → db.insert_trace s t ≡ o
        → Keeps s (after_trace float env db s wrote o).0
    after_trace-Keeps s wrote t none e = (refl, λ v. refl)
    after_trace-Keeps s wrote t (some s') e = db.insert_trace_lem s s' t e

    mark_if-Keeps : (id : String) (p : db.State × Bool) → Keeps p.0 (mark_if float env db id p)
    mark_if-Keeps id (s, true) = db.mark_traced_lem s id
    mark_if-Keeps id (s, false) = (refl, λ v. refl)

    write_attempts-Keeps :
        (id : String) (traces : List (Trace Body)) (s : db.State) (wrote : Bool)
        → Keeps s (write_attempts float env db id traces s wrote).0
    unfolding write_attempts
    write_attempts-Keeps id [] s wrote = (refl, λ v. refl)
    write_attempts-Keeps id (t ∷ traces) s wrote =
        let o = db.insert_trace s (record t { request_id = id }) in
        let step = after_trace float env db s wrote o in
        Keeps-trans s step.0 (write_attempts float env db id traces step.0 step.1).0
          (after_trace-Keeps s wrote (record t { request_id = id }) o refl)
          (write_attempts-Keeps id traces step.0 step.1)

    write_legacy-Keeps :
        (id : String) (s : db.State) (o : Option (Trace Body))
        → Keeps s (write_legacy float env db id s o)
    write_legacy-Keeps id s none = (refl, λ v. refl)
    write_legacy-Keeps id s (some t) =
        let o = db.insert_trace s (number_trace id t) in
        let p = after_trace float env db s false o in
        Keeps-trans s p.0 (mark_if float env db id p)
          (after_trace-Keeps s false (number_trace id t) o refl) (mark_if-Keeps id p)

    pub write_traces-Keeps :
        (entry : UsageLogEntry float.F Body) (traces : List (Trace Body)) (s : db.State)
        → Keeps s (write_traces float env db entry traces s)
    unfolding write_traces
    write_traces-Keeps entry [] s = elim (Bool-cases (str_eq entry.trace_data "")) [
      | inl e ↦ rw e (refl, λ v. refl)
      | inr e ↦ rw e (write_legacy-Keeps entry.request_id s (env.unmarshal_trace entry.trace_data))
    ]
    write_traces-Keeps entry (t ∷ traces) s =
        let p = write_attempts float env db entry.request_id (t ∷ traces) s false in
        Keeps-trans s p.0 (mark_if float env db entry.request_id p)
          (write_attempts-Keeps entry.request_id (t ∷ traces) s false)
          (mark_if-Keeps entry.request_id p)
