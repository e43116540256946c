-- ===== src/Master/Settler/Outcome.antt =====
-- internal/master/billing/settler.go: the settlement of one entry changes nothing, or adds one log
-- with its charge.
use vaala_ai_gateway.Prelude.{
  eq_iff, ℕ, ◌≡◌, refl, sym, ap, subst, ◌∙◌, Bool, true, false, String, List, ◌∷◌, Option, none,
  some, ◌⊎◌, inl, inr, ltb, ◌==◌, if◌then◌else◌, Bool-cases,
}
use vaala_ai_gateway.Master.Billing.{is_positive}
use vaala_ai_gateway.Master.Settler.{Float64, UsageLogEntry}
use vaala_ai_gateway.Master.Settler.Store.{
  StoredLog, InsertError, is_duplicate_request_id_error, LogDatabase, has_request, deducted,
}
use vaala_ai_gateway.Master.Settler.Log.{Env, settled_log, build_log}
use vaala_ai_gateway.Master.Settler.Settle.{
  World, write_traces, with_quota, after_update, deduct_quota, after_deduct, charge_user,
  after_create, commit, publish, settle_new, after_count, settle_one,
}
use vaala_ai_gateway.Master.Settler.Steps.{Keeps, deducted-zero, charge, Added, write_traces-Keeps}

module _ (float : Float64) {Body : Type 0} (db : LogDatabase float.F Body)
    (env : Env float.F Body) where
  -- What a transaction that has inserted its log does behind the insertion.
  abbrev Pays : ℕ → ℕ → db.State → Bool × Bool × db.State → Type 0
  Pays u total s (inserted, depleted, s') =
      (inserted ≡ true)
      × (db.logs s' ≡ db.logs s)
      × ((v : ℕ) → db.quotas s' v ≡ deducted (charge v u total) (db.quotas s v))

  -- Whatever charges nobody pays nothing.
  Pays-nothing :
      (u total : ℕ) (s : db.State)
      → ((v : ℕ) → charge v u total ≡ 0)
      → Pays u total s (true, false, s)
  Pays-nothing u total s h = (
    refl,
    refl,
    λ v. sym (
        ap (λ c. deducted c (db.quotas s v)) (h v)
        ∙ deducted-zero float db s v (db.quotas s v) refl),
  )

  with_quota_lem :
      (s : db.State) (o : Option ℕ) (q : ℕ) (s' : db.State)
      → with_quota float env db s o ≡ some (q, s')
      → s ≡ s'
  with_quota_lem s none q s' h = absurd (cc)
  with_quota_lem s (some p) q s' h = cc

  after_update_lem :
      (s : db.State) (u amount : ℕ) (o : Option db.State) (q : ℕ) (s' : db.State)
      → db.update_quota s u amount ≡ o
      → after_update float env db u o ≡ some (q, s')
      → db.update_quota s u amount ≡ some s'
  after_update_lem s u amount none q s' e h = absurd (cc)
  after_update_lem s u amount (some t) q s' e h =
      e ∙ ap some (with_quota_lem t (db.select_quota t u) q s' h)

  deducted-if :
      (u v total : ℕ) (o : Option (ℕ × ℕ))
      → deducted 0 o ≡ o
      → (if u == v then deducted total o else o) ≡ deducted (if u == v then total else 0) o
  deducted-if u v total o z = elim (Bool-cases (u == v)) [
    | inl e ↦ rw e refl
    | inr e ↦ rw e (sym z)
  ]

  after_deduct-Pays :
      (u total : ℕ) (s : db.State) (o : Option (ℕ × db.State)) (r : Bool × Bool × db.State)
      → u == 0 ≡ false
      → is_positive total ≡ true
      → deduct_quota float env db s u total ≡ o
      → after_deduct float env db o ≡ some r
      → Pays u total s r
  unfolding deduct_quota
  after_deduct-Pays u total s none r nu pos d h = absurd (cc)
  after_deduct-Pays u total s (some (q, s')) (inserted, depleted, s'') nu pos d h =
      let done =
        db.update_quota_lem s s' u total
          (after_update_lem s u total (db.update_quota s u total) q s' refl d) in
      let at : s' ≡ s'' = cc in
      let is : true ≡ inserted = cc in
      (
        sym is,
        ap db.logs (sym at) ∙ done.0,
        λ v.
            ap (λ t. db.quotas t v) (sym at)
            ∙ done.1 v
            ∙ rw (nu, pos)
                (deducted-if u v total (db.quotas s v)
                  (deducted-zero float db s v (db.quotas s v) refl)),
      )

  charge_user-Pays :
      (u total : ℕ) (s : db.State) (r : Bool × Bool × db.State)
      → charge_user float env db u total s ≡ some r
      → Pays u total s r
  unfolding deduct_quota
  charge_user-Pays u total s r h = elim (Bool-cases (u == 0)) [
    | inl e ↦
        let same : (true, false, s) ≡ r = cc (rw e at h) in
        subst (Pays u total s) same (Pays-nothing u total s (λ v. rw e refl))
    | inr e ↦ elim (Bool-cases (is_positive total)) [
      | inl p ↦
          after_deduct-Pays u total s (deduct_quota float env db s u total) r e p refl
            (rw p at (rw e at h))
      | inr p ↦
          let same : (true, false, s) ≡ r = cc (rw p at (rw e at h)) in
          subst (Pays u total s) same (Pays-nothing u total s (λ v. rw (e, p) refl))
    ]
  ]

  -- Nothing is changed, or the log is added.
  abbrev pub Outcome : StoredLog float.F → World db.State → World db.State → Type 0
  Outcome log w w' = (w' ≡ w) ⊎ Added float db log w w'

  publish-Added :
      (log : StoredLog float.F) (w : World db.State) (s : db.State) (r : Bool × Bool × db.State)
      → db.insert_log w.db log ≡ inr s
      → Pays log.counted.user_id log.counted.total_cost s r
      → Added float db log w (publish float env db log.counted.user_id log w (some r)).1
  publish-Added log w s (inserted, depleted, s') e p =
      let i = db.insert_log_lem w.db s log e in
      record {
        logged = p.1 ∙ i.0;
        fresh = i.2;
        paid = λ v.
            p.2 v ∙ ap (deducted (charge v log.counted.user_id log.counted.total_cost)) (i.1 v);
        submitted = rw p.0 refl;
      }

  Pays-traced :
      (u total : ℕ) (s t : db.State) (r : Bool × Bool × db.State)
      → Keeps float db s t
      → Pays u total t r
      → Pays u total s r
  Pays-traced u total s t (inserted, depleted, s') k p =
      (p.0, p.1 ∙ k.0, λ v. p.2 v ∙ ap (deducted (charge v u total)) (k.1 v))

  commit_lem :
      (o : Option (Bool × Bool × db.State)) (r : Bool × Bool × db.State)
      → commit float env db o ≡ some r
      → o ≡ some r
  commit_lem none r h = absurd (cc)
  commit_lem (some (i, d, s)) r h = elim (Bool-cases (db.commits s)) [
    | inl e ↦ rw e at h
    | inr e ↦ absurd (cc (rw e at h))
  ]

  has_request-head :
      (l : StoredLog float.F) (logs : List (StoredLog float.F))
      → has_request l.request_id (l ∷ logs) ≡ true
  has_request-head l logs = rw ((eq_iff l.request_id l.request_id).1 refl) refl

  -- The outcome, and a settlement that ends well leaves the identifier among the logs.
  abbrev pub Settles : StoredLog float.F → World db.State → Bool × World db.State → Type 0
  Settles log w (fine, w') =
      Outcome log w w' × (fine ≡ true → has_request log.request_id (db.logs w'.db) ≡ true)

  module _ (agent_id : String) (entry : UsageLogEntry float.F Body) (w : World db.State) where
    abbrev the_log : StoredLog float.F
    the_log = settled_log float env agent_id entry

    publish-Settles :
        (s : db.State) (c : Option (Bool × Bool × db.State))
        → db.insert_log w.db the_log ≡ inr s
        → commit float env db (
            charge_user float env db entry.user_id the_log.counted.total_cost
              (write_traces float env db entry entry.attempt_traces s))
          ≡ c
        → Settles the_log w (publish float env db entry.user_id the_log w c)
    unfolding settled_log build_log deduct_quota
    publish-Settles s none e h = (inl refl, λ f. absurd (cc f))
    publish-Settles s (some r) e h =
        let t = write_traces float env db entry entry.attempt_traces s in
        let total = the_log.counted.total_cost in
        let p =
          Pays-traced entry.user_id total s t r
            (write_traces-Keeps float db env entry entry.attempt_traces s)
            (charge_user-Pays entry.user_id total t r
              (commit_lem (charge_user float env db entry.user_id total t) r h)) in
        let a = publish-Added the_log w s r e p in
        (
          inr a,
          λ f. ap (has_request entry.request_id) a.logged ∙ has_request-head the_log (db.logs w.db),
        )

    after_create-Settles :
        (x : InsertError ⊎ db.State)
        → db.insert_log w.db the_log ≡ x
        → Settles the_log w (
            publish float env db entry.user_id the_log w (
              commit float env db
                (after_create float env db entry the_log.counted.total_cost w.db x)))
    unfolding write_traces deduct_quota is_duplicate_request_id_error
    after_create-Settles (inl e) q = elim (Bool-cases (is_duplicate_request_id_error e)) [
      | inl d ↦ elim (Bool-cases (db.commits w.db)) [
        | inl c ↦ rw (d, c) (inl refl, λ f. db.insert_log-duplicate w.db the_log e q d)
        | inr c ↦ rw (d, c) (inl refl, λ f. absurd (cc f))
      ]
      | inr d ↦ rw d (inl refl, λ f. absurd (cc f))
    ]
    after_create-Settles (inr s) q = publish-Settles s _ q refl

    after_count-Settles :
        (o : Option ℕ)
        → db.count_request w.db entry.request_id ≡ o
        → Settles the_log w (after_count float env db agent_id entry w o)
    unfolding settled_log build_log settle_new
    after_count-Settles none e = (inl refl, λ f. absurd (cc f))
    after_count-Settles (some n) e = elim (Bool-cases (ltb 0 n)) [
      | inl t ↦ rw t (inl refl, λ f. sym (db.count_request_lem w.db entry.request_id n e) ∙ t)
      | inr t ↦ rw t (after_create-Settles (db.insert_log w.db the_log) refl)
    ]

    pub settle_one-Settles : Settles the_log w (settle_one float env db agent_id entry w)
    unfolding settle_one
    settle_one-Settles = after_count-Settles (db.count_request w.db entry.request_id) refl
