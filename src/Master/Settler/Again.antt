-- ===== src/Master/Settler/Again.antt =====
-- internal/master/billing/settler.go: a report that arrives twice.
use vaala_ai_gateway.Prelude.{
  ℕ, ◌≡◌, refl, sym, ap, subst, ◌∙◌, Bool, true, false, String, str_eq, List, [], ◌∷◌, Option, none,
  some, ◌||◌, inl, inr, if◌then◌else◌,
}
use vaala_ai_gateway.Master.Settler.{Float64, UsageLogEntry}
use vaala_ai_gateway.Master.Settler.Store.{StoredLog, LogDatabase, has_request}
use vaala_ai_gateway.Master.Settler.Log.{Env, settled_log, build_log}
use vaala_ai_gateway.Master.Settler.Settle.{World, settle_new, after_count, settle_one, settle}
use vaala_ai_gateway.Master.Settler.Outcome.{Outcome, settle_one-Settles}

module _ (float : Float64) {Body : Type 0} (db : LogDatabase float.F Body)
    (env : Env float.F Body) where
  -- The requests of the entries are all among the logs.
  abbrev AreLogged : List (UsageLogEntry float.F Body) → World db.State → Type 0
  AreLogged [] w = Unit
  AreLogged (entry ∷ entries) w =
      (has_request entry.request_id (db.logs w.db) ≡ true) × AreLogged entries w

  -- A request that is logged stays logged.
  Outcome-keeps :
      (l : StoredLog float.F) (w w' : World db.State) (id : String)
      → Outcome float db env l w w'
      → has_request id (db.logs w.db) ≡ true
      → has_request id (db.logs w'.db) ≡ true
  Outcome-keeps l w w' id (inl same) h =
      subst (λ x. has_request id (db.logs x.db) ≡ true) (sym same) h
  Outcome-keeps l w w' id (inr a) h =
      ap (has_request id) a.logged ∙ or_right (str_eq l.request_id id) h
    where
      or_right : (b : Bool) {c : Bool} → c ≡ true → (b || c) ≡ true
      or_right true h = refl
      or_right false h = h

  settle-keeps :
      (agent_id : String) (entries : List (UsageLogEntry float.F Body)) (w : World db.State)
      (id : String)
      → has_request id (db.logs w.db) ≡ true
      → has_request id (db.logs (settle float env db agent_id entries w).1.db) ≡ true
  unfolding settle
  settle-keeps agent_id [] w id h = h
  settle-keeps agent_id (entry ∷ entries) w id h =
      let w' = (settle_one float env db agent_id entry w).1 in
      settle-keeps agent_id entries w' id (
        Outcome-keeps (settled_log float env agent_id entry) w w' id
          (settle_one-Settles float db env agent_id entry w).0 h)

  -- The settlement of a request that is logged changes nothing, whether or not the query answers.
  after_count-same :
      (agent_id : String) (entry : UsageLogEntry float.F Body) (w : World db.State) (o : Option ℕ)
      → has_request entry.request_id (db.logs w.db) ≡ true
      → db.count_request w.db entry.request_id ≡ o
      → (after_count float env db agent_id entry w o).1 ≡ w
  unfolding settle_new settled_log
  after_count-same agent_id entry w none h e = refl
  after_count-same agent_id entry w (some n) h e =
      rw (db.count_request_lem w.db entry.request_id n e ∙ h) refl

  settle-same :
      (agent_id : String) (entries : List (UsageLogEntry float.F Body)) (w : World db.State)
      → AreLogged entries w
      → (settle float env db agent_id entries w).1 ≡ w
  unfolding settle settle_one
  settle-same agent_id [] w h = refl
  settle-same agent_id (entry ∷ entries) w h =
      let same =
        after_count-same agent_id entry w (db.count_request w.db entry.request_id) h.0 refl in
      ap (λ x. (settle float env db agent_id entries x).1) same ∙ settle-same agent_id entries w h.1

  failed-cons :
      (fine : Bool) (failed : List String) (id : String)
      → (if fine then failed else id ∷ failed) ≡ []
      → (fine ≡ true) × (failed ≡ [])
  failed-cons true failed id h = (refl, h)
  failed-cons false failed id h = absurd (cc)

  settle-AreLogged :
      (agent_id : String) (entries : List (UsageLogEntry float.F Body)) (w : World db.State)
      → (settle float env db agent_id entries w).0 ≡ []
      → AreLogged entries (settle float env db agent_id entries w).1
  unfolding settle settled_log build_log
  settle-AreLogged agent_id [] w h = tt
  settle-AreLogged agent_id (entry ∷ entries) w h =
      let one = settle_one float env db agent_id entry w in
      let rest = settle float env db agent_id entries one.1 in
      let parts = failed-cons one.0 rest.0 entry.request_id h in
      (
        settle-keeps agent_id entries one.1 entry.request_id
            ((settle_one-Settles float db env agent_id entry w).1 parts.0),
        settle-AreLogged agent_id entries one.1 parts.1,
      )

  -- A report that was settled without an error and arrives again changes nothing: no log, no quota,
  -- no aggregate and no event, whatever the agent it comes from.
  pub settle-settle :
      (agent_id other_id : String) (entries : List (UsageLogEntry float.F Body))
      (w : World db.State)
      → (settle float env db agent_id entries w).0 ≡ []
      → (settle float env db other_id entries (settle float env db agent_id entries w).1).1
        ≡ (settle float env db agent_id entries w).1
  settle-settle agent_id other_id entries w h =
      settle-same other_id entries (settle float env db agent_id entries w).1
        (settle-AreLogged agent_id entries w h)
