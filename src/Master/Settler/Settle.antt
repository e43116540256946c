-- ===== src/Master/Settler/Settle.antt =====
-- internal/master/billing/settler.go: `Settle` and `settleOne`, with the transaction and what comes
-- behind its commit.
use vaala_ai_gateway.Prelude.{
  ℕ, Bool, true, false, not, String, str_eq, List, [], ◌∷◌, Option, none, some, ◌⊎◌, inl, inr, ltb,
  ◌==◌, if◌then◌else◌,
}
use vaala_ai_gateway.Master.Billing.{UsageLog, is_positive}
use vaala_ai_gateway.Master.Settler.{Float64, Trace, UsageLogEntry}
use vaala_ai_gateway.Master.Settler.Store.{
  StoredLog, InsertError, is_duplicate_request_id_error, LogDatabase,
}
use vaala_ai_gateway.Master.Settler.Log.{Env, settled_log}

-- `< 0` of a signed word.
abbrev pub is_negative : ℕ → Bool
is_negative n = not (ltb n 9223372036854775808)

-- The database, the logs that were handed to the aggregator and the users whose quota was published
-- as depleted, the latest first.
pub record World (S : Type 0) : Type 0 where
  pub db : S
  pub submitted : List UsageLog
  pub depleted : List ℕ

abbrev pub number_trace : {Body : Type 0} → String → Trace Body → Trace Body
number_trace id t = record t { request_id = id; attempt_index = 0 }

module _ (float : Float64) {Body : Type 0} (env : Env float.F Body)
    (db : LogDatabase float.F Body) where
  abbrev pub after_trace : db.State → Bool → Option db.State → db.State × Bool
  after_trace s wrote none = (s, wrote)
  after_trace s wrote (some s') = (s', true)

  -- The loop over `AttemptTraces`, and whether one was written.
  unfoldable pub write_attempts : String → List (Trace Body) → db.State → Bool → db.State × Bool
  write_attempts id [] s wrote = (s, wrote)
  write_attempts id (t ∷ traces) s wrote =
      let step = after_trace s wrote (db.insert_trace s (record t { request_id = id })) in
      write_attempts id traces step.0 step.1

  abbrev pub mark_if : String → db.State × Bool → db.State
  mark_if id (s, wrote) = if wrote then db.mark_traced s id else s

  abbrev pub write_legacy : String → db.State → Option (Trace Body) → db.State
  write_legacy id s none = s
  write_legacy id s (some t) =
      mark_if id (after_trace s false (db.insert_trace s (number_trace id t)))

  unfoldable pub write_traces : UsageLogEntry float.F Body → List (Trace Body) → db.State → db.State
  unfolding write_attempts
  write_traces entry [] s =
      if str_eq entry.trace_data ""
      then s
      else write_legacy entry.request_id s (env.unmarshal_trace entry.trace_data)
  write_traces entry (t ∷ traces) s =
      mark_if entry.request_id (write_attempts entry.request_id (t ∷ traces) s false)

  abbrev pub with_quota : db.State → Option ℕ → Option (ℕ × db.State)
  with_quota s none = none
  with_quota s (some q) = some (q, s)

  abbrev pub after_update : ℕ → Option db.State → Option (ℕ × db.State)
  after_update u none = none
  after_update u (some s) = with_quota s (db.select_quota s u)

  unfoldable pub deduct_quota : db.State → ℕ → ℕ → Option (ℕ × db.State)
  deduct_quota s u amount = after_update u (db.update_quota s u amount)

  -- The result of the transaction's function: `inserted`, `depleted` and the state. `none` is an
  -- error.
  abbrev pub after_deduct : Option (ℕ × db.State) → Option (Bool × Bool × db.State)
  after_deduct none = none
  after_deduct (some (remaining, s)) = some (true, is_negative remaining, s)

  abbrev pub charge_user : ℕ → ℕ → db.State → Option (Bool × Bool × db.State)
  unfolding deduct_quota
  charge_user u total s =
      if u == 0
      then some (true, false, s)
      else if is_positive total
      then after_deduct (deduct_quota s u total)
      else some (true, false, s)

  abbrev pub after_create :
      UsageLogEntry float.F Body
      → ℕ
      → db.State
      → InsertError ⊎ db.State
      → Option (Bool × Bool × db.State)
  unfolding write_traces deduct_quota is_duplicate_request_id_error
  after_create entry total s (inl e) =
      if is_duplicate_request_id_error e then some (false, false, s) else none
  after_create entry total s (inr s') =
      charge_user entry.user_id total (write_traces entry entry.attempt_traces s')

  -- `RunInTx`: an error or a failed commit leaves the database as it was.
  abbrev pub commit : Option (Bool × Bool × db.State) → Option (Bool × Bool × db.State)
  commit none = none
  commit (some (inserted, depleted, s)) =
      if db.commits s then some (inserted, depleted, s) else none

  abbrev pub publish :
      ℕ
      → StoredLog float.F
      → World db.State
      → Option (Bool × Bool × db.State)
      → Bool × World db.State
  publish u log w none = (false, w)
  publish u log w (some (inserted, depleted, s)) = (
    true,
    record {
      db = s;
      submitted = if inserted then log.counted ∷ w.submitted else w.submitted;
      depleted = if depleted then u ∷ w.depleted else w.depleted;
    },
  )

  unfoldable pub settle_new :
      UsageLogEntry float.F Body → StoredLog float.F → World db.State → Bool × World db.State
  unfolding write_traces deduct_quota is_duplicate_request_id_error
  settle_new entry log w =
      publish entry.user_id log w
        (commit (after_create entry log.counted.total_cost w.db (db.insert_log w.db log)))

  abbrev pub after_count :
      String → UsageLogEntry float.F Body → World db.State → Option ℕ → Bool × World db.State
  unfolding settle_new settled_log
  after_count agent_id entry w none = (false, w)
  after_count agent_id entry w (some n) =
      if ltb 0 n then (true, w) else settle_new entry (settled_log float env agent_id entry) w

  -- Whether it ends without an error.
  unfoldable pub settle_one :
      String → UsageLogEntry float.F Body → World db.State → Bool × World db.State
  unfolding settle_new settled_log
  settle_one agent_id entry w =
      after_count agent_id entry w (db.count_request w.db entry.request_id)

  -- The identifiers of the entries whose settlement failed, and the world.
  unfoldable pub settle :
      String → List (UsageLogEntry float.F Body) → World db.State → List String × World db.State
  unfolding settle_one
  settle agent_id [] w = ([], w)
  settle agent_id (entry ∷ entries) w =
      let (fine, w') = settle_one agent_id entry w in
      let (failed, w'') = settle agent_id entries w' in
      (if fine then failed else entry.request_id ∷ failed, w'')
