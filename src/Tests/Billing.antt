-- ===== src/Tests/Billing.antt =====
-- The aggregator and its tables at concrete inputs.
use vaala_ai_gateway.Prelude.{
  ℕ, ◌+◌, ◌-◌, ◌≡◌, ◌≢◌, ◌⊎◌, refl, sym, ap, ◌∙◌, inl, inr, Bool, true, List, [], ◌∷◌, Option, none,
  some, arith, Bool-cases, if◌then◌else◌,
}
use vaala_ai_gateway.Utils.SyncMap.{Comparable, load, put, load-put}
use vaala_ai_gateway.Master.Billing.{
  UsageLog, Clock, token_key_comparable, channel_key_comparable, hourly_key_comparable,
}
use vaala_ai_gateway.Master.Billing.Rollup.{
  Table, Database, upsert_token_daily, upsert_channel_daily, upsert_hourly_bucket,
}
use vaala_ai_gateway.Master.Billing.Aggregator.{
  Aggregator, FlushFns, new_aggregator, submit, flush, row_count,
}
use vaala_ai_gateway.Master.Billing.Wiring.{Contents, production_fns}
use vaala_ai_gateway.Master.Billing.Columns.{IsCountable}
use vaala_ai_gateway.Master.Billing.Refines.{Tracked, SameTables, flush-SameTables}
use vaala_ai_gateway.Master.Billing.Rebuild.{Targets, rebuild_hours, rebuild_daily_rollups}
use vaala_ai_gateway.Master.Billing.Renewed.{SameDay, rebuild_hours-SameDay}
use vaala_ai_gateway.Master.Billing.Flush.{Flushed, flush_lem}

module _ {K V : Type 0} ⦃e : Comparable K⦄ where
  abbrev pub delete_rows : (K → Bool) → List (K × V) → List (K × V)
  delete_rows p [] = []
  delete_rows p ((k, v) ∷ m) = if p k then delete_rows p m else (k, v) ∷ delete_rows p m

  load-delete_rows :
      (p : K → Bool) (m : List (K × V)) (j : K)
      → load (delete_rows p m) j ≡ (if p j then none else load m j)
  unfolding load
  load-delete_rows p [] j = ground arith
  load-delete_rows p ((k, v) ∷ m) j = elim (Bool-cases (e.eqb k j)) [
    | inl q ↦
        rw ((e.eqb_iff k j).0 q) (ground (arith, load-delete_rows p m j, (e.eqb_iff j j).1 refl))
    | inr q ↦ ground (arith, load-delete_rows p m j)
  ]

  abbrev pub update_row : List (K × V) → K → V → (V → V) → List (K × V)
  update_row s k v f = put s k (elim (load s k) [ none ↦ v | some old ↦ f old ])

  pub load-update_row :
      (s s' : List (K × V)) (k j : K) (v : V) (f : V → V)
      → some (update_row s k v f) ≡ some s'
      → load s' j
        ≡ (if e.eqb k j then some (elim (load s k) [ none ↦ v | some old ↦ f old ]) else load s j)
  load-update_row s s' k j v f h =
      let q : update_row s k v f ≡ s' = cc in ap (λ m. load m j) (sym q) ∙ load-put s k j _

  pub load-deleted :
      (p : K → Bool) (s s' : List (K × V)) (j : K)
      → some (delete_rows p s) ≡ some s'
      → load s' j ≡ (if p j then none else load s j)
  load-deleted p s s' j h =
      let q : delete_rows p s ≡ s' = cc in ap (λ m. load m j) (sym q) ∙ load-delete_rows p s j

  -- A table as a list of rows, whose statements do not fail.
  abbrev pub list_table : Table K V
  list_table = record {
    State = List (K × V);
    select = load;
    upsert = λ s k v f. some (update_row s k v f);
    delete_where = λ p s. some (delete_rows p s);
    select_upsert = load-update_row;
    select_delete = load-deleted;
  }

abbrev pub db : Database
db = record { token_daily = list_table; channel_daily = list_table; hourly_bucket = list_table }

abbrev pub no_rows : Contents db
no_rows = record { token_daily = []; channel_daily = []; hourly_bucket = [] }

abbrev pub log : UsageLog
log = record {
  user_id = 1;
  token_id = 2;
  channel_id = 3;
  private_channel_id = 0;
  owner_type = "";
  agent_id = "agent";
  model_name = "gpt";
  prompt_tokens = 10;
  completion_tokens = 20;
  cache_read_tokens = 0;
  cache_write_tokens = 0;
  input_cost = 100;
  output_cost = 200;
  total_cost = 300;
  is_stream = true;
  duration = 900;
  first_response_ms = 300;
  created_at = 1700000000;
  token_name = "key";
  channel_name = "main";
  channel_type = 1;
  status = 1;
  inbound_decode_ms = 1;
  outbound_encode_ms = 2;
  upstream_dispatch_ms = 3;
  upstream_decode_ms = 4;
  client_encode_ms = 5;
}

abbrev pub clock : Clock
clock = record { date_now = 0; now = 0 }

log-IsCountable : IsCountable log
log-IsCountable = record {
  moment = refl;
  prompt = omega arith;
  completion = omega arith;
  cache_read = omega arith;
  cache_write = omega arith;
  input = omega arith;
  output = omega arith;
  total = omega arith;
  first_response = omega arith;
  inbound = omega arith;
  dispatch = omega arith;
  upstream = omega arith;
  outbound = omega arith;
  client = omega arith;
}

abbrev pub or_same : {S : Type 0} → S → Option S → S
or_same s none = s
or_same s (some t) = t

-- The tables to which the log is added twice.
abbrev pub add_direct : Contents db → Contents db
add_direct t = record {
  token_daily = or_same t.token_daily (upsert_token_daily db clock log t.token_daily);
  channel_daily = or_same t.channel_daily (upsert_channel_daily db clock log t.channel_daily);
  hourly_bucket = or_same t.hourly_bucket (upsert_hourly_bucket db clock log t.hourly_bucket);
}

abbrev twice : Aggregator
twice = submit clock log (submit clock log (new_aggregator 0))

twice-Tracked : Tracked db twice no_rows (add_direct (add_direct no_rows))
unfolding upsert_token_daily upsert_channel_daily upsert_hourly_bucket
twice-Tracked =
    Tracked.submitted _ _ _ _ clock clock log
      (Tracked.submitted _ _ _ _ clock clock log (Tracked.started 0 no_rows) log-IsCountable refl
        refl refl)
      log-IsCountable refl refl refl

twice_flushed : (flush (production_fns db) twice no_rows).2 ≡ none
unfolding flush production_fns submit new_aggregator
twice_flushed = refl

flush-SameTables_example :
    SameTables db (flush (production_fns db) twice no_rows).1 (add_direct (add_direct no_rows))
flush-SameTables_example = flush-SameTables db twice no_rows _ twice-Tracked twice_flushed

-- The functions of the second and the third table fail.
abbrev failing : FlushFns ℕ
failing = record {
  tokens_fn = some (λ rows s. (s + 1, none));
  channels_fn = some (λ rows s. (s, some "down"));
  hourly_fn = some (λ rows s. (s + 1, some "full"));
}

-- The error of the second table, and not that of the third.
failing_first : (flush failing twice 0).2 ≡ some "down"
unfolding flush submit new_aggregator
failing_first = refl

flush_lem_example :
    ((row_count twice ≡ 0) × (flush failing twice 0 ≡ (twice, 0, none)))
    ⊎ ((row_count twice ≢ 0) × Flushed failing twice 0 (flush failing twice 0))
flush_lem_example = flush_lem failing twice 0

-- The day of the log, rebuilt where its rows are doubled. The second log is of the hour before.
abbrev pub day : ℕ
day = 19675

abbrev pub day_logs : List UsageLog
day_logs = log ∷ record log { created_at = log.created_at - 3600 } ∷ []

abbrev pub every_target : Targets
every_target = record { token_daily = true; channel_daily = true; hourly_bucket = true }

abbrev rebuilt : Contents db
rebuilt =
    or_same no_rows
      (rebuild_hours db clock day_logs day every_target 24 (add_direct (add_direct no_rows)))

rebuilt_runs :
    rebuild_hours db clock day_logs day every_target 24 (add_direct (add_direct no_rows))
    ≡ some rebuilt
unfolding rebuild_hours upsert_token_daily upsert_channel_daily upsert_hourly_bucket
rebuilt_runs = refl

abbrev pub at_once : Contents db
at_once =
    or_same no_rows
      (rebuild_daily_rollups db clock day_logs (some day) (some day) every_target no_rows)

pub at_once_runs :
    rebuild_daily_rollups db clock day_logs (some day) (some day) every_target no_rows
    ≡ some at_once
unfolding rebuild_daily_rollups upsert_token_daily upsert_channel_daily upsert_hourly_bucket
at_once_runs = refl

rebuild_hours-SameDay_example :
    SameDay db clock day_logs day
      (omega arith)
      (omega arith)
      every_target
      (add_direct (add_direct no_rows))
      rebuilt
      at_once
rebuild_hours-SameDay_example =
    rebuild_hours-SameDay db clock day_logs day (omega arith) (omega arith) every_target
      (add_direct (add_direct no_rows)) rebuilt no_rows at_once rebuilt_runs at_once_runs
