-- ===== src/Tests/Rebuild.antt =====
-- A job that rebuilds a day, at concrete inputs.
use vaala_ai_gateway.Prelude.{
  ℕ, ◌+◌, ◌≡◌, ◌⊎◌, refl, inl, inr, Bool, true, false, String, List, [], ◌∷◌, Option, some, arith,
  ◌==◌, if◌then◌else◌,
}
use vaala_ai_gateway.Master.Billing.Rollup.{
  upsert_token_daily, upsert_channel_daily, upsert_hourly_bucket,
}
use vaala_ai_gateway.Master.Billing.Renewed.{SameDay}
use vaala_ai_gateway.Master.Billing.Wiring.{Contents}
use vaala_ai_gateway.Master.Billing.Rebuild.{
  Targets, resolve_rebuild_targets, rebuild_daily_rollups,
}
use vaala_ai_gateway.Master.RebuildRunner.{SliceFn, RebuildJob, succeeded, run, new_job}
use vaala_ai_gateway.Master.RebuildRunner.Ends.{Complete, Incomplete, run_lem}
use vaala_ai_gateway.Master.RebuildRunner.Production.{production_slice, run-SameDay}
use vaala_ai_gateway.Tests.Billing.{db, clock, no_rows, add_direct, or_same, day, day_logs}

abbrev parse : String → Option ℕ
parse text = some 7

abbrev never : ℕ → ℕ → Bool
never date hour = false

-- The slices count up and fail at hour 5 of day 2.
abbrev counting_slice : SliceFn ℕ
counting_slice date hour reset s =
    if date == 2 then (if hour == 5 then inl "down" else inr (1, s + 1)) else inr (1, s + 1)

one_day : (run counting_slice never 9 (new_job parse 0 (1 ∷ [])) (1 ∷ []) 0).1 ≡ 24
unfolding run
one_day = refl

two_days :
    (run counting_slice never 9 (new_job parse 0 (1 ∷ 2 ∷ [])) (1 ∷ 2 ∷ []) 0).0.done_slices ≡ 29
unfolding run
two_days = refl

run_lem_example :
    Complete counting_slice
      (1 ∷ 2 ∷ [])
      0
      (run counting_slice never 9 (new_job parse 0 (1 ∷ 2 ∷ [])) (1 ∷ 2 ∷ []) 0).0
      (run counting_slice never 9 (new_job parse 0 (1 ∷ 2 ∷ [])) (1 ∷ 2 ∷ []) 0).1
    ⊎ Incomplete counting_slice
        (1 ∷ 2 ∷ [])
        (run counting_slice never 9 (new_job parse 0 (1 ∷ 2 ∷ [])) (1 ∷ 2 ∷ []) 0).0
run_lem_example = run_lem counting_slice parse never 9 0 (1 ∷ 2 ∷ []) 0

-- A job for two of the tables.
abbrev two_names : List String
two_names = "token_daily" ∷ "hourly_bucket" ∷ []

abbrev two_targets : Targets
two_targets = record { token_daily = true; channel_daily = false; hourly_bucket = true }

two_resolved : resolve_rebuild_targets two_names ≡ some two_targets
unfolding resolve_rebuild_targets
two_resolved = refl

abbrev two_job : RebuildJob × Contents db
two_job =
    run (production_slice db clock day_logs two_names) never 9 (new_job parse 0 (day ∷ []))
      (day ∷ []) (add_direct (add_direct no_rows))

day_succeeds : two_job.0.status ≡ succeeded
unfolding run production_slice upsert_token_daily upsert_channel_daily upsert_hourly_bucket
day_succeeds = refl

abbrev two_at_once : Contents db
two_at_once =
    or_same no_rows
      (rebuild_daily_rollups db clock day_logs (some day) (some day) two_targets no_rows)

two_at_once_runs :
    rebuild_daily_rollups db clock day_logs (some day) (some day) two_targets no_rows
    ≡ some two_at_once
unfolding rebuild_daily_rollups upsert_token_daily upsert_channel_daily upsert_hourly_bucket
two_at_once_runs = refl

run-SameDay_example :
    SameDay db clock day_logs day
      (omega arith)
      (omega arith)
      two_targets
      (add_direct (add_direct no_rows))
      two_job.1
      two_at_once
run-SameDay_example =
    run-SameDay db clock day_logs two_names two_targets two_resolved parse never 9 0 day
      (omega arith) (omega arith) (add_direct (add_direct no_rows)) no_rows two_at_once day_succeeds
      two_at_once_runs
