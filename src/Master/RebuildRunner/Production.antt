-- ===== src/Master/RebuildRunner/Production.antt =====
-- internal/master/billing/rebuild_runner.go over internal/dao/billing.go: a job of one day with the
-- slices of production.
use vaala_ai_gateway.Prelude.{
  ℕ, zero, suc, ◌<◌, ◌≡◌, ap, ◌∙◌, inl, inr, Bool, String, List, [], ◌∷◌, Option, none, some,
  Option-cases, ◌==◌, length, ◌⊎◌,
}
use vaala_ai_gateway.Master.Billing.{UsageLog, Clock}
use vaala_ai_gateway.Master.Billing.Rollup.{Database}
use vaala_ai_gateway.Master.Billing.Wiring.{Contents}
use vaala_ai_gateway.Master.Billing.Rebuild.{
  Targets, resolve_rebuild_targets, rebuild_hour_slice, rebuild_hours, rebuild_daily_rollups,
}
use vaala_ai_gateway.Master.Billing.Rebuilt.{of_hour}
use vaala_ai_gateway.Master.Billing.Renewed.{SameDay, rebuild_hours-SameDay}
use vaala_ai_gateway.Master.RebuildRunner.{SliceFn, succeeded, run, new_job}
use vaala_ai_gateway.Master.RebuildRunner.Ends.{all_hours, all_days, slice_on, run_lem}

module _ (db : Database) (clock : Clock) (logs : List UsageLog) where
  -- `dao.RebuildHourSlice` of the job's targets, with the number of logs that it replayed.
  abbrev pub slice_result : ℕ → ℕ → Option (Contents db) → String ⊎ (ℕ × Contents db)
  slice_result date hour none = inl "slice failed"
  slice_result date hour (some s) = inr (length (of_hour db clock logs date hour), s)

  abbrev pub target_slice : Option Targets → ℕ → ℕ → Bool → Contents db → String ⊎ (ℕ × Contents db)
  unfolding rebuild_hour_slice
  target_slice none date hour reset s = inl "invalid rebuild target"
  target_slice (some targets) date hour reset s =
      slice_result date hour (rebuild_hour_slice db clock logs date hour targets reset s)

  unfoldable pub production_slice : List String → SliceFn (Contents db)
  unfolding rebuild_hour_slice resolve_rebuild_targets
  production_slice names date hour reset s =
      target_slice (resolve_rebuild_targets names) date hour reset s

  module _ (names : List String) (targets : Targets)
      (resolved : resolve_rebuild_targets names ≡ some targets) where
    slice_on-production :
        (date hour : ℕ) (s : Contents db) (n m : ℕ) (s' : Contents db)
        → slice_on (production_slice names) date hour (some (s, n)) ≡ some (s', m)
        → rebuild_hour_slice db clock logs date hour targets (hour == 0) s ≡ some s'
    unfolding production_slice
    slice_on-production date hour s n m s' h =
        let h0 = rw (resolved, slice_on) at h in
        elim (Option-cases (rebuild_hour_slice db clock logs date hour targets (hour == 0) s)) [
          | inl bad ↦ let h' = rw (bad, slice_on) at h0 in absurd (cc)
          | inr (s1, ran) ↦
              let h' = rw (ran, slice_on) at h0 in let q : s1 ≡ s' = cc in ran ∙ ap (λ x. some x) q
        ]

    all_hours-production :
        (date hours : ℕ) (s : Contents db) (m : ℕ) (s' : Contents db)
        → all_hours (production_slice names) date hours (some (s, 0)) ≡ some (s', m)
        → rebuild_hours db clock logs date targets hours s ≡ some s'
    unfolding all_hours rebuild_hours
    all_hours-production date zero s m s' h = let q : s ≡ s' = cc in ap (λ x. some x) q
    all_hours-production date (suc hours) s m s' h =
        elim (Option-cases (all_hours (production_slice names) date hours (some (s, 0)))) [
          | inl bad ↦ let h' = rw (bad, slice_on) at h in absurd (cc)
          | inr ((s1, n), ran) ↦
              let h' = rw ran at h in
              rw (all_hours-production date hours s n s1 ran, rebuild_hours)
                (slice_on-production date hours s1 n m s' h')
        ]

    -- When a job of one day has succeeded for targets that are valid, and `RebuildDailyRollups` of the
    -- day and the targets succeeds on any tables, the rows of the day have the same counters and last
    -- use in each target. The other days' rows, but for `created_at`, and the tables that are no
    -- targets are as before the job. The rows of
    -- the hourly table are those of the 24 hours, and the day is behind 1970-01-01, with a number below 10^14.
    pub run-SameDay :
        (parse : String → Option ℕ) (is_canceled : ℕ → ℕ → Bool) (now started date : ℕ)
        (after_epoch : 0 < date) (small : date < 100000000000000) (s r r' : Contents db)
        → (run
            (production_slice names)
            is_canceled
            now
            (new_job parse started (date ∷ []))
            (date ∷ [])
            s).0.status
          ≡ succeeded
        → rebuild_daily_rollups db clock logs (some date) (some date) targets r ≡ some r'
        → SameDay db clock logs date after_epoch small targets s
            (run
              (production_slice names)
              is_canceled
              now
              (new_job parse started (date ∷ []))
              (date ∷ [])
              s).1
            r'
    unfolding all_days
    run-SameDay parse is_canceled now started date after_epoch small s r r' done rolled_up =
        elim (run_lem (production_slice names) parse is_canceled now started (date ∷ []) s) [
          | inl c ↦
              rebuild_hours-SameDay db clock logs date after_epoch small targets s _ r r'
                (all_hours-production date 24 s _ _ c.total) rolled_up
          | inr i ↦ elim i.status [ inl e ↦ absurd (cc) | inr e ↦ absurd (cc) ]
        ]
