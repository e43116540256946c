-- ===== src/Master/RebuildRunner.antt =====
-- internal/master/billing/rebuild_runner.go: a job that rebuilds days slice by slice. A run is a
-- function of the answers of `ctx.Err()` before each slice and of the slices' results.
pub mod Ends
pub mod Production
use vaala_ai_gateway.Prelude.{
  ℕ, zero, suc, ◌+◌, ◌-◌, ◌*◌, Bool, true, false, not, ◌&&◌, ◌||◌, String, str_eq, List, [], ◌∷◌,
  Option, none, some, inl, inr, ◌⊎◌, ltb, ◌==◌, if◌then◌else◌, filter, length,
}
use Prim.Native.Nat.{Ordering}
use Prim.Native.String.{compare as compare_text}

pub data JobStatus : Type 0 where
  running : JobStatus
  succeeded : JobStatus
  failed : JobStatus
  canceled : JobStatus

abbrev pub is_running : JobStatus → Bool
is_running running = true
is_running succeeded = false
is_running failed = false
is_running canceled = false

pub record RebuildJob : Type 0 where
  pub status : JobStatus
  pub done_slices : ℕ
  pub total_slices : ℕ
  pub replayed_logs : ℕ
  pub started_at : ℕ
  pub finished_at : ℕ
  pub error : String

-- `start > end` on the texts of two dates.
abbrev pub text_gt : String → String → Bool
text_gt a b = elim (compare_text a b) [ Ordering.gt ↦ true | _ ↦ false ]

abbrev pub or_other : String → String → String
or_other a b = if str_eq a "" then b else a

-- `parse` is `time.Parse` of a date: the number of its day.
module _ (parse : String → Option ℕ) where
  abbrev pub check_order : String → String → Option (String × String)
  check_order start end = elim (parse start) [
    | none ↦ none
    | some s ↦ elim (parse end) [
      | none ↦ none
      | some e ↦ if text_gt start end then none else some (start, end)
    ]
  ]

  unfoldable pub runner_normalize_date_range : String → String → Option (String × String)
  runner_normalize_date_range start end =
      check_order (or_other start end) (or_other end (or_other start end))

  -- `count` days from `day` on.
  unfoldable pub days_from : ℕ → ℕ → List ℕ
  days_from zero day = []
  days_from (suc count) day = day ∷ days_from count (day + 1)

  unfoldable pub enumerate_days : String → String → Option (List ℕ)
  unfolding days_from
  enumerate_days start end = elim (parse start) [
    | none ↦ none
    | some s ↦ elim (parse end) [ none ↦ none | some e ↦ some (days_from (e + 1 - s) s) ]
  ]

  abbrev pub new_job : ℕ → List ℕ → RebuildJob
  new_job now days = record {
    status = running;
    done_slices = 0;
    total_slices = length days * 24;
    replayed_logs = 0;
    started_at = now;
    finished_at = 0;
    error = "";
  }

  -- The job that is registered, with the days that its goroutine gets. `none` is an error.
  unfoldable pub submit_job : ℕ → String → String → Option (RebuildJob × List ℕ)
  unfolding runner_normalize_date_range enumerate_days
  submit_job now start end =
      if str_eq start "" && str_eq end ""
      then none
      else elim (runner_normalize_date_range start end) [
        | none ↦ none
        | some (s, e) ↦ elim (enumerate_days s e) [
          | none ↦ none
          | some days ↦ some (new_job now days, days)
        ]
      ]

-- A slice of a date and an hour, with its reset: an error leaves the contents alone.
abbrev pub SliceFn : Type 0 → Type 0
SliceFn S = ℕ → ℕ → Bool → S → String ⊎ (ℕ × S)

-- The job and the contents inside the loops of `run`, and whether it has returned.
pub record Progress (S : Type 0) : Type 0 where
  pub job : RebuildJob
  pub contents : S
  pub returned : Bool

module _ {S : Type 0} (fn : SliceFn S) (is_canceled : ℕ → ℕ → Bool) (now : ℕ) where
  abbrev pub cancel_job : RebuildJob → RebuildJob
  cancel_job job =
      if is_running job.status then record job { status = canceled; finished_at = now } else job

  abbrev pub after_slice : Progress S → String ⊎ (ℕ × S) → Progress S
  after_slice p (inl message) = record p {
    job = record p.job { status = failed; error = message; finished_at = now };
    returned = true;
  }
  after_slice p (inr (replayed, contents)) = record p {
    job = record p.job {
      done_slices = p.job.done_slices + 1;
      replayed_logs = p.job.replayed_logs + replayed;
    };
    contents = contents;
  }

  unfoldable pub run_hour : ℕ → ℕ → Progress S → Progress S
  run_hour date hour p =
      if p.returned
      then p
      else if is_canceled date hour
      then record p { job = cancel_job p.job; returned = true }
      else after_slice p (fn date hour (hour == 0) p.contents)

  -- `for h := 0; h < hours; h++`
  unfoldable pub run_hours : ℕ → ℕ → Progress S → Progress S
  unfolding run_hour
  run_hours date zero p = p
  run_hours date (suc hours) p = run_hour date hours (run_hours date hours p)

  unfoldable pub run_days : List ℕ → Progress S → Progress S
  unfolding run_hours
  run_days [] p = p
  run_days (date ∷ dates) p = run_days dates (run_hours date 24 p)

  abbrev pub finish : Progress S → RebuildJob × S
  finish p =
      if p.returned
      then (p.job, p.contents)
      else (record p.job { status = succeeded; finished_at = now }, p.contents)

  unfoldable pub run : RebuildJob → List ℕ → S → RebuildJob × S
  unfolding run_days
  run job days s = finish (run_days days (record { job = job; contents = s; returned = false }))

-- `gc`: the jobs that stay.
abbrev pub is_kept : ℕ → ℕ → RebuildJob → Bool
is_kept now retain job =
    is_running job.status || not (ltb 0 job.finished_at && ltb retain (now - job.finished_at))

unfoldable pub gc : ℕ → ℕ → List (String × RebuildJob) → List (String × RebuildJob)
gc now retain jobs = filter (λ entry. is_kept now retain entry.1) jobs
