-- ===== src/Master/RebuildRunner/Ends.antt =====
-- internal/master/billing/rebuild_runner.go: how a job ends.
use vaala_ai_gateway.Prelude.{
  if_true, if_false, ℕ, zero, suc, ◌+◌, ◌*◌, ◌<◌, ◌≡◌, refl, sym, ap, subst, ◌∙◌, ◌⊎◌, inl, inr,
  Bool, true, false, String, List, [], ◌∷◌, Option, none, some, arith, Bool-cases, ◌==◌, length,
}
use vaala_ai_gateway.Master.RebuildRunner.{
  running, succeeded, failed, canceled, RebuildJob, SliceFn, Progress, after_slice, run_hour,
  run_hours, run_days, finish, run, new_job,
}

module _ {S : Type 0} (fn : SliceFn S) where
  -- All slices of the hours of dates, one on what the other left, with the number of logs. `none`
  -- where one of them fails.
  abbrev pub slice_on : ℕ → ℕ → Option (S × ℕ) → Option (S × ℕ)
  slice_on date hour none = none
  slice_on date hour (some (s, replayed)) = elim (fn date hour (hour == 0) s) [
    | inl message ↦ none
    | inr y ↦ some (y.1, replayed + y.0)
  ]

  unfoldable pub all_hours : ℕ → ℕ → Option (S × ℕ) → Option (S × ℕ)
  all_hours date zero o = o
  all_hours date (suc hours) o = slice_on date hours (all_hours date hours o)

  unfoldable pub all_days : List ℕ → Option (S × ℕ) → Option (S × ℕ)
  unfolding all_hours
  all_days [] o = o
  all_days (date ∷ dates) o = all_days dates (all_hours date 24 o)

  -- A job that still runs, with all that it was to do so far done.
  record Going (p : Progress S) (done : ℕ) (o : Option (S × ℕ)) : Type 0 where
    not_returned : p.returned ≡ false
    status : p.job.status ≡ running
    done_slices : p.job.done_slices ≡ done
    so_far : o ≡ some (p.contents, p.job.replayed_logs)

  -- A job that has returned before the end.
  record Stopped (p : Progress S) (done : ℕ) : Type 0 where
    has_returned : p.returned ≡ true
    status : (p.job.status ≡ failed) ⊎ (p.job.status ≡ canceled)
    fewer : p.job.done_slices < done

  abbrev State : Progress S → ℕ → Option (S × ℕ) → Type 0
  State p done o = Going p done o ⊎ Stopped p done

  module _ (is_canceled : ℕ → ℕ → Bool) (now : ℕ) where
    -- What follows on the answer of the slice.
    after_slice_lem :
        (date hour : ℕ) (p : Progress S) (done : ℕ) (o : Option (S × ℕ))
        → Going p done o
        → (answer : String ⊎ (ℕ × S)) → fn date hour (hour == 0) p.contents ≡ answer
        → State (after_slice fn is_canceled now p answer) (done + 1) (slice_on date hour o)
    after_slice_lem date hour p done o g (inl message) e =
        inr
          (record { has_returned = refl; status = inl refl; fewer = omega (arith, g.done_slices) })
    after_slice_lem date hour p done o g (inr y) e = inl (record {
      not_returned = g.not_returned;
      status = g.status;
      done_slices = omega (arith, g.done_slices);
      so_far = ap (slice_on date hour) g.so_far ∙ rw (e, slice_on) refl;
    })

    run_hour_lem :
        (date hour : ℕ) (p : Progress S) (done : ℕ) (o : Option (S × ℕ))
        → State p done o
        → State (run_hour fn is_canceled now date hour p) (done + 1) (slice_on date hour o)
    unfolding run_hour
    run_hour_lem date hour p done o (inr st) =
        subst (λ q. State q (done + 1) (slice_on date hour o))
          (sym (if_true p.returned p _ st.has_returned))
          (inr (record {
            has_returned = st.has_returned;
            status = st.status;
            fewer = omega (arith, st.fewer);
          }))
    run_hour_lem date hour p done o (inl g) =
        subst (λ q. State q (done + 1) (slice_on date hour o))
          (sym (if_false p.returned p _ g.not_returned))
          (elim (Bool-cases (is_canceled date hour)) [
            | inl c ↦ rw c (
                inr (record {
                  has_returned = refl;
                  status = inr (rw g.status refl);
                  fewer = rw g.status (omega (arith, g.done_slices));
                }))
            | inr c ↦ rw c (after_slice_lem date hour p done o g _ refl)
          ])

    run_hours_lem :
        (date hours : ℕ) (p : Progress S) (done : ℕ) (o : Option (S × ℕ))
        → State p done o
        → State (run_hours fn is_canceled now date hours p) (done + hours) (all_hours date hours o)
    unfolding run_hours all_hours
    run_hours_lem date zero p done o h = subst (λ n. State p n o) (omega arith) h
    run_hours_lem date (suc hours) p done o h =
        let before = run_hours fn is_canceled now date hours p in
        subst
          (λ n.
            State (run_hour fn is_canceled now date hours before) n
              (slice_on date hours (all_hours date hours o)))
          (omega arith)
          (run_hour_lem date hours before (done + hours) (all_hours date hours o)
            (run_hours_lem date hours p done o h))

    run_days_lem :
        (dates : List ℕ) (p : Progress S) (done : ℕ) (o : Option (S × ℕ))
        → State p done o
        → State (run_days fn is_canceled now dates p) (done + length dates * 24) (all_days dates o)
    unfolding run_days all_days
    run_days_lem [] p done o h = subst (λ n. State p n o) (omega arith) h
    run_days_lem (date ∷ dates) p done o h =
        subst
          (λ n.
            State (run_days fn is_canceled now dates (run_hours fn is_canceled now date 24 p)) n
              (all_days dates (all_hours date 24 o)))
          (omega arith)
          (run_days_lem dates (run_hours fn is_canceled now date 24 p) (done + 24)
            (all_hours date 24 o) (run_hours_lem date 24 p done o h))

  -- A job that succeeded has run every slice.
  pub record Complete (dates : List ℕ) (s : S) (job : RebuildJob) (s' : S) : Type 0 where
    pub status : job.status ≡ succeeded
    pub done : job.done_slices ≡ length dates * 24
    pub total : all_days dates (some (s, 0)) ≡ some (s', job.replayed_logs)

  -- A job that did not has run fewer.
  pub record Incomplete (dates : List ℕ) (job : RebuildJob) : Type 0 where
    pub status : (job.status ≡ failed) ⊎ (job.status ≡ canceled)
    pub done : job.done_slices < length dates * 24

  -- The run of a new job ends: it has succeeded, and then each slice of each date ran on what the
  -- one before left, the counters count the slices and the logs, and the contents are those of the
  -- last; or it has failed or is canceled with slices left. This holds whenever it is canceled and
  -- whatever a slice returns.
  pub run_lem :
      (parse : String → Option ℕ) (is_canceled : ℕ → ℕ → Bool) (now started : ℕ) (dates : List ℕ)
      (s : S)
      → Complete dates s
          (run fn is_canceled now (new_job parse started dates) dates s).0
          (run fn is_canceled now (new_job parse started dates) dates s).1
        ⊎ Incomplete dates (run fn is_canceled now (new_job parse started dates) dates s).0
  unfolding run
  run_lem parse is_canceled now started dates s = end (run_days fn is_canceled now dates start) (
      run_days_lem is_canceled now dates start 0 (some (s, 0))
        (inl (record { not_returned = refl; status = refl; done_slices = refl; so_far = refl })))
    where
      start : Progress S
      start = record { job = new_job parse started dates; contents = s; returned = false }

      end :
          (p : Progress S)
          → State p (0 + length dates * 24) (all_days dates (some (s, 0)))
          → Complete dates s (finish fn is_canceled now p).0 (finish fn is_canceled now p).1
            ⊎ Incomplete dates (finish fn is_canceled now p).0
      end p (inl g) =
          subst (λ (r : RebuildJob × S). Complete dates s r.0 r.1 ⊎ Incomplete dates r.0)
            (sym (if_false p.returned _ _ g.not_returned))
            (inl (record { status = refl; done = omega (arith, g.done_slices); total = g.so_far }))
      end p (inr st) =
          subst (λ (r : RebuildJob × S). Complete dates s r.0 r.1 ⊎ Incomplete dates r.0)
            (sym (if_true p.returned _ _ st.has_returned))
            (inr (record { status = st.status; done = omega (arith, st.fewer) }))
