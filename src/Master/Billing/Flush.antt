-- ===== src/Master/Billing/Flush.antt =====
-- internal/master/billing/aggregator.go: the calls of a flush, its error, and what becomes of the
-- buffer.
use vaala_ai_gateway.Prelude.{
  ◌≡◌, ◌≢◌, refl, ◌⊎◌, inl, inr, String, List, [], ◌∷◌, Option, none, some, ◌==◌, ==_iff,
  Bool-cases,
}
use vaala_ai_gateway.Master.Billing.Aggregator.{
  Aggregator, FlushFns, row_count, call_fn, error_of_calls, flush,
}

-- A persist function is called once with its rows, if it is there.
pub data Called {S R : Type 0} (rows : R)
    : Option (R → S → S × Option String) → S → S → Option String → Type 0 where
  absent : {s : S} → Called rows none s s none
  called :
      (f : R → S → S × Option String) {s s' : S} {e : Option String}
      → f rows s ≡ (s', e)
      → Called rows (some f) s s' e

-- The first error of a list of answers.
pub data FirstError : List (Option String) → Option String → Type 0 where
  no_error : FirstError [] none
  at_head :
      (message : String) (more : List (Option String))
      → FirstError (some message ∷ more) (some message)
  behind :
      (more : List (Option String)) (e : Option String)
      → FirstError more e
      → FirstError (none ∷ more) e

Called-call_fn :
    {S R : Type 0} (f : Option (R → S → S × Option String)) (rows : R) (s : S)
    → Called rows f s (call_fn f rows s).0 (call_fn f rows s).1
Called-call_fn none rows s = absent
Called-call_fn (some f) rows s = called f refl

FirstError-error_of_calls :
    (x y z : Option String) → FirstError (x ∷ y ∷ z ∷ []) (error_of_calls x (error_of_calls y z))
FirstError-error_of_calls (some x) y z = at_head x _
FirstError-error_of_calls none (some y) z = behind _ _ (at_head y _)
FirstError-error_of_calls none none (some z) = behind _ _ (behind _ _ (at_head z _))
FirstError-error_of_calls none none none = behind _ _ (behind _ _ (behind _ _ no_error))

module _ {S : Type 0} (fns : FlushFns S) (a : Aggregator) (s : S) where
  -- The three tables in their order, each function on the state that the one before has left.
  pub record Flushed (result : Aggregator × S × Option String) : Type 0 where
    pub after_tokens : S
    pub after_channels : S
    pub tokens_answer : Option String
    pub channels_answer : Option String
    pub hourly_answer : Option String
    pub tokens_called : Called a.tokens fns.tokens_fn s after_tokens tokens_answer
    pub channels_called :
        Called a.channels fns.channels_fn after_tokens after_channels channels_answer
    pub hourly_called : Called a.hourly fns.hourly_fn after_channels result.1 hourly_answer
    pub first_error : FirstError (tokens_answer ∷ channels_answer ∷ hourly_answer ∷ []) result.2
    pub emptied : result.0 ≡ record a { tokens = []; channels = []; hourly = [] }

  -- A flush of an empty buffer calls nothing and returns no error. Any other calls each function that
  -- is there once, the later ones even if an earlier one has failed, returns the first error, and
  -- leaves the buffer empty in any case.
  pub flush_lem :
      ((row_count a ≡ 0) × (flush fns a s ≡ (a, s, none)))
      ⊎ ((row_count a ≢ 0) × Flushed (flush fns a s))
  unfolding flush
  flush_lem = elim (Bool-cases (row_count a == 0)) [
    | inl e ↦ rw e (inl ((==_iff (row_count a) 0).0 e, refl))
    | inr e ↦ rw e (
        inr (
          λ q. absurd (cc (e, (==_iff (row_count a) 0).1 q)),
          record {
            after_tokens = _;
            after_channels = _;
            tokens_answer = _;
            channels_answer = _;
            hourly_answer = _;
            tokens_called = Called-call_fn fns.tokens_fn a.tokens s;
            channels_called = Called-call_fn fns.channels_fn a.channels _;
            hourly_called = Called-call_fn fns.hourly_fn a.hourly _;
            first_error = FirstError-error_of_calls _ _ _;
            emptied = refl;
          },
        ))
  ]
