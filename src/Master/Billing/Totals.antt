-- ===== src/Master/Billing/Totals.antt =====
-- internal/dao/billing.go: one table of a day that is rebuilt hour by hour against one that is rebuilt
-- at once.
use vaala_ai_gateway.Prelude.{
  ℕ, ◌+◌, ◌*◌, ◌≡◌, refl, sym, ap, ◌∙◌, Bool, true, false, ◌&&◌, List, Option, none, some, ltb, leb,
  filter,
}
use vaala_ai_gateway.Utils.SyncMap.{Comparable}
use vaala_ai_gateway.Master.Billing.{
  UsageLog, token_key_comparable, channel_key_comparable, hourly_key_comparable,
}
use vaala_ai_gateway.Master.Billing.Rollup.{Row, Table, Database}
use vaala_ai_gateway.Master.Billing.Aggregator.{Delta}
use vaala_ai_gateway.Master.Billing.Rebuild.{on_table, created_from, created_to}
use vaala_ai_gateway.Master.Billing.Merge
use vaala_ai_gateway.Master.Billing.Slices
use vaala_ai_gateway.Master.Billing.Slices.{up_to, delta_of, replay}
use vaala_ai_gateway.Master.Billing.Split

-- The columns of a row but `created_at`.
abbrev pub columns_of : {D M : Type 0} → Option (Row D M) → Option (Delta D M)
columns_of none = none
columns_of (some r) = some (delta_of r)

-- The columns that are added up, and the last use.
abbrev pub totals_of : {D M : Type 0} → Option (Row D M) → Option (M × ℕ)
totals_of none = none
totals_of (some r) = some (r.counters, r.last_used_at)

pub on_target :
    {S : Type 0} (db : Database) (b : Bool) (f : S → Option S) (s s' : S)
    → b ≡ true
    → on_table db b f s ≡ some s'
    → f s ≡ some s'
on_target db true f s s' e h = h
on_target db false f s s' e h = absurd (cc)

pub off_target :
    {S : Type 0} (db : Database) (b : Bool) (f : S → Option S) (s s' : S)
    → b ≡ false
    → on_table db b f s ≡ some s'
    → s' ≡ s
off_target db true f s s' e h = absurd (cc)
off_target db false f s s' e h = cc

-- One table of a day, with the rows as totals.
module _ (db : Database) (K D M : Type 0) ⦃e : Comparable K⦄ (plus : M → M → M)
    (assoc : (a b c : M) → plus (plus a b) c ≡ plus a (plus b c))
    (comm : (a b : M) → plus a b ≡ plus b a) (table : Table K (Row D M)) (key : UsageLog → K)
    (one : UsageLog → Delta D M) (up : UsageLog → table.State → Option table.State)
    (up_lem : (log : UsageLog) (s s' : table.State) (j : K)
      → up log s ≡ some s'
      → Slices.shown K D M plus assoc table s' j
        ≡ Slices.merged K D M plus assoc table
            (Slices.shown K D M plus assoc table s j)
            (Slices.added K D M plus assoc table key one log j)) where
  shown-columns_of : (o : Option (Row D M)) → Merge.shown D M plus assoc o ≡ columns_of o
  shown-columns_of none = refl
  shown-columns_of (some r) = refl

  totals-totals_of :
      (o : Option (Row D M))
      → Split.totals K D M plus assoc comm table (Merge.shown D M plus assoc o) ≡ totals_of o
  totals-totals_of none = refl
  totals-totals_of (some r) = refl

  -- A replay after a deletion of the row.
  replayed :
      (p : K → Bool) (logs : List UsageLog) (r r1 r' : table.State) (j : K)
      → p j ≡ true
      → table.delete_where p r ≡ some r1
      → replay K D M plus assoc table up logs r1 ≡ some r'
      → Slices.shown K D M plus assoc table r' j
        ≡ Slices.total K D M plus assoc table key one logs j
  replayed p logs r r1 r' j here cleared ran =
      let gone = table.select_delete p r r1 j cleared in
      let gone' = rw here at gone in
      Slices.replay_lem K D M plus assoc table key one up up_lem logs r1 r' j ran
      ∙ ap
          (λ o.
            Slices.merged K D M plus assoc table (Merge.shown D M plus assoc o)
              (Slices.total K D M plus assoc table key one logs j))
          gone'

  -- The row has the same totals with its logs hour by hour as with those of the day at once.
  pub same_totals :
      (p : K → Bool) (date : ℕ) (logs : List UsageLog) (s' r r1 r' : table.State) (j : K)
      → p j ≡ true
      → Slices.shown K D M plus assoc table s' j
        ≡ Slices.total K D M plus assoc table key one
            (up_to
              (λ h.
                filter
                  (λ log.
                    leb (date * 86400 + h * 3600) log.created_at
                    && ltb log.created_at (date * 86400 + h * 3600 + 3600))
                  logs)
              24)
            j
      → table.delete_where p r ≡ some r1
      → replay K D M plus assoc table up
          (filter (λ log. created_from db (some date) log && created_to db (some date) log) logs)
          r1
        ≡ some r'
      → totals_of (table.select s' j) ≡ totals_of (table.select r' j)
  same_totals p date logs s' r r1 r' j here hours cleared ran =
      let all = replayed p _ r r1 r' j here cleared ran in
      sym (totals-totals_of (table.select s' j))
      ∙ ap (Split.totals K D M plus assoc comm table) hours
      ∙ Split.sum-up_to K D M plus assoc comm table key one j (date * 86400) 24 logs
      ∙ sym (ap (Split.totals K D M plus assoc comm table) all)
      ∙ totals-totals_of (table.select r' j)

  pub same_columns :
      (s s' : table.State) (j : K)
      → Slices.shown K D M plus assoc table s' j ≡ Slices.shown K D M plus assoc table s j
      → columns_of (table.select s' j) ≡ columns_of (table.select s j)
  same_columns s s' j h =
      sym (shown-columns_of (table.select s' j)) ∙ h ∙ shown-columns_of (table.select s j)
