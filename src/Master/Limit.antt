-- ===== src/Master/Limit.antt =====
-- internal/master/billing/channel_limit_evaluator.go and internal/models/channel_limit.go: the
-- limits of a channel, evaluated in every tick. Times are Unix seconds.
pub mod Settled
use vaala_ai_gateway.Prelude.{
  ℕ, ℤ, pos, negsuc, eq_ℤ, ltb_ℤ, Bool, true, false, not, ◌&&◌, ◌||◌, String, str_eq, List, [], ◌∷◌,
  map, Option, none, some, if◌then◌else◌,
}
use vaala_ai_gateway.Relay.Plan.{is_empty}
use Prim.Native.String.{◌++◌ as str_append}

pub record LimitRule : Type 0 where
  pub metric : String
  pub window : String
  pub days : ℤ
  pub threshold : ℤ

pub record ChannelLimit : Type 0 where
  pub disable_at : ℤ
  pub rules : List LimitRule

pub record ChannelLimitState : Type 0 where
  pub tripped : Bool
  pub reason : String
  pub auto_recover : Bool
  pub tripped_at : ℤ

-- Whether to disable, why, and whether the channel recovers by itself.
pub record Verdict : Type 0 where
  pub should_disable : Bool
  pub reason : String
  pub auto_recover : Bool

abbrev pub fine : Verdict
fine = record { should_disable = false; reason = ""; auto_recover = false }

-- The first rule that is reached; `none` is an error of the usage query.
unfoldable pub evaluate_rules : (LimitRule → Option ℤ) → List LimitRule → Option Verdict
evaluate_rules usage [] = some fine
evaluate_rules usage (r ∷ rs) =
    let later = evaluate_rules usage rs in
    elim (usage r) [
      | none ↦ none
      | some v ↦
          if ltb_ℤ v r.threshold
          then later
          else some (record {
            should_disable = true;
            reason = str_append r.metric (str_append "/" r.window);
            auto_recover = not (str_eq r.window "lifetime");
          })
    ]

unfoldable pub evaluate_limit : ChannelLimit → ℤ → (LimitRule → Option ℤ) → Option Verdict
unfolding evaluate_rules
evaluate_limit limit now usage =
    if ltb_ℤ (pos 0) limit.disable_at && not (ltb_ℤ now limit.disable_at)
    then some (record { should_disable = true; reason = "cutoff"; auto_recover = false })
    else evaluate_rules usage limit.rules

abbrev pub enabled : ℤ
enabled = pos 1

abbrev pub disabled : ℤ
disabled = pos 0

abbrev pub no_state : ChannelLimitState
no_state = record { tripped = false; reason = ""; auto_recover = false; tripped_at = pos 0 }

-- The new status and state, and whether they are to be stored.
pub record Reconciled : Type 0 where
  pub status : ℤ
  pub state : ChannelLimitState
  pub changed : Bool

abbrev pub same_bool : Bool → Bool → Bool
same_bool true b = b
same_bool false b = not b

unfoldable pub reconcile_disable : ℤ → ChannelLimitState → Verdict → ℤ → Reconciled
reconcile_disable status state v now =
    if eq_ℤ status enabled
    then record {
      status = disabled;
      state = record {
        tripped = true;
        reason = v.reason;
        auto_recover = v.auto_recover;
        tripped_at = now;
      };
      changed = true;
    }
    else if state.tripped
        && (not (str_eq state.reason v.reason) || not (same_bool state.auto_recover v.auto_recover))
    then record {
      status = status;
      state = record state { reason = v.reason; auto_recover = v.auto_recover };
      changed = true;
    }
    else record { status = status; state = state; changed = false }

unfoldable pub reconcile_enable : ℤ → ChannelLimitState → Reconciled
reconcile_enable status state =
    if eq_ℤ status disabled
    then if state.tripped && state.auto_recover
      then record { status = enabled; state = no_state; changed = true }
      else record { status = status; state = state; changed = false }
    else if state.tripped
    then record { status = enabled; state = no_state; changed = true }
    else record { status = status; state = state; changed = false }

unfoldable pub reconcile : ℤ → ChannelLimitState → Verdict → ℤ → Reconciled
unfolding reconcile_disable reconcile_enable
reconcile status state v now =
    if v.should_disable then reconcile_disable status state v now else reconcile_enable status state

-- A row of the channels' table, as far as a tick reads and writes it.
pub record LimitedChannel : Type 0 where
  pub id : ℕ
  pub status : ℤ
  pub limit : ChannelLimit
  pub limit_state : ChannelLimitState

-- One channel of a tick. `stored` says whether the update succeeded; a failed query or update, or
-- a channel without limits, leaves the row.
unfoldable pub tick_channel :
    (LimitedChannel → LimitRule → Option ℤ) → (ℕ → Bool) → ℤ → LimitedChannel → LimitedChannel
unfolding evaluate_limit reconcile
tick_channel usage stored now ch =
    if eq_ℤ ch.limit.disable_at (pos 0) && is_empty ch.limit.rules
    then ch
    else elim (evaluate_limit ch.limit now (usage ch)) [
      | none ↦ ch
      | some v ↦
          let next = reconcile ch.status ch.limit_state v now in
          if next.changed && stored ch.id
          then record ch { status = next.status; limit_state = next.state }
          else ch
    ]

unfoldable pub tick :
    (LimitedChannel → LimitRule → Option ℤ)
    → (ℕ → Bool)
    → ℤ
    → List LimitedChannel
    → List LimitedChannel
unfolding tick_channel
tick usage stored now channels = map (tick_channel usage stored now) channels
