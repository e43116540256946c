-- ===== src/Relay/Affinity/Engine.antt =====
-- internal/agent/relay/affinity/engine.go: the table behind the switch and the time to live of the
-- settings.
use vaala_ai_gateway.Prelude.{
  ℕ, ◌+◌, ◌*◌, ltb, pos, pos_part, eq_ℤ, ltb_ℤ, false, not, Option, none, some, if◌then◌else◌,
}
use vaala_ai_gateway.Relay.State.{ChannelSource}
use vaala_ai_gateway.Relay.Affinity.Store
use vaala_ai_gateway.Relay.Affinity.{Key, Entry, AffinityEngine, Decision, second}

-- The global policy looks at the switch only, whatever the subject.
unfoldable pub decide : AffinityEngine → Decision
decide e = elim e.cfg [
  | none ↦ record { record_it = false; apply_it = false }
  | some cfg ↦
      let on = not (eq_ℤ cfg.affinity_enabled (pos 0)) in record { record_it = on; apply_it = on }
]

-- A time to live of zero or less is 0.
unfoldable pub ttl : AffinityEngine → ℕ
ttl e = elim e.cfg [
  | none ↦ 0
  | some cfg ↦
      if ltb_ℤ (pos 0) cfg.affinity_ttl_sec then pos_part cfg.affinity_ttl_sec * second else 0
]

unfoldable pub lookup : ℕ → AffinityEngine → Key → AffinityEngine × Option Entry
unfolding Store.lookup
lookup now e k =
    let (entries', found) = Store.lookup now e.entries k in (record e { entries = entries' }, found)

-- `now` is read for the expiry, and `now'` by the sweep.
unfoldable pub remember : ℕ → ℕ → AffinityEngine → Key → ChannelSource → ℕ → AffinityEngine
unfolding ttl Store.remember
remember now now' e k source source_id =
    if ltb 0 (ttl e)
    then record e {
      entries =
          Store.remember now' e.entries k
            (record { source = source; source_id = source_id; expires_at = now + ttl e });
    }
    else e

unfoldable pub forget : AffinityEngine → Key → AffinityEngine
unfolding Store.forget
forget e k = record e { entries = Store.forget e.entries k }
