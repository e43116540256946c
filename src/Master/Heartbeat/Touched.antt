-- ===== src/Master/Heartbeat/Touched.antt =====
-- internal/master/sync/heartbeat_tracker.go: a heartbeat is flushed with its last time.
use vaala_ai_gateway.Prelude.{
  ℤ, ◌≡◌, refl, ◌∙◌, ap, true, false, String, str_eq, eq_iff, List, [], ◌∷◌, some, if◌then◌else◌,
  arith, Bool-cases, inl, inr,
}
use vaala_ai_gateway.Relay.Plan.{is_empty}
use vaala_ai_gateway.Utils.SyncMap
use vaala_ai_gateway.Utils.SyncMap.{load-put}
use vaala_ai_gateway.Master.Heartbeat.{
  HeartbeatTracker, string_comparable, contains_name, touch, snapshot_of, flush,
}

-- The agent's time is in memory, and is to be flushed.
abbrev pub IsPending : String → ℤ → HeartbeatTracker → Type 0
IsPending agent_id ts t =
    (SyncMap.load t.seen agent_id ≡ some ts) × (contains_name t.dirty agent_id ≡ true)

-- A heartbeat is pending with its own time, and leaves those of the other agents pending.
pub touch-IsPending :
    (agent_id other : String) (ts ts' : ℤ) (t : HeartbeatTracker)
    → (str_eq other agent_id ≡ false → IsPending other ts' t)
    → IsPending other (if str_eq other agent_id then ts else ts') (touch agent_id ts t)
unfolding touch contains_name
touch-IsPending agent_id other ts ts' t before = elim (Bool-cases (str_eq other agent_id)) [
  | inl e ↦ rw e (
    load-put t.seen agent_id other ts
        ∙ ground (arith, eq_iff other agent_id, eq_iff agent_id other),
    ground (arith, eq_iff other agent_id, eq_iff agent_id other, eq_iff agent_id agent_id),
  )
  | inr e ↦
      let (h, c) = before e in
      rw e (
        load-put t.seen agent_id other ts
            ∙ ground (arith, h, eq_iff other agent_id, eq_iff agent_id other),
        ground (arith, c),
      )
]

contains_name-empty :
    (names : List String) (name : String) → is_empty names ≡ true → contains_name names name ≡ false
unfolding contains_name
contains_name-empty [] name h = refl
contains_name-empty (n ∷ ns) name h = absurd (cc)

load-snapshot_of :
    (seen : List (String × ℤ)) (dirty : List String) (id : String) (ts : ℤ)
    → SyncMap.load seen id ≡ some ts
    → contains_name dirty id ≡ true
    → SyncMap.load (snapshot_of seen dirty) id ≡ some ts
unfolding snapshot_of contains_name
load-snapshot_of seen [] id ts h c = absurd (cc)
load-snapshot_of seen (d ∷ ds) id ts h c = elim (Bool-cases (str_eq d id)) [
  | inl e ↦
      let same : d ≡ id = (eq_iff d id).0 e in
      rw e (let k = ap (SyncMap.load seen) same ∙ h in rw k refl)
  | inr e ↦ rw e (load-snapshot_of seen ds id ts h (ground (arith, e)))
]

-- A flush empties what is to be flushed and keeps the times in memory, and a pending heartbeat is
-- given to the persistence function with its time.
pub flush-IsPending :
    (agent_id : String) (ts : ℤ) (t : HeartbeatTracker)
    → IsPending agent_id ts t
    → let (t', given) = flush true t in
      (t'.dirty ≡ [])
      × (t'.seen ≡ t.seen)
      × ((snapshot : List (String × ℤ)) × (given ≡ some snapshot)
          × (SyncMap.load snapshot agent_id ≡ some ts))
unfolding flush
flush-IsPending agent_id ts t (h, c) = elim (Bool-cases (is_empty t.dirty)) [
  | inl e ↦ absurd (let k = contains_name-empty t.dirty agent_id e in cc)
  | inr e ↦ rw e (refl, refl, (_, refl, load-snapshot_of t.seen t.dirty agent_id ts h c))
]
