-- ===== src/Agent/Reporter.antt =====
-- internal/agent/reporter/reporter.go: the buffer of usage logs in front of the master. A flush
-- releases the lock while it sends, so it is two steps: `take` and `give_back`.
pub mod Conserved
use vaala_ai_gateway.Prelude.{
  ℕ, zero, suc, ◌+◌, ◌-◌, ◌*◌, Bool, true, false, List, [], ◌∷◌, ◌++◌, ltb, leb, if◌then◌else◌,
  length, Option, none, some,
}

-- `Entry` is `protocol.UsageLogEntry`. `has_client` is whether the client is not nil.
pub record Reporter (Entry : Type 0) : Type 0 where
  pub buffer : List Entry
  pub buffer_size : ℕ
  pub has_client : Bool

module _ {Entry : Type 0} where
  -- The append of the subscriber, and whether it then calls `flush`. `stamp` sets the timestamp of
  -- an entry that has none.
  unfoldable pub receive : (Entry → Entry) → Entry → Reporter Entry → Reporter Entry × Bool
  receive stamp entry r =
      let buffer = r.buffer ++ stamp entry ∷ [] in
      (record r { buffer = buffer }, leb r.buffer_size (length buffer))

  abbrev pub take_from : Reporter Entry → List Entry → Option (Reporter Entry × List Entry)
  take_from r [] = none
  take_from r (log ∷ logs) = some (record r { buffer = [] }, log ∷ logs)

  -- The first half of `flush`: the logs that are taken out. `none` is the early return.
  unfoldable pub take : Reporter Entry → Option (Reporter Entry × List Entry)
  take r = take_from r r.buffer

  -- `buffer[dropped:]`
  unfoldable pub drop : ℕ → List Entry → List Entry
  drop zero l = l
  drop (suc n) [] = []
  drop (suc n) (x ∷ l) = drop n l

  unfoldable pub cap : ℕ → List Entry → List Entry
  unfolding drop
  cap bound l = if ltb bound (length l) then drop (length l - bound) l else l

  -- The end of a flush whose report failed: the logs go back in front, the oldest over the cap go.
  unfoldable pub give_back : List Entry → Reporter Entry → Reporter Entry
  unfolding cap
  give_back logs r = record r { buffer = cap (r.buffer_size * 10) (logs ++ r.buffer) }

  unfoldable pub set_client : Bool → Reporter Entry → Reporter Entry
  set_client there r = record r { has_client = there }

  unfoldable pub pending_count : Reporter Entry → ℕ
  pending_count r = length r.buffer
