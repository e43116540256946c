-- ===== src/Relay/Routing/Open.antt =====
-- internal/agent/relay/pipeline/plan/routing.go: the members that are still open, the measure of
-- the loop in `resolveStep`.
use vaala_ai_gateway.Prelude.{
  ℕ, ◌+◌, ◌≤◌, ◌<◌, ◌≡◌, inl, inr, Bool, true, false, String, List, [], ◌∷◌, arith, if◌then◌else◌,
  length, IsIn,
}
use vaala_ai_gateway.Relay.Routing.{RoutingMember}

-- The members that are not excluded.
unfoldable pub count_open : List RoutingMember → (String → Bool) → ℕ
count_open [] excluded = 0
count_open (m ∷ ms) excluded =
    let rest = count_open ms excluded in if excluded m.ref then rest else rest + 1

pub count_open-le-length :
    (ms : List RoutingMember) (excluded : String → Bool) → count_open ms excluded ≤ length ms
unfolding count_open
count_open-le-length [] excluded = omega arith
count_open-le-length (m ∷ ms) excluded = ground (arith, count_open-le-length ms excluded)

module _ (e f : String → Bool) (grows : (ref : String) → e ref ≡ true → f ref ≡ true) where
  -- More exclusions leave no more members open.
  pub count_open_mono : (ms : List RoutingMember) → count_open ms f ≤ count_open ms e
  unfolding count_open
  count_open_mono [] = omega arith
  count_open_mono (m ∷ ms) = ground (arith, grows m.ref, count_open_mono ms)

  -- The exclusion of a member that was open leaves fewer.
  pub count_open_lt :
      (ms : List RoutingMember) (p : RoutingMember)
      → IsIn p ms
      → e p.ref ≡ false
      → f p.ref ≡ true
      → count_open ms f < count_open ms e
  unfolding count_open
  count_open_lt [] p i h k = elim i [ ]
  count_open_lt (m ∷ ms) p (inl q) h k = ground (arith, count_open_mono ms)
  count_open_lt (m ∷ ms) p (inr i) h k = ground (arith, grows m.ref, count_open_lt ms p i h k)
