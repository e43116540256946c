-- ===== src/Relay/Random.antt =====
-- `math/rand`: the source of `rand.Intn`, which the routing and the channel order draw from. Its
-- state is passed explicitly, and what Go documents of `Intn` is the law.
use vaala_ai_gateway.Prelude.{ℕ, ◌<◌}

pub record Random : Type 1 where
  pub Seed : Type 0
  pub intn : ℕ → Seed → ℕ × Seed
  -- `rand.Intn(n)` lies in [0, n).
  pub intn_lt : (n : ℕ) (s : Seed) → 0 < n → (intn n s).0 < n
