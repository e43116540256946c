-- ===== src/Relay/Resilience/Validate.antt =====
-- internal/models/channel.go: `ChannelResilience.Validate`, and the parameters that a validated
-- channel resolves to.
use vaala_ai_gateway.Prelude.{
  ℕ, ◌≡◌, refl, ℤ, pos, ltb_ℤ, Bool, true, not, ◌&&◌, String, Option, none, some, if◌then◌else◌,
  arith,
}
use vaala_ai_gateway.Relay.State.{ChannelResilience}
use vaala_ai_gateway.Relay.Resilience.{Config, override, resolve}

abbrev pub in_range : ℕ → ℕ → ℤ → Bool
in_range min max v = not (ltb_ℤ v (pos min)) && not (ltb_ℤ (pos max) v)

-- The name of the field is the error; nil is not checked.
abbrev pub check : String → Option ℤ → ℕ → ℕ → Option String
check name none min max = none
check name (some v) min max = if in_range min max v then none else some name

abbrev pub first_error : Option String → Option String → Option String
first_error none later = later
first_error (some name) later = some name

unfoldable pub validate : ChannelResilience → Option String
validate r = first_error (check "max_retries" r.max_retries 0 10) (
    first_error (check "backoff_base_ms" r.backoff_base_ms 0 60000) (
      first_error (check "backoff_max_ms" r.backoff_max_ms 0 60000) (
        first_error (check "breaker_threshold" r.breaker_threshold 1 1000)
          (check "breaker_cooldown_ms" r.breaker_cooldown_ms 0 3600000))))

-- The ranges that the settings have as well.
pub record IsInRange (cfg : Config) : Type 0 where
  pub max_retries : in_range 0 10 cfg.max_retries ≡ true
  pub backoff_base_ms : in_range 0 60000 cfg.backoff_base_ms ≡ true
  pub backoff_max_ms : in_range 0 60000 cfg.backoff_max_ms ≡ true
  pub breaker_threshold : in_range 1 1000 cfg.breaker_threshold ≡ true
  pub breaker_cooldown_ms : in_range 0 3600000 cfg.breaker_cooldown_ms ≡ true

in_range-override :
    (name : String) (default : ℤ) (o : Option ℤ) (min max : ℕ)
    → in_range min max default ≡ true
    → check name o min max ≡ none
    → in_range min max (override default o) ≡ true
in_range-override name default none min max h c = h
in_range-override name default (some v) min max h c = ground (arith, c)

first_error-none : (a b : Option String) → first_error a b ≡ none → (a ≡ none) × (b ≡ none)
first_error-none none b h = (refl, h)
first_error-none (some name) b h = absurd (cc)

-- Where the settings are within their ranges and a channel's overrides validate, so are the
-- parameters that the channel gets: in particular its retries are bounded.
pub resolve-IsInRange :
    (global : Config) (o : ChannelResilience)
    → IsInRange global
    → validate o ≡ none
    → IsInRange (resolve global (some o))
unfolding validate resolve
resolve-IsInRange global o g h =
    let (a, h1) = first_error-none _ _ h in
    let (b, h2) = first_error-none _ _ h1 in
    let (c, h3) = first_error-none _ _ h2 in
    let (d, e) = first_error-none _ _ h3 in
    record {
      max_retries = in_range-override _ _ o.max_retries 0 10 g.max_retries a;
      backoff_base_ms = in_range-override _ _ o.backoff_base_ms 0 60000 g.backoff_base_ms b;
      backoff_max_ms = in_range-override _ _ o.backoff_max_ms 0 60000 g.backoff_max_ms c;
      breaker_threshold = in_range-override _ _ o.breaker_threshold 1 1000 g.breaker_threshold d;
      breaker_cooldown_ms =
          in_range-override _ _ o.breaker_cooldown_ms 0 3600000 g.breaker_cooldown_ms e;
    }
