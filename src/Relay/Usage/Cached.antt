-- ===== src/Relay/Usage/Cached.antt =====
-- internal/agent/relay/upstream/usage.go and backend/passthrough/passthrough.go: the usage of a whole
-- body through the passthrough and through the native backend.
use vaala_ai_gateway.Prelude.{ℕ, ◌-◌, ◌≤◌, arith, ◌≡◌, false, ◌∷◌, some, pos}
use vaala_ai_gateway.Relay.Usage.{
  Bytes, TokenCounts, UsageFields, Usage, Json, counts_of, normalize_usage, reported, chat_usage,
  responses_usage, claude_usage, without_cached, parse_usage_json, extract_usage,
  extract_passthrough_usage,
}

pub data Format : Type 0 where
  chat : Format
  responses : Format
  claude : Format

abbrev pub no_fields : UsageFields
no_fields = record {
  input_tokens = pos 0;
  output_tokens = pos 0;
  prompt_tokens = pos 0;
  completion_tokens = pos 0;
  input_cached = pos 0;
  prompt_cached = pos 0;
  cache_read_input_tokens = pos 0;
  cache_creation_input_tokens = pos 0;
}

-- The usage that a provider of the format sends: `k` tokens read from its cache, `w` written.
abbrev pub sent : Format → ℕ → ℕ → ℕ → ℕ → UsageFields
sent chat p c k w = record no_fields {
  prompt_tokens = pos p;
  completion_tokens = pos c;
  prompt_cached = pos k;
}
sent responses p c k w = record no_fields {
  input_tokens = pos p;
  output_tokens = pos c;
  input_cached = pos k;
}
sent claude p c k w = record no_fields {
  input_tokens = pos p;
  output_tokens = pos c;
  cache_read_input_tokens = pos k;
  cache_creation_input_tokens = pos w;
}

abbrev pub decoded : Format → UsageFields → Usage
decoded chat f = chat_usage f
decoded responses f = responses_usage f
decoded claude f = claude_usage f

-- What the two OpenAI formats count among the prompt, and Claude does not.
abbrev pub included : Format → ℕ → ℕ
included chat k = k
included responses k = k
included claude k = 0

abbrev pub written : Format → ℕ → ℕ
written chat w = 0
written responses w = 0
written claude w = w

abbrev pub usage_with : Format → ℕ → ℕ → ℕ → ℕ → TokenCounts
usage_with format p c k w = record {
  prompt = pos p;
  completion = pos c;
  cache_read = pos k;
  cache_write = pos (written format w);
}

native_lem :
    (format : Format) (p c k w : ℕ)
    → k ≤ p
    → reported (normalize_usage (decoded format (sent format p c k w)))
      ≡ usage_with format (p - included format k) c k w
native_lem chat p c k w h = ground (arith, h)
native_lem responses p c k w h = ground (arith, h)
native_lem claude p c k w h = ground (arith, h)

passed_lem :
    (format : Format) (p c k w : ℕ)
    → k ≤ p
    → without_cached (counts_of (sent format p c k w)) ≡ usage_with format (p - k) c k w
passed_lem chat p c k w h = ground (arith, h)
passed_lem responses p c k w h = ground (arith, h)
passed_lem claude p c k w h = ground (arith, h)

-- A whole body whose usage is that of a provider, with at most as many tokens read from the cache as
-- the prompt has. The native backend reports the prompt without the cached tokens that the format
-- counts in it, and the passthrough without the cached tokens in every format: for Claude its prompt
-- is short by them. The other counts are those that the provider sent.
pub extract_passthrough_usage_lem :
    (json : Json) (b : ℕ) (body raw : Bytes) (first : ℕ) (format : Format) (p c k w : ℕ)
    → json.unmarshal_response (b ∷ body) ≡ some (first ∷ raw)
    → json.unmarshal_usage (first ∷ raw) ≡ some (sent format p c k w)
    → k ≤ p
    → (reported (normalize_usage (decoded format (sent format p c k w)))
        ≡ usage_with format (p - included format k) c k w)
      × (extract_passthrough_usage json (b ∷ body) false ≡ usage_with format (p - k) c k w)
unfolding extract_passthrough_usage extract_usage parse_usage_json
extract_passthrough_usage_lem json b body raw first format p c k w response usage h =
    (native_lem format p c k w h, rw (response, usage) (passed_lem format p c k w h))
