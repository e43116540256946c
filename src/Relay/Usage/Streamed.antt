-- ===== src/Relay/Usage/Streamed.antt =====
-- internal/agent/relay/upstream/usage.go: the usage of a streamed body.
use vaala_ai_gateway.Prelude.{
  ◌≡◌, refl, ◌∙◌, List, [], ◌∷◌, true, false, Bool-cases, inl, inr, Option, none, some,
}
use vaala_ai_gateway.Relay.Usage.{
  Bytes, TokenCounts, Json, no_tokens, is_absent, line_usage, is_counted, scan_line, scan_back,
  backward, any_start, stream_usage, split_lines, extract_usage,
}
use vaala_ai_gateway.Relay.Usage.Latest.{
  or_counts, or_keep, or_first, last_counted, first_usage, last_counts, streamed,
}
use vaala_ai_gateway.Relay.Usage.Claude.{extract_claude_sse_usage_lem}

scan_line_lem :
    (later u first : Option TokenCounts) (c : TokenCounts) (after : TokenCounts → TokenCounts)
    → or_counts later (scan_line u (or_counts first c) after)
      ≡ or_counts (or_keep later u) (after (or_counts (or_first u first) c))
scan_line_lem (some x) u first c after = refl
scan_line_lem none none first c after = refl
scan_line_lem none (some k) first c after = elim (Bool-cases (is_counted k)) [
  | inl e ↦ rw e refl
  | inr e ↦ rw e refl
]

module _ (json : Json) where
  scan_back_lem :
      (lines acc : List Bytes) (c : TokenCounts)
      → scan_back json (backward lines acc) c
        ≡ or_counts
            (last_counted json lines)
            (scan_back json acc (or_counts (first_usage json lines) c))
  unfolding scan_back backward last_counted first_usage
  scan_back_lem [] acc c = refl
  scan_back_lem (line ∷ lines) acc c =
      scan_back_lem lines (line ∷ acc) c
      ∙ scan_line_lem (last_counted json lines) (line_usage json line) (first_usage json lines) c
          (scan_back json acc)

  scan-last_counts :
      (lines : List Bytes) → scan_back json (backward lines []) no_tokens ≡ last_counts json lines
  unfolding scan_back
  scan-last_counts lines = scan_back_lem lines [] no_tokens

  stream_usage_lem : (lines : List Bytes) → stream_usage json lines ≡ streamed json lines
  stream_usage_lem lines = elim (Bool-cases (any_start json lines)) [
    | inl e ↦ rw e (extract_claude_sse_usage_lem json lines)
    | inr e ↦ rw e (scan-last_counts lines)
  ]

  -- The usage of a streamed body with something in it. When a line peeks as a Claude start, each
  -- count is the last positive one of the deltas since the last start with a usage, or else that
  -- start's, or zero with no such start; when no line does, the counts are those of the last usage
  -- with prompt or completion tokens, or else of the first usage, or zero.
  pub extract_usage_lem :
      (body : Bytes)
      → is_absent body ≡ false
      → extract_usage json body true ≡ streamed json (split_lines body)
  unfolding extract_usage
  extract_usage_lem body b = rw b (stream_usage_lem (split_lines body))
