-- ===== src/Relay/Mode.antt =====
-- internal/agent/relay/pipeline/plan/mode.go, internal/agent/relay/codec/codec.go and
-- internal/agent/relay/upstream/overrides.go: the protocol that a channel is spoken to in, and the
-- mode of an attempt. What is read from a channel's JSON is an argument: `none` is a text that is
-- empty or does not parse. A Go map from protocols is a list of entries with each key once.
pub mod Specific
pub mod Declared
pub mod Picked
use vaala_ai_gateway.Prelude.{
  ℕ, zero, suc, ◌+◌, Bool, true, false, not, ◌&&◌, ◌||◌, String, str_eq, List, [], ◌∷◌, Option,
  none, some, ltb, ◌==◌, if◌then◌else◌, filter,
}
use vaala_ai_gateway.Prelude.Sort.{slice_stable}
use vaala_ai_gateway.Relay.State.{
  Protocol, openai_chat, openai_responses, claude, gemini, unknown, RelayMode, native, passthrough,
  legacy,
}

abbrev pub protocol_eq : Protocol → Protocol → Bool
protocol_eq openai_chat openai_chat = true
protocol_eq openai_responses openai_responses = true
protocol_eq claude claude = true
protocol_eq gemini gemini = true
protocol_eq unknown unknown = true
protocol_eq _ _ = false

abbrev pub has_protocol : Protocol → List Protocol → Bool
has_protocol p [] = false
has_protocol p (q ∷ qs) = protocol_eq q p || has_protocol p qs

abbrev pub channel_type_to_protocol : ℕ → Protocol
channel_type_to_protocol n = if n == 14 then claude else if n == 24 then gemini else openai_chat

-- `endpointKeyToProtocol`
unfoldable pub endpoint_key_to_protocol : String → Option Protocol
endpoint_key_to_protocol key =
    if str_eq key "chat_completions"
    then some openai_chat
    else if str_eq key "responses"
    then some openai_responses
    else if str_eq key "messages"
    then some claude
    else none

-- `apiTypeToProtocol`
unfoldable pub api_type_to_protocol : String → Option Protocol
api_type_to_protocol t =
    if str_eq t "chat-completion"
    then some openai_chat
    else if str_eq t "responses"
    then some openai_responses
    else if str_eq t "claude"
    then some claude
    else none

abbrev pub collect : (String → Option Protocol) → List String → List Protocol
collect f [] = []
collect f (t ∷ ts) = elim (f t) [ none ↦ collect f ts | some p ↦ p ∷ collect f ts ]

abbrev pub parsed : (String → Option Protocol) → Option (List String) → List Protocol
parsed f none = []
parsed f (some texts) = collect f texts

-- The keys of the endpoints that name a protocol.
unfoldable pub parse_endpoints : Option (List String) → List Protocol
unfolding endpoint_key_to_protocol
parse_endpoints keys = parsed endpoint_key_to_protocol keys

unfoldable pub parse_supported_types : Option (List String) → List Protocol
unfolding api_type_to_protocol
parse_supported_types types = parsed api_type_to_protocol types

abbrev pub is_supported : Protocol → Bool
is_supported openai_chat = true
is_supported openai_responses = true
is_supported claude = true
is_supported gemini = false
is_supported unknown = false

abbrev pub is_nil : List Protocol → Bool
is_nil [] = true
is_nil (p ∷ ps) = false

-- The protocols that a channel declares: its endpoints, or else its supported types.
unfoldable pub declared : Option (List String) → Option (List String) → List Protocol
unfolding parse_endpoints parse_supported_types
declared endpoints types =
    let eps = parse_endpoints endpoints in if is_nil eps then parse_supported_types types else eps

unfoldable pub is_reachable : Protocol → Option (List String) → Option (List String) → Bool
unfolding declared
is_reachable target endpoints types =
    let ps = declared endpoints types in is_nil ps || has_protocol target ps

-- The inbound protocol if it is declared, or the first of `fallbackPriority` that is.
unfoldable pub choose_declared : Protocol → ℕ → List Protocol → Protocol
choose_declared inbound channel_type ps =
    if has_protocol inbound ps
    then inbound
    else if has_protocol openai_responses ps
    then openai_responses
    else if has_protocol openai_chat ps
    then openai_chat
    else if has_protocol claude ps
    then claude
    else channel_type_to_protocol channel_type

abbrev pub Override : Type 0
Override = Protocol → Option Protocol

abbrev pub overridden : Option Protocol → (Protocol → Bool) → Protocol → Protocol
overridden none ok other = other
overridden (some target) ok other = if is_supported target && ok target then target else other

unfoldable pub negotiate_outbound_protocol :
    Protocol → ℕ → Option (List String) → Option (List String) → Override → Protocol
unfolding is_reachable choose_declared declared
negotiate_outbound_protocol inbound channel_type types endpoints override =
    let ps = declared endpoints types in
    overridden (override inbound) (λ target. is_reachable target endpoints types)
      (if is_nil ps
        then channel_type_to_protocol channel_type
        else choose_declared inbound channel_type ps)

-- A compiled rule for models: `matches` is its regular expression, the key `none` is the wildcard.
pub record ModelOverrideRule : Type 0 where
  pub matches : String → Bool
  pub pattern_len : ℕ
  pub is_exact : Bool
  pub overrides : List (Option Protocol × Protocol)

pub record ChannelOverrideRules : Type 0 where
  pub channel_level : Override
  pub model_level : List ModelOverrideRule

-- A rule that matches, with its place in the configuration.
pub record Scored : Type 0 where
  pub rule : ModelOverrideRule
  pub config_idx : ℕ

unfoldable pub score_rules : String → ℕ → List ModelOverrideRule → List Scored
score_rules model i [] = []
score_rules model i (r ∷ rs) =
    let rest = score_rules model (i + 1) rs in
    if r.matches model then record { rule = r; config_idx = i } ∷ rest else rest

-- The function of `sort.SliceStable`: a score of 2 for an exact pattern and of 0 for another.
unfoldable pub more_specific : Scored → Scored → Bool
more_specific a b =
    if a.rule.is_exact && not b.rule.is_exact
    then true
    else if b.rule.is_exact && not a.rule.is_exact
    then false
    else if not (a.rule.pattern_len == b.rule.pattern_len)
    then ltb b.rule.pattern_len a.rule.pattern_len
    else ltb a.config_idx b.config_idx

abbrev pub explicit : List (Option Protocol × Protocol) → Protocol → Option Protocol
explicit [] p = none
explicit ((none, v) ∷ l) p = explicit l p
explicit ((some q, v) ∷ l) p = if protocol_eq q p then some v else explicit l p

abbrev pub wildcard : List (Option Protocol × Protocol) → Option Protocol
wildcard [] = none
wildcard ((none, v) ∷ l) = some v
wildcard ((some q, v) ∷ l) = wildcard l

-- The wildcard stands for each of `validInboundProtocols` that has no entry.
unfoldable pub expand_rule_overrides : ModelOverrideRule → Override
expand_rule_overrides r p = elim (explicit r.overrides p) [
  | some v ↦ some v
  | none ↦ if is_supported p then wildcard r.overrides else none
]

abbrev pub winner : Override → List Scored → Override
winner other [] = other
winner other (s ∷ l) = expand_rule_overrides s.rule

abbrev pub no_override : Override
no_override p = none

unfoldable pub resolve_override : Option ChannelOverrideRules → String → Override
unfolding score_rules more_specific expand_rule_overrides slice_stable
resolve_override none model = no_override
resolve_override (some rules) model =
    winner rules.channel_level (slice_stable more_specific (score_rules model 0 rules.model_level))

-- What the mode of an attempt depends on, and which codecs are registered.
pub record ModeChannel : Type 0 where
  pub channel_type : ℕ
  pub supported_api_types : Option (List String)
  pub endpoints : Option (List String)
  pub use_legacy_adaptor : Bool
  pub passthrough_enabled : Bool
  pub rules : Option ChannelOverrideRules

module _ (has_inbound has_outbound : Protocol → Bool) where
  abbrev pub outbound_of : ModeChannel → Protocol → String → Protocol
  outbound_of ch inbound model =
      negotiate_outbound_protocol inbound ch.channel_type ch.supported_api_types ch.endpoints
        (resolve_override ch.rules model)

  unfoldable pub should_use_legacy : ModeChannel → Protocol → String → Bool
  unfolding negotiate_outbound_protocol resolve_override
  should_use_legacy ch inbound model =
      ch.use_legacy_adaptor
      || protocol_eq inbound unknown
      || not (has_inbound inbound)
      || not (has_outbound (outbound_of ch inbound model))

  unfoldable pub should_passthrough : ModeChannel → Protocol → String → Bool
  unfolding negotiate_outbound_protocol resolve_override
  should_passthrough ch inbound model =
      ch.passthrough_enabled && protocol_eq inbound (outbound_of ch inbound model)

  unfoldable pub pick : ModeChannel → String → Protocol → RelayMode
  unfolding should_use_legacy should_passthrough
  pick ch model inbound =
      if should_use_legacy ch inbound model
      then legacy
      else if should_passthrough ch inbound model
      then passthrough
      else RelayMode.native
