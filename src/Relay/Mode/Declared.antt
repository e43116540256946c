-- ===== src/Relay/Mode/Declared.antt =====
-- internal/agent/relay/codec/codec.go and internal/agent/relay/pipeline/plan/mode.go: the protocol
-- and the mode against what the channel declares.
use vaala_ai_gateway.Prelude.{
  ℕ, ◌≡◌, refl, ap, ◌∙◌, inl, inr, Bool, true, false, ◌&&◌, ◌||◌, String, List, [], ◌∷◌, Option,
  none, some, arith, Bool-cases, Option-cases, if◌then◌else◌, if_true, if_false, All,
}
use vaala_ai_gateway.Relay.State.{Protocol, openai_chat, openai_responses, claude, gemini, unknown}
use vaala_ai_gateway.Relay.Mode.{
  protocol_eq, has_protocol, channel_type_to_protocol, endpoint_key_to_protocol,
  api_type_to_protocol, collect, parsed, parse_endpoints, parse_supported_types, is_supported,
  is_nil, declared, is_reachable, choose_declared, Override, overridden,
  negotiate_outbound_protocol,
}

protocol_eq_refl : (p : Protocol) → protocol_eq p p ≡ true
protocol_eq_refl openai_chat = refl
protocol_eq_refl openai_responses = refl
protocol_eq_refl claude = refl
protocol_eq_refl gemini = refl
protocol_eq_refl unknown = refl

endpoint_key-supported :
    (key : String) (p : Protocol) → endpoint_key_to_protocol key ≡ some p → is_supported p ≡ true
unfolding endpoint_key_to_protocol
endpoint_key-supported key openai_chat h = refl
endpoint_key-supported key openai_responses h = refl
endpoint_key-supported key claude h = refl
endpoint_key-supported key gemini h = absurd (ground (arith, h))
endpoint_key-supported key unknown h = absurd (ground (arith, h))

api_type-supported :
    (t : String) (p : Protocol) → api_type_to_protocol t ≡ some p → is_supported p ≡ true
unfolding api_type_to_protocol
api_type-supported t openai_chat h = refl
api_type-supported t openai_responses h = refl
api_type-supported t claude h = refl
api_type-supported t gemini h = absurd (ground (arith, h))
api_type-supported t unknown h = absurd (ground (arith, h))

collect-supported :
    (f : String → Option Protocol)
    → ((t : String) (p : Protocol) → f t ≡ some p → is_supported p ≡ true)
    → (ts : List String) → All (λ p. is_supported p ≡ true) (collect f ts)
collect-supported f h [] = tt
collect-supported f h (t ∷ ts) = elim (Option-cases (f t)) [
  | inl e ↦ rw (e, collect) (collect-supported f h ts)
  | inr (p, e) ↦ rw (e, collect) (h t p e, collect-supported f h ts)
]

parsed-supported :
    (f : String → Option Protocol)
    → ((t : String) (p : Protocol) → f t ≡ some p → is_supported p ≡ true)
    → (texts : Option (List String)) → All (λ p. is_supported p ≡ true) (parsed f texts)
parsed-supported f h none = tt
parsed-supported f h (some ts) = collect-supported f h ts

declared-supported :
    (endpoints types : Option (List String))
    → All (λ p. is_supported p ≡ true) (declared endpoints types)
unfolding declared parse_endpoints parse_supported_types
declared-supported endpoints types =
    elim (Bool-cases (is_nil (parsed endpoint_key_to_protocol endpoints))) [
      | inl e ↦ rw e (parsed-supported api_type_to_protocol api_type-supported types)
      | inr e ↦ rw e (parsed-supported endpoint_key_to_protocol endpoint_key-supported endpoints)
    ]

-- A choice among protocols of which one passes a test passes it.
choose-passes :
    (test : Protocol → Bool) (inbound other : Protocol)
    → (test openai_responses || test openai_chat || test claude) ≡ true
    → test (
        if test inbound
        then inbound
        else if test openai_responses
        then openai_responses
        else if test openai_chat
        then openai_chat
        else if test claude
        then claude
        else other)
      ≡ true
choose-passes test inbound other h = elim (Bool-cases (test inbound)) [
  | inl e ↦ ap test (if_true (test inbound) inbound _ e) ∙ e
  | inr e ↦
      ap test (if_false (test inbound) inbound _ e) ∙ elim (Bool-cases (test openai_responses)) [
        | inl e1 ↦ ap test (if_true (test openai_responses) openai_responses _ e1) ∙ e1
        | inr e1 ↦
            ap test (if_false (test openai_responses) openai_responses _ e1)
            ∙ elim (Bool-cases (test openai_chat)) [
              | inl e2 ↦ ap test (if_true (test openai_chat) openai_chat _ e2) ∙ e2
              | inr e2 ↦
                  let e3 : test claude ≡ true = (let h' = rw (e1, e2) at h in h') in
                  ap test (if_false (test openai_chat) openai_chat _ e2)
                  ∙ ap test (if_true (test claude) claude other e3)
                  ∙ e3
            ]
      ]
]

some_supported :
    (ps : List Protocol)
    → All (λ p. is_supported p ≡ true) ps
    → is_nil ps ≡ false
    → (has_protocol openai_responses ps || has_protocol openai_chat ps || has_protocol claude ps)
      ≡ true
some_supported [] a h = absurd (cc)
some_supported (openai_chat ∷ ps) a h = ground arith
some_supported (openai_responses ∷ ps) a h = refl
some_supported (claude ∷ ps) a h = ground arith
some_supported (gemini ∷ ps) a h = absurd (let e = a.0 in cc)
some_supported (unknown ∷ ps) a h = absurd (let e = a.0 in cc)

choose_declared-declared :
    (inbound : Protocol) (channel_type : ℕ) (endpoints types : Option (List String))
    → is_nil (declared endpoints types) ≡ false
    → has_protocol
        (choose_declared inbound channel_type (declared endpoints types))
        (declared endpoints types)
      ≡ true
unfolding choose_declared
choose_declared-declared inbound channel_type endpoints types h =
    choose-passes (λ p. has_protocol p (declared endpoints types)) inbound
      (channel_type_to_protocol channel_type)
      (some_supported (declared endpoints types) (declared-supported endpoints types) h)

-- The protocol that is chosen without an override.
abbrev pub default_protocol : Protocol → ℕ → Option (List String) → Option (List String) → Protocol
default_protocol inbound channel_type types endpoints =
    negotiate_outbound_protocol inbound channel_type types endpoints (λ p. none)

abbrev pub IsUsable : Protocol → Option (List String) → Option (List String) → Type 0
IsUsable target types endpoints =
    (is_supported target ≡ true) × (is_reachable target endpoints types ≡ true)

pub record Negotiated (inbound : Protocol) (channel_type : ℕ)
    (types endpoints : Option (List String)) (override : Override) (result : Protocol)
    : Type 0 where
  pub by_override :
      (target : Protocol)
      → override inbound ≡ some target
      → IsUsable target types endpoints
      → result ≡ target
  pub by_default :
      ((target : Protocol) → override inbound ≡ some target → ¬ (IsUsable target types endpoints))
      → result ≡ default_protocol inbound channel_type types endpoints
  pub default_declared :
      is_nil (declared endpoints types) ≡ false
      → has_protocol
          (default_protocol inbound channel_type types endpoints)
          (declared endpoints types)
        ≡ true
  pub default_inbound :
      has_protocol inbound (declared endpoints types) ≡ true
      → default_protocol inbound channel_type types endpoints ≡ inbound
  pub default_type :
      is_nil (declared endpoints types) ≡ true
      → default_protocol inbound channel_type types endpoints
        ≡ channel_type_to_protocol channel_type
  pub reachable :
      is_nil (declared endpoints types) ≡ false
      → has_protocol result (declared endpoints types) ≡ true

and_true : (a b : Bool) → a ≡ true → b ≡ true → (a && b) ≡ true
and_true a b h k = ground (arith, h, k)

overridden-target :
    (o : Option Protocol) (ok : Protocol → Bool) (other target : Protocol)
    → o ≡ some target
    → is_supported target ≡ true
    → ok target ≡ true
    → overridden o ok other ≡ target
overridden-target o ok other target e s r =
    ap (λ x. overridden x ok other) e
    ∙ if_true (is_supported target && ok target) target other (and_true _ _ s r)

overridden-other :
    (o : Option Protocol) (ok : Protocol → Bool) (other : Protocol)
    → ((target : Protocol)
        → o ≡ some target
        → ¬ ((is_supported target ≡ true) × (ok target ≡ true)))
    → overridden o ok other ≡ other
overridden-other none ok other h = refl
overridden-other (some t) ok other h = elim (Bool-cases (is_supported t && ok t)) [
  | inl e ↦ absurd (h t refl (ground (arith, e)))
  | inr e ↦ if_false _ t other e
]

not_nil : (p : Protocol) (ps : List Protocol) → has_protocol p ps ≡ true → is_nil ps ≡ false
not_nil p [] h = absurd (cc)
not_nil p (q ∷ ps) h = refl

overridden-reachable :
    (o : Option Protocol) (endpoints types : Option (List String)) (other : Protocol)
    → is_nil (declared endpoints types) ≡ false
    → has_protocol other (declared endpoints types) ≡ true
    → has_protocol
        (overridden o (λ t. is_reachable t endpoints types) other)
        (declared endpoints types)
      ≡ true
unfolding is_reachable
overridden-reachable none endpoints types other n h = h
overridden-reachable (some t) endpoints types other n h =
    elim (Bool-cases (is_supported t && is_reachable t endpoints types)) [
      | inl e ↦
          ap (λ p. has_protocol p (declared endpoints types)) (if_true _ t other e) ∙ ground (arith)
      | inr e ↦ ap (λ p. has_protocol p (declared endpoints types)) (if_false _ t other e) ∙ h
    ]

-- The negotiated protocol is the target of the override, where that is a protocol with a codec that
-- the channel declares or nothing is declared, and else, with no override or another target, the one
-- chosen without an override. That one is declared if the channel declares any, and the inbound
-- protocol if that is declared; with nothing declared it is that of the channel's type.
pub negotiate_outbound_protocol_lem :
    (inbound : Protocol) (channel_type : ℕ) (types endpoints : Option (List String))
    (override : Override)
    → Negotiated inbound channel_type types endpoints override
        (negotiate_outbound_protocol inbound channel_type types endpoints override)
unfolding negotiate_outbound_protocol choose_declared
negotiate_outbound_protocol_lem inbound channel_type types endpoints override =
    let chosen = choose_declared inbound channel_type (declared endpoints types) in
    let among : is_nil (declared endpoints types) ≡ false
        → has_protocol
            (if is_nil (declared endpoints types)
              then channel_type_to_protocol channel_type
              else chosen)
            (declared endpoints types)
          ≡ true =
      λ n.
        ap (λ p. has_protocol p (declared endpoints types)) (if_false _ _ chosen n)
        ∙ choose_declared-declared inbound channel_type endpoints types n in
    record {
      by_override = λ target o u. overridden-target _ _ _ target o u.0 u.1;
      by_default = λ h. overridden-other (override inbound) _ _ h;
      default_declared = among;
      default_inbound = λ h.
          if_false _ _ chosen (not_nil inbound (declared endpoints types) h)
          ∙ if_true _ inbound _ h;
      default_type = λ n. if_true _ _ chosen n;
      reachable = λ n. overridden-reachable (override inbound) endpoints types _ n (among n);
    }

pub eq_of_protocol_eq : (p q : Protocol) → protocol_eq p q ≡ true → p ≡ q
eq_of_protocol_eq openai_chat openai_chat h = refl
eq_of_protocol_eq openai_responses openai_responses h = refl
eq_of_protocol_eq claude claude h = refl
eq_of_protocol_eq gemini gemini h = refl
eq_of_protocol_eq unknown unknown h = refl
eq_of_protocol_eq p q h = absurd (cc)
