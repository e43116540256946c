-- ===== src/Relay/Mode/Picked.antt =====
-- internal/agent/relay/pipeline/plan/mode.go: what a mode promises.
use vaala_ai_gateway.Prelude.{
  ◌≡◌, ◌≢◌, refl, sym, subst, inl, inr, Bool, true, false, not, ◌&&◌, ◌||◌, String, arith,
  Bool-cases, if_true, if_false,
}
use vaala_ai_gateway.Relay.State.{Protocol, unknown, RelayMode, passthrough, legacy}
use vaala_ai_gateway.Relay.Mode.{
  protocol_eq, has_protocol, is_nil, declared, resolve_override, ModeChannel, outbound_of,
  should_use_legacy, should_passthrough, pick,
}
use vaala_ai_gateway.Relay.Mode.Declared.{eq_of_protocol_eq, negotiate_outbound_protocol_lem}

module _ (has_inbound has_outbound : Protocol → Bool) where
  -- What a mode promises: both codecs are there for the modes that need them, and a body that is
  -- passed through is in a protocol that the channel declares, if it declares any.
  pub record Promised (ch : ModeChannel) (model : String) (inbound : Protocol) (mode : RelayMode)
      : Type 0 where
    pub codecs :
        mode ≢ legacy
        → (has_inbound inbound ≡ true)
          × (has_outbound (outbound_of has_inbound has_outbound ch inbound model) ≡ true)
    pub same_protocol :
        mode ≡ passthrough
        → (outbound_of has_inbound has_outbound ch inbound model ≡ inbound)
          × (ch.passthrough_enabled ≡ true)
    pub accepted :
        mode ≡ passthrough
        → is_nil (declared ch.endpoints ch.supported_api_types) ≡ false
        → has_protocol inbound (declared ch.endpoints ch.supported_api_types) ≡ true

  legacy_needed :
      (ch : ModeChannel) (inbound : Protocol) (model : String)
      → should_use_legacy has_inbound has_outbound ch inbound model ≡ false
      → (has_inbound inbound ≡ true)
        × (has_outbound (outbound_of has_inbound has_outbound ch inbound model) ≡ true)
  unfolding should_use_legacy
  legacy_needed ch inbound model h =
      let out = has_outbound (outbound_of has_inbound has_outbound ch inbound model) in
      split ch.use_legacy_adaptor (protocol_eq inbound unknown) (has_inbound inbound) out h
    where
      split : (a b c d : Bool) → (a || b || not c || not d) ≡ false → (c ≡ true) × (d ≡ true)
      split a b c d h = ground (arith, h)

  passthrough_needs :
      (ch : ModeChannel) (inbound : Protocol) (model : String)
      → should_passthrough has_inbound has_outbound ch inbound model ≡ true
      → (outbound_of has_inbound has_outbound ch inbound model ≡ inbound)
        × (ch.passthrough_enabled ≡ true)
  unfolding should_passthrough
  passthrough_needs ch inbound model h =
      let (e, same) = split ch.passthrough_enabled _ h in (sym (eq_of_protocol_eq _ _ same), e)
    where
      split : (a b : Bool) → (a && b) ≡ true → (a ≡ true) × (b ≡ true)
      split a b h = ground (arith, h)

  -- Whatever the channel and its overrides: an attempt that is native or passed through has the
  -- codecs of both its protocols; one that is passed through stays in the protocol of the request,
  -- which the channel declares if it declares any, and the channel allows it.
  pub pick-Promised :
      (ch : ModeChannel) (model : String) (inbound : Protocol)
      → Promised ch model inbound (pick has_inbound has_outbound ch model inbound)
  unfolding pick
  pick-Promised ch model inbound =
      elim (Bool-cases (should_use_legacy has_inbound has_outbound ch inbound model)) [
        | inl l ↦
            subst (λ m. Promised ch model inbound m) (sym (if_true _ legacy _ l))
              (record {
                codecs = λ n. absurd (n refl);
                same_protocol = λ e. absurd (cc);
                accepted = λ e d. absurd (cc);
              })
        | inr l ↦
            let codecs = legacy_needed ch inbound model l in
            subst (λ m. Promised ch model inbound m) (sym (if_false _ legacy _ l))
              (elim (Bool-cases (should_passthrough has_inbound has_outbound ch inbound model)) [
                | inl p ↦
                    let (same, enabled) = passthrough_needs ch inbound model p in
                    subst (λ m. Promised ch model inbound m)
                      (sym (if_true _ passthrough RelayMode.native p))
                      (record {
                        codecs = λ n. codecs;
                        same_protocol = λ e. (same, enabled);
                        accepted = λ e d.
                            subst
                              (λ q.
                                has_protocol q (declared ch.endpoints ch.supported_api_types)
                                ≡ true)
                              same
                              ((negotiate_outbound_protocol_lem inbound ch.channel_type
                                  ch.supported_api_types ch.endpoints
                                  (resolve_override ch.rules model)).reachable
                                d);
                      })
                | inr p ↦
                    subst (λ m. Promised ch model inbound m)
                      (sym (if_false _ passthrough RelayMode.native p))
                      (record {
                        codecs = λ n. codecs;
                        same_protocol = λ e. absurd (cc);
                        accepted = λ e d. absurd (cc);
                      })
              ])
      ]
