-- ===== src/Relay/Routing/Mark.antt =====
-- internal/agent/relay/pipeline/plan/routing.go: `MarkMemberExhausted`.
use vaala_ai_gateway.Prelude.{
  ℕ, ◌≡◌, refl, sym, subst, true, String, List, [], ◌∷◌, arith, eq_iff, ==_iff,
}
use vaala_ai_gateway.Relay.Random.{Random}
use vaala_ai_gateway.Relay.Routing.{ResolveCtx, exclude, mark_chain, mark_member_exhausted}

module _ (rand : Random) where
  abbrev Ctx : Type 0
  Ctx = ResolveCtx rand

  mark_chain_grows :
      (ids : List ℕ) (name : String) (c : Ctx) (i : ℕ) (ref : String)
      → c.excluded i ref ≡ true
      → (mark_chain rand ids name c).excluded i ref ≡ true
  unfolding mark_chain
  mark_chain_grows [] name c i ref h = h
  mark_chain_grows (id ∷ ids) name c i ref h =
      mark_chain_grows ids name (exclude rand id name c) i ref (ground arith)

  mark_chain_keeps :
      (ids : List ℕ) (name : String) (c : Ctx)
      → ((mark_chain rand ids name c).depth ≡ c.depth)
        × ((mark_chain rand ids name c).visited ≡ c.visited)
  unfolding mark_chain
  mark_chain_keeps [] name c = (refl, refl)
  mark_chain_keeps (id ∷ ids) name c = mark_chain_keeps ids name (exclude rand id name c)

  -- Marking forgets no exclusion, and leaves the depth and the path alone.
  pub mark_member_exhausted_keeps :
      (name : String) (c : Ctx)
      → let c' = mark_member_exhausted rand name c in
        (c'.depth ≡ c.depth)
        × (c'.visited ≡ c.visited)
        × ((i : ℕ) (ref : String) → c.excluded i ref ≡ true → c'.excluded i ref ≡ true)
  unfolding mark_member_exhausted
  mark_member_exhausted_keeps name c =
      let (d, v) = mark_chain_keeps c.last_chain name c in
      (d, v, λ i ref h. mark_chain_grows c.last_chain name c i ref h)

  -- The deepest routing of the chain, the first in it, has the name excluded afterwards.
  pub mark_member_exhausted_first :
      (name : String) (c : Ctx) (id : ℕ) (outer : List ℕ)
      → c.last_chain ≡ id ∷ outer
      → (mark_member_exhausted rand name c).excluded id name ≡ true
  unfolding mark_member_exhausted mark_chain
  mark_member_exhausted_first name c id outer e =
      subst (λ l. (mark_chain rand l name c).excluded id name ≡ true) (sym e)
        (mark_chain_grows outer name (exclude rand id name c) id name
          (unfold exclude in ground (arith, eq_iff name name, ==_iff id id)))
