-- ===== src/Relay/Inflight/Tracked.antt =====
-- internal/agent/relay/inflight/registry.go: the registry holds the requests that are tracked and
-- not done.
use vaala_ai_gateway.Prelude.{
  ℕ, ◌+◌, ◌≡◌, refl, sym, ap, ◌∙◌, inl, inr, Bool, true, false, ◌||◌, List, [], ◌∷◌, map, Option,
  none, some, ◌==◌, arith, Bool-cases, if◌then◌else◌,
}
use vaala_ai_gateway.Utils.SyncMap.{load, put, delete, load-put, load-delete}
use vaala_ai_gateway.Agent.RouteIndex.{number_comparable}
use vaala_ai_gateway.Relay.Inflight.{
  Meta, Snapshot, Entry, Registry, Change, change_entry, new_registry, store_changed, set_entry,
  done, track, new_entry, snapshot_entry, snapshot, call_cancel, interrupt_entry, interrupt,
  set_stage, set_model, set_stream, set_channel,
}

-- What the relay does with the registry.
pub data Event (Cancel : Type 0) : Type 0 where
  tracked : ℕ → Meta Cancel → Event Cancel
  changed : Option ℕ → Change → Event Cancel
  finished : Option ℕ → Event Cancel

abbrev pub is_listed : ℕ → List Snapshot → Bool
is_listed id [] = false
is_listed id (s ∷ l) = s.id == id || is_listed id l

module _ {Cancel : Type 0} where
  abbrev pub apply : Event Cancel → Registry Cancel → Registry Cancel
  apply (tracked now meta) r = track now meta r
  apply (changed handle c) r = set_entry handle c r
  apply (finished handle) r = done handle r

  -- The registry after the events, the latest of which comes first.
  abbrev pub after : List (Event Cancel) → Registry Cancel
  after [] = new_registry
  after (e ∷ history) = apply e (after history)

  -- How many requests were tracked.
  abbrev pub count_tracked : List (Event Cancel) → ℕ
  count_tracked [] = 0
  count_tracked (tracked now meta ∷ history) = count_tracked history + 1
  count_tracked (changed handle c ∷ history) = count_tracked history
  count_tracked (finished handle ∷ history) = count_tracked history

  -- The cancel function of the request `id`, if it was tracked and has not finished: a request is
  -- numbered by its place among the tracked ones.
  abbrev pub open_cancel : List (Event Cancel) → ℕ → Option (Option Cancel)
  open_cancel [] id = none
  open_cancel (tracked now meta ∷ history) id =
      if count_tracked history + 1 == id then some meta.cancel else open_cancel history id
  open_cancel (changed handle c ∷ history) id = open_cancel history id
  open_cancel (finished none ∷ history) id = open_cancel history id
  open_cancel (finished (some j) ∷ history) id = if j == id then none else open_cancel history id

  abbrev pub cancel_of : Option (Entry Cancel) → Option (Option Cancel)
  cancel_of none = none
  cancel_of (some e) = some e.cancel

  abbrev pub is_open : Option (Option Cancel) → Bool
  is_open none = false
  is_open (some x) = true

  -- Each entry stands at its own identifier.
  abbrev pub IsKeyed : List (ℕ × Entry Cancel) → Type 0
  IsKeyed [] = Unit
  IsKeyed ((k, e) ∷ m) = (e.id ≡ k) × IsKeyed m

  put-IsKeyed :
      (m : List (ℕ × Entry Cancel)) (k : ℕ) (e : Entry Cancel)
      → e.id ≡ k
      → IsKeyed m
      → IsKeyed (put m k e)
  unfolding put
  put-IsKeyed [] k e q h = (q, tt)
  put-IsKeyed ((j, d) ∷ m) k e q h = elim (Bool-cases (j == k)) [
    | inl same ↦ rw same (q, h.1)
    | inr other ↦ rw other (h.0, put-IsKeyed m k e q h.1)
  ]

  delete-IsKeyed : (m : List (ℕ × Entry Cancel)) (k : ℕ) → IsKeyed m → IsKeyed (delete m k)
  unfolding delete
  delete-IsKeyed [] k h = tt
  delete-IsKeyed ((j, d) ∷ m) k h = elim (Bool-cases (j == k)) [
    | inl same ↦ rw same (delete-IsKeyed m k h.1)
    | inr other ↦ rw other (h.0, delete-IsKeyed m k h.1)
  ]

  load-IsKeyed :
      (m : List (ℕ × Entry Cancel)) (k : ℕ) (e : Entry Cancel)
      → IsKeyed m
      → load m k ≡ some e
      → e.id ≡ k
  unfolding load
  load-IsKeyed [] k e h l = absurd (cc)
  load-IsKeyed ((j, d) ∷ m) k e h l = elim (Bool-cases (j == k)) [
    | inl same ↦
        let l' : some d ≡ some e = rw same at l in
        let q : d ≡ e = cc in
        sym (ap (λ (x : Entry Cancel). x.id) q) ∙ h.0 ∙ (number_comparable.eqb_iff j k).0 same
    | inr other ↦ load-IsKeyed m k e h.1 (rw other at l)
  ]

  change_entry_lem :
      (c : Change) (e : Entry Cancel)
      → ((change_entry c e).id ≡ e.id) × ((change_entry c e).cancel ≡ e.cancel)
  change_entry_lem (set_stage _) e = (refl, refl)
  change_entry_lem (set_model _) e = (refl, refl)
  change_entry_lem (set_stream _) e = (refl, refl)
  change_entry_lem (set_channel _) e = (refl, refl)

  is_listed-map :
      (now id : ℕ) (m : List (ℕ × Entry Cancel))
      → IsKeyed m
      → is_listed id (map (snapshot_entry now) m) ≡ is_open (cancel_of (load m id))
  unfolding load
  is_listed-map now id [] h = refl
  is_listed-map now id ((k, e) ∷ m) h = rw h.0 (elim (Bool-cases (k == id)) [
    | inl same ↦ rw same refl
    | inr other ↦ rw other (is_listed-map now id m h.1)
  ])

  store_changed-IsKeyed :
      (id : ℕ) (c : Change) (r : Registry Cancel) (o : Option (Entry Cancel))
      → load r.entries id ≡ o
      → IsKeyed r.entries
      → IsKeyed (store_changed id c r o).entries
  store_changed-IsKeyed id c r none q h = h
  store_changed-IsKeyed id c r (some e) q h =
      put-IsKeyed r.entries id (change_entry c e)
        ((change_entry_lem c e).0 ∙ load-IsKeyed r.entries id e h q) h

  cancel_of-store_changed :
      (id j : ℕ) (c : Change) (r : Registry Cancel) (o : Option (Entry Cancel))
      → load r.entries j ≡ o
      → cancel_of (load (store_changed j c r o).entries id) ≡ cancel_of (load r.entries id)
  cancel_of-store_changed id j c r none q = refl
  cancel_of-store_changed id j c r (some e) q =
      ap cancel_of (load-put r.entries j id (change_entry c e)) ∙ elim (Bool-cases (j == id)) [
        | inl same ↦ rw same (
            ap some (change_entry_lem c e).1
            ∙ ap cancel_of (sym q ∙ ap (load r.entries) ((number_comparable.eqb_iff j id).0 same)))
        | inr other ↦ rw other refl
      ]

  after-IsKeyed : (history : List (Event Cancel)) → IsKeyed (after history).entries
  unfolding track set_entry done
  after-IsKeyed [] = tt
  after-IsKeyed (tracked now meta ∷ history) =
      let r = after history in
      put-IsKeyed r.entries (r.next_id + 1) (new_entry now meta (r.next_id + 1)) refl
        (after-IsKeyed history)
  after-IsKeyed (changed none c ∷ history) = after-IsKeyed history
  after-IsKeyed (changed (some id) c ∷ history) =
      store_changed-IsKeyed id c (after history) (load (after history).entries id) refl
        (after-IsKeyed history)
  after-IsKeyed (finished none ∷ history) = after-IsKeyed history
  after-IsKeyed (finished (some id) ∷ history) =
      delete-IsKeyed (after history).entries id (after-IsKeyed history)

  next_id-store_changed :
      (id : ℕ) (c : Change) (r : Registry Cancel) (o : Option (Entry Cancel))
      → (store_changed id c r o).next_id ≡ r.next_id
  next_id-store_changed id c r none = refl
  next_id-store_changed id c r (some e) = refl

  next_id-after : (history : List (Event Cancel)) → (after history).next_id ≡ count_tracked history
  unfolding track set_entry done
  next_id-after [] = refl
  next_id-after (tracked now meta ∷ history) = omega (arith, next_id-after history)
  next_id-after (changed none c ∷ history) = next_id-after history
  next_id-after (changed (some id) c ∷ history) =
      next_id-store_changed id c (after history) (load (after history).entries id)
      ∙ next_id-after history
  next_id-after (finished none ∷ history) = next_id-after history
  next_id-after (finished (some id) ∷ history) = next_id-after history

  cancel_of-if :
      (t : Bool) (o p : Option (Entry Cancel))
      → cancel_of (if t then o else p) ≡ (if t then cancel_of o else cancel_of p)
  cancel_of-if true o p = refl
  cancel_of-if false o p = refl

  cancel_of-after :
      (history : List (Event Cancel)) (id : ℕ)
      → cancel_of (load (after history).entries id) ≡ open_cancel history id
  unfolding track set_entry done load
  cancel_of-after [] id = refl
  cancel_of-after (tracked now meta ∷ history) id =
      let r = after history in
      let e = new_entry now meta (r.next_id + 1) in
      ap cancel_of (load-put r.entries (r.next_id + 1) id e)
      ∙ cancel_of-if (r.next_id + 1 == id) (some e) (load r.entries id)
      ∙ ap (λ n. if n + 1 == id then some meta.cancel else cancel_of (load r.entries id))
          (next_id-after history)
      ∙ ap (λ o. if count_tracked history + 1 == id then some meta.cancel else o)
          (cancel_of-after history id)
  cancel_of-after (changed none c ∷ history) id = cancel_of-after history id
  cancel_of-after (changed (some j) c ∷ history) id =
      cancel_of-store_changed id j c (after history) (load (after history).entries j) refl
      ∙ cancel_of-after history id
  cancel_of-after (finished none ∷ history) id = cancel_of-after history id
  cancel_of-after (finished (some j) ∷ history) id =
      ap cancel_of (load-delete (after history).entries j id)
      ∙ cancel_of-if (j == id) none (load (after history).entries id)
      ∙ ap (λ o. if j == id then none else o) (cancel_of-after history id)

  abbrev pub interrupt_open : Option (Option Cancel) → Bool × List Cancel
  interrupt_open none = (false, [])
  interrupt_open (some cancel) = call_cancel cancel

  interrupt_open-cancel_of :
      (o : Option (Entry Cancel)) → interrupt_entry o ≡ interrupt_open (cancel_of o)
  interrupt_open-cancel_of none = refl
  interrupt_open-cancel_of (some e) = refl

  -- After any interleaving of tracked requests, setters and `Done`, a snapshot lists a request if
  -- and only if it was tracked and is not done, and an interrupt calls the cancel function that the
  -- request was tracked with if there is one, and nothing for a request that is done or unknown.
  pub interrupt-after :
      (history : List (Event Cancel)) (now id : ℕ)
      → (is_listed id (snapshot now (after history)) ≡ is_open (open_cancel history id))
        × (interrupt id (after history) ≡ interrupt_open (open_cancel history id))
  unfolding snapshot interrupt
  interrupt-after history now id =
      let same = cancel_of-after history id in
      (
        is_listed-map now id (after history).entries (after-IsKeyed history) ∙ ap is_open same,
        interrupt_open-cancel_of (load (after history).entries id) ∙ ap interrupt_open same,
      )
