-- ===== src/Tests/TokenStore.antt =====
-- internal/agent/cache/store_token.go over a cache of one entry.
use vaala_ai_gateway.Prelude.{
  ℕ, ◌≡◌, refl, sym, ap, ◌∙◌, ◌⊎◌, false, String, str_eq, eq_iff, [], Option, none, some, inl, inr,
  if◌then◌else◌, if_true, if_false, Bool-cases,
}
use vaala_ai_gateway.Utils.SyncMap.{load, put, delete}
use vaala_ai_gateway.Agent.RouteIndex.{number_comparable}
use vaala_ai_gateway.Master.Heartbeat.{string_comparable}
use vaala_ai_gateway.Agent.EntityCache.{Lru, Slot, present, hit, get, add_slot}
use vaala_ai_gateway.Agent.TokenStore.{Token, Store, set_token, get_token, get_found}
use vaala_ai_gateway.Agent.TokenStore.Interleaved.{
  Runs, parts, still, onward, added, unlinked, linked, get_found-Runs,
}

module _ {V : Type 0} where
  abbrev peek_one : Option (String × V) → String → Option V
  peek_one none k = none
  peek_one (some (j, v)) k = if str_eq j k then some v else none

  abbrev add_one : Option (String × V) → String → V → Option (String × V) × Option (String × V)
  add_one none k v = (some (k, v), none)
  add_one (some (j, w)) k v = (some (k, v), if str_eq j k then none else some (j, w))

  abbrev remove_one : Option (String × V) → String → Option (String × V) × Option (String × V)
  remove_one none k = (none, none)
  remove_one (some (j, v)) k = if str_eq j k then (none, some (j, v)) else (some (j, v), none)

  add-self_one :
      (s : Option (String × V)) (k : String) (v : V) → peek_one (add_one s k v).0 k ≡ some v
  add-self_one none k v = if_true (str_eq k k) (some v) none ((eq_iff k k).1 refl)
  add-self_one (some (j, w)) k v = if_true (str_eq k k) (some v) none ((eq_iff k k).1 refl)

  add-other_one :
      (s : Option (String × V)) (k j : String) (v w : V)
      → str_eq k j ≡ false
      → peek_one s j ≡ some w
      → (peek_one (add_one s k v).0 j ≡ some w) ⊎ ((add_one s k v).1 ≡ some (j, w))
  add-other_one none k j v w other e = absurd (cc)
  add-other_one (some (i, x)) k j v w other e = elim (Bool-cases (str_eq i j)) [
    | inl same ↦
        let q : i ≡ j = (eq_iff i j).0 same in
        let x_is : some x ≡ some w = rw same at e in
        let differ : str_eq i k ≡ false = elim (Bool-cases (str_eq i k)) [
          | inl t ↦ absurd (cc (sym other ∙ (eq_iff k j).1 (sym ((eq_iff i k).0 t) ∙ q)))
          | inr t ↦ t
        ] in
        inr (if_false (str_eq i k) none (some (i, x)) differ ∙ cc)
    | inr apart ↦ absurd (cc (rw apart at e))
  ]

  add-from_one :
      (s : Option (String × V)) (k j : String) (v w : V)
      → str_eq k j ≡ false
      → peek_one (add_one s k v).0 j ≡ some w
      → peek_one s j ≡ some w
  add-from_one none k j v w other e = absurd (cc (rw other at e))
  add-from_one (some (i, x)) k j v w other e = absurd (cc (rw other at e))

  remove-from_one :
      (s : Option (String × V)) (k j : String) (w : V)
      → peek_one (remove_one s k).0 j ≡ some w
      → peek_one s j ≡ some w
  remove-from_one none k j w e = e
  remove-from_one (some (i, x)) k j w e = elim (Bool-cases (str_eq i k)) [
    | inl same ↦ absurd (cc (rw same at e))
    | inr apart ↦ rw apart at e
  ]

  remove-other_one :
      (s : Option (String × V)) (k j : String)
      → str_eq k j ≡ false
      → peek_one (remove_one s k).0 j ≡ peek_one s j
  remove-other_one none k j other = refl
  remove-other_one (some (i, x)) k j other = elim (Bool-cases (str_eq i k)) [
    | inl same ↦ rw same (
        sym (
          ap (λ (l : String). if str_eq l j then some x else none) ((eq_iff i k).0 same)
          ∙ if_false (str_eq k j) (some x) none other))
    | inr apart ↦ rw apart refl
  ]

  remove-self_one :
      (s : Option (String × V)) (k : String) (v : V)
      → peek_one s k ≡ some v
      → (remove_one s k).1 ≡ some (k, v)
  remove-self_one none k v e = absurd (cc)
  remove-self_one (some (i, x)) k v e = elim (Bool-cases (str_eq i k)) [
    | inl same ↦
        let q : i ≡ k = (eq_iff i k).0 same in
        let x_is : some x ≡ some v = rw same at e in rw same (cc)
    | inr apart ↦ absurd (cc (rw apart at e))
  ]

  abbrev one_entry : Lru String V
  one_entry = record {
    State = Option (String × V);
    peek = peek_one;
    refresh = λ s k. s;
    add = add_one;
    remove = remove_one;
    refresh_lem = λ s k j. refl;
    add-self = add-self_one;
    add-other = add-other_one;
    add-from = add-from_one;
    remove-from = remove-from_one;
    remove-other = remove-other_one;
    remove-self = remove-self_one;
  }

abbrev tokens : Lru String (Slot (Token ℕ))
tokens = one_entry

abbrev token : ℕ → String → Token ℕ
token id key = record { id = id; key = key; rest = 0 }

abbrev empty : Store tokens 5
empty = record {
  primary = record {
    cache = none;
    hits = 0;
    misses = 0;
    evictions = 0;
    negative_hits = 0;
    load_errors = 0;
    invalidations = 0;
  };
  by_id = [];
}

abbrev first : Store tokens 5
unfolding set_token
first = set_token tokens 5 empty (token 1 "a")

-- The second token evicts the first.
abbrev second : Store tokens 5
unfolding set_token
second = set_token tokens 5 first (token 2 "b")

first_forgotten : load second.by_id 1 ≡ none
unfolding set_token add_slot put delete load
first_forgotten = refl

abbrev owner : String → ℕ
owner k = if str_eq k "a" then 1 else 2

abbrev cache_ab : Option (String × Slot (Token ℕ))
cache_ab = some ("b", present (token 2 "b"))

-- A `Set` of "a" is between its two calls while a `Set` of "b" evicts "a": the index keeps "a".
abbrev late : Store tokens 5
unfolding put
late = record {
  primary = record second.primary { cache = cache_ab };
  by_id = put (put [] 2 "b") 1 "a";
}

late-Runs : Runs tokens 5 owner (none, []) (parts tokens 5 owner late)
unfolding put delete set_token
late-Runs = onward _ _ _ (added none [] (token 1 "a") refl) (
    onward _ _ _ (added _ [] (token 2 "b") refl) (
      onward _ _ _ (unlinked _ [] 1) (
        onward _ _ _ (linked _ _ (token 2 "b") refl)
          (onward _ _ _ (linked _ _ (token 1 "a") refl) (still _)))))

-- The identifier leads to a key that is not cached.
late_dangling : (load late.by_id 1 ≡ some "a") × (peek_one cache_ab "a" ≡ none)
unfolding put load set_token
late_dangling = (refl, refl)

abbrev fetched : Option (String ⊎ Option (Token ℕ))
fetched = some (inr (some (token 1 "a")))

-- The token is fetched by its identifier.
late_found : (get_found tokens 5 9 none fetched late 1 (load late.by_id 1)).1 ≡ hit (token 1 "a")
unfolding put load set_token get_token get delete add_slot
late_found = refl

get_found-Runs_example : (token 1 "a").id ≡ 1
get_found-Runs_example =
    get_found-Runs tokens 5 owner none (parts tokens 5 owner late) late 1 9 none fetched
      (token 1 "a") (λ k. refl) late-Runs (still _) (λ k u e l. absurd (cc))
      (λ u e. let q : token 1 "a" ≡ u = cc in ap (λ (x : Token ℕ). x.id) (sym q)) late_found
