-- ===== src/Tests/ByokCipher.antt =====
-- internal/pkg/byokcrypto with a cipher that writes the additional data in front of the text.
use vaala_ai_gateway.Prelude.{
  ℕ, zero, suc, ◌+◌, ◌≡◌, ◌≢◌, refl, sym, ap, ◌∙◌, Bool, true, false, ◌&&◌, [], ◌∷◌, ◌++◌, Option,
  none, some, inl, inr, arith, ◌==◌, if◌then◌else◌, if_true, if_false, Bool-cases, length,
  length-append,
}
use vaala_ai_gateway.Master.ByokCipher.{
  Bytes, Aead, split_at, seal_key, open_key, sanitize_decrypt_err, decrypt_failure, aad_for,
  little_endian, last4,
}
use vaala_ai_gateway.Master.ByokCipher.Opened.{split_at-append, open_key-seal_key}

abbrev pad : ℕ → Bytes → Bytes
pad zero a = []
pad (suc k) [] = 0 ∷ pad k []
pad (suc k) (x ∷ a) = x ∷ pad k a

length-pad : (k : ℕ) (a : Bytes) → length (pad k a) ≡ k
length-pad zero a = refl
length-pad (suc k) [] = ap suc (length-pad k [])
length-pad (suc k) (x ∷ a) = ap suc (length-pad k a)

pad_full : (k : ℕ) (a : Bytes) → length a ≡ k → pad k a ≡ a
pad_full zero [] h = refl
pad_full zero (x ∷ a) h = absurd (omega (arith, h))
pad_full (suc k) [] h = absurd (omega (arith, h))
pad_full (suc k) (x ∷ a) h = ap (λ r. x ∷ r) (pad_full k a (omega (arith, h)))

abbrev list_eq : Bytes → Bytes → Bool
list_eq [] [] = true
list_eq [] (y ∷ b) = false
list_eq (x ∷ a) [] = false
list_eq (x ∷ a) (y ∷ b) = x == y && list_eq a b

list_eq_refl : (a : Bytes) → list_eq a a ≡ true
list_eq_refl [] = refl
list_eq_refl (x ∷ a) = ground (arith, list_eq_refl a)

list_eq_sound : (a b : Bytes) → list_eq a b ≡ true → a ≡ b
list_eq_sound [] [] h = refl
list_eq_sound [] (y ∷ b) h = absurd (cc)
list_eq_sound (x ∷ a) [] h = absurd (cc)
list_eq_sound (x ∷ a) (y ∷ b) h = ground (arith, h, list_eq_sound a b)

abbrev check_pad : Bytes → Bytes × Bytes → Option Bytes
check_pad aad (front, back) = if list_eq (pad 8 aad) front then some back else none

abbrev toy_open : Bytes → Bytes → Bytes → Option Bytes
unfolding split_at
toy_open nonce ct aad = check_pad aad (split_at 8 ct)

abbrev toy_seal : Bytes → Bytes → Bytes → Bytes
toy_seal nonce text aad = pad 8 aad ++ text

toy_length : (nonce text aad : Bytes) → length (toy_seal nonce text aad) ≡ length text + 8
toy_length nonce text aad = omega (arith, length-append (pad 8 aad) text, length-pad 8 aad)

toy_split : (aad text : Bytes) → split_at 8 (pad 8 aad ++ text) ≡ (pad 8 aad, text)
toy_split aad text =
    ap (λ n. split_at n (pad 8 aad ++ text)) (sym (length-pad 8 aad))
    ∙ split_at-append (pad 8 aad) text

toy_opens :
    (nonce text aad : Bytes)
    → length nonce ≡ 2
    → toy_open nonce (toy_seal nonce text aad) aad ≡ some text
unfolding split_at
toy_opens nonce text aad h =
    ap (check_pad aad) (toy_split aad text)
    ∙ if_true (list_eq (pad 8 aad) (pad 8 aad)) (some text) none (list_eq_refl (pad 8 aad))

toy_refuses :
    (nonce text aad other : Bytes)
    → length nonce ≡ 2
    → length aad ≡ 8
    → length other ≡ 8
    → aad ≢ other
    → toy_open nonce (toy_seal nonce text aad) other ≡ none
unfolding split_at
toy_refuses nonce text aad other h a o differ =
    ap (check_pad other) (toy_split aad text)
    ∙ elim (Bool-cases (list_eq (pad 8 other) (pad 8 aad))) [
      | inl e ↦ absurd (
          differ (
            sym (pad_full 8 aad a)
            ∙ sym (list_eq_sound (pad 8 other) (pad 8 aad) e)
            ∙ pad_full 8 other o))
      | inr e ↦ if_false (list_eq (pad 8 other) (pad 8 aad)) (some text) none e
    ]

abbrev toy : Aead
unfolding split_at
toy = record {
  nonce_size = 2;
  overhead = 8;
  seal = toy_seal;
  open_sealed = toy_open;
  length-seal = toy_length;
  open_sealed-seal = toy_opens;
  open_sealed-other = toy_refuses;
}

abbrev sealed_hi : Bytes
sealed_hi = 1 ∷ 2 ∷ 3 ∷ 1 ∷ 0 ∷ 0 ∷ 0 ∷ 0 ∷ 0 ∷ 0 ∷ 104 ∷ 105 ∷ []

open_key-seal_key_example :
    (open_key toy sealed_hi 259 ≡ inr (104 ∷ 105 ∷ []))
    × (sanitize_decrypt_err (open_key toy sealed_hi 4) ≡ inl decrypt_failure)
unfolding split_at seal_key aad_for little_endian
open_key-seal_key_example =
    open_key-seal_key toy (1 ∷ 2 ∷ []) (104 ∷ 105 ∷ []) sealed_hi 259 4 refl (omega arith)
      (omega arith) differ refl
  where
    differ : ◌≢◌ {A = ℕ} 259 4
    differ e = absurd (omega (arith, e))

last_four : last4 (1 ∷ 2 ∷ 3 ∷ 4 ∷ 5 ∷ []) ≡ 2 ∷ 3 ∷ 4 ∷ 5 ∷ []
unfolding last4
last_four = refl
