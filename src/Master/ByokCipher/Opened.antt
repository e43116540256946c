-- ===== src/Master/ByokCipher/Opened.antt =====
-- internal/pkg/byokcrypto: a sealed key opens for its owner, and for nobody else.
use vaala_ai_gateway.Prelude.{
  ℕ, zero, suc, ◌+◌, ◌*◌, ◌%◌, ◌/◌, ◌<◌, ◌≡◌, ◌≢◌, refl, sym, ap, ◌∙◌, [], ◌∷◌, ◌++◌, some, inl,
  inr, arith, ltb, if_false, length, length-append,
}
use vaala_ai_gateway.Master.ByokCipher.{
  Bytes, Aead, or_fail, little_endian, aad_for, split_at, seal_key, open_key, sanitize_decrypt_err,
  decrypt_failure, open_failed,
}

-- 256 to the power.
abbrev pow256 : ℕ → ℕ
pow256 zero = 1
pow256 (suc k) = 256 * pow256 k

little_endian-injective :
    (k a b : ℕ) → a < pow256 k → b < pow256 k → little_endian k a ≡ little_endian k b → a ≡ b
unfolding little_endian
little_endian-injective zero a b h i e = omega arith
little_endian-injective (suc k) a b h i e =
    let low : a % 256 ≡ b % 256 = cc in
    let rest : little_endian k (a / 256) ≡ little_endian k (b / 256) = cc in
    let high = little_endian-injective k (a / 256) (b / 256) (omega arith) (omega arith) rest in
    omega (arith, low, high)

length-little_endian : (k n : ℕ) → length (little_endian k n) ≡ k
unfolding little_endian
length-little_endian zero n = refl
length-little_endian (suc k) n = ap suc (length-little_endian k (n / 256))

pub split_at-append : (front back : Bytes) → split_at (length front) (front ++ back) ≡ (front, back)
unfolding split_at
split_at-append [] back = refl
split_at-append (x ∷ front) back =
    ap (λ (p : Bytes × Bytes). (x ∷ p.0, p.1)) (split_at-append front back)

module _ (c : Aead) (nonce text : Bytes) (full : length nonce ≡ c.nonce_size) where
  -- What is sealed is long enough, and falls apart into the nonce and the rest.
  open_key-sealed :
      (owner_id reader_id : ℕ)
      → open_key c (nonce ++ c.seal nonce text (aad_for owner_id)) reader_id
        ≡ or_fail open_failed
            (c.open_sealed nonce (c.seal nonce text (aad_for owner_id)) (aad_for reader_id))
  unfolding open_key
  open_key-sealed owner_id reader_id =
      let ct = c.seal nonce text (aad_for owner_id) in
      if_false (ltb (length (nonce ++ ct)) (c.nonce_size + c.overhead)) _ _
        (ground (arith, full, length-append nonce ct, c.length-seal nonce text (aad_for owner_id)))
      ∙ ap (λ (p : Bytes × Bytes). or_fail open_failed (c.open_sealed p.0 p.1 (aad_for reader_id)))
          (ap (λ n. split_at n (nonce ++ ct)) (sym full) ∙ split_at-append nonce ct)

-- Where the nonce has the size of the cipher, a sealed key opens for its owner as the text that was
-- sealed, and for a reader with another 64-bit identifier the opening fails with the fixed error.
pub open_key-seal_key :
    (c : Aead) (nonce text sealed : Bytes) (owner_id reader_id : ℕ)
    → length nonce ≡ c.nonce_size
    → owner_id < 18446744073709551616
    → reader_id < 18446744073709551616
    → owner_id ≢ reader_id
    → seal_key c (some nonce) text owner_id ≡ inr sealed
    → (open_key c sealed owner_id ≡ inr text)
      × (sanitize_decrypt_err (open_key c sealed reader_id) ≡ inl decrypt_failure)
unfolding seal_key aad_for sanitize_decrypt_err
open_key-seal_key c nonce text sealed owner_id reader_id full small small' differ e =
    let is : nonce ++ c.seal nonce text (aad_for owner_id) ≡ sealed = cc in
    (
      ap (λ s. open_key c s owner_id) (sym is)
          ∙ open_key-sealed c nonce text full owner_id owner_id
          ∙ ap (or_fail open_failed) (c.open_sealed-seal nonce text (aad_for owner_id) full),
      ap (λ s. sanitize_decrypt_err (open_key c s reader_id)) (sym is)
          ∙ ap sanitize_decrypt_err (
              open_key-sealed c nonce text full owner_id reader_id
              ∙ ap (or_fail open_failed) (
                  c.open_sealed-other nonce text (aad_for owner_id) (aad_for reader_id) full
                    (length-little_endian 8 owner_id) (length-little_endian 8 reader_id)
                    (λ same.
                      differ (little_endian-injective 8 owner_id reader_id small small' same)))),
    )
