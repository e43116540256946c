-- ===== src/Master/ByokCipher.antt =====
-- internal/pkg/byokcrypto: the encryption of the keys that users bring. A text is the list of its
-- bytes. AES-GCM, base64, HKDF and the random generator are parameters.
pub mod Opened
use vaala_ai_gateway.Prelude.{
  ℕ, zero, suc, ◌+◌, ◌-◌, ◌%◌, ◌/◌, ◌≡◌, ◌≢◌, List, [], ◌∷◌, ◌++◌, Option, none, some, ◌⊎◌, inl,
  inr, ltb, leb, ◌==◌, Bool, length, if◌then◌else◌,
}

abbrev pub Bytes : Type 0
Bytes = List ℕ

-- `cipher.AEAD`: what package `cipher` documents of `Seal` and `Open`. The last law is what it says
-- of the additional data, for data of eight bytes.
pub record Aead : Type 0 where
  pub nonce_size : ℕ
  pub overhead : ℕ
  pub seal : Bytes → Bytes → Bytes → Bytes
  pub open_sealed : Bytes → Bytes → Bytes → Option Bytes
  pub length-seal : (nonce text aad : Bytes) → length (seal nonce text aad) ≡ length text + overhead
  pub open_sealed-seal :
      (nonce text aad : Bytes)
      → length nonce ≡ nonce_size
      → open_sealed nonce (seal nonce text aad) aad ≡ some text
  pub open_sealed-other :
      (nonce text aad other : Bytes)
      → length nonce ≡ nonce_size
      → length aad ≡ 8
      → length other ≡ 8
      → aad ≢ other
      → open_sealed nonce (seal nonce text aad) other ≡ none

pub data CipherError : Type 0 where
  bad_kek no_key derive_failed bad_block no_nonce too_short open_failed decrypt_failure :
      CipherError

-- `base64.StdEncoding.DecodeString`, `io.ReadFull` of 32 bytes of the HKDF reader, and `aes.NewCipher`
-- with `cipher.NewGCM`.
pub record CryptoEnv : Type 0 where
  pub decode_base64 : Bytes → Option Bytes
  pub derive : Bytes → Option Bytes
  pub new_gcm : Bytes → Option Aead

abbrev pub or_fail : {A : Type 0} → CipherError → Option A → CipherError ⊎ A
or_fail e none = inl e
or_fail e (some a) = inr a

abbrev pub check_kek : Option Bytes → CipherError ⊎ Bytes
check_kek none = inl bad_kek
check_kek (some k) = if length k == 32 then inr k else inl bad_kek

abbrev pub is_set : Bytes → Bool
is_set s = ltb 0 (length s)

module _ (env : CryptoEnv) where
  unfoldable pub choose_key : Bytes → Bytes → CipherError ⊎ Bytes
  choose_key byok_kek jwt_secret =
      if is_set byok_kek
      then check_kek (env.decode_base64 byok_kek)
      else if is_set jwt_secret
      then or_fail derive_failed (env.derive jwt_secret)
      else inl no_key

  abbrev pub with_key : CipherError ⊎ Bytes → CipherError ⊎ Aead
  with_key (inl e) = inl e
  with_key (inr key) = or_fail bad_block (env.new_gcm key)

  unfoldable pub new_from_config : Bytes → Bytes → CipherError ⊎ Aead
  unfolding choose_key
  new_from_config byok_kek jwt_secret = with_key (choose_key byok_kek jwt_secret)

-- The `count` lowest bytes, the lowest first.
unfoldable pub little_endian : ℕ → ℕ → Bytes
little_endian zero n = []
little_endian (suc count) n = n % 256 ∷ little_endian count (n / 256)

unfoldable pub aad_for : ℕ → Bytes
unfolding little_endian
aad_for owner_id = little_endian 8 owner_id

-- `b[:n]` and `b[n:]`
unfoldable pub split_at : ℕ → Bytes → Bytes × Bytes
split_at zero b = ([], b)
split_at (suc n) [] = ([], [])
split_at (suc n) (x ∷ b) = let (front, back) = split_at n b in (x ∷ front, back)

-- `rand.Read` fills as many bytes as it is given: `nonce` is what it put there.
unfoldable pub seal_key : Aead → Option Bytes → Bytes → ℕ → CipherError ⊎ Bytes
unfolding aad_for
seal_key c none text owner_id = inl no_nonce
seal_key c (some nonce) text owner_id = inr (nonce ++ c.seal nonce text (aad_for owner_id))

unfoldable pub open_key : Aead → Bytes → ℕ → CipherError ⊎ Bytes
unfolding aad_for split_at
open_key c ciphertext owner_id =
    if ltb (length ciphertext) (c.nonce_size + c.overhead)
    then inl too_short
    else (let (nonce, ct) = split_at c.nonce_size ciphertext in
        or_fail open_failed (c.open_sealed nonce ct (aad_for owner_id)))

-- The last four runes of a text.
unfoldable pub last4 : Bytes → Bytes
unfolding split_at
last4 runes = if leb (length runes) 4 then runes else (split_at (length runes - 4) runes).1

-- An error of `Open` as it leaves the package.
unfoldable pub sanitize_decrypt_err : CipherError ⊎ Bytes → CipherError ⊎ Bytes
sanitize_decrypt_err (inl e) = inl decrypt_failure
sanitize_decrypt_err (inr text) = inr text
