-- ===== src/Crypto.antt =====
-- core/crypto.py: the credentials of a broker account as they are stored, a ciphertext and a nonce.
use aurum_platform.Common.{String, ℕ, ◌≡◌, Option, some, ◌==◌}
use aurum_platform.Json.{Value, obj, Fields, get}
use aurum_platform.Errors.{crypto}
use aurum_platform.Exec.{ok, Exec, pure, raise, or_raise, require, ◌>>=◌, ◌>>◌}

-- What `json` and libsodium give, under the master key. Byte strings are numbers.
pub record Sealing : Type 0 where
  -- `json.dumps(…, sort_keys=True).encode()`, and `json.loads(….decode())`, where an error is `none`
  pub dumps : Fields → ℕ
  pub loads : ℕ → Option Value
  -- `SecretBox.encrypt(plaintext, nonce).ciphertext`, and `decrypt`, where a `CryptoError` is `none`
  pub seal : ℕ → ℕ → ℕ
  pub unseal : ℕ → ℕ → Option ℕ
  -- `len(nonce)`
  pub size : ℕ → ℕ

abbrev pub nonce_size : ℕ
nonce_size = 24

-- As documented, for one dict and one nonce that the random generator gave: the nonce has 24 bytes,
-- the box opens what it sealed, and the JSON text of the dict is read back as a dict with the same
-- value at every key. The keys are sorted in it.
pub record IsSealing (sl : Sealing) (o : Fields) (nonce : ℕ) : Type 0 where
  pub size-nonce : sl.size nonce ≡ nonce_size
  pub unseal-seal : sl.unseal (sl.seal (sl.dumps o) nonce) nonce ≡ some (sl.dumps o)
  pub read : Fields
  pub loads-dumps : sl.loads (sl.dumps o) ≡ some (obj read)
  pub same : (k : _) → get k read ≡ get k o

module _ (sl : Sealing) where
  -- `encrypt_credentials`, with the nonce that `utils.random` gives
  unfoldable pub encrypt_credentials : ℕ → Fields → ℕ × ℕ
  encrypt_credentials nonce plaintext = (sl.seal (sl.dumps plaintext) nonce, nonce)

module _ (sl : Sealing) {S : Type 0} where
  -- `isinstance(result, dict)`
  unfoldable pub dict_or_raise : Value → Exec S Fields
  unfolding pure raise
  dict_or_raise (obj o) = pure o
  dict_or_raise _ = raise (crypto "decrypted payload is not a JSON object")

  -- `decrypt_credentials`
  unfoldable pub decrypt_credentials : ℕ → ℕ → Exec S Fields
  unfolding dict_or_raise ◌>>=◌
  decrypt_credentials ciphertext nonce = do
    require (sl.size nonce == nonce_size) (crypto "nonce has wrong size")
    plaintext ←
        or_raise (sl.unseal ciphertext nonce)
          (crypto "decryption failed (tamper, wrong key, or bad nonce)")
    result ← or_raise (sl.loads plaintext) (crypto "decrypted payload is not valid JSON")
    dict_or_raise result

-- What was encrypted is decrypted to a dict with the same value at every key, in every state.
pub decrypt-encrypt :
    {S : Type 0} (sl : Sealing) (o : Fields) (nonce : ℕ) (s : S)
    → IsSealing sl o nonce
    → let (ciphertext, stored_nonce) = encrypt_credentials sl nonce o in
      (read : Fields) × (decrypt_credentials sl ciphertext stored_nonce s ≡ (ok read, s))
      × ((k : String) → get k read ≡ get k o)
unfolding encrypt_credentials decrypt_credentials
decrypt-encrypt sl o nonce s h = (h.read, simp (h.size-nonce, h.unseal-seal, h.loads-dumps), h.same)
