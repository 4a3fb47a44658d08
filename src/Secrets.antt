-- ===== src/Secrets.antt =====
-- shared/orw_common/secrets.py: the ciphertexts of secrets. The state is the key that a vault keeps.
pub mod Base64
pub mod Utf8
pub mod RoundTrip
pub mod Rotation
mod Tests
use openradiusweb.Prelude.{
  ℕ, ◌+◌, Bool, true, false, not, ◌&&◌, ◌||◌, Option, none, some, List, [], ◌∷◌, ◌++◌, ltb, leb,
  ◌==◌, if◌then◌else◌, length, take, drop,
}
use openradiusweb.Prelude.Text.{Text, truthy, text_or_empty}
use openradiusweb.Prelude.Result.{
  Exn, Result, ok, err, value_error, runtime_error, invalid_tag, and_then,
}
use openradiusweb.Prelude.Exec.{Exec, pure, raise, lift, gets, modify, ◌>>=◌, ◌>>◌}
use openradiusweb.Coa.Bytes.{utf8_encode, Bytes}
use Base64.{urlsafe_b64encode, b64url_decode}
use Utf8.{utf8_strict}

-- The libraries: Argon2id of a secret and a salt, and AES-GCM by a key and a nonce, whose decryption
-- gives nothing where the tag does not match.
pub record Crypto : Type 0 where
  pub hash_secret_raw : Bytes → Bytes → Bytes
  pub aes_encrypt : Bytes → Bytes → Bytes → Bytes
  pub aes_decrypt : Bytes → Bytes → Bytes → Option Bytes

-- The variables ORW_SECRET_MASTER and ORW_SECRET_KDF_SALT.
pub record Environ : Type 0 where
  pub master : Option Text
  pub salt : Option Text

-- `_aead`: the key, where it has been derived.
abbrev pub Vault : Type 0
Vault = Option Bytes

abbrev pub version : ℕ
version = 1

abbrev pub nonce_len : ℕ
nonce_len = 12

abbrev pub tag_len : ℕ
tag_len = 16

abbrev pub opened : Option Bytes → Result Bytes
opened none = err invalid_tag
opened (some raw) = ok raw

-- A blob of the length and the version of a ciphertext.
abbrev pub is_blob : Bytes → Bool
is_blob [] = false
is_blob (v ∷ rest) = leb (1 + nonce_len + tag_len) (length (v ∷ rest)) && v == version

abbrev pub of_blob : Result Bytes → Bool
of_blob (ok blob) = is_blob blob
of_blob (err e) = false

unfoldable pub is_encrypted : Option Text → Bool
unfolding b64url_decode
is_encrypted none = false
is_encrypted (some value) = of_blob (b64url_decode value)

module _ (o : Crypto) where
  -- `_derive_key` from the decoding of the salt on.
  abbrev pub with_salt : Text → Result Bytes → Result Bytes
  with_salt master (err e) = err runtime_error
  with_salt master (ok salt) =
      if ltb (length salt) 8
      then err runtime_error
      else and_then (utf8_encode master) (λ raw. ok (o.hash_secret_raw raw salt))

  unfoldable pub derive_key : Environ → Result Bytes
  unfolding utf8_encode b64url_decode
  derive_key environ =
      if not (truthy (text_or_empty environ.master)) || not (truthy (text_or_empty environ.salt))
      then err runtime_error
      else with_salt (text_or_empty environ.master) (b64url_decode (text_or_empty environ.salt))

  abbrev pub key_of : Environ → Vault → Exec Vault Bytes
  key_of environ (some key) = pure key
  key_of environ none = do key ← lift (derive_key environ); modify (λ _. some key); pure key

  -- `_aesgcm`: the key is derived once.
  unfoldable pub aesgcm : Environ → Exec Vault Bytes
  unfolding derive_key
  aesgcm environ vault = key_of environ vault vault

  -- `encrypt`, with what os.urandom gives for a nonce.
  unfoldable pub encrypt : Environ → Bytes → Option Text → Exec Vault (Option Text)
  unfolding aesgcm utf8_encode urlsafe_b64encode
  encrypt environ nonce none = pure none
  encrypt environ nonce (some plaintext) = do
    key ← aesgcm environ
    raw ← lift (utf8_encode plaintext)
    pure (some (urlsafe_b64encode ((version ∷ []) ++ (nonce ++ o.aes_encrypt key nonce raw))))

  -- `decrypt` of a decoded blob.
  abbrev pub decrypt_blob : Environ → Bytes → Exec Vault (Option Text)
  decrypt_blob environ blob =
      if is_blob blob
      then (do
        key ← aesgcm environ
        raw ←
            lift (
              opened (o.aes_decrypt key (take nonce_len (drop 1 blob)) (drop (1 + nonce_len) blob)))
        plaintext ← lift (utf8_strict raw)
        pure (some plaintext))
      else raise value_error

  unfoldable pub decrypt : Environ → Option Text → Exec Vault (Option Text)
  unfolding aesgcm utf8_strict b64url_decode
  decrypt environ none = pure none
  decrypt environ (some []) = pure (some [])
  decrypt environ (some (c ∷ ciphertext)) = do
    blob ← lift (b64url_decode (c ∷ ciphertext))
    decrypt_blob environ blob
