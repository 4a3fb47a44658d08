-- ===== src/Secrets/Tests.antt =====
-- The round trip of a secret with a cipher that only appends a tag.
use openradiusweb.Prelude.{
  ◌≡◌, refl, ◌∙◌, ap, ◌-◌, true, false, none, some, List, [], ◌∷◌, ◌++◌, length, length-append,
  take, take-append, All, All-append, arith, inl, inr,
}
use openradiusweb.Prelude.Text.{Text, codes}
use openradiusweb.Prelude.Result.{ok, err, value_error}
use openradiusweb.Coa.Bytes.{utf8_encode, Bytes, IsByte, utf8}
use openradiusweb.Secrets.{Crypto, Environ, version, aesgcm, encrypt, decrypt, is_encrypted}
use openradiusweb.Secrets.Base64.{
  urlsafe_b64encode, b64url_decode, urlsafe_b64decode, a2b_base64, step, sextet_of, signs,
}
use openradiusweb.Secrets.RoundTrip.{IsAead, encrypt-kept, decrypt-encrypt, decrypt-refuses}
use openradiusweb.Secrets.Rotation.{Row, Run, rotate_table, old_decrypt, new_encrypt}
use openradiusweb.Secrets.Rotation.Kept.{Kept, IsKeyOf, rotate_table-Kept, Pairs}
use openradiusweb.Secrets.Rotation.Moved.{Moved, Movable, rotate_table-Moved}

abbrev zeros : Bytes
zeros = 0 ∷ 0 ∷ 0 ∷ 0 ∷ 0 ∷ 0 ∷ 0 ∷ 0 ∷ 0 ∷ 0 ∷ 0 ∷ 0 ∷ []

abbrev tag : Bytes
tag = 0 ∷ 0 ∷ 0 ∷ 0 ∷ zeros

zeros-IsByte : All IsByte zeros
zeros-IsByte = (
  omega arith,
  (
    omega arith,
    (
      omega arith,
      (
        omega arith,
        (
          omega arith,
          (
            omega arith,
            (
              omega arith,
              (omega arith, (omega arith, (omega arith, (omega arith, (omega arith, tt))))),
            ),
          ),
        ),
      ),
    ),
  ),
)

abbrev crypto : Crypto
crypto = record {
  hash_secret_raw = λ secret salt. salt;
  aes_encrypt = λ key nonce plaintext. plaintext ++ tag;
  aes_decrypt = λ key nonce ciphertext. some (take (length ciphertext - 16) ciphertext);
}

without_tag : (plaintext : Bytes) → length (plaintext ++ tag) - 16 ≡ length plaintext
without_tag plaintext = omega (arith, length-append plaintext tag)

crypto-IsAead : IsAead crypto
crypto-IsAead = record {
  opens =
      λ key nonce p h k. ap some (ap (λ n. take n (p ++ tag)) (without_tag p) ∙ take-append p tag);
  is_tagged = λ key nonce p. length-append p tag;
  are_bytes = λ key nonce p h k.
      All-append IsByte p tag k
        (omega arith, (omega arith, (omega arith, (omega arith, zeros-IsByte))));
}

abbrev environ : Environ
environ = record { master = some (codes "master"); salt = some (codes "c2FsdHNhbHQ") }

abbrev secret : Text
secret = codes "pw"

abbrev written : Text
written = urlsafe_b64encode ((version ∷ []) ++ (zeros ++ (utf8 secret ++ tag)))

is_written : (encrypt crypto environ zeros (some secret) (some zeros)).0 ≡ ok (some written)
unfolding encrypt aesgcm utf8_encode
is_written = refl

decrypt-encrypt_example :
    (is_encrypted (some written) ≡ true)
    × ((decrypt crypto environ
          (some written)
          (encrypt crypto environ zeros (some secret) (some zeros)).1).0
        ≡ ok (some secret))
decrypt-encrypt_example =
    decrypt-encrypt crypto crypto-IsAead environ environ zeros secret (some written) (some zeros)
      refl zeros-IsByte is_written

is_plain : is_encrypted (some secret) ≡ false
unfolding is_encrypted b64url_decode urlsafe_b64decode a2b_base64 step sextet_of signs
is_plain = refl

decrypt-refuses_example :
    decrypt crypto environ (some secret) (some zeros) ≡ (err value_error, some zeros)
decrypt-refuses_example = decrypt-refuses crypto environ b'p' (codes "w") (some zeros) is_plain

abbrev run : Run
run = record {
  environ = environ;
  old = zeros;
  new = tag;
  random = λ k. zeros;
  dry_run = false;
  skip_undecryptable = false;
}

-- A row with a ciphertext, and one without a value.
abbrev table : List Row
table = record { id = codes "1"; val = some written } ∷ record { id = codes "2"; val = none } ∷ []

keys : All (IsKeyOf table) table
keys = ((λ _. refl, (λ k. cc, tt)), ((λ k. cc, (λ _. refl, tt)), tt))

rotate_table-Kept_example : Kept crypto run table (rotate_table crypto run table).1
rotate_table-Kept_example =
    rotate_table-Kept crypto run crypto-IsAead (λ k. (refl, zeros-IsByte)) table keys

-- The old key decrypts the first row.
is_read : old_decrypt crypto run (some written) ≡ ok (some secret)
unfolding old_decrypt
is_read =
    let stays = encrypt-kept crypto environ zeros secret zeros in
    let (form, again) =
      decrypt-encrypt crypto crypto-IsAead environ environ zeros secret (some written) (some zeros)
        refl zeros-IsByte is_written in
    rw stays at again

is_sealed : new_encrypt crypto run zeros secret ≡ ok (some written)
unfolding new_encrypt encrypt aesgcm utf8_encode
is_sealed = refl

movable : All (Movable crypto run) table
movable = (inr (secret, is_read, λ k. (some written, is_sealed)), (inl refl, tt))

rotate_table-Moved_example : Pairs (Moved crypto run) table (rotate_table crypto run table).1
rotate_table-Moved_example =
    rotate_table-Moved crypto run crypto-IsAead (λ k. (refl, zeros-IsByte)) refl table keys movable
