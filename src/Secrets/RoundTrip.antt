-- ===== src/Secrets/RoundTrip.antt =====
-- shared/orw_common/secrets.py: `decrypt` after `encrypt`, and what `decrypt` refuses.
use openradiusweb.Prelude.{
  ◌≡◌, refl, ◌∙◌, sym, ap, subst, ℕ, ◌+◌, true, false, Option, none, some, [], ◌∷◌, ◌++◌, leb,
  length, length-append, take, drop, take-append, drop-append, All, All-append, arith,
}
use openradiusweb.Prelude.Text.{Text}
use openradiusweb.Prelude.Result.{Exn, Result, ok, err, value_error}
use openradiusweb.Prelude.Exec.{continue}
use openradiusweb.Coa.Bytes.{utf8_encode, Bytes, IsByte}
use openradiusweb.Secrets.{
  Crypto, Environ, Vault, version, aesgcm, derive_key, encrypt, decrypt, decrypt_blob, is_blob,
  is_encrypted, of_blob,
}
use openradiusweb.Secrets.Base64.{urlsafe_b64encode, b64url_decode}
use openradiusweb.Secrets.Base64.RoundTrip.{b64url_decode-urlsafe_b64encode, b64url_decode-error}
use openradiusweb.Secrets.Utf8.{utf8_strict}
use openradiusweb.Secrets.Utf8.RoundTrip.{utf8_strict-utf8_encode, utf8_encode-IsByte}

-- What AES-GCM promises with a nonce of twelve bytes: a ciphertext is as long as the plaintext and a
-- tag of sixteen bytes, and the same key and nonce give the plaintext back.
pub record IsAead (o : Crypto) : Type 0 where
  pub opens :
      (key nonce plaintext : Bytes)
      → length nonce ≡ 12
      → All IsByte plaintext
      → o.aes_decrypt key nonce (o.aes_encrypt key nonce plaintext) ≡ some plaintext
  pub is_tagged :
      (key nonce plaintext : Bytes)
      → length (o.aes_encrypt key nonce plaintext) ≡ length plaintext + 16
  pub are_bytes :
      (key nonce plaintext : Bytes)
      → All IsByte nonce
      → All IsByte plaintext
      → All IsByte (o.aes_encrypt key nonce plaintext)

-- The parts of a ciphertext.
take-nonce : (nonce rest : Bytes) → length nonce ≡ 12 → take 12 (nonce ++ rest) ≡ nonce
take-nonce nonce rest h = ap (λ n. take n (nonce ++ rest)) (sym h) ∙ take-append nonce rest

drop-nonce : (nonce rest : Bytes) → length nonce ≡ 12 → drop 12 (nonce ++ rest) ≡ rest
drop-nonce nonce rest h = ap (λ n. drop n (nonce ++ rest)) (sym h) ∙ drop-append nonce rest

module _ (o : Crypto) where
  -- A vault that has given a key keeps it.
  aesgcm-kept :
      (environ : Environ) (v : Vault) (key : Bytes)
      → (aesgcm o environ v).0 ≡ ok key
      → (aesgcm o environ v).1 ≡ some key
  unfolding aesgcm
  aesgcm-kept environ (some k) key h = let same : k ≡ key = cc in ap some same
  aesgcm-kept environ none key h = by_key (derive_key o environ) h
    where
      by_key :
          (r : Result Bytes)
          → (continue r (λ k s. (ok k, some k)) none).0 ≡ ok key
          → (continue r (λ k s. (ok k, some k)) none).1 ≡ some key
      by_key (err e) k = cc
      by_key (ok a) k = let same : a ≡ key = cc in ap some same

  -- An encryption leaves the key of a vault that has one.
  pub encrypt-kept :
      (environ : Environ) (nonce : Bytes) (plaintext : Text) (key : Bytes)
      → (encrypt o environ nonce (some plaintext) (some key)).1 ≡ some key
  unfolding encrypt aesgcm
  encrypt-kept environ nonce plaintext key = by_raw (utf8_encode plaintext)
    where
      sealed : Bytes → Vault → Result (Option Text) × Vault
      sealed raw s = (
        ok (some (urlsafe_b64encode ((version ∷ []) ++ (nonce ++ o.aes_encrypt key nonce raw)))),
        s,
      )

      by_raw : (r : Result Bytes) → (continue r sealed (some key)).1 ≡ some key
      by_raw (err e) = refl
      by_raw (ok raw) = refl

  abbrev blob_of : Bytes → Bytes → Bytes → Bytes
  blob_of key nonce raw = (version ∷ []) ++ (nonce ++ o.aes_encrypt key nonce raw)

  blob_of-is_blob :
      IsAead o
      → (key nonce raw : Bytes) → length nonce ≡ 12
      → is_blob (blob_of key nonce raw) ≡ true
  blob_of-is_blob aead key nonce raw h =
      let long = length-append nonce (o.aes_encrypt key nonce raw) in
      let tag = aead.is_tagged key nonce raw in
      let enough : leb 29 (length (blob_of key nonce raw)) ≡ true = ground (arith, long, tag, h) in
      rw enough refl

  -- What `decrypt` makes of what `encrypt` has written, with the same key in the vault.
  decrypt-blob_of :
      IsAead o
      → (environ : Environ) (key nonce raw : Bytes) (text : Text) → length nonce ≡ 12
      → All IsByte nonce
      → All IsByte raw
      → utf8_strict raw ≡ ok text
      → decrypt_blob o environ (blob_of key nonce raw) (some key) ≡ (ok (some text), some key)
  unfolding aesgcm
  decrypt-blob_of aead environ key nonce raw text h k l m =
      rw
        (
          blob_of-is_blob aead key nonce raw h,
          take-nonce nonce (o.aes_encrypt key nonce raw) h,
          drop-nonce nonce (o.aes_encrypt key nonce raw) h,
          aead.opens key nonce raw h l,
          m,
        )
        refl

  decode-blob_of :
      IsAead o
      → (key nonce raw : Bytes) → All IsByte nonce
      → All IsByte raw
      → b64url_decode (urlsafe_b64encode (blob_of key nonce raw)) ≡ ok (blob_of key nonce raw)
  decode-blob_of aead key nonce raw k l =
      b64url_decode-urlsafe_b64encode (blob_of key nonce raw)
        (omega arith, All-append IsByte nonce _ k (aead.are_bytes key nonce raw k l))

  -- A ciphertext is not empty.
  decrypt-some :
      (environ : Environ) (v : Vault) (blob more : Bytes) (b : ℕ)
      → blob ≡ b ∷ more
      → b64url_decode (urlsafe_b64encode blob) ≡ ok blob
      → decrypt o environ (some (urlsafe_b64encode blob)) v ≡ decrypt_blob o environ blob v
  unfolding decrypt urlsafe_b64encode
  decrypt-some environ v (a ∷ []) more b e h = rw h refl
  decrypt-some environ v (a ∷ c ∷ []) more b e h = rw h refl
  decrypt-some environ v (a ∷ c ∷ d ∷ bytes) more b e h = rw h refl
  decrypt-some environ v [] more b e h = cc

  is_encrypted-decoded :
      (t : Text) (blob : Bytes)
      → b64url_decode t ≡ ok blob
      → is_blob blob ≡ true
      → is_encrypted (some t) ≡ true
  unfolding is_encrypted
  is_encrypted-decoded t blob h k = rw (h, k) refl

  -- What `encrypt` returns with twelve random bytes has the form of a ciphertext, and `decrypt` on
  -- the same vault gives the plaintext back, the empty one too, also where the environment holds
  -- another master secret by then. Of AES-GCM it is taken that it keeps its promises.
  pub decrypt-encrypt :
      IsAead o
      → (environ later : Environ) (nonce : Bytes) (plaintext : Text) (ciphertext : Option Text)
        (v : Vault)
      → length nonce ≡ 12
      → All IsByte nonce
      → (encrypt o environ nonce (some plaintext) v).0 ≡ ok ciphertext
      → (is_encrypted ciphertext ≡ true)
        × ((decrypt o later ciphertext (encrypt o environ nonce (some plaintext) v).1).0
            ≡ ok (some plaintext))
  unfolding encrypt
  decrypt-encrypt aead environ later nonce plaintext ciphertext v h k e =
      by_key (aesgcm o environ v).0 (aesgcm o environ v).1 (aesgcm-kept environ v) e
    where
      rest : Bytes → Vault → Result (Option Text) × Vault
      rest key s =
          continue (utf8_encode plaintext)
            (λ raw s'. (ok (some (urlsafe_b64encode (blob_of key nonce raw))), s')) s

      by_raw :
          (key : Bytes) (r : Result Bytes)
          → utf8_encode plaintext ≡ r
          → (continue r
              (λ raw s'. (ok (some (urlsafe_b64encode (blob_of key nonce raw))), s'))
              (some key)).0
            ≡ ok ciphertext
          → (is_encrypted ciphertext ≡ true)
            × ((decrypt o later ciphertext
                  (continue r
                    (λ raw s'. (ok (some (urlsafe_b64encode (blob_of key nonce raw))), s'))
                    (some key)).1).0
                ≡ ok (some plaintext))
      by_raw key (err x) is e = cc
      by_raw key (ok raw) is e =
          let bytes = utf8_encode-IsByte plaintext raw is in
          let same : some (urlsafe_b64encode (blob_of key nonce raw)) ≡ ciphertext = cc in
          let decoded = decode-blob_of aead key nonce raw k bytes in
          subst
            (λ x.
              (is_encrypted x ≡ true) × ((decrypt o later x (some key)).0 ≡ ok (some plaintext)))
            same
            (
              is_encrypted-decoded _ (blob_of key nonce raw) decoded
                  (blob_of-is_blob aead key nonce raw h),
              ap (λ x. x.0)
                  (decrypt-some later (some key) (blob_of key nonce raw) _ version refl decoded
                    ∙ decrypt-blob_of aead later key nonce raw plaintext h k bytes
                        (utf8_strict-utf8_encode plaintext raw is)),
            )

      by_key :
          (r : Result Bytes) (s : Vault)
          → ((key : Bytes) → r ≡ ok key → s ≡ some key)
          → (continue r rest s).0 ≡ ok ciphertext
          → (is_encrypted ciphertext ≡ true)
            × ((decrypt o later ciphertext (continue r rest s).1).0 ≡ ok (some plaintext))
      by_key (err x) s kept e = cc
      by_key (ok key) s kept e =
          let is_kept = kept key refl in
          let e' = rw is_kept at e in rw is_kept (by_raw key (utf8_encode plaintext) refl e')

  -- A text that has not the form of a ciphertext, but for the empty one, `decrypt` refuses with a
  -- ValueError: it never passes a stored plaintext through; and the vault is as before.
  pub decrypt-refuses :
      (environ : Environ) (c : ℕ) (text : Text) (v : Vault)
      → is_encrypted (some (c ∷ text)) ≡ false
      → decrypt o environ (some (c ∷ text)) v ≡ (err value_error, v)
  unfolding decrypt is_encrypted
  decrypt-refuses environ c text v h =
      by_blob (b64url_decode (c ∷ text)) (b64url_decode-error (c ∷ text)) h
    where
      by_blob :
          (r : Result Bytes)
          → ((e : Exn) → r ≡ err e → e ≡ value_error)
          → of_blob r ≡ false
          → continue r (decrypt_blob o environ) v ≡ (err value_error, v)
      by_blob (err e) only h = λ i. (err (only e refl i), v)
      by_blob (ok blob) only h = rw h refl
