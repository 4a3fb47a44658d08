-- ===== src/Secrets/Base64/RoundTrip.antt =====
-- `urlsafe_b64decode` after `urlsafe_b64encode`.
use openradiusweb.Prelude.{
  ◌≡◌, refl, ap, ℕ, suc, ◌+◌, ◌-◌, ◌*◌, ◌/◌, ◌%◌, ◌<◌, Bool, true, false, none, some, [], ◌∷◌, ◌++◌,
  ltb, ◌==◌, if◌then◌else◌, length, All, arith, append-nil,
}
use openradiusweb.Prelude.Text.{Text}
use openradiusweb.Prelude.Result.{Exn, Result, ok, err, value_error}
use openradiusweb.Coa.Bytes.{Bytes, IsByte}
use openradiusweb.Secrets.Base64.{
  Quad, char_of, sextet_of, urlsafe_b64encode, start, one, two, three, Step, stop, next, step,
  after_step, prepend, a2b_base64, is_ascii, urlsafe_b64decode, b64url_decode, signs, sextet,
}

sextet_of-char_of : (n : ℕ) → n < 64 → sextet_of (char_of n) ≡ some n
unfolding sextet_of char_of
sextet_of-char_of n small = ground arith

char_not_sign : (n : ℕ) → (char_of n == b'=') ≡ false
unfolding char_of
char_not_sign n = ground arith

char_ascii : (n : ℕ) → n < 64 → ltb (char_of n) 128 ≡ true
unfolding char_of
char_ascii n small = ground arith

-- The reading of a character of six bits.
step-char_of : (quad : Quad) (pads n : ℕ) → n < 64 → step quad pads (char_of n) ≡ sextet quad n
unfolding step
step-char_of quad pads n small = rw (char_not_sign n, sextet_of-char_of n small) refl

first_byte : (a b : ℕ) → b < 256 → a / 4 * 4 + (a % 4 * 16 + b / 16) / 16 ≡ a
first_byte a b h = omega arith

second_byte :
    (a b c : ℕ)
    → b < 256
    → c < 256
    → (a % 4 * 16 + b / 16) % 16 * 16 + (b % 16 * 4 + c / 64) / 4 ≡ b
second_byte a b c h k = omega arith

third_byte : (b c : ℕ) → c < 256 → (b % 16 * 4 + c / 64) % 4 * 64 + c % 64 ≡ c
third_byte b c k = omega arith

last_of_one : (a : ℕ) → a / 4 * 4 + a % 4 * 16 / 16 ≡ a
last_of_one a = omega arith

last_of_two : (a b : ℕ) → b < 256 → (a % 4 * 16 + b / 16) % 16 * 16 + b % 16 * 4 / 4 ≡ b
last_of_two a b h = omega arith

pub a2b_base64-urlsafe_b64encode :
    (bytes : Bytes) → All IsByte bytes → a2b_base64 start 0 (urlsafe_b64encode bytes) ≡ ok bytes
unfolding urlsafe_b64encode a2b_base64
a2b_base64-urlsafe_b64encode [] h = refl
a2b_base64-urlsafe_b64encode (a ∷ []) (h, _) =
    rw
      (
        step-char_of start 0 (a / 4) (omega (arith, h)),
        step-char_of (one (a / 4)) 0 (a % 4 * 16) (omega arith),
      )
      (ap (λ x. ok (x ∷ [])) (last_of_one a))
a2b_base64-urlsafe_b64encode (a ∷ b ∷ []) (h, (k, _)) =
    rw
      (
        step-char_of start 0 (a / 4) (omega (arith, h)),
        step-char_of (one (a / 4)) 0 (a % 4 * 16 + b / 16) (omega (arith, k)),
        step-char_of (two ((a % 4 * 16 + b / 16) % 16)) 0 (b % 16 * 4) (omega arith),
      )
      (λ i. ok (first_byte a b k i ∷ last_of_two a b k i ∷ []))
a2b_base64-urlsafe_b64encode (a ∷ b ∷ c ∷ bytes) (h, (k, (l, m))) =
    rw
      (
        step-char_of start 0 (a / 4) (omega (arith, h)),
        step-char_of (one (a / 4)) 0 (a % 4 * 16 + b / 16) (omega (arith, k)),
        step-char_of (two ((a % 4 * 16 + b / 16) % 16)) 0 (b % 16 * 4 + c / 64) (omega (arith, l)),
        step-char_of (three ((b % 16 * 4 + c / 64) % 4)) 0 (c % 64) (omega arith),
        a2b_base64-urlsafe_b64encode bytes m,
      )
      (λ i. ok (first_byte a b k i ∷ second_byte a b c k l i ∷ third_byte b c l i ∷ bytes))

is_ascii-urlsafe_b64encode :
    (bytes : Bytes) → All IsByte bytes → is_ascii (urlsafe_b64encode bytes) ≡ true
unfolding urlsafe_b64encode
is_ascii-urlsafe_b64encode [] h = refl
is_ascii-urlsafe_b64encode (a ∷ []) (h, _) =
    rw (char_ascii (a / 4) (omega (arith, h)), char_ascii (a % 4 * 16) (omega arith)) refl
is_ascii-urlsafe_b64encode (a ∷ b ∷ []) (h, (k, _)) =
    rw
      (
        char_ascii (a / 4) (omega (arith, h)),
        char_ascii (a % 4 * 16 + b / 16) (omega (arith, k)),
        char_ascii (b % 16 * 4) (omega arith),
      )
      refl
is_ascii-urlsafe_b64encode (a ∷ b ∷ c ∷ bytes) (h, (k, (l, m))) =
    rw
      (
        char_ascii (a / 4) (omega (arith, h)),
        char_ascii (a % 4 * 16 + b / 16) (omega (arith, k)),
        char_ascii (b % 16 * 4 + c / 64) (omega (arith, l)),
        char_ascii (c % 64) (omega arith),
      )
      (is_ascii-urlsafe_b64encode bytes m)

-- No sign is missing from what `urlsafe_b64encode` has written.
length-urlsafe_b64encode : (bytes : Bytes) → length (urlsafe_b64encode bytes) % 4 ≡ 0
unfolding urlsafe_b64encode
length-urlsafe_b64encode [] = refl
length-urlsafe_b64encode (a ∷ []) = refl
length-urlsafe_b64encode (a ∷ b ∷ []) = refl
length-urlsafe_b64encode (a ∷ b ∷ c ∷ bytes) = four _ (length-urlsafe_b64encode bytes)
  where
    four : (n : ℕ) → n % 4 ≡ 0 → suc (suc (suc (suc n))) % 4 ≡ 0
    four n h = omega (arith, h)

pub b64url_decode-urlsafe_b64encode :
    (bytes : Bytes) → All IsByte bytes → b64url_decode (urlsafe_b64encode bytes) ≡ ok bytes
unfolding b64url_decode urlsafe_b64decode signs
b64url_decode-urlsafe_b64encode bytes h =
    rw
      (
        length-urlsafe_b64encode bytes,
        append-nil (urlsafe_b64encode bytes),
        is_ascii-urlsafe_b64encode bytes h,
      )
      (a2b_base64-urlsafe_b64encode bytes h)

-- The one exception of the decoding.
prepend-error :
    (b : ℕ) (r : Result Bytes)
    → ((e : Exn) → r ≡ err e → e ≡ value_error)
    → (e : Exn) → prepend b r ≡ err e
    → e ≡ value_error
prepend-error b (err x) h e k = h e k
prepend-error b (ok l) h e k = cc

a2b_base64-error :
    (quad : Quad) (pads : ℕ) (text : Text) (e : Exn)
    → a2b_base64 quad pads text ≡ err e
    → e ≡ value_error
unfolding a2b_base64
a2b_base64-error start pads [] e h = cc
a2b_base64-error (one a) pads [] e h = cc
a2b_base64-error (two a) pads [] e h = cc
a2b_base64-error (three a) pads [] e h = cc
a2b_base64-error quad pads (c ∷ text) e h =
    by_step (step quad pads c) (λ q p. a2b_base64-error q p text) h
  where
    by_step :
        (s : Step)
        → ((q : Quad) (p : ℕ) (e : Exn) → a2b_base64 q p text ≡ err e → e ≡ value_error)
        → after_step s (λ q p. a2b_base64 q p text) ≡ err e
        → e ≡ value_error
    by_step stop ih k = cc
    by_step (next q p none) ih k = ih q p e k
    by_step (next q p (some b)) ih k = prepend-error b (a2b_base64 q p text) (ih q p) e k

pub b64url_decode-error : (text : Text) (e : Exn) → b64url_decode text ≡ err e → e ≡ value_error
unfolding b64url_decode urlsafe_b64decode
b64url_decode-error text e h = by_test (is_ascii (text ++ signs ((4 - length text % 4) % 4))) h
  where
    by_test :
        (b : Bool)
        → (if b
            then a2b_base64 start 0 (text ++ signs ((4 - length text % 4) % 4))
            else err value_error)
          ≡ err e
        → e ≡ value_error
    by_test true k = a2b_base64-error start 0 (text ++ signs ((4 - length text % 4) % 4)) e k
    by_test false k = cc
