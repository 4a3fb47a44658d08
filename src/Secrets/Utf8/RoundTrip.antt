-- ===== src/Secrets/Utf8/RoundTrip.antt =====
-- The strict decoding of UTF-8 after its encoding.
use openradiusweb.Prelude.{
  ◌≡◌, refl, ◌∙◌, ap, ℕ, ◌+◌, ◌-◌, ◌*◌, ◌/◌, ◌%◌, ◌<◌, Bool, true, false, [], ◌∷◌, ◌++◌, ltb, leb,
  ◌==◌, if◌then◌else◌, arith, Bool-cases, inl, inr, subst, &&_true, All, All-append,
}
use openradiusweb.Prelude.Text.{Text}
use openradiusweb.Prelude.Result.{ok, err, value_error}
use openradiusweb.Coa.Bytes.{
  Bytes, IsByte, idle, expect, utf8, utf8_code, is_scalar, all_scalar, utf8_encode,
}
use openradiusweb.Secrets.Base64.{prepend}
use openradiusweb.Secrets.Utf8.{utf8_read, utf8_strict}

-- A byte that continues a character.
continues :
    (left acc n : ℕ) (bytes : Bytes)
    → n < 64
    → utf8_read (expect left 0x80 0xBF acc) ((0x80 + n) ∷ bytes) ≡ (
        if leb left 1
        then prepend (acc * 64 + n) (utf8_read idle bytes)
        else utf8_read (expect (left - 1) 0x80 0xBF (acc * 64 + n)) bytes)
unfolding utf8_read
continues left acc n bytes small =
    let low : leb 0x80 (0x80 + n) ≡ true = ground arith in
    let high : leb (0x80 + n) 0xBF ≡ true = ground arith in
    let bits : (0x80 + n) - 0x80 ≡ n = omega arith in rw (low, high, bits) refl

-- The bytes of a character with two, three and four of them.
utf8_read-two :
    (c : ℕ) (bytes : Bytes)
    → ltb c 0x80 ≡ false
    → ltb c 0x800 ≡ true
    → utf8_read idle ((0xC0 + c / 64) ∷ (0x80 + c % 64) ∷ bytes) ≡ prepend c (utf8_read idle bytes)
unfolding utf8_read
utf8_read-two c bytes low high =
    let not_ascii : ltb (0xC0 + c / 64) 0x80 ≡ false = ground arith in
    let not_short : ltb (0xC0 + c / 64) 0xC2 ≡ false = ground arith in
    let is_two : ltb (0xC0 + c / 64) 0xE0 ≡ true = ground arith in
    let bits : (0xC0 + c / 64) - 0xC0 ≡ c / 64 = omega arith in
    let last : c % 64 < 64 = omega arith in
    let whole : c / 64 * 64 + c % 64 ≡ c = omega arith in
    rw (not_ascii, not_short, is_two, bits)
      (continues 1 (c / 64) (c % 64) bytes last ∙ ap (λ x. prepend x (utf8_read idle bytes)) whole)

-- A byte that continues a character, with the range that stands after a first byte.
utf8_read-second :
    (left low high acc n : ℕ) (bytes : Bytes)
    → leb low (0x80 + n) ≡ true
    → leb (0x80 + n) high ≡ true
    → leb left 1 ≡ false
    → utf8_read (expect left low high acc) ((0x80 + n) ∷ bytes)
      ≡ utf8_read (expect (left - 1) 0x80 0xBF (acc * 64 + n)) bytes
unfolding utf8_read
utf8_read-second left low high acc n bytes h k l =
    let bits : (0x80 + n) - 0x80 ≡ n = omega arith in rw (h, k, l, bits) refl

utf8_read-three :
    (c : ℕ) (bytes : Bytes)
    → is_scalar c ≡ true
    → ltb c 0x800 ≡ false
    → ltb c 0x10000 ≡ true
    → utf8_read idle ((0xE0 + c / 4096) ∷ (0x80 + c / 64 % 64) ∷ (0x80 + c % 64) ∷ bytes)
      ≡ prepend c (utf8_read idle bytes)
unfolding utf8_read
utf8_read-three c bytes scalar low high =
    let not_ascii : ltb (0xE0 + c / 4096) 0x80 ≡ false = ground arith in
    let not_short : ltb (0xE0 + c / 4096) 0xC2 ≡ false = ground arith in
    let not_two : ltb (0xE0 + c / 4096) 0xE0 ≡ false = ground arith in
    let is_three : ltb (0xE0 + c / 4096) 0xF0 ≡ true = ground arith in
    let bits : (0xE0 + c / 4096) - 0xE0 ≡ c / 4096 = omega arith in
    let from : leb (if (0xE0 + c / 4096) == 0xE0 then 0xA0 else 0x80) (0x80 + c / 64 % 64) ≡ true =
      ground arith in
    let to : leb (0x80 + c / 64 % 64) (if (0xE0 + c / 4096) == 0xED then 0x9F else 0xBF) ≡ true =
      ground arith in
    let last : c % 64 < 64 = omega arith in
    let whole : (c / 4096 * 64 + c / 64 % 64) * 64 + c % 64 ≡ c = omega arith in
    rw (not_ascii, not_short, not_two, is_three, bits)
      (utf8_read-second 2 _ _ (c / 4096) (c / 64 % 64) ((0x80 + c % 64) ∷ bytes) from to refl
        ∙ continues 1 (c / 4096 * 64 + c / 64 % 64) (c % 64) bytes last
        ∙ ap (λ x. prepend x (utf8_read idle bytes)) whole)

utf8_read-four :
    (c : ℕ) (bytes : Bytes)
    → is_scalar c ≡ true
    → ltb c 0x10000 ≡ false
    → utf8_read idle (
        (0xF0 + c / 262144)
        ∷ (0x80 + c / 4096 % 64)
        ∷ (0x80 + c / 64 % 64)
        ∷ (0x80 + c % 64)
        ∷ bytes)
      ≡ prepend c (utf8_read idle bytes)
unfolding utf8_read
utf8_read-four c bytes scalar low =
    let not_ascii : ltb (0xF0 + c / 262144) 0x80 ≡ false = ground arith in
    let not_short : ltb (0xF0 + c / 262144) 0xC2 ≡ false = ground arith in
    let not_two : ltb (0xF0 + c / 262144) 0xE0 ≡ false = ground arith in
    let not_three : ltb (0xF0 + c / 262144) 0xF0 ≡ false = ground arith in
    let is_four : ltb (0xF0 + c / 262144) 0xF5 ≡ true = ground arith in
    let bits : (0xF0 + c / 262144) - 0xF0 ≡ c / 262144 = omega arith in
    let from : leb (if (0xF0 + c / 262144) == 0xF0 then 0x90 else 0x80) (0x80 + c / 4096 % 64)
        ≡ true =
      ground arith in
    let to : leb (0x80 + c / 4096 % 64) (if (0xF0 + c / 262144) == 0xF4 then 0x8F else 0xBF)
        ≡ true =
      ground arith in
    let third : c / 64 % 64 < 64 = omega arith in
    let last : c % 64 < 64 = omega arith in
    let whole : ((c / 262144 * 64 + c / 4096 % 64) * 64 + c / 64 % 64) * 64 + c % 64 ≡ c =
      omega arith in
    rw (not_ascii, not_short, not_two, not_three, is_four, bits)
      (utf8_read-second 3 _ _ (c / 262144) (c / 4096 % 64)
          ((0x80 + c / 64 % 64) ∷ (0x80 + c % 64) ∷ bytes) from to refl
        ∙ continues 2 (c / 262144 * 64 + c / 4096 % 64) (c / 64 % 64) ((0x80 + c % 64) ∷ bytes)
            third
        ∙ continues 1 ((c / 262144 * 64 + c / 4096 % 64) * 64 + c / 64 % 64) (c % 64) bytes last
        ∙ ap (λ x. prepend x (utf8_read idle bytes)) whole)

utf8_read-utf8_code :
    (c : ℕ) (bytes : Bytes)
    → is_scalar c ≡ true
    → utf8_read idle (utf8_code c ++ bytes) ≡ prepend c (utf8_read idle bytes)
unfolding utf8_read utf8_code
utf8_read-utf8_code c bytes scalar = elim (Bool-cases (ltb c 0x80)) [
  | inl ascii ↦ rw (ascii, ascii) refl
  | inr e ↦ elim (Bool-cases (ltb c 0x800)) [
    | inl k ↦ rw (e, k) (utf8_read-two c bytes e k)
    | inr k ↦ elim (Bool-cases (ltb c 0x10000)) [
      | inl l ↦ rw (e, k, l) (utf8_read-three c bytes scalar k l)
      | inr l ↦ rw (e, k, l) (utf8_read-four c bytes scalar l)
    ]
  ]
]

utf8_strict-utf8 : (text : Text) → all_scalar text ≡ true → utf8_strict (utf8 text) ≡ ok text
unfolding utf8_strict utf8 utf8_read
utf8_strict-utf8 [] h = refl
utf8_strict-utf8 (c ∷ text) h =
    let (scalar, scalars) = &&_true _ _ h in
    utf8_read-utf8_code c (utf8 text) scalar ∙ ap (prepend c) (utf8_strict-utf8 text scalars)

-- What `utf8_encode` returns.
pub utf8_strict-utf8_encode :
    (text : Text) (bytes : Bytes) → utf8_encode text ≡ ok bytes → utf8_strict bytes ≡ ok text
unfolding utf8_encode
utf8_strict-utf8_encode text bytes h = by_test (all_scalar text) refl h
  where
    by_test :
        (b : Bool)
        → all_scalar text ≡ b
        → (if b then ok (utf8 text) else err value_error) ≡ ok bytes
        → utf8_strict bytes ≡ ok text
    by_test true e k =
        let same : utf8 text ≡ bytes = cc in
        subst (λ x. utf8_strict x ≡ ok text) same (utf8_strict-utf8 text e)
    by_test false e k = cc

utf8_code-IsByte : (c : ℕ) → is_scalar c ≡ true → All IsByte (utf8_code c)
unfolding utf8_code
utf8_code-IsByte c scalar = elim (Bool-cases (ltb c 0x80)) [
  | inl e ↦ rw e (ground arith, tt)
  | inr e ↦ elim (Bool-cases (ltb c 0x800)) [
    | inl k ↦ rw (e, k) (ground arith, (ground arith, tt))
    | inr k ↦ elim (Bool-cases (ltb c 0x10000)) [
      | inl l ↦ rw (e, k, l) (ground arith, (ground arith, (ground arith, tt)))
      | inr l ↦ rw (e, k, l) (ground arith, (ground arith, (ground arith, (ground arith, tt))))
    ]
  ]
]

utf8-IsByte : (text : Text) → all_scalar text ≡ true → All IsByte (utf8 text)
unfolding utf8
utf8-IsByte [] h = tt
utf8-IsByte (c ∷ text) h =
    let (scalar, scalars) = &&_true _ _ h in
    All-append IsByte (utf8_code c) (utf8 text) (utf8_code-IsByte c scalar)
      (utf8-IsByte text scalars)

pub utf8_encode-IsByte :
    (text : Text) (bytes : Bytes) → utf8_encode text ≡ ok bytes → All IsByte bytes
unfolding utf8_encode
utf8_encode-IsByte text bytes h = by_test (all_scalar text) refl h
  where
    by_test :
        (b : Bool)
        → all_scalar text ≡ b
        → (if b then ok (utf8 text) else err value_error) ≡ ok bytes
        → All IsByte bytes
    by_test true e k =
        let same : utf8 text ≡ bytes = cc in subst (λ x. All IsByte x) same (utf8-IsByte text e)
    by_test false e k = cc
