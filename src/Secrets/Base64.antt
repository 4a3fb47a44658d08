-- ===== src/Secrets/Base64.antt =====
-- Python's base64.urlsafe_b64encode and urlsafe_b64decode, as shared/orw_common/secrets.py calls
-- them.
pub mod RoundTrip
use openradiusweb.Prelude.{
  ℕ, zero, suc, ◌+◌, ◌-◌, ◌*◌, ◌/◌, ◌%◌, Bool, true, false, ◌&&◌, ◌||◌, Option, none, some, List,
  [], ◌∷◌, ◌++◌, ltb, leb, ◌==◌, if◌then◌else◌, length,
}
use openradiusweb.Prelude.Text.{Text}
use openradiusweb.Prelude.Result.{Result, ok, err, value_error}
use openradiusweb.Coa.Bytes.{Bytes}

-- The character of six bits: A-Z, a-z, 0-9, `-` and `_`.
unfoldable pub char_of : ℕ → ℕ
char_of n =
    if ltb n 26
    then 65 + n
    else if ltb n 52
    then 71 + n
    else if ltb n 62
    then n - 4
    else if n == 62
    then b'-'
    else b'_'

-- The six bits of a character; `+` and `/` are read as `-` and `_` are, all others are passed over.
unfoldable pub sextet_of : ℕ → Option ℕ
sextet_of c =
    if leb 65 c && leb c 90
    then some (c - 65)
    else if leb 97 c && leb c 122
    then some (c - 71)
    else if leb 48 c && leb c 57
    then some (c + 4)
    else if c == b'-' || c == b'+'
    then some 62
    else if c == b'_' || c == b'/'
    then some 63
    else none

unfoldable pub urlsafe_b64encode : Bytes → Text
unfolding char_of
urlsafe_b64encode [] = []
urlsafe_b64encode (a ∷ []) = char_of (a / 4) ∷ char_of (a % 4 * 16) ∷ b'=' ∷ b'=' ∷ []
urlsafe_b64encode (a ∷ b ∷ []) =
    char_of (a / 4) ∷ char_of (a % 4 * 16 + b / 16) ∷ char_of (b % 16 * 4) ∷ b'=' ∷ []
urlsafe_b64encode (a ∷ b ∷ c ∷ bytes) =
    char_of (a / 4)
    ∷ char_of (a % 4 * 16 + b / 16)
    ∷ char_of (b % 16 * 4 + c / 64)
    ∷ char_of (c % 64)
    ∷ urlsafe_b64encode bytes

-- Where the reader stands: the number of characters of the group of four that it has read, with the
-- bits that wait for the next.
pub data Quad : Type 0 where
  start : Quad
  one : ℕ → Quad
  two : ℕ → Quad
  three : ℕ → Quad

abbrev pub prepend : {A : Type 0} → A → Result (List A) → Result (List A)
prepend a (ok l) = ok (a ∷ l)
prepend a (err e) = err e

-- What a character does: the text ends, or the reader stands elsewhere, with the signs of padding
-- read in a row, and may have a byte.
pub data Step : Type 0 where
  stop : Step
  next : Quad → ℕ → Option ℕ → Step

abbrev padding : Quad → ℕ → Step
padding (two acc) pads = if leb 1 pads then stop else next (two acc) (pads + 1) none
padding (three acc) pads = stop
padding quad pads = next quad pads none

abbrev sextet : Quad → ℕ → Step
sextet start n = next (one n) 0 none
sextet (one acc) n = next (two (n % 16)) 0 (some (acc * 4 + n / 16))
sextet (two acc) n = next (three (n % 4)) 0 (some (acc * 16 + n / 4))
sextet (three acc) n = next start 0 (some (acc * 64 + n))

abbrev of_sextet : Quad → ℕ → Option ℕ → Step
of_sextet quad pads none = next quad pads none
of_sextet quad pads (some n) = sextet quad n

unfoldable pub step : Quad → ℕ → ℕ → Step
unfolding sextet_of
step quad pads c = if c == b'=' then padding quad pads else of_sextet quad pads (sextet_of c)

abbrev pub after_step : Step → (Quad → ℕ → Result Bytes) → Result Bytes
after_step stop rest = ok []
after_step (next quad pads none) rest = rest quad pads
after_step (next quad pads (some b)) rest = prepend b (rest quad pads)

-- `binascii.a2b_base64`: a text ends where the padding fills its group of four, or at its end where
-- no group is open.
unfoldable pub a2b_base64 : Quad → ℕ → Text → Result Bytes
unfolding step
a2b_base64 start pads [] = ok []
a2b_base64 _ pads [] = err value_error
a2b_base64 quad pads (c ∷ text) = after_step (step quad pads c) (λ q p. a2b_base64 q p text)

abbrev pub is_ascii : Text → Bool
is_ascii [] = true
is_ascii (c ∷ text) = ltb c 128 && is_ascii text

-- Both exceptions, of a text that is not ASCII and of binascii, are a ValueError.
unfoldable pub urlsafe_b64decode : Text → Result Bytes
unfolding a2b_base64
urlsafe_b64decode text = if is_ascii text then a2b_base64 start 0 text else err value_error

-- `"=" * n`.
unfoldable pub signs : ℕ → Text
signs zero = []
signs (suc n) = b'=' ∷ signs n

-- `_b64url_decode`: `-len(s) % 4` signs are added.
unfoldable pub b64url_decode : Text → Result Bytes
unfolding urlsafe_b64decode signs
b64url_decode s = urlsafe_b64decode (s ++ signs ((4 - length s % 4) % 4))
