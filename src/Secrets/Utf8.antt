-- ===== src/Secrets/Utf8.antt =====
-- The strict UTF-8 decoder of Python, as shared/orw_common/secrets.py uses it.
pub mod RoundTrip
use openradiusweb.Prelude.{
  ◌≡◌, refl, ◌∙◌, ap, ℕ, ◌+◌, ◌-◌, ◌*◌, ◌/◌, ◌%◌, ◌<◌, ◌≤◌, Bool, true, false, ◌&&◌, ◌||◌, List, [],
  ◌∷◌, ◌++◌, ltb, leb, ◌==◌, if◌then◌else◌, arith, Bool-cases, inl, inr, append_assoc,
}
use openradiusweb.Prelude.Text.{Text}
use openradiusweb.Prelude.Result.{Result, ok, err, value_error}
use openradiusweb.Coa.Bytes.{Bytes, Utf8State, idle, expect, utf8, utf8_code, is_scalar}
use openradiusweb.Secrets.Base64.{prepend}

-- The state after a byte that begins a character of more than one byte.
abbrev pub lead : ℕ → Result Utf8State
lead b =
    if ltb b 0xC2
    then err value_error
    else if ltb b 0xE0
    then ok (expect 1 0x80 0xBF (b - 0xC0))
    else if ltb b 0xF0
    then ok
        (expect 2 (if b == 0xE0 then 0xA0 else 0x80) (if b == 0xED then 0x9F else 0xBF) (b - 0xE0))
    else if ltb b 0xF5
    then ok
        (expect 3 (if b == 0xF0 then 0x90 else 0x80) (if b == 0xF4 then 0x8F else 0xBF) (b - 0xF0))
    else err value_error

abbrev pub follow : Result Utf8State → (Utf8State → Result Text) → Result Text
follow (ok state) rest = rest state
follow (err e) rest = err e

unfoldable pub utf8_read : Utf8State → Bytes → Result Text
utf8_read idle [] = ok []
utf8_read (expect left low high acc) [] = err value_error
utf8_read idle (b ∷ bytes) =
    if ltb b 0x80
    then prepend b (utf8_read idle bytes)
    else follow (lead b) (λ state. utf8_read state bytes)
utf8_read (expect left low high acc) (b ∷ bytes) =
    if leb low b && leb b high
    then (if leb left 1
        then prepend (acc * 64 + (b - 0x80)) (utf8_read idle bytes)
        else utf8_read (expect (left - 1) 0x80 0xBF (acc * 64 + (b - 0x80))) bytes)
    else err value_error

-- `bytes.decode("utf-8")`: a UnicodeDecodeError is a ValueError.
unfoldable pub utf8_strict : Bytes → Result Text
unfolding utf8_read
utf8_strict bytes = utf8_read idle bytes
