-- ===== src/Coa/Bytes.antt =====
-- Python's `bytes` as a list of numbers below 256, `struct.pack` and the UTF-8 codec, as
-- services/auth/coa_manager.py uses them.
use openradiusweb.Prelude.{
  ℕ, ◌+◌, ◌-◌, ◌*◌, ◌/◌, ◌%◌, ◌<◌, Bool, true, ◌&&◌, ◌||◌, List, [], ◌∷◌, ◌++◌, ltb, leb, ◌==◌,
  if◌then◌else◌,
}
use openradiusweb.Prelude.Text.{Text}
use openradiusweb.Prelude.Result.{Result, ok, err, struct_error, value_error}

abbrev pub Bytes : Type 0
Bytes = List ℕ

abbrev pub IsByte : ℕ → Type 0
IsByte b = b < 256

-- `struct.pack("B", n)`.
unfoldable pub pack_u8 : ℕ → Result Bytes
pack_u8 n = if ltb n 256 then ok (n ∷ []) else err struct_error

-- `struct.pack("!H", n)`: two bytes, the high one first.
unfoldable pub pack_u16 : ℕ → Result Bytes
pack_u16 n = if ltb n 65536 then ok (n / 256 ∷ n % 256 ∷ []) else err struct_error

abbrev pub be32 : ℕ → Bytes
be32 n = n / 16777216 ∷ n / 65536 % 256 ∷ n / 256 % 256 ∷ n % 256 ∷ []

-- `struct.pack("!I", n)`.
unfoldable pub pack_u32 : ℕ → Result Bytes
pack_u32 n = if ltb n 4294967296 then ok (be32 n) else err struct_error

-- `struct.unpack("!I", …)` of four bytes.
abbrev pub unpack_u32 : ℕ → ℕ → ℕ → ℕ → ℕ
unpack_u32 a b c d = a * 16777216 + b * 65536 + c * 256 + d

-- One code point, as `str.encode("utf-8")` writes it.
unfoldable pub utf8_code : ℕ → Bytes
utf8_code c =
    if ltb c 0x80
    then c ∷ []
    else if ltb c 0x800
    then (0xC0 + c / 64) ∷ (0x80 + c % 64) ∷ []
    else if ltb c 0x10000
    then (0xE0 + c / 4096) ∷ (0x80 + c / 64 % 64) ∷ (0x80 + c % 64) ∷ []
    else (0xF0 + c / 262144) ∷ (0x80 + c / 4096 % 64) ∷ (0x80 + c / 64 % 64) ∷ (0x80 + c % 64) ∷ []

-- A text that UTF-8 can carry.
unfoldable pub utf8 : Text → Bytes
unfolding utf8_code
utf8 [] = []
utf8 (c ∷ s) = utf8_code c ++ utf8 s

-- A code point that a Python text can hold and UTF-8 can carry.
abbrev pub is_scalar : ℕ → Bool
is_scalar c = ltb c 0xD800 || (leb 0xE000 c && ltb c 0x110000)

abbrev pub all_scalar : Text → Bool
all_scalar [] = true
all_scalar (c ∷ text) = is_scalar c && all_scalar text

-- `str.encode("utf-8")`: a UnicodeEncodeError, where the text has a lone surrogate, is a ValueError.
unfoldable pub utf8_encode : Text → Result Bytes
unfolding utf8
utf8_encode text = if all_scalar text then ok (utf8 text) else err value_error

-- The state of `bytes.decode("utf-8", errors="replace")`: no sequence is open, or one is, with the
-- bytes still expected, the range of the next one, and the bits read so far.
pub data Utf8State : Type 0 where
  idle : Utf8State
  expect : (left low high acc : ℕ) → Utf8State

-- A byte that begins a sequence.
abbrev utf8_start : ℕ → Utf8State × Text
utf8_start b =
    if ltb b 0x80
    then (idle, b ∷ [])
    else if ltb b 0xC2
    then (idle, 0xFFFD ∷ [])
    else if ltb b 0xE0
    then (expect 1 0x80 0xBF (b - 0xC0), [])
    else if ltb b 0xF0
    then (
      expect 2 (if b == 0xE0 then 0xA0 else 0x80) (if b == 0xED then 0x9F else 0xBF) (b - 0xE0),
      [],
    )
    else if ltb b 0xF5
    then (
      expect 3 (if b == 0xF0 then 0x90 else 0x80) (if b == 0xF4 then 0x8F else 0xBF) (b - 0xF0),
      [],
    )
    else (idle, 0xFFFD ∷ [])

-- A sequence that is broken off becomes one replacement character.
abbrev utf8_step : Utf8State → ℕ → Utf8State × Text
utf8_step idle b = utf8_start b
utf8_step (expect left low high acc) b =
    if leb low b && leb b high
    then (let acc' = acc * 64 + (b - 0x80) in
        if leb left 1 then (idle, acc' ∷ []) else (expect (left - 1) 0x80 0xBF acc', []))
    else (let (st, out) = utf8_start b in (st, 0xFFFD ∷ out))

abbrev utf8_end : Utf8State → Text
utf8_end idle = []
utf8_end (expect _ _ _ _) = 0xFFFD ∷ []

utf8_run : Utf8State → Bytes → Text
utf8_run st [] = utf8_end st
utf8_run st (b ∷ bs) = let (st', out) = utf8_step st b in out ++ utf8_run st' bs

-- `bytes.decode("utf-8", errors="replace")`.
unfoldable pub utf8_decode : Bytes → Text
unfolding utf8_run
utf8_decode bs = utf8_run idle bs
