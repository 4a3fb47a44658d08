-- ===== src/Coa/Packet.antt =====
-- services/auth/coa_manager.py, the class `RadiusPacket`: building, encoding and decoding of RADIUS
-- packets. MD5 is a parameter: the program takes it from `hashlib`.
pub mod Encoding
pub mod RoundTrip
use openradiusweb.Prelude.{
  ℕ, zero, suc, ◌+◌, ◌-◌, ◌*◌, ◌≡◌, Bool, ◌||◌, Option, none, some, String, List, [], ◌∷◌, ◌++◌,
  ltb, leb, ◌==◌, if◌then◌else◌, length, take, drop,
}
use openradiusweb.Prelude.Text.{Text, codes, show}
use openradiusweb.Prelude.Result.{Result, ok, err, struct_error, value_error, ◌>>=◌}
use openradiusweb.Coa.RadiusAttr
use openradiusweb.Coa.Bytes.{
  Bytes, pack_u8, pack_u16, pack_u32, be32, unpack_u32, utf8, utf8_encode, utf8_decode,
}

abbrev pub cisco_vendor_id : ℕ
cisco_vendor_id = 9

abbrev pub cisco_av_pair : ℕ
cisco_av_pair = 1

pub record RadiusPacket : Type 0 where
  pub code : ℕ
  pub identifier : ℕ
  pub authenticator : Bytes
  pub attributes : List (ℕ × Bytes)

-- `self.attributes.append((attr_type, value))`.
abbrev pub append_attr : ℕ → Bytes → RadiusPacket → RadiusPacket
append_attr attr_type value pkt = record pkt {
  attributes = pkt.attributes ++ (attr_type, value) ∷ [];
}

unfoldable pub add_string : ℕ → Text → RadiusPacket → Result RadiusPacket
unfolding utf8_encode
add_string attr_type value pkt = do raw ← utf8_encode value; ok (append_attr attr_type raw pkt)

unfoldable pub add_integer : ℕ → ℕ → RadiusPacket → Result RadiusPacket
add_integer attr_type value pkt = do packed ← pack_u32 value; ok (append_attr attr_type packed pkt)

-- `struct.pack("!BI", tag, value)[:4]`.
unfoldable pub tunnel_value : ℕ → ℕ → Result Bytes
unfolding pack_u8 pack_u32
tunnel_value tag value = do first ← pack_u8 tag; rest ← pack_u32 value; ok (take 4 (first ++ rest))

unfoldable pub add_tunnel_vlan : ℕ → ℕ → RadiusPacket → Result RadiusPacket
unfolding tunnel_value
add_tunnel_vlan vlan_id tag pkt = do
  kind ← tunnel_value tag 13
  medium ← tunnel_value tag 6
  prefix ← pack_u8 tag
  ok (
      append_attr RadiusAttr.tunnel_private_group_id (prefix ++ utf8 (show vlan_id)) (
        append_attr RadiusAttr.tunnel_medium_type medium
          (append_attr RadiusAttr.tunnel_type kind pkt)))

unfoldable pub add_cisco_avpair : Text → RadiusPacket → Result RadiusPacket
unfolding utf8_encode
add_cisco_avpair avpair pkt = do
  avpair_bytes ← utf8_encode avpair
  vendor ← pack_u32 cisco_vendor_id
  kind ← pack_u8 cisco_av_pair
  size ← pack_u8 (length avpair_bytes + 2)
  ok (append_attr RadiusAttr.vendor_specific (vendor ++ (kind ++ (size ++ avpair_bytes))) pkt)

-- The loop of `encode` over the attributes.
unfoldable pub encode_attrs : List (ℕ × Bytes) → Result Bytes
encode_attrs [] = ok []
encode_attrs ((attr_type, attr_value) ∷ rest) = do
  kind ← pack_u8 attr_type
  size ← pack_u8 (length attr_value + 2)
  tail ← encode_attrs rest
  ok (kind ++ (size ++ (attr_value ++ tail)))

abbrev pub zeros : Bytes
zeros = 0 ∷ 0 ∷ 0 ∷ 0 ∷ 0 ∷ 0 ∷ 0 ∷ 0 ∷ 0 ∷ 0 ∷ 0 ∷ 0 ∷ 0 ∷ 0 ∷ 0 ∷ 0 ∷ []

-- `struct.pack("!BBH", code, identifier, length)`.
unfoldable pub pack_header : ℕ → ℕ → ℕ → Result Bytes
pack_header code identifier size = do
  first ← pack_u8 code
  second ← pack_u8 identifier
  third ← pack_u16 size
  ok (first ++ (second ++ third))

unfoldable pub encode : (Bytes → Bytes) → RadiusPacket → Text → Result Bytes
encode md5 pkt secret = do
  attrs_data ← encode_attrs pkt.attributes
  header ← pack_header pkt.code pkt.identifier (20 + length attrs_data)
  secret_bytes ← utf8_encode secret
  let raw = header ++ (zeros ++ (attrs_data ++ secret_bytes))
  ok (header ++ (md5 raw ++ attrs_data))

abbrev pub cons_some {ℓ} : {A : Type ℓ} → A → Option (List A) → Option (List A)
cons_some x none = none
cons_some x (some xs) = some (x ∷ xs)

-- The loop of `decode` over the bytes from `pos` on, which a round moves by `attr_len`; it ends early
-- at a malformed attribute, and without that test it would stand still where `attr_len` is zero.
-- `none` is no value of the program: the fuel has run out.
unfoldable pub decode_attrs : ℕ → Bytes → Option (List (ℕ × Bytes))
decode_attrs fuel [] = some []
decode_attrs fuel (attr_type ∷ []) = some []
decode_attrs zero (attr_type ∷ attr_len ∷ rest) = none
decode_attrs (suc fuel) (attr_type ∷ attr_len ∷ rest) =
    let more = decode_attrs fuel (drop attr_len (attr_type ∷ attr_len ∷ rest)) in
    if ltb attr_len 2 || ltb (2 + length rest) attr_len
    then some []
    else cons_some (attr_type, take (attr_len - 2) rest) more

abbrev pub or_nil {ℓ} : {A : Type ℓ} → Option (List A) → List A
or_nil none = []
or_nil (some xs) = xs

-- The attributes of some bytes. Each round takes two bytes at least, so the fuel is enough.
unfoldable pub parse_attrs : Bytes → List (ℕ × Bytes)
unfolding decode_attrs
parse_attrs attrs_data = or_nil (decode_attrs (length attrs_data) attrs_data)

-- The header of a packet that is not too short; `authenticator` is `data[4:20]`.
unfoldable pub decode : Bytes → Text → Result RadiusPacket
decode (code ∷ identifier ∷ high ∷ low ∷ rest) secret =
    if ltb (4 + length rest) 20
    then err value_error
    else ok (record {
      code = code;
      identifier = identifier;
      authenticator = take 16 rest;
      attributes = parse_attrs (take (high * 256 + low - 20) (drop 16 rest));
    })
decode _ secret = err value_error

-- The first attribute of a type.
unfoldable pub find_attr : ℕ → List (ℕ × Bytes) → Option Bytes
find_attr attr_type [] = none
find_attr attr_type ((t, v) ∷ rest) = if t == attr_type then some v else find_attr attr_type rest

unfoldable pub get_attr_string : ℕ → RadiusPacket → Option Text
unfolding find_attr
get_attr_string attr_type pkt = elim (find_attr attr_type pkt.attributes) [
  | none ↦ none
  | some v ↦ some (utf8_decode v)
]

-- The first four bytes of an attribute's value as a number, if it has them.
unfoldable pub cause_value : Bytes → Option ℕ
cause_value (a ∷ b ∷ c ∷ d ∷ _) = some (unpack_u32 a b c d)
cause_value _ = none

-- `get_error_cause`: the first Error-Cause attribute that is long enough.
unfoldable pub error_cause_of : List (ℕ × Bytes) → Option ℕ
unfolding cause_value
error_cause_of [] = none
error_cause_of ((t, v) ∷ rest) =
    let later = error_cause_of rest in
    if t == RadiusAttr.error_cause
    then (elim (cause_value v) [ none ↦ later | some n ↦ some n ])
    else later

abbrev pub get_error_cause : RadiusPacket → Option ℕ
get_error_cause pkt = error_cause_of pkt.attributes
