-- ===== src/Coa/Packet/Encoding.antt =====
-- What `RadiusPacket.encode` writes, and when it can.
use openradiusweb.Prelude.{
  ℕ, suc, ◌+◌, ◌/◌, ◌%◌, ◌≤◌, ◌<◌, ◌≡◌, refl, ap, ◌↔◌, List, [], ◌∷◌, ◌++◌, arith, length, All,
  Bool-cases, inl, inr, true, take, drop, length-append, take-append, drop-append,
}
use openradiusweb.Prelude.Text.{Text}
use openradiusweb.Prelude.Result.{ok, >>=-eq-ok}
use openradiusweb.Coa.Bytes.{Bytes, pack_u8, pack_u16, utf8, utf8_encode, all_scalar}
use openradiusweb.Coa.Packet.{RadiusPacket, zeros, encode_attrs, pack_header, encode}

-- An attribute's type is a byte, and its length with the two bytes before it is one too.
abbrev pub Fits : ℕ × Bytes → Type 0
Fits (attr_type, attr_value) = (attr_type < 256) × (length attr_value ≤ 253)

-- The layout of the attributes in RFC 2865: type, length, value.
unfoldable pub wire : List (ℕ × Bytes) → Bytes
wire [] = []
wire ((t, v) ∷ rest) = t ∷ suc (suc (length v)) ∷ (v ++ wire rest)

pub record IsEncodable (pkt : RadiusPacket) : Type 0 where
  pub code : pkt.code < 256
  pub identifier : pkt.identifier < 256
  pub attributes : All Fits pkt.attributes
  pub size : 20 + length (wire pkt.attributes) < 65536

-- The four bytes of the header.
abbrev pub header_of : RadiusPacket → Bytes
header_of pkt =
    let size = 20 + length (wire pkt.attributes) in
    pkt.code ∷ pkt.identifier ∷ size / 256 ∷ size % 256 ∷ []

-- The packet that carries a given authenticator.
abbrev pub layout : RadiusPacket → Bytes → Bytes
layout pkt authenticator = header_of pkt ++ (authenticator ++ wire pkt.attributes)

pack_u8_ok : (n : ℕ) → n < 256 → pack_u8 n ≡ ok (n ∷ [])
unfolding pack_u8
pack_u8_ok n h = ground arith

pack_u8_inv : (n : ℕ) {bs : Bytes} → pack_u8 n ≡ ok bs → (n < 256) × (bs ≡ n ∷ [])
unfolding pack_u8
pack_u8_inv n h = ground arith

encode_attrs_ok : (attrs : List (ℕ × Bytes)) → All Fits attrs → encode_attrs attrs ≡ ok (wire attrs)
unfolding encode_attrs wire
encode_attrs_ok [] h = refl
encode_attrs_ok ((t, v) ∷ rest) ((small, short), h) =
    ground
      (arith, pack_u8_ok t small, pack_u8_ok (length v + 2) (omega arith), encode_attrs_ok rest h)

encode_attrs_inv :
    (attrs : List (ℕ × Bytes)) {bs : Bytes} → encode_attrs attrs ≡ ok bs → All Fits attrs
unfolding encode_attrs
encode_attrs_inv [] h = tt
encode_attrs_inv ((t, v) ∷ rest) h =
    let (a, ha, h1) = >>=-eq-ok (pack_u8 t) _ h in
    let (b, hb, h2) = >>=-eq-ok (pack_u8 (length v + 2)) _ h1 in
    let (c, hc, h3) = >>=-eq-ok (encode_attrs rest) _ h2 in
    (
      ((pack_u8_inv t ha).0, omega (arith, (pack_u8_inv (length v + 2) hb).0)),
      encode_attrs_inv rest hc,
    )

pack_header_ok :
    (c i n : ℕ)
    → c < 256
    → i < 256
    → n < 65536
    → pack_header c i n ≡ ok (c ∷ i ∷ n / 256 ∷ n % 256 ∷ [])
unfolding pack_header pack_u8 pack_u16
pack_header_ok c i n hc hi hn = ground arith

pack_header_inv :
    (c i n : ℕ) {bs : Bytes} → pack_header c i n ≡ ok bs → (c < 256) × (i < 256) × (n < 65536)
unfolding pack_header pack_u8 pack_u16
pack_header_inv c i n h = ground arith

module _ (md5 : Bytes → Bytes) (pkt : RadiusPacket) (secret : Text) where
  -- The signature that RFC 5176 asks for: MD5 over the packet with sixteen zeros in the place of
  -- the authenticator, and the secret after it.
  abbrev pub signature : Bytes
  signature = md5 (header_of pkt ++ (zeros ++ (wire pkt.attributes ++ utf8 secret)))

  utf8_encode_ok : all_scalar secret ≡ true → utf8_encode secret ≡ ok (utf8 secret)
  unfolding utf8_encode
  utf8_encode_ok h = rw h refl

  utf8_encode_inv : {bs : Bytes} → utf8_encode secret ≡ ok bs → all_scalar secret ≡ true
  unfolding utf8_encode
  utf8_encode_inv h = elim (Bool-cases (all_scalar secret)) [
    | inl e ↦ e
    | inr e ↦ let no = rw e at h in cc
  ]

  pub encode_ok :
      IsEncodable pkt → all_scalar secret ≡ true → encode md5 pkt secret ≡ ok (layout pkt signature)
  unfolding encode
  encode_ok h k = rw (encode_attrs_ok pkt.attributes h.attributes) (
      rw
        (
          pack_header_ok pkt.code pkt.identifier (20 + length (wire pkt.attributes)) h.code
              h.identifier h.size,
          utf8_encode_ok k,
        )
        refl)

  encode_inv :
      {data' : Bytes}
      → encode md5 pkt secret ≡ ok data'
      → IsEncodable pkt × (all_scalar secret ≡ true)
  unfolding encode
  encode_inv h =
      let (attrs, ha, h1) = >>=-eq-ok (encode_attrs pkt.attributes) _ h in
      let (header, hh, h2) =
        >>=-eq-ok (pack_header pkt.code pkt.identifier (20 + length attrs)) _ h1 in
      let (raw, hs, h3) = >>=-eq-ok (utf8_encode secret) _ h2 in
      let fits = encode_attrs_inv pkt.attributes ha in
      let same : attrs ≡ wire pkt.attributes = cc (ha, encode_attrs_ok pkt.attributes fits) in
      let (c, i, n) = pack_header_inv pkt.code pkt.identifier (20 + length attrs) hh in
      (
        record { code = c; identifier = i; attributes = fits; size = rw same at n },
        utf8_encode_inv hs,
      )

  -- `encode` returns a packet exactly when the code and the identifier are bytes, each attribute
  -- fits its one-byte length, the whole fits the two-byte length, and UTF-8 can carry the secret
  -- (it has no lone surrogate); and what it returns is then the header, the signature and the
  -- attributes, in this order.
  pub encode-eq-ok_iff :
      (data' : Bytes)
      → (encode md5 pkt secret ≡ ok data')
        ↔ (IsEncodable pkt × (all_scalar secret ≡ true) × (layout pkt signature ≡ data'))
  encode-eq-ok_iff data' = (
    λ h.
        let (fits, carried) = encode_inv h in
        let made = encode_ok fits carried in (fits, carried, cc),
    λ (fits, carried, same). let made = encode_ok fits carried in cc,
  )

pub take_of_length : (n : ℕ) (a w : Bytes) → length a ≡ n → take n (a ++ w) ≡ a
take_of_length n a w h = rw (← h) (take-append a w)

pub drop_of_length : (n : ℕ) (a w : Bytes) → length a ≡ n → drop n (a ++ w) ≡ w
drop_of_length n a w h = rw (← h) (drop-append a w)

-- What a NAS does to check a request (RFC 5176): it puts sixteen zeros in the place of the
-- authenticator, and compares the digest with what stood there.
abbrev pub Accepts : (Bytes → Bytes) → Text → Bytes → Type 0
Accepts md5 secret data' =
    md5 (take 4 data' ++ (zeros ++ (drop 20 data' ++ utf8 secret))) ≡ take 16 (drop 4 data')

-- Where MD5 returns sixteen bytes, every packet that `encode` returns passes the check of a NAS
-- with the same secret, and its length field is its length.
pub encode-Accepts :
    (md5 : Bytes → Bytes) (pkt : RadiusPacket) (secret : Text) (data' : Bytes)
    → ((bs : Bytes) → length (md5 bs) ≡ 16)
    → encode md5 pkt secret ≡ ok data'
    → Accepts md5 secret data'
      × (take 2 (drop 2 data') ≡ length data' / 256 ∷ length data' % 256 ∷ [])
encode-Accepts md5 pkt secret data' sixteen h =
    let (fits, carried, e) = (encode-eq-ok_iff md5 pkt secret data').0 h in
    let s = signature md5 pkt secret in
    let w = wire pkt.attributes in
    let n : length s ≡ 16 = sixteen _ in
    rw (← e) (
      rw (drop_of_length 16 s w n, take_of_length 16 s w n),
      rw (length-append s w, n) (ap (λ (k : ℕ). k / 256 ∷ k % 256 ∷ []) (omega arith)),
    )
