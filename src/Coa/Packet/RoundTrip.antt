-- ===== src/Coa/Packet/RoundTrip.antt =====
-- `RadiusPacket.decode` against `RadiusPacket.encode`, and on bytes that come from anywhere.
use openradiusweb.Prelude.{
  ℕ, zero, suc, ◌+◌, ◌-◌, ◌*◌, ◌/◌, ◌%◌, ◌≤◌, ◌<◌, ◌≡◌, refl, ap, ◌∙◌, ◌⊎◌, take-append-drop,
  length-take_le, List, [], ◌∷◌, ◌++◌, arith, ltb, length, some, ◌||◌, take, drop, length-append,
  append_assoc, take-append, drop-append, Bool-cases, inl, inr, length-drop, take_all,
}
use openradiusweb.Prelude.Text.{Text}
use openradiusweb.Prelude.Result.{ok}
use openradiusweb.Coa.Bytes.{Bytes}
use openradiusweb.Coa.Packet.{RadiusPacket, encode, decode_attrs, parse_attrs, decode}
use openradiusweb.Coa.Packet.Encoding.{
  wire, signature, encode-eq-ok_iff, take_of_length, drop_of_length,
}

-- A round that does not end the loop leaves at least the first two bytes.
drop-two : (n t : ℕ) (rest : Bytes) → 2 ≤ n → drop n (t ∷ n ∷ rest) ≡ drop (n - 2) rest
drop-two zero t rest h = absurd (omega (arith, h))
drop-two (suc zero) t rest h = absurd (omega (arith, h))
drop-two (suc (suc n)) t rest h = ap (λ k. drop k rest) same
  where
    same : n ≡ suc (suc n) - 2
    same = omega arith

-- One well-formed attribute at the front is read whole.
decode_attrs-cons :
    (fuel t : ℕ) (v w : Bytes) {attrs : List (ℕ × Bytes)}
    → decode_attrs fuel w ≡ some attrs
    → decode_attrs (suc fuel) (t ∷ suc (suc (length v)) ∷ (v ++ w)) ≡ some ((t, v) ∷ attrs)
unfolding decode_attrs
decode_attrs-cons fuel t v w h =
    let e : suc (suc (length v)) - 2 ≡ length v = omega arith in
    let f : length (v ++ w) ≡ length v + length w = length-append v w in
    rw (e, drop-append v w) (rw (take-append v w) (ground (arith, h, f)))

decode_attrs-wire :
    (attrs : List (ℕ × Bytes)) (fuel : ℕ)
    → length (wire attrs) ≤ fuel
    → decode_attrs fuel (wire attrs) ≡ some attrs
unfolding wire
decode_attrs-wire [] fuel h = unfold decode_attrs in ground arith
decode_attrs-wire ((t, v) ∷ rest) zero h = absurd (omega arith)
decode_attrs-wire ((t, v) ∷ rest) (suc fuel) h =
    decode_attrs-cons fuel t v (wire rest)
      (decode_attrs-wire rest fuel (omega (arith, length-append v (wire rest))))

parse_attrs-wire : (attrs : List (ℕ × Bytes)) → parse_attrs (wire attrs) ≡ attrs
unfolding parse_attrs
parse_attrs-wire attrs = rw (decode_attrs-wire attrs (length (wire attrs)) (omega arith))

-- A packet that `encode` returns, `decode` reads back: the same code, identifier and attributes,
-- and the signature as its authenticator. MD5 is taken to return sixteen bytes.
pub decode-encode :
    (md5 : Bytes → Bytes) (pkt : RadiusPacket) (secret other : Text) (data' : Bytes)
    → ((bs : Bytes) → length (md5 bs) ≡ 16)
    → encode md5 pkt secret ≡ ok data'
    → decode data' other ≡ ok (record pkt { authenticator = signature md5 pkt secret })
unfolding decode
decode-encode md5 pkt secret other data' sixteen h =
    let (fits, carried, e) = (encode-eq-ok_iff md5 pkt secret data').0 h in
    let s = signature md5 pkt secret in
    let w = wire pkt.attributes in
    let n : length s ≡ 16 = sixteen _ in
    let size : (20 + length w) / 256 * 256 + (20 + length w) % 256 - 20 ≡ length w = omega arith in
    rw (← e) (
      rw (drop_of_length 16 s w n, take_of_length 16 s w n, length-append s w, n, size)
        (rw (take_all w (length w) (omega arith), parse_attrs-wire pkt.attributes) (ground arith)))

-- The bytes that do not begin a whole attribute.
abbrev pub IsBroken : Bytes → Type 0
IsBroken [] = Unit
IsBroken (t ∷ []) = Unit
IsBroken (t ∷ n ∷ rest) = (n < 2) ⊎ (2 + length rest < n)

abbrev pub Splits : Bytes → List (ℕ × Bytes) → Bytes → Type 0
Splits bs attrs rest = (bs ≡ wire attrs ++ rest) × IsBroken rest

Splits-cons :
    (t n : ℕ) (rest after : Bytes) (attrs : List (ℕ × Bytes))
    → 2 ≤ n
    → n ≤ 2 + length rest
    → drop (n - 2) rest ≡ wire attrs ++ after
    → t ∷ n ∷ rest ≡ wire ((t, take (n - 2) rest) ∷ attrs) ++ after
unfolding wire
Splits-cons t n rest after attrs low high e =
    let size : suc (suc (length (take (n - 2) rest))) ≡ n =
      omega (arith, length-take_le (n - 2) rest (omega arith)) in
    rw (size, append_assoc, ← e, take-append-drop)

decode_attrs_sound :
    (fuel : ℕ) (bs : Bytes)
    → length bs ≤ fuel
    → (attrs : List (ℕ × Bytes)) × (rest : Bytes) × (decode_attrs fuel bs ≡ some attrs)
      × Splits bs attrs rest
unfolding decode_attrs
decode_attrs_sound fuel [] h = ([], [], refl, (unfold wire in refl, tt))
decode_attrs_sound fuel (t ∷ []) h = ([], t ∷ [], refl, (unfold wire in refl, tt))
decode_attrs_sound zero (t ∷ n ∷ rest) h = absurd (omega arith)
decode_attrs_sound (suc fuel) (t ∷ n ∷ rest) h =
    let (attrs, after, e, s) =
      decode_attrs_sound fuel (drop (n - 2) rest) (omega (arith, length-drop (n - 2) rest)) in
    elim (Bool-cases (ltb n 2 || ltb (2 + length rest) n)) [
      | inl broken ↦ ([], t ∷ n ∷ rest, rw broken, (unfold wire in refl, ground arith))
      | inr whole ↦ (
        (t, take (n - 2) rest) ∷ attrs,
        after,
        rw (whole, drop-two n t rest (ground arith), e),
        (Splits-cons t n rest after attrs (ground arith) (ground arith) s.0, s.1),
      )
    ]

decode_attrs_stable :
    (f g : ℕ) (bs : Bytes) → length bs ≤ f → length bs ≤ g → decode_attrs f bs ≡ decode_attrs g bs
unfolding decode_attrs
decode_attrs_stable f g [] h k = refl
decode_attrs_stable f g (t ∷ []) h k = refl
decode_attrs_stable zero g (t ∷ n ∷ rest) h k = absurd (omega arith)
decode_attrs_stable (suc f) zero (t ∷ n ∷ rest) h k = absurd (omega arith)
decode_attrs_stable (suc f) (suc g) (t ∷ n ∷ rest) h k =
    let e : length (drop (n - 2) rest) ≡ length rest - (n - 2) = length-drop (n - 2) rest in
    let later = decode_attrs_stable f g (drop (n - 2) rest) (omega (arith, e)) (omega (arith, e)) in
    elim (Bool-cases (ltb n 2 || ltb (2 + length rest) n)) [
      | inl broken ↦ rw broken refl
      | inr whole ↦ rw (whole, drop-two n t rest (ground arith), later) refl
    ]

-- With as many rounds as bytes, or more, the loop of `decode` has ended, and more rounds do not
-- change what it has read.
pub decode_attrs-parse_attrs :
    (fuel : ℕ) (bs : Bytes) → length bs ≤ fuel → decode_attrs fuel bs ≡ some (parse_attrs bs)
unfolding parse_attrs
decode_attrs-parse_attrs fuel bs h =
    let (attrs, rest, e, s) = decode_attrs_sound (length bs) bs (omega arith) in
    decode_attrs_stable fuel (length bs) bs h (omega arith) ∙ rw e

-- Whatever the bytes, the attributes that are read are, in the layout of RFC 2865, a prefix of them,
-- and the reading has stopped where no whole attribute begins.
pub parse_attrs-Splits : (bs : Bytes) → (rest : Bytes) × Splits bs (parse_attrs bs) rest
unfolding parse_attrs
parse_attrs-Splits bs =
    let (attrs, rest, e, s) = decode_attrs_sound (length bs) bs (omega arith) in (rest, rw e s)
