-- ===== src/Coa/Tests.antt =====
-- The theorems on services/auth/coa_manager.py at concrete packets, sessions and switches.
use openradiusweb.Prelude.{
  ◌≡◌, refl, ◌↔◌, true, false, none, some, [], ◌∷◌, ◌++◌, length, take, drop, arith, ◌/◌, ◌%◌, All,
}
use openradiusweb.Prelude.Text.{codes, show, starts_with}
use openradiusweb.Prelude.Result.{ok}
use openradiusweb.Coa.Bytes.{Bytes, utf8, utf8_encode, all_scalar, pack_u8, pack_u16}
use openradiusweb.Coa.Packet.{
  RadiusPacket, zeros, encode, encode_attrs, pack_header, decode, parse_attrs, decode_attrs,
  add_tunnel_vlan,
}
use openradiusweb.Coa.Packet.Encoding.{
  IsEncodable, layout, signature, Accepts, encode-eq-ok_iff, encode-Accepts,
}
use openradiusweb.Coa.Packet.RoundTrip.{
  Splits, decode-encode, decode_attrs-parse_attrs, parse_attrs-Splits,
}
use openradiusweb.Coa.Tables.{Session, NetworkDevice, World, join}
use openradiusweb.Coa.Manager.{Outside, timeout}
use openradiusweb.Coa.Operations.{get_coa_secret, execute_coa}
use openradiusweb.Coa.Sending.{Effect, execute_coa-Effect}
use openradiusweb.Coa.Responses.{KnowsJson, SameRecords, execute_coa-SameRecords}
use openradiusweb.Coa.Lookup.{IsDotted, IsPlain}

-- A digest of sixteen zeros, and a disconnection of the session "a".
abbrev zero_md5 : Bytes → Bytes
zero_md5 bs = zeros

abbrev disconnect_packet : RadiusPacket
disconnect_packet = record {
  code = 40;
  identifier = 7;
  authenticator = zeros;
  attributes = (44, 97 ∷ []) ∷ [];
}

abbrev disconnect_bytes : Bytes
disconnect_bytes = 40 ∷ 7 ∷ 0 ∷ 23 ∷ (zeros ++ 44 ∷ 3 ∷ 97 ∷ [])

disconnect_encoded : encode zero_md5 disconnect_packet (codes "s") ≡ ok disconnect_bytes
unfolding encode encode_attrs pack_header pack_u8 pack_u16 utf8_encode
disconnect_encoded = refl

encode-eq-ok_iff_example : (encode zero_md5 disconnect_packet (codes "s") ≡ ok disconnect_bytes) ↔ (
    IsEncodable disconnect_packet
    × (all_scalar (codes "s") ≡ true)
    × (layout disconnect_packet (signature zero_md5 disconnect_packet (codes "s"))
        ≡ disconnect_bytes))
encode-eq-ok_iff_example = encode-eq-ok_iff zero_md5 disconnect_packet (codes "s") disconnect_bytes

encode-Accepts_example :
    Accepts zero_md5 (codes "s") disconnect_bytes
    × (take 2 (drop 2 disconnect_bytes)
        ≡ length disconnect_bytes / 256 ∷ length disconnect_bytes % 256 ∷ [])
encode-Accepts_example =
    encode-Accepts zero_md5 disconnect_packet (codes "s") disconnect_bytes (λ bs. refl)
      disconnect_encoded

decode-encode_example :
    decode disconnect_bytes (codes "other")
    ≡ ok (record disconnect_packet {
      authenticator = signature zero_md5 disconnect_packet (codes "s");
    })
decode-encode_example =
    decode-encode zero_md5 disconnect_packet (codes "s") (codes "other") disconnect_bytes
      (λ bs. refl) disconnect_encoded

-- A whole attribute, and one that says more bytes than there are.
abbrev broken_attrs : Bytes
broken_attrs = 101 ∷ 6 ∷ 0 ∷ 0 ∷ 1 ∷ 147 ∷ 18 ∷ 9 ∷ 65 ∷ []

decode_attrs-parse_attrs_example : decode_attrs 20 broken_attrs ≡ some (parse_attrs broken_attrs)
decode_attrs-parse_attrs_example = decode_attrs-parse_attrs 20 broken_attrs (omega arith)

parse_attrs-Splits_example : (rest : Bytes) × Splits broken_attrs (parse_attrs broken_attrs) rest
parse_attrs-Splits_example = parse_attrs-Splits broken_attrs

-- A switch that never answers, and a database that takes a report of success in JSON.
abbrev silent : Outside
silent = record {
  md5 = zero_md5;
  answer = λ sent. timeout;
  decrypt = λ t. ok t;
  accepts_json = λ t. starts_with t (codes "{\"success\": true");
}

abbrev session : Session
session = record {
  session_id = codes "a";
  username = some (codes "corp\\bobby");
  calling_station_id = some (codes "aabb.ccdd.eeff");
  nas_ip = codes "10.0.0.1";
  device_id = none;
  assigned_vlan = none;
  started_at = 3;
  active = true;
}

abbrev switch : NetworkDevice
switch = record {
  ip_address = codes "10.0.0.1";
  vendor = some (codes "cisco");
  coa_secret_encrypted = some (codes "s");
}

abbrev world : World
world = record {
  identifier = 0;
  sessions = session ∷ [];
  devices = switch ∷ [];
  events = [];
  published = [];
  sent = [];
}

secret_known : get_coa_secret silent (codes "10.0.0.1") world ≡ (ok (codes "s"), world)
unfolding get_coa_secret
secret_known = refl

execute_coa-Effect_example :
    Effect silent
      (join world.devices session)
      (codes "s")
      world
      (execute_coa silent (join world.devices session) (codes "disconnect") none none world)
execute_coa-Effect_example =
    execute_coa-Effect silent (λ bs. refl) (join world.devices session) (codes "s")
      (codes "disconnect") none none world secret_known

no_python : KnowsJson silent
unfolding starts_with
no_python true rest = refl
no_python false rest = refl

execute_coa-SameRecords_example :
    SameRecords world
      (execute_coa silent (join world.devices session) (codes "disconnect") none none world).1
execute_coa-SameRecords_example =
    execute_coa-SameRecords silent (λ bs. refl) no_python (join world.devices session) (codes "s")
      (codes "disconnect") none none world secret_known

abbrev tunnel_packet : RadiusPacket
tunnel_packet = record disconnect_packet {
  attributes =
      (44, 97 ∷ [])
      ∷ (64, 1 ∷ 0 ∷ 0 ∷ 0 ∷ [])
      ∷ (65, 1 ∷ 0 ∷ 0 ∷ 0 ∷ [])
      ∷ (81, 1 ∷ 52 ∷ 50 ∷ [])
      ∷ [];
}

tunnel_added : add_tunnel_vlan 42 1 disconnect_packet ≡ ok tunnel_packet
unfolding add_tunnel_vlan utf8 show
tunnel_added = refl

dotted : All IsDotted world.sessions
dotted = (λ station h. (let e : codes "aabb.ccdd.eeff" ≡ station = cc in rw (← e) refl), tt)

plain : IsPlain (codes "bob")
plain = ((omega arith, omega arith), ((omega arith, omega arith), ((omega arith, omega arith), tt)))
