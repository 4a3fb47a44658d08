-- ===== src/Rlm/Access.antt =====
-- Whom `authorize` of rlm_orw.py lets in without a password.
use mathlib.Core.List.{Memᴰ}
use openradiusweb.Prelude.{
  ℕ, String, ◌≡◌, refl, ◌<◌, arith, ap, sym, ◌∙◌, Bool, true, false, ◌&&◌, Option, none, some, List,
  [], ◌∷◌, if◌then◌else◌, ltb→lt, first-Memᴰ, first-some, keep_if-Memᴰ, Memᴰ-keep_if, &&_true,
}
use openradiusweb.Prelude.Text.{Text, codes, text_eq, eq_of_text_eq, text_eq_refl}
use openradiusweb.Prelude.Result.{ok, >>=-eq-ok}
use openradiusweb.Mac.{normalize_mac}
use openradiusweb.Rlm.Attrs.{AttrValue, one, many, get_or_empty, is_true, extract_attrs}
use openradiusweb.Rlm.Method.{detect_auth_method, mab}
use openradiusweb.Rlm.Failure.{reply_get}
use openradiusweb.Rlm.Tables.{MabDevice, Db, Outside, of_tenant}
use openradiusweb.Rlm.Mab.{
  is_listed, lookup_mab_device, HookReply, detect_realm, vlan_attrs, realm_attrs, answer, listed,
  find_station, mab_station, authorize_request, authorize, not_expired,
}

abbrev pub InDate : ℕ → Option ℕ → Type 0
InDate now none = Unit
InDate now (some t) = now < t

abbrev pub OfTenant : Option Text → Option Text → Type 0
OfTenant none column = Unit
OfTenant (some []) column = Unit
OfTenant (some (c ∷ t)) column = column ≡ some (c ∷ t)

-- A row of the whitelist that admits a station: its address is that of the station, it is
-- enabled, not past its date, and of the tenant, if there is one.
abbrev pub Listed : Outside → Db → Text → MabDevice → Type 0
Listed o db station d =
    (o.connected ≡ true)
    × (o.cast_macaddr (normalize_mac station) ≡ some d.mac_address)
    × Memᴰ d db.mab_devices
    × (d.enabled ≡ true)
    × InDate o.now d.expiry_date
    × OfTenant o.tenant d.tenant_id

not_expired-InDate : (now : ℕ) (date : Option ℕ) → not_expired now date ≡ true → InDate now date
not_expired-InDate now none h = tt
not_expired-InDate now (some t) h = ltb→lt now t h

InDate-not_expired : (now : ℕ) (date : Option ℕ) → InDate now date → not_expired now date ≡ true
InDate-not_expired now none h = refl
InDate-not_expired now (some t) h = ground arith

pub of_tenant-OfTenant :
    (tenant column : Option Text) → of_tenant tenant column ≡ true → OfTenant tenant column
of_tenant-OfTenant none column h = tt
of_tenant-OfTenant (some []) column h = tt
of_tenant-OfTenant (some (c ∷ t)) none h = cc
of_tenant-OfTenant (some (c ∷ t)) (some s) h = ap some (eq_of_text_eq s (c ∷ t) h)

pub OfTenant-of_tenant :
    (tenant column : Option Text) → OfTenant tenant column → of_tenant tenant column ≡ true
OfTenant-of_tenant none column h = refl
OfTenant-of_tenant (some []) column h = refl
OfTenant-of_tenant (some (c ∷ t)) column h = rw h (text_eq_refl (c ∷ t))

is_listed-Listed :
    (o : Outside) (db : Db) (station mac : Text) (d : MabDevice)
    → o.connected ≡ true
    → o.cast_macaddr (normalize_mac station) ≡ some mac
    → Memᴰ d db.mab_devices
    → is_listed o mac d ≡ true
    → Listed o db station d
is_listed-Listed o db station mac d up cast m h =
    let (same, h1) = &&_true (text_eq d.mac_address mac) _ h in
    let (on, h2) = &&_true d.enabled _ h1 in
    let (date, tenant) = &&_true (not_expired o.now d.expiry_date) _ h2 in
    (
      up,
      cast ∙ ap some (sym (eq_of_text_eq d.mac_address mac same)),
      m,
      on,
      not_expired-InDate o.now d.expiry_date date,
      of_tenant-OfTenant o.tenant d.tenant_id tenant,
    )

-- The lookup gives only rows that admit the station.
pub lookup_mab_device-Listed :
    (o : Outside) (db : Db) (station : Text) {d : MabDevice}
    → lookup_mab_device o db (normalize_mac station) ≡ some d
    → Listed o db station d
unfolding lookup_mab_device
lookup_mab_device-Listed o db station {d} h =
    by_answers o.connected (o.cast_macaddr (normalize_mac station)) refl refl h
  where
    by_answers :
        (up : Bool) (mac : Option Text)
        → o.connected ≡ up
        → o.cast_macaddr (normalize_mac station) ≡ mac
        → (if up then listed o mac db.mab_devices else none) ≡ some d
        → Listed o db station d
    by_answers false mac u c k = cc
    by_answers true none u c k = cc
    by_answers true (some mac) u c k =
        let (m, e) = keep_if-Memᴰ (is_listed o mac) db.mab_devices (first-Memᴰ _ k) in
        is_listed-Listed o db station mac d u c m e

-- Where a row admits the station, the lookup gives a row.
Listed-lookup_mab_device :
    (o : Outside) (db : Db) (station : Text) (d : MabDevice)
    → Listed o db station d
    → (e : MabDevice) × (lookup_mab_device o db (normalize_mac station) ≡ some e)
unfolding lookup_mab_device
Listed-lookup_mab_device o db station d (up, cast, m, on, date, tenant) =
    let kept : is_listed o d.mac_address d ≡ true = rw (
      text_eq_refl d.mac_address,
      on,
      InDate-not_expired o.now d.expiry_date date,
      OfTenant-of_tenant o.tenant d.tenant_id tenant,
    ) in
    let (e, found) =
      first-some _ (Memᴰ-keep_if (is_listed o d.mac_address) db.mab_devices m kept) in
    (e, rw (up, cast) found)

-- What the control list says of a request that is let in.
abbrev pub LetsIn : HookReply → Type 0
LetsIn reply = reply_get (codes "Auth-Type") reply.control_attrs ≡ some (codes "Accept")

no_accept : (realm : Option Text) → reply_get (codes "Auth-Type") (realm_attrs realm) ≡ none
no_accept none = refl
no_accept (some []) = refl
no_accept (some (c ∷ t)) = refl

find_station-some :
    (o : Outside) (db : Db) (station : AttrValue) (d : MabDevice)
    → find_station o db station ≡ ok (some d)
    → (t : Text) × (station ≡ one t) × (lookup_mab_device o db (normalize_mac t) ≡ some d)
find_station-some o db (one t) d h = (t, refl, cc)
find_station-some o db (many ts) d h = cc

mab_station-some :
    (o : Outside) (db : Db) (auth_method : Text) (station : AttrValue) (d : MabDevice)
    → mab_station o db auth_method station ≡ ok (some d)
    → (t : Text) × (text_eq auth_method mab ≡ true)
      × (station ≡ one t)
      × (lookup_mab_device o db (normalize_mac t) ≡ some d)
mab_station-some o db auth_method station d h =
    by_tests (text_eq auth_method mab) (is_true station) refl h
  where
    by_tests :
        (a b : Bool)
        → text_eq auth_method mab ≡ a
        → (if a && b then find_station o db station else ok none) ≡ ok (some d)
        → (t : Text) × (text_eq auth_method mab ≡ true)
          × (station ≡ one t)
          × (lookup_mab_device o db (normalize_mac t) ≡ some d)
    by_tests true true e k =
        let (t, same, found) = find_station-some o db station d k in (t, e, same, found)
    by_tests true false e k = cc
    by_tests false b e k = cc

-- `authorize` lets a request in (Auth-Type Accept) only if the request is one of MAB, its station
-- is a single text, and an enabled row of the whitelist of the tenant, not past its date, has the
-- address of the station; the reply then carries the VLAN of that row.
pub authorize-Accept :
    (o : Outside) (db : Db) (p : List (String × Text)) {reply : HookReply}
    → authorize o db p ≡ ok reply
    → LetsIn reply
    → (station : Text) × (d : MabDevice) × (detect_auth_method (extract_attrs p) ≡ ok mab)
      × (get_or_empty "Calling-Station-Id" (extract_attrs p) ≡ one station)
      × Listed o db station d
      × (reply.reply_attrs ≡ vlan_attrs d.assigned_vlan_id)
unfolding authorize authorize_request
authorize-Accept o db p {reply} h let_in =
    let (realm, r, h1) =
      >>=-eq-ok (detect_realm (get_or_empty "User-Name" (extract_attrs p))) _ h in
    let (auth_method, m, h2) = >>=-eq-ok (detect_auth_method (extract_attrs p)) _ h1 in
    let station = get_or_empty "Calling-Station-Id" (extract_attrs p) in
    let (device, s, h3) = >>=-eq-ok (mab_station o db auth_method station) _ h2 in
    by_device realm auth_method station device m s h3
  where
    by_device :
        (realm : Option Text) (auth_method : Text) (station : AttrValue) (device : Option MabDevice)
        → detect_auth_method (extract_attrs p) ≡ ok auth_method
        → mab_station o db auth_method station ≡ ok device
        → ok (answer realm device) ≡ ok reply
        → (t : Text) × (d : MabDevice) × (detect_auth_method (extract_attrs p) ≡ ok mab)
          × (station ≡ one t)
          × Listed o db t d
          × (reply.reply_attrs ≡ vlan_attrs d.assigned_vlan_id)
    by_device realm auth_method station none m s e =
        let same : answer realm none ≡ reply = cc in
        let refused : reply_get (codes "Auth-Type") reply.control_attrs ≡ none =
          rw (← same) (no_accept realm) in
        cc
    by_device realm auth_method station (some d) m s e =
        let same : answer realm (some d) ≡ reply = cc in
        let (t, is_mab, is_one, found) = mab_station-some o db auth_method station d s in
        (
          t,
          d,
          rw (← eq_of_text_eq auth_method mab is_mab) m,
          is_one,
          lookup_mab_device-Listed o db t found,
          rw (← same) refl,
        )

-- A request of MAB whose station a row of the whitelist admits is let in, unless the realm of
-- the user's name raises.
pub authorize-Listed :
    (o : Outside) (db : Db) (p : List (String × Text)) (c : ℕ) (station : Text) (d : MabDevice)
    {realm : Option Text}
    → detect_realm (get_or_empty "User-Name" (extract_attrs p)) ≡ ok realm
    → detect_auth_method (extract_attrs p) ≡ ok mab
    → get_or_empty "Calling-Station-Id" (extract_attrs p) ≡ one (c ∷ station)
    → Listed o db (c ∷ station) d
    → (reply : HookReply) × (authorize o db p ≡ ok reply) × LetsIn reply
unfolding authorize authorize_request
authorize-Listed o db p c station d {realm} r m s l =
    let (e, found) = Listed-lookup_mab_device o db (c ∷ station) d l in
    (answer realm (some e), rw (r, m, s, found), refl)
