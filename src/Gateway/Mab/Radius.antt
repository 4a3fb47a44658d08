-- ===== src/Gateway/Mab/Radius.antt =====
-- From the gateway to FreeRADIUS: a device that features/mab_devices has added, and `authorize` of
-- services/auth/freeradius/mods-config/python/rlm_orw.py.
use mathlib.Core.List.{Memᴰ}
use openradiusweb.Prelude.{
  ◌≡◌, refl, sym, subst, ℕ, String, true, false, ◌&&◌, Option, none, some, List, [], ◌∷◌, ◌++◌,
  Memᴰ-map, map, any, Bool-cases, Option-cases, inl, inr,
}
use openradiusweb.Prelude.Text.{Text}
use openradiusweb.Prelude.Result.{ok}
use openradiusweb.Mac.{validate_mac}
use openradiusweb.Mac.Agreement.{IsSeparator, IsWritten, normalize_mac-validate_mac}
use openradiusweb.Rlm.Attrs.{one, get_or_empty, extract_attrs}
use openradiusweb.Rlm.Method.{detect_auth_method, mab}
use openradiusweb.Rlm.Tables
use openradiusweb.Rlm.Mab.{HookReply, detect_realm, authorize}
use openradiusweb.Rlm.Access.{InDate, OfTenant, LetsIn, authorize-Listed}
use openradiusweb.Gateway.Audit.{Actor, castable}
use openradiusweb.Gateway.Rows.{Outside, Table, log_audit}
use openradiusweb.Gateway.Mab.{
  MabDevice, NewDevice, accepts_device, device_row, same_device, insert_mab_device,
}
use openradiusweb.Gateway.Mab.Service.{create_mab_device}

-- A row of the table as the FreeRADIUS module reads it: an `enabled` that is NULL counts as false.
abbrev pub seen : MabDevice → Tables.MabDevice
seen r = record {
  mac_address = r.mac_address;
  name = r.name;
  assigned_vlan_id = r.assigned_vlan_id;
  enabled = elim r.enabled [ none ↦ false | some b ↦ b ];
  expiry_date = r.expiry_date;
  tenant_id = r.tenant_id;
}

-- The module's database with the gateway's table.
abbrev pub with_devices : Tables.Db → Table MabDevice → Tables.Db
with_devices db t = record db { mab_devices = map seen t.rows }

Memᴰ-last {ℓ} : {A : Type ℓ} (a : A) (l : List A) → Memᴰ a (l ++ a ∷ [])
Memᴰ-last a [] = Memᴰ.head refl
Memᴰ-last a (x ∷ l) = Memᴰ.tail (Memᴰ-last a l)

-- The row of a new device of a tenant, and that it is in the table.
record Added (o : Outside) (d : NewDevice) (own : Option Text) (row : MabDevice)
    (rows : List MabDevice) : Type 0 where
  is_cast : o.cast_macaddr d.mac_address ≡ some row.mac_address
  is_enabled : row.enabled ≡ some d.enabled
  is_dated : row.expiry_date ≡ d.expiry_date
  is_own : row.tenant_id ≡ own
  is_there : Memᴰ row rows

module _ (o : Outside) (actor : Actor) (d : NewDevice) (ip : Option Text)
    (t : Table MabDevice) where
  new-Added :
      (tenant sub mac : Text)
      → o.cast_macaddr d.mac_address ≡ some mac
      → Added o d
          (some tenant)
          (device_row o t.rows mac tenant sub d)
          (t.rows ++ device_row o t.rows mac tenant sub d ∷ [])
  new-Added tenant sub mac l = record {
    is_cast = l;
    is_enabled = refl;
    is_dated = refl;
    is_own = refl;
    is_there = Memᴰ-last (device_row o t.rows mac tenant sub d) t.rows;
  }

  create_mab_device-Added :
      (row : MabDevice)
      → (create_mab_device o actor d ip t).0 ≡ ok row
      → Added o d actor.tenant_id row (create_mab_device o actor d ip t).1.rows
  unfolding create_mab_device insert_mab_device log_audit
  create_mab_device-Added row h = elim (Option-cases actor.tenant_id) [
    | inl e ↦ let no = rw e at h in cc
    | inr (tenant, e) ↦ elim (Option-cases actor.sub) [
      | inl k ↦ let no = rw (e, k) at h in cc
      | inr (sub, k) ↦ elim (Option-cases (o.cast_macaddr d.mac_address)) [
        | inl l ↦ let no = rw (e, k, l) at h in cc
        | inr (mac, l) ↦ elim (Bool-cases (accepts_device o tenant sub d)) [
          | inr m ↦ let no = rw (e, k, l, m) at h in cc
          | inl m ↦
              let new = device_row o t.rows mac tenant sub d in
              elim (Bool-cases (any (λ s. same_device s new) t.rows)) [
                | inl n ↦ let no = rw (e, k, l, m, n) at h in cc
                | inr n ↦
                    elim (Bool-cases (
                      o.is_uuid sub
                      && (o.is_uuid tenant && (o.is_uuid new.id && castable o.is_inet ip)))) [
                        | inr c ↦ let no = rw (e, k, l, m, n, c) at h in cc
                        | inl c ↦
                            let said = rw (e, k, l, m, n, c) at h in
                            let same : new ≡ row = cc in
                            subst
                              (λ r.
                                Added o d actor.tenant_id r
                                  (create_mab_device o actor d ip t).1.rows)
                              same (rw (e, k, l, m, n, c) (new-Added tenant sub mac l))
                      ]
              ]
        ]
      ]
    ]
  ]

-- A device that `create_mab_device` has added, enabled and not past its date, FreeRADIUS lets in: a
-- request of MAB whose station the gateway's model writes as the address of the device, with one
-- kind of separator, is accepted by a module that reads the table, of the same tenant or of none,
-- with the database's cast of addresses, unless the realm of the user's name raises.
pub create_mab_device-authorize :
    (o : Outside) (r : Tables.Outside) (actor : Actor) (d : NewDevice) (ip : Option Text)
    (t : Table MabDevice) (row : MabDevice) (db : Tables.Db) (p : List (String × Text)) (sep c : ℕ)
    (station : Text) {realm : Option Text}
    → (create_mab_device o actor d ip t).0 ≡ ok row
    → d.enabled ≡ true
    → InDate r.now d.expiry_date
    → r.connected ≡ true
    → r.cast_macaddr ≡ o.cast_macaddr
    → OfTenant r.tenant actor.tenant_id
    → IsSeparator sep
    → IsWritten sep (c ∷ station)
    → validate_mac (c ∷ station) ≡ ok d.mac_address
    → detect_realm (get_or_empty "User-Name" (extract_attrs p)) ≡ ok realm
    → detect_auth_method (extract_attrs p) ≡ ok mab
    → get_or_empty "Calling-Station-Id" (extract_attrs p) ≡ one (c ∷ station)
    → (reply : HookReply) × (authorize r (with_devices db (create_mab_device o actor d ip t).1) p
        ≡ ok reply)
      × LetsIn reply
create_mab_device-authorize o r actor d ip t row db p sep c station made on date up cast tenant s w
      v realm method at_station =
    let added = create_mab_device-Added o actor d ip t row made in
    let u = (create_mab_device o actor d ip t).1 in
    let same = normalize_mac-validate_mac sep (c ∷ station) d.mac_address s w v in
    authorize-Listed r (with_devices db u) p c station (seen row) realm method at_station (
      up,
      rw (cast, same) added.is_cast,
      Memᴰ-map seen u.rows added.is_there,
      rw (added.is_enabled, on) refl,
      subst (InDate r.now) (sym added.is_dated) date,
      subst (OfTenant r.tenant) (sym added.is_own) tenant,
    )
