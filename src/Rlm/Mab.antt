-- ===== src/Rlm/Mab.antt =====
-- rlm_orw.py: `_lookup_mab_device` and the hook `authorize`.
use openradiusweb.Prelude.{
  ℕ, String, Bool, true, ◌&&◌, Option, none, some, List, [], ◌∷◌, keep_if, first, if◌then◌else◌,
  ltb, ◌==◌,
}
use openradiusweb.Prelude.Text.{Text, codes, text_eq, truthy, split_first, split_last, show}
use openradiusweb.Prelude.Result.{Result, ok, ◌>>=◌}
use openradiusweb.Mac.{normalize_mac}
use openradiusweb.Rlm.Attrs.{
  AttrValue, Attrs, get_or_empty, is_true, as_text, has_code, extract_attrs,
}
use openradiusweb.Rlm.Method.{detect_auth_method, mab}
use openradiusweb.Rlm.Failure.{Reply}
use openradiusweb.Rlm.Tables.{MabDevice, Db, Outside, of_tenant}

abbrev pub not_expired : ℕ → Option ℕ → Bool
not_expired now none = true
not_expired now (some t) = ltb now t

-- The condition of the query.
abbrev pub is_listed : Outside → Text → MabDevice → Bool
is_listed o mac d =
    text_eq d.mac_address mac
    && (d.enabled && (not_expired o.now d.expiry_date && of_tenant o.tenant d.tenant_id))

abbrev pub listed : Outside → Option Text → List MabDevice → Option MabDevice
listed o none rows = none
listed o (some mac) rows = first (keep_if (is_listed o mac) rows)

-- `_lookup_mab_device`: a text that is no address makes the query raise, which gives None.
unfoldable pub lookup_mab_device : Outside → Db → Text → Option MabDevice
lookup_mab_device o db mac_clean =
    if o.connected then listed o (o.cast_macaddr mac_clean) db.mab_devices else none

-- What a hook returns: the code, the attributes of the reply and those of the control list; the
-- bare `RLM_MODULE_OK` is that with no attributes.
pub data ModuleCode : Type 0 where
  module_ok module_updated : ModuleCode

pub record HookReply : Type 0 where
  pub code : ModuleCode
  pub reply_attrs : Reply
  pub control_attrs : Reply

-- The part of a text after its last `c`, and the part before its first.
abbrev pub after_last : ℕ → Text → Option Text
after_last c t = elim (split_last c t) [ none ↦ none | some (before, after) ↦ some after ]

abbrev pub before_first : ℕ → Text → Option Text
before_first c t = elim (split_first c t) [ none ↦ none | some (before, after) ↦ some before ]

-- The realm in `authorize`.
unfoldable pub detect_realm : AttrValue → Result (Option Text)
detect_realm username =
    if has_code b'@' username
    then (do t ← as_text username; ok (after_last b'@' t))
    else if has_code b'\\' username
    then (do t ← as_text username; ok (before_first b'\\' t))
    else ok none

abbrev pub tunnel_attrs : ℕ → Reply
tunnel_attrs n =
    (codes "Tunnel-Type", codes "VLAN")
    ∷ (codes "Tunnel-Medium-Type", codes "IEEE-802")
    ∷ (codes "Tunnel-Private-Group-Id", show n)
    ∷ []

-- The attributes of a VLAN, under `if vlan_id`.
abbrev pub vlan_attrs : Option ℕ → Reply
vlan_attrs none = []
vlan_attrs (some n) = if n == 0 then [] else tunnel_attrs n

abbrev pub realm_attrs : Option Text → Reply
realm_attrs none = []
realm_attrs (some realm) = if truthy realm then (codes "OpenRadiusWeb-Realm", realm) ∷ [] else []

-- The answer after the lookup.
abbrev pub answer : Option Text → Option MabDevice → HookReply
answer realm none = record { code = module_ok; reply_attrs = []; control_attrs = realm_attrs realm }
answer realm (some d) = record {
  code = module_ok;
  reply_attrs = vlan_attrs d.assigned_vlan_id;
  control_attrs = (codes "Auth-Type", codes "Accept") ∷ realm_attrs realm;
}

abbrev pub find_station : Outside → Db → AttrValue → Result (Option MabDevice)
find_station o db station = do t ← as_text station; ok (lookup_mab_device o db (normalize_mac t))

-- The device that a request of MAB names.
abbrev pub mab_station : Outside → Db → Text → AttrValue → Result (Option MabDevice)
mab_station o db auth_method station =
    if text_eq auth_method mab && is_true station then find_station o db station else ok none

-- `authorize`, on the dict of the request.
unfoldable pub authorize_request : Outside → Db → Attrs → Result HookReply
authorize_request o db request = do
  realm ← detect_realm (get_or_empty "User-Name" request)
  auth_method ← detect_auth_method request
  device ← mab_station o db auth_method (get_or_empty "Calling-Station-Id" request)
  ok (answer realm device)

-- `authorize`.
unfoldable pub authorize : Outside → Db → List (String × Text) → Result HookReply
authorize o db p = authorize_request o db (extract_attrs p)
