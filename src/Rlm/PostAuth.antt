-- ===== src/Rlm/PostAuth.antt =====
-- rlm_orw.py: `_extract_cert_info`, `_log_auth_to_db` and the hooks `post_auth` and `accounting`.
use openradiusweb.Prelude.{
  ℕ, String, Bool, ◌&&◌, not, Option, none, some, List, [], ◌∷◌, ◌++◌, if◌then◌else◌, ◌==◌,
}
use openradiusweb.Prelude.Text.{Text, codes, text_eq, truthy, lower, parse_digits, show}
use openradiusweb.Prelude.Result.{Result, ok, err, ◌>>=◌}
use openradiusweb.Mac.{normalize_mac}
use openradiusweb.Rlm.Attrs.{
  AttrValue, Attrs, get, get_or_empty, is_true, as_text, has_code, extract_attrs,
}
use openradiusweb.Rlm.Method.{detect_auth_method, mab}
use openradiusweb.Rlm.Failure.{Reply, reply_get, detect_failure_reason}
use openradiusweb.Rlm.Tables.{MabDevice, AuthLog, Db, Outside}
use openradiusweb.Rlm.Mab.{
  lookup_mab_device, module_ok, module_updated, HookReply, after_last, before_first, tunnel_attrs,
}
use openradiusweb.Rlm.Groups.{get_user_ldap_groups, lookup_vlan_for_groups}

abbrev add_info : String → Option AttrValue → Attrs → Attrs
add_info name none info = info
add_info name (some v) info = if is_true v then (name, v) ∷ info else info

-- `_extract_cert_info`.
unfoldable pub extract_cert_info : Attrs → Attrs
extract_cert_info request = add_info "client_cert_cn" (get "TLS-Client-Cert-Common-Name" request) (
    add_info "client_cert_issuer" (get "TLS-Client-Cert-Issuer" request) (
      add_info "client_cert_serial" (get "TLS-Client-Cert-Serial" request) (
        add_info "client_cert_expiry" (get "TLS-Client-Cert-Not-After" request)
          (add_info "server_cert_cn" (get "TLS-Cert-Common-Name" request) []))))

-- The domain of a name, in `_log_auth_to_db` and in `post_auth`: a backslash comes first here.
unfoldable pub user_domain : AttrValue → Result (Option Text)
user_domain username =
    if has_code b'\\' username
    then (do t ← as_text username; ok (before_first b'\\' t))
    else if has_code b'@' username
    then (do t ← as_text username; ok (after_last b'@' t))
    else ok none

-- `int(tunnel_pvid)`, where the attribute is there; a text that is no number is passed over.
abbrev pub logged_vlan : Option Text → Option ℕ
logged_vlan none = none
logged_vlan (some t) = parse_digits t

abbrev auth_result : Bool → Text
auth_result success = if success then codes "success" else codes "reject"

-- `os.environ.get("ORW_TENANT_ID") or None`.
abbrev or_none : Option Text → Option Text
or_none none = none
or_none (some t) = if truthy t then some t else none

-- The parameters of the INSERT.
unfoldable pub auth_row : Outside → Attrs → Reply → Bool → Text → Option Text → AuthLog
auth_row o request reply success auth_method domain = record {
  request_type = if success then codes "Access-Accept" else codes "Access-Reject";
  auth_result = auth_result success;
  auth_method = auth_method;
  failure = detect_failure_reason reply success;
  radius_reply_message = reply_get (codes "Reply-Message") reply;
  session_id = get "Acct-Session-Id" request;
  eap_type = get "EAP-Type" request;
  calling_station_id = get "Calling-Station-Id" request;
  username = get "User-Name" request;
  user_domain = domain;
  nas_ip = get "NAS-IP-Address" request;
  nas_port = get "NAS-Port" request;
  nas_port_type = get "NAS-Port-Type" request;
  nas_port_id = get "NAS-Port-Id" request;
  nas_identifier = get "NAS-Identifier" request;
  assigned_vlan = logged_vlan (reply_get (codes "Tunnel-Private-Group-Id") reply);
  filter_id = reply_get (codes "Filter-Id") reply;
  cert_info = extract_cert_info request;
  service_type = get "Service-Type" request;
  framed_ip = reply_get (codes "Framed-IP-Address") reply;
  source_ip = get "Packet-Src-IP-Address" request;
  processing_time_ms = o.processing_time;
  policy_matched = reply_get (codes "OpenRadiusWeb-Policy-Name") reply;
  request_attributes = request;
  response_attributes = reply;
  realm_name = domain;
  tenant_id = or_none o.tenant;
}

-- What stands in the `try` block before the INSERT.
unfoldable pub log_row : Outside → Attrs → Reply → Bool → Result AuthLog
unfolding auth_row
log_row o request reply success = do
  auth_method ← detect_auth_method request
  domain ← user_domain (get_or_empty "User-Name" request)
  ok (auth_row o request reply success auth_method domain)

abbrev insert_row : Outside → AuthLog → Db → Db
insert_row o row db =
    if o.accepts_row row
    then (record db { radius_auth_log = db.radius_auth_log ++ row ∷ [] })
    else db

abbrev pub insert : Outside → Result AuthLog → Db → Db
insert o (err e) db = db
insert o (ok row) db = insert_row o row db

-- `_log_auth_to_db`: whatever raises in it leaves the table as it was.
unfoldable pub log_auth_to_db : Outside → Attrs → Reply → Bool → Db → Db
log_auth_to_db o request reply success db =
    if o.connected then insert o (log_row o request reply success) db else db

-- A number of a VLAN, if it counts as true.
abbrev pub assigned : Option ℕ → Option ℕ
assigned none = none
assigned (some n) = if n == 0 then none else some n

-- The VLAN of a device, under `mab_device and mab_device.get("assigned_vlan_id")`.
abbrev pub override : Option MabDevice → Option ℕ
override none = none
override (some d) = assigned d.assigned_vlan_id

-- Priority 1: the override for the station.
abbrev pub station_vlan : Outside → Db → AttrValue → Result (Option ℕ)
station_vlan o db station =
    if is_true station
    then (do t ← as_text station; ok (override (lookup_mab_device o db (normalize_mac t))))
    else ok none

-- Priority 2: the mapping of a group; what is asked of the domain may raise.
abbrev pub group_vlan : Outside → Db → AttrValue → Result (Option ℕ)
group_vlan o db username = do
  domain ← user_domain username
  ok (lookup_vlan_for_groups o db (get_user_ldap_groups o db username))

abbrev pub or_group : Option ℕ → Result (Option ℕ) → Result (Option ℕ)
or_group none later = later
or_group (some n) later = ok (some n)

-- The VLAN that `post_auth` assigns.
unfoldable pub choose_vlan : Outside → Db → Attrs → Result (Option ℕ)
choose_vlan o db request = do
  auth_method ← detect_auth_method request
  (let username = get_or_empty "User-Name" request in
      if not (text_eq auth_method mab) && is_true username
      then (do
        own ← station_vlan o db (get_or_empty "Calling-Station-Id" request)
        or_group own (group_vlan o db username))
      else ok none)

-- `reply`, as the code fills it.
abbrev pub reply_of : Option ℕ → Reply
reply_of none = []
reply_of (some n) = (codes "Tunnel-Private-Group-Id", show n) ∷ []

abbrev pub hook_reply : Option ℕ → HookReply
hook_reply none = record { code = module_ok; reply_attrs = []; control_attrs = [] }
hook_reply (some n) = record {
  code = module_updated;
  reply_attrs = tunnel_attrs n;
  control_attrs = [];
}

-- What follows the choice: the log and the answer. An exception before it leaves no row.
abbrev pub log_and_answer : Outside → Attrs → Bool → Db → Result (Option ℕ) → Result HookReply × Db
log_and_answer o request success db (err e) = (err e, db)
log_and_answer o request success db (ok vlan) = (
  ok (hook_reply (assigned vlan)),
  log_auth_to_db o request (reply_of (assigned vlan)) success db,
)

-- The marker, which the site templates set.
unfoldable pub is_success : Attrs → Result Bool
is_success request = do
  marker ← as_text (get_or_empty "OpenRadiusWeb-Result" request)
  ok (not (text_eq (lower marker) (codes "reject")))

abbrev pub after_marker : Outside → Db → Attrs → Result Bool → Result HookReply × Db
after_marker o db request (err e) = (err e, db)
after_marker o db request (ok success) =
    log_and_answer o request success db (if success then choose_vlan o db request else ok none)

-- `post_auth`, on the dict of the request.
unfoldable pub post_auth_request : Outside → Attrs → Db → Result HookReply × Db
post_auth_request o request db = after_marker o db request (is_success request)

-- `post_auth`.
unfoldable pub post_auth : Outside → List (String × Text) → Db → Result HookReply × Db
post_auth o p db = post_auth_request o (extract_attrs p) db

-- `accounting` writes nothing.
unfoldable pub accounting : List (String × Text) → HookReply
accounting p = record { code = module_ok; reply_attrs = []; control_attrs = [] }
