-- ===== src/Rlm/Tests.antt =====
-- The theorems on the FreeRADIUS module at concrete requests and tables.
use mathlib.Core.List.{Memᴰ}
use openradiusweb.Prelude.{ℕ, String, ◌≡◌, refl, ap, true, false, none, some, List, [], ◌∷◌, arith}
use openradiusweb.Prelude.Text.{
  Text, codes, text_eq, lower, remove_code, parse_digits, split_last, split_first, upper,
  replace_text, split, starts_with, strip,
}
use openradiusweb.Prelude.Result.{ok}
use openradiusweb.Mac.{normalize_mac, colon_pairs, strip_separators}
use openradiusweb.Rlm.Attrs.{one, get, get_or_empty, extract_attrs}
use openradiusweb.Rlm.Method.{detect_auth_method, mab}
use openradiusweb.Rlm.Failure.{only_reason}
use openradiusweb.Rlm.Tables.{MabDevice, GroupMapping, Db, Outside}
use openradiusweb.Rlm.Mab.{
  module_ok, module_updated, HookReply, lookup_mab_device, detect_realm, tunnel_attrs, vlan_attrs,
  authorize, authorize_request,
}
use openradiusweb.Rlm.Groups.{
  group_names, fill_filter, lookup_vlan_for_groups, mapping_for_groups, first_cn,
}
use openradiusweb.Rlm.PostAuth.{is_success, post_auth, user_domain, post_auth_request, choose_vlan}
use openradiusweb.Rlm.Access.{Listed, LetsIn, authorize-Accept, authorize-Listed}
use openradiusweb.Rlm.Priority.{Least, lookup_vlan_for_groups-Least}
use openradiusweb.Rlm.Assigned.{FromTables, post_auth-FromTables}
use openradiusweb.Rlm.Vlan.{Logged, post_auth-Logged, post_auth-rejected}

abbrev outside : Outside
outside = record {
  connected = true;
  tenant = none;
  now = 5;
  processing_time = 0;
  cast_macaddr = λ t. some t;
  accepts_row = λ row. true;
  has_ldap3 = false;
  decrypt = λ t. ok (some t);
  search = λ q. none;
}

abbrev printer : MabDevice
printer = record {
  mac_address = codes "aa:bb:cc:dd:ee:ff";
  name = some (codes "printer");
  assigned_vlan_id = some 42;
  enabled = true;
  expiry_date = some 9;
  tenant_id = none;
}

abbrev mapping : ℕ → ℕ → GroupMapping
mapping vlan priority = record {
  group_name = codes "staff";
  vlan_id = vlan;
  priority = priority;
  enabled = true;
  tenant_id = none;
}

abbrev db : Db
db = record {
  mab_devices = printer ∷ [];
  ldap_servers = [];
  group_vlan_mappings = mapping 7 20 ∷ mapping 8 10 ∷ [];
  radius_auth_log = [];
}

-- A printer that asks to be let in by its address.
abbrev mab_request : List (String × Text)
mab_request =
    ("User-Name", codes "aabbccddeeff") ∷ ("Calling-Station-Id", codes "AA-BB-CC-DD-EE-FF") ∷ []

abbrev printer_reply : HookReply
printer_reply = record {
  code = module_ok;
  reply_attrs = tunnel_attrs 42;
  control_attrs = (codes "Auth-Type", codes "Accept") ∷ [];
}

printer_let_in : authorize outside db mab_request ≡ ok printer_reply
unfolding authorize authorize_request detect_realm get extract_attrs detect_auth_method lower
    strip_separators remove_code lookup_mab_device normalize_mac colon_pairs
printer_let_in = refl

authorize-Accept_example :
    (station : Text) × (d : MabDevice) × (detect_auth_method (extract_attrs mab_request) ≡ ok mab)
    × (get_or_empty "Calling-Station-Id" (extract_attrs mab_request) ≡ one station)
    × Listed outside db station d
    × (printer_reply.reply_attrs ≡ vlan_attrs d.assigned_vlan_id)
authorize-Accept_example = authorize-Accept outside db mab_request printer_let_in refl

printer_realm : detect_realm (get_or_empty "User-Name" (extract_attrs mab_request)) ≡ ok none
unfolding detect_realm get extract_attrs
printer_realm = refl

printer_method : detect_auth_method (extract_attrs mab_request) ≡ ok mab
unfolding detect_auth_method get extract_attrs lower strip_separators remove_code
printer_method = refl

printer_station :
    get_or_empty "Calling-Station-Id" (extract_attrs mab_request) ≡ one (codes "AA-BB-CC-DD-EE-FF")
unfolding extract_attrs get
printer_station = refl

printer-Listed : Listed outside db (codes "AA-BB-CC-DD-EE-FF") printer
unfolding normalize_mac lower strip_separators remove_code colon_pairs
printer-Listed = (refl, refl, Memᴰ.head refl, refl, omega arith, tt)

authorize-Listed_example :
    (reply : HookReply) × (authorize outside db mab_request ≡ ok reply) × LetsIn reply
authorize-Listed_example =
    authorize-Listed outside db mab_request b'A' (codes "A-BB-CC-DD-EE-FF") printer printer_realm
      printer_method printer_station printer-Listed

-- A user who logs in at the station of the printer.
abbrev user_request : List (String × Text)
user_request =
    ("User-Name", codes "bob@corp")
    ∷ ("Calling-Station-Id", codes "AA-BB-CC-DD-EE-FF")
    ∷ ("EAP-Type", codes "25")
    ∷ ("OpenRadiusWeb-Result", codes "success")
    ∷ []

user_marked : is_success (extract_attrs user_request) ≡ ok true
unfolding is_success get extract_attrs lower
user_marked = refl

user_method : detect_auth_method (extract_attrs user_request) ≡ ok (codes "PEAP")
unfolding detect_auth_method get extract_attrs parse_digits
user_method = refl

user_named : get_or_empty "User-Name" (extract_attrs user_request) ≡ one (codes "bob@corp")
unfolding extract_attrs get
user_named = refl

user_station :
    get_or_empty "Calling-Station-Id" (extract_attrs user_request) ≡ one (codes "AA-BB-CC-DD-EE-FF")
unfolding extract_attrs get
user_station = refl

printer_found :
    lookup_mab_device outside db (normalize_mac (codes "AA-BB-CC-DD-EE-FF")) ≡ some printer
unfolding lookup_mab_device normalize_mac lower strip_separators remove_code colon_pairs
printer_found = refl

-- The same, before the log: the answer and the row that is written.
abbrev user_answer : HookReply
user_answer = record { code = module_updated; reply_attrs = tunnel_attrs 42; control_attrs = [] }

user_logged :
    post_auth outside user_request db ≡ (ok user_answer, (post_auth outside user_request db).1)
unfolding post_auth post_auth_request is_success get extract_attrs lower choose_vlan
    detect_auth_method parse_digits lookup_mab_device normalize_mac strip_separators remove_code
    colon_pairs
user_logged = refl

post_auth-Logged_example :
    Logged db
      (post_auth outside user_request db).1
      (λ row. user_answer.reply_attrs ≡ vlan_attrs row.assigned_vlan)
post_auth-Logged_example = post_auth-Logged outside db user_request user_logged

post_auth-FromTables_example :
    (is_success (extract_attrs user_request) ≡ ok true)
    × ((method : Text) × (detect_auth_method (extract_attrs user_request) ≡ ok method)
        × (text_eq method mab ≡ false))
    × ((n : ℕ) × (tunnel_attrs 42 ≡ tunnel_attrs n)
        × FromTables outside db (extract_attrs user_request) n)
post_auth-FromTables_example =
    post_auth-FromTables outside db user_request (ap (λ r. r.0) user_logged) refl

-- A user whom FreeRADIUS has rejected, with the reason that it gave.
abbrev rejected_request : List (String × Text)
rejected_request =
    ("User-Name", codes "bob@corp")
    ∷ ("Module-Failure-Message", codes "mschap: E=691")
    ∷ ("OpenRadiusWeb-Result", codes "reject")
    ∷ []

abbrev plain_answer : HookReply
plain_answer = record { code = module_ok; reply_attrs = []; control_attrs = [] }

rejected_marked : is_success (extract_attrs rejected_request) ≡ ok false
unfolding is_success get extract_attrs lower
rejected_marked = refl

rejected_logged :
    post_auth outside rejected_request db
    ≡ (ok plain_answer, (post_auth outside rejected_request db).1)
unfolding post_auth post_auth_request is_success get extract_attrs lower
rejected_logged = refl

post_auth-rejected_example :
    Logged db
      (post_auth outside rejected_request db).1
      (λ row. row.failure ≡ only_reason (codes "Authentication rejected"))
post_auth-rejected_example =
    post_auth-rejected outside db rejected_request rejected_marked rejected_logged

-- With both separators the realms differ.
two_realms :
    (detect_realm (one (codes "corp\\bob@lab")) ≡ ok (some (codes "lab")))
    × (user_domain (one (codes "corp\\bob@lab")) ≡ ok (some (codes "corp")))
unfolding detect_realm user_domain split_last split_first
two_realms = (refl, refl)

-- The groups of a user, and the filter with the user's name in it.
group_texts :
    (group_names (codes "OU=x, cn=Staff,DC=lab" ∷ codes "OU=none" ∷ []) ≡ codes "Staff" ∷ [])
    × (fill_filter (codes "(uid={username})") (codes "bob") ≡ codes "(uid=bob)")
unfolding group_names fill_filter first_cn split starts_with upper strip replace_text
group_texts = (refl, refl)

staff_vlan : lookup_vlan_for_groups outside db (codes "staff" ∷ []) ≡ some 8
unfolding lookup_vlan_for_groups mapping_for_groups
staff_vlan = refl

lookup_vlan_for_groups-Least_example :
    (m : GroupMapping) × (m.vlan_id ≡ 8) × Least outside db (codes "staff" ∷ []) m
lookup_vlan_for_groups-Least_example =
    lookup_vlan_for_groups-Least outside db (codes "staff" ∷ []) staff_vlan
