-- ===== src/Gateway/Mab/Tests.antt =====
-- The theorems on the whitelist at concrete devices, and one from the gateway to FreeRADIUS.
use openradiusweb.Prelude.{◌≡◌, refl, inl, inr, String, true, false, none, some, List, [], ◌∷◌}
use openradiusweb.Prelude.Text.{Text, codes, lower, remove_code}
use openradiusweb.Prelude.Result.{ok}
use openradiusweb.Mac.{validate_mac, colon_pairs, strip_separators}
use openradiusweb.Mac.Agreement.{IsWritten}
use openradiusweb.Rlm.Attrs.{one, get, get_or_empty, extract_attrs}
use openradiusweb.Rlm.Method.{detect_auth_method, mab}
use openradiusweb.Rlm.Tables
use openradiusweb.Rlm.Mab.{HookReply, detect_realm, authorize}
use openradiusweb.Rlm.Access.{LetsIn}
use openradiusweb.Gateway.Audit.{Actor}
use openradiusweb.Gateway.Rows.{Outside, Table, log_audit, text}
use openradiusweb.Gateway.Rows.Tenants.{others}
use openradiusweb.Gateway.Mab.{
  MabDevice, NewDevice, device_row, insert_mab_device, bulk_insert_mab_device,
}
use openradiusweb.Gateway.Mab.Service.{
  Imported, create_mab_device, import_one, import_all, bulk_import,
}
use openradiusweb.Gateway.Mab.Import.{Repeatable, bulk_import-Repeatable}
use openradiusweb.Gateway.Mab.Isolation.{change, handle, handle-others}
use openradiusweb.Gateway.Mab.Radius.{with_devices, create_mab_device-authorize}

abbrev outside : Outside
outside = record {
  now = 5;
  is_uuid = λ _. true;
  is_inet = λ _. true;
  cast_macaddr = λ t. some (lower t);
  cast_cidr = λ t. some t;
  collate = λ s t. false;
  new_id = λ ids. codes "new";
  refers = λ _ _. true;
  show_time = λ _. [];
}

abbrev admin : Actor
admin = record { sub = some (codes "u"); tenant_id = some (codes "t") }

abbrev printer : NewDevice
printer = record {
  mac_address = codes "aa:bb:cc:dd:ee:ff";
  name = some (codes "printer");
  description = none;
  device_type = none;
  assigned_vlan_id = some 42;
  enabled = true;
  expiry_date = none;
}

-- A device of another tenant.
abbrev foreign : MabDevice
foreign = record {
  id = codes "f";
  mac_address = codes "00:00:00:00:00:01";
  name = none;
  description = none;
  device_type = none;
  assigned_vlan_id = none;
  enabled = some true;
  expiry_date = none;
  tenant_id = some (codes "s");
  created_by = none;
}

abbrev table : Table MabDevice
table = record { rows = foreign ∷ []; audit_log = [] }

-- The printer twice, of which the second is skipped.
abbrev twice : Imported
twice = record { created = 1; skipped = 1; total = 2 }

printers_imported : (bulk_import outside admin (printer ∷ printer ∷ []) none table).0 ≡ ok twice
unfolding bulk_import import_all import_one bulk_insert_mab_device log_audit lower
printers_imported = refl

bulk_import-Repeatable_example :
    Repeatable outside admin
      (printer ∷ printer ∷ [])
      none
      table
      twice
      (bulk_import outside admin (printer ∷ printer ∷ []) none table).1
bulk_import-Repeatable_example =
    bulk_import-Repeatable outside admin (printer ∷ printer ∷ []) none table twice printers_imported

-- The actor names the device of the other tenant, and a tenant for it.
handle-others_example :
    others
      (λ d. d.tenant_id)
      (codes "t")
      (handle outside admin none
        (change (codes "f") ((codes "tenant_id", text (codes "t")) ∷ []))
        table).1.rows
    ≡ others (λ d. d.tenant_id) (codes "t") table.rows
handle-others_example =
    handle-others outside (codes "t") admin none
      (change (codes "f") ((codes "tenant_id", text (codes "t")) ∷ [])) table refl

abbrev printer_row : MabDevice
printer_row =
    device_row outside table.rows (codes "aa:bb:cc:dd:ee:ff") (codes "t") (codes "u") printer

printer_made : (create_mab_device outside admin printer none table).0 ≡ ok printer_row
unfolding create_mab_device insert_mab_device log_audit lower
printer_made = refl

-- The FreeRADIUS module of the tenant, on the same database.
abbrev radius : Tables.Outside
radius = record {
  connected = true;
  tenant = some (codes "t");
  now = 6;
  processing_time = 0;
  cast_macaddr = outside.cast_macaddr;
  accepts_row = λ row. true;
  has_ldap3 = false;
  decrypt = λ t. ok (some t);
  search = λ q. none;
}

abbrev radius_db : Tables.Db
radius_db = record {
  mab_devices = [];
  ldap_servers = [];
  group_vlan_mappings = [];
  radius_auth_log = [];
}

abbrev request : List (String × Text)
request =
    ("User-Name", codes "aabbccddeeff") ∷ ("Calling-Station-Id", codes "AA-BB-CC-DD-EE-FF") ∷ []

no_realm : detect_realm (get_or_empty "User-Name" (extract_attrs request)) ≡ ok none
unfolding detect_realm get extract_attrs
no_realm = refl

is_mab : detect_auth_method (extract_attrs request) ≡ ok mab
unfolding detect_auth_method get extract_attrs lower strip_separators remove_code
is_mab = refl

at_printer :
    get_or_empty "Calling-Station-Id" (extract_attrs request) ≡ one (codes "AA-BB-CC-DD-EE-FF")
unfolding extract_attrs get
at_printer = refl

written : IsWritten b'-' (codes "AA-BB-CC-DD-EE-FF")
written = (
  inl refl,
  (
    inl refl,
    (
      inr refl,
      (
        inl refl,
        (
          inl refl,
          (
            inr refl,
            (
              inl refl,
              (
                inl refl,
                (
                  inr refl,
                  (
                    inl refl,
                    (
                      inl refl,
                      (inr refl, (inl refl, (inl refl, (inr refl, (inl refl, (inl refl, tt)))))),
                    ),
                  ),
                ),
              ),
            ),
          ),
        ),
      ),
    ),
  ),
)

validated : validate_mac (codes "AA-BB-CC-DD-EE-FF") ≡ ok (codes "aa:bb:cc:dd:ee:ff")
unfolding validate_mac lower colon_pairs
validated = refl

create_mab_device-authorize_example :
    (reply : HookReply) × (authorize radius
        (with_devices radius_db (create_mab_device outside admin printer none table).1)
        request
      ≡ ok reply)
    × LetsIn reply
create_mab_device-authorize_example =
    create_mab_device-authorize outside radius admin printer none table printer_row radius_db
      request b'-' b'A' (codes "A-BB-CC-DD-EE-FF") printer_made refl tt refl refl refl
      (inr (inl refl)) written validated no_realm is_mab at_printer
