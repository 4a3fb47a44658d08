-- ===== src/Gateway/Mappings/Tests.antt =====
-- The theorems on group mappings at a table of one mapping.
use mathlib.Core.List.{Memᴰ}
use openradiusweb.Prelude.{
  ◌≡◌, refl, ◌∙◌, sym, ap, arith, true, false, Option, none, some, [], ◌∷◌, map, All,
}
use openradiusweb.Prelude.Text.{codes, join, strip}
use openradiusweb.Prelude.Result.{ok, err, conflict_error, db_error}
use openradiusweb.Rlm.Tables
use openradiusweb.Rlm.Groups
use openradiusweb.Gateway.Audit.{Actor, entry_casts}
use openradiusweb.Gateway.Rows.{Outside, Table, get_db}
use openradiusweb.Gateway.Mappings.{Mapping, NewMapping}
use openradiusweb.Gateway.Mappings.Service.{lookup_vlan_for_groups, create_mapping}
use openradiusweb.Gateway.Mappings.Agreement.{
  IsGroup, SameRows, IsSettled, seen, vlan_of, lookup_vlan_for_groups-Agrees,
}
use openradiusweb.Gateway.Mappings.Creation.{Taken, Holds, Adds, create_mapping_branches}

abbrev outside : Outside
outside = record {
  now = 5;
  is_uuid = λ _. true;
  is_inet = λ _. true;
  cast_macaddr = λ t. some t;
  cast_cidr = λ t. some t;
  collate = λ s t. false;
  new_id = λ ids. codes "new";
  refers = λ _ _. true;
  show_time = λ _. [];
}

abbrev admin : Actor
admin = record { sub = some (codes "u"); tenant_id = some (codes "t") }

abbrev staff : Mapping
staff = record {
  id = codes "m";
  group_name = codes "staff";
  vlan_id = 30;
  priority = 10;
  description = none;
  ldap_server_id = none;
  enabled = true;
  tenant_id = codes "t";
}

abbrev guests : Mapping
guests = record staff { id = codes "n"; group_name = codes "guests"; vlan_id = 40; priority = 20 }

abbrev table : Table Mapping
table = record { rows = staff ∷ guests ∷ []; audit_log = [] }

abbrev radius : Tables.Outside
radius = record {
  connected = true;
  tenant = some (codes "t");
  now = 6;
  processing_time = 0;
  cast_macaddr = outside.cast_macaddr;
  accepts_row = λ row. true;
  has_ldap3 = false;
  decrypt = λ t. ok (some t);
  search = λ q. none;
}

abbrev radius_db : Tables.Db
radius_db = record {
  mab_devices = [];
  ldap_servers = [];
  group_vlan_mappings = seen guests ∷ seen staff ∷ [];
  radius_auth_log = [];
}

are_groups : All IsGroup (codes "guests" ∷ codes "staff" ∷ [])
unfolding strip
are_groups = (
  (refl, refl, (refl, (refl, (refl, (refl, (refl, (refl, tt))))))),
  ((refl, refl, (refl, (refl, (refl, (refl, (refl, tt)))))), tt),
)

swapped : {A : Type 0} {a x y : A} → Memᴰ a (x ∷ y ∷ []) → Memᴰ a (y ∷ x ∷ [])
swapped (Memᴰ.head e) = Memᴰ.tail (Memᴰ.head e)
swapped (Memᴰ.tail (Memᴰ.head e)) = Memᴰ.head e
swapped (Memᴰ.tail (Memᴰ.tail m)) = elim m [ ]

-- The module gets the rows in the other order.
same_rows : SameRows radius_db.group_vlan_mappings table.rows
same_rows m = (swapped, swapped)

settled : IsSettled outside (codes "t") (codes "guests" ∷ codes "staff" ∷ []) table.rows
settled a b (Memᴰ.head e) (Memᴰ.head f) _ _ p = ap (λ m. m.vlan_id) (e ∙ sym f)
settled a b (Memᴰ.tail (Memᴰ.head e)) (Memᴰ.tail (Memᴰ.head f)) _ _ p =
    ap (λ m. m.vlan_id) (e ∙ sym f)
settled a b (Memᴰ.head e) (Memᴰ.tail (Memᴰ.head f)) _ _ p =
    let wrong : 10 ≡ 20 = sym (ap (λ m. m.priority) e) ∙ p ∙ ap (λ m. m.priority) f in
    absurd (omega (arith, wrong))
settled a b (Memᴰ.tail (Memᴰ.head e)) (Memᴰ.head f) _ _ p =
    let wrong : 20 ≡ 10 = sym (ap (λ m. m.priority) e) ∙ p ∙ ap (λ m. m.priority) f in
    absurd (omega (arith, wrong))
settled a b (Memᴰ.tail (Memᴰ.tail m)) n _ _ p = elim m [ ]
settled a b m (Memᴰ.tail (Memᴰ.tail n)) _ _ p = elim n [ ]

lookup_vlan_for_groups-Agrees_example :
    (row : Option Mapping) × ((lookup_vlan_for_groups outside
        (codes "t")
        (join (b',' ∷ []) (codes "guests" ∷ codes "staff" ∷ []))
        table).0
      ≡ ok row)
    × (Groups.lookup_vlan_for_groups radius radius_db (codes "guests" ∷ codes "staff" ∷ [])
        ≡ vlan_of row)
lookup_vlan_for_groups-Agrees_example =
    lookup_vlan_for_groups-Agrees outside radius radius_db table b't' [] (codes "guests")
      (codes "staff" ∷ []) are_groups refl refl refl same_rows settled

-- Another mapping of the same group.
abbrev again : NewMapping
again = record {
  group_name = codes "staff";
  vlan_id = 31;
  priority = 20;
  description = none;
  ldap_server_id = none;
  enabled = true;
}

create_mapping_branches_example :
    (Taken (codes "t") (codes "staff") table.rows
      → get_db (create_mapping outside admin again none) table ≡ (err conflict_error, table))
    × (¬ Taken (codes "t") (codes "staff") table.rows
        → entry_casts outside.is_uuid outside.is_inet admin
            (some (outside.new_id (map (λ r. r.id) table.rows)))
            none
          ≡ false
        → get_db (create_mapping outside admin again none) table ≡ (err db_error, table))
    × (¬ Taken (codes "t") (codes "staff") table.rows
        → entry_casts outside.is_uuid outside.is_inet admin
            (some (outside.new_id (map (λ r. r.id) table.rows)))
            none
          ≡ true
        → (row : Mapping) × ((get_db (create_mapping outside admin again none) table).0 ≡ ok row)
          × Holds (codes "t") again row
          × Adds admin table row (get_db (create_mapping outside admin again none) table).1)
create_mapping_branches_example =
    create_mapping_branches outside admin again none table (codes "t") refl refl
