-- ===== src/Gateway/Vlans/Tests.antt =====
-- A VLAN that is created in a table of one VLAN.
use openradiusweb.Prelude.{
  ◌≡◌, refl, ap, ◌<◌, ◌≤◌, ◌++◌, true, false, none, some, List, [], ◌∷◌, any, length, length-append,
  arith, Bool-cases, inl, inr,
}
use openradiusweb.Prelude.Text.{Text, codes, text_eq, eq_of_text_eq}
use openradiusweb.Prelude.Result.{ok}
use openradiusweb.Gateway.Audit.{Actor}
use openradiusweb.Gateway.Rows.{Outside, Table, log_audit}
use openradiusweb.Gateway.Vlans.{Vlan, NewVlan, vlan_row, insert_vlan}
use openradiusweb.Gateway.Vlans.Service.{get_vlan, create_vlan}
use openradiusweb.Gateway.Vlans.Creation.{IsFresh, Holds, create_vlan-get_vlan}

-- An identifier that is longer than all others together.
abbrev all_ids : List Text → Text
all_ids [] = []
all_ids (s ∷ ids) = s ++ all_ids ids

abbrev outside : Outside
outside = record {
  now = 5;
  is_uuid = λ _. true;
  is_inet = λ _. true;
  cast_macaddr = λ t. some t;
  cast_cidr = λ t. some t;
  collate = λ s t. false;
  new_id = λ ids. b'x' ∷ all_ids ids;
  refers = λ _ _. true;
  show_time = λ _. [];
}

longer :
    (ids : List Text) (t : Text)
    → length (all_ids ids) < length t
    → any (λ s. text_eq s t) ids ≡ false
longer [] t h = refl
longer (s ∷ ids) t h =
    let sum = length-append s (all_ids ids) in
    let later : any (λ u. text_eq u t) ids ≡ false = longer ids t (omega (arith, h, sum)) in
    elim (Bool-cases (text_eq s t)) [
      | inr e ↦ rw (e, later) refl
      | inl e ↦
          let same : length s ≡ length t = ap (λ u. length u) (eq_of_text_eq s t e) in
          let no : 1 ≤ 0 = omega (arith, h, sum, same) in elim no [ ]
    ]

outside-IsFresh : IsFresh outside
outside-IsFresh ids = longer ids (b'x' ∷ all_ids ids) (omega arith)

abbrev admin : Actor
admin = record { sub = some (codes "u"); tenant_id = some (codes "t") }

abbrev guests : Vlan
guests = record {
  id = codes "g";
  vlan_id = 20;
  name = some (codes "guests");
  description = none;
  purpose = none;
  subnet = none;
  enabled = some true;
  tenant_id = some (codes "t");
}

abbrev table : Table Vlan
table = record { rows = guests ∷ []; audit_log = [] }

abbrev printers : NewVlan
printers = record {
  vlan_id = 40;
  name = codes "printers";
  description = none;
  purpose = some (codes "printer");
  subnet = some (codes "10.0.40.0/24");
  enabled = true;
}

abbrev made : Vlan
made = vlan_row outside table.rows (codes "t") (some (codes "10.0.40.0/24")) printers

is_made : (create_vlan outside admin printers none table).0 ≡ ok made
unfolding create_vlan insert_vlan log_audit
is_made = refl

create_vlan-get_vlan_example :
    Holds outside (codes "t") printers made
    × ((get_vlan outside (codes "t") made.id (create_vlan outside admin printers none table).1).0
        ≡ ok made)
create_vlan-get_vlan_example =
    create_vlan-get_vlan outside outside-IsFresh admin printers none table (codes "t") made refl
      is_made
