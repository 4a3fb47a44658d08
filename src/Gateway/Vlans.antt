-- ===== src/Gateway/Vlans.antt =====
-- services/gateway/features/vlans: the VLANs of a tenant (repository.py). Service holds the
-- operations.
pub mod Service
pub mod Creation
mod Tests
use openradiusweb.Prelude.{
  ◌≡◌, refl, ℕ, Bool, true, false, ◌&&◌, ◌||◌, Option, none, some, List, [], ◌∷◌, ◌++◌, keep_if,
  map, any, if◌then◌else◌, ltb, length, ◌==◌,
}
use openradiusweb.Prelude.Text.{Text, codes, text_eq, text_in}
use openradiusweb.Prelude.Order.{order_by}
use openradiusweb.Prelude.Result.{Result, ok, err, db_error}
use openradiusweb.Prelude.Exec.{Exec, pure, raise, gets, modify, ◌>>=◌, ◌>>◌}
use openradiusweb.Gateway.Rows.{
  Param, Outside, Table, Columns, SameKeys, fits, fits_integer, same_opt, by_uuid,
}
use openradiusweb.Gateway.Rows.Assign.{
  Column, varchar, plain_text, not_null_integer, boolean, cast, assign_by, assign_by-SameKeys,
}

-- A row of `vlans`, without its time stamps.
pub record Vlan : Type 0 where
  pub id : Text
  pub vlan_id : ℕ
  pub name : Option Text
  pub description : Option Text
  pub purpose : Option Text
  pub subnet : Option Text
  pub enabled : Option Bool
  pub tenant_id : Option Text

-- The columns of an INSERT.
pub record NewVlan : Type 0 where
  pub vlan_id : ℕ
  pub name : Text
  pub description : Option Text
  pub purpose : Option Text
  pub subnet : Option Text
  pub enabled : Bool

abbrev pub vlan_update_columns : List Text
vlan_update_columns =
    codes "vlan_id"
    ∷ codes "name"
    ∷ codes "description"
    ∷ codes "purpose"
    ∷ codes "subnet"
    ∷ codes "enabled"
    ∷ []

-- UNIQUE(vlan_id, tenant_id); two rows without a tenant do not clash.
abbrev pub same_number : Vlan → Vlan → Bool
same_number r s =
    (r.vlan_id == s.vlan_id) && elim s.tenant_id [ none ↦ false | some t ↦ same_opt r.tenant_id t ]

module _ (o : Outside) where
  -- The columns that a client may set, the subnet by `CAST(:subnet AS cidr)`, and the tenant.
  abbrev pub columns : List (Text × Column Vlan)
  columns =
      (codes "vlan_id", not_null_integer (λ n s. record s { vlan_id = n }))
      ∷ (codes "name", varchar 100 (λ t s. record s { name = t }))
      ∷ (codes "description", plain_text (λ t s. record s { description = t }))
      ∷ (codes "purpose", varchar 50 (λ t s. record s { purpose = t }))
      ∷ (codes "subnet", cast o.cast_cidr (λ t s. record s { subnet = t }))
      ∷ (codes "enabled", boolean (λ b s. record s { enabled = b }))
      ∷ []

  abbrev pub other_columns : List (Text × Column Vlan)
  other_columns = (codes "tenant_id", varchar 36 (λ t s. record s { tenant_id = t })) ∷ []

  pub assign-SameKeys :
      (column : Text) (v : Param) (r : Vlan)
      → text_in column vlan_update_columns ≡ true
      → SameKeys (λ s. s.id) (λ s. s.tenant_id) r (assign_by (columns ++ other_columns) column v r)
  assign-SameKeys =
      assign_by-SameKeys (λ s. s.id) (λ s. s.tenant_id) columns other_columns
        (
          λ a r. (refl, refl),
          (
            λ a r. (refl, refl),
            (
              λ a r. (refl, refl),
              (λ a r. (refl, refl), (λ a r. (refl, refl), (λ a r. (refl, refl), tt))),
            ),
          ),
        )

  abbrev pub vlan_columns : Columns Vlan
  vlan_columns = record {
    id = λ r. r.id;
    tenant_id = λ r. r.tenant_id;
    allowed = vlan_update_columns;
    assign = assign_by (columns ++ other_columns);
    clash = same_number;
    assign-SameKeys = assign-SameKeys;
  }

  -- `purpose = :purpose`, which is there if a purpose is given.
  abbrev pub has_purpose : Option Text → Vlan → Bool
  has_purpose none r = true
  has_purpose (some []) r = true
  has_purpose (some (c ∷ purpose)) r = same_opt r.purpose (c ∷ purpose)

  unfoldable pub list_rows : Text → Option Text → Exec (Table Vlan) (List Vlan)
  unfolding order_by
  list_rows tenant purpose = by_uuid o tenant (
      gets (λ t.
        order_by (λ r s. ltb r.vlan_id s.vlan_id)
          (keep_if (λ r. same_opt r.tenant_id tenant && has_purpose purpose r) t.rows)))

  -- What the casts, the lengths and the foreign key of an INSERT let through.
  abbrev pub accepts_vlan : Text → NewVlan → Bool
  accepts_vlan tenant v =
      (o.is_uuid tenant && o.refers (codes "tenants") tenant)
      && (fits_integer v.vlan_id && (fits 100 (some v.name) && fits 50 v.purpose))

  abbrev pub cast_subnet : Option Text → Option (Option Text)
  cast_subnet none = some none
  cast_subnet (some t) = elim (o.cast_cidr t) [ none ↦ none | some s ↦ some (some s) ]

  abbrev pub vlan_row : List Vlan → Text → Option Text → NewVlan → Vlan
  vlan_row rows tenant subnet v = record {
    id = o.new_id (map (λ r. r.id) rows);
    vlan_id = v.vlan_id;
    name = some v.name;
    description = v.description;
    purpose = v.purpose;
    subnet = subnet;
    enabled = some v.enabled;
    tenant_id = some tenant;
  }

  abbrev pub insert_row : Vlan → Bool → Exec (Table Vlan) Vlan
  insert_row row true = raise db_error
  insert_row row false = modify (λ t. record t { rows = t.rows ++ row ∷ [] }) >> pure row

  abbrev pub insert_cast : Text → NewVlan → Option (Option Text) → Exec (Table Vlan) Vlan
  insert_cast tenant v none = raise db_error
  insert_cast tenant v (some subnet) =
      if accepts_vlan tenant v
      then (do
        row ← gets (λ t. vlan_row t.rows tenant subnet v)
        taken ← gets (λ t. any (λ s. same_number s row) t.rows)
        insert_row row taken)
      else raise db_error

  -- The UNIQUE makes an INSERT raise.
  unfoldable pub insert_vlan : Text → NewVlan → Exec (Table Vlan) Vlan
  insert_vlan tenant v = insert_cast tenant v (cast_subnet v.subnet)
