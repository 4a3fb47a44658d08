-- ===== src/Gateway/Mappings.antt =====
-- services/gateway/features/group_vlan_mappings: which VLAN a directory's group gets (repository.py).
-- Service holds the operations.
pub mod Service
pub mod Agreement
pub mod Creation
mod Tests
use openradiusweb.Prelude.{
  ◌≡◌, refl, ℕ, Bool, true, false, not, ◌&&◌, ◌||◌, Option, none, some, List, [], ◌∷◌, ◌++◌,
  keep_if, map, any, if◌then◌else◌, ltb, leb, length, least_by, ◌==◌,
}
use openradiusweb.Prelude.Text.{Text, codes, text_eq, text_in}
use openradiusweb.Prelude.Order.{order_by}
use openradiusweb.Prelude.Result.{Result, ok, err, db_error}
use openradiusweb.Prelude.Exec.{Exec, pure, raise, gets, modify, ◌>>=◌, ◌>>◌}
use openradiusweb.Gateway.Rows.{
  Param, Outside, Table, Columns, SameKeys, fits_integer, same_opt, by_uuid,
}
use openradiusweb.Gateway.Rows.Assign.{
  Column, plain_text, not_null, not_null_integer, not_null_boolean, cast, assign_by,
  assign_by-SameKeys,
}

-- A row of `group_vlan_mappings`, without its time stamps.
pub record Mapping : Type 0 where
  pub id : Text
  pub group_name : Text
  pub vlan_id : ℕ
  pub priority : ℕ
  pub description : Option Text
  pub ldap_server_id : Option Text
  pub enabled : Bool
  pub tenant_id : Text

-- The columns of an INSERT.
pub record NewMapping : Type 0 where
  pub group_name : Text
  pub vlan_id : ℕ
  pub priority : ℕ
  pub description : Option Text
  pub ldap_server_id : Option Text
  pub enabled : Bool

abbrev pub group_vlan_mapping_update_columns : List Text
group_vlan_mapping_update_columns =
    codes "group_name"
    ∷ codes "vlan_id"
    ∷ codes "priority"
    ∷ codes "description"
    ∷ codes "ldap_server_id"
    ∷ codes "enabled"
    ∷ []

-- UNIQUE(group_name, tenant_id).
abbrev pub same_mapping : Mapping → Mapping → Bool
same_mapping r s = text_eq r.group_name s.group_name && text_eq r.tenant_id s.tenant_id

module _ (o : Outside) where
  -- The identifier of a row of `ldap_servers`.
  abbrev pub server_id : Text → Option Text
  server_id t = if o.is_uuid t && o.refers (codes "ldap_servers") t then some t else none

  -- The columns that a client may set, and the tenant.
  abbrev pub columns : List (Text × Column Mapping)
  columns =
      (codes "group_name", not_null 255 (λ t s. record s { group_name = t }))
      ∷ (codes "vlan_id", not_null_integer (λ n s. record s { vlan_id = n }))
      ∷ (codes "priority", not_null_integer (λ n s. record s { priority = n }))
      ∷ (codes "description", plain_text (λ t s. record s { description = t }))
      ∷ (codes "ldap_server_id", cast server_id (λ t s. record s { ldap_server_id = t }))
      ∷ (codes "enabled", not_null_boolean (λ b s. record s { enabled = b }))
      ∷ []

  abbrev pub other_columns : List (Text × Column Mapping)
  other_columns = (codes "tenant_id", not_null 36 (λ t s. record s { tenant_id = t })) ∷ []

  pub assign-SameKeys :
      (column : Text) (v : Param) (r : Mapping)
      → text_in column group_vlan_mapping_update_columns ≡ true
      → SameKeys
          (λ s. s.id)
          (λ s. some s.tenant_id)
          r
          (assign_by (columns ++ other_columns) column v r)
  assign-SameKeys =
      assign_by-SameKeys (λ s. s.id) (λ s. some s.tenant_id) columns other_columns
        (
          λ a r. (refl, refl),
          (
            λ a r. (refl, refl),
            (
              λ a r. (refl, refl),
              (λ a r. (refl, refl), (λ a r. (refl, refl), (λ a r. (refl, refl), tt))),
            ),
          ),
        )

  abbrev pub mapping_columns : Columns Mapping
  mapping_columns = record {
    id = λ r. r.id;
    tenant_id = λ r. some r.tenant_id;
    allowed = group_vlan_mapping_update_columns;
    assign = assign_by (columns ++ other_columns);
    clash = same_mapping;
    assign-SameKeys = assign-SameKeys;
  }

  -- `ORDER BY priority ASC, group_name ASC`.
  abbrev pub mapping_before : Mapping → Mapping → Bool
  mapping_before r s =
      ltb r.priority s.priority || (r.priority == s.priority && o.collate r.group_name s.group_name)

  unfoldable pub list_rows : Text → Exec (Table Mapping) (List Mapping)
  unfolding order_by
  list_rows tenant =
      by_uuid o tenant
        (gets (λ t. order_by mapping_before (keep_if (λ r. text_eq r.tenant_id tenant) t.rows)))

  -- `AND id != :id`, which is there if a row is excluded.
  abbrev pub not_excluded : Option Text → Mapping → Bool
  not_excluded none r = true
  not_excluded (some row_id) r = not (text_eq r.id row_id)

  abbrev pub takes_name : Text → Text → Option Text → Mapping → Bool
  takes_name tenant name excluding r =
      (text_eq r.group_name name && text_eq r.tenant_id tenant) && not_excluded excluding r

  unfoldable pub group_name_taken : Text → Text → Option Text → Exec (Table Mapping) Bool
  group_name_taken tenant name excluding =
      by_uuid o tenant (gets (λ t. any (takes_name tenant name excluding) t.rows))

  -- `WHERE group_name = ANY(:groups) AND enabled = true AND tenant_id = :tenant_id`.
  abbrev pub applies : Text → List Text → Mapping → Bool
  applies tenant groups r =
      any (λ g. text_eq r.group_name g) groups && (r.enabled && text_eq r.tenant_id tenant)

  unfoldable pub lookup_row_for_groups : Text → List Text → Exec (Table Mapping) (Option Mapping)
  lookup_row_for_groups tenant groups =
      by_uuid o tenant
        (gets (λ t. least_by (λ r. r.priority) (keep_if (applies tenant groups) t.rows)))

  -- What the casts, the lengths and the foreign key of an INSERT let through.
  abbrev pub accepts_server : Option Text → Bool
  accepts_server none = true
  accepts_server (some t) = o.is_uuid t && o.refers (codes "ldap_servers") t

  abbrev pub accepts_mapping : Text → NewMapping → Bool
  accepts_mapping tenant m =
      (o.is_uuid tenant && leb (length m.group_name) 255)
      && ((fits_integer m.vlan_id && fits_integer m.priority) && accepts_server m.ldap_server_id)

  abbrev pub mapping_row : List Mapping → Text → NewMapping → Mapping
  mapping_row rows tenant m = record {
    id = o.new_id (map (λ r. r.id) rows);
    group_name = m.group_name;
    vlan_id = m.vlan_id;
    priority = m.priority;
    description = m.description;
    ldap_server_id = m.ldap_server_id;
    enabled = m.enabled;
    tenant_id = tenant;
  }

  abbrev pub insert_row : Mapping → Bool → Exec (Table Mapping) Mapping
  insert_row row true = raise db_error
  insert_row row false = modify (λ t. record t { rows = t.rows ++ row ∷ [] }) >> pure row

  -- The UNIQUE makes an INSERT raise.
  unfoldable pub insert_mapping : Text → NewMapping → Exec (Table Mapping) Mapping
  insert_mapping tenant m =
      if accepts_mapping tenant m
      then (do
        row ← gets (λ t. mapping_row t.rows tenant m)
        taken ← gets (λ t. any (λ s. same_mapping s row) t.rows)
        insert_row row taken)
      else raise db_error
