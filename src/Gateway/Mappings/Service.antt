-- ===== src/Gateway/Mappings/Service.antt =====
-- services/gateway/features/group_vlan_mappings/service.py.
use openradiusweb.Prelude.{
  ℕ, Option, none, some, List, [], ◌∷◌, keep_if, map, length, if◌then◌else◌,
}
use openradiusweb.Prelude.Text.{Text, codes, text_eq, truthy, split, strip}
use openradiusweb.Prelude.Result.{validation_error, not_found_error, conflict_error}
use openradiusweb.Prelude.Exec.{Exec, pure, raise, lift, catch, ◌>>=◌, ◌>>◌}
use openradiusweb.Value.{str, dict, num, field, end}
use openradiusweb.Gateway.Audit.{Actor}
use openradiusweb.Gateway.Audit
use openradiusweb.Gateway.Rows.{
  Param, text, Updates, Outside, Table, log_audit, lookup_row, or_not_found, update_row, delete_row,
  updates_fields, no_valid_fields,
}
use openradiusweb.Gateway.Mappings.{
  Mapping, NewMapping, mapping_columns, list_rows, group_name_taken, lookup_row_for_groups,
  insert_mapping,
}

abbrev Mappings : Type 0 → Type 0
Mappings A = Exec (Table Mapping) A

-- What `list_mappings` answers.
pub record MappingList : Type 0 where
  pub items : List Mapping
  pub total : ℕ

abbrev pub resource : Text
resource = codes "group_vlan_mapping"

-- `[g.strip() for g in groups_csv.split(",") if g.strip()]`.
unfoldable pub parse_groups : Text → List Text
unfolding split strip
parse_groups groups_csv = keep_if truthy (map strip (split b',' groups_csv))

-- `updates.get("group_name")`.
abbrev pub get_param : Text → Updates → Option Param
get_param key [] = none
get_param key ((k, v) ∷ rest) = if text_eq k key then some v else get_param key rest

-- The name that an update gives to another group; a name is a text.
abbrev pub renamed : Option Param → Text → Option Text
renamed (some (text name)) old = if text_eq name old then none else some name
renamed _ old = none

module _ (o : Outside) where
  unfoldable pub assert_group_name_free : Text → Text → Option Text → Mappings (Unit {0})
  unfolding group_name_taken
  assert_group_name_free tenant name excluding = do
    taken ← group_name_taken o tenant name excluding
    if taken then raise conflict_error else pure tt

  unfoldable pub list_mappings : Text → Mappings MappingList
  unfolding list_rows
  list_mappings tenant = do
    rows ← list_rows o tenant
    pure (record { items = rows; total = length rows })

  unfoldable pub get_mapping : Text → Text → Mappings Mapping
  unfolding lookup_row
  get_mapping tenant mapping_id =
      lookup_row o (mapping_columns o) tenant mapping_id >>= or_not_found

  abbrev pub lookup_parsed : Text → List Text → Mappings (Option Mapping)
  lookup_parsed tenant [] = pure none
  lookup_parsed tenant (g ∷ groups) = lookup_row_for_groups o tenant (g ∷ groups)

  -- `lookup_vlan_for_groups`, the match.
  unfoldable pub lookup_vlan_for_groups : Text → Text → Mappings (Option Mapping)
  unfolding parse_groups lookup_row_for_groups
  lookup_vlan_for_groups tenant groups_csv = lookup_parsed tenant (parse_groups groups_csv)

  unfoldable pub create_mapping : Actor → NewMapping → Option Text → Mappings Mapping
  unfolding assert_group_name_free insert_mapping log_audit
  create_mapping actor m client_ip = do
    tenant ← lift (Audit.required actor.tenant_id)
    assert_group_name_free tenant m.group_name none
    row ← insert_mapping o tenant m
    log_audit o actor (codes "create") resource (some row.id)
        (field (codes "group_name") (str m.group_name)
          (field (codes "vlan_id") (num m.vlan_id) end))
        client_ip
    pure row

  abbrev pub assert_renamed : Text → Text → Option Text → Mappings (Unit {0})
  assert_renamed tenant mapping_id none = pure tt
  assert_renamed tenant mapping_id (some name) =
      assert_group_name_free tenant name (some mapping_id)

  -- The end of `update_mapping`.
  abbrev pub log_update :
      Actor → Text → Updates → Option Text → Mapping → Option Mapping → Mappings Mapping
  log_update actor mapping_id updates client_ip existing none = raise not_found_error
  log_update actor mapping_id updates client_ip existing (some row) = do
    log_audit o actor (codes "update") resource (some mapping_id)
        (field (codes "changed_fields") (dict (updates_fields o updates))
          (field (codes "group_name") (str existing.group_name) end))
        client_ip
    pure row

  -- `update_mapping` from the lookup on.
  abbrev pub update_given : Actor → Text → Updates → Option Text → Mappings Mapping
  update_given actor mapping_id updates client_ip = do
    tenant ← lift (Audit.required actor.tenant_id)
    found ← lookup_row o (mapping_columns o) tenant mapping_id
    existing ← or_not_found found
    assert_renamed tenant mapping_id
        (renamed (get_param (codes "group_name") updates) existing.group_name)
    row ←
        catch (update_row o (mapping_columns o) tenant mapping_id updates)
          (λ e. raise (no_valid_fields e))
    log_update actor mapping_id updates client_ip existing row

  unfoldable pub update_mapping : Actor → Text → Updates → Option Text → Mappings Mapping
  unfolding assert_group_name_free lookup_row update_row log_audit
  update_mapping actor mapping_id [] client_ip = raise validation_error
  update_mapping actor mapping_id (u ∷ updates) client_ip =
      update_given actor mapping_id (u ∷ updates) client_ip

  unfoldable pub delete_mapping : Actor → Text → Option Text → Mappings (Unit {0})
  unfolding lookup_row delete_row log_audit
  delete_mapping actor mapping_id client_ip = do
    tenant ← lift (Audit.required actor.tenant_id)
    found ← lookup_row o (mapping_columns o) tenant mapping_id
    existing ← or_not_found found
    delete_row o (mapping_columns o) tenant mapping_id
    log_audit o actor (codes "delete") resource (some mapping_id)
        (field (codes "group_name") (str existing.group_name)
          (field (codes "vlan_id") (num existing.vlan_id) end))
        client_ip
