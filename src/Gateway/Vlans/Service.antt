-- ===== src/Gateway/Vlans/Service.antt =====
-- services/gateway/features/vlans/service.py.
use openradiusweb.Prelude.{Option, none, some, List, [], ◌∷◌}
use openradiusweb.Prelude.Text.{Text, codes}
use openradiusweb.Prelude.Result.{validation_error, not_found_error}
use openradiusweb.Prelude.Exec.{Exec, pure, raise, lift, catch, ◌>>=◌, ◌>>◌}
use openradiusweb.Value.{str, dict, num, field, end}
use openradiusweb.Gateway.Audit.{Actor}
use openradiusweb.Gateway.Audit
use openradiusweb.Gateway.Rows.{
  Updates, Outside, Table, log_audit, lookup_row, or_not_found, update_row, delete_row,
  updates_fields, opt_value, no_valid_fields,
}
use openradiusweb.Gateway.Vlans.{Vlan, NewVlan, vlan_columns, list_rows, insert_vlan}

abbrev Vlans : Type 0 → Type 0
Vlans A = Exec (Table Vlan) A

abbrev pub kind : Text
kind = codes "vlan"

module _ (o : Outside) where
  unfoldable pub list_vlans : Text → Option Text → Vlans (List Vlan)
  unfolding list_rows
  list_vlans tenant purpose = list_rows o tenant purpose

  unfoldable pub get_vlan : Text → Text → Vlans Vlan
  unfolding lookup_row
  get_vlan tenant vlan_uuid = lookup_row o (vlan_columns o) tenant vlan_uuid >>= or_not_found

  unfoldable pub create_vlan : Actor → NewVlan → Option Text → Vlans Vlan
  unfolding insert_vlan log_audit
  create_vlan actor v client_ip = do
    tenant ← lift (Audit.required actor.tenant_id)
    row ← insert_vlan o tenant v
    log_audit o actor (codes "create") kind (some row.id)
        (field (codes "vlan_id") (num v.vlan_id)
          (field (codes "name") (str v.name) (field (codes "purpose") (opt_value v.purpose) end)))
        client_ip
    pure row

  -- The end of `update_vlan`.
  abbrev pub log_update : Actor → Text → Updates → Option Text → Vlan → Option Vlan → Vlans Vlan
  log_update actor vlan_uuid updates client_ip existing none = raise not_found_error
  log_update actor vlan_uuid updates client_ip existing (some row) = do
    log_audit o actor (codes "update") kind (some vlan_uuid)
        (field (codes "changed_fields") (dict (updates_fields o updates))
          (field (codes "name") (opt_value existing.name) end))
        client_ip
    pure row

  -- `update_vlan` from the lookup on.
  abbrev pub update_given : Actor → Text → Updates → Option Text → Vlans Vlan
  update_given actor vlan_uuid updates client_ip = do
    tenant ← lift (Audit.required actor.tenant_id)
    found ← lookup_row o (vlan_columns o) tenant vlan_uuid
    existing ← or_not_found found
    row ←
        catch (update_row o (vlan_columns o) tenant vlan_uuid updates)
          (λ e. raise (no_valid_fields e))
    log_update actor vlan_uuid updates client_ip existing row

  unfoldable pub update_vlan : Actor → Text → Updates → Option Text → Vlans Vlan
  unfolding lookup_row update_row log_audit
  update_vlan actor vlan_uuid [] client_ip = raise validation_error
  update_vlan actor vlan_uuid (u ∷ updates) client_ip =
      update_given actor vlan_uuid (u ∷ updates) client_ip

  unfoldable pub delete_vlan : Actor → Text → Option Text → Vlans (Unit {0})
  unfolding lookup_row delete_row log_audit
  delete_vlan actor vlan_uuid client_ip = do
    tenant ← lift (Audit.required actor.tenant_id)
    found ← lookup_row o (vlan_columns o) tenant vlan_uuid
    existing ← or_not_found found
    delete_row o (vlan_columns o) tenant vlan_uuid
    log_audit o actor (codes "delete") kind (some vlan_uuid)
        (field (codes "name") (opt_value existing.name)
          (field (codes "vlan_id") (num existing.vlan_id) end))
        client_ip
