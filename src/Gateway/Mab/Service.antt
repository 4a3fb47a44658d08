-- ===== src/Gateway/Mab/Service.antt =====
-- services/gateway/features/mab_devices/service.py.
use openradiusweb.Prelude.{
  ℕ, ◌+◌, ◌-◌, ◌*◌, Bool, Option, none, some, List, [], ◌∷◌, length, if◌then◌else◌,
}
use openradiusweb.Prelude.Text.{Text, codes}
use openradiusweb.Prelude.Result.{Result, ok, err, validation_error, not_found_error}
use openradiusweb.Prelude.Exec.{Exec, pure, raise, lift, catch, ◌>>=◌, ◌>>◌}
use openradiusweb.Value.{str, dict, num, field, end}
use openradiusweb.Mac.{validate_mac}
use openradiusweb.Gateway.Audit.{Actor}
use openradiusweb.Gateway.Audit
use openradiusweb.Gateway.Rows.{
  Updates, Outside, Table, log_audit, lookup_row, or_not_found, update_row, delete_row,
  updates_fields, opt_value, no_valid_fields,
}
use openradiusweb.Gateway.Mab.{
  MabDevice, NewDevice, mab_columns, count_mab_devices, list_rows, radius_lookup_mac,
  insert_mab_device, bulk_insert_mab_device,
}

abbrev Devices : Type 0 → Type 0
Devices A = Exec (Table MabDevice) A

-- What `list_mab_devices` answers.
pub record DevicePage : Type 0 where
  pub items : List MabDevice
  pub total : ℕ
  pub page : ℕ
  pub page_size : ℕ

-- What an import answers.
pub record Imported : Type 0 where
  pub created : ℕ
  pub skipped : ℕ
  pub total : ℕ

-- `_normalize_mac`, which is the validator of the models but for the exception.
unfoldable pub normalize_raw : Text → Result Text
unfolding validate_mac
normalize_raw raw = elim (validate_mac raw) [ ok mac ↦ ok mac | err e ↦ err validation_error ]

abbrev pub device : Text
device = codes "mab_device"

module _ (o : Outside) where
  unfoldable pub list_mab_devices : Text → Option Bool → Option Text → ℕ → ℕ → Devices DevicePage
  unfolding count_mab_devices list_rows
  list_mab_devices tenant enabled device_type page page_size = do
    total ← count_mab_devices o tenant enabled device_type
    rows ← list_rows o tenant enabled device_type page_size ((page - 1) * page_size)
    pure (record { items = rows; total = total; page = page; page_size = page_size })

  unfoldable pub get_mab_device : Text → Text → Devices MabDevice
  unfolding lookup_row
  get_mab_device tenant device_id = lookup_row o mab_columns tenant device_id >>= or_not_found

  unfoldable pub check_mac_for_radius : Text → Devices MabDevice
  unfolding normalize_raw radius_lookup_mac
  check_mac_for_radius raw_mac = do
    normalized ← lift (normalize_raw raw_mac)
    row ← radius_lookup_mac o normalized
    or_not_found row

  unfoldable pub create_mab_device : Actor → NewDevice → Option Text → Devices MabDevice
  unfolding insert_mab_device log_audit
  create_mab_device actor d client_ip = do
    tenant ← lift (Audit.required actor.tenant_id)
    sub ← lift (Audit.required actor.sub)
    row ← insert_mab_device o tenant sub d
    log_audit o actor (codes "create") device (some row.id)
        (field (codes "mac_address") (str d.mac_address)
          (field (codes "name") (opt_value d.name) end))
        client_ip
    pure row

  -- The end of `update_mab_device`, after the row that was there and the one that is.
  abbrev pub log_update :
      Actor → Text → Updates → Option Text → MabDevice → Option MabDevice → Devices MabDevice
  log_update actor device_id updates client_ip existing none = raise not_found_error
  log_update actor device_id updates client_ip existing (some row) = do
    log_audit o actor (codes "update") device (some device_id)
        (field (codes "changed_fields") (dict (updates_fields o updates))
          (field (codes "mac") (str existing.mac_address) end))
        client_ip
    pure row

  -- `update_mab_device` from the check of `updates` on.
  abbrev pub update_given : Actor → Text → Updates → Option Text → Devices MabDevice
  update_given actor device_id updates client_ip = do
    tenant ← lift (Audit.required actor.tenant_id)
    found ← lookup_row o mab_columns tenant device_id
    existing ← or_not_found found
    row ← catch (update_row o mab_columns tenant device_id updates) (λ e. raise (no_valid_fields e))
    log_update actor device_id updates client_ip existing row

  unfoldable pub update_mab_device : Actor → Text → Updates → Option Text → Devices MabDevice
  unfolding lookup_row update_row log_audit
  update_mab_device actor device_id [] client_ip = raise validation_error
  update_mab_device actor device_id (u ∷ updates) client_ip =
      update_given actor device_id (u ∷ updates) client_ip

  unfoldable pub delete_mab_device : Actor → Text → Option Text → Devices (Unit {0})
  unfolding lookup_row delete_row log_audit
  delete_mab_device actor device_id client_ip = do
    tenant ← lift (Audit.required actor.tenant_id)
    found ← lookup_row o mab_columns tenant device_id
    existing ← or_not_found found
    delete_row o mab_columns tenant device_id
    log_audit o actor (codes "delete") device (some device_id)
        (field (codes "mac") (str existing.mac_address)
          (field (codes "name") (opt_value existing.name) end))
        client_ip

  -- One round of the loop of `bulk_import`.
  unfoldable pub import_one : Actor → NewDevice → Devices Bool
  unfolding bulk_insert_mab_device
  import_one actor d = do
    tenant ← lift (Audit.required actor.tenant_id)
    sub ← lift (Audit.required actor.sub)
    bulk_insert_mab_device o tenant sub d

  -- The loop, with the numbers of the devices that were added and that were there.
  unfoldable pub import_all : Actor → List NewDevice → ℕ → ℕ → Devices (ℕ × ℕ)
  unfolding import_one
  import_all actor [] created skipped = pure (created, skipped)
  import_all actor (d ∷ devices) created skipped = do
    inserted ← import_one actor d
    import_all actor devices (if inserted then created + 1 else created)
        (if inserted then skipped else skipped + 1)

  abbrev pub log_import : Actor → ℕ → Option Text → ℕ × ℕ → Devices Imported
  log_import actor total client_ip (created, skipped) = do
    log_audit o actor (codes "bulk_import") device none
        (field (codes "total") (num total)
          (field (codes "created") (num created) (field (codes "skipped") (num skipped) end)))
        client_ip
    pure (record { created = created; skipped = skipped; total = total })

  unfoldable pub bulk_import : Actor → List NewDevice → Option Text → Devices Imported
  unfolding import_all log_audit
  bulk_import actor devices client_ip =
      import_all actor devices 0 0 >>= log_import actor (length devices) client_ip
