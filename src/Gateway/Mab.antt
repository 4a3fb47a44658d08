-- ===== src/Gateway/Mab.antt =====
-- services/gateway/features/mab_devices: the rows of the whitelist and the statements on them
-- (repository.py). Service holds the operations.
pub mod Service
pub mod Import
pub mod Isolation
pub mod Radius
mod Tests
use openradiusweb.Prelude.{
  ◌≡◌, refl, ℕ, ◌-◌, ◌*◌, Bool, true, false, not, ◌&&◌, ◌||◌, Option, none, some, List, [], ◌∷◌,
  ◌++◌, keep_if, first, map, any, if◌then◌else◌, ltb, leb, length, take, drop, Bool-cases, inl, inr,
  ◌==◌,
}
use openradiusweb.Prelude.Text.{Text, codes, text_eq, text_in, truthy, opt_truthy, text_or_empty}
use openradiusweb.Prelude.Order.{order_by}
use openradiusweb.Prelude.Result.{Result, ok, err, db_error}
use openradiusweb.Prelude.Exec.{Exec, pure, raise, gets, modify, ◌>>=◌, ◌>>◌}
use openradiusweb.Gateway.Rows.{
  Param, nothing, text, number, flag, time, Updates, Outside, Table, Columns, SameKeys, fits,
  fits_integer, fits_number, same_opt, by_uuid,
}
use openradiusweb.Gateway.Rows.Assign.{
  Column, varchar, plain_text, integer, boolean, timestamp, assign_by, assign_by-SameKeys,
}

-- A row of `mab_devices`, without its time stamps.
pub record MabDevice : Type 0 where
  pub id : Text
  pub mac_address : Text
  pub name : Option Text
  pub description : Option Text
  pub device_type : Option Text
  pub assigned_vlan_id : Option ℕ
  pub enabled : Option Bool
  pub expiry_date : Option ℕ
  pub tenant_id : Option Text
  pub created_by : Option Text

-- The columns of an INSERT.
pub record NewDevice : Type 0 where
  pub mac_address : Text
  pub name : Option Text
  pub description : Option Text
  pub device_type : Option Text
  pub assigned_vlan_id : Option ℕ
  pub enabled : Bool
  pub expiry_date : Option ℕ

abbrev pub mab_device_update_columns : List Text
mab_device_update_columns =
    codes "name"
    ∷ codes "description"
    ∷ codes "device_type"
    ∷ codes "assigned_vlan_id"
    ∷ codes "enabled"
    ∷ codes "expiry_date"
    ∷ []

-- The columns that a client may set, and the tenant.
abbrev pub columns : List (Text × Column MabDevice)
columns =
    (codes "name", varchar 255 (λ t s. record s { name = t }))
    ∷ (codes "description", plain_text (λ t s. record s { description = t }))
    ∷ (codes "device_type", varchar 100 (λ t s. record s { device_type = t }))
    ∷ (codes "assigned_vlan_id", integer (λ n s. record s { assigned_vlan_id = n }))
    ∷ (codes "enabled", boolean (λ b s. record s { enabled = b }))
    ∷ (codes "expiry_date", timestamp (λ t s. record s { expiry_date = t }))
    ∷ []

abbrev pub other_columns : List (Text × Column MabDevice)
other_columns = (codes "tenant_id", varchar 36 (λ t s. record s { tenant_id = t })) ∷ []

-- UNIQUE(mac_address, tenant_id); two rows without a tenant do not clash.
abbrev pub same_device : MabDevice → MabDevice → Bool
same_device r s =
    text_eq r.mac_address s.mac_address
    && elim s.tenant_id [ none ↦ false | some t ↦ same_opt r.tenant_id t ]

pub assign-SameKeys :
    (column : Text) (v : Param) (r : MabDevice)
    → text_in column mab_device_update_columns ≡ true
    → SameKeys (λ s. s.id) (λ s. s.tenant_id) r (assign_by (columns ++ other_columns) column v r)
assign-SameKeys =
    assign_by-SameKeys (λ s. s.id) (λ s. s.tenant_id) columns other_columns
      (
        λ a r. (refl, refl),
        (
          λ a r. (refl, refl),
          (
            λ a r. (refl, refl),
            (λ a r. (refl, refl), (λ a r. (refl, refl), (λ a r. (refl, refl), tt))),
          ),
        ),
      )

abbrev pub mab_columns : Columns MabDevice
mab_columns = record {
  id = λ r. r.id;
  tenant_id = λ r. r.tenant_id;
  allowed = mab_device_update_columns;
  assign = assign_by (columns ++ other_columns);
  clash = same_device;
  assign-SameKeys = assign-SameKeys;
}

-- `expiry_date IS NULL OR expiry_date > NOW()`.
abbrev pub not_expired : ℕ → Option ℕ → Bool
not_expired now none = true
not_expired now (some t) = ltb now t

abbrev pub same_flag : Option Bool → Bool → Bool
same_flag none b = false
same_flag (some true) b = b
same_flag (some false) b = not b

-- `_filter_clause`: an empty type of device is no filter.
abbrev pub filter_flag : Option Bool → Option Bool → Bool
filter_flag none column = true
filter_flag (some b) column = same_flag column b

abbrev pub filter_text : Option Text → Option Text → Bool
filter_text none column = true
filter_text (some []) column = true
filter_text (some (c ∷ t)) column = same_opt column (c ∷ t)

abbrev pub filter_clause : Text → Option Bool → Option Text → MabDevice → Bool
filter_clause tenant enabled device_type r =
    same_opt r.tenant_id tenant
    && (filter_flag enabled r.enabled && filter_text device_type r.device_type)

-- The order of macaddr: both are hex digits in pairs, in lower case.
abbrev pub text_before : Text → Text → Bool
text_before [] [] = false
text_before [] (_ ∷ _) = true
text_before (_ ∷ _) [] = false
text_before (a ∷ s) (b ∷ t) = ltb a b || (a == b && text_before s t)

-- The columns of the INSERT of an import, which writes `true`.
abbrev pub as_enabled : NewDevice → NewDevice
as_enabled d = record d { enabled = true }

module _ (o : Outside) where
  -- `ORDER BY name, mac_address`, NULL last.
  abbrev pub name_before : Option Text → Option Text → Bool → Bool
  name_before (some a) (some b) same = o.collate a b || (not (o.collate b a) && same)
  name_before (some a) none same = true
  name_before none (some b) same = false
  name_before none none same = same

  abbrev pub device_before : MabDevice → MabDevice → Bool
  device_before r s = name_before r.name s.name (text_before r.mac_address s.mac_address)

  unfoldable pub count_mab_devices : Text → Option Bool → Option Text → Exec (Table MabDevice) ℕ
  count_mab_devices tenant enabled device_type =
      by_uuid o tenant
        (gets (λ t. length (keep_if (filter_clause tenant enabled device_type) t.rows)))

  unfoldable pub list_rows :
      Text → Option Bool → Option Text → ℕ → ℕ → Exec (Table MabDevice) (List MabDevice)
  unfolding order_by
  list_rows tenant enabled device_type limit offset = by_uuid o tenant (
      gets (λ t. take limit (
        drop offset
          (order_by device_before (keep_if (filter_clause tenant enabled device_type) t.rows)))))

  -- `WHERE mac_address = CAST(:mac AS macaddr) AND enabled = true AND …`, of any tenant.
  abbrev pub is_allowed : Text → MabDevice → Bool
  is_allowed mac r =
      text_eq r.mac_address mac && (same_flag r.enabled true && not_expired o.now r.expiry_date)

  abbrev pub lookup_cast : Option Text → Exec (Table MabDevice) (Option MabDevice)
  lookup_cast none = raise db_error
  lookup_cast (some mac) = gets (λ t. first (keep_if (is_allowed mac) t.rows))

  unfoldable pub radius_lookup_mac : Text → Exec (Table MabDevice) (Option MabDevice)
  radius_lookup_mac normalized_mac = lookup_cast (o.cast_macaddr normalized_mac)

  -- What the casts, the lengths and the foreign keys of an INSERT let through.
  abbrev pub accepts_device : Text → Text → NewDevice → Bool
  accepts_device tenant created_by d =
      (o.is_uuid tenant && o.refers (codes "tenants") tenant)
      && ((o.is_uuid created_by && o.refers (codes "users") created_by)
          && (fits 255 d.name && (fits 100 d.device_type && fits_number d.assigned_vlan_id)))

  abbrev pub device_row : List MabDevice → Text → Text → Text → NewDevice → MabDevice
  device_row rows mac tenant created_by d = record {
    id = o.new_id (map (λ r. r.id) rows);
    mac_address = mac;
    name = d.name;
    description = d.description;
    device_type = d.device_type;
    assigned_vlan_id = d.assigned_vlan_id;
    enabled = some d.enabled;
    expiry_date = d.expiry_date;
    tenant_id = some tenant;
    created_by = some created_by;
  }

  -- What an INSERT does with the row and whether its device is there, where its values are taken.
  abbrev pub with_row :
      {A : Type 0}
      → Text
      → Text
      → NewDevice
      → (MabDevice → Bool → Exec (Table MabDevice) A)
      → Option Text
      → Exec (Table MabDevice) A
  with_row tenant created_by d insert none = raise db_error
  with_row tenant created_by d insert (some mac) =
      if accepts_device tenant created_by d
      then (do
        row ← gets (λ t. device_row t.rows mac tenant created_by d)
        taken ← gets (λ t. any (λ s. same_device s row) t.rows)
        insert row taken)
      else raise db_error

  abbrev pub append_row : MabDevice → Exec (Table MabDevice) (Unit {0})
  append_row row = modify (λ t. record t { rows = t.rows ++ row ∷ [] })

  -- The UNIQUE makes an INSERT raise.
  unfoldable pub insert_mab_device : Text → Text → NewDevice → Exec (Table MabDevice) MabDevice
  insert_mab_device tenant created_by d =
      with_row tenant created_by d
        (λ row taken. if taken then raise db_error else append_row row >> pure row)
        (o.cast_macaddr d.mac_address)

  -- `ON CONFLICT (mac_address, tenant_id) DO NOTHING`: whether a row came back.
  unfoldable pub bulk_insert_mab_device : Text → Text → NewDevice → Exec (Table MabDevice) Bool
  bulk_insert_mab_device tenant created_by d =
      with_row tenant created_by (as_enabled d)
        (λ row taken. if taken then pure false else append_row row >> pure true)
        (o.cast_macaddr d.mac_address)
