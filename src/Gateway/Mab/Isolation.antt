-- ===== src/Gateway/Mab/Isolation.antt =====
-- features/mab_devices/service.py: what an actor of a tenant changes.
use openradiusweb.Prelude.{
  ◌≡◌, refl, Bool, true, false, Option, none, some, List, [], ◌∷◌, ℕ, ◌+◌, if◌then◌else◌, length,
  Bool-cases, inl, inr,
}
use openradiusweb.Prelude.Result.{db_error, not_found_error, validation_error}
use openradiusweb.Value.{Fields}
use openradiusweb.Prelude.Text.{Text, text_eq_refl}
use openradiusweb.Prelude.Exec.{Exec, pure, raise, lift, catch, ◌>>=◌, ◌>>◌}
use openradiusweb.Gateway.Audit.{Actor, required}
use openradiusweb.Gateway.Rows.{
  Updates, Outside, Table, log_audit, lookup_row, or_not_found, update_row, delete_row,
  no_valid_fields,
}
use openradiusweb.Gateway.Rows.Tenants.{
  others, KeepsOthers, >>=-KeepsOthers, lift-KeepsOthers, catch-KeepsOthers, others-append,
  own_tenant-KeepsOthers, if-KeepsOthers, pure-KeepsOthers, raise-KeepsOthers,
  log_audit-KeepsOthers, lookup_row-KeepsOthers, delete_row-KeepsOthers, update_row-KeepsOthers,
}
use openradiusweb.Gateway.Mab.{
  MabDevice, NewDevice, mab_columns, accepts_device, device_row, append_row, with_row,
  insert_mab_device, bulk_insert_mab_device, as_enabled,
}
use openradiusweb.Gateway.Mab.Service.{
  device, create_mab_device, log_update, update_given, update_mab_device, delete_mab_device,
  import_one, import_all, log_import, bulk_import,
}

-- A request of an actor that changes the whitelist.
pub data Request : Type 0 where
  add : NewDevice → Request
  change : Text → Updates → Request
  remove : Text → Request
  import_devices : List NewDevice → Request

abbrev done : {A : Type 0} → Exec (Table MabDevice) A → Exec (Table MabDevice) (Unit {0})
done m = m >> pure tt

unfoldable pub handle : Outside → Actor → Option Text → Request → Exec (Table MabDevice) (Unit {0})
handle o actor ip (add d) = done (create_mab_device o actor d ip)
handle o actor ip (change device_id updates) = done (update_mab_device o actor device_id updates ip)
handle o actor ip (remove device_id) = delete_mab_device o actor device_id ip
handle o actor ip (import_devices devices) = done (bulk_import o actor devices ip)

module _ (o : Outside) (tenant : Text) where
  abbrev Keeps : {A : Type 0} → Exec (Table MabDevice) A → Type 0
  Keeps m = KeepsOthers (λ r. r.tenant_id) tenant m

  with_row-Keeps :
      {A : Type 0} (sub : Text) (d : NewDevice)
      (insert : MabDevice → Bool → Exec (Table MabDevice) A) (cast : Option Text)
      → ((row : MabDevice) (taken : Bool) → row.tenant_id ≡ some tenant → Keeps (insert row taken))
      → Keeps (with_row o tenant sub d insert cast)
  unfolding KeepsOthers
  with_row-Keeps sub d insert none h t = refl
  with_row-Keeps sub d insert (some mac) h t = elim (Bool-cases (accepts_device o tenant sub d)) [
    | inl e ↦ rw e (h (device_row o t.rows mac tenant sub d) _ refl t)
    | inr e ↦ rw e refl
  ]

  append_row-Keeps : (row : MabDevice) → row.tenant_id ≡ some tenant → Keeps (append_row o row)
  unfolding KeepsOthers
  append_row-Keeps row h t =
      others-append (λ r. r.tenant_id) tenant t.rows row h (text_eq_refl tenant)

  append-Keeps :
      {A : Type 0} (row : MabDevice) (a : A)
      → row.tenant_id ≡ some tenant
      → Keeps (append_row o row >> pure a)
  append-Keeps row a h =
      >>=-KeepsOthers (λ r. r.tenant_id) tenant (append_row o row) (λ _. pure a)
        (append_row-Keeps row h) (λ _. pure-KeepsOthers (λ r. r.tenant_id) tenant a)

  insert_mab_device-Keeps : (sub : Text) (d : NewDevice) → Keeps (insert_mab_device o tenant sub d)
  unfolding insert_mab_device
  insert_mab_device-Keeps sub d =
      with_row-Keeps sub d
        (λ row taken. if taken then raise db_error else append_row o row >> pure row)
        (o.cast_macaddr d.mac_address)
        (λ row taken own.
          if-KeepsOthers (λ r. r.tenant_id) tenant taken (raise db_error)
            (append_row o row >> pure row)
            (raise-KeepsOthers (λ r. r.tenant_id) tenant MabDevice db_error)
            (append-Keeps row row own))

  bulk_insert_mab_device-Keeps :
      (sub : Text) (d : NewDevice) → Keeps (bulk_insert_mab_device o tenant sub d)
  unfolding bulk_insert_mab_device
  bulk_insert_mab_device-Keeps sub d =
      with_row-Keeps sub (as_enabled d)
        (λ row taken. if taken then pure false else append_row o row >> pure true)
        (o.cast_macaddr d.mac_address)
        (λ row taken own.
          if-KeepsOthers (λ r. r.tenant_id) tenant taken (pure false)
            (append_row o row >> pure true) (pure-KeepsOthers (λ r. r.tenant_id) tenant false)
            (append-Keeps row true own))

  module _ (actor : Actor) (own : actor.tenant_id ≡ some tenant) where
    own_tenant :
        {A : Type 0} (f : Text → Exec (Table MabDevice) A)
        → Keeps (f tenant)
        → Keeps (lift (required actor.tenant_id) >>= f)
    own_tenant f = own_tenant-KeepsOthers (λ r. r.tenant_id) tenant actor f own

    then-Keeps :
        {A B : Type 0} (m : Exec (Table MabDevice) A) (f : A → Exec (Table MabDevice) B)
        → Keeps m
        → ((a : A) → Keeps (f a))
        → Keeps (m >>= f)
    then-Keeps = >>=-KeepsOthers (λ r. r.tenant_id) tenant

    pure-Keeps : {A : Type 0} (a : A) → Keeps (pure a)
    pure-Keeps = pure-KeepsOthers (λ r. r.tenant_id) tenant

    found-Keeps : {A : Type 0} (found : Option A) → Keeps (or_not_found found)
    found-Keeps {A} none = raise-KeepsOthers (λ r. r.tenant_id) tenant A not_found_error
    found-Keeps (some a) = pure-Keeps a

    log-Keeps :
        (action : Text) (resource : Option Text) (details : Fields) (ip : Option Text)
        → Keeps (log_audit o actor action device resource details ip)
    log-Keeps action resource details ip =
        log_audit-KeepsOthers o mab_columns tenant actor action device resource details ip

    import_one-Keeps : (d : NewDevice) → Keeps (import_one o actor d)
    unfolding import_one
    import_one-Keeps d =
        own_tenant (λ t. lift (required actor.sub) >>= λ sub. bulk_insert_mab_device o t sub d)
          (lift-KeepsOthers (λ r. r.tenant_id) tenant (required actor.sub)
            (λ sub. bulk_insert_mab_device o tenant sub d)
            (λ sub e. bulk_insert_mab_device-Keeps sub d))

    import_all-Keeps : (devices : List NewDevice) (c s : ℕ) → Keeps (import_all o actor devices c s)
    unfolding import_all
    import_all-Keeps [] c s = pure-Keeps (c, s)
    import_all-Keeps (d ∷ devices) c s =
        then-Keeps (import_one o actor d)
          (λ b. import_all o actor devices (if b then c + 1 else c) (if b then s else s + 1))
          (import_one-Keeps d) (λ b. import_all-Keeps devices _ _)

    bulk_import-Keeps :
        (devices : List NewDevice) (ip : Option Text) → Keeps (bulk_import o actor devices ip)
    unfolding bulk_import
    bulk_import-Keeps devices ip =
        then-Keeps (import_all o actor devices 0 0) (log_import o actor (length devices) ip)
          (import_all-Keeps devices 0 0)
          (λ (c, s).
            then-Keeps (log_audit o actor _ device none _ ip) _ (log-Keeps _ none _ ip)
              (λ _. pure-Keeps _))

    create_mab_device-Keeps :
        (d : NewDevice) (ip : Option Text) → Keeps (create_mab_device o actor d ip)
    unfolding create_mab_device
    create_mab_device-Keeps d ip = own_tenant _ (
        lift-KeepsOthers (λ r. r.tenant_id) tenant (required actor.sub) _
          (λ sub e.
            then-Keeps (insert_mab_device o tenant sub d) _ (insert_mab_device-Keeps sub d) (λ row.
              then-Keeps (log_audit o actor _ device (some row.id) _ ip) _
                (log-Keeps _ (some row.id) _ ip) (λ _. pure-Keeps row))))

    delete_mab_device-Keeps :
        (device_id : Text) (ip : Option Text) → Keeps (delete_mab_device o actor device_id ip)
    unfolding delete_mab_device
    delete_mab_device-Keeps device_id ip = own_tenant _ (
        then-Keeps (lookup_row o mab_columns tenant device_id) _
          (lookup_row-KeepsOthers o mab_columns tenant device_id)
          (λ found. then-Keeps (or_not_found found) _ (found-Keeps found) (λ existing.
            then-Keeps (delete_row o mab_columns tenant device_id) _
              (delete_row-KeepsOthers o mab_columns tenant device_id)
              (λ _. log-Keeps _ (some device_id) _ ip))))

    log_update-Keeps :
        (device_id : Text) (updates : Updates) (ip : Option Text) (existing : MabDevice)
        (row : Option MabDevice)
        → Keeps (log_update o actor device_id updates ip existing row)
    log_update-Keeps device_id updates ip existing none =
        raise-KeepsOthers (λ r. r.tenant_id) tenant MabDevice not_found_error
    log_update-Keeps device_id updates ip existing (some row) =
        then-Keeps (log_audit o actor _ device (some device_id) _ ip) _
          (log-Keeps _ (some device_id) _ ip) (λ _. pure-Keeps row)

    update_given-Keeps :
        (device_id : Text) (updates : Updates) (ip : Option Text)
        → Keeps (update_given o actor device_id updates ip)
    update_given-Keeps device_id updates ip = own_tenant _ (
        then-Keeps (lookup_row o mab_columns tenant device_id) _
          (lookup_row-KeepsOthers o mab_columns tenant device_id)
          (λ found. then-Keeps (or_not_found found) _ (found-Keeps found) (λ existing.
            then-Keeps
              (catch (update_row o mab_columns tenant device_id updates)
                (λ e. raise (no_valid_fields e)))
              _
              (catch-KeepsOthers (λ r. r.tenant_id) tenant _ no_valid_fields
                (update_row-KeepsOthers o mab_columns tenant device_id updates))
              (log_update-Keeps device_id updates ip existing))))

    update_mab_device-Keeps :
        (device_id : Text) (updates : Updates) (ip : Option Text)
        → Keeps (update_mab_device o actor device_id updates ip)
    unfolding update_mab_device
    update_mab_device-Keeps device_id [] ip =
        raise-KeepsOthers (λ r. r.tenant_id) tenant MabDevice validation_error
    update_mab_device-Keeps device_id (u ∷ updates) ip =
        update_given-Keeps device_id (u ∷ updates) ip

    done-Keeps : {A : Type 0} (m : Exec (Table MabDevice) A) → Keeps m → Keeps (done m)
    done-Keeps m h = then-Keeps m _ h (λ _. pure-Keeps tt)

    handle-Keeps : (ip : Option Text) (r : Request) → Keeps (handle o actor ip r)
    unfolding handle
    handle-Keeps ip (add d) =
        done-Keeps (create_mab_device o actor d ip) (create_mab_device-Keeps d ip)
    handle-Keeps ip (change device_id updates) =
        done-Keeps (update_mab_device o actor device_id updates ip)
          (update_mab_device-Keeps device_id updates ip)
    handle-Keeps ip (remove device_id) = delete_mab_device-Keeps device_id ip
    handle-Keeps ip (import_devices devices) =
        done-Keeps (bulk_import o actor devices ip) (bulk_import-Keeps devices ip)

-- Whatever comes of a request of an actor of a tenant, to add, change, remove or import devices, the
-- rows of all other tenants are as before, whatever identifiers and fields the request names.
pub handle-others :
    (o : Outside) (tenant : Text) (actor : Actor) (ip : Option Text) (r : Request)
    (t : Table MabDevice)
    → actor.tenant_id ≡ some tenant
    → others (λ d. d.tenant_id) tenant (handle o actor ip r t).1.rows
      ≡ others (λ d. d.tenant_id) tenant t.rows
unfolding KeepsOthers
handle-others o tenant actor ip r t own = handle-Keeps o tenant actor own ip r t
