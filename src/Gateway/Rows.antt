-- ===== src/Gateway/Rows.antt =====
-- services/gateway: what the features on tables of a tenant share. A table is a list of rows with an
-- identifier and a tenant; `Columns` is what a feature says of its rows.
pub mod Assign
pub mod Tenants
use openradiusweb.Prelude.{
  ◌≡◌, ℕ, Bool, true, false, not, ◌&&◌, Option, none, some, List, [], ◌∷◌, ◌++◌, keep_if, first,
  map, any, if◌then◌else◌, ltb, leb, length,
}
use openradiusweb.Prelude.Text.{Text, text_eq, text_in}
use openradiusweb.Prelude.Result.{
  Exn, Result, ok, err, db_error, value_error, validation_error, not_found_error,
}
use openradiusweb.Prelude.Exec.{Exec, pure, raise, lift, gets, modify, ◌>>=◌, ◌>>◌}
use openradiusweb.Value.{Value, null, bool, str, num, Fields, field, end}
use openradiusweb.Gateway.Audit.{Audit, Actor, write_audit}
use openradiusweb.Gateway.Sql.{build_safe_set_clause}

-- A parameter of a statement.
pub data Param : Type 0 where
  nothing : Param
  text : Text → Param
  number : ℕ → Param
  flag : Bool → Param
  time : ℕ → Param

abbrev pub Updates : Type 0
Updates = List (Text × Param)

-- What stands outside: the clock, the casts of the database to uuid, inet, macaddr and cidr, its
-- order of texts, the identifier that it gives to a new row beside those that are there, whether a
-- row of a table (by its name) has an identifier, and `str` of a time.
pub record Outside : Type 0 where
  pub now : ℕ
  pub is_uuid : Text → Bool
  pub is_inet : Text → Bool
  pub cast_macaddr : Text → Option Text
  pub cast_cidr : Text → Option Text
  pub collate : Text → Text → Bool
  pub new_id : List Text → Text
  pub refers : Text → Text → Bool
  pub show_time : ℕ → Text

-- A table, and the audit log.
pub record Table (R : Type 0) : Type 0 where
  pub rows : List R
  pub audit_log : List Audit

-- A column of INTEGER, and one of VARCHAR(n) that may be NULL.
abbrev pub fits_integer : ℕ → Bool
fits_integer n = ltb n 2147483648

abbrev pub fits : ℕ → Option Text → Bool
fits n none = true
fits n (some t) = leb (length t) n

abbrev pub fits_number : Option ℕ → Bool
fits_number none = true
fits_number (some n) = fits_integer n

abbrev pub after : {A B : Type 0} → Result A → (A → Result B) → Result B
after (ok a) f = f a
after (err e) f = err e

-- The columns that the assignment of an allowed column leaves.
abbrev pub SameKeys : {R : Type 0} → (R → Text) → (R → Option Text) → R → Result R → Type 0
SameKeys id tenant_id r (ok s) = (id s ≡ id r) × (tenant_id s ≡ tenant_id r)
SameKeys id tenant_id r (err e) = Unit

-- The rows of a feature: their identifier and tenant, the columns that `safe_sql` allows, the
-- assignment of one of any column, which may be refused, and the constraints UNIQUE.
pub record Columns (R : Type 0) : Type 0 where
  pub id : R → Text
  pub tenant_id : R → Option Text
  pub allowed : List Text
  pub assign : Text → Param → R → Result R
  pub clash : R → R → Bool
  pub assign-SameKeys :
      (column : Text) (v : Param) (r : R)
      → text_in column allowed ≡ true
      → SameKeys id tenant_id r (assign column v r)

abbrev pub same_opt : Option Text → Text → Bool
same_opt none t = false
same_opt (some s) t = text_eq s t

-- JSON of a parameter, by `json.dumps(…, default=str)`.
abbrev pub param_value : Outside → Param → Value
param_value o nothing = null
param_value o (text t) = str t
param_value o (number n) = num n
param_value o (flag b) = bool b
param_value o (time t) = str (o.show_time t)

abbrev pub updates_fields : Outside → Updates → Fields
updates_fields o [] = end
updates_fields o ((k, v) ∷ rest) = field k (param_value o v) (updates_fields o rest)

abbrev pub opt_value : Option Text → Value
opt_value none = null
opt_value (some t) = str t

-- `except ValueError` round an update.
abbrev pub no_valid_fields : Exn → Exn
no_valid_fields value_error = validation_error
no_valid_fields e = e

-- `get_db`: a request that raises is rolled back, any other is committed.
abbrev end_request : {S A : Type 0} → Result A → S → S → Result A × S
end_request (ok a) changed before = (ok a, changed)
end_request (err e) changed before = (err e, before)

unfoldable pub get_db : {S A : Type 0} → Exec S A → Exec S A
get_db request before = let (r, changed) = request before in end_request r changed before

-- `if not row: raise NotFoundError`.
abbrev pub or_not_found : {R A : Type 0} → Option A → Exec (Table R) A
or_not_found none = raise not_found_error
or_not_found (some a) = pure a

module _ (o : Outside) {R : Type 0} where
  -- `log_audit`.
  unfoldable pub log_audit :
      Actor → Text → Text → Option Text → Fields → Option Text → Exec (Table R) (Unit {0})
  unfolding write_audit
  log_audit =
      write_audit o.is_uuid o.is_inet (λ a t. record t { audit_log = t.audit_log ++ a ∷ [] })

  -- A statement with the tenant for a parameter, which a text that is no uuid makes raise.
  abbrev pub by_uuid : {A : Type 0} → Text → Exec (Table R) A → Exec (Table R) A
  by_uuid tenant m = if o.is_uuid tenant then m else raise db_error

  module _ (c : Columns R) where
    -- `WHERE id = :id AND tenant_id = :tenant_id`.
    abbrev pub is_row : Text → Text → R → Bool
    is_row tenant row_id r = text_eq (c.id r) row_id && same_opt (c.tenant_id r) tenant

    unfoldable pub lookup_row : Text → Text → Exec (Table R) (Option R)
    lookup_row tenant row_id =
        by_uuid tenant (gets (λ t. first (keep_if (is_row tenant row_id) t.rows)))

    -- The assignments of a SET clause.
    unfoldable pub set_columns : Updates → R → Result R
    set_columns [] r = ok r
    set_columns ((column, v) ∷ params) r = after (c.assign column v r) (set_columns params)

    abbrev pub add_row : Result R → Result (List R) → Result (List R)
    add_row r rest = after r (λ s. after rest (λ rows. ok (s ∷ rows)))

    -- A row that a UNIQUE forbids beside another row of the table.
    abbrev pub clashes : List R → R → Bool
    clashes rows r = any (λ s. c.clash s r && not (text_eq (c.id s) (c.id r))) rows

    abbrev pub unless_clash : List R → R → Result R
    unless_clash rows r = if clashes rows r then err db_error else ok r

    -- The rows after an UPDATE of the row of an identifier and a tenant, in a table.
    unfoldable pub set_rows : List R → Text → Text → Updates → List R → Result (List R)
    unfolding set_columns
    set_rows table tenant row_id params [] = ok []
    set_rows table tenant row_id params (r ∷ rows) =
        add_row
          (if is_row tenant row_id r
            then after (set_columns params r) (unless_clash table)
            else ok r)
          (set_rows table tenant row_id params rows)

    abbrev pub store_rows : Text → Text → Result (List R) → Exec (Table R) (Option R)
    store_rows tenant row_id (err e) = raise e
    store_rows tenant row_id (ok rows) = do
      modify (λ t. record t { rows = rows })
      pure (first (keep_if (is_row tenant row_id) rows))

    -- `UPDATE … SET {set_clause} WHERE id = :id AND tenant_id = :tenant_id RETURNING …`.
    abbrev pub execute_update : Text → Text → Text × Updates → Exec (Table R) (Option R)
    execute_update tenant row_id (clause, params) =
        by_uuid tenant
          (gets (λ t. set_rows t.rows tenant row_id params t.rows) >>= store_rows tenant row_id)

    -- An update of the repository; it raises ValueError where no column is allowed.
    unfoldable pub update_row : Text → Text → Updates → Exec (Table R) (Option R)
    unfolding build_safe_set_clause set_rows
    update_row tenant row_id updates =
        lift (build_safe_set_clause c.allowed [] [] updates) >>= execute_update tenant row_id

    -- `DELETE FROM … WHERE id = :id AND tenant_id = :tenant_id`.
    unfoldable pub delete_row : Text → Text → Exec (Table R) (Unit {0})
    delete_row tenant row_id =
        by_uuid tenant
          (modify (λ t. record t { rows = keep_if (λ r. not (is_row tenant row_id r)) t.rows }))
