-- ===== src/Gateway/Auth/Update.antt =====
-- features/auth/service.py: `update_user`, with `update_user_fields` of repository.py.
use openradiusweb.Prelude.{
  Bool, true, false, Option, none, some, List, [], ◌∷◌, length, leb, keep_if, map, if◌then◌else◌,
}
use openradiusweb.Prelude.Text.{Text, codes, text_eq}
use openradiusweb.Prelude.Result.{
  Exn, Result, ok, err, value_error, db_error, validation_error, not_found_error,
}
use openradiusweb.Prelude.Exec.{Exec, pure, raise, lift, gets, modify, catch, ◌>>=◌, ◌>>◌}
use openradiusweb.Value.{Value, null, bool, str, list, of_list, field, end}
use openradiusweb.Gateway.Sql.{build_safe_set_clause}
use openradiusweb.Gateway.Auth.Tables.{User, World, Actor, Outside, by_id, user_of, log_audit}

abbrev pub user_update_columns : List Text
user_update_columns = codes "email" ∷ codes "role" ∷ codes "enabled" ∷ []

abbrev pub set_text : (Text → User → User) → Value → User → Result User
set_text f (str s) u = ok (f s u)
set_text f _ u = err db_error

abbrev pub set_role : Value → User → Result User
set_role (str s) u = if leb (length s) 20 then ok (record u { role = s }) else err db_error
set_role _ u = err db_error

abbrev pub set_enabled : Value → User → Result User
set_enabled (bool b) u = ok (record u { enabled = b })
set_enabled _ u = err db_error

-- What the database makes of the parameter of a column of `users`, none of which is NULL here. A
-- value that is not of the column's type is refused.
unfoldable pub assign : Text → Value → User → Result User
assign column v u =
    if text_eq column (codes "email")
    then set_text (λ s u'. record u' { email = some s }) v u
    else if text_eq column (codes "role")
    then set_role v u
    else if text_eq column (codes "enabled")
    then set_enabled v u
    else if text_eq column (codes "username")
    then set_text (λ s u'. record u' { username = s }) v u
    else if text_eq column (codes "password_hash")
    then set_text (λ s u'. record u' { password_hash = s }) v u
    else if text_eq column (codes "tenant_id")
    then set_text (λ s u'. record u' { tenant_id = s }) v u
    else err db_error

abbrev pub after : {A B : Type 0} → Result A → (A → Result B) → Result B
after (ok a) f = f a
after (err e) f = err e

-- The row after the assignments of the clause.
unfoldable pub set_columns : List (Text × Value) → User → Result User
unfolding assign
set_columns [] u = ok u
set_columns ((column, v) ∷ params) u = after (assign column v u) (set_columns params)

abbrev pub add_row : Result User → Result (List User) → Result (List User)
add_row r rest = after r (λ u. after rest (λ users. ok (u ∷ users)))

-- The rows of the table after the UPDATE of those with the id.
unfoldable pub set_rows : Text → List (Text × Value) → List User → Result (List User)
unfolding set_columns
set_rows user_id params [] = ok []
set_rows user_id params (u ∷ users) =
    add_row (if text_eq u.id user_id then set_columns params u else ok u)
      (set_rows user_id params users)

-- `[k for k in cleaned]`.
abbrev keys : List (Text × Value) → Value
keys updates = list (of_list (map (λ e. str (e.0)) updates))

abbrev given : Value → Bool
given null = false
given _ = true

-- `cleaned`: what is given.
abbrev pub cleaned_of : List (Text × Value) → List (Text × Value)
cleaned_of updates = keep_if (λ e. given (e.1)) updates

-- `except ValueError`.
abbrev pub no_valid_fields : Exn → Exn
no_valid_fields value_error = validation_error
no_valid_fields e = e

module _ (o : Outside) where
  abbrev pub store : Text → Result (List User) → Exec World (Option User)
  store user_id (err e) = raise e
  store user_id (ok users) = do
    modify (λ w. record w { users = users })
    pure (user_of user_id users)

  abbrev pub execute_update : Text → Text × List (Text × Value) → Exec World (Option User)
  execute_update user_id (clause, params) =
      by_id o user_id (gets (λ w. set_rows user_id params w.users) >>= store user_id)

  unfoldable pub update_user_fields : Text → List (Text × Value) → Exec World (Option User)
  unfolding build_safe_set_clause set_rows
  update_user_fields user_id updates =
      lift (build_safe_set_clause user_update_columns [] [] updates) >>= execute_update user_id

  abbrev pub log_update : Actor → Text → List (Text × Value) → Option User → Exec World User
  log_update actor user_id cleaned none = raise not_found_error
  log_update actor user_id cleaned (some user) = do
    log_audit o actor (codes "update") (codes "user") (some user_id)
        (field (codes "changed_fields") (keys cleaned) end) none
    pure user

  abbrev pub update_cleaned : Actor → Text → List (Text × Value) → Exec World User
  update_cleaned actor user_id [] = raise validation_error
  update_cleaned actor user_id (e ∷ cleaned) =
      catch (update_user_fields user_id (e ∷ cleaned)) (λ x. raise (no_valid_fields x))
      >>= log_update actor user_id (e ∷ cleaned)

  unfoldable pub update_user : Actor → Text → List (Text × Value) → Exec World User
  unfolding update_user_fields log_audit
  update_user actor user_id updates = update_cleaned actor user_id (cleaned_of updates)
