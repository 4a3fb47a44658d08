-- ===== src/Gateway/Auth/Users.antt =====
-- features/auth/service.py: accounts, by admins and by their users.
use openradiusweb.Prelude.{
  ℕ, ◌+◌, ◌-◌, ◌*◌, ◌/◌, Bool, false, Option, none, some, List, take, drop, length, ltb,
  if◌then◌else◌,
}
use openradiusweb.Prelude.Order.{order_by}
use openradiusweb.Prelude.Text.{Text, codes, text_eq}
use openradiusweb.Prelude.Result.{
  Result, ok, err, conflict_error, not_found_error, validation_error, key_error,
}
use openradiusweb.Prelude.Exec.{Exec, pure, raise, lift, gets, ◌>>=◌, ◌>>◌}
use openradiusweb.Value.{str, field, end}
use openradiusweb.Gateway.Auth.Tables.{
  User, Preferences, World, Actor, Outside, verify_password, log_audit, username_exists,
  insert_user, lookup_user, update_password_hash, update_email, delete_row, lookup_user_preferences,
  upsert_user_preferences,
}

abbrev pub same_opt : Text → Option Text → Bool
same_opt s none = false
same_opt s (some t) = text_eq s t

-- `actor["sub"]`.
abbrev sub_of : Actor → Result Text
sub_of actor = elim actor.sub [ none ↦ err key_error | some id ↦ ok id ]

module _ (o : Outside) where
  unfoldable pub create_user : Actor → Text → Option Text → Text → Text → Exec World User
  unfolding username_exists insert_user log_audit
  create_user actor username email password role = do
    taken ← username_exists o username
    if taken then raise conflict_error else (do
      user ← insert_user o username email (o.hash_password password) role
      log_audit o actor (codes "create") (codes "user") (some user.id)
          (field (codes "username") (str username) (field (codes "role") (str role) end)) none
      pure user)

  abbrev or_not_found : Bool → Exec World (Unit {0}) → Exec World (Unit {0})
  or_not_found found m = if found then m else raise not_found_error

  unfoldable pub delete_user : Actor → Text → Exec World (Unit {0})
  unfolding delete_row log_audit
  delete_user actor user_id = if same_opt user_id actor.sub then raise validation_error else (do
    found ← delete_row o user_id
    or_not_found found (log_audit o actor (codes "delete") (codes "user") (some user_id) end none))

  unfoldable pub reset_user_password : Actor → Text → Text → Exec World (Unit {0})
  unfolding update_password_hash log_audit
  reset_user_password actor user_id new_password = do
    found ← update_password_hash o user_id (o.hash_password new_password)
    or_not_found found
        (log_audit o actor (codes "reset_password") (codes "user") (some user_id) end none)

  abbrev found_user : Option User → Exec World User
  found_user none = raise not_found_error
  found_user (some u) = pure u

  unfoldable pub get_user : Text → Exec World User
  unfolding lookup_user
  get_user user_id = lookup_user o user_id >>= found_user

  abbrev change_if_right : Actor → Text → Text → Text → Option User → Exec World (Unit {0})
  change_if_right actor user_id current_password new_password none = raise not_found_error
  change_if_right actor user_id current_password new_password (some u) =
      if verify_password o current_password u.password_hash
      then (do
        update_password_hash o user_id (o.hash_password new_password)
        log_audit o actor (codes "change_password") (codes "user") (some user_id) end none)
      else raise validation_error

  unfoldable pub change_own_password : Actor → Text → Text → Exec World (Unit {0})
  unfolding lookup_user update_password_hash log_audit
  change_own_password actor current_password new_password = do
    user_id ← lift (sub_of actor)
    user ← lookup_user o user_id
    change_if_right actor user_id current_password new_password user

  unfoldable pub update_own_email : Actor → Text → Exec World (Unit {0})
  unfolding update_email log_audit
  update_own_email actor email = do
    user_id ← lift (sub_of actor)
    update_email o user_id email
    log_audit o actor (codes "update_email") (codes "user") (some user_id)
        (field (codes "new_email") (str email) end) none

  unfoldable pub get_profile_with_preferences : Text → Exec World (User × Option Preferences)
  unfolding get_user lookup_user_preferences
  get_profile_with_preferences user_id = do
    user ← get_user user_id
    prefs ← lookup_user_preferences o user_id
    pure (user, prefs)

  unfoldable pub upsert_own_preferences : Actor → (Text → Preferences) → Exec World (Unit {0})
  unfolding upsert_user_preferences
  upsert_own_preferences actor prefs = do
    user_id ← lift (sub_of actor)
    upsert_user_preferences o (prefs user_id)

-- The number of pages of `list_users`, and a page of the rows.
unfoldable pub pages_of : ℕ → ℕ → ℕ
pages_of total page_size = if ltb 0 total then (total + page_size - 1) / page_size else 0

unfoldable pub page_of {ℓ} : {A : Type ℓ} → ℕ → ℕ → List A → List A
page_of page page_size rows = take page_size (drop ((page - 1) * page_size) rows)

-- `list_users_paginated` without its limit: the newest first.
unfoldable pub newest : List User → List User
newest = order_by (λ a b. ltb b.created_at a.created_at)

-- What `list_users` answers.
pub record UserPage : Type 0 where
  pub items : List User
  pub total : ℕ
  pub page : ℕ
  pub page_size : ℕ
  pub pages : ℕ

abbrev pub users_page : ℕ → ℕ → World → UserPage
users_page page page_size w = record {
  items = page_of page page_size (newest w.users);
  total = length w.users;
  page = page;
  page_size = page_size;
  pages = pages_of (length w.users) page_size;
}

pub list_users : ℕ → ℕ → Exec World UserPage
list_users page page_size = gets (users_page page page_size)
