-- ===== src/Gateway/Auth/Tables.antt =====
-- features/auth/repository.py and utils/audit.py: the rows, the queries, and the state of the feature.
use openradiusweb.Prelude.{
  ℕ, Bool, true, false, Option, none, some, List, [], ◌∷◌, ◌++◌, keep_if, first, map, any, not,
  if◌then◌else◌,
}
use openradiusweb.Prelude.Text.{Text, text_eq}
use openradiusweb.Prelude.Result.{Result, ok, err, db_error}
use openradiusweb.Prelude.Exec.{Exec, pure, raise, gets, modify, ◌>>=◌, ◌>>◌}
use openradiusweb.Value.{Fields}
pub use openradiusweb.Gateway.Audit.{Audit, Actor, castable}
use openradiusweb.Gateway.Audit.{entry_casts, write_audit}
use openradiusweb.Gateway.Auth.Redis.{Store}

-- A row of `users`.
pub record User : Type 0 where
  pub id : Text
  pub username : Text
  pub email : Option Text
  pub password_hash : Text
  pub role : Text
  pub tenant_id : Text
  pub enabled : Bool
  pub last_login : Option ℕ
  pub created_at : ℕ

-- A row of `user_preferences`.
pub record Preferences : Type 0 where
  pub user_id : Text
  pub timezone : Text
  pub language : Text
  pub theme : Text
  pub notifications_enabled : Bool

pub record World : Type 0 where
  pub users : List User
  pub user_preferences : List Preferences
  pub audit_log : List Audit
  pub redis : Store

-- What stands outside: the clock in seconds, bcrypt, the encoding of tokens with their life in
-- minutes, which names the database
-- takes for one (the column is of the type citext), which texts it casts to uuid and to inet, the identifier that it gives to a new
-- row, and the tenant `default`.
pub record Outside : Type 0 where
  pub now : ℕ
  pub checkpw : Text → Text → Result Bool
  pub hash_password : Text → Text
  pub encode_token : Text → Text → Text → Text → ℕ → Text
  pub jwt_expire_minutes : ℕ
  pub same_name : Text → Text → Bool
  pub is_uuid : Text → Bool
  pub is_inet : Text → Bool
  pub new_id : Text
  pub default_tenant : Text

abbrev pub user_of : Text → List User → Option User
user_of user_id users = first (keep_if (λ u. text_eq u.id user_id) users)

module _ (o : Outside) where
  -- `verify_password`: what bcrypt raises counts as no.
  unfoldable pub verify_password : Text → Text → Bool
  verify_password plain hashed = elim (o.checkpw plain hashed) [ ok b ↦ b | err e ↦ false ]

  abbrev pub casts : Actor → Option Text → Option Text → Bool
  casts = entry_casts o.is_uuid o.is_inet

  unfoldable pub log_audit :
      Actor → Text → Text → Option Text → Fields → Option Text → Exec World (Unit {0})
  unfolding write_audit
  log_audit =
      write_audit o.is_uuid o.is_inet (λ a w. record w { audit_log = w.audit_log ++ a ∷ [] })

  -- `lookup_user_for_login` and `username_exists`.
  unfoldable pub lookup_user_for_login : Text → Exec World (Option User)
  lookup_user_for_login username =
      gets (λ w. first (keep_if (λ u. o.same_name u.username username) w.users))

  unfoldable pub username_exists : Text → Exec World Bool
  username_exists username = gets (λ w. any (λ u. o.same_name u.username username) w.users)

  -- A query by the column `id`, which a text that is no uuid makes raise.
  abbrev pub by_id : {A : Type 0} → Text → Exec World A → Exec World A
  by_id user_id m = if o.is_uuid user_id then m else raise db_error

  unfoldable pub lookup_user : Text → Exec World (Option User)
  lookup_user user_id = by_id user_id (gets (λ w. user_of user_id w.users))

  -- An UPDATE of the rows of an id, and whether there was one.
  abbrev pub change : Text → (User → User) → List User → List User
  change user_id f users = map (λ u. if text_eq u.id user_id then f u else u) users

  unfoldable pub update_where : Text → (User → User) → Exec World Bool
  update_where user_id f = by_id user_id (do
    found ← gets (λ w. any (λ u. text_eq u.id user_id) w.users)
    modify (λ w. record w { users = change user_id f w.users })
    pure found)

  unfoldable pub update_password_hash : Text → Text → Exec World Bool
  unfolding update_where
  update_password_hash user_id hash = update_where user_id (λ u. record u { password_hash = hash })

  unfoldable pub update_email : Text → Text → Exec World Bool
  unfolding update_where
  update_email user_id email = update_where user_id (λ u. record u { email = some email })

  unfoldable pub update_last_login : Text → Exec World Bool
  unfolding update_where
  update_last_login user_id = update_where user_id (λ u. record u { last_login = some o.now })

  unfoldable pub delete_row : Text → Exec World Bool
  delete_row user_id = by_id user_id (do
    found ← gets (λ w. any (λ u. text_eq u.id user_id) w.users)
    modify (λ w. record w { users = keep_if (λ u. not (text_eq u.id user_id)) w.users })
    pure found)

  -- The unique index on `username` makes an INSERT of a name that is there raise.
  unfoldable pub insert_user : Text → Option Text → Text → Text → Exec World User
  insert_user username email hash role = do
    taken ← gets (λ w. any (λ u. o.same_name u.username username) w.users)
    let user : User = record {
      id = o.new_id;
      username = username;
      email = email;
      password_hash = hash;
      role = role;
      tenant_id = o.default_tenant;
      enabled = true;
      last_login = none;
      created_at = o.now;
    } in
        if taken
        then raise db_error
        else modify (λ w. record w { users = w.users ++ user ∷ [] }) >> pure user

  unfoldable pub lookup_user_preferences : Text → Exec World (Option Preferences)
  lookup_user_preferences user_id =
      by_id user_id
        (gets (λ w. first (keep_if (λ p. text_eq p.user_id user_id) w.user_preferences)))

  unfoldable pub upsert_row : Preferences → List Preferences → List Preferences
  upsert_row p [] = p ∷ []
  upsert_row p (q ∷ rows) =
      let later = upsert_row p rows in if text_eq q.user_id p.user_id then p ∷ rows else q ∷ later

  unfoldable pub upsert_user_preferences : Preferences → Exec World (Unit {0})
  unfolding upsert_row
  upsert_user_preferences p =
      by_id p.user_id
        (modify (λ w. record w { user_preferences = upsert_row p w.user_preferences }))
