-- ===== src/Gateway/Auth/Tests.antt =====
-- The theorems on logins and accounts at concrete users and counters.
use openradiusweb.Prelude.{List, any, ◌++◌}
use openradiusweb.Prelude.Exec.{Exec}
use openradiusweb.Prelude.Text.{Text}
use openradiusweb.Value.{Value, str}
use openradiusweb.Gateway.Auth.Update.{update_user}
use openradiusweb.Gateway.Auth.Kept.{Kept, update_user-Kept}
use openradiusweb.Prelude.{◌≡◌, refl, ◌≤◌, true, false, none, some, [], ◌∷◌, arith}
use openradiusweb.Prelude.Text.{codes, text_eq}
use openradiusweb.Prelude.Result.{ok, err, rate_limit_error, conflict_error}
use openradiusweb.Prelude.Dict.{put, get_entry, remove}
use openradiusweb.Gateway.Auth.Redis.{Entry, find, incr, expire, key_exists, delete_key}
use openradiusweb.Gateway.Auth.Tables.{
  User, World, Actor, Outside, verify_password, log_audit, lookup_user_for_login, update_where,
  update_last_login,
}
use openradiusweb.Gateway.Auth.Login.{
  fail_key, lockout_key, count_up, check_ip_rate, check_lockout, clear_login_failures,
  create_access_token, login_succeeded, login,
}
use openradiusweb.Gateway.Auth.Users.{create_user}
use openradiusweb.Gateway.Auth.Lockout.{
  named, counted, attempts, is_locked, login-ok, login-lockout, login-is_locked,
}
use openradiusweb.Gateway.Auth.Invariants.{IsUnique, create_user-IsUnique}

abbrev bob : User
bob = record {
  id = codes "1";
  username = codes "bob";
  email = none;
  password_hash = codes "pw";
  role = codes "admin";
  tenant_id = codes "t";
  enabled = true;
  last_login = none;
  created_at = 0;
}

abbrev at_noon : Outside
at_noon = record {
  now = 1000;
  checkpw = λ plain hashed. ok (text_eq plain hashed);
  hash_password = λ plain. plain;
  encode_token = λ id name role tenant life. id;
  jwt_expire_minutes = 60;
  same_name = text_eq;
  is_uuid = λ _. true;
  is_inet = λ _. true;
  new_id = codes "2";
  default_tenant = codes "t";
}

abbrev later : Outside
later = record at_noon { now = 1800 }

-- Four failures that count until 1500.
abbrev four : Entry
four = record { value = 4; expires = some 1500 }

abbrev with_bob : World
with_bob = record {
  users = bob ∷ [];
  user_preferences = [];
  audit_log = [];
  redis = (fail_key (codes "bob"), four) ∷ [];
}

-- The same after a lock until 1900.
abbrev bob_locked : World
bob_locked = record with_bob {
  redis = (lockout_key (codes "bob"), record { value = 0; expires = some 1900 }) ∷ [];
}

bob_gets_in :
    (login at_noon (codes "bob") (codes "pw") (codes "10.0.0.9") with_bob).0
    ≡ ok (create_access_token at_noon bob)
unfolding login check_ip_rate check_lockout count_up incr expire find key_exists put get_entry
    lookup_user_for_login login_succeeded clear_login_failures delete_key remove update_last_login
    update_where log_audit verify_password
bob_gets_in = refl

login-ok_example :
    (attempts at_noon (codes "10.0.0.9") with_bob ≤ 20)
    × (is_locked at_noon (codes "bob") with_bob ≡ false)
    × (u : User) × (named at_noon (codes "bob") with_bob.users ≡ some u)
    × (u.enabled ≡ true)
    × (verify_password at_noon (codes "pw") u.password_hash ≡ true)
    × (create_access_token at_noon bob ≡ create_access_token at_noon u)
login-ok_example =
    login-ok at_noon (codes "bob") (codes "pw") (codes "10.0.0.9") with_bob
      (create_access_token at_noon bob) bob_gets_in

login-lockout_example :
    (login later
      (codes "bob")
      (codes "pw")
      (codes "10.0.0.8")
      (login at_noon (codes "bob") (codes "no") (codes "10.0.0.9") with_bob).1).0
    ≡ err rate_limit_error
unfolding count_up incr find get_entry key_exists verify_password
login-lockout_example =
    login-lockout at_noon later (codes "bob") (codes "no") (codes "10.0.0.9") (codes "pw")
      (codes "10.0.0.8") with_bob four refl refl refl refl (ground arith) (ground arith)

login-is_locked_example :
    login at_noon (codes "bob") (codes "pw") (codes "10.0.0.9") bob_locked
    ≡ (err rate_limit_error, counted at_noon (codes "10.0.0.9") bob_locked)
unfolding key_exists find get_entry
login-is_locked_example =
    login-is_locked at_noon (codes "bob") (codes "pw") (codes "10.0.0.9") bob_locked refl

abbrev bob_acts : Actor
bob_acts = record { sub = some (codes "1"); tenant_id = some (codes "t") }

abbrev asked : Exec World User
asked = create_user at_noon bob_acts (codes "eve") none (codes "pw") (codes "viewer")

create_user-IsUnique_example :
    IsUnique at_noon (asked with_bob).1.users
    × (any (λ u. at_noon.same_name u.username (codes "eve")) with_bob.users ≡ true
        → asked with_bob ≡ (err conflict_error, with_bob))
    × ((user : User)
        → (asked with_bob).0 ≡ ok user
        → ((asked with_bob).1.users ≡ with_bob.users ++ user ∷ [])
          × (user.username ≡ codes "eve")
          × (any (λ u. at_noon.same_name u.username (codes "eve")) with_bob.users ≡ false))
create_user-IsUnique_example =
    create_user-IsUnique at_noon bob_acts (codes "eve") none (codes "pw") (codes "viewer") with_bob
      (tt, tt)

-- Three users.
abbrev three_users : World
three_users = record with_bob {
  users =
      bob
      ∷ record bob { id = codes "2"; created_at = 7 }
      ∷ record bob { id = codes "3"; created_at = 5 }
      ∷ [];
}

abbrev here_admin : Actor
here_admin = record { sub = some (codes "1"); tenant_id = some (codes "t") }

-- A request that names the role, and a hash of a password that no client may set.
abbrev promotion : List (Text × Value)
promotion = (codes "role", str (codes "viewer")) ∷ (codes "password_hash", str (codes "mine")) ∷ []

update_user-Kept_example :
    Kept
      (codes "3")
      three_users.users
      (update_user at_noon here_admin (codes "3") promotion three_users).1.users
update_user-Kept_example = update_user-Kept at_noon here_admin (codes "3") promotion three_users
