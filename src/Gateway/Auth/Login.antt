-- ===== src/Gateway/Auth/Login.antt =====
-- features/auth/service.py: `login`, with the counters that slow it down.
use openradiusweb.Prelude.{
  ℕ, ◌*◌, Bool, false, ◌&&◌, Option, none, some, ◌++◌, ◌==◌, ltb, leb, if◌then◌else◌,
}
use openradiusweb.Prelude.Text.{Text, codes}
use openradiusweb.Prelude.Result.{ok, rate_limit_error, authentication_error}
use openradiusweb.Prelude.Exec.{Exec, pure, raise, gets, modify, ◌>>=◌, ◌>>◌}
use openradiusweb.Value.{num, str, field, end}
use openradiusweb.Gateway.Auth.Redis.{Store, incr, expire, key_exists, setex, delete_key}
use openradiusweb.Gateway.Auth.Tables.{
  User, World, Outside, verify_password, log_audit, lookup_user_for_login, update_last_login,
}

abbrev pub ip_rate_limit : ℕ
ip_rate_limit = 20

abbrev pub ip_rate_ttl : ℕ
ip_rate_ttl = 60

abbrev pub fail_lockout_threshold : ℕ
fail_lockout_threshold = 5

abbrev pub fail_lockout_ttl : ℕ
fail_lockout_ttl = 900

abbrev pub rate_key : Text → Text
rate_key client_ip = codes "orw:login_rate:" ++ client_ip

abbrev pub fail_key : Text → Text
fail_key username = codes "orw:login_fail:" ++ username

abbrev pub lockout_key : Text → Text
lockout_key username = codes "orw:lockout:" ++ username

-- A counter goes up, and gets its expiry when it is new.
unfoldable pub count_up : ℕ → Text → ℕ → Store → ℕ × Store
unfolding incr expire
count_up now key ttl s =
    let (count, counted) = incr now key s in
    (count, if count == 1 then expire now key ttl counted else counted)

abbrev on_redis : {A : Type 0} → (Store → A × Store) → Exec World A
on_redis f w = let (a, s) = f w.redis in (ok a, record w { redis = s })

module _ (o : Outside) where
  unfoldable pub check_ip_rate : Text → Exec World (Unit {0})
  unfolding count_up
  check_ip_rate client_ip = do
    count ← on_redis (count_up o.now (rate_key client_ip) ip_rate_ttl)
    if ltb ip_rate_limit count then raise rate_limit_error else pure tt

  unfoldable pub check_lockout : Text → Exec World (Unit {0})
  unfolding key_exists
  check_lockout username = do
    locked ← gets (λ w. key_exists o.now (lockout_key username) w.redis)
    if locked then raise rate_limit_error else pure tt

  -- The value "locked" is written as 0: it is never read.
  unfoldable pub record_failed_login : Text → Exec World ℕ
  unfolding count_up setex
  record_failed_login username = do
    count ← on_redis (count_up o.now (fail_key username) fail_lockout_ttl)
    if leb fail_lockout_threshold count
        then (modify (λ w. record w {
          redis = setex o.now (lockout_key username) fail_lockout_ttl 0 w.redis;
        })
            >> pure count)
        else pure count

  unfoldable pub clear_login_failures : Text → Exec World (Unit {0})
  unfolding delete_key
  clear_login_failures username = modify (λ w. record w {
    redis = delete_key (lockout_key username) (delete_key (fail_key username) w.redis);
  })

  abbrev pub is_right : Text → Option User → Bool
  is_right password none = false
  is_right password (some u) = u.enabled && verify_password o password u.password_hash

  unfoldable pub login_failed : Text → Text → Exec World (Text × ℕ)
  unfolding record_failed_login log_audit
  login_failed username client_ip = do
    attempt ← record_failed_login username
    log_audit o (record { sub = none; tenant_id = none }) (codes "login_failed") (codes "auth") none
        (field (codes "username") (str username) (field (codes "attempt") (num attempt) end))
        (some client_ip)
    raise authentication_error

  -- `create_access_token`: the token and the seconds of its life.
  unfoldable pub create_access_token : User → Text × ℕ
  create_access_token u = (
    o.encode_token u.id u.username u.role u.tenant_id (o.jwt_expire_minutes * 60),
    o.jwt_expire_minutes * 60,
  )

  unfoldable pub login_succeeded : Text → Text → User → Exec World (Text × ℕ)
  unfolding clear_login_failures update_last_login log_audit create_access_token
  login_succeeded username client_ip user = do
    clear_login_failures username
    update_last_login o user.id
    log_audit o (record { sub = some user.id; tenant_id = some user.tenant_id })
        (codes "login_success") (codes "auth") none
        (field (codes "username") (str user.username) end) (some client_ip)
    pure (create_access_token user)

  abbrev pub answer : Text → Text → Text → Option User → Exec World (Text × ℕ)
  answer username password client_ip none = login_failed username client_ip
  answer username password client_ip (some user) =
      if user.enabled && verify_password o password user.password_hash
      then login_succeeded username client_ip user
      else login_failed username client_ip

  unfoldable pub login : Text → Text → Text → Exec World (Text × ℕ)
  unfolding check_ip_rate check_lockout lookup_user_for_login
  login username password client_ip = do
    check_ip_rate client_ip
    check_lockout username
    user ← lookup_user_for_login o username
    answer username password client_ip user
