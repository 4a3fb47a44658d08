-- ===== src/Gateway/Auth/Lockout.antt =====
-- features/auth/service.py: who gets in by `login`, and who is kept out, and for how long.
use openradiusweb.Prelude.{
  ℕ, suc, ◌+◌, ◌<◌, ◌≤◌, ◌≡◌, refl, ◌∙◌, sym, ap, ◌⊎◌, inl, inr, Bool, true, false, ◌&&◌, Option,
  none, some, List, ltb, leb, if◌then◌else◌, is_some, Bool-cases, arith, &&_true, keep_if, first,
}
use openradiusweb.Prelude.Text.{Text}
use openradiusweb.Prelude.Result.{
  Exn, Result, ok, err, rate_limit_error, authentication_error, db_error,
}
use openradiusweb.Gateway.Auth.Redis.{Entry, Store, find, key_exists, setex, delete_key}
use openradiusweb.Gateway.Auth.Tables.{
  User, Audit, World, Outside, verify_password, log_audit, lookup_user_for_login, update_last_login,
  update_where,
}
use openradiusweb.Gateway.Auth.Login.{
  rate_key, fail_key, lockout_key, ip_rate_limit, ip_rate_ttl, fail_lockout_ttl,
  fail_lockout_threshold, count_up, check_ip_rate, check_lockout, record_failed_login,
  clear_login_failures, is_right, login_failed, create_access_token, login_succeeded, answer, login,
}
use openradiusweb.Gateway.Auth.Counters.{count_up-other, count_up_value, setex-key_exists}

ok-injective : {A : Type 0} (a b : A) → ok a ≡ ok b → a ≡ b
ok-injective a b h = cc

-- The user that a name stands for.
abbrev pub named : Outside → Text → List User → Option User
named o username users = first (keep_if (λ u. o.same_name u.username username) users)

-- The store after the counter of the address.
abbrev pub counted : Outside → Text → World → World
counted o client_ip w = record w {
  redis = (count_up o.now (rate_key client_ip) ip_rate_ttl w.redis).1;
}

abbrev pub attempts : Outside → Text → World → ℕ
attempts o client_ip w = (count_up o.now (rate_key client_ip) ip_rate_ttl w.redis).0

abbrev pub is_locked : Outside → Text → World → Bool
is_locked o username w = key_exists o.now (lockout_key username) w.redis

module _ (o : Outside) where
  -- The counter of addresses does not touch the locks of accounts.
  counted-is_locked :
      (username client_ip : Text) (w : World)
      → is_locked o username (counted o client_ip w) ≡ is_locked o username w
  unfolding key_exists
  counted-is_locked username client_ip w =
      ap is_some
        (count_up-other o.now (rate_key client_ip) (lockout_key username) ip_rate_ttl w.redis refl)

  -- An address with too many attempts.
  pub login-limited :
      (username password client_ip : Text) (w : World)
      → ltb ip_rate_limit (attempts o client_ip w) ≡ true
      → login o username password client_ip w ≡ (err rate_limit_error, counted o client_ip w)
  unfolding login check_ip_rate
  login-limited username password client_ip w h = rw h refl

  -- A locked account.
  pub login-locked :
      (username password client_ip : Text) (w : World)
      → ltb ip_rate_limit (attempts o client_ip w) ≡ false
      → is_locked o username w ≡ true
      → login o username password client_ip w ≡ (err rate_limit_error, counted o client_ip w)
  unfolding login check_ip_rate check_lockout
  login-locked username password client_ip w h k =
      rw (h, counted-is_locked username client_ip w ∙ k) refl

  -- Any other attempt.
  pub login-free :
      (username password client_ip : Text) (w : World)
      → ltb ip_rate_limit (attempts o client_ip w) ≡ false
      → is_locked o username w ≡ false
      → login o username password client_ip w
        ≡ answer o username password client_ip (named o username w.users) (counted o client_ip w)
  unfolding login check_ip_rate check_lockout lookup_user_for_login
  login-free username password client_ip w h k =
      rw (h, counted-is_locked username client_ip w ∙ k) refl

  -- A locked account stays out, whatever the password, and no row is read or written for it.
  pub login-is_locked :
      (username password client_ip : Text) (w : World)
      → is_locked o username w ≡ true
      → login o username password client_ip w ≡ (err rate_limit_error, counted o client_ip w)
  login-is_locked username password client_ip w k =
      elim (Bool-cases (ltb ip_rate_limit (attempts o client_ip w))) [
        | inl e ↦ login-limited username password client_ip w e
        | inr e ↦ login-locked username password client_ip w e k
      ]

module _ (o : Outside) where
  -- The number of failures, and the store.
  abbrev pub failures : Text → Store → ℕ × Store
  failures username s =
      let (count, up) = count_up o.now (fail_key username) fail_lockout_ttl s in
      (
        count,
        if leb fail_lockout_threshold count
            then setex o.now (lockout_key username) fail_lockout_ttl 0 up
            else up,
      )

  record_failed_login_lem :
      (username : Text) (w : World)
      → record_failed_login o username w
        ≡ (ok (failures username w.redis).0, record w { redis = (failures username w.redis).1 })
  unfolding record_failed_login
  record_failed_login_lem username w =
      elim (Bool-cases (
        leb fail_lockout_threshold
          (count_up o.now (fail_key username) fail_lockout_ttl w.redis).0)) [
            | inl e ↦ rw e refl
            | inr e ↦ rw e refl
          ]

  -- A failure raises, whatever becomes of its entry in the audit log.
  abbrev pub Fails : Text → World → Result (Text × ℕ) × World → Type 0
  Fails username w end =
      (e : Exn) × (entries : List Audit) × (end
        ≡ (err e, record w { redis = (failures username w.redis).1; audit_log = entries }))

  pub login_failed-Fails :
      (username client_ip : Text) (w : World)
      → Fails username w (login_failed o username client_ip w)
  unfolding login_failed log_audit
  login_failed-Fails username client_ip w = elim (Bool-cases (o.is_inet client_ip)) [
    | inl e ↦ rw (record_failed_login_lem username w, e) (authentication_error, _, refl)
    | inr e ↦ rw (record_failed_login_lem username w, e) (db_error, w.audit_log, refl)
  ]

  -- A success gives the token, unless the database raises, and clears the failures.
  abbrev pub Succeeds : Text → User → World → Result (Text × ℕ) × World → Type 0
  Succeeds username user w end =
      ((end.0 ≡ ok (create_access_token o user)) ⊎ (end.0 ≡ err db_error))
      × ((end.1).redis ≡ delete_key (lockout_key username) (delete_key (fail_key username) w.redis))

  pub login_succeeded-Succeeds :
      (username client_ip : Text) (user : User) (w : World)
      → Succeeds username user w (login_succeeded o username client_ip user w)
  unfolding login_succeeded clear_login_failures update_last_login update_where log_audit
  login_succeeded-Succeeds username client_ip user w = elim (Bool-cases (o.is_uuid user.id)) [
    | inl e ↦ elim (Bool-cases (o.is_uuid user.tenant_id && o.is_inet client_ip)) [
      | inl k ↦ rw (e, k) (inl refl, refl)
      | inr k ↦ rw (e, k) (inr refl, refl)
    ]
    | inr e ↦ rw e (inr refl, refl)
  ]

  -- `login` gives a token only to an enabled user of that name with the right password, for an account
  -- that is not locked, from an address with at most twenty attempts; and the token is that user's.
  pub login-ok :
      (username password client_ip : Text) (w : World) (token : Text × ℕ)
      → (login o username password client_ip w).0 ≡ ok token
      → (attempts o client_ip w ≤ 20)
        × (is_locked o username w ≡ false)
        × (u : User) × (named o username w.users ≡ some u)
        × (u.enabled ≡ true)
        × (verify_password o password u.password_hash ≡ true)
        × (token ≡ create_access_token o u)
  login-ok username password client_ip w token h =
      elim (Bool-cases (ltb ip_rate_limit (attempts o client_ip w))) [
        | inl e ↦ let never = first_part (login-limited o username password client_ip w e) h in cc
        | inr e ↦ elim (Bool-cases (is_locked o username w)) [
          | inl k ↦
              let never = first_part (login-locked o username password client_ip w e k) h in cc
          | inr k ↦
              by_user e k (named o username w.users) refl
                (first_part (login-free o username password client_ip w e k) h)
        ]
      ]
    where
      first_part : {m m' : Result (Text × ℕ) × World} → m ≡ m' → m.0 ≡ ok token → m'.0 ≡ ok token
      first_part same k = rw (← same) k

      by_user :
          (ltb ip_rate_limit (attempts o client_ip w) ≡ false)
          → (is_locked o username w ≡ false)
          → (found : Option User) → named o username w.users ≡ found
          → (answer o username password client_ip found (counted o client_ip w)).0 ≡ ok token
          → (attempts o client_ip w ≤ 20)
            × (is_locked o username w ≡ false)
            × (u : User) × (named o username w.users ≡ some u)
            × (u.enabled ≡ true)
            × (verify_password o password u.password_hash ≡ true)
            × (token ≡ create_access_token o u)
      by_user few unlocked none n k =
          let (e, entries, failed) =
            login_failed-Fails username client_ip (counted o client_ip w) in
          let never = first_part failed k in cc
      by_user few unlocked (some u) n k =
          elim (Bool-cases (u.enabled && verify_password o password u.password_hash)) [
            | inl r ↦
                let (enabled, verified) = &&_true u.enabled _ r in
                let (outcome, cleared) =
                  login_succeeded-Succeeds username client_ip u (counted o client_ip w) in
                (
                  ground (arith, few),
                  unlocked,
                  u,
                  n,
                  enabled,
                  verified,
                  elim outcome [
                    | inl good ↦ ok-injective _ _ (sym (rw r at k) ∙ good)
                    | inr bad ↦ let never = sym (rw r at k) ∙ bad in cc
                  ],
                )
            | inr r ↦
                let (e, entries, failed) =
                  login_failed-Fails username client_ip (counted o client_ip w) in
                let never = first_part failed (rw r at k) in cc
          ]

  answer-wrong :
      (username password client_ip : Text) (user : Option User)
      → is_right o password user ≡ false
      → answer o username password client_ip user ≡ login_failed o username client_ip
  answer-wrong username password client_ip none h = refl
  answer-wrong username password client_ip (some u) h = rw h refl

  -- The fifth failure locks.
  failures-key_exists :
      (later : ℕ) (username : Text) (s : Store) (e : Entry)
      → find o.now (fail_key username) s ≡ some e
      → 4 ≤ e.value
      → later < o.now + 900
      → key_exists later (lockout_key username) (failures username s).1 ≡ true
  failures-key_exists later username s e found four early =
      let fifth : leb fail_lockout_threshold (suc e.value) ≡ true = ground arith in
      rw (count_up_value o.now (fail_key username) fail_lockout_ttl s e found, fifth)
        (setex-key_exists o.now later (lockout_key username) fail_lockout_ttl 0 _ early)

  -- Once a name has had four failures that count, one more locks it: for the next 900 seconds every
  -- login with that name is refused, with the right password too.
  pub login-lockout :
      (o' : Outside) (username password client_ip password' client_ip' : Text) (w : World)
      (e : Entry)
      → ltb ip_rate_limit (attempts o client_ip w) ≡ false
      → is_locked o username w ≡ false
      → is_right o password (named o username w.users) ≡ false
      → find o.now (fail_key username) w.redis ≡ some e
      → 4 ≤ e.value
      → o'.now < o.now + 900
      → (login o' username password' client_ip' (login o username password client_ip w).1).0
        ≡ err rate_limit_error
  login-lockout o' username password client_ip password' client_ip' w e few unlocked wrong found
        four early =
      let w1 = counted o client_ip w in
      let (x, entries, failed) = login_failed-Fails username client_ip w1 in
      let found' : find o.now (fail_key username) w1.redis ≡ some e =
        count_up-other o.now (rate_key client_ip) (fail_key username) ip_rate_ttl w.redis refl
        ∙ found in
      let locked : is_locked o' username (login o username password client_ip w).1 ≡ true =
        rw
          (
            login-free o username password client_ip w few unlocked,
            answer-wrong username password client_ip (named o username w.users) wrong,
            failed,
          )
          (failures-key_exists o'.now username w1.redis e found' four early) in
      ap (λ m. m.0)
        (login-is_locked o' username password' client_ip' (login o username password client_ip w).1
          locked)
