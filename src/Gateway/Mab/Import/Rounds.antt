-- ===== src/Gateway/Mab/Import/Rounds.antt =====
-- features/mab_devices/service.py: a round of the loop of `bulk_import`, and the next import of its
-- device.
use openradiusweb.Prelude.{
  ◌≡◌, refl, ◌∙◌, sym, ap, ℕ, ◌+◌, Bool, true, false, ◌&&◌, ◌||◌, List, [], ◌∷◌, ◌++◌, any, length,
  length-append, if◌then◌else◌, Bool-cases, Option-cases, inl, inr, arith,
}
use openradiusweb.Prelude.Text.{Text, text_eq, text_eq_refl}
use openradiusweb.Prelude.Result.{Exn, Result, ok, err, key_error, db_error}
use openradiusweb.Prelude.Exec.{pure, ◌>>◌}
use openradiusweb.Gateway.Audit.{Actor}
use openradiusweb.Gateway.Rows.{Outside, Table, same_opt}
use openradiusweb.Gateway.Mab.{
  MabDevice, NewDevice, accepts_device, device_row, bulk_insert_mab_device, append_row, as_enabled,
}
use openradiusweb.Gateway.Mab.Service.{import_one}

abbrev is_there : Text → Text → MabDevice → Bool
is_there mac tenant r = text_eq r.mac_address mac && same_opt r.tenant_id tenant

any-append :
    (p : MabDevice → Bool) (xs ys : List MabDevice) → any p (xs ++ ys) ≡ (any p xs || any p ys)
any-append p [] ys = refl
any-append p (x ∷ xs) ys = elim (Bool-cases (p x)) [
  | inl e ↦ rw e refl
  | inr e ↦ rw e (any-append p xs ys)
]

abbrev pub count_of : Bool → ℕ
count_of true = 1
count_of false = 0

-- What an INSERT of a row does, where another of the same device skips it.
abbrev insert_unless : Bool → MabDevice → Table MabDevice → Result Bool × Table MabDevice
insert_unless true row t = (ok false, t)
insert_unless false row t = (ok true, record t { rows = t.rows ++ row ∷ [] })

module _ (o : Outside) (actor : Actor) where
  -- The import of a device fails in every table, or it looks for one address and tenant.
  data Shape (d : NewDevice) : Type 0 where
    fails : (e : Exn) → ((t : Table MabDevice) → import_one o actor d t ≡ (err e, t)) → Shape d
    inserts :
        (mac tenant sub : Text)
        → ((t : Table MabDevice)
            → import_one o actor d t
              ≡ insert_unless
                  (any (is_there mac tenant) t.rows)
                  (device_row o t.rows mac tenant sub (as_enabled d))
                  t)
        → Shape d

  if_insert :
      (b : Bool) (row : MabDevice) (t : Table MabDevice)
      → (if b then pure false else append_row o row >> pure true) t ≡ insert_unless b row t
  if_insert true row t = refl
  if_insert false row t = refl

  import_one-Shape : (d : NewDevice) → Shape d
  unfolding import_one bulk_insert_mab_device
  import_one-Shape d = elim (Option-cases actor.tenant_id) [
    | inl e ↦ fails key_error (λ t. rw e refl)
    | inr (tenant, e) ↦ elim (Option-cases actor.sub) [
      | inl k ↦ fails key_error (λ t. rw (e, k) refl)
      | inr (sub, k) ↦ elim (Option-cases (o.cast_macaddr d.mac_address)) [
        | inl l ↦ fails db_error (λ t. rw (e, k, l) refl)
        | inr (mac, l) ↦ elim (Bool-cases (accepts_device o tenant sub (as_enabled d))) [
          | inl m ↦ inserts mac tenant sub (λ t. rw (e, k, l, m) (if_insert _ _ t))
          | inr m ↦ fails db_error (λ t. rw (e, k, l, m) refl)
        ]
      ]
    ]
  ]

  -- A device that an import finds and skips.
  abbrev pub Skips : NewDevice → Table MabDevice → Type 0
  Skips d t = import_one o actor d t ≡ (ok false, t)

  -- What an import that returns has done: it has added a row or found the device, which the next
  -- import finds; and what was found before is still found.
  pub record Done (d : NewDevice) (t : Table MabDevice) (b : Bool) (u : Table MabDevice)
      : Type 0 where
    pub grown : length u.rows ≡ length t.rows + count_of b
    pub settled : Skips d u
    pub keeps : (e : NewDevice) → Skips e t → Skips e u

  insert_unless-skips :
      (b : Bool) (row : MabDevice) (t : Table MabDevice)
      → insert_unless b row t ≡ (ok false, t)
      → b ≡ true
  insert_unless-skips true row t h = refl
  insert_unless-skips false row t h = cc (ap (λ x. x.0) h)

  -- What is found stays found where a row is added.
  Skips-append :
      (e : NewDevice) (t : Table MabDevice) (row : MabDevice)
      → Skips e t
      → Skips e (record t { rows = t.rows ++ row ∷ [] })
  Skips-append e t row h = by_shape (import_one-Shape e)
    where
      by_shape : Shape e → Skips e (record t { rows = t.rows ++ row ∷ [] })
      by_shape (fails x k) = cc (ap (λ x. x.0) (sym (k t) ∙ h))
      by_shape (inserts mac tenant sub k) =
          let there = insert_unless-skips _ _ t (sym (k t) ∙ h) in
          let u : Table MabDevice = record t { rows = t.rows ++ row ∷ [] } in
          k u ∙ rw (any-append (is_there mac tenant) t.rows (row ∷ []), there) refl

  found-Done :
      (d : NewDevice) (t : Table MabDevice) (b : Bool)
      → Skips d t
      → ◌≡◌ {A = Result Bool} (ok false) (ok b)
      → Done d t b t
  found-Done d t true k h = cc
  found-Done d t false k h = record { grown = omega arith; settled = k; keeps = λ e s. s }

  added-Done :
      (d : NewDevice) (t : Table MabDevice) (b : Bool) (row : MabDevice)
      → Skips d (record t { rows = t.rows ++ row ∷ [] })
      → ◌≡◌ {A = Result Bool} (ok true) (ok b)
      → Done d t b (record t { rows = t.rows ++ row ∷ [] })
  added-Done d t true row k h = record {
    grown = length-append t.rows (row ∷ []);
    settled = k;
    keeps = λ e. Skips-append e t row;
  }
  added-Done d t false row k h = cc

  pub import_one-Done :
      (d : NewDevice) (t : Table MabDevice) (b : Bool)
      → (import_one o actor d t).0 ≡ ok b
      → Done d t b (import_one o actor d t).1
  import_one-Done d t b h = by_shape (import_one-Shape d)
    where
      by_shape : Shape d → Done d t b (import_one o actor d t).1
      by_shape (fails x k) = cc (ap (λ x. x.0) (k t))
      by_shape (inserts mac tenant sub k) =
          let row = device_row o t.rows mac tenant sub (as_enabled d) in
          elim (Bool-cases (any (is_there mac tenant) t.rows)) [
            | inl there ↦
                let e : import_one o actor d t ≡ (ok false, t) = k t ∙ rw there refl in
                rw e (found-Done d t b e (ap (λ x. x.0) (sym e) ∙ h))
            | inr new ↦
                let u : Table MabDevice = record t { rows = t.rows ++ row ∷ [] } in
                let e : import_one o actor d t ≡ (ok true, u) = k t ∙ rw new refl in
                let now : any (is_there mac tenant) u.rows ≡ true =
                  any-append (is_there mac tenant) t.rows (row ∷ [])
                  ∙ rw (new, text_eq_refl mac, text_eq_refl tenant) refl in
                rw e (added-Done d t b row (k u ∙ rw now refl) (ap (λ x. x.0) (sym e) ∙ h))
          ]

  -- The devices of an import that returns are found again in a table with the same rows.
  pub Skips-rows : (d : NewDevice) (t u : Table MabDevice) → t.rows ≡ u.rows → Skips d t → Skips d u
  Skips-rows d t u same h = by_shape (import_one-Shape d)
    where
      by_shape : Shape d → Skips d u
      by_shape (fails x k) = cc (ap (λ x. x.0) (sym (k t) ∙ h))
      by_shape (inserts mac tenant sub k) =
          let there = insert_unless-skips _ _ t (sym (k t) ∙ h) in k u ∙ rw (← same) (rw there refl)
