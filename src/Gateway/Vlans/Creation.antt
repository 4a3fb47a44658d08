-- ===== src/Gateway/Vlans/Creation.antt =====
-- features/vlans/service.py: a VLAN that has been created is there.
use openradiusweb.Prelude.{
  ◌≡◌, refl, subst, true, false, ◌&&◌, Option, some, List, [], ◌∷◌, ◌++◌, keep_if, first, map, any,
  Bool-cases, Option-cases, inl, inr, &&_true,
}
use openradiusweb.Prelude.Text.{Text, text_eq, text_eq_refl}
use openradiusweb.Prelude.Result.{ok}
use openradiusweb.Gateway.Audit.{Actor, castable}
use openradiusweb.Gateway.Rows.{Outside, Table, is_row, lookup_row, log_audit}
use openradiusweb.Gateway.Vlans.{
  Vlan, NewVlan, vlan_columns, same_number, accepts_vlan, cast_subnet, vlan_row, insert_vlan,
}
use openradiusweb.Gateway.Vlans.Service.{get_vlan, create_vlan}

-- A new identifier is that of no row of the table.
abbrev pub IsFresh : Outside → Type 0
IsFresh o = (ids : List Text) → any (λ s. text_eq s (o.new_id ids)) ids ≡ false

-- What a client asked for, as the row holds it.
abbrev pub Holds : Outside → Text → NewVlan → Vlan → Type 0
Holds o tenant v row =
    (row.vlan_id ≡ v.vlan_id)
    × (row.name ≡ some v.name)
    × (row.description ≡ v.description)
    × (row.purpose ≡ v.purpose)
    × (some row.subnet ≡ cast_subnet o v.subnet)
    × (row.enabled ≡ some v.enabled)
    × (row.tenant_id ≡ some tenant)

module _ (o : Outside) where
  found_last :
      (tenant : Text) (rows : List Vlan) (new : Vlan)
      → any (λ s. text_eq s new.id) (map (λ r. r.id) rows) ≡ false
      → is_row o (vlan_columns o) tenant new.id new ≡ true
      → first (keep_if (is_row o (vlan_columns o) tenant new.id) (rows ++ new ∷ [])) ≡ some new
  found_last tenant [] new h k = rw k refl
  found_last tenant (r ∷ rows) new h k = elim (Bool-cases (text_eq r.id new.id)) [
    | inl e ↦ let no = rw e at h in cc
    | inr e ↦ let later = rw e at h in rw e (found_last tenant rows new later k)
  ]

  -- The VLAN that `create_vlan` has returned holds what was asked for, and `get_vlan` finds it by its
  -- identifier, where the database gives a new row an identifier that no row has.
  pub create_vlan-get_vlan :
      IsFresh o
      → (actor : Actor) (v : NewVlan) (ip : Option Text) (t : Table Vlan) (tenant : Text)
        (row : Vlan)
      → actor.tenant_id ≡ some tenant
      → (create_vlan o actor v ip t).0 ≡ ok row
      → Holds o tenant v row
        × ((get_vlan o tenant row.id (create_vlan o actor v ip t).1).0 ≡ ok row)
  unfolding create_vlan insert_vlan log_audit get_vlan lookup_row
  create_vlan-get_vlan fresh actor v ip t tenant row own h =
      elim (Option-cases (cast_subnet o v.subnet)) [
        | inl l ↦ let no = rw (own, l) at h in cc
        | inr (subnet, l) ↦ elim (Bool-cases (accepts_vlan o tenant v)) [
          | inr m ↦ let no = rw (own, l, m) at h in cc
          | inl m ↦
              let new = vlan_row o t.rows tenant subnet v in
              let valid : o.is_uuid tenant ≡ true = (&&_true _ _ (&&_true _ _ m).0).0 in
              elim (Bool-cases (any (λ s. same_number s new) t.rows)) [
                | inl n ↦ let no = rw (own, l, m, n) at h in cc
                | inr n ↦
                    elim (Bool-cases (
                      castable o.is_uuid actor.sub
                      && (o.is_uuid tenant && (o.is_uuid new.id && castable o.is_inet ip)))) [
                        | inr c ↦ let no = rw (own, l, m, n, c) at h in cc
                        | inl c ↦
                            let said = rw (own, l, m, n, c) at h in
                            let same : new ≡ row = cc in
                            let here : is_row o (vlan_columns o) tenant new.id new ≡ true =
                              rw (text_eq_refl new.id, text_eq_refl tenant) refl in
                            let found =
                              found_last tenant t.rows new (fresh (map (λ r. r.id) t.rows)) here in
                            subst
                              (λ r.
                                Holds o tenant v r
                                × ((get_vlan o tenant r.id (create_vlan o actor v ip t).1).0
                                    ≡ ok r))
                              same
                              (
                                (refl, refl, refl, refl, rw l refl, refl, refl),
                                rw (own, l, m, n, c, valid, found) refl,
                              )
                      ]
              ]
        ]
      ]
