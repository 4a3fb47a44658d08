-- ===== src/Gateway/Mappings/Creation.antt =====
-- features/group_vlan_mappings/service.py: what a request to create a mapping does.
use mathlib.Core.List.{Memᴰ}
use openradiusweb.Prelude.{
  ◌≡◌, refl, ◌∙◌, sym, Bool, true, false, ◌&&◌, Option, none, some, List, [], ◌∷◌, ◌++◌, any, map,
  Bool-cases, inl, inr, &&_true,
}
use openradiusweb.Prelude.Text.{Text, text_eq, eq_of_text_eq, text_eq_refl}
use openradiusweb.Prelude.Result.{ok, err, conflict_error, db_error}
use openradiusweb.Gateway.Audit.{Audit, Actor, entry_casts}
use openradiusweb.Gateway.Rows.{Outside, Table, log_audit, get_db}
use openradiusweb.Gateway.Mappings.{
  Mapping, NewMapping, same_mapping, takes_name, group_name_taken, accepts_mapping, mapping_row,
  insert_mapping,
}
use openradiusweb.Gateway.Mappings.Service.{assert_group_name_free, create_mapping}

-- The tenant has a mapping for a group.
abbrev pub Taken : Text → Text → List Mapping → Type 0
Taken tenant name rows =
    (r : Mapping) × Memᴰ r rows × (r.group_name ≡ name) × (r.tenant_id ≡ tenant)

-- What a client asked for, as the row holds it.
abbrev pub Holds : Text → NewMapping → Mapping → Type 0
Holds tenant m row =
    (row.group_name ≡ m.group_name)
    × (row.vlan_id ≡ m.vlan_id)
    × (row.priority ≡ m.priority)
    × (row.description ≡ m.description)
    × (row.ldap_server_id ≡ m.ldap_server_id)
    × (row.enabled ≡ m.enabled)
    × (row.tenant_id ≡ tenant)

-- A row more, and an entry of the audit log that names it.
abbrev pub Adds : Actor → Table Mapping → Mapping → Table Mapping → Type 0
Adds actor before row now =
    (now.rows ≡ before.rows ++ row ∷ [])
    × ((entry : Audit) × (now.audit_log ≡ before.audit_log ++ entry ∷ [])
        × (entry.resource_id ≡ some row.id)
        × (entry.user_id ≡ actor.sub)
        × (entry.tenant_id ≡ actor.tenant_id))

any-same : {A : Type 0} (p q : A → Bool) (l : List A) → ((a : A) → p a ≡ q a) → any p l ≡ any q l
any-same p q [] h = refl
any-same p q (a ∷ l) h = rw (h a, any-same p q l h)

and_true : (b : Bool) → (b && true) ≡ b
and_true true = refl
and_true false = refl

-- The check before the INSERT looks for the rows that its UNIQUE forbids.
taken-clash :
    (o : Outside) (tenant : Text) (m : NewMapping) (rows : List Mapping)
    → any (λ s. same_mapping s (mapping_row o rows tenant m)) rows
      ≡ any (takes_name o tenant m.group_name none) rows
taken-clash o tenant m rows =
    any-same _ _ rows
      (λ s. sym (and_true (text_eq s.group_name m.group_name && text_eq s.tenant_id tenant)))

any-Taken :
    (o : Outside) (tenant name : Text) (rows : List Mapping)
    → any (takes_name o tenant name none) rows ≡ true
    → Taken tenant name rows
any-Taken o tenant name [] h = cc
any-Taken o tenant name (r ∷ rows) h = elim (Bool-cases (takes_name o tenant name none r)) [
  | inl e ↦
      let (named, own) = &&_true _ _ (&&_true _ _ e).0 in
      (r, Memᴰ.head refl, eq_of_text_eq _ _ named, eq_of_text_eq _ _ own)
  | inr e ↦
      let later : any (takes_name o tenant name none) rows ≡ true = rw e at h in
      let (s, m, named, own) = any-Taken o tenant name rows later in (s, Memᴰ.tail m, named, own)
]

Taken-any :
    (o : Outside) (tenant name : Text) (rows : List Mapping) (r : Mapping)
    → Memᴰ r rows
    → r.group_name ≡ name
    → r.tenant_id ≡ tenant
    → any (takes_name o tenant name none) rows ≡ true
Taken-any o tenant name [] r m named own = elim m [ ]
Taken-any o tenant name (s ∷ rows) r (Memᴰ.head e) named own =
    rw (← e, named, own, text_eq_refl name, text_eq_refl tenant) refl
Taken-any o tenant name (s ∷ rows) r (Memᴰ.tail m) named own =
    elim (Bool-cases (takes_name o tenant name none s)) [
      | inl e ↦ rw e refl
      | inr e ↦ rw e (Taken-any o tenant name rows r m named own)
    ]

-- What a request to create a mapping does, with its values such that the database takes them, and
-- with the rollback at its end. Where the tenant has a mapping for the group, it ends with
-- ConflictError, and where the database refuses the entry of the audit log, with its error; nothing
-- has changed then. In any other case it gives a row that holds what was asked for, and the table
-- has this row more, the audit log an entry that names it.
pub create_mapping_branches :
    (o : Outside) (actor : Actor) (m : NewMapping) (ip : Option Text) (t : Table Mapping)
    (tenant : Text)
    → actor.tenant_id ≡ some tenant
    → accepts_mapping o tenant m ≡ true
    → (Taken tenant m.group_name t.rows
        → get_db (create_mapping o actor m ip) t ≡ (err conflict_error, t))
      × (¬ Taken tenant m.group_name t.rows
          → entry_casts o.is_uuid o.is_inet actor (some (o.new_id (map (λ r. r.id) t.rows))) ip
            ≡ false
          → get_db (create_mapping o actor m ip) t ≡ (err db_error, t))
      × (¬ Taken tenant m.group_name t.rows
          → entry_casts o.is_uuid o.is_inet actor (some (o.new_id (map (λ r. r.id) t.rows))) ip
            ≡ true
          → (row : Mapping) × ((get_db (create_mapping o actor m ip) t).0 ≡ ok row)
            × Holds tenant m row
            × Adds actor t row (get_db (create_mapping o actor m ip) t).1)
unfolding create_mapping assert_group_name_free group_name_taken insert_mapping log_audit get_db
create_mapping_branches o actor m ip t tenant own accepts =
    let valid : o.is_uuid tenant ≡ true = (&&_true _ _ (&&_true _ _ accepts).0).0 in
    elim (Bool-cases (any (takes_name o tenant m.group_name none) t.rows)) [
      | inl e ↦
          let there = any-Taken o tenant m.group_name t.rows e in
          (λ _. rw (own, valid, e) refl, λ no k. elim (no there) [ ], λ no k. elim (no there) [ ])
      | inr e ↦
          let values = rw valid at accepts in
          let no_clash = taken-clash o tenant m t.rows ∙ e in
          (
            λ (r, member, named, is_own).
                let found = Taken-any o tenant m.group_name t.rows r member named is_own in cc,
            λ no k.
                let refused = rw (own, valid) at k in
                rw (own, valid, e, values, no_clash, refused) refl,
            λ no k.
                let taken_in = rw (own, valid) at k in
                (
                  mapping_row o t.rows tenant m,
                  rw (own, valid, e, values, no_clash, taken_in) refl,
                  (refl, refl, refl, refl, refl, refl, refl),
                  rw (own, valid, e, values, no_clash, taken_in)
                      (refl, (_, refl, refl, refl, refl)),
                ),
          )
    ]
