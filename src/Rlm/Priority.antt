-- ===== src/Rlm/Priority.antt =====
-- Which mapping of groups gives the VLAN: `_lookup_vlan_for_groups` of rlm_orw.py.
use mathlib.Core.List.{Memᴰ}
use openradiusweb.Prelude.{
  ℕ, ◌≡◌, refl, ◌≤◌, Bool, true, false, ◌||◌, Option, none, some, List, [], ◌∷◌, if◌then◌else◌, any,
  All-Memᴰ, &&_true, keep_if, least_by, least_by-Memᴰ, least_by_le, least_by-some, keep_if-Memᴰ,
  Memᴰ-keep_if, arith,
}
use openradiusweb.Prelude.Text.{Text, text_eq, eq_of_text_eq, text_eq_refl}
use openradiusweb.Rlm.Tables.{GroupMapping, Db, Outside}
use openradiusweb.Rlm.Groups.{is_mapping, mapping_for_groups, vlan_of, lookup_vlan_for_groups}
use openradiusweb.Rlm.Access.{OfTenant, of_tenant-OfTenant, OfTenant-of_tenant}

-- A mapping applies to a user of some groups: it is of one of them, enabled, and of the tenant.
abbrev pub Applies : Outside → List Text → GroupMapping → Type 0
Applies o groups m = Memᴰ m.group_name groups × (m.enabled ≡ true) × OfTenant o.tenant m.tenant_id

any-Memᴰ : (s : Text) (l : List Text) → any (λ g. text_eq s g) l ≡ true → Memᴰ s l
any-Memᴰ s [] h = cc
any-Memᴰ s (g ∷ l) h = by_test (text_eq s g) refl (any-Memᴰ s l) h
  where
    by_test :
        (b : Bool)
        → text_eq s g ≡ b
        → (any (λ g. text_eq s g) l ≡ true → Memᴰ s l)
        → (b || any (λ g. text_eq s g) l) ≡ true
        → Memᴰ s (g ∷ l)
    by_test true e rest k = Memᴰ.head (eq_of_text_eq s g e)
    by_test false e rest k = Memᴰ.tail (rest k)

Memᴰ-any : (s : Text) (l : List Text) → Memᴰ s l → any (λ g. text_eq s g) l ≡ true
Memᴰ-any s [] m = elim m [ ]
Memᴰ-any s (g ∷ l) (Memᴰ.head e) = rw (← e, text_eq_refl s)
Memᴰ-any s (g ∷ l) (Memᴰ.tail m) = ground (arith, Memᴰ-any s l m)

is_mapping-Applies :
    (o : Outside) (groups : List Text) (m : GroupMapping)
    → is_mapping o groups m ≡ true
    → Applies o groups m
is_mapping-Applies o groups m h =
    let (named, h1) = &&_true (any (λ g. text_eq m.group_name g) groups) _ h in
    let (on, tenant) = &&_true m.enabled _ h1 in
    (any-Memᴰ m.group_name groups named, on, of_tenant-OfTenant o.tenant m.tenant_id tenant)

Applies-is_mapping :
    (o : Outside) (groups : List Text) (m : GroupMapping)
    → Applies o groups m
    → is_mapping o groups m ≡ true
Applies-is_mapping o groups m (named, on, tenant) =
    rw (Memᴰ-any m.group_name groups named, on, OfTenant-of_tenant o.tenant m.tenant_id tenant)

-- The mapping of the answer, and none with a smaller number before it.
abbrev pub Least : Outside → Db → List Text → GroupMapping → Type 0
Least o db groups m =
    Memᴰ m db.group_vlan_mappings
    × Applies o groups m
    × ((other : GroupMapping)
        → Memᴰ other db.group_vlan_mappings
        → Applies o groups other
        → m.priority ≤ other.priority)

mapping_for_groups-Least :
    (o : Outside) (db : Db) (groups : List Text) {m : GroupMapping}
    → mapping_for_groups o db groups ≡ some m
    → Least o db groups m
unfolding mapping_for_groups
mapping_for_groups-Least o db groups {m} h = by_answer o.connected h
  where
    by_answer :
        (up : Bool)
        → (if up
            then least_by (λ m. m.priority) (keep_if (is_mapping o groups) db.group_vlan_mappings)
            else none)
          ≡ some m
        → Least o db groups m
    by_answer false k = cc
    by_answer true k =
        let kept = keep_if (is_mapping o groups) db.group_vlan_mappings in
        let (member, applies) =
          keep_if-Memᴰ (is_mapping o groups) db.group_vlan_mappings
            (least_by-Memᴰ (λ m. m.priority) kept k) in
        (
          member,
          is_mapping-Applies o groups m applies,
          λ other n a.
              All-Memᴰ (λ b. m.priority ≤ b.priority) kept (least_by_le (λ m. m.priority) kept k)
                (Memᴰ-keep_if (is_mapping o groups) db.group_vlan_mappings n
                  (Applies-is_mapping o groups other a)),
        )

-- The VLAN for the groups of a user is that of a mapping that applies to them, and no mapping
-- that applies has a smaller priority.
pub lookup_vlan_for_groups-Least :
    (o : Outside) (db : Db) (groups : List Text) {n : ℕ}
    → lookup_vlan_for_groups o db groups ≡ some n
    → (m : GroupMapping) × (m.vlan_id ≡ n) × Least o db groups m
unfolding lookup_vlan_for_groups
lookup_vlan_for_groups-Least o db [] h = cc
lookup_vlan_for_groups-Least o db (g ∷ groups) {n} h =
    by_mapping (mapping_for_groups o db (g ∷ groups)) refl h
  where
    by_mapping :
        (r : Option GroupMapping)
        → mapping_for_groups o db (g ∷ groups) ≡ r
        → vlan_of r ≡ some n
        → (m : GroupMapping) × (m.vlan_id ≡ n) × Least o db (g ∷ groups) m
    by_mapping none e k = cc
    by_mapping (some m) e k = (m, cc, mapping_for_groups-Least o db (g ∷ groups) e)

-- Where the database answers and a mapping applies to a user's groups, there is a VLAN for them.
pub lookup_vlan_for_groups-Applies :
    (o : Outside) (db : Db) (groups : List Text) (m : GroupMapping)
    → o.connected ≡ true
    → Memᴰ m db.group_vlan_mappings
    → Applies o groups m
    → (n : ℕ) × (lookup_vlan_for_groups o db groups ≡ some n)
unfolding lookup_vlan_for_groups mapping_for_groups
lookup_vlan_for_groups-Applies o db [] m up member (named, on, tenant) = elim named [ ]
lookup_vlan_for_groups-Applies o db (g ∷ groups) m up member applies =
    let (least, e) =
      least_by-some (λ m. m.priority) (keep_if (is_mapping o (g ∷ groups)) db.group_vlan_mappings)
        (Memᴰ-keep_if (is_mapping o (g ∷ groups)) db.group_vlan_mappings member
          (Applies-is_mapping o (g ∷ groups) m applies)) in
    (least.vlan_id, simp (up, e))
