-- ===== src/Gateway/Mappings/Agreement.antt =====
-- The two lookups of the VLAN of a user's groups: that of features/group_vlan_mappings, and
-- `_lookup_vlan_for_groups` of services/auth/freeradius/mods-config/python/rlm_orw.py.
use mathlib.Core.List.{Memᴰ}
use openradiusweb.Prelude.{
  ◌≡◌, refl, ◌∙◌, sym, ap, ◌↔◌, ◌≤◌, ℕ, true, Option, none, some, List, [], ◌∷◌, map, keep_if,
  least_by, All, All-map, All-Memᴰ, Memᴰ-map, map-Memᴰ, Memᴰ-keep_if, keep_if-Memᴰ, least_by-Memᴰ,
  least_by-some, least_by_le, arith,
}
use openradiusweb.Prelude.Text.{Text, truthy, strip, join}
use openradiusweb.Prelude.Text.Split.{Without, split-join}
use openradiusweb.Prelude.Result.{ok}
use openradiusweb.Rlm.Tables
use openradiusweb.Rlm.Tables.{of_tenant}
use openradiusweb.Rlm.Groups
use openradiusweb.Gateway.Rows.{Outside, Table}
use openradiusweb.Gateway.Mappings.{Mapping, applies, lookup_row_for_groups}
use openradiusweb.Gateway.Mappings.Service.{parse_groups, lookup_parsed, lookup_vlan_for_groups}

-- A row as the FreeRADIUS module reads it.
abbrev pub seen : Mapping → Tables.GroupMapping
seen r = record {
  group_name = r.group_name;
  vlan_id = r.vlan_id;
  priority = r.priority;
  enabled = r.enabled;
  tenant_id = some r.tenant_id;
}

-- A group's name that a list of names separated by commas can hold.
abbrev pub IsGroup : Text → Type 0
IsGroup g = (truthy g ≡ true) × (strip g ≡ g) × Without b',' g

abbrev pub vlan_of : Option Mapping → Option ℕ
vlan_of none = none
vlan_of (some r) = some r.vlan_id

keep_names : (groups : List Text) → All IsGroup groups → keep_if truthy (map strip groups) ≡ groups
keep_names [] h = refl
keep_names (g ∷ groups) ((full, stripped, bare), h) =
    rw (stripped, full) (ap (λ l. g ∷ l) (keep_names groups h))

parse_groups-join :
    (g : Text) (groups : List Text)
    → All IsGroup (g ∷ groups)
    → parse_groups (join (b',' ∷ []) (g ∷ groups)) ≡ g ∷ groups
unfolding parse_groups
parse_groups-join g groups (h, hs) =
    ap (λ l. keep_if truthy (map strip l))
      (split-join b',' g groups h.2 (All-map (λ x k. k.2) groups hs))
    ∙ keep_names (g ∷ groups) (h, hs)

-- The condition of the module's query on a row of the gateway.
is_mapping-seen :
    (o : Outside) (r : Tables.Outside) (c : ℕ) (tenant : Text) (groups : List Text) (m : Mapping)
    → r.tenant ≡ some (c ∷ tenant)
    → Groups.is_mapping r groups (seen m) ≡ applies o (c ∷ tenant) groups m
is_mapping-seen o r c tenant groups m own = rw own refl

lookup-parsed :
    (o : Outside) (tenant csv g : Text) (groups : List Text)
    → parse_groups csv ≡ g ∷ groups
    → lookup_vlan_for_groups o tenant csv ≡ lookup_row_for_groups o tenant (g ∷ groups)
unfolding lookup_vlan_for_groups
lookup-parsed o tenant csv g groups e = ap (λ l. lookup_parsed o tenant l) e

-- The module's rows are those of the gateway's table, in any order: what the database gives of rows
-- with one priority is left open.
abbrev pub SameRows : List Tables.GroupMapping → List Mapping → Type 0
SameRows mappings rows = (m : Tables.GroupMapping) → Memᴰ m mappings ↔ Memᴰ m (map seen rows)

-- Two mappings that apply and have one priority have one VLAN.
abbrev pub IsSettled : Outside → Text → List Text → List Mapping → Type 0
IsSettled o tenant groups rows =
    (a b : Mapping)
    → Memᴰ a rows
    → Memᴰ b rows
    → applies o tenant groups a ≡ true
    → applies o tenant groups b ≡ true
    → a.priority ≡ b.priority
    → a.vlan_id ≡ b.vlan_id

module _ (o : Outside) (r : Tables.Outside) (c : ℕ) (tenant : Text) (groups : List Text)
    (own : r.tenant ≡ some (c ∷ tenant)) (mappings : List Tables.GroupMapping) (rows : List Mapping)
    (same : SameRows mappings rows) where
  abbrev kept : List Mapping
  kept = keep_if (applies o (c ∷ tenant) groups) rows

  abbrev kept_seen : List Tables.GroupMapping
  kept_seen = keep_if (Groups.is_mapping r groups) mappings

  kept-seen : {a : Mapping} → Memᴰ a kept → Memᴰ (seen a) kept_seen
  kept-seen {a} m =
      let (member, e) = keep_if-Memᴰ (applies o (c ∷ tenant) groups) rows m in
      Memᴰ-keep_if (Groups.is_mapping r groups) mappings
        ((same (seen a)).1 (Memᴰ-map seen rows member))
        (is_mapping-seen o r c tenant groups a own ∙ e)

  seen-kept :
      {m : Tables.GroupMapping} → Memᴰ m kept_seen → (a : Mapping) × Memᴰ a kept × (m ≡ seen a)
  seen-kept {m} n =
      let (member, e) = keep_if-Memᴰ (Groups.is_mapping r groups) mappings n in
      let (a, here, is) = map-Memᴰ seen rows ((same m).0 member) in
      (
        a,
        Memᴰ-keep_if (applies o (c ∷ tenant) groups) rows here (
            sym (is_mapping-seen o r c tenant groups a own)
            ∙ (ap (Groups.is_mapping r groups) (sym is) ∙ e)),
        is,
      )

  -- Both find a mapping of the least priority, or none.
  same_vlan :
      IsSettled o (c ∷ tenant) groups rows
      → (x : Option Mapping) → least_by (λ m. m.priority) kept ≡ x
      → (y : Option Tables.GroupMapping) → least_by (λ m. m.priority) kept_seen ≡ y
      → Groups.vlan_of y ≡ vlan_of x
  same_vlan settled none e none f = refl
  same_vlan settled none e (some m) f =
      let (a, here, is) = seen-kept (least_by-Memᴰ (λ k. k.priority) kept_seen f) in
      let (b, found) = least_by-some (λ k. k.priority) kept here in cc
  same_vlan settled (some a) e none f =
      let here = kept-seen (least_by-Memᴰ (λ k. k.priority) kept e) in
      let (b, found) = least_by-some (λ k. k.priority) kept_seen here in cc
  same_vlan settled (some a) e (some m) f =
      let here = least_by-Memᴰ (λ k. k.priority) kept e in
      let (b, there, is) = seen-kept (least_by-Memᴰ (λ k. k.priority) kept_seen f) in
      let low : a.priority ≤ b.priority =
        All-Memᴰ (λ k. a.priority ≤ k.priority) kept (least_by_le (λ k. k.priority) kept e) there in
      let high : m.priority ≤ a.priority =
        All-Memᴰ (λ k. m.priority ≤ k.priority) kept_seen
          (least_by_le (λ k. k.priority) kept_seen f) (kept-seen here) in
      let number : m.priority ≡ b.priority = ap (λ k. k.priority) is in
      let (a_row, a_applies) = keep_if-Memᴰ (applies o (c ∷ tenant) groups) rows here in
      let (b_row, b_applies) = keep_if-Memᴰ (applies o (c ∷ tenant) groups) rows there in
      let one : b.priority ≡ a.priority = omega (arith, low, high, number) in
      ap some (ap (λ k. k.vlan_id) is ∙ settled b a b_row a_row b_applies a_applies one)

-- For the names of one group or more, without commas and blanks round them, that are joined by
-- commas, the gateway's lookup gives the VLAN that the FreeRADIUS module finds, where the database
-- answers both with the same rows, in whatever order, the module's tenant is that of the request,
-- and of the mappings that apply two with one priority have one VLAN.
pub lookup_vlan_for_groups-Agrees :
    (o : Outside) (r : Tables.Outside) (db : Tables.Db) (t : Table Mapping) (c : ℕ)
    (tenant g : Text) (groups : List Text)
    → All IsGroup (g ∷ groups)
    → o.is_uuid (c ∷ tenant) ≡ true
    → r.connected ≡ true
    → r.tenant ≡ some (c ∷ tenant)
    → SameRows db.group_vlan_mappings t.rows
    → IsSettled o (c ∷ tenant) (g ∷ groups) t.rows
    → (row : Option Mapping) × ((lookup_vlan_for_groups o
          (c ∷ tenant)
          (join (b',' ∷ []) (g ∷ groups))
          t).0
        ≡ ok row)
      × (Groups.lookup_vlan_for_groups r db (g ∷ groups) ≡ vlan_of row)
unfolding lookup_row_for_groups Groups.lookup_vlan_for_groups Groups.mapping_for_groups
lookup_vlan_for_groups-Agrees o r db t c tenant g groups h valid up own same settled = (
  least_by (λ m. m.priority) (keep_if (applies o (c ∷ tenant) (g ∷ groups)) t.rows),
  asked ∙ rw valid refl,
  rw up (
      same_vlan o r c tenant (g ∷ groups) own db.group_vlan_mappings t.rows same settled _ refl _
        refl),
)
  where
    asked :
        (lookup_vlan_for_groups o (c ∷ tenant) (join (b',' ∷ []) (g ∷ groups)) t).0
        ≡ (lookup_row_for_groups o (c ∷ tenant) (g ∷ groups) t).0
    asked =
        ap (λ m. (m t).0)
          (lookup-parsed o (c ∷ tenant) (join (b',' ∷ []) (g ∷ groups)) g groups
            (parse_groups-join g groups h))
