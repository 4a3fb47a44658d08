-- ===== src/Rlm/Assigned.antt =====
-- Where the VLAN comes from that `post_auth` of rlm_orw.py assigns.
use openradiusweb.Prelude.{
  ℕ, String, ◌≡◌, refl, ap, ◌∙◌, sym, ◌⊎◌, inl, inr, Bool, true, false, not, ◌&&◌, Option, none,
  some, List, if◌then◌else◌, ◌==◌, Bool-cases,
}
use openradiusweb.Prelude.Text.{Text, text_eq}
use openradiusweb.Prelude.Result.{Result, ok, err, ◌>>=◌, >>=-eq-ok}
use openradiusweb.Mac.{normalize_mac}
use openradiusweb.Rlm.Attrs.{AttrValue, Attrs, one, many, get_or_empty, is_true, extract_attrs}
use openradiusweb.Rlm.Method.{detect_auth_method, mab}
use openradiusweb.Rlm.Tables.{MabDevice, GroupMapping, Db, Outside}
use openradiusweb.Rlm.Mab.{lookup_mab_device, HookReply, module_updated, tunnel_attrs}
use openradiusweb.Rlm.Groups.{get_user_ldap_groups}
use openradiusweb.Rlm.PostAuth.{
  is_success, choose_vlan, post_auth, post_auth_request, user_domain, log_and_answer, after_marker,
  assigned, override, station_vlan, group_vlan, or_group, hook_reply,
}
use openradiusweb.Rlm.Access.{Listed, lookup_mab_device-Listed}
use openradiusweb.Rlm.Priority.{Least, lookup_vlan_for_groups-Least}

-- A row of the whitelist that admits the station has the VLAN.
abbrev pub OfStation : Outside → Db → AttrValue → ℕ → Type 0
OfStation o db station n =
    (t : Text) × (station ≡ one t)
    × ((d : MabDevice) × Listed o db t d × (d.assigned_vlan_id ≡ some n))

-- A mapping of the user's groups has the VLAN, and none that applies has a smaller priority.
abbrev pub OfGroups : Outside → Db → AttrValue → ℕ → Type 0
OfGroups o db username n =
    (m : GroupMapping) × (m.vlan_id ≡ n) × Least o db (get_user_ldap_groups o db username) m

abbrev pub FromTables : Outside → Db → Attrs → ℕ → Type 0
FromTables o db request n =
    OfStation o db (get_or_empty "Calling-Station-Id" request) n
    ⊎ OfGroups o db (get_or_empty "User-Name" request) n

assigned-some : (v : Option ℕ) {n : ℕ} → assigned v ≡ some n → v ≡ some n
assigned-some none h = cc
assigned-some (some m) h = elim (Bool-cases (m == 0)) [
  | inl e ↦ let no : none ≡ some _ = rw e at h in cc
  | inr e ↦ rw e at h
]

override-some :
    (found : Option MabDevice) {n : ℕ}
    → override found ≡ some n
    → (d : MabDevice) × (found ≡ some d) × (d.assigned_vlan_id ≡ some n)
override-some none h = cc
override-some (some d) h = (d, refl, assigned-some d.assigned_vlan_id h)

module _ (o : Outside) (db : Db) where
  text_vlan-OfStation :
      (t : Text) {n : ℕ}
      → override (lookup_mab_device o db (normalize_mac t)) ≡ some n
      → OfStation o db (one t) n
  text_vlan-OfStation t h =
      let (d, found, vlan) = override-some (lookup_mab_device o db (normalize_mac t)) h in
      (t, refl, (d, lookup_mab_device-Listed o db t found, vlan))

  station_vlan-OfStation :
      (station : AttrValue) {n : ℕ}
      → station_vlan o db station ≡ ok (some n)
      → OfStation o db station n
  station_vlan-OfStation (one t) h = elim (Bool-cases (is_true (one t))) [
    | inl e ↦ text_vlan-OfStation t (let found = rw e at h in cc)
    | inr e ↦ let no = rw e at h in cc
  ]
  station_vlan-OfStation (many ts) h = cc

  group_vlan-OfGroups :
      (username : AttrValue) {n : ℕ}
      → group_vlan o db username ≡ ok (some n)
      → OfGroups o db username n
  group_vlan-OfGroups username h =
      let (domain, d, found) = >>=-eq-ok (user_domain username) _ h in
      lookup_vlan_for_groups-Least o db (get_user_ldap_groups o db username) cc

  or_group-some :
      (own : Option ℕ) (later : Result (Option ℕ)) {n : ℕ}
      → or_group own later ≡ ok (some n)
      → (own ≡ some n) ⊎ (later ≡ ok (some n))
  or_group-some none later h = inr h
  or_group-some (some m) later h = inl cc

  own_or_group-FromTables :
      (request : Attrs) {n : ℕ}
      → (do
        own ← station_vlan o db (get_or_empty "Calling-Station-Id" request)
        or_group own (group_vlan o db (get_or_empty "User-Name" request)))
        ≡ ok (some n)
      → FromTables o db request n
  own_or_group-FromTables request h =
      let (own, e, chosen) =
        >>=-eq-ok (station_vlan o db (get_or_empty "Calling-Station-Id" request)) _ h in
      elim (or_group-some own (group_vlan o db (get_or_empty "User-Name" request)) chosen) [
        | inl k ↦ inl (station_vlan-OfStation _ (e ∙ ap ok k))
        | inr k ↦ inr (group_vlan-OfGroups _ k)
      ]

  choose_vlan-FromTables :
      (request : Attrs) {n : ℕ}
      → choose_vlan o db request ≡ ok (some n)
      → (method : Text) × (detect_auth_method request ≡ ok method)
        × (text_eq method mab ≡ false)
        × FromTables o db request n
  unfolding choose_vlan
  choose_vlan-FromTables request {n} h =
      let (method, m, tested) = >>=-eq-ok (detect_auth_method request) _ h in
      by_tests method m (text_eq method mab) (is_true (get_or_empty "User-Name" request)) refl
        tested
    where
      by_tests :
          (method : Text)
          → detect_auth_method request ≡ ok method
          → (a b : Bool) → text_eq method mab ≡ a
          → (if not a && b
              then (do
                own ← station_vlan o db (get_or_empty "Calling-Station-Id" request)
                or_group own (group_vlan o db (get_or_empty "User-Name" request)))
              else ok none)
            ≡ ok (some n)
          → (method : Text) × (detect_auth_method request ≡ ok method)
            × (text_eq method mab ≡ false)
            × FromTables o db request n
      by_tests method m true b e k = cc
      by_tests method m false false e k = cc
      by_tests method m false true e k = (method, m, e, own_or_group-FromTables request k)

  -- A reply with a VLAN comes of a choice of one.
  hook_reply-some :
      (v : Option ℕ) {reply : HookReply}
      → ok (hook_reply (assigned v)) ≡ ok reply
      → reply.code ≡ module_updated
      → (n : ℕ) × (v ≡ some n) × (reply.reply_attrs ≡ tunnel_attrs n)
  hook_reply-some none {reply} h updated =
      let same : hook_reply none ≡ reply = cc in let no = ap (λ r. r.code) same ∙ updated in cc
  hook_reply-some (some n) {reply} h updated = elim (Bool-cases (n == 0)) [
    | inl e ↦
        let same : hook_reply none ≡ reply = (let k = rw e at h in cc) in
        let no = ap (λ r. r.code) same ∙ updated in cc
    | inr e ↦
        let same : hook_reply (some n) ≡ reply = (let k = rw e at h in cc) in
        (n, refl, sym (ap (λ r. r.reply_attrs) same))
  ]

  -- A reply of `post_auth` that sets a VLAN is for a request that is not marked as rejected and whose
  -- method is not MAB; and the VLAN is that of an enabled row of the whitelist, not past its date,
  -- with the address of the station, or that of an enabled mapping for a group that the directory
  -- gives for the user, with no mapping of a smaller priority that applies. Where the module has a
  -- tenant, the row and the mapping are of this tenant.
  pub post_auth-FromTables :
      (p : List (String × Text)) {reply : HookReply}
      → (post_auth o p db).0 ≡ ok reply
      → reply.code ≡ module_updated
      → (is_success (extract_attrs p) ≡ ok true)
        × ((method : Text) × (detect_auth_method (extract_attrs p) ≡ ok method)
            × (text_eq method mab ≡ false))
        × ((n : ℕ) × (reply.reply_attrs ≡ tunnel_attrs n) × FromTables o db (extract_attrs p) n)
  unfolding post_auth post_auth_request
  post_auth-FromTables p {reply} h updated = by_marker (is_success request) refl h
    where
      request : Attrs
      request = extract_attrs p

      by_choice :
          (c : Result (Option ℕ))
          → choose_vlan o db (extract_attrs p) ≡ c
          → is_success (extract_attrs p) ≡ ok true
          → (log_and_answer o (extract_attrs p) true db c).0 ≡ ok reply
          → (is_success (extract_attrs p) ≡ ok true)
            × ((method : Text) × (detect_auth_method (extract_attrs p) ≡ ok method)
                × (text_eq method mab ≡ false))
            × ((n : ℕ) × (reply.reply_attrs ≡ tunnel_attrs n) × FromTables o db (extract_attrs p) n)
      by_choice (err e) c m k = cc
      by_choice (ok v) c m k =
          let (n, chosen, attrs) = hook_reply-some v k updated in
          let (method, found, not_mab, from) =
            choose_vlan-FromTables (extract_attrs p) (c ∙ ap ok chosen) in
          (m, (method, found, not_mab), (n, attrs, from))

      by_marker :
          (r : Result Bool)
          → is_success (extract_attrs p) ≡ r
          → (after_marker o db (extract_attrs p) r).0 ≡ ok reply
          → (is_success (extract_attrs p) ≡ ok true)
            × ((method : Text) × (detect_auth_method (extract_attrs p) ≡ ok method)
                × (text_eq method mab ≡ false))
            × ((n : ℕ) × (reply.reply_attrs ≡ tunnel_attrs n) × FromTables o db (extract_attrs p) n)
      by_marker (err e) m k = cc
      by_marker (ok true) m k = by_choice (choose_vlan o db (extract_attrs p)) refl m k
      by_marker (ok false) m k =
          let same : hook_reply none ≡ reply = cc in let no = ap (λ r. r.code) same ∙ updated in cc
