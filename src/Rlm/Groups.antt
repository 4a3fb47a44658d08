-- ===== src/Rlm/Groups.antt =====
-- rlm_orw.py: `_get_user_ldap_groups` and `_lookup_vlan_for_groups`.
use openradiusweb.Prelude.{
  ℕ, zero, suc, Bool, ◌&&◌, Option, none, some, List, [], ◌∷◌, keep_if, any, if◌then◌else◌, not,
  drop, least_by,
}
use openradiusweb.Prelude.Text.{
  Text, codes, text_eq, text_or_empty, split_first, split_last, split, strip, upper, starts_with,
  replace_text,
}
use openradiusweb.Prelude.Result.{Result, ok, err, ◌>>=◌}
use openradiusweb.Rlm.Attrs.{AttrValue, one, many}
use openradiusweb.Rlm.Tables.{LdapServer, GroupMapping, Db, Outside, LdapQuery, of_tenant}

-- `ORDER BY priority ASC LIMIT 1` over the servers that are enabled.
unfoldable pub ldap_server : Outside → Db → Option LdapServer
ldap_server o db =
    least_by (λ s. s.priority)
      (keep_if (λ s. s.enabled && of_tenant o.tenant s.tenant_id) db.ldap_servers)

abbrev or_text : Option Text → Text → Text
or_text none other = other
or_text (some []) other = other
or_text (some (c ∷ t)) other = c ∷ t

abbrev port_or : Option ℕ → ℕ → ℕ
port_or none other = other
port_or (some zero) other = other
port_or (some (suc n)) other = suc n

abbrev text_or : Option Text → Text → Text
text_or none other = other
text_or (some t) other = t

-- The part after the first `c`, and the part before the last.
abbrev after_first : ℕ → Text → Option Text
after_first c t = elim (split_first c t) [ none ↦ none | some (before, after) ↦ some after ]

abbrev before_last : ℕ → Text → Option Text
before_last c t = elim (split_last c t) [ none ↦ none | some (before, after) ↦ some before ]

-- The name without its domain: the part after the first backslash, or before the last `@`.
unfoldable pub search_user : Text → Text
search_user username =
    text_or (after_first b'\\' username) (text_or (before_last b'@' username) username)

-- The two placeholders of the filter, replaced by the name as it is.
unfoldable pub fill_filter : Text → Text → Text
fill_filter pattern' user =
    replace_text (codes "{username}") user
      (replace_text (codes "%{%{Stripped-User-Name}:-%{User-Name}}") user pattern')

-- `decrypt_secret(…) or ""`.
abbrev pub bind_password : Outside → LdapServer → Result Text
bind_password o s = do secret ← o.decrypt s.bind_password_encrypted; ok (text_or_empty secret)

unfoldable pub ldap_query : LdapServer → Text → Text → LdapQuery
ldap_query s password username = record {
  host = s.host;
  port = port_or s.port (if s.use_tls then 636 else 389);
  use_ssl = s.use_tls;
  start_tls = s.use_starttls && not s.use_tls;
  bind_dn = s.bind_dn;
  bind_password = password;
  search_base = or_text s.user_search_base s.base_dn;
  search_filter =
      fill_filter (or_text s.user_search_filter (codes "(sAMAccountName={username})"))
        (search_user username);
  attribute = or_text s.group_membership_attr (codes "memberOf");
}

-- The first part that begins with `CN=`, in either case of letters, without these characters.
unfoldable pub first_cn : List Text → Option Text
first_cn [] = none
first_cn (part ∷ parts) =
    let later = first_cn parts in
    if starts_with (upper (strip part)) (codes "CN=") then some (drop 3 (strip part)) else later

abbrev add_group : Option Text → List Text → List Text
add_group none groups = groups
add_group (some g) groups = g ∷ groups

-- The loop over the values of the attribute.
unfoldable pub group_names : List Text → List Text
group_names [] = []
group_names (dn ∷ rest) = add_group (first_cn (split b',' dn)) (group_names rest)

-- The groups of the first entry that the directory returns; nothing where it raises.
abbrev entry_groups : Option (List (Option (List Text))) → List Text
entry_groups none = []
entry_groups (some []) = []
entry_groups (some (none ∷ entries)) = []
entry_groups (some (some values ∷ entries)) = group_names values

abbrev search_groups : Outside → LdapServer → Text → Result Text → List Text
search_groups o s username (err e) = []
search_groups o s username (ok password) = entry_groups (o.search (ldap_query s password username))

abbrev server_groups : Outside → Text → Option LdapServer → List Text
server_groups o username none = []
server_groups o username (some s) = search_groups o s username (bind_password o s)

-- `_get_user_ldap_groups`: whatever raises in it gives no groups; a name that is a list raises
-- at the latest where the filter is filled.
unfoldable pub get_user_ldap_groups : Outside → Db → AttrValue → List Text
get_user_ldap_groups o db (many names) = []
get_user_ldap_groups o db (one username) =
    if o.has_ldap3 && o.connected then server_groups o username (ldap_server o db) else []

-- The condition of the query over the mappings.
abbrev pub is_mapping : Outside → List Text → GroupMapping → Bool
is_mapping o groups m =
    any (λ g. text_eq m.group_name g) groups && (m.enabled && of_tenant o.tenant m.tenant_id)

-- The mapping that `_lookup_vlan_for_groups` takes the VLAN and the name of the group from.
unfoldable pub mapping_for_groups : Outside → Db → List Text → Option GroupMapping
mapping_for_groups o db groups =
    if o.connected
    then least_by (λ m. m.priority) (keep_if (is_mapping o groups) db.group_vlan_mappings)
    else none

abbrev pub vlan_of : Option GroupMapping → Option ℕ
vlan_of none = none
vlan_of (some m) = some m.vlan_id

-- `_lookup_vlan_for_groups`, the number of the VLAN.
unfoldable pub lookup_vlan_for_groups : Outside → Db → List Text → Option ℕ
lookup_vlan_for_groups o db [] = none
lookup_vlan_for_groups o db (g ∷ groups) = vlan_of (mapping_for_groups o db (g ∷ groups))
