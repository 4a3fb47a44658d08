-- ===== src/Config/Lines.antt =====
-- freeradius_config_manager.py: the lines of clients.conf.
use mathlib.Core.List.{reverse, reverse-cons}
use openradiusweb.Prelude.{
  ℕ, zero, suc, take, ◌≡◌, refl, inl, inr, true, false, not, Option, none, some, List, [], ◌∷◌,
  ◌++◌, ◌==◌, Bool-cases, if_both, All, All-append, arith, all,
}
use openradiusweb.Prelude.Text.{
  Text, codes, truthy, opt_truthy, text_or_empty, strip, left_strip, replace_code, is_blank,
}
use openradiusweb.Prelude.Result.{ok, >>=-eq-ok}
use openradiusweb.Config.Tables.{NasClient, Db, Outside, load_nas_clients, load_realms}
use openradiusweb.Config.Realms.{str_opt, generate_proxy_config}
use openradiusweb.Config.Files.{generate_all_configs}
use openradiusweb.Config.Templates.{or_text, generate_eap_config, generate_ldap_configs}
use openradiusweb.Config.Clients.{
  shortname_of, safe_desc, client_lines, all_client_lines, generate_clients_config,
}

-- A text in one line.
abbrev pub IsLine : Text → Type 0
IsLine s = All (λ c. (c == 10) ≡ false) s

reverse-IsLine : (s : Text) → IsLine s → IsLine (reverse s)
reverse-IsLine [] h = tt
reverse-IsLine (a ∷ s) (p, h) =
    rw (reverse-cons a s) (All-append _ (reverse s) (a ∷ []) (reverse-IsLine s h) (p, tt))

-- For a literal the test computes.
pub literal : (s : Text) → all (λ c. not (c == 10)) s ≡ true → IsLine s
literal [] h = tt
literal (a ∷ s) h = ground (arith, literal s)

-- A literal, and what stands behind it.
after : (s t : Text) → all (λ c. not (c == 10)) s ≡ true → IsLine t → IsLine (s ++ t)
after s t h k = All-append _ s t (literal s h) k

left_strip-IsLine : (s : Text) → IsLine s → IsLine (left_strip s)
unfolding left_strip
left_strip-IsLine [] h = tt
left_strip-IsLine (a ∷ s) (p, h) = if_both IsLine (is_blank a) _ _ (left_strip-IsLine s h) (p, h)

replace_code-IsLine : (s : Text) → IsLine (replace_code 10 32 s)
unfolding replace_code
replace_code-IsLine [] = tt
replace_code-IsLine (a ∷ s) = elim (Bool-cases (a == 10)) [
  | inl e ↦ rw e (refl, replace_code-IsLine s)
  | inr e ↦ rw e (e, replace_code-IsLine s)
]

safe_desc-IsLine : (s : Text) → IsLine (safe_desc s)
unfolding safe_desc strip
safe_desc-IsLine s =
    reverse-IsLine _
      (left_strip-IsLine _ (reverse-IsLine _ (left_strip-IsLine _ (replace_code-IsLine s))))

take-IsLine : (n : ℕ) (s : Text) → IsLine s → IsLine (take n s)
take-IsLine zero s h = tt
take-IsLine (suc n) [] h = tt
take-IsLine (suc n) (a ∷ s) (p, h) = (p, take-IsLine n s h)

abbrev pub IsLineOpt : Option Text → Type 0
IsLineOpt none = Unit
IsLineOpt (some s) = IsLine s

or_text-IsLine : (x : Option Text) (d : Text) → IsLineOpt x → IsLine d → IsLine (or_text x d)
or_text-IsLine none d h k = k
or_text-IsLine (some s) d h k = if_both IsLine (truthy s) _ _ h k

str_opt-IsLine : (x : Option Text) → IsLineOpt x → IsLine (str_opt x)
str_opt-IsLine none h = literal (codes "None") refl
str_opt-IsLine (some s) h = h

text_or_empty-IsLine : (x : Option Text) → IsLineOpt x → IsLine (text_or_empty x)
text_or_empty-IsLine none h = tt
text_or_empty-IsLine (some s) h = h

-- The columns of a client that stand in lines of their own, without the description.
abbrev pub HasLines : NasClient → Type 0
HasLines c =
    IsLine c.name
    × IsLine c.ip_address
    × IsLineOpt c.shortname
    × IsLineOpt c.nas_type
    × IsLineOpt c.virtual_server

shortname_of-IsLine : (c : NasClient) → HasLines c → IsLine (shortname_of c)
unfolding shortname_of
shortname_of-IsLine c (name, ip, short, type_line, server) =
    or_text-IsLine c.shortname _ short (take-IsLine 31 c.name name)

-- Where the other columns and the secret have no line break, each line of a client's block is one
-- line, whatever its description holds.
pub client_lines-IsLine :
    (c : NasClient) (secret : Option Text)
    → HasLines c
    → IsLineOpt secret
    → All IsLine (client_lines c secret)
unfolding client_lines
client_lines-IsLine c secret (name, ip, short, type_line, server) h =
    let shortname = shortname_of-IsLine c (name, ip, short, type_line, server) in
    (
      after (codes "client ") _ refl (All-append _ _ _ shortname (literal (codes " {") refl)),
      (
        after (codes "    ipaddr = ") _ refl ip,
        (
          after (codes "    secret = ") _ refl
              (or_text-IsLine secret _ h (literal (codes "changeme") refl)),
          (
            after (codes "    shortname = ") _ refl shortname,
            (
              after (codes "    nas_type = ") _ refl (str_opt-IsLine c.nas_type type_line),
              All-append IsLine _ _
                  (if_both (All IsLine) (opt_truthy c.virtual_server) _ _
                    (
                      after (codes "    virtual_server = ") _ refl
                          (text_or_empty-IsLine c.virtual_server server),
                      tt,
                    )
                    tt)
                  (All-append IsLine _ _
                    (if_both (All IsLine) (opt_truthy c.description) _ _
                      (after (codes "    # ") _ refl (safe_desc-IsLine _), tt) tt)
                    (literal (codes "}") refl, (tt, tt))),
            ),
          ),
        ),
      ),
    )

-- The secrets of all clients that are loaded can be read.
abbrev pub Decrypts : Outside → List NasClient → Type 0
Decrypts o clients =
    All (λ c. (s : Option Text) × (o.decrypt_secret c.secret_encrypted ≡ ok s)) clients

all_client_lines-Decrypts :
    (o : Outside) (clients : List NasClient) (lines : List Text)
    → all_client_lines o clients ≡ ok lines
    → Decrypts o clients
unfolding all_client_lines
all_client_lines-Decrypts o [] lines h = tt
all_client_lines-Decrypts o (c ∷ clients) lines h =
    let (s, e, h1) = >>=-eq-ok (o.decrypt_secret c.secret_encrypted) _ h in
    let (rest, e1, h2) = >>=-eq-ok (all_client_lines o clients) _ h1 in
    ((s, e), all_client_lines-Decrypts o clients rest e1)

-- A file of clients, and a configuration at all, is there only where every enabled client's secret
-- can be decrypted.
pub generate_all_configs-Decrypts :
    (o : Outside) (db : Db) (configs : List (Text × Text))
    → generate_all_configs o db ≡ ok configs
    → (clients : List NasClient) × (load_nas_clients o db ≡ ok clients) × Decrypts o clients
unfolding generate_all_configs generate_clients_config
generate_all_configs-Decrypts o db configs h =
    let (eap, _, h1) = >>=-eq-ok (generate_eap_config o db) _ h in
    let (ldap, _, h2) = >>=-eq-ok (generate_ldap_configs o db) _ h1 in
    let (realms, _, h3) = >>=-eq-ok (load_realms o db) _ h2 in
    let (proxy, _, h4) = >>=-eq-ok (generate_proxy_config o db) _ h3 in
    let (content, e, _) = >>=-eq-ok (generate_clients_config o db) _ h4 in
    let (clients, loaded, e1) = >>=-eq-ok (load_nas_clients o db) _ e in
    let (lines, read, _) = >>=-eq-ok (all_client_lines o clients) _ e1 in
    (clients, loaded, all_client_lines-Decrypts o clients lines read)
