-- ===== src/Config/Names.antt =====
-- freeradius_config_manager.py: the names of the files that `generate_all_configs` returns.
use openradiusweb.Prelude.{
  ◌≡◌, refl, ◌∙◌, sym, inl, inr, Bool, true, false, List, [], ◌∷◌, ◌++◌, Bool-cases, if_both, All,
  subst,
}
use openradiusweb.Prelude.Text.{Text, codes, text_eq, text_eq_refl, eq_of_text_eq, truthy}
use openradiusweb.Prelude.Result.{Result, ok, err, ◌>>=◌}
use openradiusweb.Prelude.Dict.{put}
use openradiusweb.Config.Tables.{Db, Outside, load_realms}
use openradiusweb.Config.Templates.{generate_eap_config, generate_ldap_configs}
use openradiusweb.Config.Realms.{generate_proxy_config}
use openradiusweb.Config.Clients.{generate_clients_config}
use openradiusweb.Config.Files.{
  put_if, put_ldap, site_files, module_files, python_content, generate_all_configs,
}
use openradiusweb.Config.Rounds.{IsDistinct}
use openradiusweb.Config.CertFiles.{cert_entry}

-- No name twice, and none is the tracker's name for the certificates.
unfoldable pub IsNamed : List (Text × Text) → Type 0
IsNamed configs = IsDistinct configs × All (λ e. text_eq (e.0) cert_entry ≡ false) configs

put-All :
    (P : Text → Type 0) (key value : Text) (l : List (Text × Text))
    → P key
    → All (λ e. P (e.0)) l
    → All (λ e. P (e.0)) (put key value l)
unfolding put
put-All P key value [] p h = (p, tt)
put-All P key value ((k, v) ∷ l) p (q, h) =
    if_both (All (λ e. P (e.0))) (text_eq k key) _ _ (q, h) (q, put-All P key value l p h)

text_eq_sym : (s t : Text) → text_eq s t ≡ false → text_eq t s ≡ false
text_eq_sym s t h = elim (Bool-cases (text_eq t s)) [
  | inl e ↦
      let same : t ≡ s = eq_of_text_eq t s e in
      let never : true ≡ false = sym (text_eq_refl s) ∙ rw same at h in cc
  | inr e ↦ e
]

put-IsDistinct :
    (key value : Text) (l : List (Text × Text)) → IsDistinct l → IsDistinct (put key value l)
unfolding put
put-IsDistinct key value [] h = (tt, tt)
put-IsDistinct key value ((k, v) ∷ l) (h, d) = elim (Bool-cases (text_eq k key)) [
  | inl e ↦ rw e (h, d)
  | inr e ↦ rw e (
    put-All (λ x. text_eq x k ≡ false) key value l (text_eq_sym k key e) h,
    put-IsDistinct key value l d,
  )
]

put-IsNamed :
    (key value : Text) (l : List (Text × Text))
    → text_eq key cert_entry ≡ false
    → IsNamed l
    → IsNamed (put key value l)
unfolding IsNamed
put-IsNamed key value l e (d, h) =
    (put-IsDistinct key value l d, put-All (λ x. text_eq x cert_entry ≡ false) key value l e h)

put_if-IsNamed :
    (key value : Text) (l : List (Text × Text))
    → text_eq key cert_entry ≡ false
    → IsNamed l
    → IsNamed (put_if key value l)
put_if-IsNamed key value l e h = if_both IsNamed (truthy value) _ _ (put-IsNamed key value l e h) h

put_ldap-IsNamed : (files l : List (Text × Text)) → IsNamed l → IsNamed (put_ldap files l)
unfolding put_ldap
put_ldap-IsNamed [] l h = h
put_ldap-IsNamed ((f, c) ∷ files) l h =
    put_ldap-IsNamed files _ (put-IsNamed (codes "mods-available/" ++ f) c l refl h)

site_files-IsNamed :
    (has_eap : Bool) (proxy clients default inner : Text) (l : List (Text × Text))
    → IsNamed l
    → IsNamed (site_files has_eap proxy clients default inner l)
site_files-IsNamed has_eap proxy clients default inner l h =
    let sites = put_if-IsNamed (codes "sites-available/default") default _ refl (
      put_if-IsNamed (codes "clients.conf") clients _ refl
        (put_if-IsNamed (codes "proxy.conf") proxy l refl h)) in
    if_both IsNamed has_eap _ _
      (put_if-IsNamed (codes "sites-available/inner-tunnel") inner _ refl sites) sites

-- What is returned, if anything is, has such names.
unfoldable pub OkNamed : Result (List (Text × Text)) → Type 0
OkNamed r = (configs : List (Text × Text)) → r ≡ ok configs → IsNamed configs

and_then-OkNamed :
    {A : Type 0} (r : Result A) (f : A → Result (List (Text × Text)))
    → ((a : A) → OkNamed (f a))
    → OkNamed (r >>= f)
unfolding OkNamed
and_then-OkNamed (ok a) f k = k a
and_then-OkNamed (err e) f k = λ configs h. cc

ok-OkNamed : (l : List (Text × Text)) → IsNamed l → OkNamed (ok l)
unfolding OkNamed
ok-OkNamed l h configs e = let same : l ≡ configs = cc in subst IsNamed same h

nothing-IsNamed : IsNamed []
unfolding IsNamed
nothing-IsNamed = (tt, tt)

module_files-IsNamed :
    (eap python : Text) (ldap : List (Text × Text)) → IsNamed (module_files eap ldap python)
module_files-IsNamed eap python ldap =
    put_if-IsNamed (codes "mods-available/python") python _ refl (
      put_ldap-IsNamed ldap _
        (put_if-IsNamed (codes "mods-available/eap") eap [] refl nothing-IsNamed))

pub generate_all_configs-OkNamed : (o : Outside) (db : Db) → OkNamed (generate_all_configs o db)
unfolding generate_all_configs
generate_all_configs-OkNamed o db = and_then-OkNamed (generate_eap_config o db) _ (λ eap.
    and_then-OkNamed (generate_ldap_configs o db) _ (λ ldap.
      and_then-OkNamed (load_realms o db) _ (λ realms.
        and_then-OkNamed (generate_proxy_config o db) _ (λ proxy.
          and_then-OkNamed (generate_clients_config o db) _ (λ clients. ok-OkNamed _ (
            site_files-IsNamed (truthy eap) proxy clients _ _ _
              (module_files-IsNamed eap (python_content o) (ldap.0))))))))
