-- ===== src/Rlm/Method.antt =====
-- rlm_orw.py: `_detect_auth_method`.
use openradiusweb.Prelude.{ℕ, ◌&&◌, none, some, List, [], ◌∷◌, ◌++◌, ◌==◌, if◌then◌else◌}
use openradiusweb.Prelude.Text.{Text, codes, text_eq, lower, parse_digits}
use openradiusweb.Prelude.Result.{Result, ok, ◌>>=◌}
use openradiusweb.Mac.{strip_separators}
use openradiusweb.Rlm.Attrs.{Attrs, get, get_or_empty, is_true, as_text, is_text}

-- `EAP_METHOD_MAP`.
abbrev pub eap_methods : List (ℕ × Text)
eap_methods =
    (1, codes "Identity")
    ∷ (4, codes "MD5-Challenge")
    ∷ (6, codes "GTC")
    ∷ (13, codes "EAP-TLS")
    ∷ (21, codes "EAP-TTLS")
    ∷ (25, codes "PEAP")
    ∷ (26, codes "MSCHAPv2")
    ∷ (43, codes "EAP-FAST")
    ∷ []

method_name : ℕ → Text → List (ℕ × Text) → Text
method_name n other [] = other
method_name n other ((m, name) ∷ rest) = if m == n then name else method_name n other rest

-- `int(eap_type) if eap_type.isdigit() else 0`.
abbrev method_number : Text → ℕ
method_number t = elim (parse_digits t) [ none ↦ 0 | some n ↦ n ]

unfoldable pub eap_method : Text → Text
unfolding method_name
eap_method t = method_name (method_number t) (codes "EAP-" ++ t) eap_methods

-- `value.replace(":", "").replace("-", "").replace(".", "").lower()`.
abbrev pub bare : Text → Text
bare s = lower (strip_separators s)

abbrev pub mab : Text
mab = codes "MAB"

-- What remains when the name is not the MAC address.
abbrev by_service_type : Attrs → Text
by_service_type request =
    if is_text (codes "Call-Check") (get "Service-Type" request) then mab else codes "PAP"

-- The comparison of the station's MAC address with the user's name.
abbrev by_station : Attrs → Result Text
by_station request =
    let calling_id = get_or_empty "Calling-Station-Id" request in
    let username = get_or_empty "User-Name" request in
    if is_true calling_id && is_true username
    then (do
      station ← as_text calling_id
      name ← as_text username
      ok (if text_eq (bare station) (bare name) then mab else by_service_type request))
    else ok (by_service_type request)

-- `_detect_auth_method`; its second argument is not used.
unfoldable pub detect_auth_method : Attrs → Result Text
unfolding eap_method
detect_auth_method request =
    let eap_type = get_or_empty "EAP-Type" request in
    if is_true eap_type then (do t ← as_text eap_type; ok (eap_method t)) else by_station request
