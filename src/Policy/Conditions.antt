-- ===== src/Policy/Conditions.antt =====
-- shared/orw_common/policy_evaluator.py: `_resolve_field`, `evaluate` and `evaluate_with_details`.
use openradiusweb.Prelude.{
  Bool, true, false, ◌&&◌, Option, none, some, List, [], ◌∷◌, if◌then◌else◌, ltb, leb,
}
use openradiusweb.Prelude.Text.{Text, codes, starts_with, split, replace_code}
use openradiusweb.Prelude.Result.{Result, ok, err, type_error, attribute_error, ◌>>=◌}
use openradiusweb.Value.{
  Value, null, bool, str, list, dict, nil, Fields, end, items, get, get_or_null, is_true, num,
}
use openradiusweb.Policy.Evaluator.{Clock, Python, find_text, compare}

-- `direct_fields` and `aliases`; a direct field stands for itself.
abbrev aliases : List (Text × Text)
aliases =
    (codes "mac_address", codes "mac_address")
    ∷ (codes "ip_address", codes "ip_address")
    ∷ (codes "hostname", codes "hostname")
    ∷ (codes "device_type", codes "device_type")
    ∷ (codes "os_family", codes "os_family")
    ∷ (codes "os_version", codes "os_version")
    ∷ (codes "vendor", codes "vendor")
    ∷ (codes "model", codes "model")
    ∷ (codes "status", codes "status")
    ∷ (codes "risk_score", codes "risk_score")
    ∷ (codes "first_seen", codes "first_seen")
    ∷ (codes "last_seen", codes "last_seen")
    ∷ (codes "device.type", codes "device_type")
    ∷ (codes "device.os", codes "os_family")
    ∷ (codes "device.os_version", codes "os_version")
    ∷ (codes "device.vendor", codes "vendor")
    ∷ (codes "device.mac", codes "mac_address")
    ∷ (codes "device.ip", codes "ip_address")
    ∷ (codes "device.hostname", codes "hostname")
    ∷ (codes "device.status", codes "status")
    ∷ (codes "device.risk_score", codes "risk_score")
    ∷ (codes "auth.method", codes "auth_method")
    ∷ (codes "auth.username", codes "username")
    ∷ (codes "auth.802_1x", codes "is_dot1x")
    ∷ (codes "auth.mab", codes "is_mab")
    ∷ (codes "network.nas_ip", codes "nas_ip")
    ∷ (codes "network.nas_port", codes "nas_port")
    ∷ (codes "network.switch_ip", codes "nas_ip")
    ∷ (codes "network.port", codes "nas_port_id")
    ∷ (codes "network.vlan", codes "current_vlan")
    ∷ (codes "network.ssid", codes "ssid")
    ∷ (codes "user.name", codes "username")
    ∷ (codes "user.domain", codes "user_domain")
    ∷ (codes "user.group", codes "ad_groups")
    ∷ (codes "user.department", codes "ad_department")
    ∷ (codes "user.email", codes "user_email")
    ∷ []

-- `_resolve_time_field`.
unfoldable pub resolve_time_field : Clock → Text → Value
resolve_time_field now name =
    let time_fields =
      (codes "time.hour", num now.hour)
      ∷ (codes "time.minute", num now.minute)
      ∷ (codes "time.weekday", num now.weekday)
      ∷ (codes "time.day_of_month", num now.day)
      ∷ (codes "time.month", num now.month)
      ∷ (codes "time.date", str now.date)
      ∷ (
        codes "time.is_business_hours",
        bool ((leb 9 now.hour && leb now.hour 17) && ltb now.weekday 5),
      )
      ∷ (codes "time.is_weekend", bool (leb 5 now.weekday))
      ∷ [] in
    elim (find_text name time_fields) [ none ↦ null | some v ↦ v ]

-- The loop over the parts of a path.
unfoldable pub walk : List Text → Value → Value
walk [] current = current
walk (part ∷ parts) (dict d) = elim (get part d) [ none ↦ null | some v ↦ walk parts v ]
walk (part ∷ parts) _ = null

abbrev properties_of : Fields → Value
properties_of context = elim (get (codes "properties") context) [ none ↦ dict end | some v ↦ v ]

abbrev resolve_path : Clock → Text → Fields → Option Value → Value
resolve_path now name context (some v) = v
resolve_path now name context none =
    if starts_with name (codes "time.")
    then resolve_time_field now name
    else walk (split b'.' name) (properties_of context)

abbrev resolve_alias : Clock → Text → Fields → Option Text → Value
resolve_alias now name context (some key) = get_or_null key context
resolve_alias now name context none =
    resolve_path now name context (get (replace_code b'.' b'_' name) context)

-- `_resolve_field`: a field that is no text is no member of a set, or has no `replace`.
unfoldable pub resolve_field : Clock → Value → Fields → Result Value
resolve_field now (str []) context = ok null
resolve_field now (str (c ∷ s)) context =
    ok (resolve_alias now (c ∷ s) context (find_text (c ∷ s) aliases))
resolve_field now (list vs) context = if is_true (list vs) then err type_error else ok null
resolve_field now (dict d) context = if is_true (dict d) then err type_error else ok null
resolve_field now v context = if is_true v then err attribute_error else ok null

abbrev or_default : Option Value → Value → Value
or_default none v = v
or_default (some v) w = v

-- One round of either loop: what a condition gives.
unfoldable pub check : Python → Fields → Fields → Result Bool
check p context condition = do
  actual ← resolve_field p.clock (or_default (get (codes "field") condition) (str [])) context
  compare p actual (or_default (get (codes "operator") condition) (str (codes "equals")))
      (get_or_null (codes "value") condition)

abbrev pub go_on : Bool → Result Bool → Result Bool
go_on true later = later
go_on false later = ok false

-- The loop of `evaluate`: it returns at the first condition that fails. Whatever is no dict is
-- passed over.
unfoldable pub evaluate_all : Python → Fields → List Value → Result Bool
evaluate_all p context [] = ok true
evaluate_all p context (dict c ∷ rest) = do
  matched ← check p context c
  go_on matched (evaluate_all p context rest)
evaluate_all p context (_ ∷ rest) = evaluate_all p context rest

-- What a `for` finds in a value: the keys of a dict and the characters of a text are no dicts.
abbrev pub iterated : Value → Result (List Value)
iterated (list vs) = ok (items vs)
iterated (str s) = ok []
iterated (dict d) = ok []
iterated _ = err type_error

abbrev pub conditions_of : Fields → Value
conditions_of policy = or_default (get (codes "conditions") policy) (list nil)

-- `evaluate`.
unfoldable pub evaluate : Python → Fields → Fields → Result Bool
evaluate p policy context =
    if is_true (conditions_of policy)
    then (do conditions ← iterated (conditions_of policy); evaluate_all p context conditions)
    else ok true

-- A condition with its result; the value that its field had is left out.
pub record Detail : Type 0 where
  pub condition : Fields
  pub matched : Bool

pub record Details : Type 0 where
  pub all_matched : Bool
  pub conditions : List Detail

abbrev pub add_detail : Fields → Bool → Details → Details
add_detail c b d = record {
  all_matched = b && d.all_matched;
  conditions = record { condition = c; matched = b } ∷ d.conditions;
}

-- The loop of `evaluate_with_details`: it goes on after a condition that fails.
unfoldable pub details_of : Python → Fields → List Value → Result Details
details_of p context [] = ok (record { all_matched = true; conditions = [] })
details_of p context (dict c ∷ rest) = do
  matched ← check p context c
  later ← details_of p context rest
  ok (add_detail c matched later)
details_of p context (_ ∷ rest) = details_of p context rest

-- `evaluate_with_details`, but for the policy's id and name.
unfoldable pub evaluate_with_details : Python → Fields → Fields → Result Details
evaluate_with_details p policy context = do
  conditions ← iterated (conditions_of policy)
  details_of p context conditions
