-- ===== src/Engine.antt =====
-- services/policy_engine/main.py: `execute_action`, which turns an action of a policy into a message
-- of the bus. Device holds the handler that runs the policies of a device.
pub mod Assignment
pub mod Device
pub mod Evaluations
mod Tests
use openradiusweb.Prelude.{
  Bool, true, false, Option, none, some, List, [], ◌∷◌, ◌++◌, if◌then◌else◌, ◌||◌,
}
use openradiusweb.Prelude.Text.{Text, codes, text_eq}
use openradiusweb.Prelude.Result.{Result, ok, err, attribute_error, type_error}
use openradiusweb.Value.{
  Value, null, bool, int, str, list, dict, nil, Fields, end, field, fields, get, get_or_null,
  is_true, num,
}
use openradiusweb.Policy.Values.{to_text}

-- What is published: the subject and the message.
abbrev pub Messages : Type 0
Messages = List (Text × Fields)

abbrev or_default : Option Value → Value → Value
or_default none v = v
or_default (some v) w = v

-- `params.get(key, default)`.
abbrev pub param : Text → Value → Fields → Value
param key v params = or_default (get key params) v

-- `str(device.get(key))`.
abbrev device_text : Text → Fields → Value
device_text key device = str (to_text (get_or_null key device))

abbrev device_id : Fields → Text × Value
device_id device = (codes "device_id", device_text (codes "id") device)

abbrev mac_address : Fields → Text × Value
mac_address device = (codes "mac_address", device_text (codes "mac_address") device)

abbrev message : Text → List (Text × Value) → Messages
message subject pairs = (subject, fields pairs) ∷ []

-- `d[key] = value`: a known key keeps its place.
abbrev pub put : Text → Value → Fields → Fields
put key v end = field key v end
put key v (field k w rest) = if text_eq k key then field k v rest else field k w (put key v rest)

-- `{**d, **params}`.
abbrev merge : Fields → Fields → Fields
merge d end = d
merge d (field k v rest) = merge (put k v d) rest

abbrev or_value : Value → Value → Value
or_value a b = if is_true a then a else b

-- A value on which `get` is called: what is no dict has no such method.
abbrev pub with_params : Value → (Fields → Messages) → Result Messages
with_params (dict params) build = ok (build params)
with_params _ build = err attribute_error

-- A value that `**` takes apart.
abbrev with_mapping : Value → (Fields → Messages) → Result Messages
with_mapping (dict params) build = ok (build params)
with_mapping _ build = err type_error

-- The number of the VLAN, under either of its names.
abbrev pub target_vlan : Fields → Value
target_vlan params =
    or_value (get_or_null (codes "vlan") params) (get_or_null (codes "vlan_id") params)

unfoldable pub assign_vlan : Fields → Fields → Messages
assign_vlan device params =
    if is_true (target_vlan params)
    then message (codes "orw.policy.action.vlan_assign")
        (device_id device ∷ mac_address device ∷ (codes "target_vlan", target_vlan params) ∷ [])
    else []

abbrev quarantine : Fields → Fields → Messages
quarantine device params = message (codes "orw.policy.action.quarantine") (
    device_id device
    ∷ mac_address device
    ∷ (codes "reason", param (codes "reason") (str (codes "policy_violation")) params)
    ∷ [])

abbrev notify : Fields → Fields → Messages
notify device params = message (codes "orw.policy.action.notify") (
    device_id device
    ∷ (codes "template", param (codes "template") (str (codes "default")) params)
    ∷ (codes "recipients", param (codes "recipients") (list nil) params)
    ∷ [])

abbrev apply_acl : Fields → Fields → Messages
apply_acl device params =
    message (codes "orw.policy.action.acl_apply")
      (device_id device ∷ (codes "acl_name", get_or_null (codes "acl") params) ∷ [])

abbrev request_coa : Fields → Fields → Messages
request_coa device params = message (codes "orw.policy.action.coa") (
    mac_address device
    ∷ (codes "action", param (codes "action") (str (codes "reauthenticate")) params)
    ∷ (codes "vlan_id", get_or_null (codes "vlan_id") params)
    ∷ (codes "acl_name", get_or_null (codes "acl_name") params)
    ∷ [])

abbrev reject : Fields → Fields → Messages
reject device params =
    message (codes "orw.policy.action.reject")
      (device_id device ∷ (codes "reason", get_or_null (codes "reason") params) ∷ [])

abbrev create_incident : Fields → Fields → Messages
create_incident device params = message (codes "orw.policy.action.create_incident") (
    device_id device
    ∷ (codes "title", get_or_null (codes "title") params)
    ∷ (codes "severity", param (codes "severity") (str (codes "medium")) params)
    ∷ (codes "integration", param (codes "integration") (str (codes "thehive")) params)
    ∷ [])

abbrev tag_device : Fields → Fields → Messages
tag_device device params =
    message (codes "orw.policy.action.tag_device")
      (device_id device ∷ (codes "tag", get_or_null (codes "tag") params) ∷ [])

abbrev forward : Text → Fields → Fields → Messages
forward kind device params =
    (codes "orw.policy.action." ++ kind, merge (fields (device_id device ∷ [])) params) ∷ []

-- The chain of tests on the type of the action.
unfoldable pub execute_typed : Text → Value → Fields → Result Messages
execute_typed kind params device =
    let is = text_eq kind in
    if is (codes "vlan_assign")
    then with_params params (assign_vlan device)
    else if is (codes "quarantine")
    then with_params params (quarantine device)
    else if is (codes "notify")
    then with_params params (notify device)
    else if is (codes "acl_apply")
    then with_params params (apply_acl device)
    else if is (codes "coa")
    then with_params params (request_coa device)
    else if is (codes "reject")
    then with_params params (reject device)
    else if is (codes "bounce_port")
    then ok (message (codes "orw.switch.bounce_port") (device_id device ∷ mac_address device ∷ []))
    else if is (codes "create_incident")
    then with_params params (create_incident device)
    else if is (codes "tag_device")
    then with_params params (tag_device device)
    else if is (codes "log") || (is (codes "captive_portal") || is (codes "qos_apply"))
    then with_mapping params (forward kind device)
    else ok []

abbrev pub by_type : Value → Value → Fields → Result Messages
by_type (str kind) params device = execute_typed kind params device
by_type (list vs) params device = ok []
by_type _ params device = ok []

-- `execute_action`; a type that is no text equals none of the names.
unfoldable pub execute_action : Fields → Fields → Result Messages
execute_action action device =
    by_type (param (codes "type") (str []) action) (param (codes "params") (dict end) action) device
