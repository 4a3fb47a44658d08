-- ===== src/Engine/Device.antt =====
-- services/policy_engine/main.py: `handle_evaluate_device`, which evaluates every enabled policy of a
-- device's tenant, records the results and executes the actions.
use openradiusweb.Prelude.Order.{order_by}
use openradiusweb.Prelude.{
  ℕ, Bool, ◌&&◌, Option, none, some, List, [], ◌∷◌, ◌++◌, keep_if, first, if◌then◌else◌, ltb,
}
use openradiusweb.Prelude.Text.{Text, codes, text_eq}
use openradiusweb.Prelude.Result.{Result, ok, err, key_error, type_error, db_error}
use openradiusweb.Prelude.Exec.{Exec, pure, raise, lift, gets, modify, ◌>>=◌, ◌>>◌}
use openradiusweb.Value.{
  Value, str, list, dict, Fields, end, field, get, get_or_null, is_true, items,
}
use openradiusweb.Policy.Values.{to_text}
use openradiusweb.Policy.Evaluator.{Python}
use openradiusweb.Policy.Conditions.{evaluate}
use openradiusweb.Engine.{Messages, put, execute_action}

-- A row of `policies`, with its columns of JSON decoded.
pub record Policy : Type 0 where
  pub id : Text
  pub tenant_id : Text
  pub enabled : Bool
  pub priority : ℕ
  pub conditions : Value
  pub match_actions : Value
  pub no_match_actions : Value

-- A row of `device_properties`.
pub record Property : Type 0 where
  pub device_id : Text
  pub category : Text
  pub key : Text
  pub value : Value

-- A row of `policy_evaluations`.
pub record Evaluation : Type 0 where
  pub policy_id : Text
  pub device_id : Text
  pub result : Text
  pub actions_taken : Text

-- The tables, with a device as the dict of its columns, and what was published.
pub record World : Type 0 where
  pub devices : List Fields
  pub properties : List Property
  pub policies : List Policy
  pub evaluations : List Evaluation
  pub published : Messages

-- Python's floats, patterns and clock, whether the INSERT with a text for `:actions::jsonb`
-- succeeds (the driver has to take such a cast, which test_no_inline_inet_cast.py of the gateway
-- denies, and the database the text), and whether the database takes a text as uuid.
pub record Outside : Type 1 where
  pub python : Python
  pub accepts_json : Text → Bool
  pub is_uuid : Text → Bool

-- `properties[cat][key] = value`, with a new dict for a new category.
abbrev category_of : Option Value → Fields
category_of (some (dict d)) = d
category_of _ = end

unfoldable pub properties_of : List Property → Fields → Fields
properties_of [] d = d
properties_of (p ∷ rows) d =
    properties_of rows
      (put p.category (dict (put p.key p.value (category_of (get p.category d)))) d)

-- `{**dict(device), "properties": properties}`.
abbrev context_of : Fields → List Property → Fields
context_of device rows = put (codes "properties") (dict (properties_of rows end)) device

-- What the evaluator reads of a policy.
abbrev pub policy_fields : Policy → Fields
policy_fields p = field (codes "conditions") p.conditions end

abbrev pub actions_of : Bool → Policy → Value
actions_of matched p = if matched then p.match_actions else p.no_match_actions

-- `str(actions) if actions else "[]"`.
abbrev pub actions_text : Value → Text
actions_text actions = if is_true actions then to_text actions else codes "[]"

-- The dicts among what a `for` finds; the keys of a dict and the characters of a text are none.
abbrev pub iterated_actions : Value → Result (List Value)
iterated_actions (list vs) = ok (items vs)
iterated_actions (str s) = ok []
iterated_actions (dict d) = ok []
iterated_actions _ = err type_error

abbrev publish : Messages → Exec World (Unit {0})
publish messages = modify (λ w. record w { published = w.published ++ messages })

unfoldable pub execute_actions : Fields → List Value → Exec World (Unit {0})
unfolding execute_action
execute_actions context [] = pure tt
execute_actions context (dict action ∷ rest) = do
  messages ← lift (execute_action action context)
  publish messages
  execute_actions context rest
execute_actions context (_ ∷ rest) = execute_actions context rest

abbrev pub execute_if : Fields → Value → Exec World (Unit {0})
execute_if context actions =
    if is_true actions
    then (do found ← lift (iterated_actions actions); execute_actions context found)
    else pure tt

abbrev pub evaluation_of : Policy → Text → Bool → Evaluation
evaluation_of p device_id matched = record {
  policy_id = p.id;
  device_id = device_id;
  result = if matched then codes "match" else codes "no_match";
  actions_taken = actions_text (actions_of matched p);
}

module _ (o : Outside) where
  -- The row of a policy, where the INSERT succeeds.
  unfoldable pub record_evaluation : Policy → Text → Bool → Exec World (Unit {0})
  record_evaluation p device_id matched =
      if o.accepts_json (actions_text (actions_of matched p))
      then modify
          (λ w. record w { evaluations = w.evaluations ++ evaluation_of p device_id matched ∷ [] })
      else raise db_error

  unfoldable pub run_policy : Text → Fields → Policy → Exec World (Unit {0})
  unfolding record_evaluation execute_actions evaluate
  run_policy device_id context p = do
    matched ← lift (evaluate o.python (policy_fields p) context)
    record_evaluation p device_id matched
    execute_if context (actions_of matched p)

  unfoldable pub run_policies : Text → Fields → List Policy → Exec World (Unit {0})
  unfolding run_policy
  run_policies device_id context [] = pure tt
  run_policies device_id context (p ∷ policies) =
      run_policy device_id context p >> run_policies device_id context policies

  abbrev is_device : Text → Fields → Bool
  is_device device_id d = text_eq (to_text (get_or_null (codes "id") d)) device_id

  -- The enabled policies of a tenant, by their priority.
  abbrev pub policies_of : Text → List Policy → List Policy
  policies_of tenant policies =
      order_by (λ a b. ltb a.priority b.priority)
        (keep_if (λ p. p.enabled && text_eq p.tenant_id tenant) policies)

  -- `str(device["tenant_id"])`, which the database takes as a uuid; `str(None)` is none.
  abbrev tenant_of : Fields → Result Text
  tenant_of device =
      let tenant = to_text (get_or_null (codes "tenant_id") device) in
      if o.is_uuid tenant then ok tenant else err db_error

  unfoldable pub evaluate_device : Text → Option Fields → Exec World (Unit {0})
  unfolding run_policies properties_of order_by
  evaluate_device device_id none = pure tt
  evaluate_device device_id (some device) = do
    rows ← gets (λ w. keep_if (λ r. text_eq r.device_id device_id) w.properties)
    tenant ← lift (tenant_of device)
    policies ← gets (λ w. policies_of tenant w.policies)
    run_policies device_id (context_of device rows) policies

  -- `data["device_id"]`; the database refuses an identifier that is no text or no uuid.
  abbrev id_of : Option Value → Result Text
  id_of none = err key_error
  id_of (some (str s)) = if o.is_uuid s then ok s else err db_error
  id_of (some _) = err db_error

  unfoldable pub handle_evaluate_device : Fields → Exec World (Unit {0})
  unfolding evaluate_device
  handle_evaluate_device data' = do
    device_id ← lift (id_of (get (codes "device_id") data'))
    device ← gets (λ w. first (keep_if (is_device device_id) w.devices))
    evaluate_device device_id device
