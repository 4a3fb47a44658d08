-- ===== src/Engine/Evaluations.antt =====
-- services/policy_engine/main.py: what a run over the policies of a device records and publishes.
mod Tests
use openradiusweb.Prelude.{
  ◌≡◌, refl, ◌∙◌, sym, ap, ◌⊎◌, inl, inr, Bool, true, false, Option, none, some, List, [], ◌∷◌,
  ◌++◌, map, if◌then◌else◌, Bool-cases, append-nil, append_assoc,
}
use openradiusweb.Prelude.Text.{Text, codes, join}
use openradiusweb.Prelude.Repr.{repr_text}
use openradiusweb.Prelude.Result.{Exn, Result, ok, err, db_error}
use openradiusweb.Prelude.Exec.{Exec, pure, lift, continue}
use openradiusweb.Value.{
  Value, null, bool, int, str, list, dict, Items, nil, cons, Fields, end, field, is_true,
}
use openradiusweb.Policy.Values.{to_text, repr, repr_items, repr_fields}
use openradiusweb.Policy.Conditions.{evaluate}
use openradiusweb.Engine.{Messages, execute_action}
use openradiusweb.Engine.Device.{
  Policy, Evaluation, World, Outside, policy_fields, actions_of, actions_text, evaluation_of,
  iterated_actions, execute_actions, execute_if, record_evaluation, run_policy, run_policies,
}

join-starts : (sep a : Text) (l : List Text) → (text : Text) × (join sep (a ∷ l) ≡ a ++ text)
join-starts sep a [] = ([], sym (append-nil a))
join-starts sep a (b ∷ l) = (sep ++ join sep (b ∷ l), refl)

to_text-starts :
    (kind : Value) (rest : Fields) (more : Items)
    → (text : Text) × (to_text (list (cons (dict (field (codes "type") kind rest)) more))
        ≡ codes "[{'" ++ text)
unfolding repr repr_text
to_text-starts kind rest more =
    let (inside, e) =
      join-starts (codes ", ") (repr_text (codes "type") ++ (codes ": " ++ repr kind))
        (repr_fields rest) in
    let (behind, e') =
      join-starts (codes ", ") (repr (dict (field (codes "type") kind rest))) (repr_items more) in
    (
      _,
      ap (λ x. codes "[" ++ (x ++ codes "]")) e'
          ∙ ap (λ x. codes "[" ++ (((codes "{" ++ (x ++ codes "}")) ++ behind) ++ codes "]")) e,
    )

module _ (o : Outside) where
  -- A text that begins like the `repr` of a list of dicts with a key in single quotes is no JSON.
  abbrev pub KnowsJson : Type 0
  KnowsJson = (rest : Text) → o.accepts_json (codes "[{'" ++ rest) ≡ false

  -- On a database that takes no list of dicts in Python's spelling for JSON, a policy whose actions
  -- begin with an action whose first key is `type` makes the run raise, with nothing recorded and
  -- nothing published, also not for the policies behind it.
  pub run_policies-KnowsJson :
      (device_id : Text) (context : Fields) (p : Policy) (policies : List Policy) (w : World)
      (matched : Bool) (kind : Value) (rest : Fields) (more : Items)
      → KnowsJson
      → evaluate o.python (policy_fields p) context ≡ ok matched
      → actions_of matched p ≡ list (cons (dict (field (codes "type") kind rest)) more)
      → run_policies o device_id context (p ∷ policies) w ≡ (err db_error, w)
  unfolding run_policies run_policy record_evaluation repr repr_text
  run_policies-KnowsJson device_id context p policies w matched kind rest more knows e a =
      let (text, starts) = to_text-starts kind rest more in rw (e, a, starts, knows text) refl
