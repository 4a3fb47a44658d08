-- ===== src/Engine/Assignment.antt =====
-- What becomes of the VLANs that the policy engine assigns, at the CoA service
-- (services/policy_engine/main.py and services/auth/coa_manager.py).
use openradiusweb.Prelude.{◌≡◌, refl, some, All, if_both}
use openradiusweb.Prelude.Text.{codes}
use openradiusweb.Prelude.Result.{ok}
use openradiusweb.Value.{Value, str, dict, null, bool, int, list, Fields, get, is_true}
use openradiusweb.Coa.Tables.{World}
use openradiusweb.Coa.Manager.{Outside}
use openradiusweb.Coa.Handlers.{handle_policy_vlan_assign}
use openradiusweb.Engine.{
  Messages, target_vlan, assign_vlan, execute_typed, execute_action, with_params, param,
}

-- The CoA service does nothing with any of the messages.
abbrev pub Ignored : Outside → World → Messages → Type 0
Ignored o w = All (λ m. handle_policy_vlan_assign o m.1 w ≡ (ok tt, w))

assign_vlan-Ignored :
    (o : Outside) (w : World) (device params : Fields) → Ignored o w (assign_vlan device params)
unfolding assign_vlan handle_policy_vlan_assign
assign_vlan-Ignored o w device params =
    if_both (Ignored o w) (is_true (target_vlan params)) _ _ (refl, tt) tt

-- Whatever a policy's action of the type vlan_assign publishes, the CoA service ignores: no state
-- changes and nothing is sent.
pub execute_action-Ignored :
    (o : Outside) (w : World) (action device : Fields) {messages : Messages}
    → get (codes "type") action ≡ some (str (codes "vlan_assign"))
    → execute_action action device ≡ ok messages
    → Ignored o w messages
unfolding execute_action execute_typed
execute_action-Ignored o w action device {messages} kind h =
    by_params (param (codes "params") (dict Fields.end) action) (rw kind at h)
  where
    by_params :
        (params : Value)
        → with_params params (assign_vlan device) ≡ ok messages
        → Ignored o w messages
    by_params (dict params) k =
        let same : assign_vlan device params ≡ messages = cc in
        rw (← same) (assign_vlan-Ignored o w device params)
    by_params null k = cc
    by_params (bool b) k = cc
    by_params (int n) k = cc
    by_params (str s) k = cc
    by_params (list vs) k = cc
