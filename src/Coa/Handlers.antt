-- ===== src/Coa/Handlers.antt =====
-- services/auth/coa_manager.py: change of authorization by MAC address, user or session, and the
-- handlers of the messages that services/auth/coa_service.py subscribes to.
use openradiusweb.Prelude.{
  ℕ, Bool, false, not, ◌||◌, Option, none, some, List, [], ◌∷◌, ◌++◌, map, ◌==◌, if◌then◌else◌,
  length, all, keep_if,
}
use openradiusweb.Prelude.Text.{Text, codes, show, text_or_empty, join, truthy}
use openradiusweb.Prelude.Exec.{pure, gets, ◌>>=◌, ◌>>◌}
use openradiusweb.Value.{Fields, get, get_or_null, text_of, nat_of}
use openradiusweb.Coa.Tables.{Found, CoaResult, find_by_session_id, find_by_mac, find_by_user}
use openradiusweb.Coa.Manager.{Outside, Coa, failed}
use openradiusweb.Coa.Operations.{get_coa_secret, change_vlan, disconnect_session, execute_coa}

-- The combined result of `coa_by_username`.
unfoldable pub combine : Text → List CoaResult → CoaResult
combine action results =
    let all_success = all (λ r. r.success) results in
    let failures = length (keep_if (λ r. not r.success) results) in
    record {
      success = all_success;
      action = action;
      nas_ip = join (codes ", ") (map (λ r. r.nas_ip) results);
      session_id = none;
      mac_address = none;
      response_code = none;
      error_cause = none;
      error_message =
          if all_success
          then none
          else some (show failures ++ (b'/' ∷ (show (length results) ++ codes " sessions failed")));
    }

module _ (o : Outside) where
  -- `coa_by_mac`.
  unfoldable pub coa_by_mac : Text → Text → Option ℕ → Option Text → Coa CoaResult
  coa_by_mac mac action vlan_id acl_name = do
    session ← gets (find_by_mac mac)
    elim session [
      | none ↦ pure (record (failed action [] (codes "No active session found for MAC " ++ mac)) {
        mac_address = some mac;
      })
      | some found ↦ execute_coa o found action vlan_id acl_name
    ]

  -- The loop of `coa_by_username`; an exception ends it.
  unfoldable pub execute_all : Text → Option ℕ → Option Text → List Found → Coa (List CoaResult)
  execute_all action vlan_id acl_name [] = pure []
  execute_all action vlan_id acl_name (session ∷ rest) = do
    result ← execute_coa o session action vlan_id acl_name
    results ← execute_all action vlan_id acl_name rest
    pure (result ∷ results)

  abbrev run_all : Text → Text → Option ℕ → Option Text → List Found → Coa CoaResult
  run_all username action vlan_id acl_name [] =
      pure (failed action [] (codes "No active sessions found for user " ++ username))
  run_all username action vlan_id acl_name (session ∷ rest) = do
    results ← execute_all action vlan_id acl_name (session ∷ rest)
    pure (combine action results)

  -- `coa_by_username`.
  unfoldable pub coa_by_username : Text → Text → Option ℕ → Option Text → Coa CoaResult
  coa_by_username username action vlan_id acl_name = do
    sessions ← gets (find_by_user username)
    run_all username action vlan_id acl_name sessions

  -- `coa_by_session_id`.
  unfoldable pub coa_by_session_id : Text → Text → Option ℕ → Option Text → Coa CoaResult
  coa_by_session_id session_id action vlan_id acl_name = do
    session ← gets (find_by_session_id session_id)
    elim session [
      | none ↦
          pure
            (record (failed action []
              (codes "Session " ++ (session_id ++ codes " not found or not active"))) {
                session_id = some session_id;
              })
      | some found ↦ execute_coa o found action vlan_id acl_name
    ]

  -- `data.get("action", "reauthenticate")`; a value that is no text is no known action, and is
  -- taken to be "None".
  abbrev action_of : Fields → Text
  action_of message = elim (get (codes "action") message) [
    | none ↦ codes "reauthenticate"
    | some v ↦ elim (text_of v) [ none ↦ codes "None" | some s ↦ s ]
  ]

  abbrev pub text_field : Text → Fields → Text
  text_field key message = text_or_empty (text_of (get_or_null key message))

  -- `handle_coa_action`. The identifiers and the ACL are texts, the VLAN a number that is not
  -- negative, as the function's comment has them; anything else is taken for missing.
  unfoldable pub handle_coa_action : Fields → Coa (Option CoaResult)
  handle_coa_action message =
      let action = action_of message in
      let vlan_id = nat_of (get_or_null (codes "vlan_id") message) in
      let acl_name = text_of (get_or_null (codes "acl_name") message) in
      if truthy (text_field (codes "session_id") message)
      then (do
        r ← coa_by_session_id (text_field (codes "session_id") message) action vlan_id acl_name
        pure (some r))
      else if truthy (text_field (codes "mac_address") message)
      then (do
        r ← coa_by_mac (text_field (codes "mac_address") message) action vlan_id acl_name
        pure (some r))
      else if truthy (text_field (codes "username") message)
      then (do
        r ← coa_by_username (text_field (codes "username") message) action vlan_id acl_name
        pure (some r))
      else pure none

  abbrev same_vlan : Option ℕ → ℕ → Bool
  same_vlan none vlan = false
  same_vlan (some old) vlan = old == vlan

  -- The change of VLAN of a session, and the disconnection where the switch does not take it.
  unfoldable pub move_session : Found → Text → ℕ → Coa (Unit {0})
  move_session session mac new_vlan = do
    secret ← get_coa_secret o session.nas_ip
    result ←
        change_vlan o session.nas_ip secret new_vlan (some session.session_id) (some mac)
          session.vendor
    if result.success then pure tt else do
      again ← get_coa_secret o session.nas_ip
      disconnect_session o session.nas_ip again (some session.session_id) (some mac) none none
      pure tt

  abbrev move_if : Text → ℕ → Option Found → Coa (Unit {0})
  move_if mac new_vlan none = pure tt
  move_if mac new_vlan (some session) =
      if same_vlan session.assigned_vlan new_vlan
      then pure tt
      else move_session session mac new_vlan

  -- `handle_policy_vlan_assign`.
  unfoldable pub handle_policy_vlan_assign : Fields → Coa (Unit {0})
  handle_policy_vlan_assign message =
      let mac = text_field (codes "mac_address") message in
      elim (nat_of (get_or_null (codes "vlan_id") message)) [
        | none ↦ pure tt
        | some new_vlan ↦
            if not (truthy mac) || new_vlan == 0
            then pure tt
            else (do session ← gets (find_by_mac mac); move_if mac new_vlan session)
      ]
