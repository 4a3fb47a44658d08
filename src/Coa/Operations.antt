-- ===== src/Coa/Operations.antt =====
-- services/auth/coa_manager.py: the operations of `CoAManager`, and the handlers of the messages
-- that services/auth/coa_service.py subscribes to.
use openradiusweb.Prelude.{
  ℕ, ◌&&◌, Option, none, some, [], ◌∷◌, ◌++◌, map, ◌==◌, if◌then◌else◌, is_some,
}
use openradiusweb.Prelude.Text.{
  Text, codes, text_eq, text_in, show, opt_truthy, text_or_empty, truthy,
}
use openradiusweb.Prelude.Result.{Result, ok, db_error, and_then}
use openradiusweb.Prelude.Exec.{pure, raise, lift, modify, ◌>>=◌, ◌>>◌}
use openradiusweb.Prelude.Repr.{repr_text, repr_opt, repr_opt_nat, repr_bool, repr_dict}
use openradiusweb.Coa.RadiusCode
use openradiusweb.Coa.RadiusAttr
use openradiusweb.Coa.Packet.{
  RadiusPacket, add_string, add_integer, add_tunnel_vlan, add_cisco_avpair,
}
use openradiusweb.Coa.Tables.{Found, CoaResult, Event, at_address, terminate, map_option}
use openradiusweb.Coa.Manager.{
  Outside, Coa, next_id, send_packet, with_session, new_packet, add_if, identify, add_port,
  reauthenticate_avpair, lower_vendor, failed,
}

-- The command for a vendor: Juniper has Service-Type = Authorize-Only, all others the AVPair.
unfoldable pub add_reauthenticate : Text → RadiusPacket → Result RadiusPacket
add_reauthenticate vendor_lower pkt =
    if text_in vendor_lower (codes "cisco" ∷ codes "aruba" ∷ codes "hpe" ∷ [])
    then add_cisco_avpair reauthenticate_avpair pkt
    else if text_eq vendor_lower (codes "juniper")
    then add_integer 6 17 pkt
    else add_cisco_avpair reauthenticate_avpair pkt

-- The attributes that `change_vlan` adds for Cisco.
unfoldable pub add_cisco_vlan : Text → Option Text → RadiusPacket → Result RadiusPacket
add_cisco_vlan vendor_lower session_id pkt =
    if text_eq vendor_lower (codes "cisco")
    then (and_then (add_cisco_avpair (codes "audit-session-id=" ++ text_or_empty session_id) pkt)
        (add_cisco_avpair reauthenticate_avpair))
    else ok pkt

-- `CoAResult.to_dict()` as `str` prints it, with every single quote made a double one. The time
-- stamp is left out.
unfoldable pub details_text : CoaResult → Text
details_text r =
    map (λ c. if c == 39 then 34 else c)
      (repr_dict (
        (codes "success", repr_bool r.success)
        ∷ (codes "action", repr_text r.action)
        ∷ (codes "nas_ip", repr_text r.nas_ip)
        ∷ (codes "session_id", repr_opt r.session_id)
        ∷ (codes "mac_address", repr_opt r.mac_address)
        ∷ (codes "response_code", repr_opt_nat r.response_code)
        ∷ (codes "error_cause", repr_opt_nat r.error_cause)
        ∷ (codes "error_message", repr_opt r.error_message)
        ∷ []))

abbrev pub event_of : Found → CoaResult → Event
event_of session r = record {
  severity = if r.success then codes "info" else codes "warning";
  device_id = session.device_id;
  message =
      codes "CoA "
      ++ (r.action
          ++ (codes " to "
              ++ (r.nas_ip
                  ++ (codes ": " ++ (if r.success then codes "success" else codes "failed")))));
  details = details_text r;
}

module _ (o : Outside) where
  -- `disconnect_session`.
  unfoldable pub disconnect_session :
      Text → Text → Option Text → Option Text → Option Text → Option ℕ → Coa CoaResult
  disconnect_session nas_ip secret session_id station username nas_port = do
    identifier ← next_id
    identified ←
        lift (identify session_id station (new_packet RadiusCode.disconnect_request identifier))
    pkt ← lift (and_then (add_if RadiusAttr.user_name username identified) (add_port nas_port))
    result ← send_packet o pkt nas_ip secret (codes "disconnect")
    pure (with_session o session_id station result)

  -- `reauthenticate_session`.
  unfoldable pub reauthenticate_session :
      Text → Text → Option Text → Option Text → Option Text → Coa CoaResult
  reauthenticate_session nas_ip secret session_id station vendor = do
    identifier ← next_id
    identified ← lift (identify session_id station (new_packet RadiusCode.coa_request identifier))
    vendor_lower ← lift (lower_vendor vendor)
    pkt ← lift (add_reauthenticate vendor_lower identified)
    result ← send_packet o pkt nas_ip secret (codes "reauthenticate")
    pure (with_session o session_id station result)

  -- `change_vlan`.
  unfoldable pub change_vlan :
      Text → Text → ℕ → Option Text → Option Text → Option Text → Coa CoaResult
  change_vlan nas_ip secret vlan_id session_id station vendor = do
    identifier ← next_id
    identified ← lift (identify session_id station (new_packet RadiusCode.coa_request identifier))
    tunneled ← lift (add_tunnel_vlan vlan_id 0 identified)
    vendor_lower ← lift (lower_vendor vendor)
    pkt ← lift (add_cisco_vlan vendor_lower session_id tunneled)
    result ← send_packet o pkt nas_ip secret (codes "vlan_change:" ++ show vlan_id)
    pure (with_session o session_id station result)

  -- `apply_acl`.
  unfoldable pub apply_acl : Text → Text → Text → Option Text → Option Text → Coa CoaResult
  apply_acl nas_ip secret acl_name session_id station = do
    identifier ← next_id
    identified ← lift (identify session_id station (new_packet RadiusCode.coa_request identifier))
    pkt ← lift (
        and_then (add_string RadiusAttr.filter_id acl_name identified)
          (add_cisco_avpair (codes "ACS:CiscoSecure-Defined-ACL=#" ++ acl_name)))
    result ← send_packet o pkt nas_ip secret (codes "apply_acl:" ++ acl_name)
    pure (with_session o session_id station result)

  abbrev pub default_secret : Text
  default_secret = codes "default_coa_secret"

  abbrev pub or_default : Text → Text
  or_default secret = if truthy secret then secret else default_secret

  -- `_get_coa_secret`.
  unfoldable pub get_coa_secret : Text → Coa Text
  get_coa_secret nas_ip w = elim (at_address nas_ip w.devices) [
    | [] ↦ (ok default_secret, w)
    | d ∷ _ ↦
        if opt_truthy d.coa_secret_encrypted
        then (
          and_then (o.decrypt (text_or_empty d.coa_secret_encrypted)) (λ s. ok (or_default s)),
          w,
        )
        else (ok default_secret, w)
  ]

  -- `_log_coa`: where the INSERT with `details` does not succeed, the whole transaction fails.
  unfoldable pub log_coa : Found → CoaResult → Coa (Unit {0})
  log_coa session result =
      if o.accepts_json (details_text result)
      then modify (λ w. record w {
        events = w.events ++ event_of session result ∷ [];
        sessions =
            if result.success && text_eq result.action (codes "disconnect")
            then terminate session.session_id w.sessions
            else w.sessions;
      })
      else raise db_error

  abbrev pub publish : CoaResult → Coa (Unit {0})
  publish result = modify (λ w. record w { published = w.published ++ result ∷ [] })

  abbrev pub finish : Found → CoaResult → Coa CoaResult
  finish session result = do log_coa session result; publish result; pure result

  abbrev pub unknown_action : Text → Text → Coa CoaResult
  unknown_action action nas_ip = pure (
      failed action nas_ip
        (codes "Unknown action '" ++ (action ++ codes "' or missing parameters")))

  -- The chain of tests on `action` in `_execute_coa`: the operation, or none.
  unfoldable pub select_operation :
      Found → Text → Text → Option ℕ → Option Text → Option (Coa CoaResult)
  select_operation session secret action vlan_id acl_name =
      let sid = some session.session_id in
      let mac = session.calling_station_id in
      if text_eq action (codes "disconnect")
      then some (disconnect_session session.nas_ip secret sid mac none none)
      else if text_eq action (codes "reauthenticate")
      then some (reauthenticate_session session.nas_ip secret sid mac session.vendor)
      else if text_eq action (codes "vlan_change") && is_some vlan_id
      then map_option (λ v. change_vlan session.nas_ip secret v sid mac session.vendor) vlan_id
      else if text_eq action (codes "apply_acl") && opt_truthy acl_name
      then some (apply_acl session.nas_ip secret (text_or_empty acl_name) sid mac)
      else none

  abbrev pub run_operation : Found → Text → Option (Coa CoaResult) → Coa CoaResult
  run_operation session action none = unknown_action action session.nas_ip
  run_operation session action (some operation) = do result ← operation; finish session result

  -- `_execute_coa`.
  unfoldable pub execute_coa : Found → Text → Option ℕ → Option Text → Coa CoaResult
  execute_coa session action vlan_id acl_name = do
    secret ← get_coa_secret session.nas_ip
    run_operation session action (select_operation session secret action vlan_id acl_name)
