-- ===== src/Coa/Sending.antt =====
-- What the operations of services/auth/coa_manager.py send, and what they make of the answer.
use openradiusweb.Prelude.{
  ℕ, ◌≡◌, ◌⊎◌, inl, inr, refl, Bool, true, false, ◌&&◌, Option, none, some, [], ◌∷◌, ◌++◌, length,
  is_some, if◌then◌else◌, Bool-cases, ap,
}
use mathlib.Core.Bool.{and-eq-true_iff}
use openradiusweb.Prelude.Text.{Text, codes, show, text_eq, opt_truthy, text_or_empty}
use openradiusweb.Prelude.Result.{Result, ok, err}
use openradiusweb.Prelude.Exec.{◌>>=◌, pure, lift, continue}
use openradiusweb.Coa.Bytes.{Bytes}
use openradiusweb.Coa.Packet.{RadiusPacket, encode, add_tunnel_vlan}
use openradiusweb.Coa.Packet.Encoding.{Accepts, encode-Accepts}
use openradiusweb.Coa.Tables.{Found, CoaResult, World, map_option, terminate}
use openradiusweb.Coa.Manager.{
  Outside, Coa, send_packet, with_session, next_id, lower_vendor, identify,
}
use openradiusweb.Coa.Operations.{
  disconnect_session, reauthenticate_session, change_vlan, apply_acl, add_cisco_vlan,
  select_operation, get_coa_secret, execute_coa, log_coa, finish, details_text, run_operation,
}

-- Nothing is sent, or one datagram to the address, which a NAS with the secret accepts; the tables
-- and what was published stay as they are.
abbrev pub Sends : Outside → Text → Text → World → World → Type 0
Sends o secret ip w w' =
    ((w'.sent ≡ w.sent)
      ⊎ ((data' : Bytes) × (w'.sent ≡ w.sent ++ (ip, data') ∷ []) × Accepts o.md5 secret data'))
    × (w'.sessions ≡ w.sessions)
    × (w'.devices ≡ w.devices)
    × (w'.events ≡ w.events)
    × (w'.published ≡ w.published)

module _ (o : Outside) (sixteen : (bs : Bytes) → length (o.md5 bs) ≡ 16) where
  send_packet-Sends :
      (pkt : RadiusPacket) (ip secret action : Text) (w : World)
      → Sends o secret ip w (send_packet o pkt ip secret action w).1
  unfolding send_packet
  send_packet-Sends pkt ip secret action w = go (encode o.md5 pkt secret) refl
    where
      go :
          (r : Result Bytes)
          → encode o.md5 pkt secret ≡ r
          → Sends o secret ip w (send_packet o pkt ip secret action w).1
      go (ok data') e = rw e (
        inr (data', refl, (encode-Accepts o.md5 pkt secret data' sixteen e).0),
        refl,
        refl,
        refl,
        refl,
      )
      go (err x) e = rw e (inl refl, refl, refl, refl, refl)

  -- The common end of the four operations.
  send_built : Result RadiusPacket → Text → Text → Text → Option Text → Option Text → Coa CoaResult
  send_built built ip secret action session_id station = do
    pkt ← lift built
    result ← send_packet o pkt ip secret action
    pure (with_session o session_id station result)

  send_built-Sends :
      (built : Result RadiusPacket) (ip secret action : Text) (session_id station : Option Text)
      (w : World)
      → Sends o secret ip w (send_built built ip secret action session_id station w).1
  unfolding send_built
  send_built-Sends (err e) ip secret action session_id station w =
      (inl refl, refl, refl, refl, refl)
  send_built-Sends (ok pkt) ip secret action session_id station w =
      last (send_packet o pkt ip secret action w) (send_packet-Sends pkt ip secret action w)
    where
      last :
          (p : Result CoaResult × World)
          → Sends o secret ip w p.1
          → Sends o secret ip w
              (◌>>=◌ (λ _. p) (λ r. pure (with_session o session_id station r)) w).1
      last (ok r, w') h = h
      last (err e, w') h = h

  -- A step that only computes, before an action that keeps the property.
  lift-Sends :
      {A : Type 0} (r : Result A) (k : A → Coa CoaResult) (ip secret : Text) (w : World) (n : ℕ)
      → ((a : A) → Sends o secret ip w (k a (record w { identifier = n })).1)
      → Sends o secret ip w (◌>>=◌ (lift r) k (record w { identifier = n })).1
  lift-Sends (ok a) k ip secret w n h = h a
  lift-Sends (err e) k ip secret w n h = (inl refl, refl, refl, refl, refl)

  disconnect_session-Sends :
      (ip secret : Text) (session_id station username : Option Text) (port : Option ℕ) (w : World)
      → Sends o secret ip w (disconnect_session o ip secret session_id station username port w).1
  unfolding disconnect_session send_built next_id
  disconnect_session-Sends ip secret session_id station username port w =
      lift-Sends (identify session_id station _) _ ip secret w _
        λ identified. send_built-Sends _ ip secret (codes "disconnect") session_id station _

  reauthenticate_session-Sends :
      (ip secret : Text) (session_id station vendor : Option Text) (w : World)
      → Sends o secret ip w (reauthenticate_session o ip secret session_id station vendor w).1
  unfolding reauthenticate_session send_built next_id
  reauthenticate_session-Sends ip secret session_id station vendor w =
      lift-Sends (identify session_id station _) _ ip secret w _ λ identified.
        lift-Sends (lower_vendor vendor) _ ip secret w _
          λ vendor_lower. send_built-Sends _ ip secret (codes "reauthenticate") session_id station _

  change_vlan-Sends :
      (ip secret : Text) (vlan_id : ℕ) (session_id station vendor : Option Text) (w : World)
      → Sends o secret ip w (change_vlan o ip secret vlan_id session_id station vendor w).1
  unfolding change_vlan send_built next_id
  change_vlan-Sends ip secret vlan_id session_id station vendor w =
      lift-Sends (identify session_id station _) _ ip secret w _ λ identified.
        lift-Sends (add_tunnel_vlan vlan_id 0 identified) _ ip secret w _ λ tunneled.
          lift-Sends (lower_vendor vendor) _ ip secret w _ λ vendor_lower.
            send_built-Sends (add_cisco_vlan vendor_lower session_id tunneled) ip secret
              (codes "vlan_change:" ++ show vlan_id) session_id station _

  apply_acl-Sends :
      (ip secret acl_name : Text) (session_id station : Option Text) (w : World)
      → Sends o secret ip w (apply_acl o ip secret acl_name session_id station w).1
  unfolding apply_acl send_built next_id
  apply_acl-Sends ip secret acl_name session_id station w =
      lift-Sends (identify session_id station _) _ ip secret w _ λ identified.
        send_built-Sends _ ip secret (codes "apply_acl:" ++ acl_name) session_id station _

-- Any of the operations that `_execute_coa` can choose.
abbrev pub KeepsTables : Outside → Text → Text → Option (Coa CoaResult) → Type 0
KeepsTables o secret ip none = Unit
KeepsTables o secret ip (some operation) = (w : World) → Sends o secret ip w (operation w).1

pub select_operation-Sends :
    (o : Outside)
    → ((bs : Bytes) → length (o.md5 bs) ≡ 16)
    → (session : Found) (secret action : Text) (vlan_id : Option ℕ) (acl_name : Option Text)
    → KeepsTables o secret session.nas_ip
        (select_operation o session secret action vlan_id acl_name)
unfolding select_operation
select_operation-Sends o sixteen session secret action vlan_id acl_name =
    choose (text_eq action (codes "disconnect")) (text_eq action (codes "reauthenticate"))
      (text_eq action (codes "vlan_change") && is_some vlan_id)
      (text_eq action (codes "apply_acl") && opt_truthy acl_name)
  where
    open session use {nas_ip, session_id, calling_station_id, vendor}

    moved :
        (v : Option ℕ)
        → KeepsTables o secret nas_ip (
            map_option
              (λ n. change_vlan o nas_ip secret n (some session_id) calling_station_id vendor)
              v)
    moved none = tt
    moved (some n) =
        change_vlan-Sends o sixteen nas_ip secret n (some session_id) calling_station_id vendor

    choose :
        (a b c d : Bool)
        → KeepsTables o secret nas_ip (
            if a
            then some
                (disconnect_session o nas_ip secret (some session_id) calling_station_id none none)
            else if b
            then some
                (reauthenticate_session o nas_ip secret (some session_id) calling_station_id vendor)
            else if c
            then map_option
                (λ n. change_vlan o nas_ip secret n (some session_id) calling_station_id vendor)
                vlan_id
            else if d
            then some (
                apply_acl o nas_ip secret
                  (text_or_empty acl_name)
                  (some session_id)
                  calling_station_id)
            else none)
    choose true b c d =
        disconnect_session-Sends o sixteen nas_ip secret (some session_id) calling_station_id none
          none
    choose false true c d =
        reauthenticate_session-Sends o sixteen nas_ip secret (some session_id) calling_station_id
          vendor
    choose false false true d = moved vlan_id
    choose false false false true =
        apply_acl-Sends o sixteen nas_ip secret (text_or_empty acl_name) (some session_id)
          calling_station_id
    choose false false false false = tt

-- At most one datagram, accepted by a NAS with the secret; and the sessions change only to end the
-- session at hand, after a disconnection that succeeded.
abbrev pub Effect : Outside → Found → Text → World → Result CoaResult × World → Type 0
Effect o session secret w out =
    ((out.1.sent ≡ w.sent)
      ⊎ ((data' : Bytes) × (out.1.sent ≡ w.sent ++ (session.nas_ip, data') ∷ [])
          × Accepts o.md5 secret data'))
    × ((out.1.sessions ≡ w.sessions)
        ⊎ ((r : CoaResult) × (out.0 ≡ ok r)
            × (r.success ≡ true)
            × (text_eq r.action (codes "disconnect") ≡ true)
            × (out.1.sessions ≡ terminate session.session_id w.sessions)))
    × (out.1.devices ≡ w.devices)

finish-Effect :
    (o : Outside) (session : Found) (secret : Text) (r : CoaResult) (w w1 : World)
    → Sends o secret session.nas_ip w w1
    → Effect o session secret w (finish o session r w1)
unfolding log_coa
finish-Effect o session secret r w w1 h = elim (Bool-cases (o.accepts_json (details_text r))) [
  | inr refused ↦ rw refused (h.0, inl h.1, h.2)
  | inl taken ↦ elim (Bool-cases (r.success && text_eq r.action (codes "disconnect"))) [
    | inr other ↦ rw (taken, other) (h.0, inl h.1, h.2)
    | inl ended ↦
        let (success, disconnect) = (and-eq-true_iff _ _).0 ended in
        rw (taken, ended)
          (h.0, inr (r, refl, success, disconnect, ap (terminate session.session_id) h.1), h.2)
  ]
]

-- With `_get_coa_secret` returning a secret, `_execute_coa` sends at most one datagram, to the
-- address of the session's switch, and the switch accepts it if it has that secret; and the session
-- table is as before, unless the action was a disconnection that succeeded, which ends the session
-- at hand and no other row. MD5 is taken to return sixteen bytes.
pub execute_coa-Effect :
    (o : Outside)
    → ((bs : Bytes) → length (o.md5 bs) ≡ 16)
    → (session : Found) (secret action : Text) (vlan_id : Option ℕ) (acl_name : Option Text)
      (w : World)
    → get_coa_secret o session.nas_ip w ≡ (ok secret, w)
    → Effect o session secret w (execute_coa o session action vlan_id acl_name w)
unfolding execute_coa
execute_coa-Effect o sixteen session secret action vlan_id acl_name w e = rw e (
    go (select_operation o session secret action vlan_id acl_name)
      (select_operation-Sends o sixteen session secret action vlan_id acl_name))
  where
    next :
        (p : Result CoaResult × World)
        → Sends o secret session.nas_ip w p.1
        → Effect o session secret w (continue p.0 (finish o session) p.1)
    next (ok r, w1) h = finish-Effect o session secret r w w1 h
    next (err x, w1) h = (h.0, inl h.1, h.2)

    go :
        (op : Option (Coa CoaResult))
        → KeepsTables o secret session.nas_ip op
        → Effect o session secret w (run_operation o session action op w)
    go none h = (inl refl, inl refl, refl)
    go (some op) h = next (op w) (h w)
