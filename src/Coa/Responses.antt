-- ===== src/Coa/Responses.antt =====
-- Where services/auth/coa_manager.py does less than it means to: answers that nobody has signed, VLAN
-- attributes that lose their value, switches that are not registered, and the log of what was done.
use openradiusweb.Prelude.{
  ℕ, ◌≤◌, ◌≡◌, ◌↔◌, ◌⊎◌, inl, inr, refl, Bool, true, false, Option, none, some, [], ◌∷◌, ◌++◌,
  arith, length, drop, Bool-cases,
}
use openradiusweb.Prelude.Text.{Text, codes, show}
use openradiusweb.Prelude.Repr.{repr_dict, repr_bool, repr_text}
use openradiusweb.Prelude.Result.{Result, ok, err, db_error}
use openradiusweb.Prelude.Exec.{continue}
use openradiusweb.Coa.Bytes.{Bytes, utf8}
use openradiusweb.Coa.RadiusAttr
use openradiusweb.Coa.Packet.{RadiusPacket, decode, add_tunnel_vlan}
use openradiusweb.Coa.Tables.{Found, CoaResult, World}
use openradiusweb.Coa.Manager.{Outside, datagram, Coa, read_response, await_answer, succeeded}
use openradiusweb.Coa.Sending.{Sends, KeepsTables, select_operation-Sends}
use openradiusweb.Coa.Operations.{
  select_operation, get_coa_secret, execute_coa, log_coa, finish, run_operation, details_text,
}

-- A datagram that can hold a RADIUS header and begins with the code of an acknowledgement.
abbrev pub IsAck : Bytes → Type 0
IsAck [] = ⊥
IsAck (code ∷ rest) = (20 ≤ length (code ∷ rest)) × ((code ≡ 44) ⊎ (code ≡ 41))

-- A datagram counts as success exactly if it has twenty bytes or more and begins with 44 or 41:
-- neither its identifier, nor its authenticator, nor the secret makes a difference.
pub await_answer-success_iff :
    (o : Outside) (action ip secret : Text) (bs : Bytes)
    → ((r : CoaResult) × (await_answer o action ip secret (datagram bs) ≡ ok r)
        × (r.success ≡ true))
      ↔ IsAck bs
unfolding decode read_response
await_answer-success_iff o action ip secret [] = (λ h. cc h.1, λ h. absurd h)
await_answer-success_iff o action ip secret (a ∷ []) = (λ h. cc h.1, λ h. absurd (omega arith))
await_answer-success_iff o action ip secret (a ∷ b ∷ []) = (λ h. cc h.1, λ h. absurd (omega arith))
await_answer-success_iff o action ip secret (a ∷ b ∷ c ∷ []) =
    (λ h. cc h.1, λ h. absurd (omega arith))
await_answer-success_iff o action ip secret (a ∷ b ∷ c ∷ d ∷ rest) = (
  λ h. let (r, e, s) = h in (ground arith, ground arith),
  λ h. (succeeded action ip a, ground arith, refl),
)

-- Each tagged attribute that `add_tunnel_vlan` adds has the tag, and zero in the three bytes where
-- RFC 2868 has the value: the 13 (VLAN) and the 6 (IEEE-802) are cut off.
pub add_tunnel_vlan-zero :
    (vlan_id tag : ℕ) (pkt pkt' : RadiusPacket)
    → add_tunnel_vlan vlan_id tag pkt ≡ ok pkt'
    → pkt'.attributes
      ≡ ((pkt.attributes ++ (RadiusAttr.tunnel_type, tag ∷ 0 ∷ 0 ∷ 0 ∷ []) ∷ [])
          ++ (RadiusAttr.tunnel_medium_type, tag ∷ 0 ∷ 0 ∷ 0 ∷ []) ∷ [])
        ++ (RadiusAttr.tunnel_private_group_id, tag ∷ utf8 (show vlan_id)) ∷ []
unfolding add_tunnel_vlan
add_tunnel_vlan-zero vlan_id tag pkt pkt' h = ground arith

-- The text that `_log_coa` gives the database for `details` begins with a bare `True` or `False`.
details_text-starts :
    (r : CoaResult)
    → (rest : Text) × (details_text r ≡ codes "{\"success\": " ++ (repr_bool r.success ++ rest))
unfolding details_text repr_dict repr_text
details_text-starts r = elim (Bool-cases r.success) [
  | inl e ↦ (drop 16 (details_text r), rw e refl)
  | inr e ↦ (drop 17 (details_text r), rw e refl)
]

-- JSON spells its truth values in lower case, so no database takes such a text for JSON.
abbrev pub KnowsJson : Outside → Type 0
KnowsJson o =
    (b : Bool) (rest : Text)
    → o.accepts_json (codes "{\"success\": " ++ (repr_bool b ++ rest)) ≡ false

log_coa-raises :
    (o : Outside) (session : Found) (r : CoaResult) (w : World)
    → KnowsJson o
    → log_coa o session r w ≡ (err db_error, w)
unfolding log_coa
log_coa-raises o session r w knows =
    let (rest, e) = details_text-starts r in rw (e, knows r.success rest)

abbrev pub SameRecords : World → World → Type 0
SameRecords w w' =
    (w'.sessions ≡ w.sessions) × (w'.events ≡ w.events) × (w'.published ≡ w.published)

-- On a database that takes only JSON for `details`, `_execute_coa` writes no event, publishes no
-- result and ends no session, whatever it has sent and whatever the switch answered.
pub execute_coa-SameRecords :
    (o : Outside)
    → ((bs : Bytes) → length (o.md5 bs) ≡ 16)
    → KnowsJson o
    → (session : Found) (secret action : Text) (vlan_id : Option ℕ) (acl_name : Option Text)
      (w : World)
    → get_coa_secret o session.nas_ip w ≡ (ok secret, w)
    → SameRecords w (execute_coa o session action vlan_id acl_name w).1
unfolding execute_coa
execute_coa-SameRecords o sixteen knows session secret action vlan_id acl_name w e = rw e (
    go (select_operation o session secret action vlan_id acl_name)
      (select_operation-Sends o sixteen session secret action vlan_id acl_name))
  where
    next :
        (p : Result CoaResult × World)
        → Sends o secret session.nas_ip w p.1
        → SameRecords w (continue p.0 (finish o session) p.1).1
    next (ok r, w1) h = rw (log_coa-raises o session r w1 knows) (h.1, h.3, h.4)
    next (err x, w1) h = (h.1, h.3, h.4)

    go :
        (op : Option (Coa CoaResult))
        → KeepsTables o secret session.nas_ip op
        → SameRecords w (run_operation o session action op w).1
    go none h = (refl, refl, refl)
    go (some op) h = next (op w) (h w)
