-- ===== src/Coa/Manager.antt =====
-- services/auth/coa_manager.py, the class `CoAManager`: what it sends to a switch, and what it makes
-- of the answer. Log lines are left out, except where their arguments can raise.
use openradiusweb.Prelude.{
  ℕ, ◌+◌, ◌%◌, Bool, true, false, ◌||◌, Option, none, some, List, [], ◌∷◌, ◌++◌, ◌==◌,
  if◌then◌else◌,
}
use openradiusweb.Prelude.Text.{Text, codes, lower, opt_truthy, text_or_empty}
use openradiusweb.Prelude.Result.{Result, ok, err, value_error, attribute_error, and_then}
use openradiusweb.Prelude.Exec.{Exec, lift, gets, modify, ◌>>=◌, ◌>>◌}
use openradiusweb.Coa.Bytes.{Bytes}
use openradiusweb.Coa.RadiusCode
use openradiusweb.Coa.RadiusAttr
use openradiusweb.Coa.Packet.{
  RadiusPacket, add_string, add_integer, encode, decode, get_attr_string, get_error_cause,
}
use openradiusweb.Coa.Tables.{CoaResult, World}

-- What comes back after a packet is sent.
pub data Answer : Type 0 where
  datagram : Bytes → Answer
  timeout : Answer
  os_error : Text → Answer

-- What the manager does not implement: MD5, the network (its answer may depend on all that was
-- sent), `decrypt_secret`, and whether the INSERT with a text for `:details::jsonb` succeeds: the
-- driver has to take such a cast (test_no_inline_inet_cast.py of the gateway says that it does not),
-- and the database the text.
pub record Outside : Type 0 where
  pub md5 : Bytes → Bytes
  pub answer : List (Text × Bytes) → Answer
  pub decrypt : Text → Result Text
  pub accepts_json : Text → Bool

abbrev pub Coa : Type 0 → Type 0
Coa A = Exec World A

-- `ERROR_CAUSE`.
abbrev pub error_causes : List (ℕ × Text)
error_causes =
    (201, codes "Residual Session Context Removed")
    ∷ (202, codes "Invalid EAP Packet")
    ∷ (401, codes "Unsupported Attribute")
    ∷ (402, codes "Missing Attribute")
    ∷ (403, codes "NAS Identification Mismatch")
    ∷ (404, codes "Invalid Request")
    ∷ (405, codes "Unsupported Service")
    ∷ (406, codes "Unsupported Extension")
    ∷ (501, codes "Administratively Prohibited")
    ∷ (502, codes "Request Not Routable (Proxy)")
    ∷ (503, codes "Session Context Not Found")
    ∷ (504, codes "Session Context Not Removable")
    ∷ (505, codes "Other Proxy Processing Error")
    ∷ (506, codes "Resources Unavailable")
    ∷ (507, codes "Request Initiated")
    ∷ (508, codes "Multiple Session Selection Unsupported")
    ∷ []

cause_text : ℕ → List (ℕ × Text) → Text
cause_text n [] = codes "Unknown error"
cause_text n ((m, s) ∷ rest) = if m == n then s else cause_text n rest

-- `ERROR_CAUSE.get(error_cause, "Unknown error") if error_cause else None`.
unfoldable pub cause_message : Option ℕ → Option Text
unfolding cause_text
cause_message none = none
cause_message (some n) = if n == 0 then none else some (cause_text n error_causes)

-- `a or b or c` over texts.
abbrev pub first_true : Option Text → Option Text → Text → Text
first_true a b c =
    if opt_truthy a then text_or_empty a else if opt_truthy b then text_or_empty b else c

-- `_next_id`.
unfoldable pub next_id : Coa ℕ
next_id = do
  modify (λ w. record w { identifier = (w.identifier + 1) % 256 })
  gets (λ w. w.identifier)

unfoldable pub is_ack : ℕ → Bool
is_ack code = code == RadiusCode.coa_ack || code == RadiusCode.disconnect_ack

abbrev pub failed : Text → Text → Text → CoaResult
failed action nas_ip message = record {
  success = false;
  action = action;
  nas_ip = nas_ip;
  session_id = none;
  mac_address = none;
  response_code = none;
  error_cause = none;
  error_message = some message;
}

abbrev pub succeeded : Text → Text → ℕ → CoaResult
succeeded action nas_ip code = record {
  success = true;
  action = action;
  nas_ip = nas_ip;
  session_id = none;
  mac_address = none;
  response_code = some code;
  error_cause = none;
  error_message = none;
}

-- The part of `_send_packet` that reads the answer. `RadiusCode(response_code)` in the log line of
-- the last branch raises for a code that is none of its members.
unfoldable pub read_response : Text → Text → RadiusPacket → Result CoaResult
unfolding is_ack
read_response action nas_ip response =
    if is_ack response.code
    then ok (succeeded action nas_ip response.code)
    else if RadiusCode.is_member response.code
    then ok (record {
      success = false;
      action = action;
      nas_ip = nas_ip;
      session_id = none;
      mac_address = none;
      response_code = some response.code;
      error_cause = get_error_cause response;
      error_message = some (
          first_true (cause_message (get_error_cause response))
            (get_attr_string RadiusAttr.reply_message response) (codes "CoA rejected by NAS"));
    })
    else err value_error

module _ (o : Outside) where
  abbrev pub await_answer : Text → Text → Text → Answer → Result CoaResult
  await_answer action nas_ip secret (datagram response_data) = elim (decode response_data secret) [
    | ok response ↦ read_response action nas_ip response
    | err e ↦ err e
  ]
  await_answer action nas_ip secret timeout = ok (
      failed action nas_ip
        (codes "CoA timeout after 5s - NAS may not support CoA or secret mismatch"))
  await_answer action nas_ip secret (os_error e) =
      ok (failed action nas_ip (codes "Network error: " ++ e))

  -- `_send_packet`.
  unfoldable pub send_packet : RadiusPacket → Text → Text → Text → Coa CoaResult
  send_packet pkt nas_ip secret action = do
    encoded ← lift (encode o.md5 pkt secret)
    modify (λ w. record w { sent = w.sent ++ (nas_ip, encoded) ∷ [] })
    sent ← gets (λ w. w.sent)
    lift (await_answer action nas_ip secret (o.answer sent))

  abbrev pub with_session : Option Text → Option Text → CoaResult → CoaResult
  with_session session_id mac result = record result { session_id = session_id; mac_address = mac }

-- A new packet; its random authenticator is not sent, since `encode` computes another.
abbrev pub new_packet : ℕ → ℕ → RadiusPacket
new_packet code identifier = record {
  code = code;
  identifier = identifier;
  authenticator = [];
  attributes = [];
}

-- `if value: pkt.add_string(attr_type, value)`.
abbrev pub add_if : ℕ → Option Text → RadiusPacket → Result RadiusPacket
add_if attr_type value pkt =
    if opt_truthy value then add_string attr_type (text_or_empty value) pkt else ok pkt

abbrev pub identify : Option Text → Option Text → RadiusPacket → Result RadiusPacket
identify session_id station pkt =
    and_then (add_if RadiusAttr.acct_session_id session_id pkt)
      (add_if RadiusAttr.calling_station_id station)

abbrev pub add_port : Option ℕ → RadiusPacket → Result RadiusPacket
add_port none pkt = ok pkt
add_port (some port) pkt = add_integer RadiusAttr.nas_port port pkt

abbrev pub reauthenticate_avpair : Text
reauthenticate_avpair = codes "subscriber:command=reauthenticate"

-- `vendor.lower()`, where `vendor` is `None` if the session's switch is not registered.
abbrev pub lower_vendor : Option Text → Result Text
lower_vendor none = err attribute_error
lower_vendor (some vendor) = ok (lower vendor)
