-- ===== src/Rlm/Failure.antt =====
-- rlm_orw.py: `_detect_failure_reason`.
pub mod Codes
use openradiusweb.Prelude.{
  ℕ, Bool, true, false, ◌&&◌, ◌||◌, Option, none, some, List, [], ◌∷◌, ◌++◌, if◌then◌else◌,
}
use openradiusweb.Prelude.Text.{Text, codes, text_eq, lower, contains, truthy, text_or_empty}
use openradiusweb.Prelude.Repr.{repr_dict, repr_text}

-- The three results: the reason, the code and the message.
pub record Failure : Type 0 where
  pub failure_reason : Option Text
  pub ad_error_code : Option Text
  pub ad_error_message : Option Text

abbrev pub no_failure : Failure
no_failure = record { failure_reason = none; ad_error_code = none; ad_error_message = none }

-- An entry of `AD_ERROR_MAP`: the code, the reason and its description.
pub record AdError : Type 0 where
  pub code : Text
  pub reason : Text
  pub description : Text

abbrev entry : Text → Text → Text → AdError
entry code reason description = record { code = code; reason = reason; description = description }

-- `AD_ERROR_MAP`, in its order.
abbrev pub ad_error_map : List AdError
ad_error_map =
    entry (codes "525") (codes "AD_MACHINE_NOT_FOUND") (codes "User/computer not found in AD")
    ∷ entry (codes "52e") (codes "AD_INVALID_CREDENTIALS")
        (codes "Invalid credentials - wrong password")
    ∷ entry (codes "530") (codes "AD_LOGON_HOURS") (codes "Not permitted to logon at this time")
    ∷ entry (codes "531") (codes "AD_LOGON_WORKSTATION")
        (codes "Not permitted to logon from this workstation")
    ∷ entry (codes "532") (codes "AD_PASSWORD_EXPIRED") (codes "Password has expired")
    ∷ entry (codes "533") (codes "AD_ACCOUNT_DISABLED") (codes "Account is disabled")
    ∷ entry (codes "701") (codes "AD_ACCOUNT_EXPIRED") (codes "Account has expired")
    ∷ entry (codes "773") (codes "AD_PASSWORD_MUST_CHANGE")
        (codes "User must change password before first logon")
    ∷ entry (codes "775") (codes "AD_ACCOUNT_LOCKED") (codes "Account is locked out")
    ∷ entry (codes "691") (codes "AD_INVALID_CREDENTIALS")
        (codes "Authentication failure - wrong password or username")
    ∷ entry (codes "646") (codes "AD_ACCOUNT_DISABLED")
        (codes "Account restriction - account disabled or locked")
    ∷ entry (codes "647") (codes "AD_ACCOUNT_EXPIRED") (codes "Account expired")
    ∷ entry (codes "648") (codes "AD_LOGON_HOURS") (codes "Logon hours restriction")
    ∷ entry (codes "649") (codes "AD_LOGON_WORKSTATION") (codes "Workstation restriction")
    ∷ []

-- The first entry that passes a test.
abbrev pub find_entry : (AdError → Bool) → List AdError → Option AdError
find_entry test [] = none
find_entry test (e ∷ rest) = let later = find_entry test rest in if test e then some e else later

abbrev pub names_code : Text → AdError → Bool
names_code source e = contains source e.code || contains (lower source) (codes "data " ++ e.code)

-- The loop over the codes of AD.
unfoldable pub ad_entry : Text → Option AdError
ad_entry source = find_entry (names_code source) ad_error_map

-- The loop over the codes of MS-CHAP, behind its test.
unfoldable pub mschap_entry : Text → Option AdError
mschap_entry source =
    if contains source (codes "E=")
    then find_entry (λ e. contains source (codes "E=" ++ e.code)) ad_error_map
    else none

abbrev pub of_entry : Text → AdError → Failure
of_entry source e = record {
  failure_reason = some e.description;
  ad_error_code = some e.reason;
  ad_error_message = some source;
}

abbrev reason : Text → Text → Text → Failure
reason description code source = record {
  failure_reason = some description;
  ad_error_code = some code;
  ad_error_message = some source;
}

-- The tests on words, after those on codes.
unfoldable pub word_reason : Text → Option Failure
word_reason source =
    let has = contains (lower source) in
    let others =
      if has (codes "eap") && has (codes "timeout")
      then some (reason (codes "EAP conversation timed out") (codes "EAP_TIMEOUT") source)
      else if has (codes "eap")
          && has (codes "method")
          && (has (codes "reject") || has (codes "not found"))
      then some (reason (codes "EAP method not supported") (codes "EAP_METHOD_MISMATCH") source)
      else if has (codes "ldap") && (has (codes "connect") || has (codes "bind"))
      then some (reason (codes "Cannot connect to AD/LDAP") (codes "AD_CONNECT_FAILED") source)
      else if has (codes "shared secret") || has (codes "authenticator")
      then some
          (reason (codes "RADIUS shared secret mismatch") (codes "SHARED_SECRET_MISMATCH") source)
      else none in
    if has (codes "certificate") && has (codes "expired")
    then some (reason (codes "Client certificate expired") (codes "CERT_EXPIRED") source)
    else if has (codes "certificate") && has (codes "revoked")
    then some (reason (codes "Client certificate revoked") (codes "CERT_REVOKED") source)
    else if has (codes "certificate") && (has (codes "unknown ca") || has (codes "untrusted"))
    then some
        (reason (codes "Client certificate from untrusted CA") (codes "CERT_NOT_TRUSTED") source)
    else if has (codes "certificate") && has (codes "verify")
    then some (reason (codes "Certificate verification failed") (codes "CERT_VERIFY_FAILED") source)
    else others

-- A result of a loop over codes, or else what comes after it.
abbrev pub or_after : Text → Option AdError → Option Failure → Option Failure
or_after source (some e) later = some (of_entry source e)
or_after source none later = later

-- One round of the loop over the sources: a result, or none to go on.
unfoldable pub source_reason : Text → Option Failure
source_reason source =
    or_after source (ad_entry source) (or_after source (mschap_entry source) (word_reason source))

unfoldable pub first_reason : List Text → Option Failure
first_reason [] = none
first_reason (source ∷ rest) =
    let later = first_reason rest in
    if truthy source
    then (elim (source_reason source) [ some f ↦ some f | none ↦ later ])
    else later

-- The reply, as far as `post_auth` fills it: a dict of texts.
abbrev pub Reply : Type 0
Reply = List (Text × Text)

abbrev pub reply_get : Text → Reply → Option Text
reply_get name [] = none
reply_get name ((k, v) ∷ rest) = if text_eq k name then some v else reply_get name rest

abbrev pub only_reason : Text → Failure
only_reason r = record { failure_reason = some r; ad_error_code = none; ad_error_message = none }

abbrev repr_reply : Reply → List (Text × Text)
repr_reply [] = []
repr_reply ((k, v) ∷ rest) = (k, repr_text v) ∷ repr_reply rest

-- `_detect_failure_reason`; the request is not used.
unfoldable pub detect_failure_reason : Reply → Bool → Failure
unfolding first_reason
detect_failure_reason reply success =
    let reply_message = text_or_empty (reply_get (codes "Reply-Message") reply) in
    let module_fail = text_or_empty (reply_get (codes "Module-Failure-Message") reply) in
    let sources = reply_message ∷ module_fail ∷ repr_dict (repr_reply reply) ∷ [] in
    if success then no_failure else (elim (first_reason sources) [
      | some f ↦ f
      | none ↦
          if truthy module_fail
          then only_reason module_fail
          else if truthy reply_message
          then only_reason reply_message
          else only_reason (codes "Authentication rejected")
    ])
