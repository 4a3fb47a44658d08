-- ===== src/Coa/Tables.antt =====
-- The tables that services/auth/coa_manager.py reads and writes, and its queries on them, with the
-- other state of the process: the identifier of the last packet, what was sent and published.
use openradiusweb.Prelude.{
  ℕ, Bool, false, ◌&&◌, Option, none, some, List, [], ◌∷◌, ◌++◌, map, ltb, if◌then◌else◌, keep_if,
  first,
}
use openradiusweb.Prelude.Text.{Text, text_eq, lower, remove_code, truthy}
use openradiusweb.Coa.Bytes.{Bytes}
use openradiusweb.Coa.Like.{ilike}

-- A row of `radius_sessions`; `active` is `status = 'active'`.
pub record Session : Type 0 where
  pub session_id : Text
  pub calling_station_id : Option Text
  pub username : Option Text
  pub nas_ip : Text
  pub device_id : Option Text
  pub assigned_vlan : Option ℕ
  pub started_at : ℕ
  pub active : Bool

-- A row of `network_devices`.
pub record NetworkDevice : Type 0 where
  pub ip_address : Text
  pub vendor : Option Text
  pub coa_secret_encrypted : Option Text

-- A session with the vendor that the LEFT JOIN adds: NULL where no device has the address.
pub record Found : Type 0 where
  pub session : Session
  pub open session use *
  pub vendor : Option Text

-- The fields of `CoAResult`, but for the time stamp.
pub record CoaResult : Type 0 where
  pub success : Bool
  pub action : Text
  pub nas_ip : Text
  pub session_id : Option Text
  pub mac_address : Option Text
  pub response_code : Option ℕ
  pub error_cause : Option ℕ
  pub error_message : Option Text

-- A row of `events`; type and source are constants.
pub record Event : Type 0 where
  pub severity : Text
  pub device_id : Option Text
  pub message : Text
  pub details : Text

pub record World : Type 0 where
  pub identifier : ℕ
  pub sessions : List Session
  pub devices : List NetworkDevice
  pub events : List Event
  pub published : List CoaResult
  pub sent : List (Text × Bytes)

-- The devices that have an address, in the order of the table.
abbrev pub at_address : Text → List NetworkDevice → List NetworkDevice
at_address ip devices = keep_if (λ d. text_eq d.ip_address ip) devices

abbrev vendor_of : Text → List NetworkDevice → Option Text
vendor_of ip devices = elim (first (at_address ip devices)) [ none ↦ none | some d ↦ d.vendor ]

-- The row that a session has in the LEFT JOIN. Where several tenants have a device with the
-- address, the first one stands for the row that the database returns first.
abbrev pub join : List NetworkDevice → Session → Found
join devices s = record { session = s; vendor = vendor_of s.nas_ip devices }

-- `mac_address.replace(":", "").replace("-", "").replace(".", "").lower()`.
unfoldable pub mac_clean : Text → Text
mac_clean mac = lower (remove_code b'.' (remove_code b'-' (remove_code b':' mac)))

-- `REPLACE(REPLACE(LOWER(rs.calling_station_id), ':', ''), '-', '') = :mac`, NULL being unequal.
unfoldable pub station_matches : Text → Session → Bool
station_matches mac s = elim s.calling_station_id [
  | none ↦ false
  | some station ↦ text_eq (remove_code b'-' (remove_code b':' (lower station))) mac
]

-- `ORDER BY started_at DESC LIMIT 1`.
abbrev pub latest : List Session → Option Session
latest [] = none
latest (s ∷ rest) = elim (latest rest) [
  | none ↦ some s
  | some t ↦ some (if ltb s.started_at t.started_at then t else s)
]

abbrev pub map_option {ℓ κ} : {A : Type ℓ} {B : Type κ} → (A → B) → Option A → Option B
map_option f none = none
map_option f (some a) = some (f a)

-- `_find_active_session(session_id=…)`; an empty text is no identifier.
unfoldable pub find_by_session_id : Text → World → Option Found
find_by_session_id sid w =
    if truthy sid
    then map_option (join w.devices)
        (first (keep_if (λ s. text_eq s.session_id sid && s.active) w.sessions))
    else none

-- `_find_active_session(mac_address=…)`.
unfoldable pub find_by_mac : Text → World → Option Found
unfolding mac_clean station_matches
find_by_mac mac w =
    if truthy mac
    then map_option (join w.devices)
        (latest (keep_if (λ s. station_matches (mac_clean mac) s && s.active) w.sessions))
    else none

abbrev name_matches : Text → Session → Bool
name_matches pattern' s = elim s.username [ none ↦ false | some name ↦ ilike name pattern' ]

-- `_find_active_sessions_by_user`.
unfoldable pub find_by_user : Text → World → List Found
find_by_user username w =
    map (join w.devices)
      (keep_if (λ s. name_matches (b'%' ∷ (username ++ b'%' ∷ [])) s && s.active) w.sessions)

-- `UPDATE radius_sessions SET status = 'terminated' WHERE session_id = :sid`.
unfoldable pub terminate : Text → List Session → List Session
terminate sid sessions =
    map (λ s. if text_eq s.session_id sid then record s { active = false } else s) sessions
