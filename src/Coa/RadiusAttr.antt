-- ===== src/Coa/RadiusAttr.antt =====
-- services/auth/coa_manager.py, the enumeration `RadiusAttr`.
use Prim.Native.Nat.{ℕ}

abbrev pub user_name : ℕ
user_name = 1

abbrev pub nas_port : ℕ
nas_port = 5

abbrev pub filter_id : ℕ
filter_id = 11

abbrev pub reply_message : ℕ
reply_message = 18

abbrev pub vendor_specific : ℕ
vendor_specific = 26

abbrev pub calling_station_id : ℕ
calling_station_id = 31

abbrev pub acct_session_id : ℕ
acct_session_id = 44

abbrev pub tunnel_type : ℕ
tunnel_type = 64

abbrev pub tunnel_medium_type : ℕ
tunnel_medium_type = 65

abbrev pub tunnel_private_group_id : ℕ
tunnel_private_group_id = 81

abbrev pub error_cause : ℕ
error_cause = 101
