-- ===== src/Mac.antt =====
-- The two normalisations of MAC addresses: `_normalize_mac` of the FreeRADIUS module
-- (services/auth/freeradius/mods-config/python/rlm_orw.py), and that of the gateway, which writes the
-- whitelist (shared/orw_common/models/mab_device.py, services/gateway/features/mab_devices/service.py).
pub mod Agreement
mod Tests
use openradiusweb.Prelude.{
  ℕ, Bool, ◌&&◌, ◌||◌, List, [], ◌∷◌, map, leb, ◌==◌, if◌then◌else◌, length, take, drop, any,
  keep_if,
}
use openradiusweb.Prelude.Text.{Text, codes, lower, remove_code, join}
use openradiusweb.Prelude.Result.{Result, ok, err, value_error}

-- `":".join(raw[i:i+2] for i in range(0, 12, 2))`.
unfoldable pub colon_pairs : Text → Text
colon_pairs raw = join (codes ":") (map (λ i. take 2 (drop i raw)) (0 ∷ 2 ∷ 4 ∷ 6 ∷ 8 ∷ 10 ∷ []))

-- `raw_mac.replace(":", "").replace("-", "").replace(".", "")`.
unfoldable pub strip_separators : Text → Text
strip_separators raw = remove_code b'.' (remove_code b'-' (remove_code b':' raw))

-- `_normalize_mac` of rlm_orw.py. Its first branch is for the form that Cisco writes,
-- aabb.ccdd.eeff.
unfoldable pub normalize_mac : Text → Text
normalize_mac raw_mac =
    let raw = lower (strip_separators raw_mac) in
    if any (λ c. c == b'.') raw_mac && length raw_mac == 14
    then colon_pairs (lower (remove_code b'.' raw_mac))
    else if length raw == 12
    then colon_pairs raw
    else lower raw_mac

abbrev pub is_hex : ℕ → Bool
is_hex c = (leb b'0' c && leb c b'9') || (leb b'a' c && leb c b'f') || (leb b'A' c && leb c b'F')

-- `normalize_mac` of the gateway's models: `ValueError`, unless there are twelve hex digits.
unfoldable pub validate_mac : Text → Result Text
validate_mac v =
    let raw = keep_if is_hex v in
    if length raw == 12 then ok (colon_pairs (lower raw)) else err value_error
