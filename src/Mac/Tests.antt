-- ===== src/Mac/Tests.antt =====
-- The theorem on MAC addresses at the form that Cisco switches write.
use openradiusweb.Prelude.{◌≡◌, refl, inl, inr}
use openradiusweb.Prelude.Text.{codes, lower}
use openradiusweb.Prelude.Result.{ok}
use openradiusweb.Mac.{normalize_mac, validate_mac, colon_pairs}
use openradiusweb.Mac.Agreement.{IsWritten, normalize_mac-validate_mac}

cisco_form : IsWritten b'.' (codes "AABB.ccdd.0011")
cisco_form = (
  inl refl,
  (
    inl refl,
    (
      inl refl,
      (
        inl refl,
        (
          inr refl,
          (
            inl refl,
            (
              inl refl,
              (
                inl refl,
                (inl refl, (inr refl, (inl refl, (inl refl, (inl refl, (inl refl, tt)))))),
              ),
            ),
          ),
        ),
      ),
    ),
  ),
)

stored : validate_mac (codes "AABB.ccdd.0011") ≡ ok (codes "aa:bb:cc:dd:00:11")
unfolding validate_mac colon_pairs lower
stored = refl

normalize_mac-validate_mac_example :
    normalize_mac (codes "AABB.ccdd.0011") ≡ codes "aa:bb:cc:dd:00:11"
normalize_mac-validate_mac_example =
    normalize_mac-validate_mac b'.' (codes "AABB.ccdd.0011") (codes "aa:bb:cc:dd:00:11")
      (inr (inr refl)) cisco_form stored
