-- ===== src/Engine/Tests.antt =====
-- The theorem on the assignment of VLANs at a quarantine.
use openradiusweb.Prelude.{◌≡◌, refl, none, some, true, [], ◌∷◌}
use openradiusweb.Prelude.Text.{codes}
use openradiusweb.Prelude.Result.{ok}
use openradiusweb.Value.{str, dict, Fields, fields, num}
use openradiusweb.Coa.Tables.{Session, World}
use openradiusweb.Coa.Manager.{Outside, timeout}
use openradiusweb.Engine.{Messages, assign_vlan, execute_action, execute_typed}
use openradiusweb.Engine.Assignment.{Ignored, execute_action-Ignored}

abbrev silent : Outside
silent = record {
  md5 = λ bs. [];
  answer = λ sent. timeout;
  decrypt = λ t. ok t;
  accepts_json = λ t. true;
}

abbrev session : Session
session = record {
  session_id = codes "a";
  username = none;
  calling_station_id = some (codes "aa:bb:cc:dd:ee:ff");
  nas_ip = codes "10.0.0.1";
  device_id = none;
  assigned_vlan = some 10;
  started_at = 3;
  active = true;
}

abbrev world : World
world = record {
  identifier = 0;
  sessions = session ∷ [];
  devices = [];
  events = [];
  published = [];
  sent = [];
}

abbrev device : Fields
device =
    fields
      ((codes "id", str (codes "d1")) ∷ (codes "mac_address", str (codes "aa:bb:cc:dd:ee:ff")) ∷ [])

abbrev to_quarantine : Fields
to_quarantine = fields (
    (codes "type", str (codes "vlan_assign"))
    ∷ (codes "params", dict (fields ((codes "vlan_id", num 99) ∷ [])))
    ∷ [])

abbrev published : Messages
published =
    (
      codes "orw.policy.action.vlan_assign",
      fields (
          (codes "device_id", str (codes "d1"))
          ∷ (codes "mac_address", str (codes "aa:bb:cc:dd:ee:ff"))
          ∷ (codes "target_vlan", num 99)
          ∷ []),
    )
    ∷ []

quarantine_published : execute_action to_quarantine device ≡ ok published
unfolding execute_action execute_typed assign_vlan
quarantine_published = refl

execute_action-Ignored_example : Ignored silent world published
execute_action-Ignored_example =
    execute_action-Ignored silent world to_quarantine device refl quarantine_published
