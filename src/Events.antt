-- ===== src/Events.antt =====
-- modemproxy/services/alerts.py and autoreboot.py: what an alert says, without its wording.
use modemproxy.Prelude.{ℕ, String, Bool}

pub data Event : Type 0 where
  rotation_ok : (imei name old_ip new_ip : String) → Event
  rotation_fail : (imei name why : String) → Event
  proxy_down : (imei name : String) → Event
  expiring : (imei name : String) (days : ℕ) → Event
  expired : (imei name : String) → Event
  rebooted : (imei name : String) (done : Bool) (max_score : ℕ) → Event
