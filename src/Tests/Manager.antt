-- ===== src/Tests/Manager.antt =====
-- modemproxy/modems/manager.py, control.py and netdev.py on one net-mode modem.
use modemproxy.Prelude.{
  ℕ, zero, suc, ◌==◌, if◌then◌else◌, ◌≡◌, refl, String, true, false, [], ◌∷◌, ◌++◌, some, none,
  arith,
}
use modemproxy.Result.{ok}
use modemproxy.Table
use modemproxy.Text.{count_chars}
use modemproxy.Text.Cut.{join, contains_lower, strip, count_char}
use modemproxy.Db.Modems.{get_modem, upsert_modem, set_columns}
use modemproxy.Db.Rotation.{rotation_log, log_rotation}
use modemproxy.Config.{defaults}
use modemproxy.Db.Rows.{Modem, Store, init_db, blank_modem}
use modemproxy.Generator.Sync.{System}
use modemproxy.Control.{Shell, not_found, exited}
use modemproxy.Netdev.{public_ip, rotate_dongle}
use modemproxy.Manager.{
  Field, Rotated, rotate, too_soon, reach, attempt, is_good, store_ip, reconnect_once, stops,
  attempts,
}
use modemproxy.Manager.Attempts.{Decides}
use modemproxy.Manager.Logged.{rows_of, answered, skipped_now, rotate-rows_of}
use modemproxy.Manager.Ending.{rotate-Decides}
use modemproxy.Manager.Interval.{rotate-rotate}

abbrev pub stick : Modem
stick = record (blank_modem "net-usb0" 100) {
  kind = some "netdev";
  iface = some "usb0";
  mgmt_host = some "192.168.0.1";
  rt_table = some 100;
  ip = some "93.184.216.30";
  status = "online";
}

abbrev pub stick_site : Store
stick_site = record init_db { modems = stick ∷ [] }

abbrev pub silent : Shell
silent args = not_found

-- The first attempt keeps the address, the second one brings a new one.
abbrev pub new_address : ℕ → String
new_address zero = "93.184.216.30"
new_address (suc k) = "93.184.216.34"

abbrev pub field : Field
field = record {
  before = λ k. silent;
  after = λ k. silent;
  dongle = λ k. record {
    deco = λ host iface. ok none;
    zte = λ host iface. true;
    huawei = λ host iface. false;
    probes = (λ url bound. some (new_address k)) ∷ [];
  };
  works = record { zte = λ host. true; shell = silent };
  fetch = λ ip. none;
}

abbrev pub stick_system : System
stick_system = record {
  db = stick_site;
  config = record defaults { rotation_min_interval = 60 };
  files = [];
  effects = [];
}

abbrev moved : Rotated
moved = record {
  imei = "net-usb0";
  old_ip = some "93.184.216.30";
  new_ip = some "93.184.216.34";
  skipped = false;
}

second_try : (rotate field "net-usb0" "manual" 1000 stick_system).value ≡ ok moved
unfolding rotate too_soon rotation_log reach attempt attempts reconnect_once get_modem Table.find
    rotate_dongle contains_lower stops public_ip strip count_chars count_char log_rotation
    upsert_modem set_columns store_ip is_good Table.update
second_try = refl

rotate_skip_example :
    rotate field "net-usb0" "api" 1030 (rotate field "net-usb0" "manual" 1000 stick_system).sys
    ≡ skipped_now "net-usb0" (rotate field "net-usb0" "manual" 1000 stick_system).sys
rotate_skip_example =
    rotate-rotate field field "net-usb0" "manual" "api" 1000 1030 stick_system moved second_try refl
      (omega arith) (omega arith) (omega arith)

rotate_log_example :
    (rotate field "net-usb0" "manual" 1000 stick_system).sys.db.rotation_log
    ≡ [] ++ rows_of "manual" 1000 (rotate field "net-usb0" "manual" 1000 stick_system).value
rotate_log_example = rotate-rows_of field "net-usb0" "manual" 1000 stick_system

rotate-Decides_example :
    (n : ℕ) × Decides
      (reconnect_once field "net-usb0" (some stick))
      (stops stick_system.config (some "93.184.216.30"))
      0
      (attempts stick_system.config)
      n
    × ((rotate field "net-usb0" "manual" 1000 stick_system).value
        ≡ answered "net-usb0" (some stick) (reconnect_once field "net-usb0" (some stick) n))
unfolding too_soon rotation_log get_modem Table.find
rotate-Decides_example = rotate-Decides field "net-usb0" "manual" 1000 stick_system refl

-- mmcli with the modems 3 and 7.
abbrev cell : Shell
cell args =
    let line = join " " args in
    if line == "mmcli -L --output-keyvalue"
    then exited 0 "modem.list.value[1] : /Modem/3\nmodem.list.value[2] : /Modem/7\n" ""
    else (if line == "mmcli -m 7 --output-keyvalue"
        then exited 0 "modem.3gpp.imei : 867962040000001\n" ""
        else exited 1 "" "no modem")
