-- ===== src/Tests/Device.antt =====
-- modemproxy/modems/netdev.py and bands.py on a ZTE device.
use modemproxy.Prelude.{
  arith, ◌==◌, if◌then◌else◌, Option, String, has_text, ℕ, ◌≡◌, refl, true, List, [], ◌∷◌, ◌++◌,
  some, none,
}
use modemproxy.Text.{◌<>◌}
use modemproxy.Text.Cut.{dict_get, dict_set, is_break, strip, drop_prefix}
use modemproxy.Text.Ucs2.{to_hex, from_hex, ucs2_encode, ucs2_decode}
use modemproxy.Text.Ucs2.Inverse.{ucs2_decode-ucs2_encode}
use modemproxy.Db.Rows.{Store}
use modemproxy.Table
use modemproxy.Db.Modems.{get_modem}
use modemproxy.Netdev.Http.{Web, WebRequest}
use modemproxy.Netdev.Zte.{Site, adopt_session, session_cookie, zte_session, rotate_zte}
use modemproxy.Netdev.Zte.Redial.{orders, redial_orders, Logged, rotate_zte-orders}
use modemproxy.Netdev.Zte.Session.{Plain, session_cookie-adopt_session}
use modemproxy.Netdev.Sms.{Stored, Cipher}
use modemproxy.Bands.Lock.{Order, Device, Reading, reading, remember_capabilities}
use modemproxy.Bands.Scan.{Moment, scan}
use modemproxy.Web.Scans.{
  Scans, no_scans, status_of, api_bands_scan, begin_scan, end_scan, remove_one, ScanReach, here,
  next, asked, began, over,
}
use modemproxy.Web.Scans.Solo.{scanning, Uninterrupted, ScanReach-no_scans-IsSolo}
use modemproxy.Tests.Manager.{stick, stick_site}

-- A device that answers every query alike, and wants tokens.
abbrev web : Web
web = record {
  curl = λ log args. (true, "{}");
  loads =
      λ text. some (("RD", "77") ∷ ("wa_inner_version", "V1") ∷ ("loginfo", "") ∷ ("LD", "x") ∷ []);
  md5 = λ s. "md5-" <> s;
  sha256_upper = λ s. "SHA-" <> s;
  base64 = λ s. "b64-" <> s;
}

abbrev place : Site
place = record { state_dir = "/var/lib/modemproxy"; password = "secret" }

rotate_zte_example :
    (before : List WebRequest) × (orders
        (rotate_zte web place stick_site "192.168.0.1" (some "usb0") []).1
      ≡ redial_orders ++ orders before)
    × Logged web place (zte_session web place stick_site "192.168.0.1" (some "usb0")) [] before
rotate_zte_example = rotate_zte-orders web place stick_site "192.168.0.1" (some "usb0") []

host-Plain : Plain "192.168.0.1"
unfolding is_break
host-Plain = record { no_tab = refl; no_break = refl; no_semicolon = refl }

value-Plain : Plain "A1b2=="
unfolding is_break
value-Plain = record { no_tab = refl; no_break = refl; no_semicolon = refl }

adopt_session_example :
    session_cookie
      (adopt_session none "192.168.0.1" ("stok" <> "=" <> "A1b2==" <> ";" <> " path=/; HttpOnly"))
    ≡ some ("stok=" <> "A1b2==")
unfolding strip
adopt_session_example =
    session_cookie-adopt_session none "192.168.0.1" "A1b2==" " path=/; HttpOnly" host-Plain
      value-Plain refl refl

ucs2_example : ucs2_decode (ucs2_encode "Grüße 😀") ≡ "Grüße 😀"
ucs2_example = ucs2_decode-ucs2_encode "Grüße 😀"

-- A cipher that marks what it encrypts, for the run of the property.
abbrev unmarked : Option String → Option (List ℕ)
unmarked none = none
unmarked (some digits) = from_hex digits

abbrev marking : Cipher
marking = record {
  wrap = λ certificate. none;
  encrypt = λ key bytes. "@" <> to_hex bytes;
  decrypt = λ key field. unmarked (drop_prefix "@" field);
  messages = λ text. none;
}

abbrev kept : Stored
kept = record { tag = "0"; id = "7"; number = "+39"; content = ""; date = "26,07,05,09,30,00,+8" }

-- The device shows its full mask at first, and takes what it is told.
abbrev radio : Device
radio = record {
  lte_band_lock = "0xa3e2ab0908df";
  nr5g_band_lock = "78";
  active_band = "3";
  active_nr_band = "";
  network_type = "LTE";
  set_lte = λ mask. "{\"result\":\"success\"}";
  set_nr = λ mask. "{\"result\":\"success\"}";
  public_ip = some "93.184.216.30";
}

abbrev moment : ℕ → Moment
moment i = record {
  dev = radio;
  later = radio;
  settled = radio;
  lte_rsrp = "-95";
  lte_rsrq = "-11";
  lte_snr = "4.8";
  z5g_rsrp = "";
  z5g_sinr = "";
}

abbrev started : Store
started = (remember_capabilities "net-usb0" radio.lte_band_lock 100 stick_site).1

abbrev shown : Reading
shown = reading stick radio (remember_capabilities "net-usb0" radio.lte_band_lock 100 stick_site).0

abbrev scanned : List Order
scanned = (scan (λ s. "") stick (3 ∷ 7 ∷ []) radio moment radio radio 100 stick_site).orders

-- A scan is asked for and begun, then asked for again, and then it ends.
abbrev asked_once : Scans
asked_once = (api_bands_scan "net-usb0" stick_site no_scans).1

abbrev begun : Scans
begun = begin_scan "net-usb0" asked_once

abbrev asked_twice : Scans
asked_twice = (api_bands_scan "net-usb0" stick_site begun).1

scans_run : ScanReach no_scans (end_scan "net-usb0" none asked_twice)
unfolding api_bands_scan begin_scan get_modem Table.find has_text status_of dict_get dict_set
scans_run =
    next
      (next
        (next (next here (asked "net-usb0" stick_site no_scans)) (began "net-usb0" asked_once refl))
        (asked "net-usb0" stick_site begun))
      (over "net-usb0" none asked_twice refl)

scans_run-Uninterrupted : Uninterrupted scans_run
unfolding Uninterrupted scans_run api_bands_scan begin_scan end_scan remove_one get_modem Table.find
    status_of dict_get dict_set
scans_run-Uninterrupted =
    ((((tt, λ j. ground arith), λ j. ground arith), λ j. ground arith), λ j. ground arith)

scans_example :
    scanning "net-usb0" (end_scan "net-usb0" none asked_twice).threads
    ≡ (if status_of "net-usb0" (end_scan "net-usb0" none asked_twice) == "running" then 1 else 0)
scans_example =
    ScanReach-no_scans-IsSolo (end_scan "net-usb0" none asked_twice) scans_run
      scans_run-Uninterrupted "net-usb0"

-- Two requests that both pass the test before either starts its thread: two threads scan the modem.
abbrev raced : Scans
raced =
    begin_scan "net-usb0"
      (begin_scan "net-usb0" (api_bands_scan "net-usb0" stick_site asked_once).1)

race_test : scanning "net-usb0" raced.threads ≡ 2
unfolding api_bands_scan begin_scan remove_one get_modem Table.find status_of dict_get dict_set
race_test = refl
