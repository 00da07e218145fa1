-- ===== src/Web/Radio.antt =====
-- modemproxy/web/app.py: the handlers of bands and of OpenVPN profiles.
use modemproxy.Prelude.{ℕ, String, true, List, [], ◌∷◌, Option, none, some, or_text}
use modemproxy.Text.{◌<>◌}
use modemproxy.Result.{Result, ok, err, Error, band_error, vpn_error, http_error}
use modemproxy.Db.Rows.{Modem, Store}
use modemproxy.Db.Modems.{get_modem}
use modemproxy.Bands.Lock.{Device, Reading, Answer, read, lock_bands, clear}
use modemproxy.Services.Vpn.{Openssl, Vpn, Enabled, enable_vpn, disable_vpn, export_client}

-- A BandError and a VPNError become a 400.
abbrev refused_as : Error → Error
refused_as (band_error text) = http_error 400 text
refused_as (vpn_error text) = http_error 400 text
refused_as e = e

abbrev handled {ℓ} : {A : Type ℓ} → Result A → Result A
handled (ok a) = ok a
handled (err e) = err (refused_as e)

with_scan : Modem → Result Reading → Result (Reading × Option String)
with_scan m (ok r) = ok (r, m.band_scan)
with_scan m (err e) = err (refused_as e)

-- The reading, with the result of the last scan as the row had it before.
unfoldable pub api_bands : String → Device → ℕ → Store → Answer (Reading × Option String)
unfolding with_scan
api_bands imei dev now s = elim (get_modem imei s) [
  | none ↦ (err (http_error 404 "not found"), s)
  | some m ↦ (with_scan m (read m dev now s).0, (read m dev now s).1)
]

set_or_clear : Modem → List ℕ → List ℕ → Device → Device → ℕ → Store → Answer Reading
set_or_clear m [] nr dev later now s = clear m dev later now s
set_or_clear m (b ∷ bs) nr dev later now s = lock_bands m (b ∷ bs) nr true dev later now s

unfoldable pub api_bands_set :
    String → List ℕ → List ℕ → Device → Device → ℕ → Store → Answer Reading
unfolding set_or_clear
api_bands_set imei lte nr dev later now s = elim (get_modem imei s) [
  | none ↦ (err (http_error 404 "not found"), s)
  | some m ↦
      (handled (set_or_clear m lte nr dev later now s).0, (set_or_clear m lte nr dev later now s).1)
]

unfoldable pub api_vpn_enable : Openssl → String → ℕ → String → Vpn → Result (Enabled × Vpn)
api_vpn_enable tools dir now imei v = handled (enable_vpn tools dir now imei v)

unfoldable pub api_vpn_disable : ℕ → String → Vpn → Result Vpn
api_vpn_disable now imei v = disable_vpn now imei v

file_name : String → Option Modem → String
file_name imei none = "modemproxy-" <> imei <> ".ovpn"
file_name imei (some m) = "modemproxy-" <> or_text m.name imei <> ".ovpn"

attached : String → Store → Result String → Result (String × String)
unfolding file_name
attached imei s (ok text) = ok (file_name imei (get_modem imei s), text)
attached imei s (err e) = err (refused_as e)

-- The name of the attachment and its text.
unfoldable pub api_vpn_export :
    Openssl → (dir public_host imei : String) → Store → Result (String × String)
unfolding attached
api_vpn_export tools dir public_host imei s =
    attached imei s (export_client tools dir public_host imei s)
