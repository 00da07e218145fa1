-- ===== src/Tests/Radio.antt =====
-- modemproxy/modems/bands.py and services/healthcheck.py on one locked modem.
use modemproxy.Prelude.{
  ℕ, ◌≡◌, ◌≤◌, max, refl, String, true, false, List, [], ◌∷◌, some, none, All, sorted,
}
use modemproxy.Table
use modemproxy.Text.Cut.{contains_lower}
use modemproxy.Db.Rows.{Modem, LockState, Store, init_db}
use modemproxy.Db.Modems.{get_modem}
use modemproxy.Bands.Lock.{
  Device, unlocked, guard, saved_lock, popcount, is_up, has_bands, accepted,
}
use modemproxy.Bands.Lock.Guarded.{Failing, guard-guard-guard}
use modemproxy.Bands.Lock.Widest.{widest, after_readings, after_readings-widest}
use modemproxy.Healthcheck.Site.{Check}
use modemproxy.Healthcheck.Run.{conclude, failed_keys, failed_checks}
use modemproxy.Healthcheck.Quiet.{conclude-conclude}
use modemproxy.Tests.Manager.{stick}

abbrev lock : LockState
lock = record {
  default_mask = some "0xa3e2ab0908df";
  default_nr = some "78";
  lte = 3 ∷ [];
  nr = [];
  strikes = 0;
  ts = some 100;
}

abbrev locked : Modem
locked = record stick { band_lock = some lock }

abbrev locked_site : Store
locked_site = record init_db { modems = locked ∷ [] }

-- Offline, but the device takes what it is told.
abbrev dead : Device
dead = record {
  lte_band_lock = "0x4";
  nr5g_band_lock = "";
  active_band = "";
  active_nr_band = "";
  network_type = "";
  set_lte = λ mask. "{\"result\":\"success\"}";
  set_nr = λ mask. "{\"result\":\"success\"}";
  public_ip = none;
}

failing : Failing locked dead lock
unfolding is_up
failing = record { is_locked = refl; is_down = refl }

guard_example :
    ((guard locked dead dead 200 locked_site).0 ≡ none)
    × ((guard locked dead dead 300 (guard locked dead dead 200 locked_site).1).0 ≡ none)
    × ((guard locked dead dead 400
          (guard locked dead dead 300 (guard locked dead dead 200 locked_site).1).1).0
        ≡ some (unlocked "net-usb0" (3 ∷ [])))
    × ((saved_lock "net-usb0"
          (guard locked dead dead 400
            (guard locked dead dead 300 (guard locked dead dead 200 locked_site).1).1).1).lte
        ≡ [])
unfolding saved_lock get_modem Table.find has_bands contains_lower accepted
guard_example =
    guard-guard-guard locked dead dead dead dead 200 300 400 lock locked_site refl refl failing
      failing failing refl refl refl

widest_example :
    (widest "net-usb0" locked_site
      ≤ widest "net-usb0"
          (after_readings "net-usb0" (("0x4", 200) ∷ ("0x20000000000", 300) ∷ []) locked_site))
    × All
        (λ (r : String × ℕ).
          popcount r.0
          ≤ max 1 (
              widest "net-usb0" (
                after_readings "net-usb0"
                  (("0x4", 200) ∷ ("0x20000000000", 300) ∷ [])
                  locked_site)))
        (("0x4", 200) ∷ ("0x20000000000", 300) ∷ [])
widest_example =
    after_readings-widest "net-usb0" (("0x4", 200) ∷ ("0x20000000000", 300) ∷ []) locked_site

abbrev dns_down : List Check
dns_down = record { key = "dns"; good = false; detail = "first" } ∷ []

abbrev dns_still_down : List Check
dns_still_down = record { key = "dns"; good = false; detail = "second" } ∷ []

report_example :
    (conclude false true true dns_still_down []
      (conclude false true true dns_down [] none).state).report
    ≡ none
unfolding failed_keys failed_checks sorted
report_example =
    conclude-conclude false false true true true dns_down dns_still_down [] [] none refl
