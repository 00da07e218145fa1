-- ===== src/Manager.antt =====
-- modemproxy/modems/manager.py: rotate, rotate_all and rotate_due, with _reconnect_once.
pub mod Attempts
pub mod Logged
pub mod Ending
pub mod Interval
pub mod Rounds
pub mod Discovery
use modemproxy.Prelude.{
  ℕ, zero, suc, ◌+◌, max, String, Bool, true, false, not, ◌&&◌, ◌||◌, List, [], ◌∷◌, Option, none,
  some, if◌then◌else◌, ◌==◌, leb, ltb, nonempty, truthy_text, or_text, keep, map,
}
use modemproxy.Text.{◌<>◌, decimal, last_chars}
use modemproxy.Result.{
  Result, ok, err, Error, integrity_error, index_error, os_error, value_error, band_error, mm_error,
  netdev_error, vpn_error, http_error, ◌>>=◌,
}
use modemproxy.Config.{Config}
use modemproxy.Events.{Event}
use modemproxy.Db.Rows.{Modem, Rotation, Store}
use modemproxy.Db.Modems.{ModemField, get_modem, upsert_modem}
use modemproxy.Db.Listing.{Listed, list_modems}
use modemproxy.Db.Rotation.{log_rotation, rotation_log, due_for_rotation}
use modemproxy.Generator.Sync.{System}
use modemproxy.Services.Notify.{announce}
use modemproxy.Services.Autoreboot.{Rebooter, record_fault}
use modemproxy.Services.Geoip.{refresh_modems}
use modemproxy.Netdev.{Dongle, rotate_dongle}
use modemproxy.Control.{Shell, mm_id_for, reconnect, control_safe_ip}

-- What is outside: the answers of mmcli before and after the command of an attempt, what a
-- net-mode modem does in an attempt, whether a modem takes a reboot, and ipinfo.io.
pub record Field : Type 0 where
  pub before : ℕ → Shell
  pub after : ℕ → Shell
  pub dongle : ℕ → Dongle
  pub works : Rebooter
  pub fetch : String → Option String

-- `str(e)`
abbrev pub error_text : Error → String
error_text index_error = "list index out of range"
error_text (os_error t) = t
error_text integrity_error = "FOREIGN KEY constraint failed"
error_text (value_error t) = t
error_text (band_error t) = t
error_text (mm_error t) = t
error_text (netdev_error t) = t
error_text (vpn_error t) = t
error_text (http_error code t) = t

reconnect_mm : Field → String → ℕ → Option String → Result (Option String)
reconnect_mm field imei k none = err (mm_error ("modem " <> imei <> " not present"))
reconnect_mm field imei k (some mid) =
    if nonempty mid
    then (reconnect (field.before k) (field.after k) mid none >>= λ u.
        control_safe_ip (field.after k) mid)
    else err (mm_error ("modem " <> imei <> " not present"))

abbrev is_netdev : Modem → Bool
is_netdev m = elim m.kind [ none ↦ false | some k ↦ k == "netdev" ]

-- The address after attempt `k`.
unfoldable pub reconnect_once : Field → String → Option Modem → ℕ → Result (Option String)
unfolding reconnect_mm
reconnect_once field imei none k = mm_id_for (field.before k) imei >>= reconnect_mm field imei k
reconnect_once field imei (some m) k =
    if is_netdev m
    then rotate_dongle (field.dongle k) m
    else (mm_id_for (field.before k) imei >>= reconnect_mm field imei k)

-- `bool(new_ip) and (not cfg.rotation_unique or new_ip != old_ip)`
unfoldable pub is_good : Bool → Option String → Option String → Bool
is_good unique old_ip none = false
is_good unique old_ip (some ip) =
    nonempty ip && (not unique || elim old_ip [ none ↦ true | some old ↦ not (ip == old) ])

-- `for _ in range(attempts)`, with `k` attempts behind it and the address of the last one.
unfoldable pub attempt :
    (ℕ → Result (Option String))
    → (Option String → Bool)
    → ℕ
    → ℕ
    → Option String
    → Result (Option String)
attempt reconnect stop k zero last = ok last
attempt reconnect stop k (suc left) last = elim (reconnect k) [
  | err e ↦ err e
  | ok ip ↦ elim (stop ip) [ true ↦ ok ip | false ↦ attempt reconnect stop (suc k) left ip ]
]

unfoldable pub attempts : Config → ℕ
attempts cfg =
    if cfg.rotation_dirty || not cfg.rotation_retry then 1 else max 1 cfg.rotation_max_retry

unfoldable pub stops : Config → Option String → Option String → Bool
unfolding is_good
stops cfg old_ip ip = cfg.rotation_dirty || is_good cfg.rotation_unique old_ip ip

pub record Rotated : Type 0 where
  pub imei : String
  pub old_ip : Option String
  pub new_ip : Option String
  pub skipped : Bool

pub record RotateOutcome : Type 0 where
  pub value : Result Rotated
  pub sys : System

-- `m.get("ip")` and the name, of a modem that may be unknown.
abbrev pub known_ip : Option Modem → Option String
known_ip none = none
known_ip (some m) = m.ip

abbrev pub shown_name : String → Option Modem → String
shown_name imei none = last_chars 6 imei
shown_name imei (some m) = or_text m.name (last_chars 6 imei)

-- Rotated less than the minimum interval ago.
unfoldable pub too_soon : String → ℕ → System → Bool
too_soon imei now sys =
    ltb 0 sys.config.rotation_min_interval && elim (rotation_log (some imei) 1 sys.db) [
      | [] ↦ false
      | r ∷ rs ↦ ltb now (r.ts + sys.config.rotation_min_interval)
    ]

-- autoreboot.record under `if cfg.autoreboot_enable`.
fault : Field → String → ℕ → ℕ → System → System
fault field imei points now sys =
    if sys.config.autoreboot_enable then record_fault field.works imei points now sys else sys

unfoldable pub rotate_failed : Field → String → Error → ℕ → System → System
unfolding fault
rotate_failed field imei e now sys = fault field imei sys.config.score_rotation_fail now (
    announce (Event.rotation_fail imei (shown_name imei (get_modem imei sys.db)) (error_text e)) now
      sys)

-- What is done once the address is known: relabel, score a missing address, tell.
unfoldable pub rotate_done :
    Field → String → String → Option String → Option String → ℕ → System → System
unfolding fault
rotate_done field imei name old_ip new_ip now sys =
    let labelled = record sys { db = (refresh_modems field.fetch sys.config now sys.db).1 } in
    let scored =
      if truthy_text new_ip
      then labelled
      else fault field imei sys.config.score_ip_not_detected now labelled in
    announce
      (if sys.config.rotation_unique && truthy_text new_ip && not (is_good true old_ip new_ip)
        then Event.rotation_fail imei name (
            "IP unchanged after "
            <> decimal (attempts sys.config)
            <> " tries ("
            <> or_text new_ip ""
            <> ")")
        else Event.rotation_ok imei name (or_text old_ip "?") (or_text new_ip "?"))
      now scored

-- The row of the modem gets the address, if there is one, and the log gets a row.
unfoldable pub store_ip : String → String → Option String → Option String → ℕ → Store → Result Store
store_ip imei reason old_ip new_ip now s =
    log_rotation imei old_ip new_ip reason now
      (upsert_modem imei (ModemField.ip new_ip ∷ ModemField.last_seen (some now) ∷ []) now s)

finish : Field → String → String → Option Modem → Option String → ℕ → System → RotateOutcome
unfolding rotate_done store_ip
finish field imei reason old new_ip now sys =
    elim (store_ip imei reason (known_ip old) new_ip now sys.db) [
      | err e ↦ record { value = err e; sys = sys }
      | ok s ↦ record {
        value =
            ok (record { imei = imei; old_ip = known_ip old; new_ip = new_ip; skipped = false });
        sys =
            rotate_done field imei (shown_name imei old) (known_ip old) new_ip now
              (record sys { db = s });
      }
    ]

decide :
    Field → String → String → Option Modem → Result (Option String) → ℕ → System → RotateOutcome
unfolding finish rotate_failed
decide field imei reason old (ok new_ip) now sys = finish field imei reason old new_ip now sys
decide field imei reason old (err e) now sys = record {
  value = err e;
  sys = rotate_failed field imei e now sys;
}

unfoldable pub reach : Field → String → Option Modem → Config → Result (Option String)
reach field imei old cfg =
    attempt (reconnect_once field imei old) (stops cfg (known_ip old)) 0 (attempts cfg) none

unfoldable pub rotate : Field → String → String → ℕ → System → RotateOutcome
unfolding decide
rotate field imei reason now sys =
    let old = get_modem imei sys.db in
    if too_soon imei now sys
    then record {
      value =
          ok (record { imei = imei; old_ip = known_ip old; new_ip = known_ip old; skipped = true });
      sys = sys;
    }
    else decide field imei reason old (reach field imei old sys.config) now sys
