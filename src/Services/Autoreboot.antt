-- ===== src/Services/Autoreboot.antt =====
-- modemproxy/services/autoreboot.py: fault scores, and the reboot of a modem whose score is full.
pub mod Paced
use modemproxy.Prelude.{
  ℕ, ◌∙◌, if_cases, ◌+◌, ◌-◌, ◌≤◌, ◌<◌, String, ◌≡◌, refl, Bool, true, false, not, ◌&&◌, List, [],
  ◌∷◌, ◌++◌, Option, none, some, if◌then◌else◌, leb, ltb, nonzero, or_nat, or_text, arith, nonempty,
  ◌==◌,
}
use modemproxy.Text.{◌<>◌, last_chars}
use modemproxy.Result.{Result, ok, err}
use modemproxy.Config.{Config}
use modemproxy.Control.{Shell, mm_id_for, reset}
use modemproxy.Events.{Event}
use modemproxy.Db.Rows.{Modem, Store}
use modemproxy.Db.Modems.{ModemField, get_modem, upsert_modem, upsert_modem_log}
use modemproxy.Db.Alerts.{alert_should_send, last_sent}
use modemproxy.Publish.{Effect}
use modemproxy.Generator.Sync.{System}
use modemproxy.Services.Notify.{notify, event_key, notify_log, alert_log_only}

-- `m.get(column)` on `db.get_modem(imei) or {}`
abbrev modem_column {ℓ} : {A : Type ℓ} → (Modem → A) → A → Option Modem → A
modem_column f d none = d
modem_column f d (some m) = f m

unfoldable pub reboot_key : String → String
reboot_key imei = "reboot:" <> imei

-- The score before the points of a fault, and the start of its window.
unfoldable pub window : Config → ℕ → Option Modem → ℕ × ℕ
window cfg now m =
    let start = or_nat (modem_column (λ r. r.score_window_start) none m) 0 in
    if ltb (start + cfg.autoreboot_window) now
    then (0, now)
    else (modem_column (λ r. r.reboot_score) 0 m, start)

-- What is outside: whether a host takes netdev.reboot_zte, and what mmcli answers.
pub record Rebooter : Type 0 where
  pub zte : String → Bool
  pub shell : Shell

was_reset : Result String → Bool
was_reset (ok a) = true
was_reset (err e) = false

reset_found : Rebooter → String → Result (Option String) → List Effect × Bool
reset_found works imei (ok (some mid)) =
    if nonempty mid
    then (Effect.reboot imei ∷ [], was_reset (reset works.shell mid))
    else ([], false)
reset_found works imei (ok none) = ([], false)
reset_found works imei (err e) = ([], false)

zte_reboot : Rebooter → String → Option String → List Effect × Bool
zte_reboot works imei none = ([], false)
zte_reboot works imei (some host) =
    if nonempty host then (Effect.reboot imei ∷ [], works.zte host) else ([], false)

-- The command that is sent, if any, and `ok`.
unfoldable pub reboot_command : Rebooter → String → Option Modem → List Effect × Bool
unfolding reset_found zte_reboot was_reset
reboot_command works imei m =
    if or_text (modem_column (λ r. r.kind) none m) "" == "netdev"
    then zte_reboot works imei (modem_column (λ r. r.mgmt_host) none m)
    else reset_found works imei (mm_id_for works.shell imei)

unfoldable pub reboot_modem : Rebooter → String → Option Modem → ℕ → System → System
unfolding reboot_key reboot_command
reboot_modem works imei m now sys =
    let (go, s) = alert_should_send (reboot_key imei) sys.config.autoreboot_min_uptime now sys.db in
    let event =
      Event.rebooted imei (or_text (modem_column (λ r. r.name) none m) (last_chars 6 imei))
        (reboot_command works imei m).1 sys.config.autoreboot_max_score in
    if go
    then notify event (event_key event) now (record sys {
      db =
          upsert_modem imei
            (ModemField.reboot_score (some 0) ∷ ModemField.score_window_start (some now) ∷ []) now
            s;
      effects = sys.effects ++ (reboot_command works imei m).0;
    })
    else record sys { db = s }

unfoldable pub add_points : String → ℕ → ℕ → System → System
unfolding window
add_points imei points now sys =
    let (score, start) = window sys.config now (get_modem imei sys.db) in
    record sys {
      db =
          upsert_modem imei
            (ModemField.reboot_score (some (score + points))
              ∷ ModemField.score_window_start (some start)
              ∷ [])
            now sys.db;
    }

unfoldable pub record_fault : Rebooter → String → ℕ → ℕ → System → System
unfolding add_points reboot_modem window
record_fault works imei points now sys =
    if sys.config.autoreboot_enable && nonzero points
    then (if leb sys.config.autoreboot_max_score
          ((window sys.config now (get_modem imei sys.db)).0 + points)
        then reboot_modem works imei (get_modem imei sys.db) now (add_points imei points now sys)
        else add_points imei points now sys)
    else sys

add_points_log :
    (imei : String) (points now : ℕ) (sys : System)
    → ((add_points imei points now sys).db.rotation_log ≡ sys.db.rotation_log)
      × ((add_points imei points now sys).config ≡ sys.config)
unfolding add_points
add_points_log imei points now sys = (upsert_modem_log imei _ now sys.db, refl)

reboot_modem_log :
    (works : Rebooter) (imei : String) (m : Option Modem) (now : ℕ) (sys : System)
    → ((reboot_modem works imei m now sys).db.rotation_log ≡ sys.db.rotation_log)
      × ((reboot_modem works imei m now sys).config ≡ sys.config)
unfolding reboot_modem
reboot_modem_log works imei m now sys =
    if_cases (λ (x : System). (x.db.rotation_log ≡ sys.db.rotation_log) × (x.config ≡ sys.config))
      (alert_should_send (reboot_key imei) sys.config.autoreboot_min_uptime now sys.db).0 _ _
      (λ h. (
        (notify_log _ _ now _).0
            ∙ upsert_modem_log imei _ now _
            ∙ alert_log_only (reboot_key imei) sys.config.autoreboot_min_uptime now sys.db,
        (notify_log _ _ now _).1,
      ))
      (λ h. (alert_log_only (reboot_key imei) sys.config.autoreboot_min_uptime now sys.db, refl))

pub record_fault_log :
    (works : Rebooter) (imei : String) (points now : ℕ) (sys : System)
    → ((record_fault works imei points now sys).db.rotation_log ≡ sys.db.rotation_log)
      × ((record_fault works imei points now sys).config ≡ sys.config)
unfolding record_fault
record_fault_log works imei points now sys = (
  ground (
    arith,
    add_points_log imei points now sys,
    reboot_modem_log works imei (get_modem imei sys.db) now (add_points imei points now sys),
  ),
  ground (
    arith,
    add_points_log imei points now sys,
    reboot_modem_log works imei (get_modem imei sys.db) now (add_points imei points now sys),
  ),
)
