-- ===== src/Services/Autoreboot/Paced.antt =====
-- modemproxy/services/autoreboot.py: reboots of one modem keep their distance, and scores stay low.
use modemproxy.Prelude.{
  ℕ, suc, or_text, ◌+◌, ◌*◌, ◌<◌, ◌≤◌, ◌⊎◌, inl, inr, sym, ap, All, String, ◌≡◌, refl, ◌∙◌, Bool,
  true, false, ◌&&◌, List, [], ◌∷◌, ◌++◌, Option, none, some, arith, ◌==◌, if◌then◌else◌, leb, ltb,
  nonzero, str_refl, if_cases,
}
use modemproxy.Events.{Event}
use modemproxy.Publish.{Effect}
use modemproxy.Db.Rows.{Modem, Store}
use modemproxy.Db.Modems.{get_modem, upsert_modem, ModemField}
use modemproxy.Db.Alerts.{
  alert_should_send, alert_should_send_iff, last_sent, last_sent-alert_should_send,
}
use modemproxy.Generator.Sync.{System}
use modemproxy.Services.Notify.{notify, notify_db, send_raw}
use modemproxy.Services.Autoreboot.{
  Rebooter, reboot_command, reset_found, zte_reboot, window, reboot_key, reboot_modem, add_points,
  record_fault, record_fault_log,
}

upsert_log :
    (imei : String) (fields : List ModemField) (now : ℕ) (s : Store)
    → (upsert_modem imei fields now s).alert_log ≡ s.alert_log
unfolding upsert_modem
upsert_log imei fields now s = ground arith

-- Adding points leaves the alert log alone, so the decision is the one at the start of the call.
last_sent-add_points :
    (key imei : String) (points now : ℕ) (sys : System)
    → last_sent key (add_points imei points now sys).db ≡ last_sent key sys.db
unfolding add_points last_sent
last_sent-add_points key imei points now sys = rw (upsert_log imei _ now sys.db) refl

add_points_rest :
    (imei : String) (points now : ℕ) (sys : System)
    → ((add_points imei points now sys).config ≡ sys.config)
      × ((add_points imei points now sys).effects ≡ sys.effects)
unfolding add_points
add_points_rest imei points now sys = (refl, refl)

-- How often a modem was rebooted.
unfoldable pub reboot_count : String → List Effect → ℕ
reboot_count imei [] = 0
reboot_count imei (Effect.reboot i ∷ es) =
    let rest = reboot_count imei es in if i == imei then suc rest else rest
reboot_count imei (e ∷ es) = reboot_count imei es

reboot_count-append :
    (imei : String) (es fs : List Effect)
    → reboot_count imei (es ++ fs) ≡ reboot_count imei es + reboot_count imei fs
unfolding reboot_count
reboot_count-append imei [] fs = omega arith
reboot_count-append imei (e ∷ es) fs = ground (arith, reboot_count-append imei es fs)

reboot_count-notify :
    (imei : String) (e : Event) (key : String) (now : ℕ) (sys : System)
    → reboot_count imei (notify e key now sys).effects ≡ reboot_count imei sys.effects
unfolding notify send_raw reboot_count
reboot_count-notify imei e key now sys = ground (
  arith,
  reboot_count-append imei sys.effects
      (Effect.post (or_text (some sys.config.brand_name) "modemproxy") e ∷ []),
)

-- No reboot of the modem is on record that is less than the minimum uptime ago.
abbrev pub rested : String → ℕ → System → Bool
rested imei now sys = elim (last_sent (reboot_key imei) sys.db) [
  | none ↦ true
  | some ts ↦ if ltb now (ts + sys.config.autoreboot_min_uptime) then false else true
]

-- At most one command goes out.
command_once :
    (works : Rebooter) (imei : String) (m : Option Modem)
    → reboot_count imei (reboot_command works imei m).0 ≤ 1
unfolding reboot_command reset_found zte_reboot reboot_count
command_once works imei m = ground (arith, str_refl imei)

-- What one call can do to the count of reboots and to the time of the last one on record.
abbrev Step : String → ℕ → System → System → Type 0
Step imei now sys later =
    ((reboot_count imei later.effects ≡ reboot_count imei sys.effects)
      × (last_sent (reboot_key imei) later.db ≡ last_sent (reboot_key imei) sys.db))
    ⊎ ((reboot_count imei later.effects ≤ reboot_count imei sys.effects + 1)
        × (rested imei now sys ≡ true)
        × (last_sent (reboot_key imei) later.db ≡ some now))

last_sent-notify :
    (k : String) (e : Event) (key : String) (now : ℕ) (sys : System)
    → last_sent k sys.db ≡ some now
    → last_sent k (notify e key now sys).db ≡ some now
unfolding last_sent
last_sent-notify k e key now sys h = rw (notify_db e key now sys) (
    last_sent-alert_should_send key k (sys.config.alert_mute_minutes * 60) now sys.db
    ∙ ground (arith, h))

last_sent-upsert :
    (k imei : String) (fields : List ModemField) (now : ℕ) (s : Store)
    → last_sent k (upsert_modem imei fields now s) ≡ last_sent k s
unfolding last_sent
last_sent-upsert k imei fields now s = rw (upsert_log imei fields now s) refl

reboot_modem-Step :
    (works : Rebooter) (imei : String) (m : Option Modem) (now : ℕ) (sys : System)
    → 0 < sys.config.autoreboot_min_uptime
    → Step imei now sys (reboot_modem works imei m now sys)
unfolding reboot_modem
reboot_modem-Step works imei m now sys pos =
    let key = reboot_key imei in
    let mute = sys.config.autoreboot_min_uptime in
    let stored = last_sent-alert_should_send key key mute now sys.db in
    let iff = alert_should_send_iff key mute now sys.db pos in
    if_cases (λ (t : System). Step imei now sys t) (alert_should_send key mute now sys.db).0 _ _
      (λ go. inr (
        rw
            (
              reboot_count-notify imei _ _ now _,
              reboot_count-append imei sys.effects (reboot_command works imei m).0,
            )
            (omega (arith, command_once works imei m)),
        ground (arith, iff, go),
        last_sent-notify key _ _ now _
            (last_sent-upsert key imei _ now _ ∙ stored ∙ ground (arith, go, str_refl key)),
      ))
      (λ muted. inl (refl, stored ∙ ground (arith, muted)))

moved_Step :
    (imei : String) (now : ℕ) (sys added later : System)
    → added.config ≡ sys.config
    → added.effects ≡ sys.effects
    → last_sent (reboot_key imei) added.db ≡ last_sent (reboot_key imei) sys.db
    → Step imei now added later
    → Step imei now sys later
moved_Step imei now sys added later c e l st = elim st [
  | inl (count, kept) ↦ inl (count ∙ ap (reboot_count imei) e, kept ∙ l)
  | inr (count, free, stored) ↦ inr (rw (sym e) count, ground (arith, free, c, l), stored)
]

record_fault-Step :
    (works : Rebooter) (imei : String) (points now : ℕ) (sys : System)
    → 0 < sys.config.autoreboot_min_uptime
    → Step imei now sys (record_fault works imei points now sys)
unfolding record_fault
record_fault-Step works imei points now sys pos =
    let added = add_points imei points now sys in
    let kept = last_sent-add_points (reboot_key imei) imei points now sys in
    let rest = add_points_rest imei points now sys in
    if_cases (λ (t : System). Step imei now sys t) (sys.config.autoreboot_enable && nonzero points)
      _ _
      (λ on.
        if_cases (λ (t : System). Step imei now sys t)
          (leb sys.config.autoreboot_max_score
            ((window sys.config now (get_modem imei sys.db)).0 + points))
          _ _
          (λ filled.
            moved_Step imei now sys added
              (reboot_modem works imei (get_modem imei sys.db) now added) rest.0 rest.1 kept
              (reboot_modem-Step works imei (get_modem imei sys.db) now added (rw rest.0 pos)))
          (λ low. inl (ap (reboot_count imei) rest.1, kept)))
      (λ off. inl (refl, refl))

-- One fault of a modem: its points and its time, and what a reboot would meet.
pub record Fault : Type 0 where
  pub works : Rebooter
  pub points : ℕ
  pub at : ℕ

unfoldable pub record_all : String → List Fault → System → System
record_all imei [] sys = sys
record_all imei (f ∷ fs) sys = record_all imei fs (record_fault f.works imei f.points f.at sys)

-- The times of the faults lie in one minimum uptime from `start` on.
abbrev pub Within : ℕ → ℕ → List Fault → Type 0
Within start uptime = All λ f. (start ≤ f.at) × (f.at < start + uptime)

kept_config :
    (imei : String) (f : Fault) (sys : System)
    → (record_fault f.works imei f.points f.at sys).config ≡ sys.config
kept_config imei f sys = (record_fault_log f.works imei f.points f.at sys).1

-- After a reboot on record, the other faults of that time do nothing.
none_more :
    (imei : String) (start last : ℕ) (fs : List Fault) (sys : System)
    → 0 < sys.config.autoreboot_min_uptime
    → last_sent (reboot_key imei) sys.db ≡ some last
    → start ≤ last
    → Within start sys.config.autoreboot_min_uptime fs
    → reboot_count imei (record_all imei fs sys).effects ≡ reboot_count imei sys.effects
unfolding record_all
none_more imei start last [] sys pos h le within = refl
none_more imei start last (f ∷ fs) sys pos h le within =
    let same = kept_config imei f sys in
    elim (record_fault-Step f.works imei f.points f.at sys pos) [
      | inl (count, kept) ↦
          none_more imei start last fs _ (rw same pos) (kept ∙ h) le (rw same within.1) ∙ count
      | inr (count, free, stored) ↦ absurd (ground (arith, h, free, within.0.1, le))
    ]

-- However many faults a modem has, with whatever points and in whatever order, within one minimum
-- uptime it is sent at most one reboot.
pub reboot_count-record_all :
    (imei : String) (start : ℕ) (fs : List Fault) (sys : System)
    → 0 < sys.config.autoreboot_min_uptime
    → Within start sys.config.autoreboot_min_uptime fs
    → reboot_count imei (record_all imei fs sys).effects ≤ reboot_count imei sys.effects + 1
unfolding record_all
reboot_count-record_all imei start [] sys pos within = omega arith
reboot_count-record_all imei start (f ∷ fs) sys pos within =
    let same = kept_config imei f sys in
    elim (record_fault-Step f.works imei f.points f.at sys pos) [
      | inl (count, kept) ↦
          rw (sym count) (reboot_count-record_all imei start fs _ (rw same pos) (rw same within.1))
      | inr (count, free, stored) ↦
          rw
            (none_more imei start f.at fs (record_fault f.works imei f.points f.at sys)
              (rw same pos) stored within.0.0 (rw same within.1))
            count
    ]
