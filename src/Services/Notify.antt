-- ===== src/Services/Notify.antt =====
-- modemproxy/services/alerts.py: notify and the typed events. A message counts as posted when it is
-- handed to the Telegram API; what the API answers changes nothing that is modelled.
use modemproxy.Prelude.{
  ℕ, ◌*◌, String, ◌≡◌, Bool, true, ◌&&◌, [], ◌∷◌, ◌++◌, some, if◌then◌else◌, nonempty, or_text,
  arith,
}
use modemproxy.Text.{◌<>◌, decimal}
use modemproxy.Config.{Config}
use modemproxy.Events.{Event}
use modemproxy.Publish.{Effect}
use modemproxy.Db.Rows.{Store}
use modemproxy.Db.Alerts.{alert_should_send}
use modemproxy.Generator.Sync.{System}

-- _send_raw posts nothing without a bot token and a chat.
can_send : Config → Bool
can_send cfg = cfg.tg_alerts_enable && nonempty cfg.tg_bot_token && nonempty cfg.tg_chat_id

unfoldable pub send_raw : Event → System → System
unfolding can_send
send_raw e sys =
    if can_send sys.config
    then record sys {
      effects =
          sys.effects ++ Effect.post (or_text (some sys.config.brand_name) "modemproxy") e ∷ [];
    }
    else sys

-- An alert that comes within the mute time of the last one of its key is dropped.
unfoldable pub notify : Event → String → ℕ → System → System
unfolding send_raw
notify e key now sys =
    let (go, s) = alert_should_send key (sys.config.alert_mute_minutes * 60) now sys.db in
    if go then send_raw e (record sys { db = s }) else record sys { db = s }

-- The switch of each typed event; a reboot is always announced.
unfoldable pub enabled_for : Config → Event → Bool
enabled_for cfg (Event.rotation_ok imei name old_ip new_ip) = cfg.alert_rotation_ok
enabled_for cfg (Event.rotation_fail imei name why) = cfg.alert_rotation_fail
enabled_for cfg (Event.proxy_down imei name) = cfg.alert_proxy_down
enabled_for cfg (Event.expiring imei name days) = cfg.alert_expiry
enabled_for cfg (Event.expired imei name) = cfg.alert_expiry
enabled_for cfg (Event.rebooted imei name done max_score) = true

unfoldable pub event_key : Event → String
event_key (Event.rotation_ok imei name old_ip new_ip) = "rotok:" <> imei
event_key (Event.rotation_fail imei name why) = "rotfail:" <> imei
event_key (Event.proxy_down imei name) = "down:" <> imei
event_key (Event.expiring imei name days) = "exp:" <> imei <> ":" <> decimal days
event_key (Event.expired imei name) = "expd:" <> imei
event_key (Event.rebooted imei name done max_score) = "rebootmsg:" <> imei

unfoldable pub announce : Event → ℕ → System → System
unfolding enabled_for event_key
announce e now sys = if enabled_for sys.config e then notify e (event_key e) now sys else sys

-- An alert changes no port row, no modem and no setting.
alert_ports :
    (key : String) (mute now : ℕ) (s : Store)
    → ((alert_should_send key mute now s).1.ports ≡ s.ports)
      × ((alert_should_send key mute now s).1.modems ≡ s.modems)
unfolding alert_should_send
alert_ports key mute now s = (ground arith, ground arith)

pub notify_db :
    (e : Event) (key : String) (now : ℕ) (sys : System)
    → (notify e key now sys).db
      ≡ (alert_should_send key (sys.config.alert_mute_minutes * 60) now sys.db).1
unfolding notify
notify_db e key now sys = ground arith

pub announce_rows :
    (e : Event) (now : ℕ) (sys : System)
    → ((announce e now sys).db.ports ≡ sys.db.ports)
      × ((announce e now sys).db.modems ≡ sys.db.modems)
unfolding announce
announce_rows e now sys = (
  ground (
    arith,
    notify_db e (event_key e) now sys,
    alert_ports (event_key e) (sys.config.alert_mute_minutes * 60) now sys.db,
  ),
  ground (
    arith,
    notify_db e (event_key e) now sys,
    alert_ports (event_key e) (sys.config.alert_mute_minutes * 60) now sys.db,
  ),
)

pub alert_log_only :
    (key : String) (mute now : ℕ) (s : Store)
    → (alert_should_send key mute now s).1.rotation_log ≡ s.rotation_log
unfolding alert_should_send
alert_log_only key mute now s = ground arith

pub notify_log :
    (e : Event) (key : String) (now : ℕ) (sys : System)
    → ((notify e key now sys).db.rotation_log ≡ sys.db.rotation_log)
      × ((notify e key now sys).config ≡ sys.config)
unfolding notify
notify_log e key now sys = (
  ground (
    arith,
    notify_db e key now sys,
    alert_log_only key (sys.config.alert_mute_minutes * 60) now sys.db,
  ),
  ground arith,
)

pub announce_log :
    (e : Event) (now : ℕ) (sys : System)
    → ((announce e now sys).db.rotation_log ≡ sys.db.rotation_log)
      × ((announce e now sys).config ≡ sys.config)
unfolding announce
announce_log e now sys = (
  ground (arith, notify_log e (event_key e) now sys),
  ground (arith, notify_log e (event_key e) now sys),
)
