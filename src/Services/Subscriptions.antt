-- ===== src/Services/Subscriptions.antt =====
-- modemproxy/services/subscriptions.py: set_expiry, extend, status and check.
pub mod Ended
use modemproxy.Prelude.{
  ℕ, ◌+◌, ◌-◌, ◌*◌, ◌/◌, ◌%◌, ◌≤◌, ◌<◌, max, String, ◌≡◌, ◌≢◌, refl, sym, ◌∙◌, Bool, true, false,
  ◌&&◌, List, [], ◌∷◌, Option, none, some, if◌then◌else◌, ◌==◌, leb, ltb, eqb, nonzero, or_nat,
  or_text, arith,
}
use modemproxy.Text.{◌<>◌, last_chars}
use modemproxy.Result.{Result, ok, err}
use modemproxy.Config.{Config}
use modemproxy.Events.{Event}
use modemproxy.Db.Rows.{Port, Store}
use modemproxy.Db.Ports.{PortField, get_port}
use modemproxy.Db.Listing.{Listed, list_modems}
use modemproxy.Generator.Ports.{Secrets, column}
use modemproxy.Generator.Pool.{is_expired}
use modemproxy.Generator.Sync.{Host, System}
use modemproxy.Generator.Proxy.{Outcome, stop_proxy, with_port, with_columns, shown}
use modemproxy.Services.Notify.{announce}
use modemproxy.Services.Rounds.{Checked, no_action, act, each}

-- The status that set_expiry returns is `status` in what it leaves.
unfoldable pub set_expiry : ℕ → String → Option ℕ → System → Outcome
unfolding with_port with_columns
set_expiry now imei expires_at sys =
    with_port imei sys
      (with_columns imei (PortField.expires_at expires_at ∷ []) now sys (shown imei))

-- From the later of now and the current end.
unfoldable pub extend : ℕ → String → ℕ → System → Outcome
unfolding with_port set_expiry
extend now imei days sys = with_port imei sys (
    set_expiry now imei
      (some (max now (or_nat (column (λ p. p.expires_at) (get_port imei sys.db)) 0) + days * 86400))
      sys)

pub record SubscriptionStatus : Type 0 where
  pub imei : String
  pub expires_at : Option ℕ
  pub expired : Bool

-- Without `days_left`, a rounded float.
unfoldable pub subscription_status : ℕ → String → Store → SubscriptionStatus
unfolding is_expired
subscription_status now imei s =
    let exp = column (λ p. p.expires_at) (get_port imei s) in
    record { imei = imei; expires_at = exp; expired = is_expired now exp }

pub data ExpiryAction : Type 0 where
  disabled_expired : (imei : String) → ExpiryAction
  expiring : (imei : String) (days : ℕ) → ExpiryAction

-- `round(seconds / 86400)`: to the nearest, and from the middle to the even one.
unfoldable pub round_days : ℕ → ℕ
round_days seconds =
    let days = seconds / 86400 in
    let rest = seconds % 86400 in
    if ltb rest 43200
    then days
    else (if ltb 43200 rest then days + 1 else (if eqb (days % 2) 0 then days else days + 1))

announced : Event → ℕ → Outcome → Outcome
announced e now o = elim o.value [
  | ok p ↦ record { value = ok p; sys = announce e now o.sys }
  | err x ↦ o
]

display_name : Listed → String
display_name r = or_text r.modem.name (last_chars 6 r.modem.imei)

-- A proxy whose time is up.
disable : Host → Secrets → ℕ → Listed → Port → System → Checked ExpiryAction
unfolding announced display_name
disable host fresh now r p sys =
    if nonzero p.enabled
    then act
        (announced (Event.expired r.modem.imei (display_name r)) now
          (stop_proxy host fresh now r.modem.imei false sys))
        (disabled_expired r.modem.imei ∷ [])
    else no_action sys

warned : ℕ → Listed → ℕ → System → Checked ExpiryAction
unfolding display_name
warned now r days sys = record {
  actions = ok (expiring r.modem.imei days ∷ []);
  sys = announce (Event.expiring r.modem.imei (display_name r) days) now sys;
}

-- A proxy whose time is not up yet.
warn : ℕ → Listed → ℕ → System → Checked ExpiryAction
unfolding warned
warn now r exp sys =
    if leb (exp - now) (sys.config.alert_expiry_days * 86400)
    then warned now r (max 1 (round_days (exp - now))) sys
    else no_action sys

expire_port : Host → Secrets → ℕ → Listed → Port → ℕ → System → Checked ExpiryAction
unfolding disable warn
expire_port host fresh now r p exp sys =
    if nonzero exp
    then (if leb exp now then disable host fresh now r p sys else warn now r exp sys)
    else no_action sys

-- A row of list_modems as it was when the loop began.
unfoldable pub expire : Host → Secrets → ℕ → Listed → System → Checked ExpiryAction
unfolding expire_port
expire host fresh now r sys = elim r.port [
  | none ↦ no_action sys
  | some p ↦ elim p.expires_at [
    | none ↦ no_action sys
    | some exp ↦ expire_port host fresh now r p exp sys
  ]
]

unfoldable pub check_subscriptions : Host → (String → Secrets) → ℕ → System → Checked ExpiryAction
unfolding expire
check_subscriptions host fresh now sys =
    each (λ r. expire host (fresh r.modem.imei) now r) (list_modems sys.db) sys
