-- ===== src/Services/Quota.antt =====
-- modemproxy/services/quota.py: monthly traffic quotas.
pub mod Enforced
use modemproxy.Prelude.{
  ℕ, ◌+◌, ◌-◌, String, Bool, true, false, not, ◌&&◌, List, [], ◌∷◌, Option, none, some,
  if◌then◌else◌, ◌==◌, leb, ltb, nonzero, or_text, or_nat,
}
use modemproxy.Text.{◌<>◌}
use modemproxy.Result.{Result, ok, err}
use modemproxy.Db.Rows.{Port, Store}
use modemproxy.Db.Ports.{PortField, get_port}
use modemproxy.Db.Listing.{list_modems, listed_imeis}
use modemproxy.Bandwidth.Deltas.{Traffic}
use modemproxy.Bandwidth.Report.{Windows, report}
use modemproxy.Generator.Ports.{Secrets, column}
use modemproxy.Generator.Sync.{Host, System}
use modemproxy.Generator.Proxy.{Outcome, stop_proxy, start_proxy, with_port, with_columns}
use modemproxy.Services.Rounds.{Checked, no_action, act, each}

-- The traffic of this month in the quota's direction.
unfoldable pub month_usage : Windows → ℕ → String → String → Store → ℕ
month_usage w now imei direction s =
    let u = report (some imei) w now s in
    if direction == "in"
    then u.month.rx
    else (if direction == "out" then u.month.tx else u.month.rx + u.month.tx)

unfoldable pub port_usage : Windows → ℕ → String → Port → Store → ℕ
unfolding month_usage
port_usage w now imei p s = month_usage w now imei (or_text (some p.quota_direction) "both") s

pub record QuotaStatus : Type 0 where
  pub imei : String
  pub quota_bytes : ℕ
  pub quota_direction : String
  pub used_bytes : ℕ
  pub left_bytes : Option ℕ
  pub over_quota : Bool
  pub locked : Bool

unfoldable pub status : Windows → ℕ → String → Store → QuotaStatus
unfolding month_usage
status w now imei s =
    let port = get_port imei s in
    let quota = or_nat (column (λ p. some p.quota_bytes) port) 0 in
    let direction = or_text (column (λ p. some p.quota_direction) port) "both" in
    let used = if nonzero quota then month_usage w now imei direction s else 0 in
    record {
      imei = imei;
      quota_bytes = quota;
      quota_direction = direction;
      used_bytes = used;
      left_bytes = if nonzero quota then some (quota - used) else none;
      over_quota = nonzero quota && leb quota used;
      locked = nonzero (or_nat (column (λ p. some p.quota_locked) port) 0);
    }

pub data QuotaAction : Type 0 where
  locked unlocked : (imei : String) (used quota : ℕ) → QuotaAction

-- Over its quota a running proxy is stopped and locked; under it a locked one is started.
unfoldable pub enforce : Host → Secrets → Windows → ℕ → String → Port → System → Checked QuotaAction
enforce host fresh w now imei p sys =
    let used = port_usage w now imei p sys.db in
    if nonzero p.quota_bytes
    then (if leb p.quota_bytes used && not (nonzero p.quota_locked) && nonzero p.enabled
        then act (stop_proxy host fresh now imei true sys) (locked imei used p.quota_bytes ∷ [])
        else (if ltb used p.quota_bytes && nonzero p.quota_locked
            then act (start_proxy host fresh now imei sys) (unlocked imei used p.quota_bytes ∷ [])
            else no_action sys))
    else no_action sys

-- The port row is read when the loop comes to its modem.
unfoldable pub check_modem : Host → Secrets → Windows → ℕ → String → System → Checked QuotaAction
unfolding enforce
check_modem host fresh w now imei sys = elim (get_port imei sys.db) [
  | none ↦ no_action sys
  | some p ↦ enforce host fresh w now imei p sys
]

-- `fresh` gives what `secrets` returns while a modem's proxy is started.
unfoldable pub check : Host → (String → Secrets) → Windows → ℕ → System → Checked QuotaAction
unfolding check_modem
check host fresh w now sys =
    each (λ i. check_modem host (fresh i) w now i) (listed_imeis (list_modems sys.db)) sys

known_direction : String → String
known_direction d = if d == "in" then d else (if d == "out" then d else "both")

finish_check : Result (List QuotaAction) → System → Outcome
finish_check (ok acts) sys = record { value = ok none; sys = sys }
finish_check (err e) sys = record { value = err e; sys = sys }

recheck : Host → (String → Secrets) → Windows → ℕ → System → Outcome
unfolding finish_check
recheck host fresh w now sys =
    finish_check (check host fresh w now sys).actions (check host fresh w now sys).sys

-- The status that set_quota returns is `status` in what it leaves.
unfoldable pub set_quota :
    Host → (String → Secrets) → Windows → ℕ → String → ℕ → String → System → Outcome
unfolding recheck known_direction
set_quota host fresh w now imei quota direction sys = with_port imei sys (
    with_columns imei
      (PortField.quota_bytes quota ∷ PortField.quota_direction (known_direction direction) ∷ []) now
      sys (recheck host fresh w now))
