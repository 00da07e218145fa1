-- ===== src/Web/Modems.antt =====
-- modemproxy/web/app.py: the handlers of /api/modems/{imei} that change a modem or its proxy.
use modemproxy.Prelude.{
  ℕ, String, Bool, true, false, List, [], ◌∷◌, Option, none, some, if◌then◌else◌, nonempty, nonzero,
}
use modemproxy.Text.Cut.{strip, splitlines, split_on, join}
use modemproxy.Result.{Result, ok, err, Error, mm_error, http_error, ◌>>=◌}
use modemproxy.Db.Rows.{Modem, Port, Store}
use modemproxy.Db.Modems.{ModemField, get_modem, upsert_modem}
use modemproxy.Db.Ports.{get_port}
use modemproxy.Bandwidth.Deltas.{Traffic}
use modemproxy.Bandwidth.Report.{Windows, report}
use modemproxy.Generator.Ports.{Secrets}
use modemproxy.Generator.Sync.{Host, System}
use modemproxy.Generator.Proxy.{
  Outcome, apply_port, set_password, regenerate_credentials, set_rotation_interval, set_whitelist,
  stop_proxy, purge_port,
}
use modemproxy.Services.Quota.{set_quota}
use modemproxy.Services.Subscriptions.{set_expiry, extend}
use modemproxy.Control.{Shell}
use modemproxy.Manager.Rounds.{reset_modem, ask_ussd}
use modemproxy.Web.{Reply, refuse}

unfoldable pub api_modem : String → System → Reply (Modem × Option Port)
api_modem imei sys = elim (get_modem imei sys.db) [
  | none ↦ refuse 404 "not found" sys
  | some m ↦ record { value = ok (m, get_port imei sys.db); sys = sys }
]

abbrev pub reply : Outcome → Reply (Option Port)
reply o = record { value = o.value; sys = o.sys }

-- The second half of a handler that answers {"ok": True}.
abbrev pub done : Outcome → Reply Bool
done o = record { value = o.value >>= λ p. ok true; sys = o.sys }

unfoldable pub api_apply : Host → Secrets → ℕ → String → System → Reply (Option Port)
api_apply host fresh now imei sys = reply (apply_port host fresh now imei sys)

unfoldable pub api_set_password :
    Host → Secrets → ℕ → String → String → System → Reply (Option Port)
api_set_password host fresh now imei password sys =
    if nonempty password
    then reply (set_password host fresh now imei password sys)
    else refuse 400 "password required" sys

unfoldable pub api_regen : Host → Secrets → ℕ → String → System → Reply (Option Port)
api_regen host fresh now imei sys = reply (regenerate_credentials host fresh now imei sys)

-- `name or None`: an empty name is dropped by upsert_modem.
unfoldable pub api_set_name : ℕ → String → Option String → System → Reply String
api_set_name now imei given sys =
    let name = strip (elim given [ none ↦ "" | some n ↦ n ]) in
    record {
      value = ok name;
      sys = record sys {
        db =
            upsert_modem imei (ModemField.name (if nonempty name then some name else none) ∷ []) now
              sys.db;
      };
    }

unfoldable pub api_disable : Host → Secrets → ℕ → String → System → Reply Bool
api_disable host fresh now imei sys = done (stop_proxy host fresh now imei false sys)

unfoldable pub api_set_interval : ℕ → String → Option ℕ → System → Reply (Option Port)
api_set_interval now imei seconds sys =
    reply (set_rotation_interval now imei (elim seconds [ none ↦ 0 | some n ↦ n ]) sys)

-- The field "ips" of the body: a text, or a list.
pub data Ips : Type 0 where
  one_text : String → Ips
  listed : List String → Ips

-- `ips.replace(",", "\n").splitlines()`
unfoldable pub ips_of : Ips → List String
ips_of (one_text t) = splitlines (join "\n" (split_on b',' t))
ips_of (listed ips) = ips

unfoldable pub api_set_whitelist : Host → Secrets → ℕ → String → Ips → System → Reply (Option Port)
unfolding ips_of
api_set_whitelist host fresh now imei ips sys =
    reply (set_whitelist host fresh now imei (ips_of ips) sys)

unfoldable pub api_purge : Host → Secrets → ℕ → String → System → Reply Bool
api_purge host fresh now imei sys = done (purge_port host fresh now imei sys)

unfoldable pub api_reset : Shell → String → Result Bool
api_reset shell imei = reset_modem shell imei >>= λ out. ok true

ussd_error : Error → Error
ussd_error (mm_error text) = http_error 503 text
ussd_error e = e

unfoldable pub api_ussd : Shell → String → String → Result String
unfolding ussd_error
api_ussd shell imei dialled =
    if nonempty dialled
    then elim (ask_ussd shell imei dialled) [
      | ok response ↦ ok response
      | err e ↦ err (ussd_error e)
    ]
    else err (http_error 400 "code required")

-- day_in and day_out
unfoldable pub api_bandwidth_today : Windows → ℕ → String → Store → Traffic
api_bandwidth_today w now imei s = (report (some imei) w now s).day

unfoldable pub api_set_quota :
    Host
    → (String → Secrets)
    → Windows
    → ℕ
    → String
    → Option ℕ
    → Option String
    → System
    → Reply (Option Port)
api_set_quota host fresh w now imei quota direction sys = reply (
    set_quota host fresh w now imei (elim quota [ none ↦ 0 | some n ↦ n ])
      (elim direction [ none ↦ "both" | some d ↦ d ]) sys)

-- No number of days, or zero, means that the subscription has no end.
unfoldable pub api_set_expiry : ℕ → String → Option ℕ → System → Reply (Option Port)
api_set_expiry now imei none sys = reply (set_expiry now imei none sys)
api_set_expiry now imei (some days) sys =
    if nonzero days then reply (extend now imei days sys) else reply (set_expiry now imei none sys)
