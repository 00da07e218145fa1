-- ===== src/Generator/Proxy.antt =====
-- modemproxy/proxy/generator.py: render_modem, apply_port, stop_proxy, start_proxy, purge_port and
-- the changes of a proxy's settings.
pub mod Apart
pub mod Sound
pub mod Effects
pub mod Frame
use mathlib.Core.Option
use modemproxy.Prelude.{
  ℕ, String, ◌≡◌, refl, Bool, true, false, not, ◌&&◌, ◌||◌, List, [], ◌∷◌, ◌++◌, Option, none, some,
  if◌then◌else◌, ◌==◌, nonempty, nonzero, truthy, truthy_text, or_text, keep,
}
use modemproxy.Text.{◌<>◌, decimal, last_chars}
use modemproxy.Result.{Result, ok, err, Error, value_error}
use modemproxy.Table
use modemproxy.Config.{Config}
use modemproxy.Db.Rows.{Modem, Port, Store}
use modemproxy.Db.Modems.{get_modem}
use modemproxy.Db.Ports.{PortField, get_port, set_port, delete_port}
use modemproxy.Publish.{Effect, systemctl, setup_routing, ensure_ttl}
use modemproxy.Generator.Ports.{
  Login, default_login, Secrets, svc, modem_index, allocate_port, or_else,
}
use modemproxy.Generator.Users.{all_users}
use modemproxy.Generator.Sync.{
  Host, System, ProxyFile, as_root, dns_of, publish_sync, file_key, write_file,
}

-- How a call ends, and what it leaves: an exception undoes nothing that was done before it.
pub record Outcome : Type 0 where
  pub value : Result (Option Port)
  pub sys : System

abbrev pub unit_of : String → String
unit_of imei = "modemproxy-proxy@" <> svc imei <> ".service"

unfoldable pub modem_text : Host → Config → Modem → Port → String
modem_text host cfg m p = host.render_modem_cfg (record {
  imei = m.imei;
  name = or_text m.name (last_chars 6 m.imei);
  svc = svc m.imei;
  dns = dns_of cfg;
  all_users = all_users p;
  http_port = p.http_port;
  socks_port = p.socks_port;
  modem_ip = or_else m.bind_ip m.ip "0.0.0.0";
  bind_address = cfg.bind_address;
  white_list = elim p.white_list [ none ↦ [] | some l ↦ l ];
})

unfoldable pub render_modem : Host → String → System → Result System
unfolding write_file
render_modem host imei sys = elim (get_modem imei sys.db) [
  | none ↦ err (value_error ("modem/port not configured for " <> imei))
  | some m ↦ elim (get_port imei sys.db) [
    | none ↦ err (value_error ("modem/port not configured for " <> imei))
    | some p ↦
        ok (record sys { files = write_file (svc imei) (modem_text host sys.config m p) sys.files })
  ]
]

-- Source-based routing for a modem in net mode, and the TTL of its interface.
unfoldable pub routing : Host → Modem → List Effect
routing host m = elim m.bind_ip [
  | none ↦ []
  | some ip ↦ elim m.rt_table [
    | none ↦ []
    | some table ↦
        if elim m.kind [ none ↦ false | some k ↦ k == "netdev" ] && nonempty ip && nonzero table
        then setup_routing (or_text m.iface "") ip (or_text m.mgmt_host (host.gateway_of ip)) table
          ∷ []
        else []
  ]
]

unfoldable pub ttl_rule : Modem → List Effect
ttl_rule m = elim m.iface [ none ↦ [] | some i ↦ if nonempty i then ensure_ttl i ∷ [] else [] ]

unfoldable pub modem_effects : Host → Option Modem → List Effect
unfolding routing ttl_rule
modem_effects host none = []
modem_effects host (some m) = routing host m ++ ttl_rule m

-- What apply_port does after the configuration is written.
unfoldable pub bring_up : Host → Secrets → ℕ → String → System → System
unfolding modem_effects
bring_up host fresh now imei sys = publish_sync host fresh.pool_password now (record sys {
  effects =
      sys.effects
      ++ modem_effects host (get_modem imei sys.db)
      ++ as_root host (systemctl "enable" (unit_of imei) ∷ systemctl "restart" (unit_of imei) ∷ []);
})

-- The rest of a call, if what comes before it does not raise.
unfoldable pub proceed {ℓ} : {A : Type ℓ} → Result A → System → (A → Outcome) → Outcome
proceed (ok a) sys rest = rest a
proceed (err e) sys rest = record { value = err e; sys = sys }

-- A statement about the rest, and one about the exception, are one about the call.
pub proceed_cases {ℓ κ} :
    {A : Type ℓ} (r : Result A) (sys : System) (rest : A → Outcome) (P : Outcome → Type κ)
    → ((a : A) → r ≡ ok a → P (rest a))
    → ((e : Error) → P (record { value = err e; sys = sys }))
    → P (proceed r sys rest)
unfolding proceed
proceed_cases (ok a) sys rest P good bad = good a refl
proceed_cases (err e) sys rest P good bad = bad e

unfoldable pub finish : Host → Secrets → ℕ → String → System → Outcome
unfolding render_modem bring_up proceed
finish host fresh now imei sys =
    proceed (render_modem host imei sys) sys (λ done. record {
      value = ok (get_port imei sys.db);
      sys = bring_up host fresh now imei done;
    })

unfoldable pub apply_login : Host → Login → Secrets → ℕ → String → System → Outcome
unfolding finish proceed
apply_login host login fresh now imei sys =
    proceed (allocate_port sys.config imei login fresh now sys.db) sys
      (λ s. finish host fresh now imei (record sys { db = s }))

unfoldable pub apply_port : Host → Secrets → ℕ → String → System → Outcome
unfolding apply_login
apply_port host fresh now imei sys = apply_login host default_login fresh now imei sys

-- db.set_port, and what follows it if it does not raise.
unfoldable pub with_columns : String → List PortField → ℕ → System → (System → Outcome) → Outcome
unfolding proceed
with_columns imei fields now sys rest =
    proceed (set_port imei fields now sys.db) sys (λ s. rest (record sys { db = s }))

require : String → Option Port → Result Port
require imei none = err (value_error ("no proxy configured for " <> imei))
require imei (some p) = ok p

-- `if not db.get_port(imei): raise ValueError`, and what follows it.
unfoldable pub with_port : String → System → Outcome → Outcome
unfolding require proceed
with_port imei sys rest = proceed (require imei (get_port imei sys.db)) sys (λ p. rest)

unfoldable pub set_password : Host → Secrets → ℕ → String → String → System → Outcome
unfolding with_port with_columns
set_password host fresh now imei password sys = with_port imei sys (
    with_columns imei (PortField.password (some password) ∷ []) now sys
      (apply_port host fresh now imei))

unfoldable pub regenerate_credentials : Host → Secrets → ℕ → String → System → Outcome
unfolding with_columns
regenerate_credentials host fresh now imei sys =
    with_columns imei
      (PortField.username (some ("u" <> decimal (modem_index imei sys.db)))
        ∷ PortField.password (some fresh.password)
        ∷ [])
      now sys (apply_port host fresh now imei)

unfoldable pub shown : String → System → Outcome
shown imei done = record { value = ok (get_port imei done.db); sys = done }

-- A negative number of seconds is 0 for `max(0, int(seconds))`.
unfoldable pub set_rotation_interval : ℕ → String → ℕ → System → Outcome
unfolding with_port with_columns shown
set_rotation_interval now imei seconds sys =
    with_port imei sys
      (with_columns imei (PortField.rotation_interval seconds ∷ []) now sys (shown imei))

-- The entries come with the blanks around them removed (str.strip).
unfoldable pub set_whitelist : Host → Secrets → ℕ → String → List String → System → Outcome
unfolding with_port with_columns
set_whitelist host fresh now imei ips sys = with_port imei sys (
    with_columns imei (PortField.white_list (some (keep nonempty ips)) ∷ []) now sys
      (apply_port host fresh now imei))

unfoldable pub stopped : Host → Secrets → ℕ → String → System → Outcome
stopped host fresh now imei done = record {
  value = ok none;
  sys = publish_sync host fresh.pool_password now (record done {
    effects = done.effects ++ as_root host (systemctl "stop" (unit_of imei) ∷ []);
  });
}

unfoldable pub stop_proxy : Host → Secrets → ℕ → String → Bool → System → Outcome
unfolding with_columns stopped
stop_proxy host fresh now imei locked sys =
    with_columns imei (PortField.enabled 0 ∷ PortField.quota_locked (if locked then 1 else 0) ∷ [])
      now sys (stopped host fresh now imei)

unfoldable pub start_proxy : Host → Secrets → ℕ → String → System → Outcome
unfolding with_columns
start_proxy host fresh now imei sys =
    with_columns imei (PortField.quota_locked 0 ∷ []) now sys (apply_port host fresh now imei)

unfoldable pub purge_port : Host → Secrets → ℕ → String → System → Outcome
purge_port host fresh now imei sys = record {
  value = ok none;
  sys = publish_sync host fresh.pool_password now (record sys {
    db = delete_port imei sys.db;
    files = Table.delete file_key (svc imei) sys.files;
    effects =
        sys.effects
        ++ as_root host (systemctl "stop" (unit_of imei) ∷ systemctl "disable" (unit_of imei) ∷ []);
  });
}

-- A request that reaches a proxy.
pub data ProxyOp : Type 0 where
  apply purge start regenerate : (imei : String) → ProxyOp
  stop : (imei : String) (locked : Bool) → ProxyOp
  password : (imei value : String) → ProxyOp
  interval : (imei : String) (seconds : ℕ) → ProxyOp
  whitelist : (imei : String) (ips : List String) → ProxyOp

unfoldable pub perform : Host → Secrets → ℕ → ProxyOp → System → Outcome
perform host fresh now (apply imei) = apply_port host fresh now imei
perform host fresh now (purge imei) = purge_port host fresh now imei
perform host fresh now (start imei) = start_proxy host fresh now imei
perform host fresh now (regenerate imei) = regenerate_credentials host fresh now imei
perform host fresh now (stop imei locked) = stop_proxy host fresh now imei locked
perform host fresh now (password imei value) = set_password host fresh now imei value
perform host fresh now (interval imei seconds) = set_rotation_interval now imei seconds
perform host fresh now (whitelist imei ips) = set_whitelist host fresh now imei ips

-- The requests one after the other, each with its own secrets and its own time.
unfoldable pub perform_all : Host → List (Secrets × ℕ × ProxyOp) → System → System
perform_all host [] sys = sys
perform_all host ((fresh, now, op) ∷ ops) sys =
    perform_all host ops (perform host fresh now op sys).sys
