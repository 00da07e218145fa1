-- ===== src/Generator/Proxy/Sound.antt =====
-- modemproxy/proxy/generator.py: what stays true of the port table over all proxy operations.
use modemproxy.Prelude.{ℕ, String, ◌≡◌, refl, ◌∙◌, List, [], ◌∷◌, Option, none, some, arith}
use modemproxy.Result.{Result, ok, err}
use modemproxy.Db.Rows.{Store}
use modemproxy.Db.Ports.{PortField, set_port, set_columns}
use modemproxy.Generator.Ports.{allocate_port, default_login, Secrets}
use modemproxy.Generator.Proxy.{
  Outcome, ProxyOp, apply, purge, start, regenerate, stop, password, interval, whitelist, perform,
  perform_all, apply_login, stopped, shown, proceed, finish, bring_up, render_modem, with_columns,
  with_port, apply_port, purge_port, start_proxy, regenerate_credentials, stop_proxy, set_password,
  set_rotation_interval, set_whitelist,
}
use modemproxy.Generator.Sync.{Host, System, publish_sync, sync_pool, put_pool}
use modemproxy.Generator.Proxy.Apart.{
  PortsApart, Quiet, set_port-PortsApart, delete_port-PortsApart, allocate_port-PortsApart,
}

-- The configuration, the files and the effects change; the database does not.
put_pool_db :
    (host : Host) (text : Option String) (sys : System) → (put_pool host text sys).db ≡ sys.db
unfolding put_pool
put_pool_db host none sys = refl
put_pool_db host (some t) sys = refl

pub publish_sync_db :
    (host : Host) (fresh : String) (now : ℕ) (sys : System)
    → (publish_sync host fresh now sys).db ≡ sys.db
unfolding publish_sync sync_pool
publish_sync_db host fresh now sys = put_pool_db host _ _

-- Two states with the same database.
same_db-PortsApart : (s t : Store) → t ≡ s → PortsApart s → PortsApart t
same_db-PortsApart s t e inv = rw e inv

pub bring_up_db :
    (host : Host) (fresh : Secrets) (now : ℕ) (imei : String) (sys : System)
    → (bring_up host fresh now imei sys).db ≡ sys.db
unfolding bring_up
bring_up_db host fresh now imei sys = publish_sync_db host fresh.pool_password now _

pub render_modem_db :
    (host : Host) (imei : String) (sys done : System)
    → render_modem host imei sys ≡ ok done
    → done.db ≡ sys.db
unfolding render_modem
render_modem_db host imei sys done h = ground arith

-- A call that leaves the ports apart, whether or not it raises.
record Kept (o : Outcome) : Type 0 where
  apart : PortsApart o.sys.db

proceed-Kept {ℓ} :
    {A : Type ℓ} (r : Result A) (sys : System) (rest : A → Outcome)
    → PortsApart sys.db
    → ((a : A) → r ≡ ok a → Kept (rest a))
    → Kept (proceed r sys rest)
unfolding proceed
proceed-Kept (ok a) sys rest inv later = later a refl
proceed-Kept (err e) sys rest inv later = record { apart = inv }

finish-Kept :
    (host : Host) (fresh : Secrets) (now : ℕ) (imei : String) (sys : System)
    → PortsApart sys.db
    → Kept (finish host fresh now imei sys)
unfolding finish
finish-Kept host fresh now imei sys inv =
    proceed-Kept (render_modem host imei sys) sys _ inv (λ done h. record {
      apart =
          same_db-PortsApart sys.db _
            (bring_up_db host fresh now imei done ∙ render_modem_db host imei sys done h) inv;
    })

apply_port-Kept :
    (host : Host) (fresh : Secrets) (now : ℕ) (imei : String) (sys : System)
    → PortsApart sys.db
    → Kept (apply_port host fresh now imei sys)
unfolding apply_port apply_login
apply_port-Kept host fresh now imei sys inv =
    proceed-Kept (allocate_port sys.config imei default_login fresh now sys.db) sys _ inv (λ s h.
      finish-Kept host fresh now imei (record sys { db = s })
        (allocate_port-PortsApart sys imei default_login fresh now s h inv))

with_columns-Kept :
    (imei : String) (fields : List PortField) (now : ℕ) (sys : System) (rest : System → Outcome)
    → PortsApart sys.db
    → Quiet fields
    → ((done : System) → PortsApart done.db → Kept (rest done))
    → Kept (with_columns imei fields now sys rest)
unfolding with_columns
with_columns-Kept imei fields now sys rest inv quiet later =
    proceed-Kept (set_port imei fields now sys.db) sys _ inv (λ s h.
      later (record sys { db = s }) (set_port-PortsApart imei fields now sys.db s quiet h inv))

with_port-Kept :
    (imei : String) (sys : System) (rest : Outcome)
    → PortsApart sys.db
    → Kept rest
    → Kept (with_port imei sys rest)
unfolding with_port
with_port-Kept imei sys rest inv later = proceed-Kept _ sys _ inv (λ p h. later)

publish_sync-PortsApart :
    (host : Host) (fresh : String) (now : ℕ) (sys : System)
    → PortsApart sys.db
    → PortsApart (publish_sync host fresh now sys).db
publish_sync-PortsApart host fresh now sys inv =
    same_db-PortsApart sys.db _ (publish_sync_db host fresh now sys) inv

stopped-Kept :
    (host : Host) (fresh : Secrets) (now : ℕ) (imei : String) (sys : System)
    → PortsApart sys.db
    → Kept (stopped host fresh now imei sys)
unfolding stopped
stopped-Kept host fresh now imei sys inv = record {
  apart = same_db-PortsApart sys.db _ (publish_sync_db host fresh.pool_password now _) inv;
}

shown-Kept : (imei : String) (sys : System) → PortsApart sys.db → Kept (shown imei sys)
unfolding shown
shown-Kept imei sys inv = record { apart = inv }

perform-Kept :
    (host : Host) (fresh : Secrets) (now : ℕ) (op : ProxyOp) (sys : System)
    → PortsApart sys.db
    → Kept (perform host fresh now op sys)
unfolding perform purge_port start_proxy regenerate_credentials stop_proxy set_password
    set_rotation_interval set_whitelist set_columns
perform-Kept host fresh now (apply imei) sys inv = apply_port-Kept host fresh now imei sys inv
perform-Kept host fresh now (purge imei) sys inv = record {
  apart =
      publish_sync-PortsApart host fresh.pool_password now _
        (delete_port-PortsApart imei sys.db inv);
}
perform-Kept host fresh now (start imei) sys inv =
    with_columns-Kept imei _ now sys _ inv
      (record { http_kept = λ p. refl; socks_kept = λ p. refl })
      (apply_port-Kept host fresh now imei)
perform-Kept host fresh now (regenerate imei) sys inv =
    with_columns-Kept imei _ now sys _ inv
      (record { http_kept = λ p. refl; socks_kept = λ p. refl })
      (apply_port-Kept host fresh now imei)
perform-Kept host fresh now (stop imei locked) sys inv =
    with_columns-Kept imei _ now sys _ inv
      (record { http_kept = λ p. refl; socks_kept = λ p. refl }) (stopped-Kept host fresh now imei)
perform-Kept host fresh now (password imei value) sys inv = with_port-Kept imei sys _ inv (
    with_columns-Kept imei _ now sys _ inv
      (record { http_kept = λ p. refl; socks_kept = λ p. refl })
      (apply_port-Kept host fresh now imei))
perform-Kept host fresh now (interval imei seconds) sys inv = with_port-Kept imei sys _ inv (
    with_columns-Kept imei _ now sys _ inv
      (record { http_kept = λ p. refl; socks_kept = λ p. refl }) (shown-Kept imei))
perform-Kept host fresh now (whitelist imei ips) sys inv = with_port-Kept imei sys _ inv (
    with_columns-Kept imei _ now sys _ inv
      (record { http_kept = λ p. refl; socks_kept = λ p. refl })
      (apply_port-Kept host fresh now imei))

-- Whatever requests are made, and whether or not they raise: if every port row has its modem and no
-- two modems share an HTTP or a SOCKS port, that is so afterwards.
pub perform_all-PortsApart :
    (host : Host) (ops : List (Secrets × ℕ × ProxyOp)) (sys : System)
    → PortsApart sys.db
    → PortsApart (perform_all host ops sys).db
unfolding perform_all
perform_all-PortsApart host [] sys inv = inv
perform_all-PortsApart host ((fresh, now, op) ∷ ops) sys inv =
    perform_all-PortsApart host ops (perform host fresh now op sys).sys
      (perform-Kept host fresh now op sys inv).apart
