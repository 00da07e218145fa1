-- ===== src/Tests/Proxy.antt =====
-- modemproxy/proxy/generator.py on the small installation: whole proxy operations.
use modemproxy.Prelude.{
  sorted, ◌≡◌, ◌≢◌, str_apart, refl, true, false, [], ◌∷◌, ◌++◌, some, has_text,
}
use modemproxy.Text.{alnum_only}
use modemproxy.Config.{defaults}
use modemproxy.Table
use modemproxy.Db.Rows.{Port}
use modemproxy.Db.Modems.{get_modem}
use modemproxy.Db.Ports.{set_port, set_columns}
use modemproxy.Db.Listing.{list_modems}
use modemproxy.Text.{decimal}
use modemproxy.Generator.Ports.{svc, allocate_port, pick_port, modem_index}
use modemproxy.Generator.Pool.{pool_members}
use modemproxy.Generator.Pool.Members.{member_imeis}
use modemproxy.Generator.Sync.{Host, System, sync_pool, as_root, pool_svc, pool_file, file_key}
use modemproxy.Generator.Sync.Stable.{idle, sync_pool-sync_pool}
use modemproxy.Generator.Proxy.{stop, start, password, perform_all, apply_port, stop_proxy}
use modemproxy.Generator.Proxy.Apart.{PortsApart}
use modemproxy.Generator.Proxy.Sound.{perform_all-PortsApart}
use modemproxy.Generator.Proxy.Effects.{rendered, apply_port_file, pool_members-stop_proxy}
use modemproxy.Tests.Fixture.{site, fresh, router, router_port}
use modemproxy.Tests.Generator.{site_owned, site_http, site_socks, Distinct-modems}

abbrev pub host : Host
host = record {
  root = true;
  has_ufw = true;
  config_writable = true;
  gateway_of = λ ip. "192.168.0.1";
  render_modem_cfg = λ v. v.name;
  render_pool_cfg = λ v. v.password;
}

abbrev pub system : System
system = record { db = site; config = defaults; files = []; effects = [] }

site_apart : PortsApart site
site_apart = record { owned = site_owned; http = site_http; socks = site_socks }

perform_all-PortsApart_example :
    PortsApart
      (perform_all host
        ((fresh, 200, stop "net-eth1" false)
          ∷ (fresh, 300, start "net-eth1")
          ∷ (fresh, 400, password "867962040000002" "pw")
          ∷ [])
        system).db
perform_all-PortsApart_example = perform_all-PortsApart host _ system site_apart

stop_proxy_example :
    has_text "net-eth1"
      (member_imeis (pool_members 300 (stop_proxy host fresh 200 "net-eth1" false system).sys.db))
    ≡ false
unfolding stop_proxy set_port Table.find
stop_proxy_example =
    pool_members-stop_proxy host fresh 200 300 "net-eth1" false system Distinct-modems refl

sync_pool_example :
    sync_pool host "other" 200 (sync_pool host "poolpw" 200 system)
    ≡ record (sync_pool host "poolpw" 200 system) {
      effects =
          (sync_pool host "poolpw" 200 system).effects
          ++ as_root host (idle (pool_file (sync_pool host "poolpw" 200 system).files));
    }
sync_pool_example = sync_pool-sync_pool host "poolpw" "other" 200 system refl refl

-- The row of the router's proxy once it was brought up: its place among the imeis is the third.
abbrev served : Port
served = record router_port {
  username = some "u3";
  password = some "0123456789abcdef";
  rotation_token = some "tok";
}

router_file : svc "net-eth1" ≢ pool_svc
unfolding svc alnum_only
router_file = str_apart (svc "net-eth1") pool_svc refl

apply_port_file_example :
    Table.find file_key (svc "net-eth1") (apply_port host fresh 200 "net-eth1" system).sys.files
    ≡ some (rendered host "net-eth1" system router served)
unfolding apply_port get_modem set_port Table.find allocate_port Table.update set_columns pick_port
    decimal modem_index has_text list_modems sorted
apply_port_file_example =
    (apply_port_file host fresh 200 "net-eth1" system router served router_file refl refl).1
