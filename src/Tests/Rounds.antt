-- ===== src/Tests/Rounds.antt =====
-- modemproxy/services/subscriptions.py and autoreboot.py on the small installation.
use modemproxy.Prelude.{ℕ, ◌+◌, ◌≤◌, ◌≡◌, refl, true, [], ◌∷◌, some, arith, All}
use modemproxy.Result.{ok}
use modemproxy.Config.{defaults}
use modemproxy.Table
use modemproxy.Db.Ports.{get_port, set_port, set_columns}
use modemproxy.Db.Listing.{list_modems}
use modemproxy.Db.Alerts.{last_sent, alert_should_send}
use modemproxy.Generator.Pool.{pool_members}
use modemproxy.Generator.Proxy.{stop_proxy}
use modemproxy.Generator.Sync.{
  System, publish_sync, sync_pool, put_pool, pool_text, render_pool_text, pool_password,
}
use modemproxy.Services.Rounds.{each, no_action, act}
use modemproxy.Services.Notify.{announce, notify, send_raw}
use modemproxy.Services.Subscriptions.{ExpiryAction, check_subscriptions, expire, round_days}
use modemproxy.Services.Subscriptions.Ended.{Ended, check_subscriptions-Ended}
use modemproxy.Services.Autoreboot.{Rebooter}
use modemproxy.Services.Autoreboot.Paced.{Fault, record_all, reboot_count, reboot_count-record_all}
use modemproxy.Tests.Fixture.{site, fresh, router, dongle_port, router_port}
use modemproxy.Tests.Manager.{silent}
use modemproxy.Tests.Proxy.{host, system}

-- The router's proxy has ended, the dongle's ends within three days.
abbrev sold : System
sold = record system {
  db = record site {
    ports =
        record dongle_port { expires_at = some 200000 }
        ∷ record router_port { expires_at = some 900 }
        ∷ [];
  };
}

check_test :
    (check_subscriptions host (λ i. fresh) 1000 sold).actions
    ≡ ok (ExpiryAction.disabled_expired "net-eth1" ∷ ExpiryAction.expiring "867962040000001" 2 ∷ [])
unfolding check_subscriptions each list_modems get_port Table.find no_action stop_proxy set_port act
    publish_sync sync_pool put_pool pool_text render_pool_text pool_members Table.update set_columns
    expire round_days announce notify send_raw alert_should_send last_sent Table.insert
    pool_password
check_test = refl

check_subscriptions-Ended_example :
    All
      (λ r. Ended 1000 r (check_subscriptions host (λ i. fresh) 1000 sold).sys)
      (list_modems sold.db)
unfolding check_subscriptions each list_modems get_port Table.find no_action stop_proxy set_port act
    publish_sync sync_pool put_pool pool_text render_pool_text pool_members Table.update set_columns
    expire round_days announce notify send_raw alert_should_send last_sent Table.insert
    pool_password
check_subscriptions-Ended_example =
    check_subscriptions-Ended host (λ i. fresh) 1000 sold
      (ExpiryAction.disabled_expired "net-eth1" ∷ ExpiryAction.expiring "867962040000001" 2 ∷ [])
      refl

-- A modem that is about to be rebooted.
abbrev faulty : System
faulty = record system {
  config = record defaults {
    autoreboot_enable = true;
    autoreboot_max_score = 100;
    autoreboot_min_uptime = 300;
  };
  db = record site {
    modems =
        record router {
          mgmt_host = some "192.168.1.1";
          kind = some "netdev";
          reboot_score = 90;
          score_window_start = some 950;
        }
        ∷ [];
  };
}

abbrev works : Rebooter
works = record { zte = λ host. true; shell = silent }

abbrev fault : ℕ → Fault
fault t = record { works = works; points = 20; at = t }

-- The first of three faults fills the score.
reboot_example :
    reboot_count "net-eth1"
      (record_all "net-eth1" (fault 1000 ∷ fault 1100 ∷ fault 1200 ∷ []) faulty).effects
    ≤ 0 + 1
unfolding reboot_count
reboot_example =
    reboot_count-record_all "net-eth1" 1000 (fault 1000 ∷ fault 1100 ∷ fault 1200 ∷ []) faulty
      (omega arith)
      ((omega arith, omega arith), ((omega arith, omega arith), ((omega arith, omega arith), tt)))
