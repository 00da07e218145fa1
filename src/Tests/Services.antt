-- ===== src/Tests/Services.antt =====
-- modemproxy/services on the small installation, with some traffic.
use modemproxy.Prelude.{ℕ, ◌+◌, ◌*◌, ◌≡◌, refl, [], ◌∷◌, some, arith, List, All}
use modemproxy.Result.{ok}
use modemproxy.Config.{Config, defaults}
use modemproxy.Db.Rows.{Store, Sample}
use modemproxy.Db.Listing.{list_modems}
use modemproxy.Bandwidth.Deltas.{delta_in_range, ◌⊕◌, delta_in_range_split}
use modemproxy.Bandwidth.Series.{by_time, frame, series, total, rows_since, total-series}
use modemproxy.Bandwidth.Report.{Windows, report, report_windows, Within}
use modemproxy.Publish.{live, render_frpc}
use modemproxy.Publish.Tunnels.{Covered, render_frpc-Covered}
use modemproxy.Services.Quota.{QuotaAction, check, port_usage}
use modemproxy.Services.Rounds.{each, no_action, act}
use modemproxy.Table
use modemproxy.Db.Ports.{get_port, set_port, set_columns}
use modemproxy.Generator.Proxy.{stop_proxy}
use modemproxy.Bandwidth.Report.{by_modem, agg}
use modemproxy.Generator.Sync.{
  System, publish_sync, sync_pool, put_pool, pool_text, render_pool_text,
}
use modemproxy.Generator.Pool.{pool_members}
use modemproxy.Tests.Fixture.{site, fresh, dongle_port, router_port}
use modemproxy.Tests.Proxy.{host, system}

abbrev sample : ℕ → ℕ → Sample
sample t n = record { imei = "net-eth1"; ts = t; rx_bytes = n; tx_bytes = n }

abbrev samples : List Sample
samples = sample 100 1000 ∷ sample 160 1500 ∷ sample 220 1700 ∷ []

abbrev busy : Store
busy = record site { bandwidth = samples }

abbrev windows : Windows
windows = record { midnight = 100; month_start = 50; prev_month_start = 10 }

split_example :
    delta_in_range samples 50 1000 ≡ delta_in_range samples 50 200 ⊕ delta_in_range samples 200 1000
split_example = delta_in_range_split samples 50 200 1000 (omega arith) (omega arith)

-- A counter that starts again from 0 adds nothing for that step.
reset_test : (delta_in_range (sample 100 1000 ∷ sample 160 30 ∷ []) 50 1000).rx ≡ 0
unfolding delta_in_range
reset_test = refl

series_example :
    total (series "net-eth1" 24 12 90000 busy)
    ≡ delta_in_range
        (rows_since "net-eth1" (frame 90000 24 12).start busy)
        (frame 90000 24 12).start
        ((frame 90000 24 12).start + 12 * (frame 90000 24 12).width)
series_example = total-series "net-eth1" 24 12 90000 busy

windows_example :
    Within
      (report (some "net-eth1") windows 300 busy).day
      (report (some "net-eth1") windows 300 busy).month
windows_example =
    (report_windows (some "net-eth1") windows 300 busy
      (record { prev_month = omega arith; month = omega arith; day = omega arith })).0

abbrev relay : Config
relay = record defaults { access_mode = "relay"; relay_host = "relay.example" }

tunnels_example : All (Covered relay (render_frpc relay site).proxies) (live site)
tunnels_example = render_frpc-Covered relay site refl

abbrev metered : System
metered = record system {
  db = record busy { ports = dongle_port ∷ record router_port { quota_bytes = 500 } ∷ [] };
}

lock_test :
    (check host (λ i. fresh) windows 300 metered).actions
    ≡ ok (QuotaAction.locked "net-eth1" 1400 500 ∷ [])
unfolding check each list_modems get_port Table.find no_action stop_proxy set_port port_usage report
    agg by_modem delta_in_range by_time act publish_sync sync_pool put_pool pool_text
    render_pool_text pool_members Table.update set_columns
lock_test = refl
