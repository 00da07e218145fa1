-- ===== src/Tests/Panel.antt =====
-- modemproxy/services/geoip.py and customers.py on the small installation.
use modemproxy.Prelude.{◌≡◌, ◌↔◌, refl, ap, true, some, none, has_text}
use modemproxy.Config.{defaults}
use modemproxy.Table
use modemproxy.Bandwidth.Report.{Windows}
use modemproxy.Services.Geoip.{lookup, lookup-lookup}
use modemproxy.Services.Customers.{proxies_for, panel_imeis, OnPanel, has_text-proxies_for}
use modemproxy.Tests.Fixture.{site}
use modemproxy.Tests.Generator.{Distinct-modems}

lookup_example :
    (lookup
      (λ ip. none)
      "93.184.216.34"
      500
      (lookup (λ ip. some "IT · Milano") "93.184.216.34" 400 site).1).0
    ≡ some "IT · Milano"
unfolding lookup Table.find
lookup_example =
    ap (λ p. p.0)
      (lookup-lookup (λ ip. some "IT · Milano") (λ ip. none) "93.184.216.34" "IT · Milano" 400 500
        site refl refl)

abbrev dates : Windows
dates = record { midnight = 100; month_start = 50; prev_month_start = 10 }

panel_example :
    (has_text "net-eth1" (panel_imeis (proxies_for defaults dates 300 "anna" site)) ≡ true)
    ↔ OnPanel "anna" "net-eth1" site
panel_example = has_text-proxies_for defaults dates 300 "anna" "net-eth1" site Distinct-modems
