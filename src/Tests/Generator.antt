-- ===== src/Tests/Generator.antt =====
-- modemproxy/proxy/generator.py on the small installation.
use modemproxy.Prelude.{
  sorted, ◌+◌, ◌≤◌, ◌≡◌, refl, true, ◌↔◌, [], ◌∷◌, some, arith, eq_iff, has_text, has_nat,
}
use modemproxy.Result.{after}
use modemproxy.Config.{defaults}
use modemproxy.Table
use modemproxy.Table.{Distinct}
use modemproxy.Db.Rows.{Store}
use modemproxy.Db.Modems.{get_modem, modem_key}
use modemproxy.Db.Ports.{get_port, set_port}
use modemproxy.Db.Listing.{list_modems}
use modemproxy.Generator.Ports.{allocate_port, pick_port, modem_index, default_login}
use modemproxy.Generator.Ports.Search.{next_free}
use modemproxy.Generator.Ports.Distinct.{NoClash, HasModems, pick_port_lem}
use modemproxy.Generator.Pool.{pool_members}
use modemproxy.Generator.Pool.Members.{
  total_weight, member_imeis, total_weight-pool_members, has_text-pool_members, Serves,
}
use modemproxy.Generator.Users.{
  Fresh, all_users, set_extra_user, remove_extra_user, get_extra_user, entry, all_users_lem,
  get_extra_user-set_extra_user,
}
use modemproxy.Tests.Fixture.{site, fresh, dongle_port}

pub site_owned : HasModems site
unfolding get_port get_modem Table.find
site_owned = record { owner = λ j h. ground arith }

pub site_http : NoClash (λ p. p.http_port) site
unfolding get_port Table.find
site_http = record {
  apart = λ i j a ei ej pos. ground (
    arith,
    eq_iff "867962040000001" i,
    eq_iff "867962040000001" j,
    eq_iff "net-eth1" i,
    eq_iff "net-eth1" j,
  );
}

pub site_socks : NoClash (λ p. p.socks_port) site
unfolding get_port Table.find
site_socks = record {
  apart = λ i j a ei ej pos. ground (
    arith,
    eq_iff "867962040000001" i,
    eq_iff "867962040000001" j,
    eq_iff "net-eth1" i,
    eq_iff "net-eth1" j,
  );
}

abbrev grown : Store
grown = after site (allocate_port defaults "867962040000002" default_login fresh 200 site)

-- The index 2 gives port 8002, which the router has; the next one is free.
spare_port : pick_port (λ p. p.http_port) 8000 "867962040000002" site ≡ 8003
unfolding pick_port get_port Table.find modem_index list_modems next_free has_text has_nat sorted
spare_port = refl

pick_port_example :
    8000 + modem_index "867962040000002" site
    ≤ pick_port (λ p. p.http_port) 8000 "867962040000002" site
unfolding get_port Table.find
pick_port_example =
    ((pick_port_lem (λ p. p.http_port) 8000 "867962040000002" site site_owned).1 refl).0

pool_now : member_imeis (pool_members 1000 site) ≡ "net-eth1" ∷ "867962040000001" ∷ []
unfolding pool_members list_modems get_port Table.find
pool_now = refl

pool_total : total_weight (pool_members 1000 site) ≡ 1000
unfolding pool_members list_modems get_port Table.find
pool_total = total_weight-pool_members 1000 site (λ e. cc e)

pub Distinct-modems : Distinct modem_key site.modems
unfolding Table.find
Distinct-modems = (refl, (refl, (refl, tt)))

pool_member_example :
    (has_text "867962040000002" (member_imeis (pool_members 1000 site)) ≡ true)
    ↔ Serves 1000 "867962040000002" site
pool_member_example = has_text-pool_members 1000 site "867962040000002" Distinct-modems

all_users_example : Fresh [] (all_users dongle_port)
all_users_example = (all_users_lem dongle_port "shop").0

abbrev sold : Store
sold = after site (set_extra_user "net-eth1" "proxybet" "shop" "pw" 200 site)

set_extra_user_example :
    get_extra_user "net-eth1" "proxybet" sold ≡ some (entry "proxybet" "shop" "pw")
unfolding set_extra_user set_port get_port Table.find
set_extra_user_example =
    get_extra_user-set_extra_user "net-eth1" "proxybet" "proxybet" "shop" "pw" 200 site sold refl

abbrev unsold : Store
unsold = after site (remove_extra_user "867962040000001" "proxybet" 200 site)
