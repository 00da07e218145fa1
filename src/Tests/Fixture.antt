-- ===== src/Tests/Fixture.antt =====
-- A small installation: three modems, two of them with proxies.
use modemproxy.Prelude.{[], ◌∷◌, some}
use modemproxy.Db.Rows.{Modem, Port, Store, init_db, blank_modem, blank_port, ExtraItem}
use modemproxy.Db.Rows.{ExtraJson}
use modemproxy.Generator.Ports.{Secrets}

abbrev pub dongle : Modem
dongle = record (blank_modem "867962040000001" 100) {
  name = some "dongle1";
  status = "online";
  bind_ip = some "192.168.0.100";
}

abbrev pub router : Modem
router = record (blank_modem "net-eth1" 100) { name = some "cpe1"; status = "online" }

abbrev pub spare : Modem
spare = blank_modem "867962040000002" 100

abbrev pub dongle_port : Port
dongle_port = record (blank_port "867962040000001" 100) {
  http_port = some 8001;
  socks_port = some 9001;
  username = some "u1";
  password = some "secret";
  rotation_interval = 300;
  extra_users =
      some (ExtraJson.items (ExtraItem.login (some "proxybet") (some "shop") (some "pw") ∷ []));
}

abbrev pub router_port : Port
router_port = record (blank_port "net-eth1" 100) { http_port = some 8002; socks_port = some 9002 }

abbrev pub site : Store
site = record init_db {
  modems = dongle ∷ router ∷ spare ∷ [];
  ports = dongle_port ∷ router_port ∷ [];
  customers = record { username = "anna"; password_hash = "x"; label = ""; created_at = 100 } ∷ [];
  customer_modems = record { username = "anna"; imei = "net-eth1" } ∷ [];
}

abbrev pub fresh : Secrets
fresh = record { password = "0123456789abcdef"; token = "tok"; pool_password = "poolpw" }
