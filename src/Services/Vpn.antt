-- ===== src/Services/Vpn.antt =====
-- modemproxy/services/openvpn.py: enabling, disabling and exporting a modem's OpenVPN profile.
use modemproxy.Prelude.{
  ℕ, zero, suc, ◌+◌, String, Bool, ◌&&◌, List, [], ◌∷◌, ◌++◌, Option, none, some, if◌then◌else◌,
  nonempty, truthy_text, or_text,
}
use modemproxy.Text.{◌<>◌, decimal, last_chars}
use modemproxy.Text.Cut.{strip, dict_set}
use modemproxy.Result.{Result, ok, err, vpn_error, ◌>>=◌}
use modemproxy.Publish.{Effect, systemctl}
use modemproxy.Db.Rows.{Modem, Store}
use modemproxy.Db.Modems.{get_modem}
use modemproxy.Db.Ports.{PortField, set_port}
use modemproxy.Generator.Ports.{modem_index}

-- What openssl does: its standard error when it fails, and what the files hold that it was given.
pub record Openssl : Type 0 where
  pub run : List String → Option String
  pub read : String → String
  pub ca_key_exists : Bool
  pub ca_crt_exists : Bool

-- The database, the files that were written under VPN_DIR, and the units that were driven.
pub record Vpn : Type 0 where
  pub db : Store
  pub files : List (String × String)
  pub units : List Effect

-- `_run` of an openssl command
run_openssl : Openssl → List String → Result {0} Unit
run_openssl t args = elim (t.run ("openssl" ∷ args)) [
  | none ↦ ok tt
  | some e ↦ err (vpn_error (if nonempty (strip e) then strip e else "openssl failed"))
]

abbrev curve : String
curve = "prime256v1"

abbrev new_key : String → List String
new_key out = "ecparam" ∷ "-name" ∷ curve ∷ "-genkey" ∷ "-noout" ∷ "-out" ∷ out ∷ []

unfoldable pub ensure_ca : Openssl → String → Result {0} Unit
unfolding run_openssl
ensure_ca t dir =
    if t.ca_crt_exists && t.ca_key_exists
    then ok tt
    else (run_openssl t (new_key (dir <> "/ca/ca.key")) >>= (λ _. run_openssl t (
        "req"
        ∷ "-x509"
        ∷ "-new"
        ∷ "-key"
        ∷ (dir <> "/ca/ca.key")
        ∷ "-days"
        ∷ "3650"
        ∷ "-out"
        ∷ (dir <> "/ca/ca.crt")
        ∷ "-subj"
        ∷ "/CN=modemproxy-CA"
        ∷ [])))

-- The key and the certificate.
unfoldable pub issue : Openssl → String → String → Result (String × String)
unfolding ensure_ca run_openssl
issue t dir name =
    let key = dir <> "/issued/" <> name <> ".key" in
    let csr = dir <> "/issued/" <> name <> ".csr" in
    let crt = dir <> "/issued/" <> name <> ".crt" in
    ensure_ca t dir
    >>= (λ _. run_openssl t (new_key key))
    >>= (λ _.
        run_openssl t
          ("req" ∷ "-new" ∷ "-key" ∷ key ∷ "-out" ∷ csr ∷ "-subj" ∷ ("/CN=" <> name) ∷ []))
    >>= (λ _. run_openssl t (
        "x509"
        ∷ "-req"
        ∷ "-in"
        ∷ csr
        ∷ "-CA"
        ∷ (dir <> "/ca/ca.crt")
        ∷ "-CAkey"
        ∷ (dir <> "/ca/ca.key")
        ∷ "-CAcreateserial"
        ∷ "-days"
        ∷ "1825"
        ∷ "-out"
        ∷ crt
        ∷ []))
    >>= (λ _. ok (t.read key, t.read crt))

-- The lines of a text, each with its line feed.
lines : List String → String
lines [] = ""
lines (l ∷ ls) = l <> "\n" <> lines ls

-- `s[:n]`
first_chars : ℕ → String → String
first_chars zero s = ""
first_chars (suc n) String.[] = ""
first_chars (suc n) (String.◌∷◌ c s) = String.◌∷◌ c (first_chars n s)

abbrev base_port : ℕ
base_port = 1190

abbrev subnet_of : ℕ → String
subnet_of idx = "10.8." <> decimal idx <> ".0"

unfoldable pub server_text : String → String → String → ℕ → String → String
unfolding lines first_chars
server_text dir imei name idx iface = lines (
    ("# modemproxy OpenVPN server for " <> name <> " (" <> imei <> ")")
    ∷ ("port " <> decimal (base_port + idx))
    ∷ "proto udp"
    ∷ ("dev tun-" <> first_chars 10 name)
    ∷ ("ca " <> dir <> "/ca/ca.crt")
    ∷ ("cert " <> dir <> "/server-" <> name <> ".crt")
    ∷ ("key " <> dir <> "/server-" <> name <> ".key")
    ∷ "dh none"
    ∷ ("ecdh-curve " <> curve)
    ∷ "topology subnet"
    ∷ ("server " <> subnet_of idx <> " 255.255.255.0")
    ∷ "push \"redirect-gateway def1 bypass-dhcp\""
    ∷ "keepalive 10 60"
    ∷ "persist-key"
    ∷ "persist-tun"
    ∷ "# route this subnet out the modem interface"
    ∷ ("up \"" <> dir <> "/route-up.sh " <> iface <> " " <> subnet_of idx <> "/24\"")
    ∷ "script-security 2"
    ∷ "verb 3"
    ∷ [])

-- What _server_conf writes; its route-up.sh is the same every time, and its text is left out.
unfoldable pub server_conf :
    Openssl
    → String
    → String
    → String
    → ℕ
    → String
    → List (String × String)
    → Result (List (String × String))
unfolding issue server_text
server_conf t dir imei name idx iface files =
    issue t dir ("server-" <> name) >>= (λ (p : String × String). ok (
      dict_set (dir <> "/server-" <> name <> ".conf") (server_text dir imei name idx iface) (
        dict_set (dir <> "/server-" <> name <> ".crt") p.1
          (dict_set (dir <> "/server-" <> name <> ".key") p.0 files))))

pub record Enabled : Type 0 where
  pub imei : String
  pub port : ℕ
  pub subnet : String

abbrev vpn_unit : String → String
vpn_unit name = "modemproxy-vpn@" <> name <> ".service"

abbrev pub vpn_name : Modem → String
vpn_name m = or_text m.name (last_chars 6 m.imei)

enable_modem : Openssl → String → ℕ → Modem → String → Vpn → Result (Enabled × Vpn)
unfolding server_conf
enable_modem t dir now m iface v =
    let idx = modem_index m.imei v.db in
    server_conf t dir m.imei (vpn_name m) idx iface v.files >>= (λ files.
      set_port m.imei (PortField.vpn_enabled 1 ∷ []) now v.db >>= (λ db. ok (
        record { imei = m.imei; port = base_port + idx; subnet = subnet_of idx <> "/24" },
        record {
          db = db;
          files = files;
          units =
              v.units
              ++ systemctl "enable" (vpn_unit (vpn_name m))
                ∷ systemctl "restart" (vpn_unit (vpn_name m))
                ∷ [];
        },
      )))

-- An exception of openssl comes before anything is changed; set_port does not refuse a modem's row.
unfoldable pub enable_vpn : Openssl → String → ℕ → String → Vpn → Result (Enabled × Vpn)
unfolding enable_modem
enable_vpn t dir now imei v = elim (get_modem imei v.db) [
  | none ↦ err (vpn_error ("unknown modem " <> imei))
  | some m ↦
      if truthy_text m.iface
      then enable_modem t dir now m (or_text m.iface "") v
      else err (vpn_error ("no interface for " <> imei <> " (run discover)"))
]

abbrev name_or_last : String → Option Modem → String
name_or_last imei none = last_chars 6 imei
name_or_last imei (some m) = or_text m.name (last_chars 6 imei)

unfoldable pub disable_vpn : ℕ → String → Vpn → Result Vpn
disable_vpn now imei v =
    let name = name_or_last imei (get_modem imei v.db) in
    set_port imei (PortField.vpn_enabled 0 ∷ []) now v.db >>= (λ db. ok (record v {
      db = db;
      units =
          v.units ++ systemctl "stop" (vpn_unit name) ∷ systemctl "disable" (vpn_unit name) ∷ [];
    }))

unfoldable pub client_text : String → String → ℕ → String → String × String → String
unfolding lines
client_text name remote port ca issued = lines (
    ("# modemproxy client config for " <> name)
    ∷ "client"
    ∷ "dev tun"
    ∷ "proto udp"
    ∷ ("remote " <> remote <> " " <> decimal port)
    ∷ "resolv-retry infinite"
    ∷ "nobind"
    ∷ "persist-key"
    ∷ "persist-tun"
    ∷ "remote-cert-tls server"
    ∷ ("ecdh-curve " <> curve)
    ∷ "verb 3"
    ∷ "<ca>"
    ∷ strip ca
    ∷ "</ca>"
    ∷ "<cert>"
    ∷ strip issued.1
    ∷ "</cert>"
    ∷ "<key>"
    ∷ strip issued.0
    ∷ "</key>"
    ∷ [])

-- `public_host` is the configuration's vpn_public_host.
unfoldable pub export_client : Openssl → (dir public_host imei : String) → Store → Result String
unfolding issue client_text
export_client t dir public_host imei s = elim (get_modem imei s) [
  | none ↦ err (vpn_error ("unknown modem " <> imei))
  | some m ↦
      if t.ca_crt_exists
      then (issue t dir ("client-" <> vpn_name m) >>= (λ issued. ok (
          client_text (vpn_name m)
            (if nonempty public_host then public_host else "SERVER_PUBLIC_IP")
            (base_port + modem_index imei s) (t.read (dir <> "/ca/ca.crt")) issued)))
      else err (vpn_error "VPN not enabled for this modem yet (enable it first)")
]
