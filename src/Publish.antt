-- ===== src/Publish.antt =====
-- modemproxy/services/publish.py: how customers reach the proxies, and what `sync` does for it.
pub mod Tunnels
use modemproxy.Prelude.{
  ℕ, ◌+◌, String, ◌≡◌, refl, Bool, true, false, ◌&&◌, List, [], ◌∷◌, ◌++◌, Option, none, some,
  arith, if◌then◌else◌, ◌==◌, keep, nonempty, nonzero, truthy, truthy_text, or_text, map,
}
use modemproxy.Text.{◌<>◌, decimal, last_chars}
use modemproxy.Config.{Config}
use modemproxy.Events.{Event}
use modemproxy.Db.Rows.{Modem, Port, Store}
use modemproxy.Db.Listing.{Listed, list_modems}

-- `m.get("enabled") and m.get("http_port")`
is_published : Listed → Bool
is_published r = elim r.port [ none ↦ false | some p ↦ nonzero p.enabled && truthy p.http_port ]

unfoldable pub live : Store → List Listed
unfolding is_published
live s = keep is_published (list_modems s)

unfoldable pub remote_port : Config → ℕ → ℕ
remote_port cfg local_port = local_port + cfg.relay_remote_offset

unfoldable pub public_host : Config → String
public_host cfg =
    if cfg.access_mode == "relay"
    then or_text (some cfg.relay_host) "<relay-host>"
    else or_text (some cfg.public_host) "<public-ip>"

-- The port that the customer dials: moved by the relay's offset in relay mode.
unfoldable pub customer_port : Config → Option ℕ → Option ℕ
unfolding remote_port
customer_port cfg none = none
customer_port cfg (some p) =
    if cfg.access_mode == "relay"
    then (if nonzero p then some (remote_port cfg p) else none)
    else some p

pub record Endpoints : Type 0 where
  pub host : String
  pub http_port : Option ℕ
  pub socks_port : Option ℕ
  pub http : Option String
  pub socks5 : Option String

auth_part : Option String → Option String → String
auth_part (some u) (some p) = if nonempty u && nonempty p then u <> ":" <> p <> "@" else ""
auth_part u p = ""

url : String → String → String → Option ℕ → Option String
url scheme auth host none = none
url scheme auth host (some p) =
    if nonzero p then some (scheme <> auth <> host <> ":" <> decimal p) else none

abbrev port_of {ℓ} : {A : Type ℓ} → (Port → Option A) → Listed → Option A
port_of f r = elim r.port [ none ↦ none | some p ↦ f p ]

unfoldable pub customer_endpoints : Config → Listed → Endpoints
unfolding customer_port auth_part url
customer_endpoints cfg r =
    let host = public_host cfg in
    let hp = customer_port cfg (port_of (λ p. p.http_port) r) in
    let sp = customer_port cfg (port_of (λ p. p.socks_port) r) in
    let auth = auth_part (port_of (λ p. p.username) r) (port_of (λ p. p.password) r) in
    record {
      host = host;
      http_port = hp;
      socks_port = sp;
      http = url "http://" auth host hp;
      socks5 = url "socks5://" auth host sp;
    }

-- One [[proxies]] block of frpc.toml.
pub record Tunnel : Type 0 where
  pub name : String
  pub local_port : ℕ
  pub remote_port : ℕ

tunnel : Config → String → String → Option ℕ → List Tunnel
tunnel cfg name kind none = []
tunnel cfg name kind (some lp) =
    if nonzero lp
    then record {
      name = "modemproxy-" <> name <> "-" <> kind;
      local_port = lp;
      remote_port = remote_port cfg lp;
    }
      ∷ []
    else []

tunnels_of : Config → Listed → List Tunnel
unfolding tunnel
tunnels_of cfg r =
    let name = or_text r.modem.name (last_chars 6 r.modem.imei) in
    tunnel cfg name "http" (port_of (λ p. p.http_port) r)
    ++ tunnel cfg name "socks" (port_of (λ p. p.socks_port) r)

tunnels : Config → List Listed → List Tunnel
tunnels cfg [] = []
tunnels cfg (r ∷ rs) = tunnels_of cfg r ++ tunnels cfg rs

-- frpc.toml: the server's address, port and token, and the tunnels.
pub record FrpcConfig : Type 0 where
  pub server_addr : String
  pub server_port : ℕ
  pub token : Option String
  pub proxies : List Tunnel

unfoldable pub render_frpc : Config → Store → FrpcConfig
unfolding tunnels tunnels_of live
render_frpc cfg s = record {
  server_addr = cfg.relay_host;
  server_port = cfg.relay_port;
  token = if nonempty cfg.relay_token then some cfg.relay_token else none;
  proxies = tunnels cfg (live s);
}

-- What a call does outside the process, in order.
pub data Effect : Type 0 where
  systemctl : (action unit : String) → Effect
  ufw_allow : ℕ → Effect
  write_frpc : FrpcConfig → Effect
  setup_routing : (iface bind_ip gateway : String) → ℕ → Effect
  ensure_ttl : String → Effect
  post : (brand : String) → Event → Effect
  reboot : (imei : String) → Effect

abbrev frpc_service : String
frpc_service = "modemproxy-frpc.service"

sync_relay : Config → Store → List Effect
sync_relay cfg s =
    if nonempty cfg.relay_host
    then write_frpc (render_frpc cfg s)
      ∷ systemctl "enable" frpc_service
      ∷ systemctl "restart" frpc_service
      ∷ []
    else []

allow : Option ℕ → List Effect
allow none = []
allow (some p) = if nonzero p then ufw_allow p ∷ [] else []

allow_all : List Listed → List Effect
allow_all [] = []
allow_all (r ∷ rs) =
    allow (port_of (λ p. p.http_port) r) ++ allow (port_of (λ p. p.socks_port) r) ++ allow_all rs

-- `have_ufw` is `which("ufw") is not None`.
sync_direct : Config → Bool → Store → List Effect
sync_direct cfg have_ufw s =
    systemctl "disable" frpc_service
    ∷ systemctl "stop" frpc_service
    ∷ (if cfg.open_firewall && have_ufw then allow_all (live s) else [])

unfoldable pub sync : Config → Bool → Store → List Effect
unfolding sync_relay sync_direct allow_all allow live
sync cfg have_ufw s =
    if cfg.access_mode == "relay" then sync_relay cfg s else sync_direct cfg have_ufw s
