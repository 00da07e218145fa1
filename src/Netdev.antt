-- ===== src/Netdev.antt =====
-- modemproxy/modems/netdev.py: discovery of net-mode dongles and LAN routers, their routing tables, and
-- rotate.
pub mod Tables
pub mod Http
pub mod Zte
pub mod Sms
pub mod Rotations
use modemproxy.Prelude.{
  ℤ, truthy_int, ℕ, zero, suc, ◌+◌, ◌≡◌, refl, String, Bool, true, false, not, ◌&&◌, ◌||◌, List, [],
  ◌∷◌, ◌++◌, Option, none, some, if◌then◌else◌, eqb, leb, ◌==◌, nonempty, nonzero, truthy,
  truthy_text, or_text, has_text,
}
use modemproxy.Text.{◌<>◌, decimal, count_chars}
use modemproxy.Text.Cut.{strip, starts_with, contains_lower, count_char}
use modemproxy.Result.{Result, ok, err, Error, netdev_error, ◌>>=◌}
use modemproxy.Publish.{Effect, setup_routing}
use modemproxy.Db.Rows.{Modem, Store}
use modemproxy.Db.Modems.{ModemField, upsert_modem}
use modemproxy.Db.Listing.{Listed, list_modems}
use modemproxy.Generator.Ports.Search.{next_free}
use modemproxy.Generator.Sync.{System}

-- An entry of `ip -j addr` with its addr_info, and the driver behind the interface.
pub record Address : Type 0 where
  pub family : String
  pub local : String

pub record Link : Type 0 where
  pub ifname : String
  pub addr_info : List Address
  pub driver : Option String

abbrev pub route_table_base : ℕ
route_table_base = 100

skipped_iface : String → Bool
skipped_iface iface =
    not (nonempty iface)
    || iface == "lo"
    || starts_with "wl" iface
    || starts_with "docker" iface
    || starts_with "veth" iface
    || starts_with "br-" iface
    || starts_with "tun" iface
    || starts_with "tap" iface

net_driver : Option String → Bool
net_driver none = false
net_driver (some d) = d == "cdc_ether" || d == "rndis_host" || d == "cdc_ncm"

-- The first IPv4 address that is not link-local.
first_ipv4 : List Address → Option String
first_ipv4 [] = none
first_ipv4 (a ∷ rest) =
    if a.family == "inet" && not (starts_with "169.254" a.local)
    then some a.local
    else first_ipv4 rest

-- A device as discover hands it to _refresh_dev.
pub record Dev : Type 0 where
  pub id : String
  pub iface : String
  pub bind_ip : String
  pub gateway : String
  pub driver : Option String

-- What is outside: the kernel's links, the ipaddress library, and what the devices answer.
pub record Field : Type 0 where
  pub links : List Link
  -- whether the network of an address is private, and its first address
  pub is_private : String → Bool
  pub first_address : String → String
  -- whether an HTTP request to a host through an interface succeeds
  pub answers_at : String → String → Bool
  pub usb_ids : String → Option String × Option String
  -- curl on the two address services, bound to an interface or an address
  pub fetch_ip : String → String → Option String
  -- _status_deco or device_status of a host: signal, operator and radio values
  pub status : Bool → String → Option String → Option ℤ × Option String × Option String

-- An interface is taken when it has an address that is not empty.
list_netdevs : Field → List Link → List Dev
unfolding skipped_iface net_driver first_ipv4
list_netdevs field [] = []
list_netdevs field (l ∷ ls) =
    let rest = list_netdevs field ls in
    if skipped_iface l.ifname || not (net_driver l.driver)
    then rest
    else elim (first_ipv4 l.addr_info) [
      | none ↦ rest
      | some ip ↦
          if nonempty ip && field.is_private ip
          then record {
            id = "net-" <> l.ifname;
            iface = l.ifname;
            bind_ip = ip;
            gateway = field.first_address ip;
            driver = l.driver;
          }
            ∷ rest
          else rest
    ]

-- _iface_ipv4
unfoldable pub iface_ipv4 : String → List Link → Option String
unfolding first_ipv4
iface_ipv4 iface [] = none
iface_ipv4 iface (l ∷ ls) =
    let rest = iface_ipv4 iface ls in
    if l.ifname == iface
    then elim (first_ipv4 l.addr_info) [ none ↦ rest | some ip ↦ some ip ]
    else rest

-- An answer that looks like an IPv4 address: three dots, and not too long.
plausible : Option String → Option String
plausible none = none
plausible (some out) =
    let ip = strip out in
    if nonempty ip && leb (count_chars ip) 45 && eqb (count_char 46 ip) 3 then some ip else none

abbrev first_of : Option String → Option String → Option String
first_of none b = b
first_of (some a) b = some a

-- `bind or iface`
abbrev binder_of : String → Option String → String
binder_of iface bind = or_text bind iface

-- The first of the two services with a plausible answer. `fetch` gives the output of a curl that went
-- through, for an address service and what the call is bound to.
unfoldable pub public_ip :
    (String → String → Option String) → String → Option String → Option String
unfolding plausible
public_ip fetch iface bind =
    first_of (plausible (fetch "https://api.ipify.org" (binder_of iface bind)))
      (plausible (fetch "http://ifconfig.me/ip" (binder_of iface bind)))

detect_among : Field → String → String → List String → String
detect_among field iface gateway [] = gateway
detect_among field iface gateway (host ∷ hosts) =
    let rest = detect_among field iface gateway hosts in
    if field.answers_at iface host then host else rest

without : String → List String → List String
without x [] = []
without x (y ∷ ys) = if y == x then without x ys else y ∷ without x ys

detect_gateway : Field → Dev → String
unfolding detect_among without
detect_gateway field d = detect_among field d.iface d.gateway (
    d.gateway
    ∷ without d.gateway ("192.168.0.1" ∷ "192.168.8.1" ∷ "192.168.1.1" ∷ "192.168.9.1" ∷ []))

vendor : String → String
vendor vid =
    if vid == "12d1"
    then "Huawei"
    else (if vid == "19d2"
        then "ZTE"
        else (if vid == "2c7c" then "Quectel" else (if vid == "1c9e" then "Alcatel" else vid)))

unfoldable pub model_label : Option String → Option String → Option String → String
unfolding vendor
model_label vid pid driver =
    if truthy_text vid
    then strip (vendor (or_text vid "") <> " " <> or_text pid "" <> " (net-mode)")
    else (if truthy_text driver
        then "net-mode dongle (" <> or_text driver "" <> ")"
        else "net-mode dongle")

label_of : Field → Dev → Option String → String
unfolding model_label
label_of field d none = model_label (field.usb_ids d.iface).0 (field.usb_ids d.iface).1 d.driver
label_of field d (some m) = m

-- Online with a public address, a signal that is not zero, or an operator.
seen_status : Option String → Option ℤ → Option String → String
seen_status ip signal operator =
    if truthy_text ip || truthy_int signal || truthy_text operator then "online" else "offline"

-- _refresh_dev: the routes of the device, and its row. `given` is the mgmt_host of a manual router.
unfoldable pub refresh_dev :
    Field → Dev → ℕ → Bool → Option String → Option String → ℕ → System → System
unfolding detect_gateway label_of seen_status
refresh_dev field d table manual given model now sys =
    let gw = if truthy_text given then or_text given "" else detect_gateway field d in
    let ip = public_ip field.fetch_ip d.iface (if manual then some d.bind_ip else none) in
    let label = label_of field d model in
    let (signal, operator, radio) =
      field.status (contains_lower "deco" label) gw (if manual then none else some d.iface) in
    record sys {
      db =
          upsert_modem d.id
            (ModemField.kind (some "netdev")
              ∷ ModemField.iface (some d.iface)
              ∷ ModemField.bind_ip (some d.bind_ip)
              ∷ ModemField.mgmt_host (some gw)
              ∷ ModemField.rt_table (some table)
              ∷ ModemField.model (some label)
              ∷ ModemField.ip ip
              ∷ ModemField.signal signal
              ∷ ModemField.radio radio
              ∷ ModemField.operator operator
              ∷ ModemField.status (some (seen_status ip signal operator))
              ∷ ModemField.manual (some (if manual then 1 else 0))
              ∷ ModemField.last_seen (some now)
              ∷ [])
            now sys.db;
      effects = sys.effects ++ setup_routing d.iface d.bind_ip d.gateway table ∷ [];
    }

used_tables : List Listed → List ℕ
used_tables [] = []
used_tables (r ∷ rs) = elim r.modem.rt_table [
  | none ↦ used_tables rs
  | some t ↦ if nonzero t then t ∷ used_tables rs else used_tables rs
]

-- `while t in used`
unfoldable pub next_table : Store → ℕ
unfolding used_tables
next_table s = next_free route_table_base (used_tables (list_modems s))

-- The dongles get the tables 100, 101, … in the order in which they are found.
refresh_found : Field → List Dev → ℕ → ℕ → System → System
refresh_found field [] table now sys = sys
refresh_found field (d ∷ ds) table now sys =
    refresh_found field ds (suc table) now (refresh_dev field d table false none none now sys)

found_ifaces : List Dev → List String
found_ifaces [] = []
found_ifaces (d ∷ ds) = d.iface ∷ found_ifaces ds

-- A router that was added by hand, whose interface no dongle has.
is_manual : List String → Modem → Bool
is_manual found m =
    elim m.kind [ none ↦ false | some k ↦ k == "netdev" ]
    && nonzero m.manual
    && not (has_text (or_text m.iface "") found)

refresh_router : Field → Modem → ℕ → System → System
refresh_router field m now sys =
    let iface = or_text m.iface "" in
    elim (iface_ipv4 iface field.links) [
      | none ↦ record sys {
        db =
            upsert_modem m.imei
              (ModemField.status (some "offline") ∷ ModemField.last_seen (some now) ∷ []) now
              sys.db;
      }
      | some ip ↦
          let gw = or_text m.mgmt_host (field.first_address ip) in
          let d : Dev = record {
            id = m.imei;
            iface = iface;
            bind_ip = ip;
            gateway = gw;
            driver = none;
          } in
          refresh_dev field d
            (if truthy m.rt_table
              then elim m.rt_table [ none ↦ 0 | some t ↦ t ]
              else next_table sys.db)
            true (some gw) m.model now sys
    ]

refresh_routers : Field → List String → List Listed → ℕ → System → System
unfolding is_manual refresh_router
refresh_routers field found [] now sys = sys
refresh_routers field found (r ∷ rs) now sys =
    refresh_routers field found rs now
      (if is_manual found r.modem then refresh_router field r.modem now sys else sys)

unfoldable pub discover : Field → ℕ → System → System
unfolding list_netdevs refresh_found refresh_routers found_ifaces
discover field now sys =
    let devs = list_netdevs field field.links in
    let auto = refresh_found field devs route_table_base now sys in
    refresh_routers field (found_ifaces devs) (list_modems auto.db) now auto

-- The name is set after the row was written.
named : String → Option String → ℕ → System → System
named imei name now sys =
    if truthy_text name
    then record sys { db = upsert_modem imei (ModemField.name name ∷ []) now sys.db }
    else sys

unfoldable pub register_manual :
    Field → String → (gateway mgmt_host name model : Option String) → ℕ → System → Result System
unfolding named
register_manual field iface gateway mgmt_host name model now sys =
    elim (iface_ipv4 iface field.links) [
      | none ↦ err (netdev_error ("interface " <> iface <> " has no IPv4 address"))
      | some ip ↦
          let gw = or_text gateway (or_text mgmt_host (field.first_address ip)) in
          let d : Dev = record {
            id = "net-" <> iface;
            iface = iface;
            bind_ip = ip;
            gateway = gw;
            driver = none;
          } in
          ok (
            named ("net-" <> iface) name now (
              refresh_dev field d (next_table sys.db) true (some (or_text mgmt_host gw))
                (some (or_text model "LAN router (net-mode)")) now sys))
    ]

-- What a dongle does during a rotation: the Deco's own way, the two web APIs, and what the probes of the
-- public address give until one is there or the time is up.
pub record Dongle : Type 0 where
  pub deco : String → String → Result (Option String)
  pub zte : String → Option String → Bool
  pub huawei : String → Option String → Bool
  pub probes : List (String → String → Option String)

-- The loop polls until an address is there or the last probe is made.
poll : List (String → String → Option String) → String → Option String → Option String
poll [] iface bind = none
poll (fetch ∷ probes) iface bind = elim (public_ip fetch iface bind) [
  | some ip ↦ some ip
  | none ↦ poll probes iface bind
]

unfoldable pub rotate_dongle : Dongle → Modem → Result (Option String)
unfolding poll
rotate_dongle dongle m =
    let host = or_text m.mgmt_host "" in
    let iface = or_text m.iface "" in
    let api = if nonzero m.manual then none else some iface in
    let bind = if nonzero m.manual then m.bind_ip else none in
    if not (truthy_text m.mgmt_host) || not (truthy_text m.iface)
    then err (netdev_error "net-mode dongle missing mgmt_host/iface")
    else (if contains_lower "deco" (or_text m.model "")
        then dongle.deco host iface
        else (if dongle.zte host api || dongle.huawei host api
            then ok (poll dongle.probes iface bind)
            else err (netdev_error ("no supported web API at " <> host <> " for " <> iface))))
