-- ===== src/Healthcheck/Site.antt =====
-- modemproxy/services/healthcheck.py: the checks of DNS, the VPN, the public listener and the LAN.
use modemproxy.Prelude.{
  ℕ, String, Bool, true, false, not, ◌&&◌, ◌||◌, List, [], ◌∷◌, ◌++◌, Option, none, some,
  if◌then◌else◌, eqb, ◌==◌, nonempty, truthy_text, or_text, has_text, keep, map, sorted,
}
use modemproxy.Text.{◌<>◌}
use modemproxy.Text.Cut.{words, splitlines, before_first, contains, join}
use modemproxy.Config.{Config}
use modemproxy.Db.Listing.{Listed}
use modemproxy.Generator.Sync.{dns_of}
use modemproxy.Healthcheck.Proxies.{Commands, curl, systemctl}

-- (ok, detail); a unit that was restarted is not told apart.
pub record Check : Type 0 where
  pub key : String
  pub good : Bool
  pub detail : String

answers : Commands → String → Bool
answers run server =
    nonempty
      (run ("dig" ∷ "+time=3" ∷ "+tries=1" ∷ "+short" ∷ ("@" <> server) ∷ "example.com" ∷ [])).1

unfoldable pub check_dns : Commands → Config → Check
unfolding answers
check_dns run cfg = elim (keep (answers run) (dns_of cfg)) [
  | [] ↦ record { key = "dns"; good = false; detail = "nessun DNS raggiungibile" }
  | s ∷ ss ↦ record { key = "dns"; good = true; detail = join ", " (s ∷ ss) }
]

wg_up : ℕ × String → Bool
wg_up (code, out) = eqb code 0 && nonempty out

abbrev listen_port : List String
listen_port = "wg" ∷ "show" ∷ "wg0" ∷ "listen-port" ∷ []

unfoldable pub check_vpn : Commands → Commands → Check
unfolding wg_up systemctl
check_vpn run restarted =
    if wg_up (run listen_port)
    then record { key = "vpn"; good = true; detail = "porta " <> (run listen_port).1 }
    else (if systemctl run ("restart" ∷ "wg-quick@wg0.service" ∷ [])
          && wg_up (restarted listen_port)
        then record {
          key = "vpn";
          good = true;
          detail = "porta " <> (restarted listen_port).1 <> " (riavviata)";
        }
        else record { key = "vpn"; good = false; detail = "WireGuard non attivo" })

-- The first modem with an address to leave from that is online.
binder : List Listed → Option String
binder [] = none
binder (r ∷ rs) =
    if truthy_text r.modem.bind_ip && r.modem.status == "online" then r.modem.bind_ip else binder rs

last_line : String → List String → String
last_line d [] = d
last_line d (l ∷ ls) = last_line l ls

-- The page was fetched: some code, and not "000".
reached : Option String → Bool
reached none = false
reached (some http) = not (http == "000")

stale_name : Option String → List String → Bool
stale_name none ddns = false
stale_name (some real) [] = false
stale_name (some real) (d ∷ ds) = not (has_text real (d ∷ ds))

public_detail : String → Option String → List String → Check
unfolding last_line stale_name
public_detail host real ddns =
    if stale_name real ddns
    then record {
      key = "public";
      good = false;
      detail = "DDNS fermo su " <> last_line "" ddns <> ", IP attuale " <> or_text real "";
    }
    else record {
      key = "public";
      good = true;
      detail = host <> " raggiungibile (" <> last_line "?" ddns <> ")";
    }

unfoldable pub check_public : Commands → Config → List Listed → Check
unfolding binder reached public_detail
check_public run cfg modems =
    if nonempty cfg.public_host
    then elim (binder modems) [
      | none ↦ record { key = "public"; good = true; detail = "nessun modem online per la prova" }
      | some ip ↦
          if reached (
            curl run (
              "--interface"
              ∷ ip
              ∷ "-k"
              ∷ "-o"
              ∷ "/dev/null"
              ∷ "-w"
              ∷ "%{http_code}"
              ∷ ("https://" <> cfg.public_host <> "/")
              ∷ []))
          then public_detail cfg.public_host (curl run ("https://api.ipify.org" ∷ [])) (
              splitlines (run ("dig" ∷ "+short" ∷ "+time=3" ∷ "@8.8.8.8" ∷ cfg.public_host ∷ [])).1)
          else record {
            key = "public";
            good = false;
            detail = cfg.public_host <> " non raggiungibile da internet";
          }
    ]
    else record { key = "public"; good = true; detail = "nessun host pubblico configurato" }

-- `line.split()[2:]`, each up to its "/"
held : List String → List String
held [] = []
held (a ∷ []) = []
held (a ∷ b ∷ rest) = map (before_first 47) rest

held_all : List String → List String
unfolding words held
held_all [] = []
held_all (line ∷ lines) = held (words line) ++ held_all lines

third : List String → Option String
third (a ∷ b ∷ c ∷ rest) = some c
third ws = none

-- The gateways of the default routes that name one; such a line has a third word.
gateways : List String → List String
unfolding words third
gateways [] = []
gateways (line ∷ lines) =
    let rest = gateways lines in
    if contains " via " line
    then elim (third (words line)) [ none ↦ rest | some g ↦ g ∷ rest ]
    else rest

pings : Commands → List String → Bool
pings run [] = false
pings run (gw ∷ gws) = eqb (run ("ping" ∷ "-c2" ∷ "-W2" ∷ gw ∷ [])).0 0 || pings run gws

-- The fields of a line are set apart by blanks, as `ip` prints them. The detail of a lost address lists
-- the addresses without repeating one; here as they come.
unfoldable pub check_lan : Commands → Config → Check
unfolding held_all gateways pings
check_lan run cfg =
    let addrs = held_all (splitlines (run ("ip" ∷ "-4" ∷ "-br" ∷ "addr" ∷ [])).1) in
    let gws = gateways (splitlines (run ("ip" ∷ "route" ∷ "show" ∷ "default" ∷ [])).1) in
    if nonempty cfg.lan_address && not (has_text cfg.lan_address addrs)
    then record {
      key = "lan";
      good = false;
      detail =
          "indirizzo LAN "
          <> cfg.lan_address
          <> " non presente (ora: "
          <> join ", " (sorted addrs)
          <> ")";
    }
    else (if pings run gws
        then record {
          key = "lan";
          good = true;
          detail = or_text (some cfg.lan_address) "ok" <> ", gateway ok";
        }
        else record {
          key = "lan";
          good = false;
          detail =
              "gateway non raggiungibile ("
              <> or_text (some (join ", " gws)) "nessuna rotta"
              <> ")";
        })
