-- ===== src/Healthcheck/Proxies.antt =====
-- modemproxy/services/healthcheck.py: the checks of each proxy and of the band locks.
use modemproxy.Prelude.{
  ℕ, String, Bool, true, false, ◌&&◌, List, [], ◌∷◌, Option, none, some, if◌then◌else◌, eqb,
  nonempty, truthy, truthy_text, or_text,
}
use modemproxy.Text.{◌<>◌, decimal}
use modemproxy.Db.Rows.{Modem, LockState, Store}
use modemproxy.Db.Listing.{Listed}
use modemproxy.Generator.Ports.{svc, column}
use modemproxy.Bands.Lock.{Device, Freed, guard}

-- `_run`: the exit code of a command and its output, stripped; (1, "") where it cannot run.
abbrev pub Commands : Type 0
Commands = List String → ℕ × String

-- `_curl`: the output, unless the command failed or the output is empty.
unfoldable pub curl : Commands → List String → Option String
curl run args =
    let out = run ("curl" ∷ "-s" ∷ "--max-time" ∷ "20" ∷ args) in
    if eqb out.0 0 && nonempty out.1 then some out.1 else none

unfoldable pub systemctl : Commands → List String → Bool
systemctl run args = eqb (run ("systemctl" ∷ args)).0 0

-- The commands of a check before a repair, after the restart of the proxy, and after a discovery.
pub record Stages : Type 0 where
  pub first : Commands
  pub restarted : Commands
  pub discovered : Commands

-- (ok, detail, healed)
pub record Checked : Type 0 where
  pub good : Bool
  pub detail : String
  pub healed : Bool

abbrev plain : Option String → String
plain none = "None"
plain (some t) = t

abbrev number : Option ℕ → String
number none = "None"
number (some n) = decimal n

-- Through the modem's own proxy port.
proxy_args : Listed → List String
proxy_args r =
    let port = number (column (λ p. p.http_port) r.port) in
    let user = column (λ p. p.username) r.port in
    "-x"
    ∷ (if truthy_text user
        then "http://"
          <> plain user
          <> ":"
          <> plain (column (λ p. p.password) r.port)
          <> "@127.0.0.1:"
          <> port
        else "http://127.0.0.1:" <> port)
    ∷ "https://api.ipify.org"
    ∷ []

after_discovery : Listed → Stages → Bool → Checked
unfolding proxy_args
after_discovery r at healed = elim (curl at.discovered (proxy_args r)) [
  | some ip ↦ record { good = true; detail = ip <> " (dopo discovery)"; healed = true }
  | none ↦ record { good = false; detail = "nessuna uscita internet"; healed = healed }
]

after_restart : Listed → Stages → Bool → Checked
unfolding after_discovery
after_restart r at false = after_discovery r at false
after_restart r at true = elim (curl at.restarted (proxy_args r)) [
  | some ip ↦ record { good = true; detail = ip <> " (dopo riavvio del proxy)"; healed = true }
  | none ↦ after_discovery r at true
]

unfoldable pub check_proxy : Stages → Listed → Checked
unfolding after_restart systemctl
check_proxy at r =
    if truthy (column (λ p. p.http_port) r.port)
    then elim (curl at.first (proxy_args r)) [
      | some ip ↦ record { good = true; detail = ip; healed = false }
      | none ↦ after_restart r at (
          systemctl at.first
            ("restart" ∷ ("modemproxy-proxy@" <> svc r.modem.imei <> ".service") ∷ []))
    ]
    else record { good = true; detail = "nessuna porta"; healed = false }

-- The saved text is there and lacks '"lte": []'. A text that was saved before any lock has no "lte" at
-- all, and no "ts" either: it counts as locked.
unfoldable pub looks_locked : Option LockState → Bool
looks_locked none = false
looks_locked (some l) = elim l.ts [
  | none ↦ true
  | some t ↦ elim l.lte [ [] ↦ false | b ∷ bs ↦ true ]
]

pub record Bands : Type 0 where
  pub locked : List String
  pub freed : List Freed
  pub db : Store

-- The loop of _check_band_locks; `dev` is what a modem's device answers before and after an unlock.
guard_all : (Modem → Device × Device) → ℕ → List Listed → Store → Bands
unfolding looks_locked
guard_all dev now [] s = record { locked = []; freed = []; db = s }
guard_all dev now (r ∷ rs) s =
    let (said, t) = guard r.modem (dev r.modem).0 (dev r.modem).1 now s in
    let rest = guard_all dev now rs t in
    elim said [
      | some f ↦ record rest { freed = f ∷ rest.freed }
      | none ↦
          if looks_locked r.modem.band_lock
          then record rest { locked = or_text r.modem.name r.modem.imei ∷ rest.locked }
          else rest
    ]

unfoldable pub check_band_locks : (Modem → Device × Device) → ℕ → List Listed → Store → Bands
unfolding guard_all
check_band_locks dev now modems s = guard_all dev now modems s
