-- ===== src/Web/Pool.antt =====
-- modemproxy/web/app.py: _live_proxies, api_pool, api_pool_random and api_pool_sticky.
pub mod Same
pub mod Sticky
use modemproxy.Prelude.{
  ℕ, zero, suc, ◌+◌, ◌%◌, max, ◌≡◌, refl, String, Bool, true, false, not, ◌&&◌, List, [], ◌∷◌,
  Option, none, some, if◌then◌else◌, ◌==◌, keep, nonempty, nonzero, truthy, truthy_text, or_text,
  length, leb, map,
}
use modemproxy.Text.{◌<>◌, decimal}
use modemproxy.Text.Cut.{same_lower}
use modemproxy.Result.{Result, ok, err, Error, http_error, ◌>>=◌}
use modemproxy.Db.Rows.{Store, Port}
use modemproxy.Db.Listing.{Listed, list_modems}
use modemproxy.Db.Sticky.{sticky_get, sticky_set}
use modemproxy.Generator.Ports.{column}

pub record LiveProxy : Type 0 where
  pub imei : String
  pub name : Option String
  pub operator : Option String
  pub ip : Option String
  pub geo : Option String
  pub host : String
  pub http_port : ℕ
  pub socks_port : Option ℕ
  pub http : String
  pub socks5 : String

abbrev number_of : Option ℕ → ℕ
number_of none = 0
number_of (some n) = n

-- What an f-string makes of a column.
abbrev shown_number : Option ℕ → String
shown_number none = "None"
shown_number (some n) = decimal n

abbrev shown_text : Option String → String
shown_text none = "None"
shown_text (some t) = t

-- `m.get("expires_at") and m["expires_at"] <= now`
abbrev pub ended : ℕ → Option ℕ → Bool
ended now none = false
ended now (some t) = nonzero t && leb t now

-- The test of the loop, on a row of the join.
unfoldable pub is_offered : ℕ → Listed → Bool
is_offered now r =
    r.modem.status == "online"
    && truthy (column (λ p. p.http_port) r.port)
    && elim r.port [ none ↦ false | some p ↦ nonzero p.enabled && not (nonzero p.quota_locked) ]
    && not (ended now (column (λ p. p.expires_at) r.port))

unfoldable pub live_proxy : String → Listed → LiveProxy
live_proxy host r =
    let user = column (λ p. p.username) r.port in
    let cred =
      if truthy_text user
      then shown_text user <> ":" <> shown_text (column (λ p. p.password) r.port) <> "@"
      else "" in
    let http_port = column (λ p. p.http_port) r.port in
    let socks_port = column (λ p. p.socks_port) r.port in
    record {
      imei = r.modem.imei;
      name = r.modem.name;
      operator = r.modem.operator;
      ip = r.modem.ip;
      geo = r.modem.geo;
      host = host;
      http_port = number_of http_port;
      socks_port = socks_port;
      http = "http://" <> cred <> host <> ":" <> shown_number http_port;
      socks5 = "socks5h://" <> cred <> host <> ":" <> shown_number socks_port;
    }

unfoldable pub live_proxies : String → ℕ → Store → List LiveProxy
unfolding is_offered live_proxy
live_proxies host now s = map (live_proxy host) (keep (is_offered now) (list_modems s))

-- Operators are compared in lower case.
unfoldable pub api_pool : String → Option String → ℕ → Store → List LiveProxy
unfolding live_proxies
api_pool host operator now s =
    if truthy_text operator
    then keep (λ p. same_lower (or_text p.operator "") (or_text operator ""))
        (live_proxies host now s)
    else live_proxies host now s

at : {A : Type 0} → ℕ → A → List A → A
at n x [] = x
at zero x (y ∷ ys) = x
at (suc n) x (y ∷ ys) = at n y ys

-- `random.choice` of a list that is not empty; `draw` is the number behind it.
unfoldable pub choice : {A : Type 0} → ℕ → A → List A → A
unfolding at
choice draw x xs = at (draw % suc (length xs)) x xs

unavailable : {A : Type 0} → Result A
unavailable = err (http_error 503 "no live proxy available")

unfoldable pub api_pool_random : ℕ → String → Option String → ℕ → Store → Result LiveProxy
unfolding unavailable
api_pool_random draw host operator now s = elim (api_pool host operator now s) [
  | [] ↦ unavailable
  | p ∷ ps ↦ ok (choice draw p ps)
]

-- `{p["imei"]: p for p in proxies}.get(imei)`: the last of the proxies with the imei.
unfoldable pub by_imei : String → List LiveProxy → Option LiveProxy
by_imei imei [] = none
by_imei imei (p ∷ ps) = elim (by_imei imei ps) [
  | some q ↦ some q
  | none ↦ if p.imei == imei then some p else none
]

-- The modem of the session while it is live, or one that is drawn.
unfoldable pub stick_to : ℕ → Option String → LiveProxy → List LiveProxy → String
unfolding by_imei choice
stick_to draw none p ps = (choice draw p ps).imei
stick_to draw (some imei) p ps = elim (by_imei imei (p ∷ ps)) [
  | some q ↦ imei
  | none ↦ (choice draw p ps).imei
]

required : Option LiveProxy → Result LiveProxy
required none = err (http_error 500 "Internal Server Error")
required (some p) = ok p

abbrev pub SessionReply : Type 0
SessionReply = Result LiveProxy × Store

store_session : String → String → ℕ → ℕ → List LiveProxy → Store → SessionReply
unfolding required
store_session key imei ttl now proxies s = elim (sticky_set key imei ttl now s) [
  | err e ↦ (err e, s)
  | ok t ↦ (required (by_imei imei proxies), t)
]

-- A time to live below one second is one second; the same holds of a negative one.
unfoldable pub stick : ℕ → String → ℕ → ℕ → Store → List LiveProxy → SessionReply
unfolding stick_to store_session unavailable
stick draw key ttl now s [] = (unavailable, s)
stick draw key ttl now s (p ∷ ps) =
    let kept = sticky_get key now s in
    store_session key (stick_to draw kept.0 p ps) (max 1 ttl) now (p ∷ ps) kept.1

unfoldable pub api_pool_sticky : ℕ → String → String → ℕ → Option String → ℕ → Store → SessionReply
unfolding stick
api_pool_sticky draw key host ttl operator now s =
    stick draw key ttl now s (api_pool host operator now s)
