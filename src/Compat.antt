-- ===== src/Compat.antt =====
-- modemproxy/web/compat.py: the storefront's API. api_password, compat_auth, _resolve and the handlers
-- that change a modem's storefront login.
pub mod Password
pub mod Untouched
pub mod Status
pub mod Calls
pub mod Messages
use modemproxy.Prelude.{
  ℕ, ◌≡◌, refl, String, Bool, true, false, ◌&&◌, ◌||◌, List, [], ◌∷◌, Option, none, some,
  if◌then◌else◌, ◌==◌, nonempty, nonzero, truthy, truthy_text, or_text, leb, ◌/◌,
}
use modemproxy.Text.{◌<>◌, decimal}
use modemproxy.Result.{Result, ok, err, Error, value_error, http_error, ◌>>=◌}
use modemproxy.Config.{Config}
use modemproxy.Db.Rows.{Modem, Port, ExtraItem, Store}
use modemproxy.Db.Modems.{get_modem}
use modemproxy.Db.Listing.{Listed, list_modems}
use modemproxy.Generator.Ports.{svc, Secrets, column}
use modemproxy.Generator.Users.{get_extra_user, set_extra_user, remove_extra_user, entry}
use modemproxy.Generator.Pool.{is_expired as ended}
use modemproxy.Generator.Sync.{Host, System}
use modemproxy.Generator.Proxy.{Outcome, apply_port}
use modemproxy.Web.{Reply, refuse}

pub record Credentials : Type 0 where
  pub username : String
  pub password : String

-- `password` is what api_password answers.
unfoldable pub compat_auth : Config → String → Option Credentials → Result String
compat_auth cfg password none =
    if cfg.compat_api_enable
    then err (http_error 401 "Unauthorized")
    else err (http_error 404 "not found")
compat_auth cfg password (some c) =
    if cfg.compat_api_enable
    then (if c.username == cfg.compat_api_user && c.password == password
        then ok c.username
        else err (http_error 401 "Unauthorized"))
    else err (http_error 404 "not found")

-- The first row whose service id or name is the argument.
find_row : String → List Listed → Option Listed
find_row arg [] = none
find_row arg (r ∷ rs) =
    if svc r.modem.imei == arg || or_text r.modem.name "" == arg then some r else find_row arg rs

or_unknown : String → Option Listed → Result Listed
or_unknown arg none = err (http_error 404 ("unknown modem " <> arg))
or_unknown arg (some r) = ok r

resolve_text : String → Store → Result Listed
unfolding find_row or_unknown
resolve_text arg s = elim (get_modem arg s) [
  | some m ↦ ok (record { modem = m; port = none })
  | none ↦ or_unknown arg (find_row arg (list_modems s))
]

-- _resolve; a modem that is found by its IMEI comes without the columns of its port.
unfoldable pub resolve : Option String → Store → Result Listed
unfolding resolve_text
resolve arg s =
    if truthy_text arg
    then resolve_text (or_text arg "") s
    else err (http_error 400 "missing modem id")

-- The rest of a handler on the modem that its argument names.
unfoldable pub on_modem : {A : Type 0} → Option String → System → (Listed → Reply A) → Reply A
on_modem arg sys go = elim (resolve arg sys.db) [
  | ok r ↦ go r
  | err e ↦ record { value = err e; sys = sys }
]

abbrev pub plain_ok : Result (Option Port) → Result Bool
plain_ok (ok p) = ok true
plain_ok (err e) = err e

unfoldable pub applied : Outcome → Reply Bool
applied o = record { value = plain_ok o.value; sys = o.sys }

abbrev answer_login : ExtraItem → Result (Option Port) → Result ExtraItem
answer_login u (ok p) = ok u
answer_login u (err e) = err e

-- The new login is loaded into the proxy; `token` is secrets.token_hex(8).
unfoldable pub new_login : Host → Secrets → String → ℕ → String → System → Reply ExtraItem
new_login host fresh token now imei sys =
    let owner = sys.config.compat_owner in
    let username = owner <> "-" <> svc imei in
    elim (set_extra_user imei owner username token now sys.db) [
      | err e ↦ record { value = err e; sys = sys }
      | ok s ↦
          let o = apply_port host fresh now imei (record sys { db = s }) in
          record { value = answer_login (entry owner username token) o.value; sys = o.sys }
    ]

unfoldable pub ensure_storefront_user :
    Host → Secrets → String → ℕ → String → System → Reply ExtraItem
unfolding new_login
ensure_storefront_user host fresh token now imei sys =
    elim (get_extra_user imei sys.config.compat_owner sys.db) [
      | some u ↦ record { value = ok u; sys = sys }
      | none ↦ new_login host fresh token now imei sys
    ]

pub record PortEntry : Type 0 where
  pub port_id : String
  pub port_name : String
  pub http_port : Option ℕ
  pub socks_port : Option ℕ
  pub login : ExtraItem
  pub owner : String
  pub host : String
  pub is_expired : Bool
  pub is_over_quota : Bool
  pub bw_quota : ℕ

-- The entry of a row; http_creds and socks5_creds put host, ports and login together.
unfoldable pub port_entry : String → String → ℕ → Listed → ExtraItem → PortEntry
port_entry owner host now r u = record {
  port_id = r.modem.imei;
  port_name = or_text r.modem.name r.modem.imei;
  http_port = column (λ p. p.http_port) r.port;
  socks_port = column (λ p. p.socks_port) r.port;
  login = u;
  owner = owner;
  host = host;
  is_expired = ended now (column (λ p. p.expires_at) r.port);
  is_over_quota = elim r.port [ none ↦ false | some p ↦ nonzero p.quota_locked ];
  bw_quota = elim r.port [ none ↦ 0 | some p ↦ p.quota_bytes / 1048576 ];
}

unfoldable pub is_served : Listed → Bool
is_served r = elim r.port [ none ↦ false | some p ↦ truthy p.http_port && nonzero p.enabled ]

also_entry : PortEntry → Reply (List PortEntry) → Reply (List PortEntry)
also_entry e later = record later { value = later.value >>= λ es. ok (e ∷ es) }

-- The loop of list_ports_json over the rows that were read before it.
unfoldable pub list_rows :
    Host
    → (String → Secrets)
    → (String → String)
    → String
    → ℕ
    → List Listed
    → System
    → Reply (List PortEntry)
unfolding also_entry is_served port_entry
list_rows host fresh token name now [] sys = record { value = ok []; sys = sys }
list_rows host fresh token name now (r ∷ rs) sys =
    let u =
      ensure_storefront_user host (fresh r.modem.imei) (token r.modem.imei) now r.modem.imei sys in
    let later = list_rows host fresh token name now rs u.sys in
    let skipped = list_rows host fresh token name now rs sys in
    if is_served r
    then elim u.value [
      | ok given ↦ also_entry (port_entry sys.config.compat_owner name now r given) later
      | err e ↦ record { value = err e; sys = u.sys }
    ]
    else skipped

-- `hostname` is the one of the request.
unfoldable pub list_ports_json :
    Host → (String → Secrets) → (String → String) → String → ℕ → System → Reply (List PortEntry)
unfolding list_rows
list_ports_json host fresh token hostname now sys =
    list_rows host fresh token (or_text (some sys.config.public_host) hostname) now
      (list_modems sys.db) sys

-- The fields of the JSON payload that are read, if there is such a payload.
pub record Payload : Type 0 where
  pub port_id : Option String
  pub imei : Option String
  pub proxy_login : Option String
  pub proxy_password : Option String

unfoldable pub save_login : String → String → ℕ → String → System → Reply Bool
save_login login password now imei sys =
    elim (set_extra_user imei sys.config.compat_owner login password now sys.db) [
      | ok s ↦ record { value = ok true; sys = record sys { db = s } }
      | err e ↦ record { value = err e; sys = sys }
    ]

unfoldable pub store_login : Option String → Option String → ℕ → String → System → Reply Bool
unfolding save_login
store_login login password now imei sys =
    if truthy_text login && truthy_text password
    then save_login (or_text login "") (or_text password "") now imei sys
    else record { value = ok true; sys = sys }

unfoldable pub store_port : Option Payload → ℕ → System → Reply Bool
unfolding store_login on_modem
store_port none now sys = refuse 400 "missing data" sys
store_port (some p) now sys =
    on_modem (if truthy_text p.port_id then p.port_id else p.imei) sys
      (λ r. store_login p.proxy_login p.proxy_password now r.modem.imei sys)

unfoldable pub apply_named : Host → Secrets → ℕ → Option String → System → Reply Bool
unfolding on_modem applied
apply_named host fresh now arg sys =
    on_modem arg sys (λ r. applied (apply_port host fresh now r.modem.imei sys))

unfoldable pub drop_login : Host → Secrets → ℕ → String → System → Reply Bool
unfolding applied
drop_login host fresh now imei sys =
    elim (remove_extra_user imei sys.config.compat_owner now sys.db) [
      | ok s ↦ applied (apply_port host fresh now imei (record sys { db = s }))
      | err e ↦ record { value = err e; sys = sys }
    ]

-- compat.purge_port
unfoldable pub purge_named : Host → Secrets → ℕ → Option String → System → Reply Bool
unfolding on_modem drop_login
purge_named host fresh now arg sys =
    on_modem arg sys (λ r. drop_login host fresh now r.modem.imei sys)
