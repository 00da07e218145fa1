-- ===== src/Web/Admin.antt =====
-- modemproxy/web/app.py: the handlers behind admin_auth, for API keys, customers, the access settings
-- and the rotating port.
use modemproxy.Prelude.{
  ℕ, String, Bool, true, ◌||◌, ◌++◌, Option, none, some, if◌then◌else◌, truthy_text, or_text, ◌==◌,
}
use modemproxy.Result.{Result, ok, err}
use modemproxy.Config.{Config}
use modemproxy.Publish
use modemproxy.Publish.{Effect}
use modemproxy.Db.Rows.{Store}
use modemproxy.Db.Keys.{api_key_create, api_key_revoke}
use modemproxy.Db.Customers.{customer_assign, customer_unassign, customer_delete}
use modemproxy.Services.Customers.{create}
use modemproxy.Generator.Sync.{Host, System, sync_pool}
use modemproxy.Web.{Reply, refuse}

abbrev stored : System → Result Store → Reply Bool
stored sys (ok s) = record { value = ok true; sys = record sys { db = s } }
stored sys (err e) = record { value = err e; sys = sys }

-- `key` is what api_key_create makes: "mk_" with a fresh secret behind it.
unfoldable pub api_keys_create : String → Option String → ℕ → System → Reply Bool
api_keys_create key label now sys =
    stored sys (api_key_create key (elim label [ none ↦ "" | some l ↦ l ]) now sys.db)

unfoldable pub api_keys_revoke : String → System → Reply Bool
api_keys_revoke key sys =
    let (found, s) = api_key_revoke key sys.db in
    if found
    then record { value = ok true; sys = record sys { db = s } }
    else refuse 404 "not found" (record sys { db = s })

unfoldable pub api_customers_create :
    (String → String) → Option String → Option String → Option String → ℕ → System → Reply Bool
api_customers_create hash username password label now sys =
    if truthy_text username
    then (if truthy_text password
        then record {
          value = ok true;
          sys = record sys {
            db =
                create hash (or_text username "") (or_text password "")
                  (elim label [ none ↦ "" | some l ↦ l ]) now sys.db;
          };
        }
        else refuse 400 "username and password required" sys)
    else refuse 400 "username and password required" sys

unfoldable pub api_customers_delete : String → System → Reply Bool
api_customers_delete username sys = record {
  value = ok true;
  sys = record sys { db = customer_delete username sys.db };
}

unfoldable pub api_customers_assign : String → Option String → System → Reply Bool
api_customers_assign username imei sys =
    if truthy_text imei
    then stored sys (customer_assign username (or_text imei "") sys.db)
    else refuse 400 "imei required" sys

unfoldable pub api_customers_unassign : String → String → System → Reply Bool
api_customers_unassign username imei sys = record {
  value = ok true;
  sys = record sys { db = customer_unassign username imei sys.db };
}

-- The keys of the body that are kept, each there or not.
pub record AccessBody : Type 0 where
  pub access_mode : Option String
  pub public_host : Option String
  pub open_firewall : Option Bool
  pub relay_host : Option String
  pub relay_port : Option ℕ
  pub relay_token : Option String
  pub relay_remote_offset : Option ℕ

abbrev given {ℓ} : {A : Type ℓ} → Option A → A → A
given none old = old
given (some new) old = new

unfoldable pub update_access : AccessBody → Config → Config
update_access b cfg = record cfg {
  access_mode = given b.access_mode cfg.access_mode;
  public_host = given b.public_host cfg.public_host;
  open_firewall = given b.open_firewall cfg.open_firewall;
  relay_host = given b.relay_host cfg.relay_host;
  relay_port = given b.relay_port cfg.relay_port;
  relay_token = given b.relay_token cfg.relay_token;
  relay_remote_offset = given b.relay_remote_offset cfg.relay_remote_offset;
}

known_mode : Option String → Bool
known_mode none = true
known_mode (some mode) = mode == "direct" || mode == "relay"

unfoldable pub api_access_update : Host → AccessBody → System → Reply Bool
unfolding known_mode
api_access_update host body sys =
    let cfg = update_access body sys.config in
    if known_mode body.access_mode
    then record {
      value = ok true;
      sys = record sys {
        config = cfg;
        effects = sys.effects ++ Publish.sync cfg host.has_ufw sys.db;
      };
    }
    else refuse 400 "access_mode must be 'direct' or 'relay'" sys

unfoldable pub api_pool_rotating_set : Host → String → ℕ → Option Bool → System → System
api_pool_rotating_set host fresh now enable sys = sync_pool host fresh now (record sys {
  config = record sys.config { pool_enable = given enable sys.config.pool_enable };
})
