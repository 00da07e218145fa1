-- ===== src/Generator/Sync.antt =====
-- modemproxy/proxy/generator.py: the rotating pool's configuration (_pool_password,
-- _render_pool_text, render_pool, sync_pool, pool_status), and _publish_sync.
pub mod Stable
use modemproxy.Prelude.{
  ℕ, String, ◌≡◌, refl, Bool, true, false, not, ◌&&◌, List, [], ◌∷◌, ◌++◌, Option, none, some,
  arith, if◌then◌else◌, ◌==◌, nonempty, or_text,
}
use modemproxy.Table
use modemproxy.Config.{Config}
use modemproxy.Db.Rows.{Store}
use modemproxy.Publish
use modemproxy.Publish.{Effect, systemctl}
use modemproxy.Generator.Pool.{Member, pool_members, pool_ports}
use modemproxy.Generator.Users.{Credential}

-- The variables of 3proxy.cfg.j2 and of 3proxy.pool.cfg.j2.
pub record ModemVars : Type 0 where
  pub imei : String
  pub name : String
  pub svc : String
  pub dns : List String
  pub all_users : List Credential
  pub http_port : Option ℕ
  pub socks_port : Option ℕ
  pub modem_ip : String
  pub bind_address : String
  pub white_list : List String

pub record PoolVars : Type 0 where
  pub dns : List String
  pub username : String
  pub password : String
  pub http_port : ℕ
  pub socks_port : ℕ
  pub bind_address : String
  pub members : List Member

-- The machine: who runs the process, what is installed, and the libraries that the code calls
-- (jinja2 on the two templates, ipaddress for the x.x.x.1 of a network).
pub record Host : Type 0 where
  pub root : Bool
  pub has_ufw : Bool
  pub config_writable : Bool
  pub gateway_of : String → String
  pub render_modem_cfg : ModemVars → String
  pub render_pool_cfg : PoolVars → String

-- A file 3proxy.<svc>.cfg of AUTOGEN_DIR; the pool's is the one of POOL_SVC.
pub record ProxyFile : Type 0 where
  pub svc : String
  pub text : String

-- The database, the configuration, the generated files, and what was done outside so far.
pub record System : Type 0 where
  pub db : Store
  pub config : Config
  pub files : List ProxyFile
  pub effects : List Effect

abbrev pub file_key : ProxyFile → String
file_key f = f.svc

-- Path.write_text: the file of that name has the new text.
unfoldable pub write_file : String → String → List ProxyFile → List ProxyFile
write_file name text files =
    Table.insert file_key (record { svc = name; text = text }) (Table.delete file_key name files)

abbrev pub file_text : Option ProxyFile → Option String
file_text none = none
file_text (some f) = some f.text

abbrev pub pool_svc : String
pool_svc = "pool"

-- What the pool's file holds, where there is one.
abbrev pub pool_file : List ProxyFile → Option String
pool_file files = file_text (Table.find file_key pool_svc files)

abbrev pub pool_unit : String
pool_unit = "modemproxy-proxy@pool.service"

-- generator._systemctl does nothing unless the process is root's.
abbrev pub as_root : Host → List Effect → List Effect
as_root host es = if host.root then es else []

unfoldable pub dns_of : Config → List String
dns_of cfg = elim cfg.dns_servers [ [] ↦ "8.8.8.8" ∷ "1.1.1.1" ∷ "9.9.9.9" ∷ [] | d ∷ ds ↦ d ∷ ds ]

-- The password in use, and the configuration after a new one was saved.
unfoldable pub pool_password : Host → String → Config → String × Config
pool_password host fresh cfg =
    if nonempty cfg.pool_password
    then (cfg.pool_password, cfg)
    else (fresh, if host.config_writable then record cfg { pool_password = fresh } else cfg)

pool_vars : Config → String → List Member → PoolVars
pool_vars cfg password members = record {
  dns = dns_of cfg;
  username = or_text (some cfg.pool_username) "pool";
  password = password;
  http_port = (pool_ports cfg).0;
  socks_port = (pool_ports cfg).1;
  bind_address = cfg.bind_address;
  members = members;
}

-- No text, and no new password, without a member.
unfoldable pub render_pool_text : Host → String → ℕ → Config → Store → Option String × Config
unfolding pool_vars
render_pool_text host fresh now cfg s = elim (pool_members now s) [
  | [] ↦ (none, cfg)
  | m ∷ ms ↦
      let (password, cfg') = pool_password host fresh cfg in
      (some (host.render_pool_cfg (pool_vars cfg password (m ∷ ms))), cfg')
]

unfoldable pub pool_text : Host → String → ℕ → Config → Store → Option String × Config
pool_text host fresh now cfg s =
    if cfg.pool_enable then render_pool_text host fresh now cfg s else (none, cfg)

-- `out.exists() and out.read_text() == text`
unfoldable pub same_text : String → Option String → Bool
same_text t none = false
same_text t (some old) = old == t

unfoldable pub put_text : String → List ProxyFile → List ProxyFile
unfolding same_text write_file
put_text t files = if same_text t (pool_file files) then files else write_file pool_svc t files

unfoldable pub put_pool : Host → Option String → System → System
unfolding put_text same_text
put_pool host none sys = record sys {
  files = Table.delete file_key pool_svc sys.files;
  effects =
      sys.effects ++ as_root host (systemctl "stop" pool_unit ∷ systemctl "disable" pool_unit ∷ []);
}
put_pool host (some t) sys = record sys {
  files = put_text t sys.files;
  effects =
      sys.effects
      ++ as_root host (
          systemctl "enable" pool_unit
          ∷ systemctl (if same_text t (pool_file sys.files) then "start" else "restart") pool_unit
          ∷ []);
}

-- The pool instance is restarted only if its configuration changed.
unfoldable pub sync_pool : Host → String → ℕ → System → System
sync_pool host fresh now sys =
    let (text, cfg) = pool_text host fresh now sys.config sys.db in
    put_pool host text (record sys { config = cfg })

unfoldable pub publish_sync : Host → String → ℕ → System → System
publish_sync host fresh now sys =
    sync_pool host fresh now
      (record sys { effects = sys.effects ++ Publish.sync sys.config host.has_ufw sys.db })

pub record PoolStatus : Type 0 where
  pub enabled : Bool
  pub active : Bool
  pub ports : ℕ × ℕ
  pub username : String
  pub password : String
  pub members : List Member

unfoldable pub pool_status : ℕ → System → PoolStatus
pool_status now sys = record {
  enabled = sys.config.pool_enable;
  active = sys.config.pool_enable && elim (pool_members now sys.db) [ [] ↦ false | m ∷ ms ↦ true ];
  ports = pool_ports sys.config;
  username = or_text (some sys.config.pool_username) "pool";
  password = sys.config.pool_password;
  members = pool_members now sys.db;
}
