-- ===== src/Db/Rows.antt =====
-- modemproxy/db.py: SCHEMA with the columns that _migrate adds. A column that may be NULL is an
-- `Option`; one that has a DEFAULT and is never set to NULL is a plain value. A JSON column holds
-- the value that its text stands for.
use modemproxy.Prelude.{ℤ, ℕ, String, List, [], Option, none}

-- modems.band_lock: {"default_mask", "default_nr", "lte", "nr", "strikes", "ts"}
pub record LockState : Type 0 where
  pub default_mask : Option String
  pub default_nr : Option String
  pub lte : List ℕ
  pub nr : List ℕ
  pub strikes : ℕ
  pub ts : Option ℕ

-- An element of the JSON list in ports.extra_users: a dict, read by `.get`, or anything else.
pub data ExtraItem : Type 0 where
  login : (owner username password : Option String) → ExtraItem
  junk : ExtraItem

-- ports.extra_users: a text that json.loads refuses, or a list.
pub data ExtraJson : Type 0 where
  malformed : ExtraJson
  items : List ExtraItem → ExtraJson

pub record Modem : Type 0 where
  pub imei : String
  pub name : Option String
  pub kind : Option String
  pub iface : Option String
  pub mm_path : Option String
  pub bind_ip : Option String
  pub mgmt_host : Option String
  pub rt_table : Option ℕ
  pub manual : ℕ
  pub model : Option String
  pub operator : Option String
  pub ip : Option String
  pub signal : Option ℤ
  pub radio : Option String
  pub band_lock : Option LockState
  pub band_scan : Option String
  pub geo : Option String
  pub status : String
  pub last_seen : Option ℕ
  pub created_at : Option ℕ
  pub reboot_score : ℕ
  pub score_window_start : Option ℕ

pub record Port : Type 0 where
  pub imei : String
  pub http_port : Option ℕ
  pub socks_port : Option ℕ
  pub username : Option String
  pub password : Option String
  pub rotation_interval : ℕ
  pub rotation_token : Option String
  pub white_list : Option (List String)
  pub quota_bytes : ℕ
  pub quota_direction : String
  pub quota_locked : ℕ
  pub vpn_enabled : ℕ
  pub expires_at : Option ℕ
  pub extra_users : Option ExtraJson
  pub enabled : ℕ
  pub created_at : Option ℕ

pub record Alert : Type 0 where
  pub akey : String
  pub ts : ℕ

pub record Customer : Type 0 where
  pub username : String
  pub password_hash : String
  pub label : String
  pub created_at : ℕ

pub record Assignment : Type 0 where
  pub username : String
  pub imei : String

pub record Sample : Type 0 where
  pub imei : String
  pub ts : ℕ
  pub rx_bytes : ℕ
  pub tx_bytes : ℕ

pub record Rotation : Type 0 where
  pub imei : String
  pub old_ip : Option String
  pub new_ip : Option String
  pub reason : String
  pub ts : ℕ

pub record Session : Type 0 where
  pub key : String
  pub imei : String
  pub expires_at : ℕ

pub record ApiKey : Type 0 where
  pub key : String
  pub label : String
  pub created_at : ℕ
  pub last_used : Option ℕ

pub record GeoLabel : Type 0 where
  pub ip : String
  pub label : String
  pub ts : ℕ

-- The database file: one list of rows for each table.
pub record Store : Type 0 where
  pub modems : List Modem
  pub ports : List Port
  pub alert_log : List Alert
  pub customers : List Customer
  pub customer_modems : List Assignment
  pub bandwidth : List Sample
  pub rotation_log : List Rotation
  pub sticky : List Session
  pub api_keys : List ApiKey
  pub geoip : List GeoLabel

-- The tables right after init_db on a new file.
abbrev pub init_db : Store
init_db = record {
  modems = [];
  ports = [];
  alert_log = [];
  customers = [];
  customer_modems = [];
  bandwidth = [];
  rotation_log = [];
  sticky = [];
  api_keys = [];
  geoip = [];
}

-- An INSERT fills the columns that it does not name with their DEFAULT, or with NULL.
abbrev pub blank_port : String → ℕ → Port
blank_port imei now = record {
  imei = imei;
  http_port = none;
  socks_port = none;
  username = none;
  password = none;
  rotation_interval = 0;
  rotation_token = none;
  white_list = none;
  quota_bytes = 0;
  quota_direction = "both";
  quota_locked = 0;
  vpn_enabled = 0;
  expires_at = none;
  extra_users = none;
  enabled = 1;
  created_at = Option.some now;
}

abbrev pub blank_modem : String → ℕ → Modem
blank_modem imei now = record {
  imei = imei;
  name = none;
  kind = Option.some "mm";
  iface = none;
  mm_path = none;
  bind_ip = none;
  mgmt_host = none;
  rt_table = none;
  manual = 0;
  model = none;
  operator = none;
  ip = none;
  signal = none;
  radio = none;
  band_lock = none;
  band_scan = none;
  geo = none;
  status = "unknown";
  last_seen = none;
  created_at = Option.some now;
  reboot_score = 0;
  score_window_start = none;
}
