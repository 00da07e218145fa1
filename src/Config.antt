-- ===== src/Config.antt =====
-- modemproxy/config.py: the fields of Config that the modelled code reads.
use modemproxy.Prelude.{ℕ, String, Bool, true, false, List, []}

pub record Config : Type 0 where
  pub admin_user : String
  pub admin_password : String
  pub http_port_base : ℕ
  pub socks_port_base : ℕ
  pub bind_address : String
  pub dns_servers : List String
  pub access_mode : String
  pub public_host : String
  pub lan_address : String
  pub open_firewall : Bool
  pub relay_host : String
  pub relay_port : ℕ
  pub relay_token : String
  pub relay_remote_offset : ℕ
  pub brand_name : String
  pub tg_alerts_enable : Bool
  pub tg_bot_token : String
  pub tg_chat_id : String
  pub alert_rotation_ok : Bool
  pub alert_rotation_fail : Bool
  pub alert_proxy_down : Bool
  pub alert_expiry : Bool
  pub alert_expiry_days : ℕ
  pub alert_mute_minutes : ℕ
  pub geoip_enable : Bool
  pub pool_enable : Bool
  pub pool_http_port : ℕ
  pub pool_socks_port : ℕ
  pub pool_username : String
  pub pool_password : String
  pub compat_api_enable : Bool
  pub compat_api_user : String
  pub compat_api_password : String
  pub compat_owner : String
  pub rotation_retry : Bool
  pub rotation_max_retry : ℕ
  pub rotation_unique : Bool
  pub rotation_min_interval : ℕ
  pub rotation_dirty : Bool
  pub rotation_hook_exclude : List String
  pub autoreboot_enable : Bool
  pub autoreboot_max_score : ℕ
  pub autoreboot_window : ℕ
  pub autoreboot_min_uptime : ℕ
  pub score_rotation_fail : ℕ
  pub score_ip_not_detected : ℕ
  pub score_offline : ℕ

-- The values that an empty configuration file gives.
abbrev pub defaults : Config
defaults = record {
  admin_user = "admin";
  admin_password = "admin";
  http_port_base = 8000;
  socks_port_base = 9000;
  bind_address = "0.0.0.0";
  dns_servers = [];
  access_mode = "direct";
  public_host = "";
  lan_address = "";
  open_firewall = true;
  relay_host = "";
  relay_port = 7000;
  relay_token = "";
  relay_remote_offset = 0;
  brand_name = "modemproxy";
  tg_alerts_enable = false;
  tg_bot_token = "";
  tg_chat_id = "";
  alert_rotation_ok = false;
  alert_rotation_fail = true;
  alert_proxy_down = true;
  alert_expiry = true;
  alert_expiry_days = 7;
  alert_mute_minutes = 3;
  geoip_enable = true;
  pool_enable = true;
  pool_http_port = 0;
  pool_socks_port = 0;
  pool_username = "pool";
  pool_password = "";
  compat_api_enable = true;
  compat_api_user = "proxy";
  compat_api_password = "";
  compat_owner = "proxybet";
  rotation_retry = true;
  rotation_max_retry = 3;
  rotation_unique = true;
  rotation_min_interval = 0;
  rotation_dirty = false;
  rotation_hook_exclude = [];
  autoreboot_enable = false;
  autoreboot_max_score = 100;
  autoreboot_window = 3600;
  autoreboot_min_uptime = 1800;
  score_rotation_fail = 10;
  score_ip_not_detected = 10;
  score_offline = 20;
}
