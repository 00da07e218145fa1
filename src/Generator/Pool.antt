-- ===== src/Generator/Pool.antt =====
-- modemproxy/proxy/generator.py: _pool_members and _pool_ports, the rotating pool port.
pub mod Members
use modemproxy.Prelude.{
  ℕ, ◌+◌, ◌/◌, ◌%◌, ◌*◌, ◌≤◌, ◌<◌, String, ◌≡◌, refl, Bool, true, false, not, ◌&&◌, List, [], ◌∷◌,
  Option, none, some, arith, if◌then◌else◌, ◌==◌, leb, eqb, nonzero, truthy, or_text, keep, length,
  All, zero, suc,
}
use modemproxy.Text.{last_chars}
use modemproxy.Config.{Config}
use modemproxy.Db.Rows.{Modem, Port, Store}
use modemproxy.Db.Listing.{Listed, list_modems}

-- `m.get("expires_at") and m["expires_at"] <= now`
unfoldable pub is_expired : ℕ → Option ℕ → Bool
is_expired now none = false
is_expired now (some t) = nonzero t && leb t now

-- The port columns of a live proxy; without a port row they are all `None`.
unfoldable pub serves : ℕ → Option Port → Bool
unfolding is_expired
serves now none = false
serves now (some p) =
    truthy p.http_port
    && nonzero p.enabled
    && not (nonzero p.quota_locked)
    && not (is_expired now p.expires_at)

-- Online, with a port, enabled, within its quota and not expired.
unfoldable pub is_live : ℕ → Listed → Bool
unfolding serves
is_live now r = r.modem.status == "online" && serves now r.port

pub record Member : Type 0 where
  pub row : Listed
  pub name : String
  pub weight : ℕ

abbrev pub share : ℕ → Bool → ℕ
share n first = 1000 / n + (if first then 1000 % n else 0)

-- `first` is `i == 0`.
unfoldable pub weigh : ℕ → Bool → List Listed → List Member
weigh n first [] = []
weigh n first (r ∷ rs) =
    record {
      row = r;
      name = or_text r.modem.name (last_chars 6 r.modem.imei);
      weight = share n first;
    }
    ∷ weigh n false rs

unfoldable pub live_rows : ℕ → Store → List Listed
unfolding is_live
live_rows now s = keep (is_live now) (list_modems s)

unfoldable pub pool_members : ℕ → Store → List Member
unfolding live_rows weigh
pool_members now s = let live = live_rows now s in weigh (length live) true live

unfoldable pub pool_ports : Config → ℕ × ℕ
pool_ports cfg = (
  if nonzero cfg.pool_http_port then cfg.pool_http_port else cfg.http_port_base,
  if nonzero cfg.pool_socks_port then cfg.pool_socks_port else cfg.socks_port_base,
)
