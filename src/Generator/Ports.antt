-- ===== src/Generator/Ports.antt =====
-- modemproxy/proxy/generator.py: _modem_index, _svc and allocate_port.
pub mod Search
pub mod Distinct
use mathlib.Core.Option
use modemproxy.Prelude.{
  ℕ, zero, suc, ◌+◌, String, Bool, true, false, List, [], ◌∷◌, Option, none, some, ◌==◌,
  if◌then◌else◌, sorted, has_text, truthy, truthy_text, or_nat, or_text, length, nonempty,
}
use modemproxy.Text.{◌<>◌, decimal, alnum_only, last_chars}
use modemproxy.Result.{Result, ok, err, ◌>>=◌}
use modemproxy.Config.{Config}
use modemproxy.Db.Rows.{Port, Store}
use modemproxy.Db.Ports
use modemproxy.Db.Ports.{PortField, get_port, set_port}
use modemproxy.Db.Listing.{list_modems, listed_imeis}
use Search.{next_free}

-- list.index, for an element that is there.
index_of : String → List String → ℕ
index_of x [] = 0
index_of x (y ∷ ys) = if y == x then 0 else suc (index_of x ys)

-- The place of the imei among the sorted ones, from 1.
unfoldable pub modem_index : String → Store → ℕ
unfolding index_of
modem_index imei s =
    let modems = sorted (listed_imeis (list_modems s)) in
    if has_text imei modems then index_of imei modems + 1 else length modems + 1

-- The proxy's service id: the letters and digits of the imei.
unfoldable pub svc : String → String
svc imei = let slug = alnum_only imei in if nonempty slug then slug else last_chars 6 imei

-- `(existing or {}).get(column)`
abbrev pub column {ℓ} : {A : Type ℓ} → (Port → Option A) → Option Port → Option A
column f none = none
column f (some p) = f p

-- The set `used_http` or `used_socks`: one column's ports of the other modems.
unfoldable pub used_by_others : (Port → Option ℕ) → String → Store → List String → List ℕ
used_by_others f imei s [] = []
used_by_others f imei s (j ∷ js) =
    let rest = used_by_others f imei s js in
    if j == imei then rest else elim (column f (get_port j s)) [
      | some a ↦ if truthy (some a) then a ∷ rest else rest
      | none ↦ rest
    ]

-- A free port from `base + index` up, or the one that the modem has.
unfoldable pub pick_port : (Port → Option ℕ) → ℕ → String → Store → ℕ
unfolding used_by_others
pick_port f base imei s =
    or_nat (column f (get_port imei s)) (
      next_free (base + modem_index imei s)
        (used_by_others f imei s (listed_imeis (list_modems s))))

-- `a or b or c` on texts, the last one always there.
abbrev pub or_else : Option String → Option String → String → String
or_else a b c = or_text a (or_text b c)

-- What the `secrets` module returns for this call.
pub record Secrets : Type 0 where
  pub password : String
  pub token : String
  pub pool_password : String

-- The optional keyword arguments of allocate_port.
pub record Login : Type 0 where
  pub username : Option String
  pub password : Option String
  pub auth : Bool

abbrev pub default_login : Login
default_login = record { username = none; password = none; auth = true }

-- The columns that allocate_port writes.
unfoldable pub allocated : Config → String → Login → Secrets → Store → List PortField
allocated cfg imei login fresh s =
    let existing = get_port imei s in
    PortField.http_port (some (pick_port (λ p. p.http_port) cfg.http_port_base imei s))
    ∷ PortField.socks_port (some (pick_port (λ p. p.socks_port) cfg.socks_port_base imei s))
    ∷ PortField.username (
        if login.auth
        then some (
            or_else login.username (column (λ p. p.username) existing)
              ("u" <> decimal (modem_index imei s)))
        else none)
    ∷ PortField.password (
        if login.auth
        then some (or_else login.password (column (λ p. p.password) existing) fresh.password)
        else none)
    ∷ PortField.rotation_token
        (some (or_text (column (λ p. p.rotation_token) existing) fresh.token))
    ∷ PortField.enabled 1
    ∷ []

-- The port record that allocate_port returns is get_port's in the new store.
unfoldable pub allocate_port : Config → String → Login → Secrets → ℕ → Store → Result Store
unfolding allocated
allocate_port cfg imei login fresh now s = set_port imei (allocated cfg imei login fresh s) now s
