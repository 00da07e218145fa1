-- ===== src/Db/Ports.antt =====
-- modemproxy/db.py: set_port, get_port, delete_port and get_port_by_token.
use mathlib.Core.List.{foldl}
use modemproxy.Prelude.{
  ℕ, String, ◌≡◌, refl, ◌∙◌, List, [], ◌∷◌, Option, none, some, arith, eq_iff, ◌==◌, if◌then◌else◌,
  Option-cases, inl, inr,
}
use modemproxy.Result.{Result, ok, err, Error, integrity_error, after}
use modemproxy.Table
use modemproxy.Db.Rows.{Modem, Port, ExtraJson, Store, blank_port}
use modemproxy.Db.Modems.{get_modem}

-- The keyword arguments of set_port; `None` is stored as NULL.
pub data PortField : Type 0 where
  http_port socks_port expires_at : Option ℕ → PortField
  username password rotation_token : Option String → PortField
  rotation_interval quota_bytes quota_locked vpn_enabled enabled : ℕ → PortField
  quota_direction : String → PortField
  white_list : Option (List String) → PortField
  extra_users : Option ExtraJson → PortField

unfoldable pub set_column : Port → PortField → Port
set_column p (http_port v) = record p { http_port = v }
set_column p (socks_port v) = record p { socks_port = v }
set_column p (expires_at v) = record p { expires_at = v }
set_column p (username v) = record p { username = v }
set_column p (password v) = record p { password = v }
set_column p (rotation_token v) = record p { rotation_token = v }
set_column p (rotation_interval v) = record p { rotation_interval = v }
set_column p (quota_bytes v) = record p { quota_bytes = v }
set_column p (quota_locked v) = record p { quota_locked = v }
set_column p (vpn_enabled v) = record p { vpn_enabled = v }
set_column p (enabled v) = record p { enabled = v }
set_column p (quota_direction v) = record p { quota_direction = v }
set_column p (white_list v) = record p { white_list = v }
set_column p (extra_users v) = record p { extra_users = v }

unfoldable pub set_columns : Port → List PortField → Port
unfolding set_column
set_columns = foldl set_column

abbrev pub port_key : Port → String
port_key p = p.imei

set_column_imei : (p : Port) (f : PortField) → (set_column p f).imei ≡ p.imei
unfolding set_column
set_column_imei p f = ground arith

pub set_columns_imei : (fs : List PortField) (p : Port) → (set_columns p fs).imei ≡ p.imei
unfolding set_columns
set_columns_imei [] p = refl
set_columns_imei (f ∷ fs) p = set_columns_imei fs (set_column p f) ∙ set_column_imei p f

unfoldable pub get_port : String → Store → Option Port
get_port imei s = Table.find port_key imei s.ports

-- An INSERT with an imei that no modem has breaks the foreign key, and is rolled back.
unfoldable pub set_port : String → List PortField → ℕ → Store → Result Store
unfolding get_port
set_port imei fields now s = elim (get_port imei s) [
  | some _ ↦
      ok (record s { ports = Table.update port_key imei (λ p. set_columns p fields) s.ports })
  | none ↦ elim (get_modem imei s) [
    | some _ ↦ ok (record s {
      ports = Table.insert port_key (set_columns (blank_port imei now) fields) s.ports;
    })
    | none ↦ err integrity_error
  ]
]

unfoldable pub delete_port : String → Store → Store
delete_port imei s = record s { ports = Table.delete port_key imei s.ports }

find_token : String → List Port → Option Port
find_token token [] = none
find_token token (p ∷ ps) = elim p.rotation_token [
  | some t ↦ if t == token then some p else find_token token ps
  | none ↦ find_token token ps
]

-- An empty token finds no port.
unfoldable pub get_port_by_token : String → Store → Option Port
unfolding find_token
get_port_by_token token s = if token == "" then none else find_token token s.ports

-- What set_port leaves for its imei; `none` where the foreign key refuses the row.
abbrev pub written : String → List PortField → ℕ → Option Modem → Option Port → Option Port
written imei fields now _ (some p) = some (set_columns p fields)
written imei fields now (some _) none = some (set_columns (blank_port imei now) fields)
written imei fields now none none = none

-- The port rows after set_port, whether or not it raises.
pub get_port-set_port :
    (imei j : String) (fields : List PortField) (now : ℕ) (s : Store)
    → get_port j (after s (set_port imei fields now s)) ≡ (
        if imei == j
        then written imei fields now (get_modem imei s) (get_port imei s)
        else get_port j s)
unfolding set_port
get_port-set_port imei j fields now s = ground (
  arith,
  eq_iff imei j,
  Table.find-update port_key imei j (λ p. set_columns p fields) s.ports (set_columns_imei fields),
  Table.find-insert port_key j (set_columns (blank_port imei now) fields) s.ports,
  set_columns_imei fields (blank_port imei now),
)

-- The row that a set_port which goes through leaves for its imei.
abbrev pub over : String → ℕ → Option Port → Port
over imei now (some p) = p
over imei now none = blank_port imei now

pub set_port_ok :
    (imei j : String) (fields : List PortField) (now : ℕ) (s t : Store)
    → set_port imei fields now s ≡ ok t
    → (get_port j t ≡ (
        if imei == j
        then some (set_columns (over imei now (get_port imei s)) fields)
        else get_port j s))
      × (get_modem j t ≡ get_modem j s)
unfolding set_port get_modem
set_port_ok imei j fields now s t h = (
  ground (
    arith,
    eq_iff imei j,
    Table.find-update port_key imei j (λ p. set_columns p fields) s.ports (set_columns_imei fields),
    Table.find-insert port_key j (set_columns (blank_port imei now) fields) s.ports,
    set_columns_imei fields (blank_port imei now),
  ),
  ground arith,
)

pub get_port-delete_port :
    (imei j : String) (s : Store)
    → get_port j (delete_port imei s) ≡ (if imei == j then none else get_port j s)
unfolding get_port delete_port
get_port-delete_port imei j s = Table.find-delete port_key imei j s.ports

-- set_port raises exactly when it would insert a row for an unknown modem.
pub set_port_raises :
    (imei : String) (fields : List PortField) (now : ℕ) (s : Store) (e : Error)
    → set_port imei fields now s ≡ err e
    → (get_port imei s ≡ none) × (get_modem imei s ≡ none) × (e ≡ integrity_error)
unfolding set_port
set_port_raises imei fields now s e h = ground arith

-- A hook token that finds a port is that port's own token.
find_token_lem :
    (token : String) (ps : List Port) (p : Port)
    → find_token token ps ≡ some p
    → p.rotation_token ≡ some token
unfolding find_token
find_token_lem token [] p h = cc
find_token_lem token (q ∷ ps) p h = elim (Option-cases q.rotation_token) [
  | inl e ↦ ground (arith, e, find_token_lem token ps p)
  | inr (t, e) ↦ ground (arith, e, eq_iff t token, find_token_lem token ps p)
]
