-- ===== src/Services/Customers.antt =====
-- modemproxy/services/customers.py: accounts and what a customer sees. `hash` and `verify` are
-- hash_password with its salt and verify_password, which call PBKDF2.
use modemproxy.Prelude.{
  ℕ, ◌+◌, ◌<◌, ◌↔◌, ◌∙◌, sym, Option-cases, inl, inr, String, ◌≡◌, refl, ap, Bool, true, false,
  ◌&&◌, List, [], ◌∷◌, Option, none, some, if◌then◌else◌, ◌==◌, nonempty, truthy, or_text, has_text,
  keep, map, arith, eq_iff,
}
use modemproxy.Text.{last_chars}
use modemproxy.Table
use modemproxy.Config.{Config}
use modemproxy.Db.Rows.{Modem, Port, Store}
use modemproxy.Db.Ports.{get_port}
use modemproxy.Db.Customers.{customer_upsert, customer_get, customer_imeis, may_rotate, login_of}
use modemproxy.Db.Listing.{Listed, list_modems, listed_imeis, join_port, has_text-keep-list_modems}
use modemproxy.Db.Modems.{get_modem, modem_key}
use modemproxy.Bandwidth.Report.{Windows, report}
use modemproxy.Generator.Ports.{column}
use modemproxy.Generator.Pool.{is_expired}
use modemproxy.Publish.{Endpoints, customer_endpoints}

unfoldable pub create : (String → String) → String → String → String → ℕ → Store → Store
create hash username password label now s =
    customer_upsert username (some (hash password)) (some label) now s

unfoldable pub set_customer_password : (String → String) → String → String → ℕ → Store → Store
set_customer_password hash username password now s =
    customer_upsert username (some (hash password)) none now s

unfoldable pub authenticate : (String → String → Bool) → String → String → Store → Bool
authenticate verify username password s = elim (customer_get username s) [
  | none ↦ false
  | some c ↦ nonempty c.password_hash && verify password c.password_hash
]

-- What the panel shows of one proxy, without the columns that are passed through.
pub record PanelRow : Type 0 where
  pub imei : String
  pub name : String
  pub status : String
  pub endpoints : Endpoints
  pub month_bytes : ℕ
  pub today_bytes : ℕ
  pub expires_at : Option ℕ

-- `m["imei"] not in imeis or not m.get("http_port")` is what the loop leaves out.
unfoldable pub is_shown : List String → Listed → Bool
is_shown imeis r = has_text r.modem.imei imeis && truthy (column (λ p. p.http_port) r.port)

unfoldable pub panel_row : Config → Windows → ℕ → Store → Listed → PanelRow
panel_row cfg w now s r =
    let usage = report (some r.modem.imei) w now s in
    record {
      imei = r.modem.imei;
      name = or_text r.modem.name (last_chars 6 r.modem.imei);
      status =
          if is_expired now (column (λ p. p.expires_at) r.port) then "expired" else r.modem.status;
      endpoints = customer_endpoints cfg r;
      month_bytes = usage.month.rx + usage.month.tx;
      today_bytes = usage.day.rx + usage.day.tx;
      expires_at = column (λ p. p.expires_at) r.port;
    }

-- `if not imeis: return []`
panel : Config → Windows → ℕ → Store → List String → List PanelRow
panel cfg w now s [] = []
panel cfg w now s (i ∷ is) = map (panel_row cfg w now s) (keep (is_shown (i ∷ is)) (list_modems s))

unfoldable pub proxies_for : Config → Windows → ℕ → String → Store → List PanelRow
unfolding panel
proxies_for cfg w now username s = panel cfg w now s (customer_imeis username s)

-- Once an account is made or made again, its customer logs in with what verifies against the new
-- hash and with nothing else, and every other customer as before; the hash is never empty.
pub authenticate-create :
    (hash : String → String) (verify : String → String → Bool)
    (username password label other attempt : String) (now : ℕ) (s : Store)
    → nonempty (hash password) ≡ true
    → authenticate verify other attempt (create hash username password label now s) ≡ (
        if username == other
        then verify attempt (hash password)
        else authenticate verify other attempt s)
unfolding authenticate create customer_upsert customer_get
authenticate-create hash verify username password label other attempt now s full = ground (
  arith,
  eq_iff username other,
  Table.find-update login_of username other
      (λ c. record c { password_hash = hash password; label = label }) s.customers (λ c. refl),
  Table.find-insert login_of other
      (record {
        username = username;
        password_hash = hash password;
        label = label;
        created_at = now;
      })
      s.customers,
)

abbrev pub panel_imeis : List PanelRow → List String
panel_imeis [] = []
panel_imeis (r ∷ rs) = r.imei ∷ panel_imeis rs

panel_imeis-map :
    (cfg : Config) (w : Windows) (now : ℕ) (s : Store) (rs : List Listed)
    → panel_imeis (map (panel_row cfg w now s) rs) ≡ listed_imeis rs
unfolding panel_row
panel_imeis-map cfg w now s [] = refl
panel_imeis-map cfg w now s (r ∷ rs) = ap (λ l. r.modem.imei ∷ l) (panel_imeis-map cfg w now s rs)

has_text-panel :
    (cfg : Config) (w : Windows) (now : ℕ) (j : String) (s : Store) (imeis : List String)
    → Table.Distinct modem_key s.modems
    → has_text j (panel_imeis (panel cfg w now s imeis))
      ≡ elim (get_modem j s) [ none ↦ false | some m ↦ is_shown imeis (join_port s m) ]
unfolding panel is_shown has_text
has_text-panel cfg w now j s [] d = ground arith
has_text-panel cfg w now j s (i ∷ is) d =
    rw (panel_imeis-map cfg w now s (keep (is_shown (i ∷ is)) (list_modems s)))
      (has_text-keep-list_modems (is_shown (i ∷ is)) s j d)

shown_rows :
    (cfg : Config) (w : Windows) (now : ℕ) (username j : String) (s : Store)
    → Table.Distinct modem_key s.modems
    → has_text j (panel_imeis (proxies_for cfg w now username s)) ≡ elim (get_modem j s) [
      | none ↦ false
      | some m ↦ is_shown (customer_imeis username s) (join_port s m)
    ]
unfolding proxies_for
shown_rows cfg w now username j s d = has_text-panel cfg w now j s (customer_imeis username s) d

-- What a modem on a customer's panel must be.
pub record OnPanel (username j : String) (s : Store) : Type 0 where
  pub known : (m : Modem) × (get_modem j s ≡ some m)
  pub assigned : may_rotate username j s ≡ true
  pub port : Port
  pub has_row : get_port j s ≡ some port
  pub listens : (n : ℕ) × (port.http_port ≡ some n) × (0 < n)

port_some :
    (o : Option Port)
    → truthy (column (λ p. p.http_port) o) ≡ true
    → (p : Port) × (o ≡ some p) × (n : ℕ) × (p.http_port ≡ some n) × (0 < n)
port_some none h = absurd (cc h)
port_some (some p) h = elim (Option-cases p.http_port) [
  | inl e ↦ absurd (ground (arith, e, h))
  | inr (n, e) ↦ (p, refl, n, e, ground (arith, e, h))
]

shown-OnPanel :
    (username j : String) (s : Store) (m : Modem)
    → get_modem j s ≡ some m
    → m.imei ≡ j
    → is_shown (customer_imeis username s) (join_port s m) ≡ true
    → OnPanel username j s
unfolding is_shown may_rotate
shown-OnPanel username j s m em k h =
    let (p, ep, n, en, pos) = port_some (get_port m.imei s) (ground (arith, h)) in
    record {
      known = (m, em);
      assigned = ap (λ i. has_text i (customer_imeis username s)) (sym k) ∙ ground (arith, h);
      port = p;
      has_row = ap (λ i. get_port i s) (sym k) ∙ ep;
      listens = (n, en, pos);
    }

OnPanel-shown :
    (username j : String) (s : Store) (v : OnPanel username j s)
    → v.known.0.imei ≡ j
    → is_shown (customer_imeis username s) (join_port s v.known.0) ≡ true
unfolding is_shown may_rotate
OnPanel-shown username j s v k =
    rw (k, v.has_row, v.assigned, v.listens.1) (ground (arith, v.listens.2))

panel-OnPanel :
    (username j : String) (s : Store)
    → (elim (get_modem j s) [
      | none ↦ false
      | some m ↦ is_shown (customer_imeis username s) (join_port s m)
    ]
        ≡ true)
      ↔ OnPanel username j s
unfolding get_modem
panel-OnPanel username j s = (
  λ h. elim (Table.find_cases modem_key j s.modems) [
    | inl e ↦ absurd (ground (arith, e, h))
    | inr (m, e, k) ↦ shown-OnPanel username j s m e k (ground (arith, e, h))
  ],
  λ v.
      rw v.known.1
        (OnPanel-shown username j s v (Table.find_key modem_key j s.modems v.known.0 v.known.1)),
)

-- A customer's panel shows a modem exactly if it is known, is assigned to this customer, and its proxy
-- has an HTTP port.
pub has_text-proxies_for :
    (cfg : Config) (w : Windows) (now : ℕ) (username j : String) (s : Store)
    → Table.Distinct modem_key s.modems
    → (has_text j (panel_imeis (proxies_for cfg w now username s)) ≡ true) ↔ OnPanel username j s
has_text-proxies_for cfg w now username j s d =
    rw (shown_rows cfg w now username j s d) (panel-OnPanel username j s)
