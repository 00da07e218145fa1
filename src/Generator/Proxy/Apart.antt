-- ===== src/Generator/Proxy/Apart.antt =====
-- modemproxy/proxy/generator.py: the two port columns under the statements that change rows.
use modemproxy.Prelude.{ℕ, String, ◌≡◌, refl, sym, List, Option, none, arith, eq_iff}
use modemproxy.Result.{ok}
use modemproxy.Db.Rows.{Port, Store}
use modemproxy.Db.Modems.{get_modem}
use modemproxy.Db.Ports.{
  PortField, get_port, set_port, set_columns, set_port_ok, over, delete_port, get_port-delete_port,
}
use modemproxy.Generator.Ports.{column, allocate_port, allocated, Login, Secrets}
use modemproxy.Generator.Ports.Distinct.{NoClash, HasModems, allocate_port-NoClash}
use modemproxy.Generator.Sync.{System}

-- Every port row has its modem, and no two modems share a port.
pub record PortsApart (s : Store) : Type 0 where
  pub owned : HasModems s
  pub http : NoClash (λ p. p.http_port) s
  pub socks : NoClash (λ p. p.socks_port) s

set_port-HasModems :
    (imei : String) (fields : List PortField) (now : ℕ) (s t : Store)
    → set_port imei fields now s ≡ ok t
    → HasModems s
    → HasModems t
unfolding set_port
set_port-HasModems imei fields now s t h owned = record {
  owner = λ j e. ground (arith, eq_iff imei j, set_port_ok imei j fields now s t h, owned.owner j);
}

-- Columns other than the two ports.
pub record Quiet (fields : List PortField) : Type 0 where
  pub http_kept : (p : Port) → (set_columns p fields).http_port ≡ p.http_port
  pub socks_kept : (p : Port) → (set_columns p fields).socks_port ≡ p.socks_port

column-set_port :
    (f : Port → Option ℕ) (imei j : String) (fields : List PortField) (now : ℕ) (s t : Store)
    → ((p : Port) → f (set_columns p fields) ≡ f p)
    → ((i : String) → f (over i now none) ≡ none)
    → set_port imei fields now s ≡ ok t
    → column f (get_port j t) ≡ column f (get_port j s)
column-set_port f imei j fields now s t kept blank h = ground (
  arith,
  eq_iff imei j,
  set_port_ok imei j fields now s t h,
  kept (over imei now (get_port imei s)),
  blank imei,
)

same_columns-NoClash :
    (f : Port → Option ℕ) (s t : Store)
    → ((j : String) → column f (get_port j t) ≡ column f (get_port j s))
    → NoClash f s
    → NoClash f t
same_columns-NoClash f s t same apart = record {
  apart = λ i j a ei ej pos. apart.apart i j a (rw (sym (same i)) ei) (rw (sym (same j)) ej) pos;
}

pub set_port-PortsApart :
    (imei : String) (fields : List PortField) (now : ℕ) (s t : Store)
    → Quiet fields
    → set_port imei fields now s ≡ ok t
    → PortsApart s
    → PortsApart t
set_port-PortsApart imei fields now s t quiet h inv = record {
  owned = set_port-HasModems imei fields now s t h inv.owned;
  http =
      same_columns-NoClash (λ p. p.http_port) s t
        (λ j.
          column-set_port (λ p. p.http_port) imei j fields now s t quiet.http_kept (λ i. refl) h)
        inv.http;
  socks =
      same_columns-NoClash (λ p. p.socks_port) s t
        (λ j.
          column-set_port (λ p. p.socks_port) imei j fields now s t quiet.socks_kept (λ i. refl) h)
        inv.socks;
}

delete_port-NoClash :
    (f : Port → Option ℕ) (imei : String) (s : Store) → NoClash f s → NoClash f (delete_port imei s)
delete_port-NoClash f imei s apart = record {
  apart = λ i j a ei ej pos. ground (
    arith,
    get_port-delete_port imei i s,
    get_port-delete_port imei j s,
    eq_iff imei i,
    eq_iff imei j,
    apart.apart i j a,
  );
}

pub delete_port-PortsApart :
    (imei : String) (s : Store) → PortsApart s → PortsApart (delete_port imei s)
unfolding delete_port get_modem
delete_port-PortsApart imei s inv = record {
  owned = record {
    owner = λ j e. ground (arith, get_port-delete_port imei j s, inv.owned.owner j);
  };
  http = delete_port-NoClash (λ p. p.http_port) imei s inv.http;
  socks = delete_port-NoClash (λ p. p.socks_port) imei s inv.socks;
}

pub allocate_port-PortsApart :
    (sys : System) (imei : String) (login : Login) (fresh : Secrets) (now : ℕ) (t : Store)
    → allocate_port sys.config imei login fresh now sys.db ≡ ok t
    → PortsApart sys.db
    → PortsApart t
unfolding allocate_port
allocate_port-PortsApart sys imei login fresh now t h inv =
    let both =
      allocate_port-NoClash sys.config imei login fresh now sys.db t h inv.owned inv.http
        inv.socks in
    record {
      owned =
          set_port-HasModems imei (allocated sys.config imei login fresh sys.db) now sys.db t h
            inv.owned;
      http = both.0;
      socks = both.1;
    }
