-- ===== src/Generator/Ports/Distinct.antt =====
-- modemproxy/proxy/generator.py: what allocate_port promises about the ports it hands out.
use modemproxy.Prelude.{
  ℕ, ◌+◌, ◌≤◌, ◌<◌, String, ◌≡◌, ◌≢◌, true, false, List, [], ◌∷◌, Option, some, arith, eq_iff, ◌==◌,
  if◌then◌else◌, has_text, has_nat, eqb_iff, Bool-cases, inl, inr, str_ne, truthy,
}
use modemproxy.Result.{ok}
use modemproxy.Config.{Config}
use modemproxy.Db.Rows.{Port, Store}
use modemproxy.Db.Modems.{get_modem}
use modemproxy.Db.Ports.{get_port, set_columns, set_port_ok}
use modemproxy.Db.Listing.{list_modems, listed_imeis, found, has_text-list_modems}
use modemproxy.Generator.Ports.{
  column, used_by_others, pick_port, Login, Secrets, allocated, allocate_port, modem_index,
}
use modemproxy.Generator.Ports.Search.{next_free_lem}

-- No two modems have the same non-zero port in a column.
pub record NoClash (f : Port → Option ℕ) (s : Store) : Type 0 where
  pub apart :
      (i j : String) (a : ℕ)
      → column f (get_port i s) ≡ some a
      → column f (get_port j s) ≡ some a
      → 0 < a
      → i ≡ j

-- Every port row belongs to a modem: the foreign key of the ports table.
pub record HasModems (s : Store) : Type 0 where
  pub owner : (j : String) → found (get_port j s) ≡ true → found (get_modem j s) ≡ true

used_by_others_has :
    (f : Port → Option ℕ) (imei j : String) (a : ℕ) (s : Store) (js : List String)
    → j ≢ imei
    → column f (get_port j s) ≡ some a
    → 0 < a
    → has_text j js ≡ true
    → has_nat a (used_by_others f imei s js) ≡ true
unfolding has_text has_nat used_by_others
used_by_others_has f imei j a s [] ne e pos m = cc
used_by_others_has f imei j a s (k ∷ js) ne e pos m = elim (Bool-cases (k == j)) [
  | inl same ↦
      let k≡j : k ≡ j = (eq_iff k j).0 same in
      rw (k≡j, str_ne j imei ne, e, eqb_iff a 0) (ground arith)
  | inr other ↦ ground (arith, used_by_others_has f imei j a s js ne e pos, eq_iff k j)
]

-- The port that is picked for a modem is nobody else's.
pick_port_fresh :
    (f : Port → Option ℕ) (base : ℕ) (imei j : String) (s : Store)
    → NoClash f s
    → HasModems s
    → 0 < pick_port f base imei s
    → column f (get_port j s) ≡ some (pick_port f base imei s)
    → j ≡ imei
unfolding pick_port
pick_port_fresh f base imei j s apart owner pos e = elim (Bool-cases (j == imei)) [
  | inl same ↦ (eq_iff j imei).0 same
  | inr other ↦ ground (
    arith,
    apart.apart j imei (pick_port f base imei s) e,
    used_by_others_has f imei j (pick_port f base imei s) s (listed_imeis (list_modems s)),
    has_text-list_modems j s,
    owner.owner j,
    (next_free_lem (base + modem_index imei s)
        (used_by_others f imei s (listed_imeis (list_modems s)))).1,
  )
]

-- The columns that allocate_port leaves, in the row of its modem and in the others.
column-allocate_port :
    (cfg : Config) (imei j : String) (login : Login) (fresh : Secrets) (now : ℕ) (s t : Store)
    → allocate_port cfg imei login fresh now s ≡ ok t
    → (column (λ p. p.http_port) (get_port j t) ≡ (
        if imei == j
        then some (pick_port (λ p. p.http_port) cfg.http_port_base imei s)
        else column (λ p. p.http_port) (get_port j s)))
      × (column (λ p. p.socks_port) (get_port j t) ≡ (
          if imei == j
          then some (pick_port (λ p. p.socks_port) cfg.socks_port_base imei s)
          else column (λ p. p.socks_port) (get_port j s)))
unfolding allocate_port set_columns
column-allocate_port cfg imei j login fresh now s t h = elim (Bool-cases (imei == j)) [
  | inl same ↦
      let e = (set_port_ok imei j (allocated cfg imei login fresh s) now s t h).0 in
      rw same ((rw (e, same)), (rw (e, same)))
  | inr other ↦
      let e = (set_port_ok imei j (allocated cfg imei login fresh s) now s t h).0 in
      rw other ((rw (e, other)), (rw (e, other)))
]

-- A column keeps its ports apart when one modem's value changes to a port that was picked for it.
picked_apart :
    (f : Port → Option ℕ) (base : ℕ) (imei : String) (s t : Store)
    → NoClash f s
    → HasModems s
    → ((j : String)
        → column f (get_port j t)
          ≡ (if imei == j then some (pick_port f base imei s) else column f (get_port j s)))
    → NoClash f t
picked_apart f base imei s t ok_s owned set = record {
  apart = λ i j a ei ej pos. ground (
    arith,
    set i,
    set j,
    eq_iff imei i,
    eq_iff imei j,
    ok_s.apart i j a,
    pick_port_fresh f base imei i s ok_s owned,
    pick_port_fresh f base imei j s ok_s owned,
  );
}

-- Handing a modem its ports leaves no two modems with the same HTTP port, and no two with the same
-- SOCKS port, if that was so before and every port row had its modem.
pub allocate_port-NoClash :
    (cfg : Config) (imei : String) (login : Login) (fresh : Secrets) (now : ℕ) (s t : Store)
    → allocate_port cfg imei login fresh now s ≡ ok t
    → HasModems s
    → NoClash (λ p. p.http_port) s
    → NoClash (λ p. p.socks_port) s
    → NoClash (λ p. p.http_port) t × NoClash (λ p. p.socks_port) t
allocate_port-NoClash cfg imei login fresh now s t h owned http socks = (
  picked_apart (λ p. p.http_port) cfg.http_port_base imei s t http owned
      (λ j. (column-allocate_port cfg imei j login fresh now s t h).0),
  picked_apart (λ p. p.socks_port) cfg.socks_port_base imei s t socks owned
      (λ j. (column-allocate_port cfg imei j login fresh now s t h).1),
)

-- If every port row has its modem: a non-zero port that the modem has is kept; else the new port is
-- at least the base plus the modem's index and, where it is not zero, no other modem has it.
pub pick_port_lem :
    (f : Port → Option ℕ) (base : ℕ) (imei : String) (s : Store)
    → HasModems s
    → ((a : ℕ) → column f (get_port imei s) ≡ some a → 0 < a → pick_port f base imei s ≡ a)
      × (truthy (column f (get_port imei s)) ≡ false
          → (base + modem_index imei s ≤ pick_port f base imei s)
            × ((j : String)
                → j ≢ imei
                → 0 < pick_port f base imei s
                → column f (get_port j s) ≢ some (pick_port f base imei s)))
unfolding pick_port
pick_port_lem f base imei s owned = (
  λ a e pos. ground arith,
  λ unset.
      let free =
        next_free_lem (base + modem_index imei s)
          (used_by_others f imei s (listed_imeis (list_modems s))) in
      (
        ground (arith, free.0),
        λ j ne pos taken. ground (
          arith,
          free.1,
          has_text-list_modems j s,
          owned.owner j,
          used_by_others_has f imei j (pick_port f base imei s) s (listed_imeis (list_modems s)) ne
              taken,
        ),
      ),
)
