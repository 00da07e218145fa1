-- ===== src/Netdev/Tables.antt =====
-- The routing table of a router that is added by hand.
use modemproxy.Prelude.{
  ℕ, ◌≤◌, ◌≡◌, ◌≢◌, true, false, List, [], ◌∷◌, some, arith, inl, inr, has_nat, nonzero,
  Option-cases, eqb_iff,
}
use modemproxy.Db.Rows.{Store}
use modemproxy.Db.Listing.{Listed, list_modems}
use modemproxy.Generator.Ports.Search.{next_free_lem}
use modemproxy.Netdev.{next_table, route_table_base, used_tables}

-- No row has the table.
abbrev pub Unused : ℕ → List Listed → Type 0
Unused t [] = Unit
Unused t (r ∷ rs) = (r.modem.rt_table ≢ some t) × Unused t rs

Unused-used_tables :
    (t : ℕ) (rs : List Listed) → nonzero t ≡ true → has_nat t (used_tables rs) ≡ false → Unused t rs
unfolding used_tables has_nat
Unused-used_tables t [] z h = tt
Unused-used_tables t (r ∷ rs) z h = elim (Option-cases r.modem.rt_table) [
  | inl e ↦ ((λ same. ground (arith, e, same)), Unused-used_tables t rs z (ground (arith, e, h)))
  | inr (u, e) ↦ (
    (λ same. ground (arith, e, same, h, z, eqb_iff u t)),
    Unused-used_tables t rs z (ground (arith, e, h)),
  )
]

-- The table that a new router gets is 100 or above, and no modem has it.
pub next_table-Unused :
    (s : Store) → (route_table_base ≤ next_table s) × Unused (next_table s) (list_modems s)
unfolding next_table
next_table-Unused s =
    let found = next_free_lem route_table_base (used_tables (list_modems s)) in
    (found.0, Unused-used_tables (next_table s) (list_modems s) (ground (arith, found.0)) found.1)
