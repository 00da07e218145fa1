-- ===== src/Db/Listing.antt =====
-- modemproxy/db.py: list_modems, the modems with their ports (LEFT JOIN), ordered by name.
use modemproxy.Prelude.{
  String, ◌≡◌, refl, Bool, true, false, ◌||◌, List, [], ◌∷◌, Option, none, some, arith, eq_iff,
  ◌==◌, if◌then◌else◌, text_le, has_text, map, ap, keep, ◌&&◌,
}
use modemproxy.Table
use modemproxy.Db.Rows.{Modem, Port, Store}
use modemproxy.Db.Modems.{get_modem, modem_key}
use modemproxy.Db.Ports.{get_port}

-- A row of the join: the port's columns are NULL where the modem has no port.
pub record Listed : Type 0 where
  pub modem : Modem
  pub port : Option Port

-- ORDER BY m.name: NULL comes first, and rows of one name stay in the order of the table.
name_le : Option String → Option String → Bool
name_le none b = true
name_le (some a) none = false
name_le (some a) (some b) = text_le a b

place : Modem → List Modem → List Modem
place m [] = m ∷ []
place m (x ∷ xs) = if name_le m.name x.name then m ∷ x ∷ xs else x ∷ place m xs

pub by_name : List Modem → List Modem
unfolding place
by_name [] = []
by_name (m ∷ ms) = place m (by_name ms)

abbrev pub join_port : Store → Modem → Listed
join_port s m = record { modem = m; port = get_port m.imei s }

unfoldable pub list_modems : Store → List Listed
unfolding by_name name_le
list_modems s = map (join_port s) (by_name s.modems)

-- `[m["imei"] for m in db.list_modems()]`
abbrev pub imeis : List Modem → List String
imeis [] = []
imeis (m ∷ ms) = m.imei ∷ imeis ms

abbrev pub listed_imeis : List Listed → List String
listed_imeis [] = []
listed_imeis (r ∷ rs) = r.modem.imei ∷ listed_imeis rs

pub listed_imeis-map :
    (s : Store) (ms : List Modem) → listed_imeis (map (join_port s) ms) ≡ imeis ms
listed_imeis-map s [] = refl
listed_imeis-map s (m ∷ ms) = ap (λ l. m.imei ∷ l) (listed_imeis-map s ms)

abbrev pub found {ℓ} : {A : Type ℓ} → Option A → Bool
found none = false
found (some a) = true

has_text-place :
    (j : String) (m : Modem) (ms : List Modem)
    → has_text j (imeis (place m ms)) ≡ (m.imei == j || has_text j (imeis ms))
unfolding has_text place
has_text-place j m [] = refl
has_text-place j m (x ∷ xs) = ground (arith, has_text-place j m xs)

has_text-by_name :
    (j : String) (ms : List Modem)
    → has_text j (imeis (by_name ms)) ≡ found (Table.find modem_key j ms)
unfolding by_name has_text Table.find
has_text-by_name j [] = refl
has_text-by_name j (m ∷ ms) = ground (arith, has_text-by_name j ms, has_text-place j m (by_name ms))

-- list_modems shows exactly the modems that get_modem finds.
pub has_text-list_modems :
    (j : String) (s : Store) → has_text j (listed_imeis (list_modems s)) ≡ found (get_modem j s)
unfolding list_modems get_modem
has_text-list_modems j s = rw (listed_imeis-map s (by_name s.modems)) (has_text-by_name j s.modems)

module _ (p : Listed → Bool) (s : Store) where
  has_text-keep-place :
      (j : String) (m : Modem) (ms : List Modem)
      → has_text j (listed_imeis (keep p (map (join_port s) (place m ms)))) ≡ (
          (p (join_port s m) && m.imei == j)
          || has_text j (listed_imeis (keep p (map (join_port s) ms))))
  unfolding has_text place
  has_text-keep-place j m [] = ground arith
  has_text-keep-place j m (x ∷ xs) = ground (arith, has_text-keep-place j m xs)

  has_text-keep-by_name :
      (j : String) (ms : List Modem)
      → Table.Distinct modem_key ms
      → has_text j (listed_imeis (keep p (map (join_port s) (by_name ms))))
        ≡ elim (Table.find modem_key j ms) [ none ↦ false | some m ↦ p (join_port s m) ]
  unfolding has_text by_name Table.find
  has_text-keep-by_name j [] d = refl
  has_text-keep-by_name j (m ∷ ms) d = ground (
    arith,
    has_text-keep-by_name j ms d.1,
    has_text-keep-place j m (by_name ms),
    eq_iff m.imei j,
    d.0,
  )

  -- A filter of list_modems keeps the modems whose own row passes.
  pub has_text-keep-list_modems :
      (j : String)
      → Table.Distinct modem_key s.modems
      → has_text j (listed_imeis (keep p (list_modems s)))
        ≡ elim (get_modem j s) [ none ↦ false | some m ↦ p (join_port s m) ]
  unfolding list_modems get_modem
  has_text-keep-list_modems j d = has_text-keep-by_name j s.modems d
