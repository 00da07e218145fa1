-- ===== src/Db/Modems.antt =====
-- modemproxy/db.py: upsert_modem and get_modem.
use mathlib.Core.List.{foldl}
use modemproxy.Prelude.{
  ℤ, ℕ, String, ◌≡◌, refl, ◌∙◌, List, [], ◌∷◌, Option, none, some, arith, eq_iff, ◌==◌,
  if◌then◌else◌,
}
use modemproxy.Table
use modemproxy.Db.Rows.{Modem, LockState, Store, blank_modem}

-- The keyword arguments of upsert_modem; an argument that is `None` is dropped.
pub data ModemField : Type 0 where
  name kind iface mm_path bind_ip mgmt_host model operator ip radio band_scan geo status :
      Option String → ModemField
  signal : Option ℤ → ModemField
  rt_table manual last_seen reboot_score score_window_start : Option ℕ → ModemField
  band_lock : Option LockState → ModemField

-- `fields = {k: v for k, v in fields.items() if v is not None}`, then one column set to its value.
set_column : Modem → ModemField → Modem
set_column m (name (some v)) = record m { name = some v }
set_column m (kind (some v)) = record m { kind = some v }
set_column m (iface (some v)) = record m { iface = some v }
set_column m (mm_path (some v)) = record m { mm_path = some v }
set_column m (bind_ip (some v)) = record m { bind_ip = some v }
set_column m (mgmt_host (some v)) = record m { mgmt_host = some v }
set_column m (model (some v)) = record m { model = some v }
set_column m (operator (some v)) = record m { operator = some v }
set_column m (ip (some v)) = record m { ip = some v }
set_column m (radio (some v)) = record m { radio = some v }
set_column m (band_scan (some v)) = record m { band_scan = some v }
set_column m (geo (some v)) = record m { geo = some v }
set_column m (status (some v)) = record m { status = v }
set_column m (rt_table (some v)) = record m { rt_table = some v }
set_column m (manual (some v)) = record m { manual = v }
set_column m (signal (some v)) = record m { signal = some v }
set_column m (last_seen (some v)) = record m { last_seen = some v }
set_column m (reboot_score (some v)) = record m { reboot_score = v }
set_column m (score_window_start (some v)) = record m { score_window_start = some v }
set_column m (band_lock (some v)) = record m { band_lock = some v }
set_column m f = m

unfoldable pub set_columns : Modem → List ModemField → Modem
unfolding set_column
set_columns = foldl set_column

abbrev pub modem_key : Modem → String
modem_key m = m.imei

-- The columns never include the primary key.
set_column_imei : (m : Modem) (f : ModemField) → (set_column m f).imei ≡ m.imei
unfolding set_column
set_column_imei m f = ground arith

pub set_columns_imei : (fs : List ModemField) (m : Modem) → (set_columns m fs).imei ≡ m.imei
unfolding set_columns
set_columns_imei [] m = refl
set_columns_imei (f ∷ fs) m = set_columns_imei fs (set_column m f) ∙ set_column_imei m f

unfoldable pub get_modem : String → Store → Option Modem
get_modem imei s = Table.find modem_key imei s.modems

unfoldable pub upsert_modem : String → List ModemField → ℕ → Store → Store
unfolding get_modem
upsert_modem imei fields now s = elim (get_modem imei s) [
  | some _ ↦ record s { modems = Table.update modem_key imei (λ m. set_columns m fields) s.modems }
  | none ↦ record s {
    modems = Table.insert modem_key (set_columns (blank_modem imei now) fields) s.modems;
  }
]

-- What upsert_modem writes: the columns over the old row, or over the defaults of a new one.
abbrev pub upserted : String → List ModemField → ℕ → Option Modem → Option Modem
upserted imei fields now (some m) = some (set_columns m fields)
upserted imei fields now none = some (set_columns (blank_modem imei now) fields)

-- Reading back what upsert_modem wrote; every other modem reads as before.
pub get_modem-upsert_modem :
    (imei j : String) (fields : List ModemField) (now : ℕ) (s : Store)
    → get_modem j (upsert_modem imei fields now s)
      ≡ (if imei == j then upserted imei fields now (get_modem imei s) else get_modem j s)
unfolding upsert_modem
get_modem-upsert_modem imei j fields now s = ground (
  arith,
  eq_iff imei j,
  Table.find-update modem_key imei j (λ m. set_columns m fields) s.modems (set_columns_imei fields),
  Table.find-insert modem_key j (set_columns (blank_modem imei now) fields) s.modems,
  set_columns_imei fields (blank_modem imei now),
)

pub upsert_modem_log :
    (imei : String) (fields : List ModemField) (now : ℕ) (s : Store)
    → (upsert_modem imei fields now s).rotation_log ≡ s.rotation_log
unfolding upsert_modem
upsert_modem_log imei fields now s = ground arith
