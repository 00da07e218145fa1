-- ===== src/Web/Scans.antt =====
-- modemproxy/web/app.py: api_bands_scan and the threads that it starts. The test of a request, the start
-- of its thread and the end of a thread are steps of their own, since the server runs several requests
-- at once.
pub mod Solo
use modemproxy.Prelude.{
  ℕ, suc, ◌-◌, String, Bool, true, false, List, [], ◌∷◌, Option, none, some, if◌then◌else◌, ◌==◌,
  ◌≡◌, has_text,
}
use modemproxy.Text.{◌<>◌}
use modemproxy.Text.Cut.{dict_set, dict_get}
use modemproxy.Result.{Result, ok, err, Error, http_error}
use modemproxy.Db.Rows.{Modem, Store}
use modemproxy.Db.Modems.{get_modem}
use modemproxy.Manager.{error_text}

-- _band_scans, the modem of each request that passed the test and has not yet started its thread, and
-- the modem of each thread that runs.
pub record Scans : Type 0 where
  pub statuses : List (String × String)
  pub asking : List String
  pub threads : List String

abbrev pub no_scans : Scans
no_scans = record { statuses = []; asking = []; threads = [] }

unfoldable pub status_of : String → Scans → String
status_of imei s = elim (dict_get imei s.statuses) [ none ↦ "" | some t ↦ t ]

set_status : String → String → Scans → Scans
set_status imei text s = record s { statuses = dict_set imei text s.statuses }

start_thread : String → Scans → Scans
unfolding set_status
start_thread imei s = record (set_status imei "running" s) { threads = imei ∷ s.threads }

-- A request that found no scan running.
go_on : String → Scans → Scans
go_on imei s = record s { asking = imei ∷ s.asking }

-- The handler up to the start of its thread.
unfoldable pub api_bands_scan : String → Store → Scans → Result String × Scans
unfolding go_on status_of
api_bands_scan imei db s = elim (get_modem imei db) [
  | none ↦ (err (http_error 404 "not found"), s)
  | some m ↦
      if status_of imei s == "running" then (ok "running", s) else (ok "running", go_on imei s)
]

-- The text that a thread leaves.
outcome_text : Option Error → String
outcome_text none = "done"
outcome_text (some e) = "error: " <> error_text e

unfoldable pub remove_one : String → List String → List String
remove_one imei [] = []
remove_one imei (t ∷ ts) = let rest = remove_one imei ts in if t == imei then ts else t ∷ rest

-- `_run` comes to its end.
unfoldable pub end_scan : String → Option Error → Scans → Scans
unfolding outcome_text set_status
end_scan imei failure s = record (set_status imei (outcome_text failure) s) {
  threads = remove_one imei s.threads;
}

-- The rest of the handler: the status and the thread.
unfoldable pub begin_scan : String → Scans → Scans
unfolding start_thread remove_one
begin_scan imei s = start_thread imei (record s { asking = remove_one imei s.asking })

pub data ScanStep : Scans → Scans → Type 0 where
  asked : (imei : String) (db : Store) (s : Scans) → ScanStep s (api_bands_scan imei db s).1
  began :
      (imei : String) (s : Scans) → has_text imei s.asking ≡ true → ScanStep s (begin_scan imei s)
  over :
      (imei : String) (failure : Option Error) (s : Scans)
      → has_text imei s.threads ≡ true
      → ScanStep s (end_scan imei failure s)

pub data ScanReach (s : Scans) : Scans → Type 0 where
  here : ScanReach s s
  next : {t u : Scans} → ScanReach s t → ScanStep t u → ScanReach s u
