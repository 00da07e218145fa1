-- ===== src/Bands/Scan.antt =====
-- modemproxy/modems/bands.py: scan, which tries each band and then puts the modem back.
pub mod Restored
use modemproxy.Prelude.{
  ℕ, zero, suc, ◌-◌, ◌≡◌, refl, String, Bool, true, false, not, ◌&&◌, ◌||◌, List, [], ◌∷◌, ◌++◌,
  Option, none, some, if◌then◌else◌, ltb, nonempty, nonzero, truthy_text, or_text, has_nat, keep,
  map,
}
use modemproxy.Text.{◌<>◌, decimal}
use modemproxy.Text.Cut.{join}
use modemproxy.Text.Number.{Num, num, add_twice, num_le}
use modemproxy.Result.{Result, ok, err, Error}
use modemproxy.Db.Rows.{Modem, LockState, Store}
use modemproxy.Db.Modems.{ModemField, upsert_modem}
use modemproxy.Manager.{error_text}
use modemproxy.Bands.{bands_to_mask}
use modemproxy.Bands.Lock.{
  Device, Reading, Answer, has_bands, read, apply_traced, Order, lte_mask, nr_bands, saved_lock,
  accepted, refused,
}

-- The modem while one band is tried: the device before and after the change, and when it is sampled;
-- then the signal values of the status query, "" where it lacks one.
pub record Moment : Type 0 where
  pub dev : Device
  pub later : Device
  pub settled : Device
  pub lte_rsrp : String
  pub lte_rsrq : String
  pub lte_snr : String
  pub z5g_rsrp : String
  pub z5g_sinr : String

pub record BandSample : Type 0 where
  pub band : ℕ
  pub network_type : String
  pub rsrp : Option Num
  pub rsrq : Option Num
  pub sinr : Option Num
  pub nr_rsrp : Option Num
  pub nr_sinr : Option Num
  pub ip : Option String
  pub score : Num

pub data Tried : Type 0 where
  failed : (band : ℕ) (why : String) → Tried
  sampled : BandSample → Tried

abbrev minus : ℕ → Num
minus n = record { negative = true; units = n; places = 0 }

num_or_zero : Option Num → Num
num_or_zero none = record { negative = false; units = 0; places = 0 }
num_or_zero (some n) = n

-- _score, with exact decimals
unfoldable pub score : Bool → Option Num → Option Num → Num
unfolding num_or_zero
score false rsrp sinr = minus 1000000
score true none sinr = minus 100000
score true (some rsrp) sinr = add_twice rsrp (num_or_zero sinr)

-- _sample, with the band and the score that `scan` puts in
unfoldable pub sample_band : Modem → Moment → ℕ → BandSample
sample_band m at band =
    let ip = if truthy_text m.iface then at.settled.public_ip else none in
    record {
      band = band;
      network_type = at.settled.network_type;
      rsrp = num at.lte_rsrp;
      rsrq = num at.lte_rsrq;
      sinr = num at.lte_snr;
      nr_rsrp = num at.z5g_rsrp;
      nr_sinr = num at.z5g_sinr;
      ip = ip;
      score = score (truthy_text ip) (num at.lte_rsrp) (num at.lte_snr);
    }

-- The database, what the device was told so far, and the results.
pub record Progress : Type 0 where
  pub db : Store
  pub orders : List Order
  pub results : List Tried

tried : Modem → Moment → ℕ → Result Reading → Tried
unfolding sample_band
tried m at band (err e) = failed band (error_text e)
tried m at band (ok r) = sampled (sample_band m at band)

unfoldable pub try_band : Modem → Moment → ℕ → ℕ → Progress → Progress
unfolding tried
try_band m at now band p =
    let ((answer, db), told) = apply_traced m (band ∷ []) [] false at.dev at.later now p.db in
    record {
      db = db;
      orders = p.orders ++ told;
      results = p.results ++ tried m at band answer ∷ [];
    }

-- `at` gives the modem while the band of that place is tried.
unfoldable pub try_bands : Modem → (ℕ → Moment) → ℕ → ℕ → List ℕ → Progress → Progress
unfolding try_band
try_bands m at i now [] p = p
try_bands m at i now (b ∷ bs) p = try_bands m at (suc i) now bs (try_band m (at i) now b p)

first_bands : ℕ → List ℕ → List ℕ
first_bands zero bs = []
first_bands (suc n) [] = []
first_bands (suc n) (b ∷ bs) = b ∷ first_bands n bs

abbrev common_bands : List ℕ
common_bands = 1 ∷ 3 ∷ 7 ∷ 8 ∷ 20 ∷ 28 ∷ 32 ∷ 38 ∷ 40 ∷ 42 ∷ []

-- `a or b`, of lists
or_list : List ℕ → List ℕ → List ℕ
or_list [] bs = bs
or_list (a ∷ as') bs = a ∷ as'

unfoldable pub candidates : List ℕ → List ℕ → List ℕ
unfolding first_bands or_list
candidates [] supported =
    or_list (keep (λ b. has_nat b supported) common_bands) (first_bands 10 supported)
candidates (b ∷ bs) supported = b ∷ bs

-- _set_mask, on the device at the end; its result and its order
put_mask : Device → String → Result Bool × List Order
unfolding accepted
put_mask dev mask = (
  if accepted (dev.set_lte mask)
      then ok true
      else err (refused ("il modem ha rifiutato la maschera " <> mask <> ": ") (dev.set_lte mask)),
  lte_mask mask ∷ [],
)

abbrev done_or_err : {A : Type 0} → Result A → Result Bool
done_or_err (ok a) = ok true
done_or_err (err e) = err e

-- The `finally` clause: whether it raises, the database, and what it tells the device.
unfoldable pub restore :
    Modem → Reading → String → Device → Device → ℕ → Store → Result Bool × Store × List Order
unfolding put_mask
restore m before original dev later now s =
    let again = apply_traced m before.lte before.nr true dev later now s in
    let put = put_mask dev original in
    if before.locked then (done_or_err again.0.0, again.0.1, again.1) else (put.0, s, put.1)

score_of : Tried → Num
score_of (failed band why) = minus 1000000
score_of (sampled s) = s.score

insert_ranked : Tried → List Tried → List Tried
unfolding score_of
insert_ranked x [] = x ∷ []
insert_ranked x (y ∷ ys) =
    let rest = insert_ranked x ys in
    if num_le (score_of y) (score_of x) then x ∷ y ∷ ys else y ∷ rest

-- `sorted(results, key=…, reverse=True)`, which keeps the order of equal scores
unfoldable pub ranked : List Tried → List Tried
unfolding insert_ranked
ranked [] = []
ranked (x ∷ xs) = insert_ranked x (ranked xs)

best_of : List Tried → Option ℕ
best_of (sampled s ∷ rest) = if truthy_text s.ip then some s.band else none
best_of rest = none

pub record Scan : Type 0 where
  pub imei : String
  pub ts : ℕ
  pub results : List Tried
  pub best : Option ℕ

pub record ScanOutcome : Type 0 where
  pub value : Result Scan
  pub db : Store
  pub orders : List Order

scan_report : String → ℕ → List Tried → Scan
unfolding best_of
scan_report imei now results = record {
  imei = imei;
  ts = now;
  results = ranked results;
  best = best_of (ranked results);
}

-- The end of `scan`; `dumps` is json.dumps.
finished : (Scan → String) → String → ℕ → Progress → Result Bool × Store × List Order → ScanOutcome
unfolding scan_report
finished dumps imei now p (ok u, db, orders) = record {
  value = ok (scan_report imei now p.results);
  db =
      upsert_modem imei (ModemField.band_scan (some (dumps (scan_report imei now p.results))) ∷ [])
        now db;
  orders = p.orders ++ orders;
}
finished dumps imei now p (err e, db, orders) = record {
  value = err e;
  db = db;
  orders = p.orders ++ orders;
}

-- The mask that the scan puts back.
unfoldable pub original_mask : Modem → Reading → Store → String
original_mask m before s = or_text (saved_lock m.imei s).default_mask before.mask

scan_from :
    (Scan → String)
    → Modem
    → List ℕ
    → (ℕ → Moment)
    → Device
    → Device
    → ℕ
    → Reading
    → Store
    → ScanOutcome
unfolding finished
scan_from dumps m bands at last later now before s =
    let p =
      try_bands m at 0 now (candidates bands before.supported_lte)
        (record { db = s; orders = []; results = [] }) in
    finished dumps m.imei now p (restore m before (original_mask m before s) last later now p.db)

scan_after :
    (Scan → String)
    → Modem
    → List ℕ
    → (ℕ → Moment)
    → Device
    → Device
    → ℕ
    → Answer Reading
    → ScanOutcome
unfolding scan_from
scan_after dumps m bands at last later now (err e, t) = record {
  value = err e;
  db = t;
  orders = [];
}
scan_after dumps m bands at last later now (ok before, t) =
    scan_from dumps m bands at last later now before t

-- `first` is the device as the scan begins, `last` and `later` before and after it is put back.
unfoldable pub scan :
    (Scan → String)
    → Modem
    → List ℕ
    → Device
    → (ℕ → Moment)
    → Device
    → Device
    → ℕ
    → Store
    → ScanOutcome
unfolding scan_after
scan dumps m bands first at last later now s =
    scan_after dumps m bands at last later now (read m first now s)
