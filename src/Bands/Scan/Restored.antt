-- ===== src/Bands/Scan/Restored.antt =====
-- A scan ends by putting the modem back.
use modemproxy.Prelude.{ℕ, ◌≡◌, String, true, false, List, [], ◌∷◌, ◌++◌}
use modemproxy.Result.{Result, ok}
use modemproxy.Db.Rows.{Modem, Store}
use modemproxy.Bands.{bands_to_mask}
use modemproxy.Bands.Lock.{Device, Reading, apply_traced, Order, lte_mask}
use modemproxy.Bands.Scan.{Moment, Progress, Scan, try_bands, candidates, original_mask}

-- An order that locks the modem to one band.
abbrev pub IsTest : Order → Type 0
IsTest o =
    (band : ℕ) × (mask : String) × (bands_to_mask (band ∷ []) ≡ ok mask) × (o ≡ lte_mask mask)

-- Where the scan is after the tests: the database, the orders and the results.
abbrev pub tested : Modem → List ℕ → (ℕ → Moment) → ℕ → Reading → Store → Progress
tested m bands at now before t =
    try_bands m at 0 now (candidates bands before.supported_lte)
      (record { db = t; orders = []; results = [] })

-- What the device was told after the bands were tried, `t` being the database before that.
abbrev pub Ends : Modem → Reading → Device → Device → ℕ → Store → Progress → List Order → Type 0
Ends m before last later now t p orders =
    (before.locked ≡ false → orders ≡ p.orders ++ lte_mask (original_mask m before t) ∷ [])
    × (before.locked ≡ true
        → orders ≡ p.orders ++ (apply_traced m before.lte before.nr true last later now p.db).1)
