-- ===== src/Bandwidth/Series.antt =====
-- modemproxy/services/bandwidth.py: series, the buckets of the charts.
use modemproxy.Prelude.{
  ℕ, zero, suc, ◌+◌, ◌-◌, ◌*◌, ◌/◌, max, String, ◌≡◌, sym, ◌∙◌, ap, List, [], ◌∷◌, arith,
  if◌then◌else◌, leb, keep, ◌==◌, ◌&&◌,
}
use modemproxy.Db.Rows.{Sample, Store}
use modemproxy.Bandwidth.Deltas.{
  Traffic, no_traffic, ◌⊕◌, delta_in_range, delta_in_range_split, delta_in_range_empty,
}

-- ORDER BY ts, samples of one second in the order of the table.
place : Sample → List Sample → List Sample
place r [] = r ∷ []
place r (x ∷ xs) = if leb r.ts x.ts then r ∷ x ∷ xs else x ∷ place r xs

unfoldable pub by_time : List Sample → List Sample
unfolding place
by_time [] = []
by_time (r ∷ rs) = place r (by_time rs)

pub record Bucket : Type 0 where
  pub ts : ℕ
  pub traffic : Traffic

-- The buckets from `b0` on, one for each round of `for b in range(buckets)` that is left.
unfoldable pub buckets_from : List Sample → ℕ → ℕ → ℕ → List Bucket
buckets_from rows width b0 zero = []
buckets_from rows width b0 (suc left) =
    record { ts = b0; traffic = delta_in_range rows b0 (b0 + width) }
    ∷ buckets_from rows width (b0 + width) left

pub record Frame : Type 0 where
  pub start : ℕ
  pub width : ℕ

-- Where the chart begins and how wide a bucket is.
unfoldable pub frame : ℕ → ℕ → ℕ → Frame
frame now hours buckets =
    let start = now - hours * 3600 in
    record { start = start; width = max 1 ((now - start) / buckets) }

unfoldable pub rows_since : String → ℕ → Store → List Sample
rows_since imei start s = by_time (keep (λ r. r.imei == imei && leb start r.ts) s.bandwidth)

unfoldable pub series : String → ℕ → ℕ → ℕ → Store → List Bucket
series imei hours buckets now s =
    let f = frame now hours buckets in
    buckets_from (rows_since imei f.start s) f.width f.start buckets

abbrev pub total : List Bucket → Traffic
total [] = no_traffic
total (b ∷ bs) = b.traffic ⊕ total bs

total-buckets_from :
    (rows : List Sample) (width b0 left : ℕ)
    → total (buckets_from rows width b0 left) ≡ delta_in_range rows b0 (b0 + left * width)
unfolding buckets_from
total-buckets_from rows width b0 zero =
    sym (delta_in_range_empty rows b0)
    ∙ ap (delta_in_range rows b0) (let e : b0 ≡ b0 + 0 * width = omega arith in e)
total-buckets_from rows width b0 (suc left) = rw (total-buckets_from rows width (b0 + width) left) (
    sym (
      delta_in_range_split rows b0 (b0 + width) (b0 + width + left * width) (omega arith)
        (omega arith))
    ∙ ap (delta_in_range rows b0) (regroup b0 width left))
  where
    regroup : (a w l : ℕ) → a + w + l * w ≡ a + suc l * w
    regroup a w l = grind arith

-- The buckets of a chart together hold the traffic of the whole chart: nothing falls between two
-- buckets and nothing is in both.
pub total-series :
    (imei : String) (hours buckets now : ℕ) (s : Store)
    → let f = frame now hours buckets in
      total (series imei hours buckets now s)
      ≡ delta_in_range (rows_since imei f.start s) f.start (f.start + buckets * f.width)
unfolding series
total-series imei hours buckets now s =
    let f = frame now hours buckets in
    total-buckets_from (rows_since imei f.start s) f.width f.start buckets
