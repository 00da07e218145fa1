-- ===== src/Bandwidth/Report.antt =====
-- modemproxy/services/bandwidth.py: report, the usage windows.
use modemproxy.Prelude.{
  ℕ, ◌-◌, ◌≤◌, String, ◌≡◌, refl, ap, List, [], ◌∷◌, Option, none, some, arith, if◌then◌else◌, keep,
  ◌==◌, has_text, nonempty,
}
use modemproxy.Db.Rows.{Sample, Store}
use modemproxy.Bandwidth.Deltas.{Traffic, no_traffic, ◌⊕◌, delta_in_range, delta_in_range_split}
use modemproxy.Bandwidth.Series.{by_time}

-- The instants that `report` computes with datetime from today's date.
pub record Windows : Type 0 where
  pub midnight : ℕ
  pub month_start : ℕ
  pub prev_month_start : ℕ

pub record Usage : Type 0 where
  pub day : Traffic
  pub yesterday : Traffic
  pub month : Traffic
  pub prevmonth : Traffic
  pub lifetime : Traffic

unfoldable pub rows_of : String → List Sample → List Sample
rows_of imei samples = by_time (keep (λ r. r.imei == imei) samples)

-- The imeis that have samples, each once, the keys of `by_modem`; here as they first appear.
sampled : List String → List Sample → List String
sampled seen [] = []
sampled seen (r ∷ rs) =
    let skip = sampled seen rs in
    let add = sampled (r.imei ∷ seen) rs in if has_text r.imei seen then skip else r.imei ∷ add

rows_of_all : List String → List Sample → List (List Sample)
rows_of_all [] samples = []
rows_of_all (i ∷ is) samples = rows_of i samples ∷ rows_of_all is samples

-- The rows of one modem, or of each modem that has some.
unfoldable pub by_modem : Option String → Store → List (List Sample)
unfolding sampled rows_of rows_of_all
by_modem none s = rows_of_all (sampled [] s.bandwidth) s.bandwidth
by_modem (some imei) s =
    if nonempty imei
    then rows_of imei s.bandwidth ∷ []
    else rows_of_all (sampled [] s.bandwidth) s.bandwidth

unfoldable pub agg : List (List Sample) → ℕ → ℕ → Traffic
agg [] start stop = no_traffic
agg (rows ∷ rest) start stop = delta_in_range rows start stop ⊕ agg rest start stop

unfoldable pub report : Option String → Windows → ℕ → Store → Usage
report imei w now s =
    let rows = by_modem imei s in
    record {
      day = agg rows w.midnight now;
      yesterday = agg rows (w.midnight - 86400) w.midnight;
      month = agg rows w.month_start now;
      prevmonth = agg rows w.prev_month_start w.month_start;
      lifetime = agg rows 0 now;
    }

agg_split :
    (rows : List (List Sample)) (a b c : ℕ)
    → a ≤ b
    → b ≤ c
    → agg rows a c ≡ agg rows a b ⊕ agg rows b c
unfolding agg
agg_split [] a b c ab bc = refl
agg_split (r ∷ rs) a b c ab bc =
    ground (arith, delta_in_range_split r a b c ab bc, agg_split rs a b c ab bc)

-- The dates of one calendar, up to now.
pub record InOrder (w : Windows) (now : ℕ) : Type 0 where
  pub prev_month : w.prev_month_start ≤ w.month_start
  pub month : w.month_start ≤ w.midnight
  pub day : w.midnight ≤ now

abbrev pub Within : Traffic → Traffic → Type 0
Within a b = (a.rx ≤ b.rx) × (a.tx ≤ b.tx)

-- Today is part of this month, and last month and this month are disjoint parts of the lifetime.
pub report_windows :
    (imei : Option String) (w : Windows) (now : ℕ) (s : Store)
    → InOrder w now
    → let u = report imei w now s in
      Within u.day u.month × Within (u.prevmonth ⊕ u.month) u.lifetime
unfolding report
report_windows imei w now s order =
    let rows = by_modem imei s in
    let m = agg_split rows w.month_start w.midnight now order.month order.day in
    let p = agg_split rows w.prev_month_start w.month_start now order.prev_month (omega arith) in
    let l = agg_split rows 0 w.prev_month_start now (omega arith) (omega arith) in
    let rx = λ (t : Traffic). t.rx in
    let tx = λ (t : Traffic). t.tx in
    (
      (omega (arith, ap rx m), omega (arith, ap tx m)),
      (omega (arith, ap rx p, ap rx l), omega (arith, ap tx p, ap tx l)),
    )
