-- ===== src/Bandwidth/Deltas.antt =====
-- modemproxy/services/bandwidth.py: _delta_in_range.
use modemproxy.Prelude.{
  ℕ, ◌+◌, ◌-◌, ◌≤◌, ◌<◌, ◌≡◌, refl, ◌&&◌, List, [], ◌∷◌, Option, none, some, arith, if◌then◌else◌,
  leb, ltb,
}
use modemproxy.Db.Rows.{Sample}

pub record Traffic : Type 0 where
  pub rx : ℕ
  pub tx : ℕ

abbrev pub no_traffic : Traffic
no_traffic = record { rx = 0; tx = 0 }

infixl 65 ◌⊕◌
abbrev pub ◌⊕◌ : Traffic → Traffic → Traffic
a ⊕ b = record { rx = a.rx + b.rx; tx = a.tx + b.tx }

-- `d = new - old; if d >= 0: total += d`
grow : ℕ → ℕ → ℕ
grow old new = if leb old new then new - old else 0

-- One row of the loop: its deltas count if there is a row before it and its time is in the range.
counted : ℕ → ℕ → Option Sample → Sample → Traffic
counted start stop none r = no_traffic
counted start stop (some p) r =
    if leb start r.ts && ltb r.ts stop
    then record { rx = grow p.rx_bytes r.rx_bytes; tx = grow p.tx_bytes r.tx_bytes }
    else no_traffic

delta_loop : ℕ → ℕ → Traffic → Option Sample → List Sample → Traffic
delta_loop start stop total prev [] = total
delta_loop start stop total prev (r ∷ rs) =
    delta_loop start stop (total ⊕ counted start stop prev r) (some r) rs

unfoldable pub delta_in_range : List Sample → ℕ → ℕ → Traffic
unfolding delta_loop counted grow
delta_in_range rows start stop = delta_loop start stop no_traffic none rows

counted_split :
    (a b c : ℕ) (prev : Option Sample) (r : Sample)
    → a ≤ b
    → b ≤ c
    → counted a c prev r ≡ counted a b prev r ⊕ counted b c prev r
unfolding counted
counted_split a b c none r ab bc = refl
counted_split a b c (some p) r ab bc = ground arith

⊕_interchange : (u v x y : Traffic) → u ⊕ v ⊕ (x ⊕ y) ≡ u ⊕ x ⊕ (v ⊕ y)
⊕_interchange u v x y = ground arith

delta_loop_split :
    (a b c : ℕ) (u v : Traffic) (prev : Option Sample) (rs : List Sample)
    → a ≤ b
    → b ≤ c
    → delta_loop a c (u ⊕ v) prev rs ≡ delta_loop a b u prev rs ⊕ delta_loop b c v prev rs
unfolding delta_loop
delta_loop_split a b c u v prev [] ab bc = refl
delta_loop_split a b c u v prev (r ∷ rs) ab bc =
    rw
      (
        counted_split a b c prev r ab bc,
        ⊕_interchange u v (counted a b prev r) (counted b c prev r),
      )
      (delta_loop_split a b c (u ⊕ counted a b prev r) (v ⊕ counted b c prev r) (some r) rs ab bc)

-- Neighbouring ranges add up: no byte is lost or counted twice between two windows.
pub delta_in_range_split :
    (rows : List Sample) (a b c : ℕ)
    → a ≤ b
    → b ≤ c
    → delta_in_range rows a c ≡ delta_in_range rows a b ⊕ delta_in_range rows b c
unfolding delta_in_range
delta_in_range_split rows a b c ab bc = delta_loop_split a b c no_traffic no_traffic none rows ab bc

counted_empty :
    (a : ℕ) (u : Traffic) (prev : Option Sample) (r : Sample) → u ⊕ counted a a prev r ≡ u
unfolding counted
counted_empty a u none r = ground arith
counted_empty a u (some p) r = ground arith

delta_loop_empty :
    (a : ℕ) (u : Traffic) (prev : Option Sample) (rs : List Sample) → delta_loop a a u prev rs ≡ u
unfolding delta_loop
delta_loop_empty a u prev [] = refl
delta_loop_empty a u prev (r ∷ rs) =
    rw (counted_empty a u prev r) (delta_loop_empty a u (some r) rs)

pub delta_in_range_empty : (rows : List Sample) (a : ℕ) → delta_in_range rows a a ≡ no_traffic
unfolding delta_in_range
delta_in_range_empty rows a = delta_loop_empty a no_traffic none rows

-- The counters never fall along the rows, whose times lie in the range.
abbrev pub Rising : ℕ → ℕ → Sample → List Sample → Type 0
Rising start stop p [] = Unit
Rising start stop p (r ∷ rs) =
    ((start ≤ r.ts) × (r.ts < stop) × (p.rx_bytes ≤ r.rx_bytes) × (p.tx_bytes ≤ r.tx_bytes))
    × Rising start stop r rs

abbrev pub last_row : Sample → List Sample → Sample
last_row p [] = p
last_row p (r ∷ rs) = last_row r rs

counted_rising :
    (start stop : ℕ) (p r : Sample)
    → start ≤ r.ts
    → r.ts < stop
    → p.rx_bytes ≤ r.rx_bytes
    → p.tx_bytes ≤ r.tx_bytes
    → ((counted start stop (some p) r).rx + p.rx_bytes ≡ r.rx_bytes)
      × ((counted start stop (some p) r).tx + p.tx_bytes ≡ r.tx_bytes)
unfolding counted grow
counted_rising start stop p r from before rx tx = (ground arith, ground arith)

Rising-total :
    (start stop : ℕ) (u : Traffic) (p : Sample) (rs : List Sample)
    → Rising start stop p rs
    → ((delta_loop start stop u (some p) rs).rx + p.rx_bytes ≡ u.rx + (last_row p rs).rx_bytes)
      × ((delta_loop start stop u (some p) rs).tx + p.tx_bytes ≡ u.tx + (last_row p rs).tx_bytes)
unfolding delta_loop
Rising-total start stop u p [] h = (refl, refl)
Rising-total start stop u p (r ∷ rs) h =
    let now = counted_rising start stop p r h.0.0 h.0.1 h.0.2 h.0.3 in
    let later = Rising-total start stop (u ⊕ counted start stop (some p) r) r rs h.1 in
    (omega (arith, now.0, later.0), omega (arith, now.1, later.1))

-- Without a counter reset, the traffic of a range that holds all rows but the first is the last
-- counter less the first one.
pub delta_in_range-Rising :
    (start stop : ℕ) (p : Sample) (rs : List Sample)
    → Rising start stop p rs
    → ((delta_in_range (p ∷ rs) start stop).rx ≡ (last_row p rs).rx_bytes - p.rx_bytes)
      × ((delta_in_range (p ∷ rs) start stop).tx ≡ (last_row p rs).tx_bytes - p.tx_bytes)
unfolding delta_in_range
delta_in_range-Rising start stop p rs h =
    let total = Rising-total start stop no_traffic p rs h in omega (arith, total.0, total.1)
