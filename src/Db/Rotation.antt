-- ===== src/Db/Rotation.antt =====
-- modemproxy/db.py: log_rotation, rotation_log and due_for_rotation.
use modemproxy.Prelude.{
  ℕ, ◌≤◌, ◌<◌, Bool-cases, str_refl, false, zero, suc, ◌-◌, max, String, ◌≡◌, refl, Bool, true,
  false, ◌&&◌, List, [], ◌∷◌, ◌++◌, Option, none, some, arith, eq_iff, ◌==◌, if◌then◌else◌, leb,
  ltb, eqb, keep, nonempty, has_text, inl, inr, ap,
}
use modemproxy.Result.{Result, ok, err, integrity_error}
use modemproxy.Table
use modemproxy.Db.Rows.{Modem, Port, Rotation, Store}
use modemproxy.Db.Modems.{get_modem}
use modemproxy.Db.Ports.{port_key, get_port}

unfoldable pub log_rotation :
    String → Option String → Option String → String → ℕ → Store → Result Store
log_rotation imei old_ip new_ip reason now s = elim (get_modem imei s) [
  | none ↦ err integrity_error
  | some _ ↦ ok (record s {
    rotation_log =
        s.rotation_log
        ++ record { imei = imei; old_ip = old_ip; new_ip = new_ip; reason = reason; ts = now } ∷ [];
  })
]

-- ORDER BY ts DESC, rows of one second in the order of the table.
place : Rotation → List Rotation → List Rotation
place r [] = r ∷ []
place r (x ∷ xs) = if leb x.ts r.ts then r ∷ x ∷ xs else x ∷ place r xs

by_time : List Rotation → List Rotation
by_time [] = []
by_time (r ∷ rs) = place r (by_time rs)

take : ℕ → List Rotation → List Rotation
take zero rs = []
take (suc n) [] = []
take (suc n) (r ∷ rs) = r ∷ take n rs

unfoldable pub rotation_log : Option String → ℕ → Store → List Rotation
unfolding by_time place take
rotation_log none limit s = take limit (by_time s.rotation_log)
rotation_log (some imei) limit s =
    take limit (
      by_time (if nonempty imei then keep (λ r. r.imei == imei) s.rotation_log else s.rotation_log))

-- SELECT MAX(ts) … WHERE r.imei = p.imei, with `or 0` for a modem that never rotated.
later : ℕ → ℕ → ℕ
later a b = if leb a b then b else a

last_ts : String → List Rotation → ℕ
last_ts imei [] = 0
last_ts imei (r ∷ rs) = if r.imei == imei then later r.ts (last_ts imei rs) else last_ts imei rs

is_online : Option Modem → Bool
is_online none = false
is_online (some m) = m.status == "online"

-- The WHERE clause, and the test of the loop on the rows that it returns.
is_due : ℕ → Store → Port → Bool
is_due t s p =
    eqb p.enabled 1
    && ltb 0 p.rotation_interval
    && is_online (get_modem p.imei s)
    && leb p.rotation_interval (t - last_ts p.imei s.rotation_log)

due_of : ℕ → Store → List Port → List String
due_of t s [] = []
due_of t s (p ∷ ps) = if is_due t s p then p.imei ∷ due_of t s ps else due_of t s ps

unfoldable pub due_for_rotation : ℕ → Store → List String
unfolding due_of is_due is_online last_ts later
due_for_rotation t s = due_of t s s.ports

later_left_comm : (a b c : ℕ) → later a (later b c) ≡ later b (later a c)
unfolding later
later_left_comm a b c = ground arith

later_lem : (a b : ℕ) → (later a b ≡ max a b)
unfolding later
later_lem a b = ground arith

last_ts-append :
    (imei : String) (rs : List Rotation) (r : Rotation)
    → last_ts imei (rs ++ r ∷ [])
      ≡ (if r.imei == imei then later r.ts (last_ts imei rs) else last_ts imei rs)
unfolding last_ts
last_ts-append imei [] r = refl
last_ts-append imei (x ∷ rs) r =
    ground (arith, last_ts-append imei rs r, later_left_comm x.ts r.ts (last_ts imei rs))

-- The due modems are those whose own port row is due.
due_of-is_due :
    (imei : String) (t : ℕ) (s : Store) (ps : List Port)
    → Table.Distinct port_key ps
    → has_text imei (due_of t s ps)
      ≡ elim (Table.find port_key imei ps) [ none ↦ false | some p ↦ is_due t s p ]
unfolding due_of has_text Table.find
due_of-is_due imei t s [] d = refl
due_of-is_due imei t s (p ∷ ps) d =
    ground (arith, due_of-is_due imei t s ps d.1, eq_iff p.imei imei, d.0)

-- After a rotation was logged, one port's row is due if the interval has passed since then too; the
-- other ports are due as before.
is_due-log_rotation :
    (imei reason : String) (old_ip new_ip : Option String) (now t : ℕ) (s u : Store) (p : Port)
    → log_rotation imei old_ip new_ip reason now s ≡ ok u
    → is_due t u p
      ≡ (is_due t s p && (if p.imei == imei then leb p.rotation_interval (t - now) else true))
unfolding log_rotation is_due get_modem
is_due-log_rotation imei reason old_ip new_ip now t s u p h = ground (
  arith,
  eq_iff p.imei imei,
  eq_iff imei p.imei,
  last_ts-append p.imei s.rotation_log
      (record { imei = imei; old_ip = old_ip; new_ip = new_ip; reason = reason; ts = now }),
  later_lem now (last_ts p.imei s.rotation_log),
)

-- Whether the interval of a port has passed since `now`.
abbrev pub interval_passed : ℕ → ℕ → Option Port → Bool
interval_passed now t none = true
interval_passed now t (some p) = leb p.rotation_interval (t - now)

log_rotation_ports :
    (imei reason : String) (old_ip new_ip : Option String) (now : ℕ) (s u : Store)
    → log_rotation imei old_ip new_ip reason now s ≡ ok u
    → u.ports ≡ s.ports
unfolding log_rotation
log_rotation_ports imei reason old_ip new_ip now s u h = ground arith

-- A rotation that was logged at `now` keeps its modem out of due_for_rotation until the port's
-- interval has passed since `now`, and changes nothing for the other modems.
pub due_for_rotation-log_rotation :
    (imei reason j : String) (old_ip new_ip : Option String) (now t : ℕ) (s u : Store)
    → Table.Distinct port_key s.ports
    → log_rotation imei old_ip new_ip reason now s ≡ ok u
    → has_text j (due_for_rotation t u) ≡ (
        has_text j (due_for_rotation t s)
        && (if j == imei then interval_passed now t (get_port j s) else true))
unfolding due_for_rotation get_port
due_for_rotation-log_rotation imei reason j old_ip new_ip now t s u d h =
    rw
      (
        ap (due_of t u) (log_rotation_ports imei reason old_ip new_ip now s u h),
        due_of-is_due j t u s.ports d,
        due_of-is_due j t s s.ports d,
      )
      (elim (Table.find_cases port_key j s.ports) [
        | inl e ↦ rw e
        | inr (p, e, k) ↦ rw e (
            ground (
              arith,
              is_due-log_rotation imei reason old_ip new_ip now t s u p h,
              eq_iff j imei,
              eq_iff p.imei imei,
            ))
      ])

newest : List Rotation → ℕ
newest [] = 0
newest (r ∷ rs) = r.ts

newest-place : (r : Rotation) (rs : List Rotation) → newest (place r rs) ≡ max r.ts (newest rs)
unfolding newest place
newest-place r [] = ground arith
newest-place r (x ∷ rs) = ground arith

newest-by_time : (rs : List Rotation) (r : Rotation) → r.ts ≤ newest (by_time (rs ++ r ∷ []))
unfolding by_time newest place
newest-by_time [] r = omega arith
newest-by_time (x ∷ rs) r =
    omega (arith, newest-by_time rs r, newest-place x (by_time (rs ++ r ∷ [])))

first_of :
    (rs : List Rotation) (t : ℕ)
    → t ≤ newest rs
    → 0 < t
    → (x : Rotation) × (take 1 rs ≡ x ∷ []) × (t ≤ x.ts)
unfolding newest take
first_of [] t h pos = absurd (omega (arith, h, pos))
first_of (x ∷ rs) t h pos = (x, refl, h)

keep-append :
    (p : Rotation → Bool) (rs : List Rotation) (r : Rotation)
    → p r ≡ true
    → keep p (rs ++ r ∷ []) ≡ keep p rs ++ r ∷ []
keep-append p [] r h = rw h refl
keep-append p (x ∷ rs) r h = ground (arith, keep-append p rs r h)

-- Once a modem's rotation was logged, the first row of its log is as new.
pub rotation_log-newest :
    (s : Store) (rs : List Rotation) (r : Rotation)
    → s.rotation_log ≡ rs ++ r ∷ []
    → 0 < r.ts
    → (x : Rotation) × (rotation_log (some r.imei) 1 s ≡ x ∷ []) × (r.ts ≤ x.ts)
unfolding rotation_log
rotation_log-newest s rs r h pos = elim (Bool-cases (nonempty r.imei)) [
  | inl e ↦
      rw (e, h, keep-append (λ x. x.imei == r.imei) rs r (str_refl r.imei))
        (first_of _ r.ts (newest-by_time (keep (λ x. x.imei == r.imei) rs) r) pos)
  | inr e ↦ rw (e, h) (first_of _ r.ts (newest-by_time rs r) pos)
]
