-- ===== src/Manager/Interval.antt =====
-- The minimum interval between two rotations by manager.rotate.
use modemproxy.Prelude.{
  ℕ, ◌+◌, ◌<◌, ◌≡◌, refl, ◌∙◌, ap, String, true, false, List, [], ◌∷◌, ◌++◌, Option, arith, inl,
  inr, Bool-cases, ◌≤◌, sym,
}
use modemproxy.Result.{Result, ok, err}
use modemproxy.Db.Rows.{Modem, Rotation}
use modemproxy.Db.Modems.{get_modem}
use modemproxy.Db.Rotation.{rotation_log-newest}
use modemproxy.Generator.Sync.{System}
use modemproxy.Manager.{Field, Rotated, RotateOutcome, rotate, too_soon}
use modemproxy.Manager.Logged.{
  Logged, rotate-Logged, rotate_skip, row, rows_of, skipped_now, answered,
}

too_soon-row :
    (imei : String) (now later : ℕ) (sys : System) (rs : List Rotation) (r : Rotation)
    → sys.db.rotation_log ≡ rs ++ r ∷ []
    → r.imei ≡ imei
    → r.ts ≡ now
    → 0 < now
    → now ≤ later
    → later < now + sys.config.rotation_min_interval
    → too_soon imei later sys ≡ true
unfolding too_soon
too_soon-row imei now later sys rs r h same at pos after soon =
    let (x, e, newer) = rotation_log-newest sys.db rs r h (omega (arith, at, pos)) in
    rw (sym same, e) (ground (arith, newer, at, soon, after))

Logged-soon :
    (imei reason : String) (now later : ℕ) (sys : System) (o : RotateOutcome) (v : Result Rotated)
    (r : Rotated)
    → Logged imei reason now sys o v
    → v ≡ ok r
    → r.imei ≡ imei
    → r.skipped ≡ false
    → 0 < now
    → now ≤ later
    → later < now + sys.config.rotation_min_interval
    → too_soon imei later o.sys ≡ true
Logged-soon imei reason now later sys o v r l e same fresh pos after soon =
    too_soon-row imei now later o.sys sys.db.rotation_log (row r.imei r.old_ip r.new_ip reason now)
      (l.log_is ∙ ap (λ w. sys.db.rotation_log ++ rows_of reason now w) e ∙ rw fresh refl) same refl
      pos after (rw (l.config_is) soon)

answered_imei :
    (imei : String) (old : Option Modem) (a : Result (Option String)) (r : Rotated)
    → answered imei old a ≡ ok r
    → r.imei ≡ imei
answered_imei imei old (err e) r h = absurd (cc h)
answered_imei imei old (ok ip) r h = ground (arith, h)

-- Whatever a rotation that reached an answer did, another one of the same modem within the minimum
-- interval is skipped and changes nothing at all.
pub rotate-rotate :
    (field field' : Field) (imei reason reason' : String) (now later : ℕ) (sys : System)
    (r : Rotated)
    → (rotate field imei reason now sys).value ≡ ok r
    → r.skipped ≡ false
    → 0 < now
    → now ≤ later
    → later < now + sys.config.rotation_min_interval
    → rotate field' imei reason' later (rotate field imei reason now sys).sys
      ≡ skipped_now imei (rotate field imei reason now sys).sys
rotate-rotate field field' imei reason reason' now later sys r e fresh pos after soon =
    rotate_skip field' imei reason' later (rotate field imei reason now sys).sys
      (elim (Bool-cases (too_soon imei now sys)) [
        | inl h ↦
            absurd (
              ground (arith, e, fresh, ap (λ o. o.value) (rotate_skip field imei reason now sys h)))
        | inr h ↦
            let l = rotate-Logged field imei reason now sys h in
            let v = sym l.value_is ∙ e in
            Logged-soon imei reason now later sys (rotate field imei reason now sys) _ r l v
              (answered_imei imei (get_modem imei sys.db) _ r v) fresh pos after soon
      ])
