-- ===== src/Manager/Ending.antt =====
-- A rotation by manager.rotate ends with what its deciding attempt answered.
use modemproxy.Prelude.{ℕ, suc, ◌≡◌, ◌∙◌, ap, String, false, none, arith, inl, inr}
use modemproxy.Db.Modems.{get_modem}
use modemproxy.Config.{Config}
use modemproxy.Manager.Attempts.{Decides, Decides-exists, attempt-Decides, Nat-cases}
use modemproxy.Generator.Sync.{System}
use modemproxy.Manager.{
  attempt, Field, rotate, reach, reconnect_once, stops, attempts, too_soon, known_ip,
}
use modemproxy.Manager.Logged.{rotate-Logged, answered}

at_least_one : (cfg : Config) → (left : ℕ) × (attempts cfg ≡ suc left)
unfolding attempts
at_least_one cfg = elim (Nat-cases (attempts cfg)) [
  | inl e ↦ absurd (ground (arith, e))
  | inr found ↦ found
]

-- A rotation that is not too soon always ends: one of its at most `attempts` attempts decides (the
-- first that raises or gives a good address, or else the last one), and the rotation answers what
-- that attempt did: its exception, or its address as the new one.
pub rotate-Decides :
    (field : Field) (imei reason : String) (now : ℕ) (sys : System)
    → too_soon imei now sys ≡ false
    → (n : ℕ) × Decides
        (reconnect_once field imei (get_modem imei sys.db))
        (stops sys.config (known_ip (get_modem imei sys.db)))
        0
        (attempts sys.config)
        n
      × ((rotate field imei reason now sys).value
          ≡ answered imei
              (get_modem imei sys.db)
              (reconnect_once field imei (get_modem imei sys.db) n))
unfolding reach
rotate-Decides field imei reason now sys h =
    let old = get_modem imei sys.db in
    let (left, e) = at_least_one sys.config in
    let (n, d) =
      Decides-exists (reconnect_once field imei old) (stops sys.config (known_ip old)) left 0 in
    (
      n,
      rw e d,
      (rotate-Logged field imei reason now sys h).value_is
          ∙ ap (answered imei old) (
              ap
                (λ a.
                  attempt (reconnect_once field imei old) (stops sys.config (known_ip old)) 0 a
                    none)
                e
              ∙ attempt-Decides (reconnect_once field imei old) (stops sys.config (known_ip old)) n
                  0 (suc left) none d
              ∙ ap (reconnect_once field imei old) (omega arith)),
    )
