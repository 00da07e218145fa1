-- ===== src/Services/Quota/Enforced.antt =====
-- modemproxy/services/quota.py: what `check` leaves.
use modemproxy.Prelude.{ℕ, ◌≤◌, ◌<◌, String, ◌≡◌, ◌⊎◌, some, arith}
use modemproxy.Db.Rows.{Port}
use modemproxy.Db.Ports.{get_port}
use modemproxy.Bandwidth.Report.{Windows}
use modemproxy.Generator.Ports.{Secrets}
use modemproxy.Generator.Sync.{Host, System}
use modemproxy.Generator.Proxy.Frame.{Frame}
use modemproxy.Services.Rounds.{no_action}
use modemproxy.Services.Quota.{port_usage, enforce}

-- A row with a quota after its round: stopped or locked where the quota is used up, and not locked
-- where it is not.
pub record WithinQuota (used : ℕ) (p : Port) : Type 0 where
  pub over : 0 < p.quota_bytes → p.quota_bytes ≤ used → (p.enabled ≡ 0) ⊎ (0 < p.quota_locked)
  pub under : 0 < p.quota_bytes → used < p.quota_bytes → p.quota_locked ≡ 0

pub record Enforced (w : Windows) (now : ℕ) (imei : String) (sys : System) : Type 0 where
  pub row :
      (p : Port) → get_port imei sys.db ≡ some p → WithinQuota (port_usage w now imei p sys.db) p

-- A proxy that its quota has locked is stopped.
pub record LockedStopped (imei : String) (sys : System) : Type 0 where
  pub row : (p : Port) → get_port imei sys.db ≡ some p → 0 < p.quota_locked → p.enabled ≡ 0

-- A row with a quota: stopped where the quota is used up, and not locked where it is not.
pub record Capped (used : ℕ) (p : Port) : Type 0 where
  pub over : 0 < p.quota_bytes → p.quota_bytes ≤ used → p.enabled ≡ 0
  pub under : 0 < p.quota_bytes → used < p.quota_bytes → p.quota_locked ≡ 0

abbrev pub QuotaKept : Windows → ℕ → String → System → Type 0
QuotaKept w now imei sys =
    (p : Port) → get_port imei sys.db ≡ some p → Capped (port_usage w now imei p sys.db) p

-- A locked proxy that was enabled again while its quota is used up is passed over.
enforce-relocked :
    (host : Host) (fresh : Secrets) (w : Windows) (now : ℕ) (imei : String) (p : Port)
    (sys : System)
    → 0 < p.quota_locked
    → p.quota_bytes ≤ port_usage w now imei p sys.db
    → enforce host fresh w now imei p sys ≡ no_action sys
unfolding enforce
enforce-relocked host fresh w now imei p sys lock le = ground (arith, lock, le)
