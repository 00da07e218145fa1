-- ===== src/Healthcheck/Run.antt =====
-- modemproxy/services/healthcheck.py: a run of all checks, and when a report is sent.
use modemproxy.Prelude.{
  ℕ, String, Bool, true, false, not, ◌&&◌, ◌||◌, List, [], ◌∷◌, ◌++◌, Option, none, some,
  if◌then◌else◌, ◌==◌, nonzero, truthy, or_text, keep, map, sorted, text_le,
}
use modemproxy.Text.{◌<>◌}
use modemproxy.Text.Cut.{join}
use modemproxy.Config.{Config}
use modemproxy.Db.Rows.{Modem, Store}
use modemproxy.Db.Listing.{Listed, list_modems}
use modemproxy.Bands.Lock.{Device, Freed}
use modemproxy.Healthcheck.Proxies.{Commands, Stages, Checked, Bands, check_proxy, check_band_locks}
use modemproxy.Healthcheck.Site.{Check, check_dns, check_vpn, check_public, check_lan}

-- What was repaired: a proxy, or a band lock that was removed.
pub data Repair : Type 0 where
  proxy_back : (name : String) → Repair
  bands_freed : Freed → Repair

-- What the runner makes of the checks: the report, if one is sent, and the state file afterwards.
pub record Run : Type 0 where
  pub report : Option (List Check × List Repair)
  pub state : Option (List String)
  pub all_good : Bool

unfoldable pub failed_checks : List Check → List Check
failed_checks checks = keep (λ c. not c.good) checks

-- `sorted(c["key"] for c in failed)`
unfoldable pub failed_keys : List Check → List String
unfolding failed_checks
failed_keys checks = sorted (map (λ (c : Check). c.key) (failed_checks checks))

unfoldable pub same_texts : List String → List String → Bool
same_texts [] [] = true
same_texts [] (y ∷ ys) = false
same_texts (x ∷ xs) [] = false
same_texts (x ∷ xs) (y ∷ ys) = x == y && same_texts xs ys

abbrev saved_keys : Option (List String) → List String
saved_keys none = []
saved_keys (some keys) = keys

abbrev pub any {ℓ} : {A : Type ℓ} → List A → Bool
any [] = false
any (x ∷ xs) = true

-- The end of `run`. The state file is read before it is written; `writable` says if it can be.
unfoldable pub conclude :
    (boot notify writable : Bool) → List Check → List Repair → Option (List String) → Run
unfolding failed_keys same_texts
conclude boot notify writable checks healed state =
    let keys = failed_keys checks in
    let changed = not (same_texts keys (sorted (saved_keys state))) in
    record {
      report = if notify && (boot || changed || any healed) then some (checks, healed) else none;
      state = if writable then some keys else state;
      all_good = not (any keys);
    }

-- What is outside: the commands of each modem's check, its device before and after an unlock, and the
-- commands of the other checks, before and after a restart of WireGuard.
pub record World : Type 0 where
  pub stages : String → Stages
  pub dev : Modem → Device × Device
  pub run : Commands
  pub again : Commands

abbrev shown : Listed → String
shown r = or_text r.modem.name r.modem.imei

insert_row : Listed → List Listed → List Listed
insert_row r [] = r ∷ []
insert_row r (x ∷ xs) = if text_le (shown r) (shown x) then r ∷ x ∷ xs else x ∷ insert_row r xs

-- `sorted(modems, key=…)`, which keeps the order of equal names
by_shown : List Listed → List Listed
unfolding insert_row
by_shown [] = []
by_shown (r ∷ rs) = insert_row r (by_shown rs)

-- The rows that are checked: enabled, with a port.
unfoldable pub is_checked : Listed → Bool
is_checked r = elim r.port [ none ↦ false | some p ↦ truthy p.http_port && nonzero p.enabled ]

proxy_check : Listed → Checked → Check
proxy_check r c = record { key = "proxy:" <> r.modem.imei; good = c.good; detail = c.detail }

repairs : World → List Listed → List Repair
repairs world [] = []
repairs world (r ∷ rs) =
    let c = check_proxy (world.stages r.modem.imei) r in
    let rest = repairs world rs in if c.healed && c.good then proxy_back (shown r) ∷ rest else rest

bands_check : Bands → Check
bands_check b = elim b.freed [
  | f ∷ fs ↦ record { key = "bands"; good = false; detail = "" }
  | [] ↦ elim b.locked [
    | [] ↦ record { key = "bands"; good = true; detail = "nessun blocco attivo" }
    | n ∷ ns ↦ record {
      key = "bands";
      good = true;
      detail = "bloccati su banda fissa: " <> join ", " (n ∷ ns);
    }
  ]
]

-- The checks of a run, in order, and what was repaired; the detail of freed bands is in the repairs.
unfoldable pub all_checks : World → Config → ℕ → Store → List Check × List Repair × Store
unfolding by_shown is_checked proxy_check repairs bands_check
all_checks world cfg now s =
    let modems = keep is_checked (list_modems s) in
    let rows = by_shown modems in
    let b = check_band_locks world.dev now modems s in
    (
      map (λ r. proxy_check r (check_proxy (world.stages r.modem.imei) r)) rows
          ++ bands_check b
            ∷ check_dns world.run cfg
            ∷ check_lan world.run cfg
            ∷ check_vpn world.run world.again
            ∷ check_public world.run cfg modems
            ∷ [],
      repairs world rows ++ map bands_freed b.freed,
      b.db,
    )

-- healthcheck.run
unfoldable pub health_run :
    World → (boot notify writable : Bool) → Config → ℕ → Option (List String) → Store → Run × Store
health_run world boot notify writable cfg now state s =
    let (checks, healed, t) = all_checks world cfg now s in
    (conclude boot notify writable checks healed state, t)
