-- ===== src/Bands/Lock/Guarded.antt =====
-- The guard of a band lock: three failed checks in a row remove it.
use modemproxy.Prelude.{
  ℕ, suc, ◌<◌, ◌≤◌, ◌≡◌, refl, ap, ◌∙◌, String, true, false, [], Option, none, some, arith, ltb,
  truthy_text, nonempty, max, ◌&&◌, or_text, if_cases,
}
use modemproxy.Result.{Result, ok}
use modemproxy.Db.Rows.{Modem, LockState, Store}
use modemproxy.Bands.Lock.{
  Device, Freed, unlocked, guard, strike, clear, read, is_up, has_bands, accepted, saved_lock,
  save_lock, some_bands, cleared, remember_capabilities, freed_or_not, reading, popcount, Reading,
}
use modemproxy.Bands.Lock.Widest.{saved_lock-save_lock}

-- A locked modem that is offline, and a device that would take its bands back.
pub record Failing (m : Modem) (dev : Device) (l : LockState) : Type 0 where
  pub is_locked : some_bands l.lte ≡ true
  pub is_down : is_up m dev ≡ false

failed :
    (m : Modem) (dev later : Device) (now : ℕ) (s : Store)
    → Failing m dev (saved_lock m.imei s)
    → guard m dev later now s ≡ strike m dev later (saved_lock m.imei s) now s
unfolding guard
failed m dev later now s f = ground (arith, f.is_locked, f.is_down)

abbrev struck : LockState → LockState
struck l = record l { strikes = suc l.strikes }

early :
    (m : Modem) (dev later : Device) (now : ℕ) (l : LockState) (s : Store)
    → suc l.strikes < 3
    → strike m dev later l now s ≡ (none, save_lock m.imei (struck l) now s)
unfolding strike
early m dev later now l s h = ground (arith, h)

early_guard :
    (m : Modem) (dev later : Device) (now : ℕ) (l : LockState) (s : Store)
    → saved_lock m.imei s ≡ l
    → Failing m dev l
    → suc l.strikes < 3
    → ((guard m dev later now s).0 ≡ none)
      × (saved_lock m.imei (guard m dev later now s).1 ≡ struck l)
early_guard m dev later now l s e f h =
    let first =
      failed m dev later now s (rw e f)
      ∙ ap (λ k. strike m dev later k now s) e
      ∙ early m dev later now l s h in
    (
      ap (λ (r : Option Freed × Store). r.0) first,
      ap (λ (r : Option Freed × Store). saved_lock m.imei r.1) first
          ∙ saved_lock-save_lock m.imei (struck l) now s,
    )

-- A reading keeps what is locked.
remember_lte :
    (imei mask : String) (now : ℕ) (s : Store)
    → (saved_lock imei (remember_capabilities imei mask now s).1).lte ≡ (saved_lock imei s).lte
unfolding remember_capabilities
remember_lte imei mask now s =
    if_cases (λ (x : LockState × Store). (saved_lock imei x.1).lte ≡ (saved_lock imei s).lte)
      (nonempty mask
        && ltb (max 1 (popcount (or_text (saved_lock imei s).default_mask ""))) (popcount mask))
      (
        record (saved_lock imei s) { default_mask = some mask },
        save_lock imei (record (saved_lock imei s) { default_mask = some mask }) now s,
      )
      (saved_lock imei s, s)
      (λ h.
        ap (λ l. l.lte)
          (saved_lock-save_lock imei (record (saved_lock imei s) { default_mask = some mask }) now
            s))
      (λ h. refl)

read_goes :
    (m : Modem) (dev : Device) (now : ℕ) (s : Store)
    → has_bands m ≡ true
    → (read m dev now s ≡ (
      ok (reading m dev (remember_capabilities m.imei dev.lte_band_lock now s).0),
      (remember_capabilities m.imei dev.lte_band_lock now s).1,
    ))
unfolding read
read_goes m dev now s h = ground (arith, h)

clear_goes :
    (m : Modem) (dev later : Device) (now : ℕ) (l : LockState) (s : Store)
    → saved_lock m.imei s ≡ l
    → has_bands m ≡ true
    → truthy_text l.default_mask ≡ true
    → accepted (dev.set_lte (or_text l.default_mask "")) ≡ true
    → clear m dev later now s
      ≡ read m later now
          (save_lock m.imei (cleared (or_text l.default_mask "") l.default_nr now) now s)
unfolding clear
clear_goes m dev later now l s e able known takes = rw e (ground (arith, able, known, takes))

strike_late :
    (m : Modem) (dev later : Device) (now : ℕ) (l : LockState) (s : Store)
    → 3 ≤ suc l.strikes
    → let done = clear m dev later now (save_lock m.imei (struck l) now s) in
      strike m dev later l now s
      ≡ (some (freed_or_not (or_text m.name m.imei) l.lte done.0), done.1)
unfolding strike
strike_late m dev later now l s h = ground (arith, h)

-- The lock after the device took its bands back, and the reading that follows.
cleared_store : Modem → Device → ℕ → LockState → Store → Store
cleared_store m later now l s =
    (remember_capabilities m.imei later.lte_band_lock now
      (save_lock m.imei (cleared (or_text l.default_mask "") l.default_nr now) now s)).1

cleared_lte :
    (m : Modem) (later : Device) (now : ℕ) (l : LockState) (s : Store)
    → (saved_lock m.imei (cleared_store m later now l s)).lte ≡ []
unfolding cleared_store
cleared_lte m later now l s =
    remember_lte m.imei later.lte_band_lock now
      (save_lock m.imei (cleared (or_text l.default_mask "") l.default_nr now) now s)
    ∙ ap (λ k. k.lte)
        (saved_lock-save_lock m.imei (cleared (or_text l.default_mask "") l.default_nr now) now s)

late :
    (m : Modem) (dev later : Device) (now : ℕ) (l : LockState) (s : Store)
    → 3 ≤ suc l.strikes
    → has_bands m ≡ true
    → truthy_text l.default_mask ≡ true
    → accepted (dev.set_lte (or_text l.default_mask "")) ≡ true
    → strike m dev later l now s ≡ (
      some (unlocked (or_text m.name m.imei) l.lte),
      cleared_store m later now l (save_lock m.imei (struck l) now s),
    )
unfolding cleared_store
late m dev later now l s h able known takes =
    let t = save_lock m.imei (struck l) now s in
    let freed =
      clear_goes m dev later now (struck l) t (saved_lock-save_lock m.imei (struck l) now s) able
        known takes
      ∙ read_goes m later now _ able in
    strike_late m dev later now l s h
    ∙ ap
        (λ (d : Result Reading × Store).
          (some (freed_or_not (or_text m.name m.imei) l.lte d.0), d.1))
        freed

late_guard :
    (m : Modem) (dev later : Device) (now : ℕ) (l : LockState) (s : Store)
    → saved_lock m.imei s ≡ l
    → Failing m dev l
    → 3 ≤ suc l.strikes
    → has_bands m ≡ true
    → truthy_text l.default_mask ≡ true
    → accepted (dev.set_lte (or_text l.default_mask "")) ≡ true
    → ((guard m dev later now s).0 ≡ some (unlocked (or_text m.name m.imei) l.lte))
      × ((saved_lock m.imei (guard m dev later now s).1).lte ≡ [])
late_guard m dev later now l s e f h able known takes =
    let done =
      failed m dev later now s (rw e f)
      ∙ ap (λ k. strike m dev later k now s) e
      ∙ late m dev later now l s h able known takes in
    (
      ap (λ (r : Option Freed × Store). r.0) done,
      ap (λ (r : Option Freed × Store). (saved_lock m.imei r.1).lte) done
          ∙ cleared_lte m later now l (save_lock m.imei (struck l) now s),
    )

-- A modem that is locked to some bands, without a strike yet, and offline at three checks in a row:
-- the first two checks only count, and the third gives the bands back and says so, if the modem has a
-- management address, its own mask is known and the device accepts it. Then no band is locked.
pub guard-guard-guard :
    (m : Modem) (d1 d2 d3 later : Device) (t1 t2 t3 : ℕ) (l : LockState) (s : Store)
    → saved_lock m.imei s ≡ l
    → l.strikes ≡ 0
    → Failing m d1 l
    → Failing m d2 l
    → Failing m d3 l
    → has_bands m ≡ true
    → truthy_text l.default_mask ≡ true
    → accepted (d3.set_lte (or_text l.default_mask "")) ≡ true
    → let first = guard m d1 d1 t1 s in
      let second = guard m d2 d2 t2 first.1 in
      let third = guard m d3 later t3 second.1 in
      (first.0 ≡ none)
      × (second.0 ≡ none)
      × (third.0 ≡ some (unlocked (or_text m.name m.imei) l.lte))
      × ((saved_lock m.imei third.1).lte ≡ [])
guard-guard-guard m d1 d2 d3 later t1 t2 t3 l s e zero_strikes f1 f2 f3 able known takes =
    let first = early_guard m d1 d1 t1 l s e f1 (omega (arith, zero_strikes)) in
    let second =
      early_guard m d2 d2 t2 (struck l) (guard m d1 d1 t1 s).1 first.1
        (record { is_locked = f2.is_locked; is_down = f2.is_down }) (omega (arith, zero_strikes)) in
    let third =
      late_guard m d3 later t3 (struck (struck l)) _ second.1
        (record { is_locked = f3.is_locked; is_down = f3.is_down }) (omega (arith, zero_strikes))
        able known takes in
    (first.0, second.0, third.0, third.1)
