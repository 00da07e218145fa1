-- ===== src/Bands/Lock/Widest.antt =====
-- The widest band mask that a modem has shown (_remember_capabilities).
use modemproxy.Prelude.{
  ℕ, max, ◌≤◌, ◌<◌, ◌≡◌, refl, ◌∙◌, ap, String, true, false, ◌&&◌, List, [], ◌∷◌, Option, none,
  some, arith, eq_iff, ltb, nonempty, or_text, All, str_refl, if_cases,
}
use modemproxy.Text.Cut.{drop_prefix, strip, digits}
use modemproxy.Db.Rows.{Modem, LockState, Store}
use modemproxy.Db.Modems.{ModemField, get_modem, get_modem-upsert_modem, set_columns, upserted}
use modemproxy.Bands.Lock.{
  saved_lock, save_lock, lock_of, popcount, remember_capabilities, mask_to_bands,
}

locked_row :
    (imei : String) (l : LockState) (now : ℕ) (o : Option Modem)
    → lock_of (upserted imei (ModemField.band_lock (some l) ∷ []) now o) ≡ l
unfolding set_columns
locked_row imei l now none = refl
locked_row imei l now (some m) = refl

-- A lock that is saved is read back.
pub saved_lock-save_lock :
    (imei : String) (l : LockState) (now : ℕ) (s : Store)
    → saved_lock imei (save_lock imei l now s) ≡ l
unfolding saved_lock save_lock
saved_lock-save_lock imei l now s =
    let row : get_modem imei (save_lock imei l now s)
        ≡ upserted imei (ModemField.band_lock (some l) ∷ []) now (get_modem imei s) =
      get_modem-upsert_modem imei imei (ModemField.band_lock (some l) ∷ []) now s
      ∙ rw (str_refl imei) refl in
    ap lock_of row ∙ locked_row imei l now (get_modem imei s)

-- The number of bands of the mask that unlocking puts back.
unfoldable pub widest : String → Store → ℕ
widest imei s = popcount (or_text (saved_lock imei s).default_mask "")

-- The readings of a modem, in order: each a mask and its time.
unfoldable pub after_readings : String → List (String × ℕ) → Store → Store
after_readings imei [] s = s
after_readings imei ((mask, now) ∷ rest) s =
    after_readings imei rest (remember_capabilities imei mask now s).1

empty_mask : popcount "" ≡ 0
unfolding popcount mask_to_bands drop_prefix strip digits
empty_mask = refl

full_mask : (mask : String) → 1 < popcount mask → nonempty mask ≡ true
full_mask mask h = ground (arith, eq_iff mask "", h, empty_mask, ap popcount)

narrow :
    (mask : String) (n : ℕ)
    → (1 < popcount mask → nonempty mask ≡ true)
    → (nonempty mask && ltb (max 1 n) (popcount mask)) ≡ false
    → popcount mask ≤ max 1 n
narrow mask n full h = ground (arith, full, h)

saved_mask :
    (imei mask : String) (l : LockState) (now : ℕ) (s : Store)
    → nonempty mask ≡ true
    → widest imei (save_lock imei (record l { default_mask = some mask }) now s) ≡ popcount mask
unfolding widest
saved_mask imei mask l now s full =
    rw (saved_lock-save_lock imei (record l { default_mask = some mask }) now s, full) refl

one_reading :
    (imei mask : String) (now : ℕ) (s : Store)
    → (popcount mask ≤ max 1 (widest imei (remember_capabilities imei mask now s).1))
      × (widest imei s ≤ widest imei (remember_capabilities imei mask now s).1)
unfolding remember_capabilities widest
one_reading imei mask now s =
    if_cases
      (λ (x : LockState × Store).
        (popcount mask ≤ max 1 (widest imei x.1)) × (widest imei s ≤ widest imei x.1))
      (nonempty mask
        && ltb (max 1 (popcount (or_text (saved_lock imei s).default_mask ""))) (popcount mask))
      _ _
      (λ h.
        let now_is : widest imei
              (save_lock imei (record (saved_lock imei s) { default_mask = some mask }) now s)
            ≡ popcount mask =
          saved_mask imei mask (saved_lock imei s) now s (ground (arith, h)) in
        (omega (arith, now_is), ground (arith, now_is, h)))
      (λ h. (narrow mask _ (full_mask mask) h, omega arith))

-- Whatever masks a modem shows, and in whatever order, the mask that unlocking puts back has at least
-- as many bands as the one before and as each mask that was shown, up to masks of a single band.
pub after_readings-widest :
    (imei : String) (masks : List (String × ℕ)) (s : Store)
    → (widest imei s ≤ widest imei (after_readings imei masks s))
      × All
          (λ (r : String × ℕ). popcount r.0 ≤ max 1 (widest imei (after_readings imei masks s)))
          masks
unfolding after_readings
after_readings-widest imei [] s = (omega arith, tt)
after_readings-widest imei ((mask, now) ∷ rest) s =
    let one = one_reading imei mask now s in
    let more = after_readings-widest imei rest (remember_capabilities imei mask now s).1 in
    (omega (arith, one.1, more.0), (omega (arith, one.0, more.0), more.1))
