-- ===== src/Bands/Lock.antt =====
-- modemproxy/modems/bands.py: the saved lock, read, apply, clear and guard.
pub mod Widest
pub mod Guarded
use Prim.Native.Char.{code}
use modemproxy.Prelude.{
  ℕ, zero, suc, ◌+◌, ◌*◌, ◌-◌, ◌/◌, ◌%◌, ◌++◌, max, ◌≡◌, refl, String, Bool, true, false, not, ◌&&◌,
  ◌||◌, List, [], ◌∷◌, Option, none, some, if◌then◌else◌, ltb, leb, eqb, nonempty, nonzero,
  truthy_text, or_text, length, map,
}
use modemproxy.Text.{◌<>◌, decimal, hex_digit}
use modemproxy.Text.Cut.{strip, drop_prefix, digits, contains_lower, join}
use modemproxy.Result.{Result, ok, err, Error, band_error, ◌>>=◌}
use modemproxy.Db.Rows.{Modem, LockState, Store}
use modemproxy.Db.Modems.{ModemField, get_modem, upsert_modem}
use modemproxy.Manager.{error_text}
use modemproxy.Bands.{mask_to_bands, bands_to_mask, first_of}

-- _popcount
unfoldable pub popcount : String → ℕ
popcount mask = length (mask_to_bands mask)

abbrev blank_lock : LockState
blank_lock = record {
  default_mask = none;
  default_nr = none;
  lte = [];
  nr = [];
  strikes = 0;
  ts = none;
}

abbrev pub lock_or_blank : Option LockState → LockState
lock_or_blank none = blank_lock
lock_or_blank (some l) = l

abbrev pub lock_of : Option Modem → LockState
lock_of none = blank_lock
lock_of (some m) = lock_or_blank m.band_lock

unfoldable pub saved_lock : String → Store → LockState
saved_lock imei s = lock_of (get_modem imei s)

unfoldable pub save_lock : String → LockState → ℕ → Store → Store
save_lock imei l now s = upsert_modem imei (ModemField.band_lock (some l) ∷ []) now s

-- The answers of the device at one moment: to a status query, to BAND_SELECT with a mask, to
-- WAN_PERFORM_NR5G_BAND_LOCK with a list, and to a fetch of its public address. A key that the status
-- lacks is "" by `.get(key, "")`.
pub record Device : Type 0 where
  pub lte_band_lock : String
  pub nr5g_band_lock : String
  pub active_band : String
  pub active_nr_band : String
  pub network_type : String
  pub set_lte : String → String
  pub set_nr : String → String
  pub public_ip : Option String

-- _zte raises for a modem without a management address and for a Deco.
unfoldable pub has_bands : Modem → Bool
has_bands m = truthy_text m.mgmt_host && not (contains_lower "deco" (or_text m.model ""))

abbrev unsupported : Error
unsupported = band_error "blocco banda non supportato su questo modem"

-- _remember_capabilities: the state, and the store it is saved in.
unfoldable pub remember_capabilities : String → String → ℕ → Store → LockState × Store
remember_capabilities imei mask now s =
    let state = saved_lock imei s in
    let wider = record state { default_mask = some mask } in
    if nonempty mask && ltb (max 1 (popcount (or_text state.default_mask ""))) (popcount mask)
    then (wider, save_lock imei wider now s)
    else (state, s)

pub record Reading : Type 0 where
  pub imei : String
  pub locked : Bool
  pub lte : List ℕ
  pub nr : List ℕ
  pub mask : String
  pub supported_lte : List ℕ
  pub active_band : String
  pub active_nr_band : String
  pub network_type : String

abbrev some_bands : List ℕ → Bool
some_bands [] = false
some_bands (b ∷ bs) = true

unfoldable pub reading : Modem → Device → LockState → Reading
reading m dev saved = record {
  imei = m.imei;
  locked = some_bands saved.lte;
  lte = saved.lte;
  nr = saved.nr;
  mask = dev.lte_band_lock;
  supported_lte = mask_to_bands (or_text saved.default_mask dev.lte_band_lock);
  active_band = dev.active_band;
  active_nr_band = dev.active_nr_band;
  network_type = dev.network_type;
}

-- A call's answer, and the store after it.
abbrev pub Answer : Type 0 → Type 0
Answer A = Result A × Store

unfoldable pub read : Modem → Device → ℕ → Store → Answer Reading
unfolding reading
read m dev now s =
    let (saved, t) = remember_capabilities m.imei dev.lte_band_lock now s in
    if has_bands m then (ok (reading m dev saved), t) else (err unsupported, s)

unfoldable pub accepted : String → Bool
accepted reply = contains_lower "success" reply

abbrev pub refused : String → String → Error
refused what reply = band_error (what <> or_text (some reply) "nessuna risposta")

-- What the device is told: an LTE mask, or a list of 5G bands.
pub data Order : Type 0 where
  lte_mask : String → Order
  nr_bands : String → Order

unfoldable pub send_mask : Device → Result String → Result Bool × List Order
unfolding accepted
send_mask dev (err e) = (err e, [])
send_mask dev (ok mask) = (
  if accepted (dev.set_lte mask)
      then ok true
      else err (refused "il modem ha rifiutato il blocco LTE: " (dev.set_lte mask)),
  lte_mask mask ∷ [],
)

unfoldable pub set_lte_bands : Device → List ℕ → Result Bool × List Order
unfolding send_mask
set_lte_bands dev [] = (ok true, [])
set_lte_bands dev (b ∷ bs) = send_mask dev (bands_to_mask (b ∷ bs))

unfoldable pub set_nr_bands : Device → List ℕ → Result Bool × List Order
unfolding accepted
set_nr_bands dev [] = (ok true, [])
set_nr_bands dev (b ∷ bs) =
    let list = join "," (map decimal (b ∷ bs)) in
    (
      if accepted (dev.set_nr list)
          then ok true
          else err (refused "il modem ha rifiutato il blocco 5G: " (dev.set_nr list)),
      nr_bands list ∷ [],
    )

unfoldable pub then_told :
    Result Bool × List Order → Result Bool × List Order → Result Bool × List Order
then_told (ok u, first) next = (next.0, first ++ next.1)
then_told (err e, first) next = (err e, first)

-- The LTE bands and, unless that raises, the 5G bands; with what the device was told.
unfoldable pub set_bands : Device → List ℕ → List ℕ → Result Bool × List Order
unfolding set_lte_bands set_nr_bands then_told
set_bands dev lte nr = then_told (set_lte_bands dev lte) (set_nr_bands dev nr)

-- What is saved of a lock, when it is to be remembered.
locked_state : List ℕ → List ℕ → ℕ → LockState → LockState
locked_state lte nr now l = record l { lte = lte; nr = nr; strikes = 0; ts = some now }

apply_known :
    Modem → List ℕ → List ℕ → Bool → Device → Device → ℕ → LockState → Store → Answer Reading
unfolding set_bands locked_state
apply_known m lte nr remember dev later now state s = elim (set_bands dev lte nr).0 [
  | err e ↦ (err e, s)
  | ok u ↦
      if remember
      then read m later now (save_lock m.imei (locked_state lte nr now state) now s)
      else read m later now s
]

-- `apply`, with what the device was told; `later` is the device after the change.
unfoldable pub apply_traced :
    Modem → List ℕ → List ℕ → Bool → Device → Device → ℕ → Store → Answer Reading × List Order
unfolding apply_known
apply_traced m lte nr remember dev later now s =
    let (known, t) = remember_capabilities m.imei dev.lte_band_lock now s in
    let state = record known { default_nr = first_of known.default_nr (some dev.nr5g_band_lock) } in
    if not (has_bands m)
    then ((err unsupported, s), [])
    else (if ltb (popcount (or_text state.default_mask "")) 2
        then (
          (err (band_error "maschera bande del modem non ancora nota: riprova fra un minuto"), t),
          [],
        )
        else (apply_known m lte nr remember dev later now state t, (set_bands dev lte nr).1))

unfoldable pub lock_bands :
    Modem → List ℕ → List ℕ → Bool → Device → Device → ℕ → Store → Answer Reading
lock_bands m lte nr remember dev later now s = (apply_traced m lte nr remember dev later now s).0

abbrev pub cleared : String → Option String → ℕ → LockState
cleared mask nr now = record {
  default_mask = some mask;
  default_nr = first_of nr (some "");
  lte = [];
  nr = [];
  strikes = 0;
  ts = some now;
}

-- Whatever the device answers to the 5G lists that are put back, the lock counts as removed.
unfoldable pub clear : Modem → Device → Device → ℕ → Store → Answer Reading
unfolding accepted
clear m dev later now s =
    let state = saved_lock m.imei s in
    let mask = or_text state.default_mask "" in
    let reply = dev.set_lte mask in
    if not (has_bands m)
    then (err unsupported, s)
    else (if not (truthy_text state.default_mask)
        then (err (band_error "nessun blocco da togliere"), s)
        else (if accepted reply
            then read m later now (save_lock m.imei (cleared mask state.default_nr now) now s)
            else (err (refused "il modem ha rifiutato lo sblocco: " reply), s)))

-- What guard says when it acts.
pub data Freed : Type 0 where
  unlocked : (name : String) (lte : List ℕ) → Freed
  still_locked : (name : String) (lte : List ℕ) (why : String) → Freed

abbrev freed_or_not : String → List ℕ → Result Reading → Freed
freed_or_not name lte (ok r) = unlocked name lte
freed_or_not name lte (err e) = still_locked name lte (error_text e)

abbrev pub guard_strikes : ℕ
guard_strikes = 3

-- `bool(netdev.public_ip(…)) if iface else False`
unfoldable pub is_up : Modem → Device → Bool
is_up m dev = truthy_text m.iface && truthy_text dev.public_ip

unfoldable pub strike : Modem → Device → Device → LockState → ℕ → Store → Option Freed × Store
strike m dev later state now s =
    let struck = record state { strikes = suc state.strikes } in
    let t = save_lock m.imei struck now s in
    let done = clear m dev later now t in
    if ltb struck.strikes guard_strikes
    then (none, t)
    else (some (freed_or_not (or_text m.name m.imei) state.lte done.0), done.1)

-- A BandError of clear is reported; nothing else is raised on the way.
unfoldable pub guard : Modem → Device → Device → ℕ → Store → Option Freed × Store
unfolding is_up strike
guard m dev later now s =
    let state = saved_lock m.imei s in
    if not (some_bands state.lte)
    then (none, s)
    else (if is_up m dev
        then (
          none,
          if nonzero state.strikes
              then save_lock m.imei (record state { strikes = 0 }) now s
              else s,
        )
        else strike m dev later state now s)
