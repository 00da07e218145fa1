-- ===== src/Db/Sticky/Promise.antt =====
-- The sticky sessions as callers see them: a function from keys to a modem and its end.
use modemproxy.Prelude.{
  ℕ, ◌+◌, ◌≤◌, ◌<◌, ◌≡◌, String, Bool, true, false, List, [], ◌∷◌, Option, none, some, ◌==◌,
  if◌then◌else◌, ltb,
}
use modemproxy.Result.{after}
use modemproxy.Table
use modemproxy.Db.Rows.{Modem, Session, Store}
use modemproxy.Db.Modems.{modem_key}
use modemproxy.Db.Sticky.{session_key, find_session, sticky_get, sticky_set, sticky_purge_expired}

pub data Call : Type 0 where
  store : (key imei : String) (ttl : ℕ) → Call
  fetch : (key : String) → Call
  clean : Call

-- The calls of db.py, each with its time; the answers of the fetches. A modem that is not there makes
-- sticky_set raise, which changes nothing.
unfoldable pub answers : List (ℕ × Call) → Store → List (Option String)
answers [] s = []
answers ((now, store key imei ttl) ∷ calls) s =
    answers calls (after s (sticky_set key imei ttl now s))
answers ((now, fetch key) ∷ calls) s =
    (sticky_get key now s).0 ∷ answers calls (sticky_get key now s).1
answers ((now, clean) ∷ calls) s = answers calls (sticky_purge_expired now s)

-- What a caller is promised: a key has the modem that was last stored for it, through its end.
abbrev pub Sessions : Type 0
Sessions = String → Option (String × ℕ)

abbrev pub live_at : ℕ → Option (String × ℕ) → Option String
live_at now none = none
live_at now (some (imei, end)) = if ltb end now then none else some imei

abbrev pub known : String → List Modem → Bool
known imei modems = elim (Table.find modem_key imei modems) [ none ↦ false | some m ↦ true ]

abbrev pub put : String → Option (String × ℕ) → Sessions → Sessions
put key v f j = if key == j then v else f j

unfoldable pub replay : List Modem → List (ℕ × Call) → Sessions → List (Option String)
replay modems [] f = []
replay modems ((now, store key imei ttl) ∷ calls) f =
    replay modems calls (if known imei modems then put key (some (imei, now + ttl)) f else f)
replay modems ((now, fetch key) ∷ calls) f = live_at now (f key) ∷ replay modems calls f
replay modems ((now, clean) ∷ calls) f = replay modems calls f

-- The times of the calls, from `now` on, never go back.
abbrev pub Timed : ℕ → List (ℕ × Call) → Type 0
Timed now [] = Unit
Timed now ((t, call) ∷ calls) = (now ≤ t) × Timed t calls

-- A row that was deleted had ended before `now`.
abbrev pub Agrees : ℕ → Option (String × ℕ) → Option Session → Type 0
Agrees now v (some r) = (v ≡ some (r.imei, r.expires_at)) × (0 < r.expires_at)
Agrees now none none = Unit
Agrees now (some (imei, end)) none = end < now

pub record Represents (now : ℕ) (modems : List Modem) (f : Sessions) (s : Store) : Type 0 where
  pub modems_are : s.modems ≡ modems
  pub distinct : Table.Distinct session_key s.sticky
  pub agrees : (key : String) → Agrees now (f key) (find_session key s)
