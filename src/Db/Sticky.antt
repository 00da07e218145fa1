-- ===== src/Db/Sticky.antt =====
-- modemproxy/db.py: sticky_get, sticky_set and sticky_purge_expired.
pub mod Promise
pub mod Steps
pub mod Refines
use modemproxy.Prelude.{
  ℕ, ◌+◌, String, ◌≡◌, refl, Bool, not, ◌&&◌, List, [], ◌∷◌, Option, none, some, arith, eq_iff,
  ◌==◌, if◌then◌else◌, ltb, nonzero, keep, ◌≤◌, ◌<◌, ◌≢◌, str_refl, str_ne, Option-cases, inl, inr,
}
use modemproxy.Result.{Result, ok, err, integrity_error}
use modemproxy.Table
use modemproxy.Db.Rows.{Session, Store}
use modemproxy.Db.Modems.{get_modem}

abbrev pub session_key : Session → String
session_key r = r.key

unfoldable pub find_session : String → Store → Option Session
find_session key s = Table.find session_key key s.sticky

-- `r["expires_at"] and r["expires_at"] < now()`
unfoldable pub is_stale : ℕ → Session → Bool
is_stale now r = nonzero r.expires_at && ltb r.expires_at now

-- The answer, and the table after a stale row was deleted.
unfoldable pub sticky_get : String → ℕ → Store → Option String × Store
unfolding find_session is_stale
sticky_get key now s = elim (find_session key s) [
  | none ↦ (none, s)
  | some r ↦
      if is_stale now r
      then (none, record s { sticky = Table.delete session_key key s.sticky })
      else (some r.imei, s)
]

-- INSERT … ON CONFLICT(key) DO UPDATE. A new row needs its modem, and so does an updated one.
unfoldable pub sticky_set : String → String → ℕ → ℕ → Store → Result Store
unfolding find_session
sticky_set key imei ttl now s = elim (get_modem imei s) [
  | none ↦ err integrity_error
  | some _ ↦ elim (find_session key s) [
    | some _ ↦ ok (record s {
      sticky =
          Table.update session_key key (λ r. record r { imei = imei; expires_at = now + ttl })
            s.sticky;
    })
    | none ↦ ok (record s {
      sticky =
          Table.insert session_key (record { key = key; imei = imei; expires_at = now + ttl })
            s.sticky;
    })
  ]
]

purge : ℕ → List Session → List Session
purge now = keep (λ r. not (ltb r.expires_at now))

unfoldable pub sticky_purge_expired : ℕ → Store → Store
unfolding purge
sticky_purge_expired now s = record s { sticky = purge now s.sticky }

pub find_session-sticky_set :
    (key j imei : String) (ttl now : ℕ) (s t : Store)
    → sticky_set key imei ttl now s ≡ ok t
    → find_session j t ≡ (
        if key == j
        then some (record { key = key; imei = imei; expires_at = now + ttl })
        else find_session j s)
unfolding sticky_set
find_session-sticky_set key j imei ttl now s t h = ground (
  arith,
  eq_iff key j,
  Table.find_cases session_key key s.sticky,
  Table.find-update session_key key j (λ r. record r { imei = imei; expires_at = now + ttl })
      s.sticky (λ r. refl),
  Table.find-insert session_key j (record { key = key; imei = imei; expires_at = now + ttl })
      s.sticky,
)

-- After sticky_set, the key's session holds through second `now + ttl` and is gone after it; an
-- answer of `none` also removes the row.
pub sticky_get-sticky_set :
    (key imei : String) (ttl now later : ℕ) (s t : Store)
    → sticky_set key imei ttl now s ≡ ok t
    → 0 < ttl
    → ((sticky_get key later t).0 ≡ (if ltb (now + ttl) later then none else some imei))
      × (find_session key (sticky_get key later t).1 ≡ (
          if ltb (now + ttl) later
          then none
          else some (record { key = key; imei = imei; expires_at = now + ttl })))
unfolding sticky_get
sticky_get-sticky_set key imei ttl now later s t h pos = (
  ground (arith, find_session-sticky_set key key imei ttl now s t h, str_refl key),
  ground (
    arith,
    find_session-sticky_set key key imei ttl now s t h,
    str_refl key,
    Table.find-delete session_key key key t.sticky,
  ),
)

-- Another key's session reads the same before and after.
pub sticky_set_frame :
    (key j imei : String) (ttl now later : ℕ) (s t : Store)
    → sticky_set key imei ttl now s ≡ ok t
    → key ≢ j
    → (sticky_get j later t).0 ≡ (sticky_get j later s).0
unfolding sticky_get
sticky_set_frame key j imei ttl now later s t h ne =
    ground (arith, find_session-sticky_set key j imei ttl now s t h, str_ne key j ne)

find-purge :
    (key : String) (now : ℕ) (rs : List Session)
    → Table.Distinct session_key rs
    → Table.find session_key key (purge now rs) ≡ elim (Table.find session_key key rs) [
      | none ↦ none
      | some r ↦ if ltb r.expires_at now then none else some r
    ]
unfolding purge Table.find
find-purge key now [] d = refl
find-purge key now (r ∷ rs) d = ground (arith, find-purge key now rs d.1, eq_iff r.key key, d.0)

-- sticky_set writes `now + ttl`, so no row has the expiry 0 that would count as "never".
pub record IsTimed (s : Store) : Type 0 where
  pub distinct : Table.Distinct session_key s.sticky
  pub positive : (key : String) (r : Session) → find_session key s ≡ some r → 0 < r.expires_at

-- Purging at `now` changes no answer of sticky_get at `now` or later.
pub sticky_get-sticky_purge_expired :
    (key : String) (now later : ℕ) (s : Store)
    → IsTimed s
    → now ≤ later
    → (sticky_get key later (sticky_purge_expired now s)).0 ≡ (sticky_get key later s).0
unfolding sticky_get sticky_purge_expired
sticky_get-sticky_purge_expired key now later s timed h =
    elim (Option-cases (Table.find session_key key s.sticky)) [
      | inl e ↦ ground (arith, find-purge key now s.sticky timed.distinct, e)
      | inr (r, e) ↦
          ground (arith, find-purge key now s.sticky timed.distinct, e, timed.positive key r e)
    ]
