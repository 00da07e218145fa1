-- ===== src/Db/Alerts.antt =====
-- modemproxy/db.py: alert_should_send, the mute window of repeated alerts.
use modemproxy.Prelude.{
  ℕ, ◌+◌, ◌-◌, ◌≤◌, ◌<◌, String, ◌≡◌, refl, Bool, true, false, ◌&&◌, List, [], ◌∷◌, Option, none,
  some, arith, eq_iff, ◌==◌, if◌then◌else◌, ltb, Bool-cases, inl, inr, Option-cases,
}
use modemproxy.Table
use modemproxy.Db.Rows.{Alert, Store}

abbrev pub alert_key : Alert → String
alert_key r = r.akey

unfoldable pub last_sent : String → Store → Option ℕ
last_sent akey s = elim (Table.find alert_key akey s.alert_log) [ none ↦ none | some r ↦ some r.ts ]

-- `r and mute_seconds > 0 and (t - r["ts"]) < mute_seconds`; a difference below zero is under the
-- mute time as well.
is_muted : ℕ → ℕ → Option ℕ → Bool
is_muted mute t none = false
is_muted mute t (some ts) = ltb 0 mute && ltb (t - ts) mute

unfoldable pub alert_should_send : String → ℕ → ℕ → Store → Bool × Store
unfolding is_muted last_sent
alert_should_send akey mute t s = if is_muted mute t (last_sent akey s) then (false, s) else (
  true,
  record s {
    alert_log = elim (Table.find alert_key akey s.alert_log) [
      | some _ ↦ Table.update alert_key akey (λ r. record r { ts = t }) s.alert_log
      | none ↦ Table.insert alert_key (record { akey = akey; ts = t }) s.alert_log
    ];
  },
)

-- A call that sends records its time under its key, and no call touches another key.
pub last_sent-alert_should_send :
    (akey j : String) (mute t : ℕ) (s : Store)
    → last_sent j (alert_should_send akey mute t s).1
      ≡ (if (alert_should_send akey mute t s).0 && akey == j then some t else last_sent j s)
unfolding alert_should_send
last_sent-alert_should_send akey j mute t s = ground (
  arith,
  eq_iff akey j,
  Table.find-update alert_key akey j (λ r. record r { ts = t }) s.alert_log (λ r. refl),
  Table.find-insert alert_key j (record { akey = akey; ts = t }) s.alert_log,
)

-- With a mute time, a call sends exactly when the last send of its key is at least that long ago.
pub alert_should_send_iff :
    (akey : String) (mute t : ℕ) (s : Store)
    → 0 < mute
    → (alert_should_send akey mute t s).0 ≡ elim (last_sent akey s) [
      | none ↦ true
      | some ts ↦ if ltb t (ts + mute) then false else true
    ]
unfolding alert_should_send
alert_should_send_iff akey mute t s pos = ground arith

-- The times at which a sequence of calls sends an alert of one key, other keys in between.
unfoldable pub sends : String → ℕ → List (String × ℕ) → Store → List ℕ
sends key mute [] s = []
sends key mute ((k, t) ∷ calls) s =
    let step = alert_should_send k mute t s in
    let rest = sends key mute calls step.1 in if step.0 && k == key then t ∷ rest else rest

-- Each time is at least `mute` after the one before it.
abbrev pub Spaced : ℕ → Option ℕ → List ℕ → Type 0
Spaced mute last [] = Unit
Spaced mute none (t ∷ ts) = Spaced mute (some t) ts
Spaced mute (some u) (t ∷ ts) = (u + mute ≤ t) × Spaced mute (some t) ts

Spaced-first :
    (key k : String) (mute t : ℕ) (s : Store) (ts : List ℕ)
    → 0 < mute
    → (alert_should_send k mute t s).0 && k == key ≡ true
    → Spaced mute (some t) ts
    → Spaced mute (last_sent key s) (t ∷ ts)
Spaced-first key k mute t s ts pos sent h = elim (Option-cases (last_sent key s)) [
  | inl e ↦ rw e h
  | inr (u, e) ↦ rw e ((ground (arith, eq_iff k key, alert_should_send_iff key mute t s pos, e)), h)
]

-- What one call adds to the sends of a key: the recorded time, if it sends that key.
Spaced-step :
    (key k : String) (mute t : ℕ) (s : Store) (ts : List ℕ)
    → 0 < mute
    → Spaced mute (last_sent key (alert_should_send k mute t s).1) ts
    → Spaced mute
        (last_sent key s)
        (if (alert_should_send k mute t s).0 && k == key then t ∷ ts else ts)
Spaced-step key k mute t s ts pos h =
    elim (Bool-cases ((alert_should_send k mute t s).0 && k == key)) [
      | inr quiet ↦ rw quiet (rw (last_sent-alert_should_send k key mute t s, quiet) at h)
      | inl sent ↦ rw sent (
          Spaced-first key k mute t s ts pos sent
            (rw (last_sent-alert_should_send k key mute t s, sent) at h))
    ]

-- Whatever calls come, for whatever keys and with whatever clock, two sends of one key are at
-- least the mute time apart.
pub sends-Spaced :
    (key : String) (mute : ℕ) (calls : List (String × ℕ)) (s : Store)
    → 0 < mute
    → Spaced mute (last_sent key s) (sends key mute calls s)
unfolding sends
sends-Spaced key mute [] s pos = tt
sends-Spaced key mute ((k, t) ∷ calls) s pos =
    Spaced-step key k mute t s (sends key mute calls (alert_should_send k mute t s).1) pos
      (sends-Spaced key mute calls (alert_should_send k mute t s).1 pos)
