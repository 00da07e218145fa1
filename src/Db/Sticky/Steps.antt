-- ===== src/Db/Sticky/Steps.antt =====
-- Each call on the sticky sessions keeps the table in step with the function that it stands for.
use mathlib.Core.Path.{subst}
use modemproxy.Prelude.{
  ℕ, ◌+◌, ◌≤◌, ◌<◌, ◌≡◌, refl, sym, ◌∙◌, ap, String, true, false, List, [], ◌∷◌, Option, none, some,
  arith, eq_iff, ◌==◌, if◌then◌else◌, ltb, ◌⊎◌, inl, inr, Option-cases, Bool-cases,
}
use modemproxy.Result.{ok, err, after, integrity_error, Result-cases}
use modemproxy.Table
use modemproxy.Db.Rows.{Modem, Session, Store}
use modemproxy.Db.Modems.{get_modem}
use modemproxy.Db.Sticky.{
  session_key, find_session, is_stale, sticky_get, sticky_set, sticky_purge_expired, purge,
  find_session-sticky_set, find-purge,
}
use modemproxy.Db.Sticky.Promise.{Sessions, live_at, known, put, Agrees, Represents}

Agrees-later :
    (now later : ℕ) (v : Option (String × ℕ)) (r : Option Session)
    → now ≤ later
    → Agrees now v r
    → Agrees later v r
Agrees-later now later v (some r) h a = a
Agrees-later now later none none h a = tt
Agrees-later now later (some (imei, end)) none h a = omega (arith, h, a)

pub Represents-later :
    (now later : ℕ) (modems : List Modem) (f : Sessions) (s : Store)
    → now ≤ later
    → Represents now modems f s
    → Represents later modems f s
Represents-later now later modems f s h r = record {
  modems_are = r.modems_are;
  distinct = r.distinct;
  agrees = λ key. Agrees-later now later (f key) (find_session key s) h (r.agrees key);
}

abbrev pub row_answer : ℕ → Option Session → Option String
row_answer now none = none
row_answer now (some r) = if is_stale now r then none else some r.imei

pub row_answer-live_at :
    (now : ℕ) (v : Option (String × ℕ)) (o : Option Session)
    → Agrees now v o
    → row_answer now o ≡ live_at now v
unfolding is_stale
row_answer-live_at now none none a = refl
row_answer-live_at now (some (imei, end)) none a = ground (arith, a)
row_answer-live_at now v (some r) a = rw a.0 (ground (arith, a.1))

pub sticky_get-row_answer :
    (key : String) (now : ℕ) (s : Store)
    → (sticky_get key now s).0 ≡ row_answer now (find_session key s)
unfolding sticky_get
sticky_get-row_answer key now s = ground arith

-- A fetch changes nothing, or it removes the row that it found, which has ended.
sticky_get_cases :
    (key : String) (now : ℕ) (s : Store)
    → ((sticky_get key now s).1 ≡ s)
      ⊎ ((r : Session) × (find_session key s ≡ some r)
          × (is_stale now r ≡ true)
          × ((sticky_get key now s).1
              ≡ record s { sticky = Table.delete session_key key s.sticky }))
unfolding sticky_get
sticky_get_cases key now s = elim (Option-cases (find_session key s)) [
  | inl e ↦ inl (rw (sticky_get, e))
  | inr (r, e) ↦ elim (Bool-cases (is_stale now r)) [
    | inl stale ↦ inr (r, e, stale, rw (sticky_get, e, stale))
    | inr fresh ↦ inl (rw (sticky_get, e, fresh))
  ]
]

ended_row :
    (now : ℕ) (v : Option (String × ℕ)) (r : Session)
    → Agrees now v (some r)
    → is_stale now r ≡ true
    → Agrees now v none
unfolding is_stale
ended_row now v r a stale = rw a.0 (ground (arith, stale))

Agrees-deleted :
    (key j : String) (now : ℕ) (f : Sessions) (s : Store) (r : Session)
    → Agrees now (f j) (find_session j s)
    → find_session key s ≡ some r
    → is_stale now r ≡ true
    → Agrees now (f j) (if key == j then none else find_session j s)
Agrees-deleted key j now f s r a e stale = elim (Bool-cases (key == j)) [
  | inl same ↦
      let k : key ≡ j = (eq_iff key j).0 same in
      rw same (
        ended_row now (f j) r
          (subst (λ o. Agrees now (f j) o) (ap (λ i. find_session i s) (sym k) ∙ e) a) stale)
  | inr other ↦ rw other a
]

pub fetch-Represents :
    (now : ℕ) (modems : List Modem) (f : Sessions) (key : String) (s : Store)
    → Represents now modems f s
    → Represents now modems f (sticky_get key now s).1
unfolding find_session
fetch-Represents now modems f key s h = elim (sticky_get_cases key now s) [
  | inl same ↦ rw same h
  | inr (r, e, stale, gone) ↦ rw gone (record {
    modems_are = h.modems_are;
    distinct = Table.delete-Distinct session_key key s.sticky h.distinct;
    agrees = λ j.
        rw (Table.find-delete session_key key j s.sticky)
          (Agrees-deleted key j now f s r (h.agrees j) e stale);
  })
]

purge-Distinct :
    (now : ℕ) (rs : List Session)
    → Table.Distinct session_key rs
    → Table.Distinct session_key (purge now rs)
unfolding purge
purge-Distinct now [] d = tt
purge-Distinct now (r ∷ rs) d = elim (Bool-cases (ltb r.expires_at now)) [
  | inl old ↦ rw old (purge-Distinct now rs d.1)
  | inr new ↦ rw new (rw (find-purge r.key now rs d.1) (rw d.0), purge-Distinct now rs d.1)
]

abbrev purged : ℕ → Option Session → Option Session
purged now none = none
purged now (some r) = if ltb r.expires_at now then none else some r

purged-Agrees :
    (now : ℕ) (v : Option (String × ℕ)) (o : Option Session)
    → Agrees now v o
    → Agrees now v (purged now o)
purged-Agrees now v none a = a
purged-Agrees now v (some r) a = elim (Bool-cases (ltb r.expires_at now)) [
  | inl old ↦ rw (old, a.0) (ground (arith, old))
  | inr new ↦ rw new a
]

pub clean-Represents :
    (now : ℕ) (modems : List Modem) (f : Sessions) (s : Store)
    → Represents now modems f s
    → Represents now modems f (sticky_purge_expired now s)
unfolding sticky_purge_expired find_session
clean-Represents now modems f s h = record {
  modems_are = h.modems_are;
  distinct = purge-Distinct now s.sticky h.distinct;
  agrees = λ key.
      subst (λ o. Agrees now (f key) o) (sym (find-purge key now s.sticky h.distinct))
        (purged-Agrees now (f key) (Table.find session_key key s.sticky) (h.agrees key));
}

stored_shape :
    (key imei : String) (ttl now : ℕ) (s t : Store)
    → sticky_set key imei ttl now s ≡ ok t
    → Table.Distinct session_key s.sticky
    → (t.modems ≡ s.modems) × Table.Distinct session_key t.sticky
unfolding sticky_set find_session
stored_shape key imei ttl now s t h d = ground (
  arith,
  Table.find_cases session_key key s.sticky,
  Table.update-Distinct session_key key (λ r. record r { imei = imei; expires_at = now + ttl })
      s.sticky (λ r. refl) d,
  Table.insert-Distinct session_key (record { key = key; imei = imei; expires_at = now + ttl })
      s.sticky,
)

put-Agrees :
    (key j imei : String) (end now : ℕ) (f : Sessions) (o : Option Session)
    → 0 < end
    → Agrees now (f j) o
    → Agrees now
        (put key (some (imei, end)) f j)
        (if key == j then some (record { key = key; imei = imei; expires_at = end }) else o)
put-Agrees key j imei end now f o pos a = elim (Bool-cases (key == j)) [
  | inl same ↦ rw same (refl, pos)
  | inr other ↦ rw other a
]

set_refused :
    (key imei : String) (ttl now : ℕ) (s : Store)
    → get_modem imei s ≡ none
    → sticky_set key imei ttl now s ≡ err integrity_error
unfolding sticky_set
set_refused key imei ttl now s e = rw (sticky_set, e)

set_stored :
    (key imei : String) (ttl now : ℕ) (s : Store) (m : Modem)
    → get_modem imei s ≡ some m
    → (t : Store) × (sticky_set key imei ttl now s ≡ ok t)
unfolding sticky_set
set_stored key imei ttl now s m e = elim (Result-cases (sticky_set key imei ttl now s)) [
  | inl (t, h) ↦ (t, h)
  | inr (r, h) ↦ absurd (ground (arith, e, h))
]

set_stored-Represents :
    (now : ℕ) (modems : List Modem) (f : Sessions) (key imei : String) (ttl : ℕ) (s t : Store)
    → 0 < now
    → Represents now modems f s
    → sticky_set key imei ttl now s ≡ ok t
    → Represents now modems (put key (some (imei, now + ttl)) f) t
set_stored-Represents now modems f key imei ttl s t pos h e =
    let shape = stored_shape key imei ttl now s t e h.distinct in
    record {
      modems_are = shape.0 ∙ h.modems_are;
      distinct = shape.1;
      agrees = λ j.
          subst (λ o. Agrees now (put key (some (imei, now + ttl)) f j) o)
            (sym (find_session-sticky_set key j imei ttl now s t e))
            (put-Agrees key j imei (now + ttl) now f (find_session j s) (omega (arith, pos))
              (h.agrees j));
    }

known-get_modem :
    (imei : String) (modems : List Modem) (s : Store) (o : Option Modem)
    → s.modems ≡ modems
    → get_modem imei s ≡ o
    → known imei modems ≡ elim o [ none ↦ false | some m ↦ true ]
unfolding get_modem
known-get_modem imei modems s o same e =
    ap (known imei) (sym same)
    ∙ ap (λ (x : Option Modem). elim x [ none ↦ false | some m ↦ true ]) e

pub store-Represents :
    (now : ℕ) (modems : List Modem) (f : Sessions) (key imei : String) (ttl : ℕ) (s : Store)
    → 0 < now
    → Represents now modems f s
    → Represents now modems
        (if known imei modems then put key (some (imei, now + ttl)) f else f)
        (after s (sticky_set key imei ttl now s))
store-Represents now modems f key imei ttl s pos h = elim (Option-cases (get_modem imei s)) [
  | inl e ↦
      rw (known-get_modem imei modems s none h.modems_are e, set_refused key imei ttl now s e) h
  | inr (m, e) ↦
      let (t, done) = set_stored key imei ttl now s m e in
      rw (known-get_modem imei modems s (some m) h.modems_are e, done)
        (set_stored-Represents now modems f key imei ttl s t pos h done)
]
