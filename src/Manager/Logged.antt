-- ===== src/Manager/Logged.antt =====
-- What manager.rotate leaves in the rotation log and answers.
use modemproxy.Prelude.{
  ℕ, ◌≡◌, refl, ◌∙◌, ap, String, true, false, List, [], ◌∷◌, ◌++◌, Option, some, arith, inl, inr,
  if◌then◌else◌, Bool-cases, sym, Option-cases, str_refl, if_cases, truthy_text,
}
use modemproxy.Result.{Result, ok, err, Error}
use modemproxy.Events.{Event}
use modemproxy.Db.Rows.{Modem, Rotation, Store, blank_modem}
use modemproxy.Db.Modems.{
  ModemField, get_modem, upsert_modem, get_modem-upsert_modem, upsert_modem_log, set_columns,
}
use modemproxy.Db.Rotation.{log_rotation}
use modemproxy.Generator.Sync.{System}
use modemproxy.Services.Notify.{announce, announce_log}
use modemproxy.Services.Autoreboot.{record_fault_log}
use modemproxy.Services.Geoip.{refresh_modems, refresh_modems_log}
use modemproxy.Manager.{
  Field, Rotated, RotateOutcome, rotate, finish, decide, reach, store_ip, rotate_done,
  rotate_failed, too_soon, known_ip, shown_name, error_text, fault,
}

abbrev pub row : String → Option String → Option String → String → ℕ → Rotation
row imei old_ip new_ip reason now = record {
  imei = imei;
  old_ip = old_ip;
  new_ip = new_ip;
  reason = reason;
  ts = now;
}

-- The rows of a rotation that answered.
abbrev pub rows_of : String → ℕ → Result Rotated → List Rotation
rows_of reason now (err e) = []
rows_of reason now (ok r) = if r.skipped then [] else row r.imei r.old_ip r.new_ip reason now ∷ []

abbrev ip_fields : Option String → ℕ → List ModemField
ip_fields new_ip now = ModemField.ip new_ip ∷ ModemField.last_seen (some now) ∷ []

upserted_is_there :
    (imei : String) (fields : List ModemField) (now : ℕ) (s : Store)
    → (m : Modem) × (get_modem imei (upsert_modem imei fields now s) ≡ some m)
upserted_is_there imei fields now s = elim (Option-cases (get_modem imei s)) [
  | inl e ↦ (
    set_columns (blank_modem imei now) fields,
    rw (get_modem-upsert_modem imei imei fields now s, str_refl imei, e) refl,
  )
  | inr (m, e) ↦ (
    set_columns m fields,
    rw (get_modem-upsert_modem imei imei fields now s, str_refl imei, e) refl,
  )
]

-- The address is always stored: the row that upsert_modem leaves is the one that the log refers to.
store_ip_lem :
    (imei reason : String) (old_ip new_ip : Option String) (now : ℕ) (s : Store)
    → store_ip imei reason old_ip new_ip now s
      ≡ ok (record (upsert_modem imei (ip_fields new_ip now) now s) {
        rotation_log = s.rotation_log ++ row imei old_ip new_ip reason now ∷ [];
      })
unfolding store_ip log_rotation
store_ip_lem imei reason old_ip new_ip now s =
    let (m, e) = upserted_is_there imei (ip_fields new_ip now) now s in
    rw (store_ip, log_rotation, e, upsert_modem_log imei (ip_fields new_ip now) now s) refl

fault_log :
    (field : Field) (imei : String) (points now : ℕ) (sys : System)
    → ((fault field imei points now sys).db.rotation_log ≡ sys.db.rotation_log)
      × ((fault field imei points now sys).config ≡ sys.config)
unfolding fault
fault_log field imei points now sys = (
  ground (arith, record_fault_log field.works imei points now sys),
  ground (arith, record_fault_log field.works imei points now sys),
)

rotate_failed_log :
    (field : Field) (imei : String) (e : Error) (now : ℕ) (sys : System)
    → ((rotate_failed field imei e now sys).db.rotation_log ≡ sys.db.rotation_log)
      × ((rotate_failed field imei e now sys).config ≡ sys.config)
unfolding rotate_failed
rotate_failed_log field imei e now sys =
    let told =
      announce_log
        (Event.rotation_fail imei (shown_name imei (get_modem imei sys.db)) (error_text e)) now
        sys in
    let scored = fault_log field imei sys.config.score_rotation_fail now (
      announce (Event.rotation_fail imei (shown_name imei (get_modem imei sys.db)) (error_text e))
        now sys) in
    (scored.0 ∙ told.0, scored.1 ∙ told.1)

labelled : Field → ℕ → System → System
labelled field now sys = record sys { db = (refresh_modems field.fetch sys.config now sys.db).1 }

rotate_done_log :
    (field : Field) (imei name : String) (old_ip new_ip : Option String) (now : ℕ) (sys : System)
    → ((rotate_done field imei name old_ip new_ip now sys).db.rotation_log ≡ sys.db.rotation_log)
      × ((rotate_done field imei name old_ip new_ip now sys).config ≡ sys.config)
unfolding rotate_done labelled
rotate_done_log field imei name old_ip new_ip now sys =
    let kept = refresh_modems_log field.fetch sys.config now sys.db in
    let faulty =
      fault_log field imei sys.config.score_ip_not_detected now (labelled field now sys) in
    let scored =
      if_cases (λ (x : System). (x.db.rotation_log ≡ sys.db.rotation_log) × (x.config ≡ sys.config))
        (truthy_text new_ip) (labelled field now sys)
        (fault field imei sys.config.score_ip_not_detected now (labelled field now sys))
        (λ h. (kept, refl)) (λ h. (faulty.0 ∙ kept, faulty.1)) in
    let told = announce_log _ now _ in (told.0 ∙ scored.0, told.1 ∙ scored.1)

abbrev pub answer_of : String → Option Modem → Option String → Rotated
answer_of imei old new_ip = record {
  imei = imei;
  old_ip = known_ip old;
  new_ip = new_ip;
  skipped = false;
}

-- The value, the configuration and the rotation log of an outcome.
pub record Logged (imei reason : String) (now : ℕ) (sys : System) (o : RotateOutcome)
    (value : Result Rotated) : Type 0 where
  pub value_is : o.value ≡ value
  pub log_is : o.sys.db.rotation_log ≡ sys.db.rotation_log ++ rows_of reason now value
  pub config_is : o.sys.config ≡ sys.config

finish-Logged :
    (field : Field) (imei reason : String) (old : Option Modem) (new_ip : Option String) (now : ℕ)
    (sys : System)
    → Logged imei reason now sys
        (finish field imei reason old new_ip now sys)
        (ok (answer_of imei old new_ip))
unfolding finish
finish-Logged field imei reason old new_ip now sys =
    let done =
      rotate_done_log field imei (shown_name imei old) (known_ip old) new_ip now (record sys {
        db = record (upsert_modem imei (ip_fields new_ip now) now sys.db) {
          rotation_log = sys.db.rotation_log ++ row imei (known_ip old) new_ip reason now ∷ [];
        };
      }) in
    rw (finish, store_ip_lem imei reason (known_ip old) new_ip now sys.db)
      (record { value_is = refl; log_is = done.0; config_is = done.1 })

append_nil {ℓ} : {A : Type ℓ} (xs : List A) → xs ≡ xs ++ []
append_nil [] = refl
append_nil (x ∷ xs) = ap (λ ys. x ∷ ys) (append_nil xs)

abbrev pub answered : String → Option Modem → Result (Option String) → Result Rotated
answered imei old (err e) = err e
answered imei old (ok new_ip) = ok (answer_of imei old new_ip)

decide-Logged :
    (field : Field) (imei reason : String) (old : Option Modem) (r : Result (Option String))
    (now : ℕ) (sys : System)
    → Logged imei reason now sys (decide field imei reason old r now sys) (answered imei old r)
unfolding decide
decide-Logged field imei reason old (ok new_ip) now sys =
    finish-Logged field imei reason old new_ip now sys
decide-Logged field imei reason old (err e) now sys =
    let failed = rotate_failed_log field imei e now sys in
    record {
      value_is = refl;
      log_is = failed.0 ∙ append_nil sys.db.rotation_log;
      config_is = failed.1;
    }

pub rotate-Logged :
    (field : Field) (imei reason : String) (now : ℕ) (sys : System)
    → too_soon imei now sys ≡ false
    → Logged imei reason now sys (rotate field imei reason now sys) (
        answered imei (get_modem imei sys.db) (reach field imei (get_modem imei sys.db) sys.config))
unfolding rotate
rotate-Logged field imei reason now sys h =
    rw (rotate, h)
      (decide-Logged field imei reason (get_modem imei sys.db)
        (reach field imei (get_modem imei sys.db) sys.config) now sys)

-- The outcome of a rotation that comes too soon.
abbrev pub skipped_now : String → System → RotateOutcome
skipped_now imei sys = record {
  value = ok (record {
    imei = imei;
    old_ip = known_ip (get_modem imei sys.db);
    new_ip = known_ip (get_modem imei sys.db);
    skipped = true;
  });
  sys = sys;
}

pub rotate_skip :
    (field : Field) (imei reason : String) (now : ℕ) (sys : System)
    → too_soon imei now sys ≡ true
    → rotate field imei reason now sys ≡ skipped_now imei sys
unfolding rotate
rotate_skip field imei reason now sys h = rw (rotate, h) refl

-- A rotation appends one row to the rotation log when it reached an answer, with the addresses and
-- the reason of its answer, and none when it was skipped or ended in an exception; every error path
-- leaves the log as it was.
pub rotate-rows_of :
    (field : Field) (imei reason : String) (now : ℕ) (sys : System)
    → (rotate field imei reason now sys).sys.db.rotation_log
      ≡ sys.db.rotation_log ++ rows_of reason now (rotate field imei reason now sys).value
rotate-rows_of field imei reason now sys = elim (Bool-cases (too_soon imei now sys)) [
  | inl h ↦ rw (rotate_skip field imei reason now sys h) (append_nil sys.db.rotation_log)
  | inr h ↦
      let l = rotate-Logged field imei reason now sys h in
      l.log_is ∙ ap (λ v. sys.db.rotation_log ++ rows_of reason now v) (sym l.value_is)
]
