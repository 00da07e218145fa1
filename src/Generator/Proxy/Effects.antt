-- ===== src/Generator/Proxy/Effects.antt =====
-- modemproxy/proxy/generator.py: what the proxy operations leave in the pool and in the files.
use modemproxy.Prelude.{
  ℕ, String, ◌≡◌, ◌≢◌, ◌∙◌, Bool, false, List, [], ◌∷◌, Option, none, some, arith, eq_iff, ◌==◌,
  str_refl, if◌then◌else◌, Option-cases, inl, inr, has_text,
}
use modemproxy.Text.{◌<>◌}
use modemproxy.Result.{ok, err, value_error}
use modemproxy.Table
use modemproxy.Db.Rows.{Modem, Port, Store}
use modemproxy.Db.Modems.{get_modem, modem_key}
use modemproxy.Db.Ports.{PortField, get_port, set_port, set_columns, set_port_ok}
use modemproxy.Generator.Ports.{svc, Secrets, allocate_port, allocated, default_login}
use modemproxy.Generator.Pool.{pool_members, is_live, serves}
use modemproxy.Generator.Pool.Members.{member_imeis, pool_members_rows}
use modemproxy.Generator.Sync.{
  Host, System, ProxyFile, publish_sync, sync_pool, put_pool, put_text, file_key, write_file,
  pool_svc,
}
use modemproxy.Generator.Proxy.{
  proceed_cases, stop_proxy, with_columns, stopped, proceed, apply_port, apply_login, finish,
  bring_up, render_modem, modem_text,
}
use modemproxy.Generator.Proxy.Sound.{publish_sync_db, bring_up_db}

find-write_file :
    (name text j : String) (files : List ProxyFile)
    → Table.find file_key j (write_file name text files) ≡ (
        if name == j
        then some (record { svc = name; text = text })
        else Table.find file_key j files)
unfolding write_file
find-write_file name text j files = ground (
  arith,
  eq_iff name j,
  Table.find-insert file_key j (record { svc = name; text = text })
      (Table.delete file_key name files),
  Table.find-delete file_key name j files,
)

-- Bringing the pool up to date touches no file but the pool's own.
put_pool_files :
    (host : Host) (text : Option String) (sys : System) (j : String)
    → j ≢ pool_svc
    → Table.find file_key j (put_pool host text sys).files ≡ Table.find file_key j sys.files
unfolding put_pool put_text
put_pool_files host none sys j ne =
    ground (arith, Table.find-delete file_key pool_svc j sys.files, eq_iff pool_svc j, ne)
put_pool_files host (some t) sys j ne =
    ground (arith, find-write_file pool_svc t j sys.files, eq_iff pool_svc j, ne)

publish_sync_files :
    (host : Host) (fresh : String) (now : ℕ) (sys : System) (j : String)
    → j ≢ pool_svc
    → Table.find file_key j (publish_sync host fresh now sys).files
      ≡ Table.find file_key j sys.files
unfolding publish_sync sync_pool
publish_sync_files host fresh now sys j ne = put_pool_files host _ _ j ne

bring_up_files :
    (host : Host) (fresh : Secrets) (now : ℕ) (imei : String) (sys : System) (j : String)
    → j ≢ pool_svc
    → Table.find file_key j (bring_up host fresh now imei sys).files
      ≡ Table.find file_key j sys.files
unfolding bring_up
bring_up_files host fresh now imei sys j ne = publish_sync_files host fresh.pool_password now _ j ne

-- The generated file of a modem's proxy.
abbrev pub rendered : Host → String → System → Modem → Port → ProxyFile
rendered host imei sys m p = record { svc = svc imei; text = modem_text host sys.config m p }

render_modem-none :
    (host : Host) (imei : String) (sys : System)
    → get_port imei sys.db ≡ none
    → render_modem host imei sys ≡ err (value_error ("modem/port not configured for " <> imei))
unfolding render_modem
render_modem-none host imei sys ep = ground arith

render_modem-some :
    (host : Host) (imei : String) (sys : System) (m : Modem) (p : Port)
    → get_modem imei sys.db ≡ some m
    → get_port imei sys.db ≡ some p
    → render_modem host imei sys
      ≡ ok (record sys { files = write_file (svc imei) (modem_text host sys.config m p) sys.files })
unfolding render_modem
render_modem-some host imei sys m p em ep = ground arith

finish_file :
    (host : Host) (fresh : Secrets) (now : ℕ) (imei : String) (sys : System) (m : Modem) (p : Port)
    → svc imei ≢ pool_svc
    → get_modem imei sys.db ≡ some m
    → (finish host fresh now imei sys).value ≡ ok (some p)
    → (get_port imei (finish host fresh now imei sys).sys.db ≡ some p)
      × (Table.find file_key (svc imei) (finish host fresh now imei sys).sys.files
          ≡ some (rendered host imei sys m p))
unfolding finish proceed
finish_file host fresh now imei sys m p ne em h = elim (Option-cases (get_port imei sys.db)) [
  | inl ep ↦ absurd (ground (arith, render_modem-none host imei sys ep))
  | inr (q, ep) ↦
      let done = record sys {
        files = write_file (svc imei) (modem_text host sys.config m q) sys.files;
      } in
      ground (
        arith,
        render_modem-some host imei sys m q em ep,
        bring_up_db host fresh now imei done,
        bring_up_files host fresh now imei done (svc imei) ne,
        find-write_file (svc imei) (modem_text host sys.config m q) (svc imei) sys.files,
        eq_iff (svc imei) (svc imei),
      )
]

-- If apply_port returns a row, that is the row of the port table afterwards, and the modem's
-- configuration file is the one rendered from it, whatever the files were before and although the
-- pool's file in the same directory is brought up to date at the end; for a modem whose file name is
-- not the pool's.
pub apply_port_file :
    (host : Host) (fresh : Secrets) (now : ℕ) (imei : String) (sys : System) (m : Modem) (p : Port)
    → svc imei ≢ pool_svc
    → get_modem imei sys.db ≡ some m
    → (apply_port host fresh now imei sys).value ≡ ok (some p)
    → (get_port imei (apply_port host fresh now imei sys).sys.db ≡ some p)
      × (Table.find file_key (svc imei) (apply_port host fresh now imei sys).sys.files
          ≡ some (rendered host imei sys m p))
unfolding apply_port apply_login allocate_port
apply_port_file host fresh now imei sys m p ne em h =
    proceed_cases (allocate_port sys.config imei default_login fresh now sys.db) _ _
      (λ o.
        o.value ≡ ok (some p)
        → (get_port imei o.sys.db ≡ some p)
          × (Table.find file_key (svc imei) o.sys.files ≡ some (rendered host imei sys m p)))
      (λ s e.
        finish_file host fresh now imei (record sys { db = s }) m p ne
          ((set_port_ok imei imei (allocated sys.config imei default_login fresh sys.db) now sys.db
              s e).1
            ∙ em))
      (λ e f. absurd (cc f)) h

set_port_modems :
    (imei : String) (fields : List PortField) (now : ℕ) (s t : Store)
    → set_port imei fields now s ≡ ok t
    → t.modems ≡ s.modems
unfolding set_port
set_port_modems imei fields now s t h = ground arith

off_disabled :
    (now : ℕ) (p : Port) (locked : Bool)
    → serves now (
        some (
          set_columns p
            (PortField.enabled 0 ∷ PortField.quota_locked (if locked then 1 else 0) ∷ [])))
      ≡ false
unfolding serves set_columns
off_disabled now p locked = ground arith

-- A modem that does not serve is not a member.
out_of_pool :
    (now : ℕ) (s : Store) (imei : String)
    → Table.Distinct modem_key s.modems
    → serves now (get_port imei s) ≡ false
    → has_text imei (member_imeis (pool_members now s)) ≡ false
unfolding is_live get_modem
out_of_pool now s imei d off =
    ground (arith, pool_members_rows now s imei d, Table.find_cases modem_key imei s.modems)

-- A modem whose proxy was stopped is not in the pool, whether it was stopped by hand or by its
-- quota.
pub pool_members-stop_proxy :
    (host : Host) (fresh : Secrets) (now later : ℕ) (imei : String) (locked : Bool) (sys : System)
    → Table.Distinct modem_key sys.db.modems
    → (stop_proxy host fresh now imei locked sys).value ≡ ok none
    → has_text imei
        (member_imeis (pool_members later (stop_proxy host fresh now imei locked sys).sys.db))
      ≡ false
unfolding stop_proxy with_columns stopped
pool_members-stop_proxy host fresh now later imei locked sys d h =
    proceed_cases (set_port imei _ now sys.db) _ _
      (λ o. o.value ≡ ok none → has_text imei (member_imeis (pool_members later o.sys.db)) ≡ false)
      (λ s e f. rw (publish_sync_db host fresh.pool_password now _) (
        out_of_pool later s imei (rw (set_port_modems imei _ now sys.db s e) d) (
          rw (set_port_ok imei imei _ now sys.db s e).0
            (rw (str_refl imei) (off_disabled later _ locked)))))
      (λ e f. absurd (cc f)) h
