-- ===== src/Generator/Proxy/Frame.antt =====
-- modemproxy/proxy/generator.py: which rows a proxy operation changes, and how.
use modemproxy.Prelude.{
  [], ◌∷◌, ℕ, String, ◌≡◌, ◌≢◌, refl, ◌∙◌, Bool, List, Option, some, arith, str_refl, str_ne,
  if◌then◌else◌,
}
use modemproxy.Result.{ok}
use modemproxy.Db.Rows.{Port, Store}
use modemproxy.Db.Ports.{PortField, get_port, set_port, set_columns, set_port_ok}
use modemproxy.Generator.Ports.{Secrets, allocate_port, allocated, default_login}
use modemproxy.Generator.Sync.{Host, System}
use modemproxy.Generator.Proxy.{
  Outcome, proceed_cases, stop_proxy, start_proxy, with_columns, stopped, apply_port, apply_login,
  finish, render_modem,
}
use modemproxy.Generator.Proxy.Sound.{publish_sync_db, bring_up_db, render_modem_db}

-- Only the rows of one modem's port may differ.
pub record Frame (imei : String) (before later : Store) : Type 0 where
  pub modems_kept : later.modems ≡ before.modems
  pub samples_kept : later.bandwidth ≡ before.bandwidth
  pub others_kept : (j : String) → imei ≢ j → get_port j later ≡ get_port j before

pub Frame-refl : (imei : String) (s : Store) → Frame imei s s
Frame-refl imei s = record { modems_kept = refl; samples_kept = refl; others_kept = λ j ne. refl }

Frame-trans : (imei : String) (s t u : Store) → Frame imei s t → Frame imei t u → Frame imei s u
Frame-trans imei s t u f g = record {
  modems_kept = g.modems_kept ∙ f.modems_kept;
  samples_kept = g.samples_kept ∙ f.samples_kept;
  others_kept = λ j ne. g.others_kept j ne ∙ f.others_kept j ne;
}

same_db-Frame : (imei : String) (s t : Store) → t ≡ s → Frame imei s t
same_db-Frame imei s t e = rw e (Frame-refl imei s)

set_port-Frame :
    (imei : String) (fields : List PortField) (now : ℕ) (s t : Store)
    → set_port imei fields now s ≡ ok t
    → Frame imei s t
unfolding set_port
set_port-Frame imei fields now s t h = record {
  modems_kept = ground arith;
  samples_kept = ground arith;
  others_kept = λ j ne. (set_port_ok imei j fields now s t h).0 ∙ rw (str_ne imei j ne) refl;
}

finish_db :
    (host : Host) (fresh : Secrets) (now : ℕ) (imei : String) (sys : System)
    → (finish host fresh now imei sys).sys.db ≡ sys.db
unfolding finish
finish_db host fresh now imei sys =
    proceed_cases (render_modem host imei sys) sys _ (λ o. o.sys.db ≡ sys.db)
      (λ done h. bring_up_db host fresh now imei done ∙ render_modem_db host imei sys done h)
      (λ e. refl)

finish_row :
    (host : Host) (fresh : Secrets) (now : ℕ) (imei : String) (sys : System) (p : Port)
    → get_port imei sys.db ≡ some p
    → get_port imei (finish host fresh now imei sys).sys.db ≡ some p
finish_row host fresh now imei sys p e = rw (finish_db host fresh now imei sys) e

apply_port-Frame :
    (host : Host) (fresh : Secrets) (now : ℕ) (imei : String) (sys : System)
    → Frame imei sys.db (apply_port host fresh now imei sys).sys.db
unfolding apply_port apply_login allocate_port
apply_port-Frame host fresh now imei sys =
    proceed_cases (allocate_port sys.config imei default_login fresh now sys.db) sys _
      (λ o. Frame imei sys.db o.sys.db)
      (λ s h.
        Frame-trans imei sys.db s _
          (set_port-Frame imei (allocated sys.config imei default_login fresh sys.db) now sys.db s
            h)
          (same_db-Frame imei s _ (finish_db host fresh now imei (record sys { db = s }))))
      (λ e. Frame-refl imei sys.db)

with_columns-Frame :
    (imei : String) (fields : List PortField) (now : ℕ) (sys : System) (rest : System → Outcome)
    → ((done : System) → Frame imei done.db (rest done).sys.db)
    → Frame imei sys.db (with_columns imei fields now sys rest).sys.db
unfolding with_columns
with_columns-Frame imei fields now sys rest later =
    proceed_cases (set_port imei fields now sys.db) sys _ (λ o. Frame imei sys.db o.sys.db)
      (λ s h.
        Frame-trans imei sys.db s _ (set_port-Frame imei fields now sys.db s h)
          (later (record sys { db = s })))
      (λ e. Frame-refl imei sys.db)

stopped_db :
    (host : Host) (fresh : Secrets) (now : ℕ) (imei : String) (sys : System)
    → (stopped host fresh now imei sys).sys.db ≡ sys.db
unfolding stopped
stopped_db host fresh now imei sys = publish_sync_db host fresh.pool_password now _

-- Starting a proxy changes no modem, no traffic sample and no other modem's port row, whether or
-- not it raises.
pub start_proxy-Frame :
    (host : Host) (fresh : Secrets) (now : ℕ) (imei : String) (sys : System)
    → Frame imei sys.db (start_proxy host fresh now imei sys).sys.db
unfolding start_proxy
start_proxy-Frame host fresh now imei sys =
    with_columns-Frame imei _ now sys (apply_port host fresh now imei)
      (apply_port-Frame host fresh now imei)

pub stop_proxy-Frame :
    (host : Host) (fresh : Secrets) (now : ℕ) (imei : String) (locked : Bool) (sys : System)
    → Frame imei sys.db (stop_proxy host fresh now imei locked sys).sys.db
unfolding stop_proxy
stop_proxy-Frame host fresh now imei locked sys =
    with_columns-Frame imei _ now sys (stopped host fresh now imei)
      (λ done. same_db-Frame imei done.db _ (stopped_db host fresh now imei done))

set_port_row :
    (imei : String) (fields : List PortField) (now : ℕ) (s t : Store) (p : Port)
    → set_port imei fields now s ≡ ok t
    → get_port imei s ≡ some p
    → get_port imei t ≡ some (set_columns p fields)
set_port_row imei fields now s t p h e =
    (set_port_ok imei imei fields now s t h).0 ∙ rw (str_refl imei, e) refl

disabled_row :
    (imei : String) (now : ℕ) (s t : Store) (locked : Bool) (q : Port)
    → set_port imei
        (PortField.enabled 0 ∷ PortField.quota_locked (if locked then 1 else 0) ∷ [])
        now
        s
      ≡ ok t
    → get_port imei t ≡ some q
    → q.enabled ≡ 0
unfolding set_columns
disabled_row imei now s t locked q h e =
    let row = (set_port_ok imei imei _ now s t h).0 in ground (arith, row, str_refl imei, e)

-- A stopped proxy's row: disabled, and marked as stopped by its quota or not.
pub stop_proxy_row :
    (host : Host) (fresh : Secrets) (now : ℕ) (imei : String) (locked : Bool) (sys : System)
    (p : Port) (r : Option Port)
    → get_port imei sys.db ≡ some p
    → (stop_proxy host fresh now imei locked sys).value ≡ ok r
    → get_port imei (stop_proxy host fresh now imei locked sys).sys.db
      ≡ some (record p { enabled = 0; quota_locked = if locked then 1 else 0 })
unfolding stop_proxy with_columns stopped set_columns
stop_proxy_row host fresh now imei locked sys p r e h =
    proceed_cases (set_port imei _ now sys.db) sys _
      (λ o.
        o.value ≡ ok r
        → get_port imei o.sys.db
          ≡ some (record p { enabled = 0; quota_locked = if locked then 1 else 0 }))
      (λ s f g.
        rw (publish_sync_db host fresh.pool_password now _)
          (set_port_row imei _ now sys.db s p f e))
      (λ err g. absurd (cc g)) h

pub stop_proxy_disabled :
    (host : Host) (fresh : Secrets) (now : ℕ) (imei : String) (locked : Bool) (sys : System)
    (r : Option Port) (q : Port)
    → (stop_proxy host fresh now imei locked sys).value ≡ ok r
    → get_port imei (stop_proxy host fresh now imei locked sys).sys.db ≡ some q
    → q.enabled ≡ 0
unfolding stop_proxy with_columns stopped set_columns
stop_proxy_disabled host fresh now imei locked sys r q h =
    proceed_cases (set_port imei _ now sys.db) sys _
      (λ o. o.value ≡ ok r → get_port imei o.sys.db ≡ some q → q.enabled ≡ 0)
      (λ s f g found.
        disabled_row imei now sys.db s locked q f
          (rw (publish_sync_db host fresh.pool_password now _) at found))
      (λ err g. absurd (cc g)) h

-- What stays, and what is set, when a proxy is brought up.
pub record Restarted (before later : Port) : Type 0 where
  pub is_enabled : later.enabled ≡ 1
  pub lock_kept : later.quota_locked ≡ before.quota_locked
  pub quota_kept : later.quota_bytes ≡ before.quota_bytes
  pub direction_kept : later.quota_direction ≡ before.quota_direction
  pub expiry_kept : later.expires_at ≡ before.expires_at

allocated-Restarted :
    (sys : System) (imei : String) (fresh : Secrets) (s : Store) (p : Port)
    → Restarted p (set_columns p (allocated sys.config imei default_login fresh s))
unfolding allocated set_columns
allocated-Restarted sys imei fresh s p = record {
  is_enabled = refl;
  lock_kept = refl;
  quota_kept = refl;
  direction_kept = refl;
  expiry_kept = refl;
}

abbrev pub RowAfter : (Port → Type 0) → String → Store → Type 0
RowAfter P imei s = (q : Port) × (get_port imei s ≡ some q) × P q

apply_port_row :
    (host : Host) (fresh : Secrets) (now : ℕ) (imei : String) (sys : System) (p : Port)
    (r : Option Port)
    → get_port imei sys.db ≡ some p
    → (apply_port host fresh now imei sys).value ≡ ok r
    → RowAfter (Restarted p) imei (apply_port host fresh now imei sys).sys.db
unfolding apply_port apply_login allocate_port
apply_port_row host fresh now imei sys p r e h =
    proceed_cases (allocate_port sys.config imei default_login fresh now sys.db) sys _
      (λ o. o.value ≡ ok r → RowAfter (Restarted p) imei o.sys.db)
      (λ s f g. (
        set_columns p (allocated sys.config imei default_login fresh sys.db),
        finish_row host fresh now imei (record sys { db = s }) _
            (set_port_row imei (allocated sys.config imei default_login fresh sys.db) now sys.db s p
              f e),
        allocated-Restarted sys imei fresh sys.db p,
      ))
      (λ err g. absurd (cc g)) h

-- A started proxy's row: enabled, and not locked by its quota.
pub start_proxy_row :
    (host : Host) (fresh : Secrets) (now : ℕ) (imei : String) (sys : System) (p : Port)
    (r : Option Port)
    → get_port imei sys.db ≡ some p
    → (start_proxy host fresh now imei sys).value ≡ ok r
    → RowAfter
        (Restarted (record p { quota_locked = 0 }))
        imei
        (start_proxy host fresh now imei sys).sys.db
unfolding start_proxy with_columns set_columns
start_proxy_row host fresh now imei sys p r e h =
    proceed_cases (set_port imei _ now sys.db) sys _
      (λ o. o.value ≡ ok r → RowAfter (Restarted (record p { quota_locked = 0 })) imei o.sys.db)
      (λ s f g.
        apply_port_row host fresh now imei (record sys { db = s }) _ r
          (set_port_row imei _ now sys.db s p f e) g)
      (λ err g. absurd (cc g)) h
