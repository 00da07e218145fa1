-- ===== src/Compat/Calls.antt =====
-- What the storefront's calls leave alone, over any sequence of them.
use modemproxy.Prelude.{
  ℕ, ◌≡◌, refl, sym, ◌∙◌, String, List, [], ◌∷◌, Option, none, some, arith, inl, inr, if◌then◌else◌,
  Option-cases, if_cases, Bool, ap, truthy_text, ◌&&◌, or_text,
}
use modemproxy.Result.{ok, Result-cases}
use modemproxy.Db.Rows.{Store}
use modemproxy.Db.Listing.{Listed}
use modemproxy.Generator.Ports.{svc, Secrets, allocate_port, default_login}
use modemproxy.Generator.Users.{get_extra_user, set_extra_user, remove_extra_user}
use modemproxy.Generator.Sync.{
  Host, System, publish_sync, sync_pool, put_pool, pool_text, render_pool_text, pool_password,
}
use modemproxy.Generator.Proxy.{
  apply_port, apply_login, finish, bring_up, proceed_cases, render_modem,
}
use modemproxy.Text.{◌<>◌}
use modemproxy.Web.{Reply}
use modemproxy.Compat.{
  Payload, ensure_storefront_user, new_login, store_port, store_login, save_login, apply_named,
  purge_named, drop_login, on_modem, resolve, applied,
}
use modemproxy.Compat.Untouched.{
  Untouched, Untouched-refl, Untouched-trans, set_extra_user-Untouched, remove_extra_user-Untouched,
  apply_port-Untouched,
}

-- A call of the storefront's API that may change a port.
pub data CompatOp : Type 0 where
  ensure : (imei : String) → CompatOp
  store : Option Payload → CompatOp
  apply purge : (arg : Option String) → CompatOp

-- A call with what `secrets` returns during it and its time.
unfoldable pub call : Host → Secrets → String → ℕ → CompatOp → System → System
call host fresh token now (ensure imei) sys =
    (ensure_storefront_user host fresh token now imei sys).sys
call host fresh token now (store payload) sys = (store_port payload now sys).sys
call host fresh token now (apply arg) sys = (apply_named host fresh now arg sys).sys
call host fresh token now (purge arg) sys = (purge_named host fresh now arg sys).sys

unfoldable pub calls : Host → List (Secrets × String × ℕ × CompatOp) → System → System
calls host [] sys = sys
calls host ((fresh, token, now, op) ∷ cs) sys = calls host cs (call host fresh token now op sys)

abbrev pub owner_of : System → String
owner_of sys = sys.config.compat_owner

-- The storefront's owner name stays, and its calls leave the others' logins alone.
pub record Step (sys later : System) : Type 0 where
  pub owner_kept : owner_of later ≡ owner_of sys
  pub untouched : Untouched (owner_of sys) sys.db later.db

Step-refl : (sys : System) → Step sys sys
Step-refl sys = record { owner_kept = refl; untouched = Untouched-refl (owner_of sys) sys.db }

Step-trans : (sys mid later : System) → Step sys mid → Step mid later → Step sys later
Step-trans sys mid later f g = record {
  owner_kept = g.owner_kept ∙ f.owner_kept;
  untouched =
      Untouched-trans (owner_of sys) sys.db mid.db later.db f.untouched
        (rw (sym f.owner_kept) g.untouched);
}

pool_text_owner :
    (host : Host) (fresh : String) (now : ℕ) (sys : System)
    → (pool_text host fresh now sys.config sys.db).1.compat_owner ≡ sys.config.compat_owner
unfolding pool_text render_pool_text pool_password
pool_text_owner host fresh now sys = ground arith

put_pool_config :
    (host : Host) (text : Option String) (sys : System)
    → (put_pool host text sys).config ≡ sys.config
unfolding put_pool
put_pool_config host none sys = refl
put_pool_config host (some t) sys = refl

bring_up_owner :
    (host : Host) (fresh : Secrets) (now : ℕ) (imei : String) (sys : System)
    → owner_of (bring_up host fresh now imei sys) ≡ owner_of sys
unfolding bring_up publish_sync sync_pool
bring_up_owner host fresh now imei sys =
    ap (λ c. c.compat_owner) (put_pool_config host _ _)
    ∙ pool_text_owner host fresh.pool_password now sys

render_modem_config :
    (host : Host) (imei : String) (sys done : System)
    → render_modem host imei sys ≡ ok done
    → done.config ≡ sys.config
unfolding render_modem
render_modem_config host imei sys done h = ground arith

apply_port_owner :
    (host : Host) (fresh : Secrets) (now : ℕ) (imei : String) (sys : System)
    → owner_of (apply_port host fresh now imei sys).sys ≡ owner_of sys
unfolding apply_port apply_login finish
apply_port_owner host fresh now imei sys =
    proceed_cases (allocate_port sys.config imei default_login fresh now sys.db) sys _
      (λ o. owner_of o.sys ≡ owner_of sys)
      (λ s h.
        proceed_cases (render_modem host imei (record sys { db = s })) (record sys { db = s }) _
          (λ o. owner_of o.sys ≡ owner_of sys)
          (λ done g.
            bring_up_owner host fresh now imei done
            ∙ ap (λ c. c.compat_owner)
                (render_modem_config host imei (record sys { db = s }) done g))
          (λ e. refl))
      (λ e. refl)

apply_port-Step :
    (host : Host) (fresh : Secrets) (now : ℕ) (imei : String) (sys : System)
    → Step sys (apply_port host fresh now imei sys).sys
apply_port-Step host fresh now imei sys = record {
  owner_kept = apply_port_owner host fresh now imei sys;
  untouched = apply_port-Untouched host fresh now imei (owner_of sys) sys;
}

set_extra_user-Step :
    (imei username password : String) (now : ℕ) (sys : System) (t : Store)
    → set_extra_user imei (owner_of sys) username password now sys.db ≡ ok t
    → Step sys (record sys { db = t })
set_extra_user-Step imei username password now sys t h = record {
  owner_kept = refl;
  untouched = set_extra_user-Untouched imei (owner_of sys) username password now sys.db t h;
}

new_login-Step :
    (host : Host) (fresh : Secrets) (token : String) (now : ℕ) (imei : String) (sys : System)
    → Step sys (new_login host fresh token now imei sys).sys
unfolding new_login
new_login-Step host fresh token now imei sys =
    elim (Result-cases
      (set_extra_user imei (owner_of sys) (owner_of sys <> "-" <> svc imei) token now sys.db)) [
        | inr (x, e) ↦ rw (new_login, e) (Step-refl sys)
        | inl (t, e) ↦
            rw (new_login, e)
              (Step-trans sys (record sys { db = t }) _
                (set_extra_user-Step imei _ token now sys t e)
                (apply_port-Step host fresh now imei (record sys { db = t })))
      ]

ensure-Step :
    (host : Host) (fresh : Secrets) (token : String) (now : ℕ) (imei : String) (sys : System)
    → Step sys (ensure_storefront_user host fresh token now imei sys).sys
unfolding ensure_storefront_user
ensure-Step host fresh token now imei sys =
    elim (Option-cases (get_extra_user imei (owner_of sys) sys.db)) [
      | inr (u, e) ↦ rw (ensure_storefront_user, e) (Step-refl sys)
      | inl e ↦ rw (ensure_storefront_user, e) (new_login-Step host fresh token now imei sys)
    ]

on_modem-Step :
    {A : Type 0} (arg : Option String) (sys : System) (go : Listed → Reply A)
    → ((r : Listed) → Step sys (go r).sys)
    → Step sys (on_modem arg sys go).sys
unfolding on_modem
on_modem-Step arg sys go h = elim (Result-cases (resolve arg sys.db)) [
  | inl (r, e) ↦ rw (on_modem, e) (h r)
  | inr (x, e) ↦ rw (on_modem, e) (Step-refl sys)
]

save_login-Step :
    (given word : String) (now : ℕ) (imei : String) (sys : System)
    → Step sys (save_login given word now imei sys).sys
unfolding save_login
save_login-Step given word now imei sys =
    elim (Result-cases (set_extra_user imei (owner_of sys) given word now sys.db)) [
      | inr (x, e) ↦ rw (save_login, e) (Step-refl sys)
      | inl (t, e) ↦ rw (save_login, e) (set_extra_user-Step imei given word now sys t e)
    ]

store_login-Step :
    (given word : Option String) (now : ℕ) (imei : String) (sys : System)
    → Step sys (store_login given word now imei sys).sys
unfolding store_login
store_login-Step given word now imei sys =
    if_cases (λ (o : Reply Bool). Step sys o.sys) (truthy_text given && truthy_text word) _ _
      (λ t. save_login-Step (or_text given "") (or_text word "") now imei sys) (λ f. Step-refl sys)

drop_login-Step :
    (host : Host) (fresh : Secrets) (now : ℕ) (imei : String) (sys : System)
    → Step sys (drop_login host fresh now imei sys).sys
unfolding drop_login applied
drop_login-Step host fresh now imei sys =
    elim (Result-cases (remove_extra_user imei (owner_of sys) now sys.db)) [
      | inr (x, e) ↦ rw (drop_login, e) (Step-refl sys)
      | inl (t, e) ↦
          rw (drop_login, e)
            (Step-trans sys (record sys { db = t }) _
              (record {
                owner_kept = refl;
                untouched = remove_extra_user-Untouched imei (owner_of sys) now sys.db t e;
              })
              (apply_port-Step host fresh now imei (record sys { db = t })))
    ]

call-Step :
    (host : Host) (fresh : Secrets) (token : String) (now : ℕ) (op : CompatOp) (sys : System)
    → Step sys (call host fresh token now op sys)
unfolding call store_port apply_named purge_named applied
call-Step host fresh token now (ensure imei) sys = ensure-Step host fresh token now imei sys
call-Step host fresh token now (store none) sys = Step-refl sys
call-Step host fresh token now (store (some p)) sys =
    on_modem-Step (if truthy_text p.port_id then p.port_id else p.imei) sys _
      (λ r. store_login-Step p.proxy_login p.proxy_password now r.modem.imei sys)
call-Step host fresh token now (apply arg) sys =
    on_modem-Step arg sys _ (λ r. apply_port-Step host fresh now r.modem.imei sys)
call-Step host fresh token now (purge arg) sys =
    on_modem-Step arg sys _ (λ r. drop_login-Step host fresh now r.modem.imei sys)

calls-Step :
    (host : Host) (cs : List (Secrets × String × ℕ × CompatOp)) (sys : System)
    → Step sys (calls host cs sys)
unfolding calls
calls-Step host [] sys = Step-refl sys
calls-Step host ((fresh, token, now, op) ∷ cs) sys =
    Step-trans sys (call host fresh token now op sys) _ (call-Step host fresh token now op sys)
      (calls-Step host cs (call host fresh token now op sys))

-- Over any sequence of the storefront's calls (the first use of a port, store_port, apply_port,
-- purge_port, failing or not), a proxy that has a complete main login keeps it, and the extra logins
-- of every owner but the storefront's stay as they were, on all modems.
pub calls-Untouched :
    (host : Host) (cs : List (Secrets × String × ℕ × CompatOp)) (sys : System)
    → Untouched sys.config.compat_owner sys.db (calls host cs sys).db
calls-Untouched host cs sys = (calls-Step host cs sys).untouched
