-- ===== src/Generator/Sync/Stable.antt =====
-- modemproxy/proxy/generator.py: a sync of the pool that finds nothing new restarts nothing.
use modemproxy.Prelude.{
  ℕ, String, ◌≡◌, refl, true, List, [], ◌∷◌, ◌++◌, Option, none, some, arith, nonempty, str_refl,
  eq_iff, ap, if_cases,
}
use modemproxy.Table
use modemproxy.Config.{Config}
use modemproxy.Db.Rows.{Store}
use modemproxy.Publish.{Effect, systemctl}
use modemproxy.Generator.Pool.{pool_ports}
use modemproxy.Generator.Sync.{
  Host, System, as_root, pool_unit, dns_of, pool_password, render_pool_text, pool_text, same_text,
  put_pool, sync_pool, put_text, write_file, pool_file, pool_svc, file_key, ProxyFile,
}

pool_text_stable :
    (host : Host) (fresh again : String) (now : ℕ) (cfg : Config) (s : Store)
    → host.config_writable ≡ true
    → nonempty fresh ≡ true
    → pool_text host again now (pool_text host fresh now cfg s).1 s ≡ pool_text host fresh now cfg s
unfolding pool_text render_pool_text pool_password dns_of pool_ports
pool_text_stable host fresh again now cfg s writable pos = ground arith

-- What a sync does for a pool file that is already right: it makes sure that the unit runs.
abbrev pub idle : Option String → List Effect
idle none = systemctl "stop" pool_unit ∷ systemctl "disable" pool_unit ∷ []
idle (some t) = systemctl "enable" pool_unit ∷ systemctl "start" pool_unit ∷ []

pool_file-write_file :
    (t : String) (files : List ProxyFile) → pool_file (write_file pool_svc t files) ≡ some t
unfolding write_file
pool_file-write_file t files =
    rw
      (
        Table.find-insert file_key pool_svc (record { svc = pool_svc; text = t })
            (Table.delete file_key pool_svc files),
        Table.find-delete file_key pool_svc pool_svc files,
      )
      refl

same_text-some : (t : String) (o : Option String) → same_text t o ≡ true → o ≡ some t
unfolding same_text
same_text-some t none h = absurd (cc h)
same_text-some t (some old) h = ap some ((eq_iff old t).0 h)

pool_file-put_text : (t : String) (files : List ProxyFile) → pool_file (put_text t files) ≡ some t
unfolding put_text same_text
pool_file-put_text t files =
    if_cases (λ fs. pool_file fs ≡ some t) (same_text t (pool_file files)) files
      (write_file pool_svc t files) (same_text-some t (pool_file files))
      (λ other. pool_file-write_file t files)

pool_file-delete :
    (files : List ProxyFile) → pool_file (Table.delete file_key pool_svc files) ≡ none
pool_file-delete files = rw (Table.find-delete file_key pool_svc pool_svc files) refl

put_text-put_text :
    (t : String) (files : List ProxyFile) → put_text t (put_text t files) ≡ put_text t files
unfolding put_text same_text
put_text-put_text t files = rw (pool_file-put_text t files, str_refl t) refl

-- The same for any way to find the text that is stable.
put_pool_again :
    (host : Host) (sys : System) (find_text : Config → Store → Option String × Config)
    (text : Option String) (cfg : Config)
    → find_text cfg sys.db ≡ (text, cfg)
    → let done = put_pool host text (record sys { config = cfg }) in
      put_pool host
        (find_text done.config done.db).0
        (record done { config = (find_text done.config done.db).1 })
      ≡ record done { effects = done.effects ++ as_root host (idle (pool_file done.files)) }
unfolding put_pool same_text
put_pool_again host sys find_text none cfg h =
    rw (h, Table.delete-delete file_key pool_svc sys.files, pool_file-delete sys.files) refl
put_pool_again host sys find_text (some t) cfg h =
    rw (h, put_text-put_text t sys.files, pool_file-put_text t sys.files, str_refl t) refl

-- If the configuration file can be written and a new password is not empty, a second sync at the
-- same time changes no file, no row and no setting, and does not restart the pool's proxy: with a
-- file in place it only enables and starts the unit, without one it stops and disables it.
pub sync_pool-sync_pool :
    (host : Host) (fresh again : String) (now : ℕ) (sys : System)
    → host.config_writable ≡ true
    → nonempty fresh ≡ true
    → sync_pool host again now (sync_pool host fresh now sys)
      ≡ record (sync_pool host fresh now sys) {
        effects =
            (sync_pool host fresh now sys).effects
            ++ as_root host (idle (pool_file (sync_pool host fresh now sys).files));
      }
unfolding sync_pool
sync_pool-sync_pool host fresh again now sys writable pos =
    put_pool_again host sys (λ cfg s. pool_text host again now cfg s) _ _
      (pool_text_stable host fresh again now sys.config sys.db writable pos)
