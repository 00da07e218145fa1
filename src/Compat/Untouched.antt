-- ===== src/Compat/Untouched.antt =====
-- What the storefront's calls leave alone: the main logins, and the extra logins of other owners.
use modemproxy.Prelude.{
  ℕ, ◌≡◌, ◌≢◌, refl, sym, ap, ◌∙◌, String, true, List, [], ◌∷◌, Option, none, some, arith, inl, inr,
  eq_iff, ◌==◌, str_refl, str_ne, truthy_text, or_text, Bool-cases,
}
use modemproxy.Result.{ok}
use modemproxy.Db.Rows.{Port, Store}
use modemproxy.Db.Ports.{PortField, get_port, set_port, set_columns, set_column, set_port_ok, over}
use modemproxy.Generator.Ports.{Secrets, allocate_port, allocated, default_login}
use modemproxy.Generator.Users.{
  get_extra_user, set_extra_user, remove_extra_user, column_of, set_extra_user_row,
  remove_extra_user_row, get_extra_user-column, get_extra_user-set_extra_user,
  get_extra_user-remove_extra_user,
}
use modemproxy.Generator.Sync.{Host, System}
use modemproxy.Generator.Proxy.{apply_port, apply_login, finish, proceed_cases, render_modem}
use modemproxy.Generator.Proxy.Sound.{bring_up_db, render_modem_db}

-- A proxy with a complete main login still has that login, and the other owners theirs.
pub record Untouched (owner : String) (before later : Store) : Type 0 where
  pub main_kept :
      (j : String) (p : Port)
      → get_port j before ≡ some p
      → truthy_text p.username ≡ true
      → truthy_text p.password ≡ true
      → (q : Port) × (get_port j later ≡ some q)
        × (q.username ≡ p.username)
        × (q.password ≡ p.password)
  pub others_kept :
      (j other : String)
      → owner ≢ other
      → get_extra_user j other later ≡ get_extra_user j other before

pub Untouched-refl : (owner : String) (s : Store) → Untouched owner s s
Untouched-refl owner s = record {
  main_kept = λ j p e u w. (p, e, refl, refl);
  others_kept = λ j other ne. refl;
}

pub Untouched-trans :
    (owner : String) (s t u : Store)
    → Untouched owner s t
    → Untouched owner t u
    → Untouched owner s u
Untouched-trans owner s t u f g = record {
  main_kept = λ j p e a b.
      let (q, there, name, word) = f.main_kept j p e a b in
      let (r, later, name', word') =
        g.main_kept j q there (ap truthy_text name ∙ a) (ap truthy_text word ∙ b) in
      (r, later, name' ∙ name, word' ∙ word);
  others_kept = λ j other ne. g.others_kept j other ne ∙ f.others_kept j other ne;
}

-- Writing columns that leave the login as it is.
set_port_main :
    (imei : String) (fields : List PortField) (now : ℕ) (s t : Store) (j : String) (p : Port)
    → set_port imei fields now s ≡ ok t
    → ((row : Port)
        → get_port imei s ≡ some row
        → truthy_text row.username ≡ true
        → truthy_text row.password ≡ true
        → ((set_columns row fields).username ≡ row.username)
          × ((set_columns row fields).password ≡ row.password))
    → get_port j s ≡ some p
    → truthy_text p.username ≡ true
    → truthy_text p.password ≡ true
    → (q : Port) × (get_port j t ≡ some q) × (q.username ≡ p.username) × (q.password ≡ p.password)
set_port_main imei fields now s t j p h kept e a b =
    let (row, _) = set_port_ok imei j fields now s t h in
    elim (Bool-cases (imei == j)) [
      | inl same ↦
          let here : get_port imei s ≡ some p =
            ap (λ i. get_port i s) ((eq_iff imei j).0 same) ∙ e in
          let login = kept p here a b in
          (set_columns p fields, row ∙ rw (same, here) refl, login.0, login.1)
      | inr other ↦ (p, row ∙ rw (other, e) refl, refl, refl)
    ]

-- Writing to the row of one modem keeps a login if that modem keeps it.
extras_kept :
    (imei j other : String) (fields : List PortField) (now : ℕ) (s t : Store)
    → set_port imei fields now s ≡ ok t
    → get_extra_user imei other t ≡ get_extra_user imei other s
    → get_extra_user j other t ≡ get_extra_user j other s
extras_kept imei j other fields now s t written here = elim (Bool-cases (imei == j)) [
  | inl same ↦
      ap (λ i. get_extra_user i other t) (sym ((eq_iff imei j).0 same))
      ∙ here
      ∙ ap (λ i. get_extra_user i other s) ((eq_iff imei j).0 same)
  | inr different ↦
      let row : get_port j t ≡ get_port j s =
        (set_port_ok imei j fields now s t written).0 ∙ rw different refl in
      get_extra_user-column j other s t (ap column_of row)
]

pub set_extra_user-Untouched :
    (imei owner username password : String) (now : ℕ) (s t : Store)
    → set_extra_user imei owner username password now s ≡ ok t
    → Untouched owner s t
unfolding set_columns set_column
set_extra_user-Untouched imei owner username password now s t h =
    let (xs, written) = set_extra_user_row imei owner username password now s t h in
    record {
      main_kept = λ j p.
          set_port_main imei (PortField.extra_users (some xs) ∷ []) now s t j p written
            (λ row e a b. (refl, refl));
      others_kept = λ j other ne. extras_kept imei j other _ now s t written (
          get_extra_user-set_extra_user imei owner other username password now s t h
          ∙ rw (str_ne owner other ne) refl);
    }

pub remove_extra_user-Untouched :
    (imei owner : String) (now : ℕ) (s t : Store)
    → remove_extra_user imei owner now s ≡ ok t
    → Untouched owner s t
unfolding set_columns set_column
remove_extra_user-Untouched imei owner now s t h =
    elim (remove_extra_user_row imei owner now s t h) [
      | inl same ↦ rw same (Untouched-refl owner s)
      | inr (xs, written) ↦ record {
        main_kept = λ j p.
            set_port_main imei (PortField.extra_users (some xs) ∷ []) now s t j p written
              (λ row e a b. (refl, refl));
        others_kept = λ j other ne. extras_kept imei j other _ now s t written (
            get_extra_user-remove_extra_user imei owner other now s t h
            ∙ rw (str_ne owner other ne) refl);
      }
    ]

kept_text : (o : Option String) (d : String) → truthy_text o ≡ true → some (or_text o d) ≡ o
kept_text none d t = absurd (cc t)
kept_text (some x) d t = ground (arith, t)

allocated_login :
    (sys : System) (imei : String) (fresh : Secrets) (p : Port)
    → get_port imei sys.db ≡ some p
    → truthy_text p.username ≡ true
    → truthy_text p.password ≡ true
    → let q = set_columns p (allocated sys.config imei default_login fresh sys.db) in
      (q.username ≡ p.username) × (q.password ≡ p.password)
unfolding set_columns set_column allocated
allocated_login sys imei fresh p e a b =
    (rw e (kept_text p.username _ a), rw e (kept_text p.password fresh.password b))

over_extras :
    (sys : System) (imei : String) (fresh : Secrets) (now : ℕ) (o : Option Port)
    → column_of (
        some (set_columns (over imei now o) (allocated sys.config imei default_login fresh sys.db)))
      ≡ column_of o
unfolding set_columns set_column allocated
over_extras sys imei fresh now none = refl
over_extras sys imei fresh now (some p) = refl

allocated_extras :
    (sys : System) (imei : String) (fresh : Secrets) (now : ℕ) (t : Store)
    → allocate_port sys.config imei default_login fresh now sys.db ≡ ok t
    → column_of (get_port imei t) ≡ column_of (get_port imei sys.db)
unfolding allocate_port
allocated_extras sys imei fresh now t h =
    let row : get_port imei t
        ≡ some (
            set_columns (over imei now (get_port imei sys.db))
              (allocated sys.config imei default_login fresh sys.db)) =
      (set_port_ok imei imei (allocated sys.config imei default_login fresh sys.db) now sys.db t
        h).0
      ∙ rw (str_refl imei) refl in
    ap column_of row ∙ over_extras sys imei fresh now (get_port imei sys.db)

allocate_port-Untouched :
    (sys : System) (imei owner : String) (fresh : Secrets) (now : ℕ) (t : Store)
    → allocate_port sys.config imei default_login fresh now sys.db ≡ ok t
    → Untouched owner sys.db t
unfolding allocate_port
allocate_port-Untouched sys imei owner fresh now t h = record {
  main_kept = λ j p.
      set_port_main imei (allocated sys.config imei default_login fresh sys.db) now sys.db t j p h
        (λ row e a b. allocated_login sys imei fresh row e a b);
  others_kept = λ j other ne.
      extras_kept imei j other _ now sys.db t h
        (get_extra_user-column imei other sys.db t (allocated_extras sys imei fresh now t h));
}

finish-Untouched :
    (host : Host) (fresh : Secrets) (now : ℕ) (imei owner : String) (sys : System)
    → Untouched owner sys.db (finish host fresh now imei sys).sys.db
unfolding finish
finish-Untouched host fresh now imei owner sys =
    proceed_cases (render_modem host imei sys) sys _ (λ o. Untouched owner sys.db o.sys.db)
      (λ done h.
        rw (bring_up_db host fresh now imei done ∙ render_modem_db host imei sys done h)
          (Untouched-refl owner sys.db))
      (λ e. Untouched-refl owner sys.db)

pub apply_port-Untouched :
    (host : Host) (fresh : Secrets) (now : ℕ) (imei owner : String) (sys : System)
    → Untouched owner sys.db (apply_port host fresh now imei sys).sys.db
unfolding apply_port apply_login
apply_port-Untouched host fresh now imei owner sys =
    proceed_cases (allocate_port sys.config imei default_login fresh now sys.db) sys _
      (λ o. Untouched owner sys.db o.sys.db)
      (λ s h.
        Untouched-trans owner sys.db s _ (allocate_port-Untouched sys imei owner fresh now s h)
          (finish-Untouched host fresh now imei owner (record sys { db = s })))
      (λ e. Untouched-refl owner sys.db)
