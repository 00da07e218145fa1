-- ===== src/Netdev/Zte/Redial.antt =====
-- What _rotate_zte tells the device, if no answer of it makes the code raise.
use modemproxy.Prelude.{
  ◌≡◌, refl, ◌∙◌, ap, ◌⊎◌, inl, inr, String, true, false, not, ◌&&◌, ◌||◌, List, [], ◌∷◌, ◌++◌,
  Option, arith, if◌then◌else◌, ◌==◌, keep, Bool-cases, nonempty,
}
use modemproxy.Db.Rows.{Store}
use modemproxy.Netdev.Http.{WebRequest, Web, http}
use modemproxy.Netdev.Zte.{
  Site, Channel, zte_session, ensure_session, base_hash, zte_get, zte_set, send_signed, signed,
  redial, rotate_zte, command, query, logged_in, login, login_form, connect_form, disconnect_form,
  bearer, set_ok, login_request,
}

-- What a form asks for: all but the two fields that every command has.
abbrev pub order_of : List (String × String) → List (String × String)
order_of = keep λ f. not (f.0 == "isTest" || f.0 == "AD")

-- The orders that were given, the newest first.
abbrev pub orders : List WebRequest → List (List (String × String))
orders [] = []
orders (r ∷ log) = if r.post then order_of r.form ∷ orders log else orders log

order_of-append : (f g : List (String × String)) → order_of (f ++ g) ≡ order_of f ++ order_of g
order_of-append [] g = refl
order_of-append (x ∷ f) g = ground (arith, order_of-append f g)

append_nil {ℓ} : {A : Type ℓ} (xs : List A) → xs ++ [] ≡ xs
append_nil [] = refl
append_nil (x ∷ xs) = ap (λ ys. x ∷ ys) (append_nil xs)

order_of-signed :
    (web : Web) (base : String) (form : List (String × String)) (rd : String)
    → order_of (signed web base form rd) ≡ order_of form
unfolding signed
order_of-signed web base form rd = elim (Bool-cases (nonempty rd && nonempty base)) [
  | inl h ↦ rw h (order_of-append form _ ∙ append_nil (order_of form))
  | inr h ↦ rw h (order_of-append form _ ∙ append_nil (order_of form))
]

orders-zte_set :
    (web : Web) (l : Channel) (base : String) (params : List (String × String))
    (log : List WebRequest)
    → orders (zte_set web l base params log).1
      ≡ order_of (("isTest", "false") ∷ params) ∷ orders log
unfolding zte_set send_signed zte_get http command query
orders-zte_set web l base params log =
    ap (λ o. o ∷ orders log) (order_of-signed web base (("isTest", "false") ∷ params) _)

orders-set_ok :
    (web : Web) (l : Channel) (base : String) (params : List (String × String))
    (log : List WebRequest)
    → orders (set_ok web l base params log).1 ≡ order_of (("isTest", "false") ∷ params) ∷ orders log
unfolding set_ok
orders-set_ok = orders-zte_set

-- The orders of a rotation, the newest first.
abbrev pub redial_orders : List (List (String × String))
redial_orders =
    connect_form
    ∷ bearer "4G_AND_5G"
    ∷ bearer "NETWORK_auto"
    ∷ bearer "Only_WCDMA"
    ∷ disconnect_form
    ∷ []

orders-redial :
    (web : Web) (l : Channel) (base : String) (log : List WebRequest)
    → orders (redial web l base log).1 ≡ redial_orders ++ orders log
unfolding redial
orders-redial web l base log = simp orders-set_ok

-- The orders `after` a session was ensured: one login, if the device does not say that it holds the
-- session and a password is set; else none.
abbrev pub Logged : Web → Site → Channel → List WebRequest → List WebRequest → Type 0
Logged web site l log after =
    (orders after ≡ orders log)
    ⊎ ((ld : String) × ((logged_in web l log).0 ≡ false)
        × (nonempty site.password ≡ true)
        × (orders after ≡ order_of (login_form web site.password ld) ∷ orders log))

orders-login :
    (web : Web) (site : Site) (l : Channel) (log : List WebRequest)
    → nonempty site.password ≡ true
    → (ld : String) × (orders (login web site l log).1
        ≡ order_of (login_form web site.password ld) ∷ orders log)
unfolding login http query command login_request
orders-login web site l log set = rw set (_, refl)

no_login :
    (web : Web) (site : Site) (l : Channel) (log : List WebRequest)
    → nonempty site.password ≡ false
    → (login web site l log).1 ≡ log
unfolding login
no_login web site l log unset = rw unset

asked :
    (web : Web) (l : Channel) (log : List WebRequest) → orders (logged_in web l log).1 ≡ orders log
unfolding logged_in http query
asked web l log = refl

ensure_session-Logged :
    (web : Web) (site : Site) (l : Channel) (log : List WebRequest)
    → Logged web site l log (ensure_session web site l log).1
unfolding ensure_session
ensure_session-Logged web site l log = elim (Bool-cases (logged_in web l log).0) [
  | inl there ↦ rw there (inl (asked web l log))
  | inr gone ↦ elim (Bool-cases (nonempty site.password)) [
    | inl set ↦
        let (ld, e) = orders-login web site l (logged_in web l log).1 set in
        inr (
          ld,
          gone,
          set,
          rw gone (e ∙ ap (λ o. order_of (login_form web site.password ld) ∷ o) (asked web l log)),
        )
    | inr unset ↦
        inl (
          rw gone (ap orders (no_login web site l (logged_in web l log).1 unset) ∙ asked web l log))
  ]
]

orders-base_hash :
    (web : Web) (l : Channel) (log : List WebRequest) → orders (base_hash web l log).1 ≡ orders log
unfolding base_hash zte_get http query
orders-base_hash web l log = refl

-- Whatever the device answers to each request, with or without success, as long as each answer that
-- json.loads accepts is an object of texts, a rotation gives it the same five orders in the same order: to disconnect, to drop to 3G, to go back to each of the two automatic modes, and to connect;
-- the newest stands first. Before them it logs in at most once, and then only if the device does not
-- confirm the session and a password is set.
pub rotate_zte-orders :
    (web : Web) (site : Site) (s : Store) (host : String) (iface : Option String)
    (log : List WebRequest)
    → (before : List WebRequest) × (orders (rotate_zte web site s host iface log).1
        ≡ redial_orders ++ orders before)
      × Logged web site (zte_session web site s host iface) log before
unfolding rotate_zte
rotate_zte-orders web site s host iface log =
    let l = zte_session web site s host iface in
    let ready = (ensure_session web site l log).1 in
    (
      ready,
      orders-redial web l (base_hash web l ready).0 (base_hash web l ready).1
          ∙ ap (λ o. redial_orders ++ o) (orders-base_hash web l ready),
      ensure_session-Logged web site l log,
    )
