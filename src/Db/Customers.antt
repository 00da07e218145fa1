-- ===== src/Db/Customers.antt =====
-- modemproxy/db.py: the customer accounts and the modems assigned to them.
use modemproxy.Prelude.{
  ℕ, String, ◌≡◌, refl, Bool, true, false, ◌&&◌, not, List, [], ◌∷◌, ◌++◌, Option, none, some,
  arith, eq_iff, ◌==◌, if◌then◌else◌, keep, has_text,
}
use modemproxy.Result.{Result, ok, err, integrity_error}
use modemproxy.Table
use modemproxy.Db.Rows.{Customer, Assignment, Store}
use modemproxy.Db.Modems.{get_modem}

abbrev pub login_of : Customer → String
login_of c = c.username

unfoldable pub customer_get : String → Store → Option Customer
customer_get username s = Table.find login_of username s.customers

abbrev or_keep : Option String → String → String
or_keep none old = old
or_keep (some new) old = new

abbrev or_empty : Option String → String
or_empty none = ""
or_empty (some v) = v

-- An argument that is `None` keeps the old column, and is the empty text in a new row.
unfoldable pub customer_upsert : String → Option String → Option String → ℕ → Store → Store
unfolding customer_get
customer_upsert username password_hash label now s = elim (customer_get username s) [
  | some _ ↦ record s {
    customers =
        Table.update login_of username
          (λ c. record c {
            password_hash = or_keep password_hash c.password_hash;
            label = or_keep label c.label;
          })
          s.customers;
  }
  | none ↦ record s {
    customers =
        Table.insert login_of
          (record {
            username = username;
            password_hash = or_empty password_hash;
            label = or_empty label;
            created_at = now;
          })
          s.customers;
  }
]

-- The row goes, and with it, ON DELETE CASCADE, the customer's assignments.
unfoldable pub customer_delete : String → Store → Store
customer_delete username s = record s {
  customers = Table.delete login_of username s.customers;
  customer_modems = keep (λ a. not (a.username == username)) s.customer_modems;
}

abbrev assigned : String → String → Assignment → Bool
assigned username imei a = a.username == username && a.imei == imei

is_assigned : String → String → List Assignment → Bool
is_assigned username imei [] = false
is_assigned username imei (a ∷ rest) =
    if assigned username imei a then true else is_assigned username imei rest

-- INSERT OR IGNORE passes over a row that is there; the foreign keys are checked all the same.
unfoldable pub customer_assign : String → String → Store → Result Store
unfolding customer_get is_assigned
customer_assign username imei s =
    if is_assigned username imei s.customer_modems then ok s else elim (customer_get username s) [
      | none ↦ err integrity_error
      | some _ ↦ elim (get_modem imei s) [
        | none ↦ err integrity_error
        | some _ ↦ ok (record s {
          customer_modems = s.customer_modems ++ record { username = username; imei = imei } ∷ [];
        })
      ]
    ]

unfoldable pub customer_unassign : String → String → Store → Store
customer_unassign username imei s = record s {
  customer_modems = keep (λ a. not (assigned username imei a)) s.customer_modems;
}

imeis_of : String → List Assignment → List String
imeis_of username [] = []
imeis_of username (a ∷ rest) =
    if a.username == username then a.imei ∷ imeis_of username rest else imeis_of username rest

unfoldable pub customer_imeis : String → Store → List String
unfolding imeis_of
customer_imeis username s = imeis_of username s.customer_modems

-- `imei in db.customer_imeis(username)`, the test of /panel/rotate.
unfoldable pub may_rotate : String → String → Store → Bool
unfolding customer_imeis
may_rotate username imei s = has_text imei (customer_imeis username s)

imeis_of-append :
    (u i : String) (xs : List Assignment) (a : Assignment)
    → has_text i (imeis_of u (xs ++ a ∷ []))
      ≡ (if assigned u i a then true else has_text i (imeis_of u xs))
unfolding imeis_of has_text
imeis_of-append u i [] a = ground arith
imeis_of-append u i (x ∷ xs) a = ground (arith, imeis_of-append u i xs a)

is_assigned-has_text :
    (u i : String) (xs : List Assignment) → has_text i (imeis_of u xs) ≡ is_assigned u i xs
unfolding imeis_of has_text is_assigned
is_assigned-has_text u i [] = refl
is_assigned-has_text u i (x ∷ xs) = ground (arith, is_assigned-has_text u i xs)

-- What unassigning one modem, and deleting one customer, leave of another pair.
imeis_of-unassign :
    (u i v j : String) (xs : List Assignment)
    → has_text j (imeis_of v (keep (λ a. not (assigned u i a)) xs))
      ≡ (if u == v && i == j then false else has_text j (imeis_of v xs))
unfolding imeis_of has_text
imeis_of-unassign u i v j [] = ground arith
imeis_of-unassign u i v j (x ∷ xs) = ground (
  arith,
  imeis_of-unassign u i v j xs,
  eq_iff x.username u,
  eq_iff x.username v,
  eq_iff u v,
  eq_iff x.imei i,
  eq_iff x.imei j,
  eq_iff i j,
)

imeis_of-delete :
    (u v j : String) (xs : List Assignment)
    → has_text j (imeis_of v (keep (λ a. not (a.username == u)) xs))
      ≡ (if u == v then false else has_text j (imeis_of v xs))
unfolding imeis_of has_text
imeis_of-delete u v j [] = ground arith
imeis_of-delete u v j (x ∷ xs) =
    ground (arith, imeis_of-delete u v j xs, eq_iff x.username u, eq_iff x.username v, eq_iff u v)

-- A customer may rotate a modem right after the assignment of that modem went through, and an
-- assignment gives nobody else, and for no other modem, the right.
pub may_rotate-customer_assign :
    (u i v j : String) (s t : Store)
    → customer_assign u i s ≡ ok t
    → may_rotate v j t ≡ (if u == v && i == j then true else may_rotate v j s)
unfolding customer_assign may_rotate
may_rotate-customer_assign u i v j s t h = ground (
  arith,
  eq_iff u v,
  eq_iff i j,
  is_assigned-has_text u i s.customer_modems,
  imeis_of-append v j s.customer_modems (record { username = u; imei = i }),
)

-- Unassigning takes the right away from exactly that customer for exactly that modem.
pub may_rotate-customer_unassign :
    (u i v j : String) (s : Store)
    → may_rotate v j (customer_unassign u i s)
      ≡ (if u == v && i == j then false else may_rotate v j s)
unfolding customer_unassign may_rotate
may_rotate-customer_unassign u i v j s = imeis_of-unassign u i v j s.customer_modems

-- A deleted customer has no account and no modem; the others keep both.
pub customer_delete_lem :
    (u v j : String) (s : Store)
    → (customer_get v (customer_delete u s) ≡ (if u == v then none else customer_get v s))
      × (may_rotate v j (customer_delete u s) ≡ (if u == v then false else may_rotate v j s))
unfolding customer_delete customer_get may_rotate
customer_delete_lem u v j s =
    (Table.find-delete login_of u v s.customers, imeis_of-delete u v j s.customer_modems)
