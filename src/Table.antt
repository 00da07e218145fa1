-- ===== src/Table.antt =====
-- Tables with a text primary key, as db.py uses them through SQLite: SELECT, UPDATE and DELETE by
-- key, and INSERT, which puts the row last.
use mathlib.Core.Option
use modemproxy.Prelude.{
  String, ◌≡◌, refl, List, [], ◌∷◌, ◌++◌, Option, none, some, arith, eq_iff, ◌==◌, if◌then◌else◌,
  ◌⊎◌, inl, inr, Option-cases,
}

module _ {R : Type 0} (key : R → String) where
  unfoldable pub find : String → List R → Option R
  find k [] = none
  find k (r ∷ rs) = if key r == k then some r else find k rs

  unfoldable pub update : String → (R → R) → List R → List R
  update k f [] = []
  update k f (r ∷ rs) = (if key r == k then f r else r) ∷ update k f rs

  unfoldable pub insert : R → List R → List R
  insert r rs = rs ++ r ∷ []

  unfoldable pub delete : String → List R → List R
  delete k [] = []
  delete k (r ∷ rs) = if key r == k then delete k rs else r ∷ delete k rs

  pub find-update :
      (k j : String) (f : R → R) (rs : List R)
      → ((r : R) → key (f r) ≡ key r)
      → find j (update k f rs) ≡ (if k == j then Option.map f (find j rs) else find j rs)
  unfolding find update
  find-update k j f [] same = ground arith
  find-update k j f (r ∷ rs) same =
      ground
        (arith, same r, eq_iff (key r) k, eq_iff (key r) j, eq_iff k j, find-update k j f rs same)

  pub find-insert :
      (j : String) (r : R) (rs : List R)
      → find j (insert r rs)
        ≡ elim (find j rs) [ some x ↦ some x | none ↦ if key r == j then some r else none ]
  unfolding find insert
  find-insert j r [] = refl
  find-insert j r (x ∷ rs) = ground (arith, find-insert j r rs)

  pub find-delete :
      (k j : String) (rs : List R) → find j (delete k rs) ≡ (if k == j then none else find j rs)
  unfolding find delete
  find-delete k j [] = ground arith
  find-delete k j (r ∷ rs) =
      ground (arith, eq_iff (key r) k, eq_iff (key r) j, eq_iff k j, find-delete k j rs)

  pub delete-delete : (k : String) (rs : List R) → delete k (delete k rs) ≡ delete k rs
  unfolding delete
  delete-delete k [] = refl
  delete-delete k (r ∷ rs) = ground (arith, delete-delete k rs)

  -- What `find` returns has the key that it was asked for.
  pub find_key : (k : String) (rs : List R) (r : R) → find k rs ≡ some r → key r ≡ k
  unfolding find
  find_key k [] r h = cc
  find_key k (x ∷ rs) r h = ground (arith, eq_iff (key x) k, find_key k rs r)

  pub find_cases :
      (k : String) (rs : List R)
      → (find k rs ≡ none) ⊎ ((r : R) × (find k rs ≡ some r) × (key r ≡ k))
  find_cases k rs = elim (Option-cases (find k rs)) [
    | inl e ↦ inl e
    | inr (r, e) ↦ inr (r, e, find_key k rs r e)
  ]

  -- PRIMARY KEY: no two rows have one key.
  abbrev pub Distinct : List R → Type 0
  Distinct [] = Unit
  Distinct (r ∷ rs) = (find (key r) rs ≡ none) × Distinct rs

  -- An UPDATE that sets one row's columns finds a key exactly where it was found before.
  find-update-none :
      (k j : String) (f : R → R) (rs : List R)
      → ((r : R) → key (f r) ≡ key r)
      → find j rs ≡ none
      → find j (update k f rs) ≡ none
  find-update-none k j f rs same h = ground (arith, find-update k j f rs same)

  pub update-Distinct :
      (k : String) (f : R → R) (rs : List R)
      → ((r : R) → key (f r) ≡ key r)
      → Distinct rs
      → Distinct (update k f rs)
  unfolding update
  update-Distinct k f [] same h = tt
  update-Distinct k f (r ∷ rs) same h = (
    ground (arith, same r, find-update-none k (key r) f rs same),
    update-Distinct k f rs same h.1,
  )

  pub insert-Distinct :
      (r : R) (rs : List R) → find (key r) rs ≡ none → Distinct rs → Distinct (insert r rs)
  unfolding insert find
  insert-Distinct r [] new h = (refl, tt)
  insert-Distinct r (x ∷ rs) new h = (
    ground (arith, find-insert (key x) r rs, eq_iff (key x) (key r), eq_iff (key r) (key x)),
    insert-Distinct r rs (ground arith) h.1,
  )

  pub delete-Distinct : (k : String) (rs : List R) → Distinct rs → Distinct (delete k rs)
  unfolding delete
  delete-Distinct k [] h = tt
  delete-Distinct k (r ∷ rs) h = ground (arith, delete-Distinct k rs h.1, find-delete k (key r) rs)
