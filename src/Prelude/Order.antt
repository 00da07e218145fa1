-- ===== src/Prelude/Order.antt =====
-- Sorting texts: the order is total, and sorting twice is sorting once.
use Prim.Native.Nat.{ℕ, Ordering, compare as compare_nat}
use Prim.Native.Char.{code}
use Prim.Native.String.{String, then as lexicographic, compare as compare_text}
use Prim.Native.String.compare
use mathlib.Core.Path.{◌≡◌, refl, sym, ap, ◌∙◌}
use mathlib.Core.Bool.{Bool, true, false}
use mathlib.Core.List.{List, [], ◌∷◌}
use native.Mathlib.Omega.{arith}
use modemproxy.Prelude.Tests.{text_le, if◌then◌else◌, if_cases}

not_greater : Ordering → Bool
not_greater Ordering.gt = false
not_greater o = true

swapped :
    (m n : ℕ) (o p : Ordering)
    → (not_greater o ≡ false → not_greater p ≡ true)
    → not_greater (lexicographic (compare_nat m n) o) ≡ false
    → not_greater (lexicographic (compare_nat n m) p) ≡ true
unfolding not_greater
swapped m n o p h f = ground (arith, h, f)

total :
    (a b : String) → not_greater (compare_text a b) ≡ false → not_greater (compare_text b a) ≡ true
unfolding not_greater
total String.[] String.[] h = ground (arith, h)
total String.[] (String.◌∷◌ d t) h = absurd (ground (arith, h, compare.nil-cons d t))
total (String.◌∷◌ c s) String.[] h = ground (arith, compare.nil-cons c s)
total (String.◌∷◌ c s) (String.◌∷◌ d t) h =
    ap not_greater (compare.cons-cons d c t s)
    ∙ swapped (code c) (code d) (compare_text s t) (compare_text t s) (total s t)
        (sym (ap not_greater (compare.cons-cons c d s t)) ∙ h)

text_total : (a b : String) → text_le a b ≡ false → text_le b a ≡ true
unfolding not_greater
text_total a b h = total a b h

insert_sorted : String → List String → List String
insert_sorted x [] = x ∷ []
insert_sorted x (y ∷ ys) = if text_le x y then x ∷ y ∷ ys else y ∷ insert_sorted x ys

-- `sorted(xs)`, of texts
unfoldable pub sorted : List String → List String
unfolding insert_sorted
sorted [] = []
sorted (x ∷ xs) = insert_sorted x (sorted xs)

-- `x` may stand Before `xs`.
abbrev Before : String → List String → Type 0
Before x [] = Unit
Before x (y ∷ ys) = text_le x y ≡ true

abbrev IsSorted : List String → Type 0
IsSorted [] = Unit
IsSorted (x ∷ xs) = Before x xs × IsSorted xs

Before-insert_sorted :
    (y x : String) (xs : List String)
    → text_le y x ≡ true
    → Before y xs
    → Before y (insert_sorted x xs)
unfolding insert_sorted
Before-insert_sorted y x [] h b = h
Before-insert_sorted y x (z ∷ zs) h b = if_cases (Before y) (text_le x z) _ _ (λ t. h) (λ f. b)

insert_sorted-IsSorted :
    (x : String) (xs : List String) → IsSorted xs → IsSorted (insert_sorted x xs)
unfolding insert_sorted
insert_sorted-IsSorted x [] h = (tt, tt)
insert_sorted-IsSorted x (y ∷ ys) h =
    if_cases IsSorted (text_le x y) _ _ (λ t. (t, h))
      (λ f. (Before-insert_sorted y x ys (text_total x y f) h.0, insert_sorted-IsSorted x ys h.1))

sorted-IsSorted : (xs : List String) → IsSorted (sorted xs)
unfolding sorted
sorted-IsSorted [] = tt
sorted-IsSorted (x ∷ xs) = insert_sorted-IsSorted x (sorted xs) (sorted-IsSorted xs)

first-insert_sorted : (x : String) (xs : List String) → Before x xs → insert_sorted x xs ≡ x ∷ xs
unfolding insert_sorted
first-insert_sorted x [] b = refl
first-insert_sorted x (y ∷ ys) b = ground (arith, b)

sorted_id : (xs : List String) → IsSorted xs → sorted xs ≡ xs
unfolding sorted
sorted_id [] h = refl
sorted_id (x ∷ xs) h = ap (insert_sorted x) (sorted_id xs h.1) ∙ first-insert_sorted x xs h.0

pub sorted-sorted : (xs : List String) → sorted (sorted xs) ≡ sorted xs
sorted-sorted xs = sorted_id (sorted xs) (sorted-IsSorted xs)
