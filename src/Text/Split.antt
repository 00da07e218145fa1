-- ===== src/Text/Split.antt =====
-- Splitting a text that was put together with the separator.
use Prim.Native.Char.{Char, code}
use Prim.Native.String.append
use modemproxy.Prelude.{
  ℕ, ◌≡◌, refl, ◌∙◌, ap, String, Bool, true, not, ◌&&◌, List, [], ◌∷◌, some, arith, eqb,
}
use modemproxy.Text.{◌<>◌}
use modemproxy.Text.Cut.{split_at, split_on, splitlines, is_break}

-- No character of the text passes the test.
abbrev pub has_no : (ℕ → Bool) → String → Bool
has_no p String.[] = true
has_no p (String.◌∷◌ c s) = not (p (code c)) && has_no p s

pub has_no-append : (p : ℕ → Bool) (a b : String) → has_no p (a <> b) ≡ (has_no p a && has_no p b)
has_no-append p String.[] b = rw append.nil
has_no-append p (String.◌∷◌ c a) b = rw append.cons (ground (arith, has_no-append p a b))

pub one_char : (c : Char) (s : String) → String.◌∷◌ c "" <> s ≡ String.◌∷◌ c s
one_char c s = append.cons c "" s ∙ ap (String.◌∷◌ c) (append.nil s)

pub split_at-append :
    (c : ℕ) (a d b : String)
    → has_no (λ x. eqb x c) a ≡ true
    → split_at c d ≡ some ("", b)
    → split_at c (a <> d) ≡ some (a, b)
unfolding split_at
split_at-append c String.[] d b h e = rw append.nil e
split_at-append c (String.◌∷◌ x a) d b h e =
    rw append.cons (ground (arith, h, split_at-append c a d b (ground (arith, h)) e))

pub split_on-none : (c : ℕ) (a : String) → has_no (λ x. eqb x c) a ≡ true → split_on c a ≡ a ∷ []
unfolding split_on
split_on-none c String.[] h = refl
split_on-none c (String.◌∷◌ x a) h =
    ground (arith, h, split_on-none c a (ground (arith, h)), one_char x a)

pub split_on-append :
    (c : ℕ) (a d : String) (rest : List String)
    → has_no (λ x. eqb x c) a ≡ true
    → split_on c d ≡ "" ∷ rest
    → split_on c (a <> d) ≡ a ∷ rest
unfolding split_on
split_on-append c String.[] d rest h e = rw append.nil e
split_on-append c (String.◌∷◌ x a) d rest h e =
    rw append.cons
      (ground (arith, h, split_on-append c a d rest (ground (arith, h)) e, one_char x a))

pub splitlines-append :
    (a d : String) (rest : List String)
    → has_no is_break a ≡ true
    → splitlines d ≡ "" ∷ rest
    → splitlines (a <> d) ≡ a ∷ rest
unfolding splitlines
splitlines-append String.[] d rest h e = rw append.nil e
splitlines-append (String.◌∷◌ x a) d rest h e =
    rw append.cons
      (ground (arith, h, splitlines-append a d rest (ground (arith, h)) e, one_char x a))
