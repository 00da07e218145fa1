-- ===== src/Text/Cut.antt =====
-- The str methods that the program cuts texts with, and dicts of texts in insertion order.
use Prim.Native.Char.{code}
use modemproxy.Prelude.{
  ℕ, suc, ◌+◌, ◌-◌, ◌*◌, String, Bool, true, false, ◌&&◌, ◌||◌, eqb, leb, if◌then◌else◌, ◌≡◌, refl,
  List, [], ◌∷◌, Option, none, some, ◌==◌, nonempty, keep,
}
use modemproxy.Text.{◌<>◌}

-- `s.startswith(p)`
unfoldable pub starts_with : String → String → Bool
starts_with String.[] s = true
starts_with (String.◌∷◌ c p) String.[] = false
starts_with (String.◌∷◌ c p) (String.◌∷◌ d s) = eqb (code c) (code d) && starts_with p s

-- `s.endswith(p)`
unfoldable pub ends_with : String → String → Bool
ends_with p String.[] = p == ""
ends_with p (String.◌∷◌ c s) = String.◌∷◌ c s == p || ends_with p s

-- `p in s`
unfoldable pub contains : String → String → Bool
unfolding starts_with
contains p String.[] = p == ""
contains p (String.◌∷◌ c s) = starts_with p (String.◌∷◌ c s) || contains p s

-- What comes after the prefix `p`, of a text that starts with it.
unfoldable pub drop_prefix : String → String → Option String
drop_prefix String.[] s = some s
drop_prefix (String.◌∷◌ c p) String.[] = none
drop_prefix (String.◌∷◌ c p) (String.◌∷◌ d s) =
    let rest = drop_prefix p s in if eqb (code c) (code d) then rest else none

-- `s.split(c, 1)`: what is before the first `c` and what is after it, if there is one.
unfoldable pub split_at : ℕ → String → Option (String × String)
split_at c String.[] = none
split_at c (String.◌∷◌ d s) =
    let rest = split_at c s in
    if eqb (code d) c
    then some ("", s)
    else elim rest [ none ↦ none | some (before, after) ↦ some (String.◌∷◌ d before, after) ]

-- `s.split(c, 1)[0]`
unfoldable pub before_first : ℕ → String → String
unfolding split_at
before_first c s = elim (split_at c s) [ none ↦ s | some (before, after) ↦ before ]

last_piece : ℕ → String → String → String
last_piece c piece String.[] = piece
last_piece c piece (String.◌∷◌ d s) =
    if eqb (code d) c then last_piece c s s else last_piece c piece s

-- `s.rsplit(c, 1)[-1]`
unfoldable pub after_last : ℕ → String → String
unfolding last_piece
after_last c s = last_piece c s s

-- str.isspace on the code points below 256.
unfoldable pub is_space : ℕ → Bool
is_space c = (leb 9 c && leb c 13) || (leb 28 c && leb c 32) || eqb c 133 || eqb c 160

left_strip : String → String
unfolding is_space
left_strip String.[] = ""
left_strip (String.◌∷◌ c s) = if is_space (code c) then left_strip s else String.◌∷◌ c s

unfoldable pub right_strip : (ℕ → Bool) → String → String
right_strip drop String.[] = ""
right_strip drop (String.◌∷◌ c s) =
    let rest = right_strip drop s in if drop (code c) && rest == "" then "" else String.◌∷◌ c rest

-- `s.strip()`
unfoldable pub strip : String → String
unfolding left_strip right_strip is_space
strip s = right_strip is_space (left_strip s)

-- `s.strip(c)`, for one character
unfoldable pub strip_char : ℕ → String → String
unfolding right_strip
strip_char c String.[] = ""
strip_char c (String.◌∷◌ d s) =
    if eqb (code d) c then strip_char c s else right_strip (eqb c) (String.◌∷◌ d s)

unfoldable pub is_break : ℕ → Bool
is_break c =
    (leb 10 c && leb c 13) || (leb 28 c && leb c 30) || eqb c 133 || eqb c 8232 || eqb c 8233

add_char : String → List String → List String
add_char c [] = c ∷ []
add_char c (l ∷ ls) = (c <> l) ∷ ls

-- `s.splitlines()`; a carriage return and the line feed after it are one break.
unfoldable pub splitlines : String → List String
unfolding is_break add_char starts_with
splitlines String.[] = []
splitlines (String.◌∷◌ c s) =
    let rest = splitlines s in
    if eqb (code c) 13 && starts_with "\n" s
    then rest
    else if is_break (code c)
    then "" ∷ rest
    else add_char (String.◌∷◌ c "") rest

-- `s.split(c)`
unfoldable pub split_on : ℕ → String → List String
unfolding add_char
split_on c String.[] = "" ∷ []
split_on c (String.◌∷◌ d s) =
    let rest = split_on c s in if eqb (code d) c then "" ∷ rest else add_char (String.◌∷◌ d "") rest

-- `s.count(c)`, for one character
unfoldable pub count_char : ℕ → String → ℕ
count_char c String.[] = 0
count_char c (String.◌∷◌ d s) =
    let rest = count_char c s in if eqb (code d) c then suc rest else rest

low : ℕ → ℕ
low c = if leb b'A' c && leb c b'Z' then c + 32 else c

-- `a.lower() == b.lower()`, of texts whose capital letters are those of ASCII
unfoldable pub same_lower : String → String → Bool
unfolding low
same_lower String.[] String.[] = true
same_lower String.[] (String.◌∷◌ d t) = false
same_lower (String.◌∷◌ c s) String.[] = false
same_lower (String.◌∷◌ c s) (String.◌∷◌ d t) = eqb (low (code c)) (low (code d)) && same_lower s t

starts_lower : String → String → Bool
unfolding low
starts_lower String.[] s = true
starts_lower (String.◌∷◌ c p) String.[] = false
starts_lower (String.◌∷◌ c p) (String.◌∷◌ d s) = eqb (code c) (low (code d)) && starts_lower p s

-- `p in s.lower()`
unfoldable pub contains_lower : String → String → Bool
unfolding starts_lower
contains_lower p String.[] = p == ""
contains_lower p (String.◌∷◌ c s) = starts_lower p (String.◌∷◌ c s) || contains_lower p s

digits_value : String → ℕ → Option ℕ
digits_value String.[] n = some n
digits_value (String.◌∷◌ c s) n =
    let rest = digits_value s (10 * n + (code c - b'0')) in
    if leb b'0' (code c) && leb (code c) b'9' then rest else none

-- The value of a text of one decimal digit or more.
unfoldable pub digits : String → Option ℕ
unfolding digits_value
digits s = if nonempty s then digits_value s 0 else none

-- `sep.join(xs)`
unfoldable pub join : String → List String → String
join sep [] = ""
join sep (x ∷ []) = x
join sep (x ∷ y ∷ xs) = x <> sep <> join sep (y ∷ xs)

-- `d[k] = v`: in the place of the key when the dict has it, else at the end.
unfoldable pub dict_set {ℓ} : {A : Type ℓ} → String → A → List (String × A) → List (String × A)
dict_set k v [] = (k, v) ∷ []
dict_set k v ((j, w) ∷ d) = if j == k then (k, v) ∷ d else (j, w) ∷ dict_set k v d

-- `d.get(k)`
unfoldable pub dict_get {ℓ} : {A : Type ℓ} → String → List (String × A) → Option A
dict_get k [] = none
dict_get k ((j, w) ∷ d) = if j == k then some w else dict_get k d

-- `text.split()`, of a text whose only blanks are spaces
unfoldable pub words : String → List String
unfolding split_on
words text = keep nonempty (split_on 32 text)

split_test : split_at b':' "a: b:c" ≡ some ("a", " b:c")
unfolding split_at
split_test = refl

last_test : after_last b'/' "/org/Modem/17" ≡ "17"
unfolding after_last
last_test = refl

strip_test : strip "  a b \n" ≡ "a b"
unfolding strip
strip_test = refl

lines_test : splitlines "a\r\nb\n\nc" ≡ "a" ∷ "b" ∷ "" ∷ "c" ∷ []
unfolding splitlines
lines_test = refl

digits_test : digits "0172" ≡ some 172
unfolding digits
digits_test = refl
