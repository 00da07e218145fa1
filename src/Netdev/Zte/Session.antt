-- ===== src/Netdev/Zte/Session.antt =====
-- The session that the panel adopts is the one that later requests send.
use modemproxy.Prelude.{
  ◌≡◌, refl, ◌∙◌, ap, String, true, List, [], ◌∷◌, Option, some, eqb, nonempty,
}
use modemproxy.Text.{◌<>◌}
use modemproxy.Text.Cut.{split_at, split_on, splitlines, before_first, strip, is_break}
use modemproxy.Text.Split.{
  has_no, has_no-append, one_char, split_at-append, split_on-append, split_on-none,
  splitlines-append,
}
use modemproxy.Netdev.Zte.{
  adopt_session, session_cookie, jar_text, jar_line, partition_eq, first_stok,
}

-- A text that can stand in a cookie: it has no tab, no line break and no semicolon.
pub record Plain (s : String) : Type 0 where
  pub no_tab : has_no (λ c. eqb c 9) s ≡ true
  pub no_break : has_no is_break s ≡ true
  pub no_semicolon : has_no (λ c. eqb c b';') s ≡ true

eq_there : (s : String) → split_at b'=' ("=" <> s) ≡ some ("", s)
unfolding split_at
eq_there s = rw (one_char "=" s) refl

semicolon_there : (s : String) → split_at b';' (";" <> s) ≡ some ("", s)
unfolding split_at
semicolon_there s = rw (one_char ";" s) refl

value_of : (value attrs : String) → Plain value → before_first b';' (value <> ";" <> attrs) ≡ value
unfolding before_first
value_of value attrs plain = rw (
  before_first,
  split_at-append b';' value (";" <> attrs) attrs plain.no_semicolon (semicolon_there attrs),
)

parts_of : (rest : String) → partition_eq ("stok" <> "=" <> rest) ≡ ("stok", rest)
unfolding partition_eq
parts_of rest =
    rw (partition_eq, split_at-append b'=' "stok" ("=" <> rest) rest refl (eq_there rest))

adopted :
    (jar : Option String) (host value attrs : String)
    → Plain value
    → nonempty value ≡ true
    → strip value ≡ value
    → adopt_session jar host ("stok" <> "=" <> value <> ";" <> attrs) ≡ some (jar_text host value)
unfolding adopt_session strip
adopted jar host value attrs plain full bare =
    rw (adopt_session, parts_of (value <> ";" <> attrs), value_of value attrs plain, bare, full)

tab_there :
    (s : String) (rest : List String) → split_on 9 s ≡ rest → split_on 9 ("\t" <> s) ≡ "" ∷ rest
unfolding split_on
tab_there s rest e = rw (one_char "\t" s) (ap (λ r. "" ∷ r) e)

tab_field :
    (a s : String) (rest : List String)
    → has_no (λ c. eqb c 9) a ≡ true
    → split_on 9 s ≡ rest
    → split_on 9 (a <> "\t" <> s) ≡ a ∷ rest
tab_field a s rest h e = split_on-append 9 a ("\t" <> s) rest h (tab_there s rest e)

line_fields :
    (host value : String)
    → Plain host
    → Plain value
    → split_on 9 (jar_line host value)
      ≡ ("#HttpOnly_" <> host) ∷ "FALSE" ∷ "/" ∷ "FALSE" ∷ "0" ∷ "stok" ∷ value ∷ []
unfolding jar_line
line_fields host value h v =
    tab_field ("#HttpOnly_" <> host) _ _ (has_no-append (λ c. eqb c 9) "#HttpOnly_" host ∙ h.no_tab)
      (tab_field "FALSE" _ _ refl (
        tab_field "/" _ _ refl (
          tab_field "FALSE" _ _ refl (
            tab_field "0" _ _ refl
              (tab_field "stok" value _ refl (split_on-none 9 value v.no_tab))))))

break_there : (s : String) → splitlines ("\n" <> s) ≡ "" ∷ splitlines s
unfolding splitlines is_break
break_there s = rw (one_char "\n" s)

line_no_break :
    (host value : String) → Plain host → Plain value → has_no is_break (jar_line host value) ≡ true
unfolding jar_line is_break
line_no_break host value h v = simp (has_no-append, h.no_break, v.no_break)

jar_lines :
    (host value : String)
    → Plain host
    → Plain value
    → splitlines (jar_text host value) ≡ "# Netscape HTTP Cookie File" ∷ jar_line host value ∷ []
unfolding jar_text is_break splitlines
jar_lines host value h v =
    splitlines-append "# Netscape HTTP Cookie File" ("\n" <> jar_line host value <> "\n")
      (jar_line host value ∷ []) refl
      (break_there (jar_line host value <> "\n")
        ∙ ap (λ ls. "" ∷ ls)
            (splitlines-append (jar_line host value) "\n" [] (line_no_break host value h v) refl))

-- A session cookie that the panel adopts, whatever was in the jar before, is the one that is read from
-- the jar: for a host and a value without tabs, line breaks and semicolons, and a value that is not
-- empty and has no blanks at its ends.
pub session_cookie-adopt_session :
    (jar : Option String) (host value attrs : String)
    → Plain host
    → Plain value
    → nonempty value ≡ true
    → strip value ≡ value
    → session_cookie (adopt_session jar host ("stok" <> "=" <> value <> ";" <> attrs))
      ≡ some ("stok=" <> value)
unfolding session_cookie split_on
session_cookie-adopt_session jar host value attrs h v full bare = rw (
  adopted jar host value attrs v full bare,
  session_cookie,
  jar_lines host value h v,
  first_stok,
  line_fields host value h v,
  full,
)
