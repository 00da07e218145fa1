-- ===== src/Control/Found.antt =====
-- The modem that _mm_id_for finds for an IMEI.
use modemproxy.Prelude.{
  ◌≡◌, refl, ◌≢◌, String, true, List, [], ◌∷◌, Option, none, some, arith, inl, inr, eq_iff, ◌⊎◌,
  str_refl, ◌==◌, All, Bool-cases, Option-cases, has_text,
}
use modemproxy.Result.{Result, ok, err, mm_error, Result-cases}
use modemproxy.Control.{Shell, ModemInfo, modem_info, id_among, mm_id_for, list_modem_ids}

-- The IMEI that ModemManager gives for a modem, if it answers.
abbrev pub answered_imei : Shell → String → Option String
answered_imei shell mid = elim (modem_info shell mid) [ ok info ↦ info.imei | err e ↦ none ]

-- The first of the ids whose modem has the IMEI.
abbrev pub FirstWith : Shell → String → Option String → List String → Type 0
FirstWith shell imei none ids = All (λ mid. answered_imei shell mid ≢ some imei) ids
FirstWith shell imei (some mid) ids =
    (has_text mid ids ≡ true) × (answered_imei shell mid ≡ some imei)

skip-FirstWith :
    (shell : Shell) (imei mid : String) (mids : List String) (found : Option String)
    → answered_imei shell mid ≢ some imei
    → FirstWith shell imei found mids
    → FirstWith shell imei found (mid ∷ mids)
unfolding has_text
skip-FirstWith shell imei mid mids none h f = (h, f)
skip-FirstWith shell imei mid mids (some m) h f = (ground (arith, f.0), f.1)

-- One round of the loop: the modem of `mid` has the IMEI, or the rest of the ids decides.
one_id :
    (shell : Shell) (imei mid : String) (mids : List String) (found : Option String)
    (r : Result ModemInfo)
    → modem_info shell mid ≡ r
    → id_among shell imei (mid ∷ mids) ≡ ok found
    → ((found ≡ some mid) × (answered_imei shell mid ≡ some imei))
      ⊎ ((answered_imei shell mid ≢ some imei) × (id_among shell imei mids ≡ ok found))
unfolding id_among
one_id shell imei mid mids found (ok info) e h = elim (Option-cases info.imei) [
  | inl n ↦ inr ((λ same. ground (arith, e, n, same)), ground (arith, h, e, n))
  | inr (i, given) ↦ elim (Bool-cases (i == imei)) [
    | inl same ↦
        inl (ground (arith, h, e, given, same), ground (arith, e, given, same, eq_iff i imei))
    | inr other ↦ inr (
      (λ same. ground (arith, e, given, same, other, eq_iff i imei)),
      ground (arith, h, e, given, other),
    )
  ]
]
one_id shell imei mid mids found (err (mm_error t)) e h =
    inr ((λ same. ground (arith, e, same)), ground (arith, h, e))
one_id shell imei mid mids found (err x) e h = absurd (ground (arith, h, e))

id_among-FirstWith :
    (shell : Shell) (imei : String) (ids : List String) (found : Option String)
    → id_among shell imei ids ≡ ok found
    → FirstWith shell imei found ids
unfolding id_among has_text
id_among-FirstWith shell imei [] none h = tt
id_among-FirstWith shell imei [] (some mid) h = absurd (cc h)
id_among-FirstWith shell imei (mid ∷ mids) found h =
    elim (one_id shell imei mid mids found (modem_info shell mid) refl h) [
      | inl (same, right) ↦ rw same (ground (arith, str_refl mid), right)
      | inr (wrong, rest) ↦
          skip-FirstWith shell imei mid mids found wrong
            (id_among-FirstWith shell imei mids found rest)
    ]

-- The id that _mm_id_for answers is one that mmcli lists, of a modem with the IMEI; when it answers
-- none, mmcli was listed and no modem of the list has the IMEI.
pub mm_id_for-FirstWith :
    (shell : Shell) (imei : String) (found : Option String)
    → mm_id_for shell imei ≡ ok found
    → (ids : List String) × (list_modem_ids shell ≡ ok ids) × FirstWith shell imei found ids
unfolding mm_id_for
mm_id_for-FirstWith shell imei found h = elim (Result-cases (list_modem_ids shell)) [
  | inl (ids, e) ↦ (ids, e, id_among-FirstWith shell imei ids found (ground (arith, h, e)))
  | inr (x, e) ↦ absurd (ground (arith, h, e))
]
