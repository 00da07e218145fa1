-- ===== src/Services/Geoip.antt =====
-- modemproxy/services/geoip.py: labels of public addresses, kept in the geoip table. `fetch` is the
-- call of ipinfo.io (_fetch): a label, or `none` on any failure.
use modemproxy.Prelude.{
  ℕ, ◌+◌, refl, ◌∙◌, if_cases, String, ◌≡◌, Bool, true, false, not, ◌&&◌, List, [], ◌∷◌, Option,
  none, some, if◌then◌else◌, ◌==◌, nonempty, arith, eq_iff, Option-cases, inl, inr,
}
use modemproxy.Table
use modemproxy.Config.{Config}
use modemproxy.Db.Rows.{Modem, GeoLabel, Store}
use modemproxy.Db.Modems.{ModemField, upsert_modem, upsert_modem_log}
use modemproxy.Db.Listing.{Listed, list_modems}

abbrev pub geo_key : GeoLabel → String
geo_key r = r.ip

abbrev pub geo_row : String → String → ℕ → GeoLabel
geo_row ip label now = record { ip = ip; label = label; ts = now }

-- A label that was fetched is stored, unless it is empty.
remember : String → Option String → ℕ → Store → Option String × Store
remember ip none now s = (none, s)
remember ip (some label) now s =
    if nonempty label
    then (some label, record s { geoip = Table.insert geo_key (geo_row ip label now) s.geoip })
    else (some label, s)

unfoldable pub lookup : (String → Option String) → String → ℕ → Store → Option String × Store
unfolding remember
lookup fetch ip now s =
    if nonempty ip
    then elim (Table.find geo_key ip s.geoip) [
      | some r ↦ (some r.label, s)
      | none ↦ remember ip (fetch ip) now s
    ]
    else (none, s)

-- `label and label != m.get("geo")`
is_news : Option String → Option String → Bool
is_news none geo = false
is_news (some label) none = nonempty label
is_news (some label) (some old) = nonempty label && not (label == old)

relabel : String → Option String → Option String → ℕ → Store → ℕ × Store
unfolding is_news
relabel imei label geo now s =
    if is_news label geo then (1, upsert_modem imei (ModemField.geo label ∷ []) now s) else (0, s)

refresh_row : (String → Option String) → ℕ → Modem → Store → ℕ × Store
unfolding relabel
refresh_row fetch now m s = elim m.ip [
  | none ↦ (0, s)
  | some ip ↦
      if nonempty ip
      then (let (label, t) = lookup fetch ip now s in relabel m.imei label m.geo now t)
      else (0, s)
]

refresh_rows : (String → Option String) → ℕ → List Listed → Store → ℕ × Store
unfolding refresh_row
refresh_rows fetch now [] s = (0, s)
refresh_rows fetch now (r ∷ rs) s =
    let (n, t) = refresh_row fetch now r.modem s in
    let (rest, u) = refresh_rows fetch now rs t in (n + rest, u)

-- The number of modems with a new label, and the store.
unfoldable pub refresh_modems : (String → Option String) → Config → ℕ → Store → ℕ × Store
unfolding refresh_rows
refresh_modems fetch cfg now s =
    if cfg.geoip_enable then refresh_rows fetch now (list_modems s) s else (0, s)

-- A label that a lookup gave is given again later without a fetch, whatever the network says then;
-- only an empty label is not kept.
pub lookup-lookup :
    (fetch later : String → Option String) (ip label : String) (now after : ℕ) (s : Store)
    → (lookup fetch ip now s).0 ≡ some label
    → nonempty label ≡ true
    → lookup later ip after (lookup fetch ip now s).1 ≡ (some label, (lookup fetch ip now s).1)
unfolding lookup
lookup-lookup fetch later ip label now after s h full =
    elim (Option-cases (Table.find geo_key ip s.geoip)) [
      | inr (r, e) ↦ ground (arith, e)
      | inl e ↦ elim (Option-cases (fetch ip)) [
        | inl f ↦ absurd (ground (arith, e, f))
        | inr (l, f) ↦
            ground
              (arith, e, f, eq_iff ip ip, Table.find-insert geo_key ip (geo_row ip l now) s.geoip)
      ]
    ]

relabel_log :
    (imei : String) (label geo : Option String) (now : ℕ) (s : Store)
    → (relabel imei label geo now s).1.rotation_log ≡ s.rotation_log
unfolding relabel
relabel_log imei label geo now s =
    ground (arith, upsert_modem_log imei (ModemField.geo label ∷ []) now s)

lookup_log :
    (fetch : String → Option String) (ip : String) (now : ℕ) (s : Store)
    → (lookup fetch ip now s).1.rotation_log ≡ s.rotation_log
unfolding lookup
lookup_log fetch ip now s = ground arith

refresh_row_log :
    (fetch : String → Option String) (now : ℕ) (m : Modem) (s : Store)
    → (refresh_row fetch now m s).1.rotation_log ≡ s.rotation_log
unfolding refresh_row
refresh_row_log fetch now m s = elim (Option-cases m.ip) [
  | inl e ↦ rw e refl
  | inr (ip, e) ↦ rw e (
      if_cases (λ (x : ℕ × Store). x.1.rotation_log ≡ s.rotation_log) (nonempty ip) _ _
        (λ h.
          relabel_log m.imei (lookup fetch ip now s).0 m.geo now (lookup fetch ip now s).1
          ∙ lookup_log fetch ip now s)
        (λ h. refl))
]

refresh_rows_log :
    (fetch : String → Option String) (now : ℕ) (rs : List Listed) (s : Store)
    → (refresh_rows fetch now rs s).1.rotation_log ≡ s.rotation_log
unfolding refresh_rows
refresh_rows_log fetch now [] s = refl
refresh_rows_log fetch now (r ∷ rs) s =
    refresh_rows_log fetch now rs (refresh_row fetch now r.modem s).1
    ∙ refresh_row_log fetch now r.modem s

pub refresh_modems_log :
    (fetch : String → Option String) (cfg : Config) (now : ℕ) (s : Store)
    → (refresh_modems fetch cfg now s).1.rotation_log ≡ s.rotation_log
unfolding refresh_modems
refresh_modems_log fetch cfg now s = ground (arith, refresh_rows_log fetch now (list_modems s) s)
