-- ===== src/Web/Scans/Solo.antt =====
-- A modem's bands are scanned by one thread at a time.
use Prim.Native.Char.{code}
use Prim.Native.String.append
use modemproxy.Prelude.{
  ℕ, suc, ◌≤◌, ◌<◌, ◌≡◌, refl, sym, ◌∙◌, ap, String, true, false, List, [], ◌∷◌, Option, none, some,
  arith, eq_iff, if◌then◌else◌, ◌==◌, has_text, Bool-cases, Option-cases, inl, inr, str_ne,
}
use modemproxy.Text.{◌<>◌}
use modemproxy.Text.Cut.{dict_set, dict_get}
use modemproxy.Result.{Error}
use modemproxy.Manager.{error_text}
use modemproxy.Db.Rows.{Store}
use modemproxy.Db.Modems.{get_modem}
use modemproxy.Web.Scans.{
  Scans, no_scans, status_of, set_status, api_bands_scan, outcome_text, remove_one, end_scan,
  ScanStep, asked, began, over, begin_scan, go_on, ScanReach, here, next,
}

-- How many threads scan a modem.
abbrev pub scanning : String → List String → ℕ
scanning imei [] = 0
scanning imei (t ∷ ts) = if t == imei then suc (scanning imei ts) else scanning imei ts

dict_get-dict_set :
    (k j v : String) (d : List (String × String))
    → dict_get j (dict_set k v d) ≡ (if k == j then some v else dict_get j d)
unfolding dict_get dict_set
dict_get-dict_set k j v [] = refl
dict_get-dict_set k j v ((i, w) ∷ d) =
    ground (arith, eq_iff k j, eq_iff i k, eq_iff i j, dict_get-dict_set k j v d)

status_of-set_status :
    (k j v : String) (s : Scans)
    → status_of j (set_status k v s) ≡ (if k == j then v else status_of j s)
unfolding status_of set_status
status_of-set_status k j v s = ground (arith, dict_get-dict_set k j v s.statuses)

scanning-remove_one :
    (k j : String) (ts : List String)
    → has_text k ts ≡ true
    → scanning j ts
      ≡ (if k == j then suc (scanning j (remove_one k ts)) else scanning j (remove_one k ts))
unfolding remove_one has_text
scanning-remove_one k j [] h = cc
scanning-remove_one k j (t ∷ ts) h =
    ground (arith, h, eq_iff k j, eq_iff t k, eq_iff t j, scanning-remove_one k j ts)

abbrev first : String → ℕ
first String.[] = 0
first (String.◌∷◌ c s) = code c

not_running : (failure : Option Error) → (outcome_text failure == "running") ≡ false
unfolding outcome_text
not_running none = refl
not_running (some e) =
    str_ne ("error: " <> error_text e) "running"
      (λ h. absurd (omega (arith, ap first (sym (append.cons "e" "rror: " (error_text e)) ∙ h))))

status_of-end_scan :
    (k j : String) (failure : Option Error) (s : Scans)
    → status_of j (end_scan k failure s) ≡ (if k == j then outcome_text failure else status_of j s)
unfolding status_of end_scan
status_of-end_scan k j failure s = status_of-set_status k j (outcome_text failure) s

-- A modem while no two requests for it are between test and start: one thread where the status says
-- so and none elsewhere, and no status that says so while a request is about to start a thread.
abbrev Settled : Scans → String → Type 0
Settled s j =
    (scanning j s.threads ≡ (if status_of j s == "running" then 1 else 0))
    × (0 < scanning j s.asking → (status_of j s == "running") ≡ false)

abbrev AllSettled : Scans → Type 0
AllSettled s = (j : String) → Settled s j

status_of-begin_scan :
    (k j : String) (s : Scans)
    → status_of j (begin_scan k s) ≡ (if k == j then "running" else status_of j s)
unfolding begin_scan status_of
status_of-begin_scan k j s =
    status_of-set_status k j "running" (record s { asking = remove_one k s.asking })

begin_scan-Settled :
    (imei j : String) (s : Scans)
    → has_text imei s.asking ≡ true
    → scanning j s.asking ≤ 1
    → Settled s j
    → Settled (begin_scan imei s) j
unfolding begin_scan
begin_scan-Settled imei j s there few h =
    let left = scanning-remove_one imei j s.asking there in
    elim (Bool-cases (imei == j)) [
      | inl same ↦
          rw (status_of-begin_scan imei j s, same)
            (
              ground (arith, h.0, h.1, left, same, few),
              λ pos. absurd (ground (arith, left, same, few, pos)),
            )
      | inr other ↦
          rw (status_of-begin_scan imei j s, other)
            (h.0, λ pos. h.1 (ground (arith, left, other, pos)))
    ]

end_scan-Settled :
    (imei j : String) (failure : Option Error) (s : Scans)
    → has_text imei s.threads ≡ true
    → Settled s j
    → Settled (end_scan imei failure s) j
unfolding end_scan
end_scan-Settled imei j failure s there h =
    let left = scanning-remove_one imei j s.threads there in
    elim (Bool-cases (imei == j)) [
      | inl same ↦
          rw (status_of-end_scan imei j failure s, same, not_running failure)
            (ground (arith, left, h.0, same), λ pos. refl)
      | inr other ↦
          rw (status_of-end_scan imei j failure s, other) (ground (arith, left, h.0, other), h.1)
    ]

go_on-Settled :
    (imei j : String) (s : Scans)
    → (status_of imei s == "running") ≡ false
    → Settled s j
    → Settled (go_on imei s) j
unfolding go_on status_of
go_on-Settled imei j s idle h = (
  h.0,
  λ pos. elim (Bool-cases (imei == j)) [
    | inl same ↦ rw ((eq_iff imei j).0 same) at idle
    | inr other ↦ h.1 (ground (arith, other, pos))
  ],
)

api_bands_scan-Settled :
    (imei j : String) (db : Store) (s : Scans)
    → Settled s j
    → Settled (api_bands_scan imei db s).1 j
unfolding api_bands_scan
api_bands_scan-Settled imei j db s h = elim (Option-cases (get_modem imei db)) [
  | inl e ↦ rw (api_bands_scan, e) h
  | inr (m, e) ↦ elim (Bool-cases (status_of imei s == "running")) [
    | inl busy ↦ rw (api_bands_scan, e, busy) h
    | inr idle ↦ rw (api_bands_scan, e, idle) (go_on-Settled imei j s idle h)
  ]
]

-- No two requests for one modem have passed the test without having started their thread.
abbrev pub OneAsks : Scans → Type 0
OneAsks s = (j : String) → scanning j s.asking ≤ 1

-- That holds all along a run.
unfoldable pub Uninterrupted : {s t : Scans} → ScanReach s t → Type 0
Uninterrupted here = Unit
Uninterrupted (next {t} {u} r st) = Uninterrupted r × OneAsks u

step-Settled : {s t : Scans} (j : String) → ScanStep s t → OneAsks s → Settled s j → Settled t j
step-Settled j (asked imei db s) few h = api_bands_scan-Settled imei j db s h
step-Settled j (began imei s there) few h = begin_scan-Settled imei j s there (few j) h
step-Settled j (over imei failure s there) few h = end_scan-Settled imei j failure s there h

no_scans-Settled : AllSettled no_scans
unfolding status_of dict_get
no_scans-Settled j = (refl, λ pos. refl)

no_scans-OneAsks : OneAsks no_scans
no_scans-OneAsks j = omega arith

reach-OneAsks : {t : Scans} (r : ScanReach no_scans t) → Uninterrupted r → OneAsks t
unfolding Uninterrupted
reach-OneAsks here un = no_scans-OneAsks
reach-OneAsks (next r st) un = un.1

reach-Settled : {t : Scans} (r : ScanReach no_scans t) → Uninterrupted r → AllSettled t
unfolding Uninterrupted
reach-Settled here un = no_scans-Settled
reach-Settled (next r st) un =
    λ j. step-Settled j st (reach-OneAsks r un.0) (reach-Settled r un.0 j)

-- Whatever requests come, in whatever order their threads start and end, with or without an error: if
-- at no time two requests for one modem are between the test of its status and the start of their
-- thread, then a modem has one thread that scans it exactly when its status is "running", and none
-- otherwise.
pub ScanReach-no_scans-IsSolo :
    (s : Scans) (r : ScanReach no_scans s)
    → Uninterrupted r
    → (imei : String) → scanning imei s.threads ≡ (if status_of imei s == "running" then 1 else 0)
ScanReach-no_scans-IsSolo s r un imei = (reach-Settled r un imei).0
