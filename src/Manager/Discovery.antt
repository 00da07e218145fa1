-- ===== src/Manager/Discovery.antt =====
-- modemproxy/modems/manager.py: discover.
use modemproxy.Prelude.{
  ℕ, String, Bool, true, false, ◌&&◌, List, [], ◌∷◌, Option, none, some, ◌==◌, truthy_text, or_text,
  truthy, nonzero, if◌then◌else◌,
}
use modemproxy.Text.{last_chars}
use modemproxy.Result.{Result, ok, err, mm_error, ◌>>=◌}
use modemproxy.Events.{Event}
use modemproxy.Db.Modems.{ModemField, upsert_modem}
use modemproxy.Db.Listing.{Listed, list_modems}
use modemproxy.Generator.Sync.{System, Host, sync_pool}
use modemproxy.Services.Notify.{announce}
use modemproxy.Services.Autoreboot.{Rebooter, record_fault}
use modemproxy.Services.Geoip.{refresh_modems}
use modemproxy.Netdev
use modemproxy.Control.{Shell, ModemInfo, modem_info, list_modem_ids, control_safe_ip}

abbrev pub online_text : Bool → String
online_text true = "online"
online_text false = "offline"

-- `"online" if info.get("state") == "connected" else "offline"`
unfoldable pub seen_status : ModemInfo → String
seen_status info = online_text (elim info.state [ none ↦ false | some st ↦ st == "connected" ])

-- The row that a modem of ModemManager is written to, with its address.
unfoldable pub store_info : ModemInfo → String → Option String → ℕ → System → System
unfolding seen_status
store_info info imei ip now sys = record sys {
  db =
      upsert_modem imei
        (ModemField.kind (some "mm")
          ∷ ModemField.mm_path (some info.mm_path)
          ∷ ModemField.model info.model
          ∷ ModemField.operator info.operator
          ∷ ModemField.iface info.iface
          ∷ ModemField.signal info.signal
          ∷ ModemField.ip ip
          ∷ ModemField.status (some (seen_status info))
          ∷ ModemField.last_seen (some now)
          ∷ [])
        now sys.db;
}

-- `_one`: a modem that answers no IMEI is left out, and so is one whose call ends in an MMError.
unfoldable pub see_one : Shell → String → ℕ → System → Result System
unfolding store_info
see_one shell mid now sys = elim (modem_info shell mid) [
  | ok info ↦ elim (truthy_text info.imei) [
    | true ↦
        control_safe_ip shell mid >>= λ ip. ok (store_info info (or_text info.imei "") ip now sys)
    | false ↦ ok sys
  ]
  | err e ↦ elim e [ mm_error text ↦ ok sys | other ↦ err other ]
]

unfoldable pub see_all : Shell → List String → ℕ → System → Result System
see_all shell [] now sys = ok sys
see_all shell (mid ∷ mids) now sys =
    see_one shell mid now sys >>= λ next. see_all shell mids now next

unfoldable pub listed_or_none : Result (List String) → Result (List String)
listed_or_none (ok ids) = ok ids
listed_or_none (err e) = elim e [ mm_error text ↦ ok [] | other ↦ err other ]

-- A proxy that should be up: enabled, with a port, and offline.
unfoldable pub is_down : Listed → Bool
is_down l = elim l.port [
  | none ↦ false
  | some p ↦ nonzero p.enabled && truthy p.http_port && l.modem.status == "offline"
]

tell_down : Rebooter → Listed → ℕ → System → System
tell_down works l now sys =
    let told =
      announce (Event.proxy_down l.modem.imei (or_text l.modem.name (last_chars 6 l.modem.imei)))
        now sys in
    if sys.config.autoreboot_enable
    then record_fault works l.modem.imei sys.config.score_offline now told
    else told

unfoldable pub tell_all_down : Rebooter → List Listed → ℕ → System → System
unfolding tell_down is_down
tell_all_down works [] now sys = sys
tell_all_down works (l ∷ ls) now sys =
    tell_all_down works ls now (if is_down l then tell_down works l now sys else sys)

-- After the modems were seen: the alerts, the labels, the pool. `devices` is what the
-- net-mode dongles answer.
unfoldable pub discover :
    Host
    → String
    → Shell
    → Netdev.Field
    → Rebooter
    → (String → Option String)
    → ℕ
    → System
    → Result System
unfolding see_all listed_or_none tell_all_down
discover host fresh shell devices works fetch now sys =
    listed_or_none (list_modem_ids shell) >>= λ ids. see_all shell ids now sys >>= λ seen.
    let all = Netdev.discover devices now seen in
    let told = tell_all_down works (list_modems all.db) now all in
    ok (
      sync_pool host fresh now
        (record told { db = (refresh_modems fetch told.config now told.db).1 }))
