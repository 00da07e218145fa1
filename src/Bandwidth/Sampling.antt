-- ===== src/Bandwidth/Sampling.antt =====
-- modemproxy/services/bandwidth.py: sample, which stores the counters of each modem.
use modemproxy.Prelude.{
  ℕ, suc, String, Bool, true, List, [], ◌∷◌, ◌++◌, Option, none, some, if◌then◌else◌, truthy_text,
  ◌≡◌, refl,
}
use modemproxy.Text.{◌<>◌, alnum_only}
use modemproxy.Text.Cut.{contains, splitlines, words, digits}
use modemproxy.Db.Rows.{Modem, Sample, Store}

-- What is outside: if iptables has a rule, its listing of a chain, where it gives one, after the rules
-- were added, and the counters of an interface under /sys, rx first.
pub record Meters : Type 0 where
  pub has_rule : List String → Bool
  pub listing : String → Option String
  pub iface_counters : String → Option (ℕ × ℕ)

-- _bw_tag
unfoldable pub bw_tag : String → String
bw_tag imei = "mpbw_" <> alnum_only imei

rule : String → String → String → String → List String
rule imei bind_ip chain selector =
    chain ∷ selector ∷ bind_ip ∷ "-m" ∷ "comment" ∷ "--comment" ∷ bw_tag imei ∷ []

added : Meters → List String → List (List String)
added meters r = if meters.has_rule r then [] else ("iptables" ∷ "-w" ∷ "-A" ∷ r) ∷ []

-- The commands of _ensure_bw_rules that add a rule.
unfoldable pub ensure_bw_rules : Meters → String → String → List (List String)
unfolding rule added
ensure_bw_rules meters imei bind_ip =
    added meters (rule imei bind_ip "OUTPUT" "-s") ++ added meters (rule imei bind_ip "INPUT" "-d")

second_number : List String → Option ℕ
second_number (a ∷ b ∷ rest) = digits b
second_number ws = none

-- Of the first line that contains the tag.
tagged_bytes : String → List String → Option ℕ
unfolding second_number
tagged_bytes tag [] = none
tagged_bytes tag (line ∷ lines) =
    let rest = tagged_bytes tag lines in
    if contains tag line then second_number (words line) else rest

chain_bytes : Meters → String → String → Option ℕ
unfolding tagged_bytes
chain_bytes meters tag chain = elim (meters.listing chain) [
  | none ↦ none
  | some text ↦ tagged_bytes tag (splitlines text)
]

both : Option ℕ → Option ℕ → Option (ℕ × ℕ)
both none none = none
both none (some tx) = some (0, tx)
both (some rx) none = some (rx, 0)
both (some rx) (some tx) = some (rx, tx)

-- (rx, tx)
unfoldable pub read_bw_counters : Meters → String → Option (ℕ × ℕ)
unfolding chain_bytes both
read_bw_counters meters imei =
    both (chain_bytes meters (bw_tag imei) "INPUT") (chain_bytes meters (bw_tag imei) "OUTPUT")

first_of_two : Option (ℕ × ℕ) → Option (ℕ × ℕ) → Option (ℕ × ℕ)
first_of_two none b = b
first_of_two (some a) b = some a

unfoldable pub counters_of : Meters → Modem → String → Option (ℕ × ℕ)
unfolding first_of_two
counters_of meters m iface =
    first_of_two (if truthy_text m.bind_ip then read_bw_counters meters m.imei else none)
      (meters.iface_counters iface)

-- `WHERE iface IS NOT NULL`
unfoldable pub row_of : Meters → ℕ → Modem → List Sample
row_of meters now m = elim m.iface [
  | none ↦ []
  | some iface ↦ elim (counters_of meters m iface) [
    | none ↦ []
    | some (rx, tx) ↦ record { imei = m.imei; ts = now; rx_bytes = rx; tx_bytes = tx } ∷ []
  ]
]

-- The loop of `sample`: its count and the table.
sample_rows : Meters → ℕ → List Modem → ℕ → List Sample → ℕ × List Sample
sample_rows meters now [] n table = (n, table)
sample_rows meters now (m ∷ ms) n table = elim (row_of meters now m) [
  | [] ↦ sample_rows meters now ms n table
  | r ∷ rs ↦ sample_rows meters now ms (suc n) (table ++ r ∷ [])
]

unfoldable pub sample_all : Meters → ℕ → Store → ℕ × Store
unfolding sample_rows
sample_all meters now s =
    let (n, table) = sample_rows meters now s.modems 0 s.bandwidth in
    (n, record s { bandwidth = table })

-- The rule of usb10 comes first, and its tag contains that of usb1.
listing_of_ten : Meters
listing_of_ten = record {
  has_rule = λ r. true;
  listing = λ chain.
      some
        "pkts bytes\n 5 900 all -- * * 10.0.0.10 /* mpbw_netusb10 */\n 1 20 all -- * * 10.0.0.1 /* mpbw_netusb1 */";
  iface_counters = λ iface. none;
}

tags_overlap : read_bw_counters listing_of_ten "net-usb1" ≡ some (900, 900)
unfolding read_bw_counters bw_tag alnum_only contains splitlines words digits listing_of_ten
tags_overlap = refl
