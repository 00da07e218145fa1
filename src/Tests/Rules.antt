-- ===== src/Tests/Rules.antt =====
-- Runs of modemproxy/services/ttl.py with an iptables that records its orders.
use modemproxy.Prelude.{String, true, false, List, [], ◌∷◌, none, some, pos, ◌≡◌, refl}
use modemproxy.Text.{decimal}
use modemproxy.Services.Ttl.{Iptables, ensure_ttl, clear_ttl}

-- An iptables that answers 0 to everything and keeps the arguments of each call.
abbrev recorder : Iptables (List (List String))
recorder = record { run = λ args s. (some 0, args ∷ s) }

ensure_ttl_off : ensure_ttl recorder (pos 0) "eth1" [] ≡ (false, [])
unfolding ensure_ttl
ensure_ttl_off = refl

clear_ttl_default :
    clear_ttl recorder (pos 0) "eth1" none []
    ≡ ("-t" ∷ "mangle" ∷ "-D" ∷ "POSTROUTING" ∷ "-o" ∷ "eth1" ∷ "-j" ∷ "TTL" ∷ "--ttl-set" ∷ "65"
        ∷ [])
      ∷ []
unfolding clear_ttl decimal
clear_ttl_default = refl

-- The rule as it is tested: the option -C is followed by -t, where a chain is to stand.
ensure_ttl_present : ensure_ttl recorder (pos 65) "eth1" [] ≡ (
  true,
  ("-C" ∷ "-t" ∷ "mangle" ∷ "POSTROUTING" ∷ "-o" ∷ "eth1" ∷ "-j" ∷ "TTL" ∷ "--ttl-set" ∷ "65" ∷ [])
      ∷ [],
)
unfolding ensure_ttl decimal
ensure_ttl_present = refl
