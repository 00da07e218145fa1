-- ===== src/Services/Ttl.antt =====
-- modemproxy/services/ttl.py: the iptables rule that fixes the TTL of what leaves by an interface.
use modemproxy.Prelude.{
  ℕ, zero, suc, String, Bool, true, false, List, [], ◌∷◌, Option, none, some, if◌then◌else◌,
  nonempty, ℤ, pos, negsuc,
}
use modemproxy.Text.{◌<>◌, decimal}

int_text : ℤ → String
int_text (pos n) = decimal n
int_text (negsuc n) = "-" <> decimal (suc n)

-- `ttl <= 0`
at_most_zero : ℤ → Bool
at_most_zero (pos zero) = true
at_most_zero (pos (suc n)) = false
at_most_zero (negsuc n) = true

-- `x or y` of integers
or_int : ℤ → ℤ → ℤ
or_int (pos zero) d = d
or_int (pos (suc n)) d = pos (suc n)
or_int (negsuc n) d = negsuc n

-- What iptables does with its arguments: its return code, `none` when there is no such program,
-- and the tables that it leaves.
pub record Iptables {ℓ} (S : Type ℓ) : Type ℓ where
  pub run : List String → S → Option ℕ × S

or_127 : Option ℕ → ℕ
or_127 none = 127
or_127 (some code) = code

-- `_iptables`
call {ℓ} : {S : Type ℓ} → Iptables S → List String → S → ℕ × S
unfolding or_127
call t args s = let r = t.run args s in (or_127 r.0, r.1)

rule_args : String → ℤ → List String
unfolding int_text
rule_args iface ttl =
    "-t" ∷ "mangle" ∷ "POSTROUTING" ∷ "-o" ∷ iface ∷ "-j" ∷ "TTL" ∷ "--ttl-set" ∷ int_text ttl ∷ []

-- Whether the code that a call gave is 0, with what the call left.
succeeded {ℓ} : {S : Type ℓ} → ℕ × S → Bool × S
succeeded (zero, s) = (true, s)
succeeded (suc _, s) = (false, s)

add_rule {ℓ} : {S : Type ℓ} → Iptables S → List String → Bool × S → Bool × S
unfolding call succeeded
add_rule t rule (true, s) = (true, s)
add_rule t rule (false, s) = succeeded (call t ("-A" ∷ rule) s)

-- The first argument is `custom_ttl`.
unfoldable pub ensure_ttl {ℓ} : {S : Type ℓ} → Iptables S → ℤ → String → S → Bool × S
unfolding add_rule succeeded call rule_args at_most_zero
ensure_ttl t custom_ttl iface s =
    if at_most_zero custom_ttl
    then (false, s)
    else if nonempty iface
    then add_rule t (rule_args iface custom_ttl)
        (succeeded (call t ("-C" ∷ rule_args iface custom_ttl) s))
    else (false, s)

ttl_to_clear : ℤ → Option ℤ → ℤ
unfolding or_int
ttl_to_clear custom_ttl none = or_int custom_ttl (pos 65)
ttl_to_clear custom_ttl (some t) = t

unfoldable pub clear_ttl {ℓ} : {S : Type ℓ} → Iptables S → ℤ → String → Option ℤ → S → S
unfolding call ttl_to_clear int_text
clear_ttl t custom_ttl iface ttl s =
    (call t
      ("-t"
        ∷ "mangle"
        ∷ "-D"
        ∷ "POSTROUTING"
        ∷ "-o"
        ∷ iface
        ∷ "-j"
        ∷ "TTL"
        ∷ "--ttl-set"
        ∷ int_text (ttl_to_clear custom_ttl ttl)
        ∷ [])
      s).1
