-- ===== src/Prelude/Truth.antt =====
-- Python's truth tests on values that may be `None`, and `a or b`.
use Prim.Native.Nat.{ℕ}
use Prim.Native.String.{String}
use mathlib.Core.Bool.{Bool, false, not}
use mathlib.Core.Option.{Option, none, some}
use modemproxy.Prelude.Tests.{eqb, ◌==◌, if◌then◌else◌}

-- A number is false when it is zero, a text when it is empty, and `None` always.
abbrev pub nonzero : ℕ → Bool
nonzero n = not (eqb n 0)

abbrev pub nonempty : String → Bool
nonempty s = not (s == "")

abbrev pub truthy : Option ℕ → Bool
truthy none = false
truthy (some n) = nonzero n

abbrev pub truthy_text : Option String → Bool
truthy_text none = false
truthy_text (some s) = nonempty s

-- `o or d`
abbrev pub or_nat : Option ℕ → ℕ → ℕ
or_nat none d = d
or_nat (some n) d = if nonzero n then n else d

abbrev pub or_text : Option String → String → String
or_text none d = d
or_text (some s) d = if nonempty s then s else d
