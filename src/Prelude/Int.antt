-- ===== src/Prelude/Int.antt =====
-- The integers of Python that can be negative.
use Prim.Native.Nat.{ℕ, zero, suc}
use mathlib.Core.Bool.{Bool, true, false}
use mathlib.Core.Option.{Option, none, some}

pub data ℤ : Type 0 where
  pos : ℕ → ℤ
  negsuc : ℕ → ℤ

abbrev pub truthy_int : Option ℤ → Bool
truthy_int none = false
truthy_int (some (pos zero)) = false
truthy_int (some (pos (suc n))) = true
truthy_int (some (negsuc n)) = true
