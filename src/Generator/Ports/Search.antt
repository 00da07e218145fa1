-- ===== src/Generator/Ports/Search.antt =====
-- modemproxy/proxy/generator.py: the loops `while h in used: h += 1` of allocate_port, and
-- modemproxy/modems/netdev.py: the same loop in _next_table.
use modemproxy.Prelude.{
  ℕ, zero, suc, ◌+◌, ◌≤◌, ◌<◌, ◌≡◌, refl, true, false, List, [], ◌∷◌, arith, if◌then◌else◌, max,
  has_nat, Bool-cases, inl, inr,
}

largest : List ℕ → ℕ
largest [] = 0
largest (x ∷ xs) = max x (largest xs)

search : ℕ → ℕ → List ℕ → ℕ
search zero h used = h
search (suc fuel) h used = let rest = search fuel (h + 1) used in if has_nat h used then rest else h

-- One round for each number up to the largest used one is enough, since no number above it is used.
unfoldable pub next_free : ℕ → List ℕ → ℕ
unfolding search largest
next_free h used = search (suc (largest used)) h used

above_largest : (h : ℕ) (used : List ℕ) → largest used < h → has_nat h used ≡ false
unfolding largest has_nat
above_largest h [] lt = refl
above_largest h (x ∷ xs) lt = ground (arith, above_largest h xs)

search_free :
    (fuel h : ℕ) (used : List ℕ)
    → largest used < h + fuel
    → has_nat (search fuel h used) used ≡ false
unfolding search
search_free zero h used lt = above_largest h used (omega arith)
search_free (suc fuel) h used lt = ground (arith, search_free fuel (h + 1) used (omega arith))

search_least :
    (fuel h k : ℕ) (used : List ℕ) → h ≤ k → k < search fuel h used → has_nat k used ≡ true
unfolding search
search_least zero h k used le lt = absurd (omega arith)
search_least (suc fuel) h k used le lt = elim (Bool-cases (has_nat h used)) [
  | inl yes_used ↦ elim (Bool-cases (has_nat k used)) [
    | inl done ↦ done
    | inr not_k ↦ ground (arith, search_least fuel (h + 1) k used)
  ]
  | inr free ↦ absurd (ground arith)
]

search_from : (fuel h : ℕ) (used : List ℕ) → h ≤ search fuel h used
unfolding search
search_from zero h used = omega arith
search_from (suc fuel) h used = ground (arith, search_from fuel (h + 1) used)

-- The loop ends at the least number from `h` up that is not used.
pub next_free_lem :
    (h : ℕ) (used : List ℕ)
    → (h ≤ next_free h used)
      × (has_nat (next_free h used) used ≡ false)
      × ((k : ℕ) → h ≤ k → k < next_free h used → has_nat k used ≡ true)
unfolding next_free
next_free_lem h used = (
  search_from (suc (largest used)) h used,
  search_free (suc (largest used)) h used (omega arith),
  λ k le lt. search_least (suc (largest used)) h k used le lt,
)
