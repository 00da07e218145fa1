-- ===== src/Manager/Attempts.antt =====
-- The attempts of manager.rotate: which of them decides.
use modemproxy.Prelude.{
  ℕ, zero, suc, ◌+◌, ◌<◌, ◌≡◌, refl, sym, ap, Bool-cases, ◌∙◌, String, Bool, true, false, Option,
  arith, ◌⊎◌, inl, inr,
}
use modemproxy.Result.{Result, ok, err, Result-cases}
use modemproxy.Manager.{attempt}

-- An answer that ends the loop: an exception, or an address that is good enough.
abbrev pub is_decisive : (Option String → Bool) → Result (Option String) → Bool
is_decisive stop (err e) = true
is_decisive stop (ok ip) = stop ip

-- Attempt `n` is the first whose answer ends the loop, or the last one of `left`.
pub record Decides (answer : ℕ → Result (Option String)) (stop : Option String → Bool)
    (k left n : ℕ) : Type 0 where
  pub within : n < left
  pub undecided : (j : ℕ) → j < n → is_decisive stop (answer (k + j)) ≡ false
  pub decided : (is_decisive stop (answer (k + n)) ≡ true) ⊎ (suc n ≡ left)

pub Nat-cases : (j : ℕ) → (j ≡ 0) ⊎ ((i : ℕ) × (j ≡ suc i))
Nat-cases zero = inl refl
Nat-cases (suc i) = inr (i, refl)

shift : (k j : ℕ) → suc k + j ≡ k + suc j
shift k j = omega arith

module _ (answer : ℕ → Result (Option String)) (stop : Option String → Bool) where
  first_decides :
      (k left : ℕ) (last : Option String)
      → (is_decisive stop (answer k) ≡ true) ⊎ (1 ≡ suc left)
      → attempt answer stop k (suc left) last ≡ answer k
  unfolding attempt
  first_decides k left last h = elim (Result-cases (answer k)) [
    | inr (e, f) ↦ rw (attempt, f) refl
    | inl (ip, f) ↦ elim h [ inl good ↦ ground (arith, f, good) | inr one ↦ ground (arith, f, one) ]
  ]

  next_try :
      (k left : ℕ) (last : Option String)
      → is_decisive stop (answer k) ≡ false
      → (ip : Option String) × (attempt answer stop k (suc left) last
          ≡ attempt answer stop (suc k) left ip)
  unfolding attempt
  next_try k left last h = elim (Result-cases (answer k)) [
    | inr (e, f) ↦ absurd (ground (arith, f))
    | inl (ip, f) ↦ (ip, ground (arith, f))
  ]

  later_try :
      (n k left : ℕ) → Decides answer stop k (suc left) (suc n) → Decides answer stop (suc k) left n
  later_try n k left d = record {
    within = omega (arith, d.within);
    undecided = λ j h.
        ap (λ i. is_decisive stop (answer i)) (shift k j) ∙ d.undecided (suc j) (omega (arith, h));
    decided = elim d.decided [
      | inl h ↦ inl (ap (λ i. is_decisive stop (answer i)) (shift k n) ∙ h)
      | inr h ↦ inr (omega (arith, h))
    ];
  }

  -- The loop answers what the deciding attempt answered.
  pub attempt-Decides :
      (n k left : ℕ) (last : Option String)
      → Decides answer stop k left n
      → attempt answer stop k left last ≡ answer (k + n)
  attempt-Decides n k zero last d = absurd (omega (arith, d.within))
  attempt-Decides zero k (suc left) last d =
      let same : k + 0 ≡ k = omega arith in
      first_decides k left last (elim d.decided [
        | inl h ↦ inl (ap (λ i. is_decisive stop (answer i)) (sym same) ∙ h)
        | inr h ↦ inr h
      ])
      ∙ ap answer (sym same)
  attempt-Decides (suc n) k (suc left) last d =
      let same : k + 0 ≡ k = omega arith in
      let (ip, e) =
        next_try k left last
          (ap (λ i. is_decisive stop (answer i)) (sym same) ∙ d.undecided 0 (omega arith)) in
      e ∙ attempt-Decides n (suc k) left ip (later_try n k left d) ∙ ap answer (shift k n)

  later_Decides :
      (n k left : ℕ)
      → is_decisive stop (answer k) ≡ false
      → Decides answer stop (suc k) left n
      → Decides answer stop k (suc left) (suc n)
  later_Decides n k left h d = record {
    within = omega (arith, d.within);
    undecided = λ j below. elim (Nat-cases j) [
      | inl e ↦
          ap (λ i. is_decisive stop (answer (k + i))) e
          ∙ ap (λ i. is_decisive stop (answer i)) (omega arith)
          ∙ h
      | inr (i, e) ↦
          ap (λ a. is_decisive stop (answer (k + a))) e
          ∙ ap (λ a. is_decisive stop (answer a)) (sym (shift k i))
          ∙ d.undecided i (omega (arith, below, e))
    ];
    decided = elim d.decided [
      | inl e ↦ inl (ap (λ a. is_decisive stop (answer a)) (sym (shift k n)) ∙ e)
      | inr e ↦ inr (omega (arith, e))
    ];
  }

  first_Decides :
      (k left : ℕ)
      → (is_decisive stop (answer k) ≡ true) ⊎ (1 ≡ suc left)
      → Decides answer stop k (suc left) 0
  first_Decides k left h = record {
    within = omega arith;
    undecided = λ j below. absurd (omega (arith, below));
    decided = elim h [
      | inl e ↦ inl (ap (λ a. is_decisive stop (answer a)) (omega arith) ∙ e)
      | inr e ↦ inr e
    ];
  }

  -- One of the attempts decides.
  pub Decides-exists : (left k : ℕ) → (n : ℕ) × Decides answer stop k (suc left) n
  Decides-exists zero k = (0, first_Decides k 0 (inr refl))
  Decides-exists (suc left) k =
      let (n, d) = Decides-exists left (suc k) in
      elim (Bool-cases (is_decisive stop (answer k))) [
        | inl h ↦ (0, first_Decides k (suc left) (inl h))
        | inr h ↦ (suc n, later_Decides n k (suc left) h d)
      ]
